-- ===== src/Links/Slugs.antt =====
-- scripts/check-doc-links.py: a heading of a page has an anchor.
use antfarm.Prelude.{
  ℕ, ◌-◌, ◌≡◌, inl, inr, refl, sym, ap, ◌∙◌, subst, ◌⊎◌, Bool, true, false, List, [], ◌∷◌, ◌++◌,
  none, some, leb, ◌==◌, if◌then◌else◌, length, arith, In, In-append, Bool-cases, ◌≢◌, eq_of_==,
}
use antfarm.Text.{Line, lstrip, rstrip, strip, is_visible, is_space, line_eq}
use antfarm.Links.Fences.{run, unfence}
use antfarm.Links.Anchors.{Unicode, anchor_slug, is_setext_underline, is_paragraph_line}
use antfarm.Links.Headings.{heading_of, anchors, hashes}
use antfarm.Links.Titles.{titles, titles-In}

hashes-first : (l : Line) (t : Line) → hashes l ≡ some t → (cs : Line) × (l ≡ b'#' ∷ cs)
unfolding run
hashes-first [] t h = absurd (clash h)
  where
    clash : none ≡ some t → ⊥
    clash h = cc
hashes-first (c ∷ cs) t h = elim (Bool-cases (c == b'#')) [
  | inl e ↦ (cs, ap (λ d. d ∷ cs) (eq_of_== c b'#' e))
  | inr e ↦ absurd (clash (sym (unhashed e) ∙ h))
]
  where
    unhashed : (c == b'#') ≡ false → hashes (c ∷ cs) ≡ none
    unhashed e = rw e refl

    clash : none ≡ some t → ⊥
    clash h = cc

heading_of-first :
    (line t : Line) → heading_of line ≡ some t → (cs : Line) × (lstrip line ≡ b'#' ∷ cs)
unfolding heading_of
heading_of-first line t h = go (leb (length line - length (lstrip line)) 3) h
  where
    go :
        (b : Bool)
        → (if b then hashes (lstrip line) else none) ≡ some t
        → (cs : Line) × (lstrip line ≡ b'#' ∷ cs)
    go true h = hashes-first (lstrip line) t h
    go false h = cc

lstrip-is_visible :
    (line : Line) (c : ℕ) (cs : Line) → lstrip line ≡ c ∷ cs → is_visible line ≡ true
unfolding lstrip is_visible
lstrip-is_visible [] c cs h = cc
lstrip-is_visible (d ∷ ds) c cs h = ground (arith, lstrip-is_visible ds c cs)

rstrip_hash : (cs : Line) → (ds : Line) × (rstrip (b'#' ∷ cs) ≡ b'#' ∷ ds)
unfolding rstrip is_space
rstrip_hash cs =
    elim (rstrip cs)
      as (λ r.
        (ds : Line) × ((elim r [ [] ↦ b'#' ∷ [] | ◌∷◌ d rest ↦ b'#' ∷ d ∷ rest ]) ≡ b'#' ∷ ds)) [
          | [] ↦ ([], refl)
          | ◌∷◌ d rest ↦ (d ∷ rest, refl)
        ]

is_setext_underline_hash :
    (line cs : Line) → lstrip line ≡ b'#' ∷ cs → is_setext_underline line ≡ false
unfolding is_setext_underline strip
is_setext_underline_hash line cs h = rw h (rw ((rstrip_hash cs).1) refl)

is_visible-strip : (line : Line) → is_visible line ≡ false → strip line ≡ []
unfolding strip lstrip is_visible rstrip
is_visible-strip [] h = refl
is_visible-strip (c ∷ cs) h = ground (arith, is_visible-strip cs)

module _ (u : Unicode) where
  paragraph-is_visible : (line : Line) → is_paragraph_line u line ≡ true → is_visible line ≡ true
  unfolding is_paragraph_line line_eq
  paragraph-is_visible line h = elim (Bool-cases (is_visible line)) [
    | inl e ↦ e
    | inr e ↦ absurd (clash (sym (blank e) ∙ h))
  ]
    where
      blank : is_visible line ≡ false → is_paragraph_line u line ≡ false
      blank e = rw (is_visible-strip line e) refl

      clash : false ≡ true → ⊥
      clash q = cc

  -- The headings in lines: a line with marks, by its title, or a line of a paragraph with an underline
  -- below, by its text.
  abbrev pub IsHeading : Line → List Line → Type 0
  IsHeading t lines =
      ((line : Line) × (In line lines × (heading_of line ≡ some t)))
      ⊎ ((line : Line) × (under : Line) × (before : List Line) × (after : List Line) × ((lines
              ≡ before ++ line ∷ under ∷ after)
            × (heading_of line ≡ none)
            × (is_setext_underline line ≡ false)
            × (is_paragraph_line u line ≡ true)
            × (is_setext_underline under ≡ true)
            × (t ≡ strip line)))

  later : (t line : Line) (rest : List Line) → In t (titles u rest) → In t (titles u (line ∷ rest))
  unfolding titles
  later t line rest m = (In-append t _ (titles u rest)).1 (inr m)

  marked-In :
      (lines : List Line) (line t : Line)
      → In line lines
      → heading_of line ≡ some t
      → In t (titles u lines)
  unfolding titles
  marked-In [] line t m e = absurd m
  marked-In (l ∷ lines) line t (inr m) e = later t l lines (marked-In lines line t m e)
  marked-In (l ∷ lines) line t (inl q) e =
      subst (λ l. In t (titles u (l ∷ lines))) q (here (heading_of-first line t e))
    where
      here : (cs : Line) × (lstrip line ≡ b'#' ∷ cs) → In t (titles u (line ∷ lines))
      here (cs, f) =
          rw (is_setext_underline_hash line cs f, lstrip-is_visible line b'#' cs f, e) (inl refl)

  underlined-In :
      (before : List Line) (line under : Line) (after : List Line)
      → heading_of line ≡ none
      → is_setext_underline line ≡ false
      → is_paragraph_line u line ≡ true
      → is_setext_underline under ≡ true
      → In (strip line) (titles u (before ++ line ∷ under ∷ after))
  unfolding titles
  underlined-In (l ∷ before) line under after e f g h =
      later (strip line) l (before ++ line ∷ under ∷ after)
        (underlined-In before line under after e f g h)
  underlined-In [] line under after e f g h =
      rw (f, paragraph-is_visible line g, e, g, h) (inl refl)

  -- The slug of every heading of a page outside of its fenced blocks, marked by `#` or by an underline,
  -- is one of its anchors, if it is not empty.
  pub anchors-heading :
      (lines : List Line) (t : Line)
      → IsHeading t (unfence lines)
      → anchor_slug u t ≢ []
      → In (anchor_slug u t) (anchors u lines)
  anchors-heading lines t (inl (line, (m, e))) n =
      titles-In u lines t n (marked-In (unfence lines) line t m e)
  anchors-heading lines t (inr (line, under, before, after, (q, e, f, g, h, same))) n =
      titles-In u lines t n (
        subst (λ ls. In t (titles u ls)) (sym q)
          (subst (λ r. In r (titles u (before ++ line ∷ under ∷ after))) (sym same)
            (underlined-In before line under after e f g h)))
