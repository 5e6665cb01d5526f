-- ===== src/Links/Titles.antt =====
-- scripts/check-doc-links.py: the headings of a page, without the state of `anchors`, and how often each
-- slug has been added.
use antfarm.Prelude.{
  ℕ, suc, ◌+◌, ◌<◌, ◌≡◌, ◌≢◌, refl, subst, Bool, true, false, ◌&&◌, not, List, [], ◌∷◌, ◌++◌,
  Option, none, some, if◌then◌else◌, arith, In, Bool-cases, inl, inr,
}
use antfarm.Text.{Line, line_eq, line_eq-eq, line_eq_refl, is_visible, strip}
use antfarm.Links.Anchors.{Unicode, anchor_slug, is_setext_underline, is_paragraph_line}
use antfarm.Links.Headings.{
  Anchors, Reader, count_of, numbered, add_slug, with_ids, add, add_previous, text_line, read_line,
  read_lines, heading_of, attributes, anchors,
}
use antfarm.Links.Fences.{unfence}
use antfarm.Links.Numbering.{
  IsNumbered, count_of-counted, count_of-counted_other, read_lines-IsNumbered,
}

-- The lines begin with an underline.
abbrev pub is_underlined : List Line → Bool
is_underlined [] = false
is_underlined (line ∷ lines) = is_setext_underline line

module _ (u : Unicode) where
  -- The title of a line that is neither blank nor an underline, in front of the lines behind it: that
  -- of its own marks, or its text when it is a paragraph with an underline below.
  abbrev pub title_here : Option Line → Line → List Line → List Line
  title_here (some title) line rest = title ∷ []
  title_here none line rest =
      if is_paragraph_line u line && is_underlined rest then strip line ∷ [] else []

  -- The headings of a page, in their order.
  unfoldable pub titles : List Line → List Line
  titles [] = []
  titles (line ∷ rest) =
      (if is_setext_underline line
        then []
        else if not (is_visible line)
        then []
        else title_here (heading_of line) line rest)
      ++ titles rest

  -- How many of the titles have the slug.
  unfoldable pub repeats : Line → List Line → ℕ
  repeats s [] = 0
  repeats s (t ∷ ts) = (if line_eq s (anchor_slug u t) then 1 else 0) + repeats s ts

  -- The title that waits for an underline, when there is one.
  abbrev waiting : Option Line → Bool → List Line
  waiting none b = []
  waiting (some t) b = if b then t ∷ [] else []

  abbrev pending : Option Line → List Line → List Line
  pending previous lines = waiting previous (is_underlined lines)

  count_of-add :
      (s t : Line) (a : Anchors)
      → s ≢ []
      → count_of s (add u t a).hits
        ≡ (if line_eq s (anchor_slug u t) then 1 else 0) + count_of s a.hits
  unfolding add line_eq
  count_of-add s t a n = go (anchor_slug u t)
    where
      empty : (s : Line) → s ≢ [] → line_eq s [] ≡ false
      empty [] n = absurd (n refl)
      empty (c ∷ cs) n = refl

      other :
          (c : ℕ) (cs : Line)
          → line_eq s (c ∷ cs) ≡ true
          → count_of s (add_slug (c ∷ cs) a).hits ≡ suc (count_of s a.hits)
      other c cs e =
          subst (λ r. count_of s (add_slug r a).hits ≡ suc (count_of s a.hits))
            (line_eq-eq s (c ∷ cs) e) (same s n)
        where
          same : (s : Line) → s ≢ [] → count_of s (add_slug s a).hits ≡ suc (count_of s a.hits)
          same [] n = absurd (n refl)
          same (d ∷ ds) n = count_of-counted (d ∷ ds) a.hits

      go :
          (r : Line)
          → count_of s (add_slug r a).hits ≡ (if line_eq s r then 1 else 0) + count_of s a.hits
      go [] = rw (empty s n) (omega arith)
      go (c ∷ cs) = elim (Bool-cases (line_eq s (c ∷ cs))) [
        | inl e ↦ rw e (omega (arith, other c cs e))
        | inr e ↦ rw e (omega (arith, count_of-counted_other s (c ∷ cs) a.hits e))
      ]

  -- What reading the lines adds to the hits of a slug.
  abbrev Adds : Line → List Line → Option Line → Anchors → Type 0
  Adds s lines previous a =
      count_of s (read_lines u lines (previous, a)).1.hits
      ≡ repeats s (pending previous lines ++ titles lines) + count_of s a.hits

  read_lines-Adds :
      (s : Line)
      → s ≢ []
      → (lines : List Line) (previous : Option Line) (a : Anchors) → Adds s lines previous a
  unfolding read_lines read_line titles repeats
  read_lines-Adds s n [] none a = omega arith
  read_lines-Adds s n [] (some t) a = omega arith
  read_lines-Adds s n (line ∷ rest) previous a =
      go previous (is_setext_underline line) (is_visible line) (heading_of line)
        (λ q c. read_lines-Adds s n rest q c)
    where
      paragraph :
          (p : Bool)
          → ((q : Option Line) (c : Anchors) → Adds s rest q c)
          → count_of s
              (read_lines u rest
                (if p then some (strip line) else none, with_ids (attributes 0 line) a)).1.hits
            ≡ repeats s ((if p && is_underlined rest then strip line ∷ [] else []) ++ titles rest)
              + count_of s a.hits
      paragraph true ih = ih (some (strip line)) (with_ids (attributes 0 line) a)
      paragraph false ih = ih none (with_ids (attributes 0 line) a)

      shown :
          (h : Option Line)
          → ((q : Option Line) (c : Anchors) → Adds s rest q c)
          → count_of s
              (read_lines u rest (
                (text_line u line h a).0,
                with_ids (attributes 0 line) (text_line u line h a).1,
              )).1.hits
            ≡ repeats s (title_here h line rest ++ titles rest) + count_of s a.hits
      shown none ih = paragraph (is_paragraph_line u line) ih
      shown (some t) ih =
          omega (arith, ih none (with_ids (attributes 0 line) (add u t a)), count_of-add s t a n)

      here : Bool → Bool → Option Line → List Line
      here b v h = if b then [] else if not v then [] else title_here h line rest

      go :
          (previous : Option Line) (b v : Bool) (h : Option Line)
          → ((q : Option Line) (c : Anchors) → Adds s rest q c)
          → let r : Reader =
              if b then (none, add_previous u previous a) else if not v then (none, a) else (
                (text_line u line h a).0,
                with_ids (attributes 0 line) (text_line u line h a).1,
              ) in
            count_of s (read_lines u rest r).1.hits
            ≡ repeats s (waiting previous b ++ (here b v h ++ titles rest)) + count_of s a.hits
      go none true v h ih = ih none a
      go (some t) true v h ih = omega (arith, ih none (add u t a), count_of-add s t a n)
      go none false false h ih = ih none a
      go (some t) false false h ih = ih none a
      go none false true h ih = shown h ih
      go (some t) false true h ih = shown h ih

  -- When a page has n headings outside of its fenced blocks with the slug `s`, which is not empty, then
  -- the first n of `s`, `s-1`, `s-2` and so on are anchors of the page.
  pub anchors-numbered :
      (lines : List Line) (s : Line) (k : ℕ)
      → s ≢ []
      → k < repeats s (titles (unfence lines))
      → In (numbered s k) (anchors u lines)
  unfolding anchors
  anchors-numbered lines s k n l =
      read_lines-IsNumbered u (unfence lines) (none, record { hits = []; ids = [] }) empty s k
        (omega
          (arith, l, read_lines-Adds s n (unfence lines) none (record { hits = []; ids = [] })))
    where
      empty : IsNumbered (record { hits = []; ids = [] })
      empty s k l = omega (arith, l)

  -- A title is one of those with its slug.
  In-repeats : (t : Line) (ts : List Line) → In t ts → 0 < repeats (anchor_slug u t) ts
  unfolding repeats
  In-repeats t [] m = absurd m
  In-repeats t (r ∷ ts) (inl e) =
      subst (λ q. 0 < repeats (anchor_slug u t) (q ∷ ts)) e
        (rw (line_eq_refl (anchor_slug u t)) (omega arith))
  In-repeats t (r ∷ ts) (inr m) = omega (arith, In-repeats t ts m)

  pub titles-In :
      (lines : List Line) (t : Line)
      → anchor_slug u t ≢ []
      → In t (titles (unfence lines))
      → In (anchor_slug u t) (anchors u lines)
  unfolding numbered
  titles-In lines t n m =
      anchors-numbered lines (anchor_slug u t) 0 n (In-repeats t (titles (unfence lines)) m)
