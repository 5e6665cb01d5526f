-- ===== src/Links/Numbering.antt =====
-- scripts/check-doc-links.py: the ids of headings with one text.
use antfarm.Prelude.{
  ℕ, suc, ◌<◌, ◌≡◌, ◌⊎◌, inl, inr, refl, sym, ap, subst, Bool, true, false, not, List, [], ◌∷◌,
  Option, none, some, if◌then◌else◌, arith, In, In-append, Bool-cases,
}
use antfarm.Text.{Line, line_eq, line_eq-eq, line_eq_refl, is_visible}
use antfarm.Links.Anchors.{Unicode, anchor_slug, is_setext_underline}
use antfarm.Links.Headings.{
  Anchors, Reader, count_of, counted, numbered, add_slug, with_ids, add, add_previous, text_line,
  read_line, read_lines, heading_of, attributes,
}

pub count_of-counted :
    (s : Line) (hits : List (Line × ℕ)) → count_of s (counted s hits) ≡ suc (count_of s hits)
unfolding count_of counted
count_of-counted s [] = rw (line_eq_refl s) refl
count_of-counted s ((t, n) ∷ hits) = elim (Bool-cases (line_eq s t)) [
  | inl e ↦ ground (arith, e)
  | inr e ↦ ground (arith, e, count_of-counted s hits)
]

pub count_of-counted_other :
    (s t : Line) (hits : List (Line × ℕ))
    → line_eq s t ≡ false
    → count_of s (counted t hits) ≡ count_of s hits
unfolding count_of counted
count_of-counted_other s t [] h = rw (h) refl
count_of-counted_other s t ((r, n) ∷ hits) h = elim (Bool-cases (line_eq t r)) [
  | inl e ↦
      let k : line_eq s r ≡ false = subst (λ q. line_eq s q ≡ false) (line_eq-eq t r e) h in
      ground (arith, e, k)
  | inr e ↦ ground (arith, e, count_of-counted_other s t hits h)
]

counted-positive : (s : Line) (hits : List (Line × ℕ)) → 0 < count_of s (counted s hits)
counted-positive s hits = omega (arith, count_of-counted s hits)

last_or_before : (k n : ℕ) → k < suc n → (k ≡ n) ⊎ (k < n)
last_or_before k n l = ground arith

-- The first ids that are made of a slug, as many as it has hits, are ids of the page.
abbrev pub IsNumbered : Anchors → Type 0
IsNumbered a = (s : Line) (k : ℕ) → k < count_of s a.hits → In (numbered s k) a.ids

add_slug-IsNumbered : (t : Line) (a : Anchors) → IsNumbered a → IsNumbered (add_slug t a)
add_slug-IsNumbered [] a h = h
add_slug-IsNumbered (c ∷ cs) a h = λ s k l. elim (Bool-cases (line_eq s (c ∷ cs))) [
  | inl e ↦ latest s (line_eq-eq s (c ∷ cs) e) k l
  | inr e ↦ inr (h s k (subst (λ n. k < n) (count_of-counted_other s (c ∷ cs) a.hits e) l))
]
  where
    newest :
        (k : ℕ)
        → k < count_of (c ∷ cs) (counted (c ∷ cs) a.hits)
        → In (numbered (c ∷ cs) k) (add_slug (c ∷ cs) a).ids
    newest k l =
        elim (last_or_before k (count_of (c ∷ cs) a.hits)
          (subst (λ n. k < n) (count_of-counted (c ∷ cs) a.hits) l)) [
            | inl e ↦ inl (ap (numbered (c ∷ cs)) e)
            | inr m ↦ inr (h (c ∷ cs) k m)
          ]

    latest :
        (s : Line)
        → s ≡ c ∷ cs
        → (k : ℕ) → k < count_of s (counted (c ∷ cs) a.hits)
        → In (numbered s k) (add_slug (c ∷ cs) a).ids
    latest s e k l =
        subst
          (λ r.
            k < count_of r (counted (c ∷ cs) a.hits) → In (numbered r k) (add_slug (c ∷ cs) a).ids)
          (sym e) (newest k) l

with_ids-IsNumbered :
    (values : List Line) (a : Anchors) → IsNumbered a → IsNumbered (with_ids values a)
with_ids-IsNumbered values a h = λ s k l. (In-append (numbered s k) values a.ids).1 (inr (h s k l))

-- What adding a heading and adding the ids of a line keep, reading keeps.
module _ (u : Unicode) (P : Anchors → Type 0)
    (P-add : (t : Line) (a : Anchors) → P a → P (add u t a))
    (P-with_ids : (values : List Line) (a : Anchors) → P a → P (with_ids values a)) where
  add_previous-keeps : (p : Option Line) (a : Anchors) → P a → P (add_previous u p a)
  add_previous-keeps none a h = h
  add_previous-keeps (some t) a h = P-add t a h

  text_line-keeps : (line : Line) (t : Option Line) (a : Anchors) → P a → P (text_line u line t a).1
  text_line-keeps line none a h = h
  text_line-keeps line (some t) a h = P-add t a h

  read_line-keeps : (line : Line) (r : Reader) → P r.1 → P (read_line u line r).1
  unfolding read_line
  read_line-keeps line (previous, a) h = go (is_setext_underline line) (is_visible line)
    where
      go :
          (b v : Bool)
          → let r : Reader =
              if b then (none, add_previous u previous a) else if not v then (none, a) else (
                (text_line u line (heading_of line) a).0,
                with_ids (attributes 0 line) (text_line u line (heading_of line) a).1,
              ) in
            P r.1
      go true v = add_previous-keeps previous a h
      go false false = h
      go false true =
          P-with_ids (attributes 0 line) (text_line u line (heading_of line) a).1
            (text_line-keeps line (heading_of line) a h)

  read_lines-keeps : (lines : List Line) (r : Reader) → P r.1 → P (read_lines u lines r).1
  unfolding read_lines
  read_lines-keeps [] r h = h
  read_lines-keeps (line ∷ lines) r h =
      read_lines-keeps lines (read_line u line r) (read_line-keeps line r h)

module _ (u : Unicode) where
  add-IsNumbered : (t : Line) (a : Anchors) → IsNumbered a → IsNumbered (add u t a)
  unfolding add
  add-IsNumbered t a h = add_slug-IsNumbered (anchor_slug u t) a h

  -- Of every slug that the lines of a page add, the slug and its numbered forms are ids, one for each
  -- time that it is added: reading on keeps this.
  pub read_lines-IsNumbered :
      (lines : List Line) (r : Reader) → IsNumbered r.1 → IsNumbered (read_lines u lines r).1
  read_lines-IsNumbered lines r h =
      read_lines-keeps u IsNumbered add-IsNumbered with_ids-IsNumbered lines r h
