-- ===== src/Links/Parents.antt =====
-- scripts/check-doc-links.py: the loop over the parents of a path ends.
use mathlib.Core.List.{reverse, reverse_aux}
use antfarm.Prelude.{
  ℕ, zero, suc, ◌+◌, ◌≤◌, ◌<◌, ◌≡◌, ◌⊎◌, inl, inr, refl, sym, ap, ◌∙◌, subst, Bool, true, false,
  ◌&&◌, not, List, [], ◌∷◌, ◌++◌, ◌==◌, if◌then◌else◌, length, arith, Bool-cases,
}
use antfarm.Text.{Line, codes, line_eq}
use antfarm.Links.Paths.{
  starts_with, split_slashes, components, joined_by_slash, root_of, or_dot, normpath, from_slash,
  without_slashes, or_slashes, dirname, is_within,
}
use antfarm.Links.Check.{Checkout, parents}

abbrev are_slashes : Line → Bool
are_slashes [] = true
are_slashes (c ∷ cs) = c == b'/' && are_slashes cs

length-from_slash : (s : Line) → length (from_slash s) ≤ length s
unfolding from_slash
length-from_slash [] = omega arith
length-from_slash (c ∷ cs) = ground (arith, length-from_slash cs)

-- What is left without slashes is shorter, or there is nothing but slashes.
without_slashes-cases :
    (s : Line)
    → (length (without_slashes s) ≤ length s) × ((without_slashes s ≡ []) → are_slashes s ≡ true)
unfolding without_slashes
without_slashes-cases [] = (omega arith, λ e. refl)
without_slashes-cases (c ∷ cs) = go (Bool-cases (c == b'/')) (without_slashes-cases cs)
  where
    go :
        ((c == b'/') ≡ true) ⊎ ((c == b'/') ≡ false)
        → (length (without_slashes cs) ≤ length cs)
          × ((without_slashes cs ≡ []) → are_slashes cs ≡ true)
        → (length (without_slashes (c ∷ cs)) ≤ length (c ∷ cs))
          × ((without_slashes (c ∷ cs) ≡ []) → are_slashes (c ∷ cs) ≡ true)
    go (inl e) (l, k) = rw e (omega (arith, l), k)
    go (inr e) (l, k) = rw e (omega arith, λ h. cc)

from_slash-cases :
    (s : Line)
    → (from_slash s ≡ []) ⊎ (length (without_slashes (from_slash s)) < length (from_slash s))
unfolding from_slash without_slashes
from_slash-cases [] = inl refl
from_slash-cases (c ∷ cs) = elim (Bool-cases (c == b'/')) [
  | inl e ↦ rw e (rw (without_slashes, e) (inr (omega (arith, (without_slashes-cases cs).0))))
  | inr e ↦ rw e (from_slash-cases cs)
]

length-reverse_aux : (s t : Line) → length (reverse_aux s t) ≡ length s + length t
length-reverse_aux [] t = omega arith
length-reverse_aux (c ∷ cs) t = omega (arith, length-reverse_aux cs (c ∷ t))

are_slashes-reverse_aux :
    (s t : Line)
    → are_slashes s ≡ true
    → are_slashes t ≡ true
    → are_slashes (reverse_aux s t) ≡ true
are_slashes-reverse_aux [] t h k = k
are_slashes-reverse_aux (c ∷ cs) t h k = ground (arith, are_slashes-reverse_aux cs (c ∷ t))

shorter : (p : Line) → (are_slashes (dirname p) ≡ true) ⊎ (length (dirname p) < length p)
unfolding dirname without_slashes
shorter p = go (without_slashes head) refl
  where
    head : Line
    head = from_slash (reverse p)

    smaller :
        (d : ℕ) (ds : Line) → without_slashes head ≡ d ∷ ds → length (reverse (d ∷ ds)) < length p
    smaller d ds e = below (from_slash-cases (reverse p))
      where
        clash : [] ≡ d ∷ ds → ⊥
        clash h = cc

        below :
            (head ≡ []) ⊎ (length (without_slashes head) < length head)
            → length (reverse (d ∷ ds)) < length p
        below (inl h) = absurd (clash (sym (ap without_slashes h) ∙ e))
        below (inr l) = omega (
          arith,
          length-reverse_aux (d ∷ ds) [],
          length-reverse_aux p [],
          length-from_slash (reverse p),
          l,
          ap length e,
        )

    go :
        (w : Line)
        → without_slashes head ≡ w
        → (are_slashes (reverse (or_slashes head w)) ≡ true)
          ⊎ (length (reverse (or_slashes head w)) < length p)
    go [] e = inl (are_slashes-reverse_aux head [] ((without_slashes-cases head).1 e) refl)
    go (d ∷ ds) e = inr (smaller d ds e)

-- Paths of slashes only are normalized to one of three.
both_true : (a b : Bool) → (a && b) ≡ true → (a ≡ true) × (b ≡ true)
both_true a b h = ground arith

components-slashes :
    (absolute : Bool) (q : Line) (done : List Line)
    → are_slashes q ≡ true
    → components absolute (split_slashes [] q) done ≡ reverse done
unfolding components split_slashes line_eq
components-slashes absolute [] done h = refl
components-slashes absolute (c ∷ cs) done h =
    let (e, k) = both_true (c == b'/') (are_slashes cs) h in
    rw (split_slashes, e) (components-slashes absolute cs done k)

normpath-slashes :
    (q : Line)
    → are_slashes q ≡ true
    → (normpath q ≡ codes ".") ⊎ (normpath q ≡ codes "/") ⊎ (normpath q ≡ codes "//")
unfolding normpath joined_by_slash root_of
normpath-slashes q h = rw (components-slashes (starts_with (codes "/") q) q [] h) (
    go (starts_with (codes "//") q && not (starts_with (codes "///") q))
      (starts_with (codes "/") q))
  where
    go :
        (a b : Bool)
        → let n : Line = or_dot ((if a then codes "//" else if b then codes "/" else []) ++ []) in
          (n ≡ codes ".") ⊎ (n ≡ codes "/") ⊎ (n ≡ codes "//")
    go true b = inr (inr refl)
    go false true = inr (inl refl)
    go false false = inl refl

module _ (c : Checkout) where
  -- The paths that consist of slashes are outside of the root.
  abbrev pub IsProper : Type 0
  IsProper =
      (is_within c.root (codes ".") ≡ false)
      × (is_within c.root (codes "/") ≡ false)
      × (is_within c.root (codes "//") ≡ false)

  slashes-outside : IsProper → (q : Line) → are_slashes q ≡ true → is_within c.root q ≡ false
  unfolding is_within normpath
  slashes-outside (dot, one, two) q h = go (normpath-slashes q h)
    where
      go :
          (normpath q ≡ codes ".") ⊎ (normpath q ≡ codes "/") ⊎ (normpath q ≡ codes "//")
          → is_within c.root q ≡ false
      go (inl e) = rw e dot
      go (inr (inl e)) = rw e one
      go (inr (inr e)) = rw e two

  parents-slashes : IsProper → (fuel : ℕ) (q : Line) → are_slashes q ≡ true → parents c fuel q ≡ []
  unfolding parents
  parents-slashes proper zero q h = refl
  parents-slashes proper (suc fuel) q h =
      rw (slashes-outside proper q h) (go (not (line_eq q c.root)))
    where
      go :
          (b : Bool)
          → let ps : List Line = if b && false then q ∷ parents c fuel (dirname q) else [] in
            ps ≡ []
      go true = refl
      go false = refl

  -- With more rounds than the path has characters the loop over the parents has come to its end: any
  -- more rounds find the same directories. The root is one that no path of slashes lies in.
  pub parents-enough :
      IsProper
      → (more fuel : ℕ) (p : Line) → length p < fuel
      → parents c (fuel + more) p ≡ parents c fuel p
  unfolding parents
  parents-enough proper more zero p l = absurd (none_less l)
    where
      none_less : length p < 0 → ⊥
      none_less l = omega (arith, l)
  parents-enough proper more (suc fuel) p l =
      subst (λ n. parents c n p ≡ parents c (suc fuel) p) (plus fuel)
        (ap {B = List Line}
          (λ ps. if not (line_eq p c.root) && is_within c.root p then p ∷ ps else [])
          (go (shorter p) (λ k. parents-enough proper more fuel (dirname p) k)))
    where
      plus : (fuel : ℕ) → suc (fuel + more) ≡ suc fuel + more
      plus fuel = omega arith

      go :
          (are_slashes (dirname p) ≡ true) ⊎ (length (dirname p) < length p)
          → (length (dirname p) < fuel
              → parents c (fuel + more) (dirname p) ≡ parents c fuel (dirname p))
          → parents c (fuel + more) (dirname p) ≡ parents c fuel (dirname p)
      go (inl h) ih =
          parents-slashes proper (fuel + more) (dirname p) h
          ∙ sym (parents-slashes proper fuel (dirname p) h)
      go (inr k) ih = ih (omega (arith, k, l))
