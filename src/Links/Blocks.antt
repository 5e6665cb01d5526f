-- ===== src/Links/Blocks.antt =====
-- scripts/check-doc-links.py: the lines that `unfence` leaves, and those of a fenced block.
use antfarm.Prelude.{
  ℕ, ◌≡◌, ◌⊎◌, inl, inr, refl, ap, ◌∙◌, true, false, List, [], ◌∷◌, ◌++◌, Option, none, some, All,
}
use antfarm.Text.{Line}
use antfarm.Links.Fences.{
  Fence, Active, fence_of, is_closing, after_fence, blank_in, unfence_from, unfence,
}

-- A line of the result is blank, or it is the line itself, which is no fence; one for each line.
abbrev pub Left : List Line → List Line → Type 0
Left [] [] = Unit
Left [] (o ∷ out) = ⊥
Left (line ∷ lines) [] = ⊥
Left (line ∷ lines) (o ∷ out) = ((o ≡ []) ⊎ ((o ≡ line) × (fence_of line ≡ none))) × Left lines out

unfence_from-Left : (active : Active) (lines : List Line) → Left lines (unfence_from active lines)
unfolding unfence_from
unfence_from-Left active [] = tt
unfence_from-Left active (line ∷ lines) =
    go active (fence_of line) refl (λ next. unfence_from-Left next lines)
  where
    go :
        (active : Active) (f : Option Fence)
        → fence_of line ≡ f
        → ((next : Active) → Left lines (unfence_from next lines))
        → Left (line ∷ lines) (elim f [
          | some f ↦ [] ∷ unfence_from (after_fence active f) lines
          | none ↦ blank_in active line ∷ unfence_from active lines
        ])
    go active (some f) e ih = (inl refl, ih (after_fence active f))
    go none none e ih = (inr (refl, e), ih none)
    go (some a) none e ih = (inl refl, ih (some a))

-- `unfence` gives one line for each line of the text: a blank one, or the line itself, which is then
-- no fence.
pub unfence-Left : (lines : List Line) → Left lines (unfence lines)
unfolding unfence
unfence-Left lines = unfence_from-Left none lines

-- A line that does not close the fence of `char` and `length`.
abbrev pub IsInside : ℕ × ℕ → Line → Type 0
IsInside a line =
    (fence_of line ≡ none) ⊎ ((f : Fence) × (fence_of line ≡ some f) × (is_closing a f ≡ false))

abbrev pub blanks : List Line → List Line
blanks [] = []
blanks (line ∷ lines) = [] ∷ blanks lines

unfence_from-inside :
    (a : ℕ × ℕ) (body rest : List Line)
    → All (IsInside a) body
    → unfence_from (some a) (body ++ rest) ≡ blanks body ++ unfence_from (some a) rest
unfolding unfence_from
unfence_from-inside a [] rest h = refl
unfence_from-inside a (line ∷ body) rest (inl e, h) =
    rw (e, unfence_from) (ap (λ ls. [] ∷ ls) (unfence_from-inside a body rest h))
unfence_from-inside a (line ∷ body) rest (inr (f, e, k), h) =
    rw (e, unfence_from)
      (rw (k, after_fence) (ap (λ ls. [] ∷ ls) (unfence_from-inside a body rest h)))

-- A fenced block becomes blank lines, and what follows it is read as if it stood alone: the opening
-- fence, lines that do not close it, fences of another kind or length included, and one that does.
pub unfence-block :
    (opening closing : Line) (body rest : List Line) (o c : Fence)
    → fence_of opening ≡ some o
    → All (IsInside (o.char, o.length)) body
    → fence_of closing ≡ some c
    → is_closing (o.char, o.length) c ≡ true
    → unfence (opening ∷ (body ++ closing ∷ rest)) ≡ [] ∷ (blanks body ++ [] ∷ unfence rest)
unfolding unfence unfence_from
unfence-block opening closing body rest o c e h f k =
    rw (e, unfence_from)
      (ap (λ ls. [] ∷ ls)
        (unfence_from-inside (o.char, o.length) body (closing ∷ rest) h
          ∙ ap (λ ls. blanks body ++ ls) closed))
  where
    closed : unfence_from (some (o.char, o.length)) (closing ∷ rest) ≡ [] ∷ unfence_from none rest
    closed = rw (f, unfence_from) (rw (k, after_fence) refl)
