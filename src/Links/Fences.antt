-- ===== src/Links/Fences.antt =====
-- scripts/check-doc-links.py: `unfence`.
use antfarm.Prelude.{
  ℕ, suc, ◌≡◌, refl, Bool, ◌&&◌, not, List, [], ◌∷◌, Option, none, some, leb, ◌==◌, if◌then◌else◌,
  length,
}
use antfarm.Text.{Line, codes, is_visible, drop}

-- The number of times that `c` begins a text.
unfoldable pub run : ℕ → Line → ℕ
run c [] = 0
run c (d ∷ ds) = if d == c then suc (run c ds) else 0

pub record Fence : Type 0 where
  pub char : ℕ
  pub length : ℕ
  pub rest : Line

abbrev at_least_3 : ℕ → Line → Option Fence
at_least_3 c line =
    if leb 3 (run c line)
    then some (record { char = c; length = run c line; rest = drop (run c line) line })
    else none

abbrev or_else : Option Fence → Option Fence → Option Fence
or_else none f = f
or_else (some f) g = some f

-- `^ {0,3}(`{3}|~{3})(.*)$`
unfoldable pub fence_of : Line → Option Fence
unfolding run drop
fence_of line =
    let spaces = run b' ' line in
    if leb spaces 3
    then or_else (at_least_3 b'`' (drop spaces line)) (at_least_3 b'~' (drop spaces line))
    else none

-- `active`: the character and the length of the fence that is open
abbrev pub Active : Type 0
Active = Option (ℕ × ℕ)

-- char == active[0] and length >= active[1] and rest.strip() == ""
unfoldable pub is_closing : ℕ × ℕ → Fence → Bool
unfolding is_visible
is_closing (char, length) f = f.char == char && leb length f.length && not (is_visible f.rest)

unfoldable pub after_fence : Active → Fence → Active
unfolding is_closing
after_fence none f = some (f.char, f.length)
after_fence (some a) f = if is_closing a f then none else some a

abbrev pub blank_in : Active → Line → Line
blank_in none line = line
blank_in (some a) line = []

-- `unfence` of the lines of a text, from `active`
unfoldable pub unfence_from : Active → List Line → List Line
unfolding fence_of after_fence
unfence_from active [] = []
unfence_from active (line ∷ lines) = elim (fence_of line) [
  | some f ↦ [] ∷ unfence_from (after_fence active f) lines
  | none ↦ blank_in active line ∷ unfence_from active lines
]

unfoldable pub unfence : List Line → List Line
unfolding unfence_from
unfence lines = unfence_from none lines

fenced :
    unfence (
      codes "a"
      ∷ codes "  ```d"
      ∷ codes "b"
      ∷ codes "~~~"
      ∷ codes "````  "
      ∷ codes "c"
      ∷ codes "    ```"
      ∷ [])
    ≡ codes "a" ∷ [] ∷ [] ∷ [] ∷ [] ∷ codes "c" ∷ codes "    ```" ∷ []
unfolding unfence
fenced = refl
