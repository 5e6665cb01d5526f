-- ===== src/Api/Comments.antt =====
-- scripts/check-api-docs.py: `strip_comments`. The place `index` in the line is the rest of the line
-- from there, and a position is counted from there.
use antfarm.Prelude.{
  ℕ, zero, suc, ◌+◌, ◌≡◌, refl, ◌&&◌, List, [], ◌∷◌, ◌++◌, Option, none, some, leb, ltb, ◌==◌,
  if◌then◌else◌, length,
}
use antfarm.Text.{Line, codes, drop, take}

-- "*/" or "+/"
pub data Closer : Type 0 where
  star plus : Closer

-- A place, counted from one character before.
abbrev pub next : Option ℕ → Option ℕ
next none = none
next (some p) = some (suc p)

-- rest.find(marker), for a marker of two characters
unfoldable pub find : ℕ → ℕ → Line → Option ℕ
find a b [] = none
find a b (c ∷ []) = none
find a b (c ∷ d ∷ rest) = if c == a && d == b then some 0 else next (find a b (d ∷ rest))

abbrev pub find_closer : Closer → Line → Option ℕ
find_closer star rest = find b'*' b'/' rest
find_closer plus rest = find b'+' b'/' rest

pub data Marker : Type 0 where
  line_comment block_comment nesting_comment : Marker

-- Of two places the earlier, with its marker; `markers` has no two markers at one place.
abbrev earlier : Option (ℕ × Marker) → Option (ℕ × Marker) → Option (ℕ × Marker)
earlier none q = q
earlier (some p) none = some p
earlier (some (p, m)) (some (q, n)) = if leb p q then some (p, m) else some (q, n)

abbrev found : Marker → Option ℕ → Option (ℕ × Marker)
found m none = none
found m (some p) = some (p, m)

abbrev pub earliest : Option ℕ → Option ℕ → Option ℕ → Option (ℕ × Marker)
earliest p q r =
    earlier (found line_comment p) (earlier (found block_comment q) (found nesting_comment r))

-- min(markers), with its marker
unfoldable pub first_marker : Line → Option (ℕ × Marker)
unfolding find
first_marker rest = earliest (find b'/' b'/' rest) (find b'/' b'*' rest) (find b'/' b'+' rest)

-- The place of a "/+" that comes before the closer, from the places of both.
abbrev pub reopened : Option ℕ → Option ℕ → Option ℕ
reopened none close = none
reopened (some o) none = some o
reopened (some o) (some c) = if ltb o c then some o else none

-- if closer == "+/": a "/+" before the closer
abbrev pub open_again : Closer → Line → Option ℕ
open_again star rest = none
open_again plus rest = reopened (find b'/' b'+' rest) (find b'+' b'/' rest)

abbrev pub keep : Line → Line × List Closer → Line × List Closer
keep text (out, state) = (text ++ out, state)

-- The rounds of the loop: the text that is left, and the stack of closers, its top first.
unfoldable pub strip_within : ℕ → List Closer → Line → Line × List Closer
unfolding first_marker find drop take
strip_within zero state rest = ([], state)
strip_within (suc fuel) state [] = ([], state)
strip_within (suc fuel) (closer ∷ state) (c ∷ cs) = elim (open_again closer (c ∷ cs)) [
  | some o ↦ strip_within fuel (plus ∷ closer ∷ state) (drop (o + 2) (c ∷ cs))
  | none ↦ elim (find_closer closer (c ∷ cs)) [
    | some p ↦ strip_within fuel state (drop (p + 2) (c ∷ cs))
    | none ↦ ([], closer ∷ state)
  ]
]
strip_within (suc fuel) [] (c ∷ cs) = elim (first_marker (c ∷ cs)) [
  | none ↦ (c ∷ cs, [])
  | some (p, line_comment) ↦ (take p (c ∷ cs), [])
  | some (p, block_comment) ↦
      keep (take p (c ∷ cs)) (strip_within fuel (star ∷ []) (drop (p + 2) (c ∷ cs)))
  | some (p, nesting_comment) ↦
      keep (take p (c ∷ cs)) (strip_within fuel (plus ∷ []) (drop (p + 2) (c ∷ cs)))
]

-- Each round but the last one leaves a marker of two characters behind.
unfoldable pub strip_comments : Line → List Closer → Line × List Closer
unfolding strip_within
strip_comments line state = strip_within (length line + 1) state line

nested : strip_comments (codes "a /+ b /+ c +/ d +/ e // f") [] ≡ (codes "a  e ", [])
unfolding strip_comments
nested = refl

across : strip_comments (codes "x */ y /* z") (star ∷ []) ≡ (codes " y ", star ∷ [])
unfolding strip_comments
across = refl
