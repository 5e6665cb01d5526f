-- ===== src/Text.antt =====
-- Texts that the programs walk through: a line is the list of its code points.
use Prim.Native.Char.{code}
use antfarm.Prelude.{
  ℕ, zero, suc, ◌+◌, ◌≤◌, ◌≡◌, refl, Bool, true, false, ◌&&◌, ◌||◌, not, List, [], ◌∷◌, Option,
  none, some, String, leb, ◌==◌, if◌then◌else◌, length, arith,
}

abbrev pub Line : Type 0
Line = List ℕ

-- The code points of a text. `String` has its own `[]` and `∷`.
abbrev pub codes : String → Line
codes String.[] = []
codes (String.◌∷◌ c s) = code c ∷ codes s

abbrev between : ℕ → ℕ → ℕ → Bool
between lo hi c = leb lo c && leb c hi

-- str.isspace of one character; `\s` of a regular expression.
unfoldable pub is_space : ℕ → Bool
is_space c =
    between 9 13 c
    || between 28 32 c
    || c == 133
    || c == 160
    || c == 5760
    || between 8192 8202 c
    || c == 8232
    || c == 8233
    || c == 8239
    || c == 8287
    || c == 12288

-- text.lstrip()
unfoldable pub lstrip : Line → Line
unfolding is_space
lstrip [] = []
lstrip (c ∷ cs) = if is_space c then lstrip cs else c ∷ cs

-- text.strip() is not empty
unfoldable pub is_visible : Line → Bool
unfolding is_space
is_visible [] = false
is_visible (c ∷ cs) = not (is_space c) || is_visible cs

-- What follows `word` at the beginning of a text.
unfoldable pub after : Line → Line → Option Line
after [] cs = some cs
after (w ∷ ws) [] = none
after (w ∷ ws) (c ∷ cs) = if w == c then after ws cs else none

-- text[n:] and text[:n]
unfoldable pub drop : ℕ → Line → Line
drop zero cs = cs
drop (suc n) [] = []
drop (suc n) (c ∷ cs) = drop n cs

unfoldable pub take : ℕ → Line → Line
take zero cs = []
take (suc n) [] = []
take (suc n) (c ∷ cs) = c ∷ take n cs

-- text.count(character)
unfoldable pub count : ℕ → Line → ℕ
count a [] = 0
count a (c ∷ cs) = (if a == c then 1 else 0) + count a cs

pub length-drop : (n : ℕ) (cs : Line) → length (drop n cs) ≤ length cs
unfolding drop
length-drop zero cs = omega arith
length-drop (suc n) [] = omega arith
length-drop (suc n) (c ∷ cs) = omega (arith, length-drop n cs)

-- text.rstrip(), and text.strip()
unfoldable pub rstrip : Line → Line
unfolding is_space
rstrip [] = []
rstrip (c ∷ cs) = elim (rstrip cs) [
  | [] ↦ if is_space c then [] else c ∷ []
  | ◌∷◌ d rest ↦ c ∷ d ∷ rest
]

unfoldable pub strip : Line → Line
unfolding lstrip rstrip
strip cs = rstrip (lstrip cs)

-- Equality of two texts.
unfoldable pub line_eq : Line → Line → Bool
line_eq [] [] = true
line_eq (a ∷ xs) (b ∷ bs) = a == b && line_eq xs bs
line_eq _ _ = false

pub line_eq-eq : (s t : Line) → line_eq s t ≡ true → s ≡ t
unfolding line_eq
line_eq-eq [] [] h = refl
line_eq-eq [] (b ∷ bs) h = cc
line_eq-eq (a ∷ xs) [] h = cc
line_eq-eq (a ∷ xs) (b ∷ bs) h = ground (arith, line_eq-eq xs bs)

pub line_eq_refl : (s : Line) → line_eq s s ≡ true
unfolding line_eq
line_eq_refl [] = refl
line_eq_refl (a ∷ xs) = ground (arith, line_eq_refl xs)
