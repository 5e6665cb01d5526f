-- ===== src/Links/Spans.antt =====
-- scripts/check-doc-links.py: `strip_inline_code`.
use mathlib.Core.List.{reverse}
use antfarm.Prelude.{
  ℕ, zero, suc, ◌-◌, ◌%◌, ◌≡◌, refl, Bool, true, false, ◌&&◌, List, [], ◌∷◌, Option, none, some,
  leb, ltb, ◌==◌, if◌then◌else◌,
}
use antfarm.Text.{Line, codes, take}

-- (match.start(), match.end())
abbrev pub Run : Type 0
Run = ℕ × ℕ

-- The matches of "`+" from `position` on; `open` is the start of the run that is read.
unfoldable pub ticks : ℕ → Option ℕ → Line → List Run
ticks position none [] = []
ticks position (some start) [] = (start, position) ∷ []
ticks position none (c ∷ cs) = ticks (suc position) (if c == b'`' then some position else none) cs
ticks position (some start) (c ∷ cs) = elim (c == b'`') [
  | true ↦ ticks (suc position) (some start) cs
  | false ↦ (start, position) ∷ ticks (suc position) none cs
]

-- The backslashes at the beginning of a text that is reversed: those in front of a run.
unfoldable pub backslashes : Line → ℕ
backslashes [] = 0
backslashes (c ∷ cs) = if c == b'\\' then suc (backslashes cs) else 0

-- if backslashes % 2 == 0
unfoldable pub is_delimiter : Line → Run → Bool
unfolding backslashes take
is_delimiter line (start, end) = backslashes (reverse (take start line)) % 2 == 0

unfoldable pub delimiters : Line → List Run → List Run
unfolding is_delimiter
delimiters line [] = []
delimiters line (r ∷ rs) =
    if is_delimiter line r then r ∷ delimiters line rs else delimiters line rs

-- `runs`
unfoldable pub runs_of : Line → List Run
unfolding ticks delimiters
runs_of line = delimiters line (ticks 0 none line)

abbrev pub size : Run → ℕ
size (start, end) = end - start

-- The first run of that length: the number of runs before it, and its end.
unfoldable pub closer : ℕ → List Run → Option (ℕ × ℕ)
closer n [] = none
closer n (r ∷ rs) =
    if size r == n
    then some (0, r.1)
    else elim (closer n rs) [ none ↦ none | some (k, end) ↦ some (suc k, end) ]

-- The spans that are blanked out; `skip` runs are passed over, since `index` goes behind the closer.
unfoldable pub spans : ℕ → List Run → List Run
unfolding closer
spans skip [] = []
spans (suc skip) (r ∷ rs) = spans skip rs
spans zero (r ∷ rs) = elim (closer (size r) rs) [
  | none ↦ spans zero rs
  | some (k, end) ↦ (r.0, end) ∷ spans (suc k) rs
]

-- for position in range(start, end): out[position] = " ", in the text from `position` on
unfoldable pub blank : Run → ℕ → Line → Line
blank r position [] = []
blank r position (c ∷ cs) =
    (if leb r.0 position && ltb position r.1 then b' ' else c) ∷ blank r (suc position) cs

unfoldable pub blank_all : List Run → Line → Line
unfolding blank
blank_all [] line = line
blank_all (r ∷ rs) line = blank_all rs (blank r 0 line)

unfoldable pub strip_inline_code : Line → Line
unfolding runs_of spans blank_all
strip_inline_code line = blank_all (spans 0 (runs_of line)) line

stripped : strip_inline_code (codes "a `b` \\`c ``d` e`` f") ≡ codes "a     \\`c          f"
unfolding strip_inline_code
stripped = refl
