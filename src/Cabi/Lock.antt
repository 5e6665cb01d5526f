-- ===== src/Cabi/Lock.antt =====
-- scripts/check-c-abi.py: `lock_key` and `check_abi_lock`.
use antfarm.Prelude.{
  ℕ, zero, suc, Bool, true, false, ◌&&◌, not, List, [], ◌∷◌, ◌++◌, Option, none, some, ◌>>=◌, ◌==◌,
  if◌then◌else◌,
}
use antfarm.Text.{Line, codes, after, line_eq}
use antfarm.Cabi.LockFile.{lock_text, splitlines}
use antfarm.Cabi.Symbols.{split_words, select, is_word}

-- line.split(" ", 1), when there is a space
unfoldable pub at_space : Line → Line → Option (Line × Line)
at_space begun [] = none
at_space begun (c ∷ cs) = if c == 32 then some (begun, cs) else at_space (begun ++ c ∷ []) cs

-- \w+\( at the beginning of a text, by the word
unfoldable pub call_name : Line → Line → Option Line
unfolding is_word
call_name begun [] = none
call_name begun (c ∷ cs) =
    if is_word c
    then call_name (begun ++ c ∷ []) cs
    else if c == 40
    then elim begun [ [] ↦ none | ◌∷◌ b bs ↦ some (codes "af_" ++ b ∷ bs) ]
    else none

-- re.search(r"\b(af_\w+)\(", text), behind a character of a word or another
unfoldable pub find_name : Bool → Line → Option Line
unfolding is_word call_name after
find_name behind_word [] = none
find_name behind_word (c ∷ cs) =
    let here : Option Line =
      if behind_word then none else (after (codes "af_") (c ∷ cs) >>= λ rest. call_name [] rest) in
    elim here [ some name ↦ some name | none ↦ find_name (is_word c) cs ]

-- " ".join(words[:n])
unfoldable pub first_words : ℕ → List Line → Line
first_words zero parts = []
first_words (suc n) [] = []
first_words (suc n) (w ∷ []) = w
first_words (suc zero) (w ∷ x ∷ parts) = w
first_words (suc (suc n)) (w ∷ x ∷ parts) = w ++ 32 ∷ first_words (suc n) (x ∷ parts)

abbrev pub is_field : Line → Bool
is_field rest = elim (after (codes "F ") rest) [ none ↦ false | some text ↦ true ]

-- A row of none of the three kinds, or a prototype without a name, is an exception.
unfoldable pub lock_key : Line → Option Line
unfolding at_space find_name first_words split_words after line_eq
lock_key line = at_space [] line >>= λ (kind, rest).
    if line_eq kind (codes "PROTO")
    then (find_name false rest >>= λ name. some (kind ++ 32 ∷ name))
    else if line_eq kind (codes "CONST")
    then some (first_words 2 (split_words [] line))
    else if line_eq kind (codes "LAYOUT")
    then some (first_words (if is_field rest then 4 else 3) (split_words [] line))
    else none

abbrev pub Rows : Type 0
Rows = List (Line × Line)

-- rows[key] = line
unfoldable pub put : Line → Line → Rows → Rows
unfolding line_eq
put key line [] = (key, line) ∷ []
put key line ((k, l) ∷ rows) =
    if line_eq k key then (k, line) ∷ rows else (k, l) ∷ put key line rows

unfoldable pub row_at : Line → Rows → Option Line
unfolding line_eq
row_at key [] = none
row_at key ((k, l) ∷ rows) = if line_eq k key then some l else row_at key rows

-- {lock_key(line): line for line in lines}
unfoldable pub keyed : Rows → List Line → Option Rows
unfolding lock_key put
keyed rows [] = some rows
keyed rows (line ∷ lines) = lock_key line >>= λ key. keyed (put key line rows) lines

pub data Change : Type 0 where
  changed : Line → Line → Change
  removed added : Line → Change
  reordered : Change

-- What a key that stands in `old` tells, of its two lines.
abbrev pub changed_row : Option Line → Option Line → List Change
changed_row (some v) (some w) = if line_eq v w then [] else changed v w ∷ []
changed_row (some v) none = []
changed_row none now = []

abbrev pub removed_row : Option Line → Option Line → List Change
removed_row (some v) none = removed v ∷ []
removed_row (some v) (some w) = []
removed_row none now = []

abbrev pub added_row : Option Line → Option Line → List Change
added_row was (some w) = elim was [ none ↦ added w ∷ [] | some v ↦ [] ]
added_row was none = []

-- for k in keys, with old and new
unfoldable pub rows_by :
    (Option Line → Option Line → List Change) → Rows → Rows → Rows → List Change
unfolding row_at
rows_by row old new [] = []
rows_by row old new ((k, l) ∷ keys) = row (row_at k old) (row_at k new) ++ rows_by row old new keys

abbrev pub or_reordered : List Change → List Change
or_reordered [] = reordered ∷ []
or_reordered (c ∷ changes) = c ∷ changes

unfoldable pub report : Rows → Rows → List Change
unfolding rows_by line_eq
report old new = or_reordered (
    rows_by changed_row old new old
    ++ (rows_by removed_row old new old ++ rows_by added_row old new new))

pub data Locked : Type 0 where
  matched missing bad_row : Locked
  written : Line → Locked
  differs : List Change → Locked

-- line and not line.startswith("#")
abbrev pub is_row : Line → Bool
is_row [] = false
is_row (c ∷ cs) = not (c == 35)

unfoldable pub all_same : List Line → List Line → Bool
unfolding line_eq
all_same [] [] = true
all_same (a ∷ xs) (b ∷ ys) = line_eq a b && all_same xs ys
all_same _ _ = false

abbrev pub compared : List Line → List Line → Locked
compared locked rows = elim (keyed [] locked) [
  | none ↦ bad_row
  | some old ↦ elim (keyed [] rows) [ none ↦ bad_row | some new ↦ differs (report old new) ]
]

-- `lock` is the text of the lock, when there is one.
unfoldable pub check_abi_lock : List Line → Option Line → Bool → Locked
unfolding select all_same keyed report lock_text splitlines
check_abi_lock rows lock true = written (lock_text rows)
check_abi_lock rows none false = missing
check_abi_lock rows (some text) false =
    let locked = select is_row (splitlines text) in
    if all_same locked rows then matched else compared locked rows
