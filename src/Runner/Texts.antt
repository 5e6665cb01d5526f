-- ===== src/Runner/Texts.antt =====
-- tools/perf/run_performance_md.py: the text that a word of a command stands for, and Python's
-- equality of the lists and dicts of a cell.
use Prim.Native.String.{◌++◌ as join}
use text.Mathlib.Text.{◌==◌ as str_eq}
use text.Mathlib.TextPositions.{eq_refl}
use antfarm.Prelude.{
  ℕ, zero, suc, ◌/◌, ◌%◌, ◌≡◌, refl, Bool, true, false, ◌&&◌, List, [], ◌∷◌, Option, none, some,
  String, ltb, ◌==◌, if◌then◌else◌,
}
use antfarm.Runner.Words.{Word, lit, dec, cpus, Program, dub, benchmark, snapshot, Command}

abbrev digit : ℕ → String
digit d =
    if d == 0
    then "0"
    else if d == 1
    then "1"
    else if d == 2
    then "2"
    else if d == 3
    then "3"
    else if d == 4
    then "4"
    else if d == 5
    then "5"
    else if d == 6
    then "6"
    else if d == 7
    then "7"
    else if d == 8
    then "8"
    else "9"

-- A number has at most as many digits as it has predecessors, and one more.
unfoldable decimal_within : ℕ → ℕ → String
decimal_within zero n = ""
decimal_within (suc fuel) n =
    let rest = decimal_within fuel (n / 10) in
    if ltb n 10 then digit n else join rest (digit (n % 10))

-- str(n)
unfoldable pub decimal : ℕ → String
unfolding decimal_within
decimal n = decimal_within (suc n) n

unfoldable comma_separated : List ℕ → String
unfolding decimal
comma_separated [] = ""
comma_separated (c ∷ []) = decimal c
comma_separated (c ∷ d ∷ cs) = join (decimal c) (join "," (comma_separated (d ∷ cs)))

unfoldable pub text_of : Word → String
unfolding decimal comma_separated
text_of (lit s) = s
text_of (dec n) = decimal n
text_of (cpus cs) = comma_separated cs

-- The text of a name.
unfoldable pub text_of_name : List Word → String
unfolding text_of
text_of_name [] = ""
text_of_name (w ∷ ws) = join (text_of w) (text_of_name ws)

unfoldable pub words_eq : List Word → List Word → Bool
words_eq [] [] = true
words_eq (v ∷ vs) (w ∷ ws) = str_eq (text_of v) (text_of w) && words_eq vs ws
words_eq _ _ = false

abbrev pub program_eq : Program → Program → Bool
program_eq dub dub = true
program_eq (benchmark a) (benchmark b) = str_eq a b
program_eq (snapshot a) (snapshot b) = str_eq a b
program_eq _ _ = false

unfoldable pub command_eq : Command → Command → Bool
unfolding words_eq
command_eq c d = program_eq c.program d.program && words_eq c.words d.words

abbrev pub folder_eq : Option String → Option String → Bool
folder_eq none none = true
folder_eq (some a) (some b) = str_eq a b
folder_eq _ _ = false

-- The environments of cells have at most one variable, so the order of a dict does not show.
unfoldable pub env_eq : List (String × Word) → List (String × Word) → Bool
env_eq [] [] = true
env_eq ((k, v) ∷ vs) ((l, w) ∷ ws) = str_eq k l && str_eq (text_of v) (text_of w) && env_eq vs ws
env_eq _ _ = false

pub words_eq_refl : (ws : List Word) → words_eq ws ws ≡ true
unfolding words_eq
words_eq_refl [] = refl
words_eq_refl (w ∷ ws) = rw (eq_refl (text_of w), words_eq_refl ws) refl

program_eq_refl : (p : Program) → program_eq p p ≡ true
program_eq_refl dub = refl
program_eq_refl (benchmark a) = eq_refl a
program_eq_refl (snapshot a) = eq_refl a

pub command_eq_refl : (c : Command) → command_eq c c ≡ true
unfolding command_eq
command_eq_refl c = rw (program_eq_refl c.program, words_eq_refl c.words) refl

pub folder_eq_refl : (f : Option String) → folder_eq f f ≡ true
folder_eq_refl none = refl
folder_eq_refl (some a) = eq_refl a

pub env_eq_refl : (e : List (String × Word)) → env_eq e e ≡ true
unfolding env_eq
env_eq_refl [] = refl
env_eq_refl ((k, v) ∷ vs) = rw (eq_refl k, eq_refl (text_of v), env_eq_refl vs) refl
