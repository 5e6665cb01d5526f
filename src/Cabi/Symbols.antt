-- ===== src/Cabi/Symbols.antt =====
-- scripts/check-c-abi.py: `audit_symbols`.
use antfarm.Prelude.{
  ℕ, ◌+◌, Bool, true, false, ◌&&◌, ◌||◌, not, List, [], ◌∷◌, ◌++◌, Option, none, some, String, leb,
  ◌==◌, if◌then◌else◌, length,
}
use antfarm.Text.{Line, codes, is_space, after, line_eq}
use antfarm.Shell.{Failure, message, occurs_in}

-- What nm prints with --defined-only and with --undefined-only, or dumpbin with /symbols, in lines.
pub data Dump : Type 0 where
  nm : List Line → List Line → Dump
  dumpbin : List Line → Dump

pub record Symbols : Type 0 where
  pub defined : List Line
  pub undefined : List Line

-- text.split(), behind a word that has begun
abbrev ended_word : Line → List Line
ended_word [] = []
ended_word (c ∷ cs) = (c ∷ cs) ∷ []

unfoldable pub split_words : Line → Line → List Line
unfolding is_space
split_words begun [] = ended_word begun
split_words begun (c ∷ cs) = elim (is_space c) [
  | true ↦ ended_word begun ++ split_words [] cs
  | false ↦ split_words (begun ++ c ∷ []) cs
]

-- parts[-1], when parts[-2] has one character
unfoldable pub nm_name : List Line → Option Line
nm_name [] = none
nm_name (a ∷ []) = none
nm_name (a ∷ b ∷ []) = if length a == 1 then some b else none
nm_name (a ∷ b ∷ c ∷ parts) = nm_name (b ∷ c ∷ parts)

abbrev with_name : Option Line → List Line → List Line
with_name none names = names
with_name (some name) names = name ∷ names

unfoldable pub nm_names : List Line → List Line
unfolding split_words nm_name
nm_names [] = []
nm_names (line ∷ lines) = with_name (nm_name (split_words [] line)) (nm_names lines)

-- line.split("|", 1)[1], when there is one
unfoldable pub after_bar : Line → Option Line
after_bar [] = none
after_bar (c ∷ cs) = if c == 124 then some cs else after_bar cs

abbrev add_symbol : Bool → Line → Symbols → Symbols
add_symbol true name s = record { defined = s.defined; undefined = name ∷ s.undefined }
add_symbol false name s = record { defined = name ∷ s.defined; undefined = s.undefined }

-- A line of dumpbin in front of the symbols of the rest; no word behind the bar is an IndexError.
abbrev coff_line : Line → Option Line → Option Symbols → Option Symbols
coff_line line none rest = rest
coff_line line (some text) rest =
    if occurs_in (codes "External") line
    then elim (split_words [] text) [
      | [] ↦ none
      | ◌∷◌ name more ↦ elim rest [
        | none ↦ none
        | some s ↦ some (add_symbol (occurs_in (codes "UNDEF") line) name s)
      ]
    ]
    else rest

unfoldable pub coff_symbols : List Line → Option Symbols
unfolding occurs_in after_bar split_words
coff_symbols [] = some (record { defined = []; undefined = [] })
coff_symbols (line ∷ lines) = coff_line line (after_bar line) (coff_symbols lines)

unfoldable pub symbols_of : Dump → Option Symbols
unfolding nm_names coff_symbols
symbols_of (nm defined_lines undefined_lines) =
    some (record { defined = nm_names defined_lines; undefined = nm_names undefined_lines })
symbols_of (dumpbin lines) = coff_symbols lines

-- `name in names`
unfoldable pub listed : List Line → Line → Bool
unfolding line_eq
listed [] name = false
listed (n ∷ names) name = line_eq name n || listed names name

unfoldable pub all_lines : (Line → Bool) → List Line → Bool
all_lines test [] = true
all_lines test (n ∷ names) = test n && all_lines test names

unfoldable pub select : (Line → Bool) → List Line → List Line
select test [] = []
select test (n ∷ names) = if test n then n ∷ select test names else select test names

-- exports[name]
unfoldable pub occurrences : Line → List Line → ℕ
unfolding line_eq
occurrences name [] = 0
occurrences name (n ∷ names) = (if line_eq name n then 1 else 0) + occurrences name names

-- \w, of the ASCII characters
unfoldable pub is_word : ℕ → Bool
is_word c = (leb 48 c && leb c 57) || (leb 65 c && leb c 90) || c == 95 || (leb 97 c && leb c 122)

unfoldable pub are_words : Line → Bool
unfolding is_word
are_words [] = true
are_words (c ∷ cs) = is_word c && are_words cs

-- re.fullmatch(r"af_\w+", name)
unfoldable pub is_export : Line → Bool
unfolding after are_words
is_export name = elim (after (codes "af_") name) [
  | none ↦ false
  | some rest ↦ elim rest [ [] ↦ false | ◌∷◌ c cs ↦ are_words (c ∷ cs) ]
]

unfoldable pub has_prefix : List String → Line → Bool
unfolding after
has_prefix [] name = false
has_prefix (p ∷ prefixes) name = elim (after (codes p) name) [
  | some rest ↦ true
  | none ↦ has_prefix prefixes name
]

abbrev pub runtime_prefixes : List String
runtime_prefixes = "_D" ∷ "_d_" ∷ "_aa" ∷ "_ad" ∷ "gc_" ∷ "rt_" ∷ "thread_" ∷ []

-- re.match(r"(?:__imp_)?(?:_D|_d_|_aa|_ad|gc_|rt_|thread_)", name)
unfoldable pub is_forbidden : Line → Bool
unfolding has_prefix
is_forbidden name =
    elim (after (codes "__imp_") name) [
      | none ↦ false
      | some rest ↦ has_prefix runtime_prefixes rest
    ]
    || has_prefix runtime_prefixes name

module _ (expected : List Line) (s : Symbols) where
  abbrev pub exports : List Line
  exports = select is_export s.defined

  -- set(exports) == expected, and no export stands twice
  unfoldable pub is_match : Bool
  unfolding is_export all_lines listed select occurrences
  is_match =
      all_lines (listed expected) exports
      && (all_lines (listed exports) expected
          && all_lines (λ name. occurrences name exports == 1) exports)

  abbrev pub external : List Line
  external = select (λ name. not (listed s.defined name)) s.undefined

  unfoldable pub is_free : Bool
  unfolding is_forbidden all_lines listed select
  is_free = all_lines (λ name. not (is_forbidden name)) external

  unfoldable pub audit_error : Bool → Option Failure
  unfolding is_match is_free
  audit_error core =
      if is_match
      then if core && not is_free then some (message "core archive requires D runtime") else none
      else some (message "archive/header mismatch")

unfoldable pub symbols_error : Bool → List Line → Dump → Option Failure
unfolding symbols_of audit_error
symbols_error core expected dump = elim (symbols_of dump) [
  | none ↦ some (message "list index out of range")
  | some s ↦ audit_error expected s core
]
