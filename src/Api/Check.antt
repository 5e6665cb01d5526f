-- ===== src/Api/Check.antt =====
-- scripts/check-api-docs.py: `resolution_names`, `index_symbols` and `main`.
use text.Mathlib.Text.{◌==◌ as str_eq}
use antfarm.Prelude.{
  ◌>>=◌, ℕ, zero, suc, ◌+◌, ◌≡◌, refl, Bool, true, false, ◌||◌, List, [], ◌∷◌, ◌++◌, map, Option,
  none, some, String, ◌==◌, if◌then◌else◌, length,
}
use antfarm.Text.{Line, codes, strip, line_eq}
use antfarm.Api.Protections.{scan_protections}
use antfarm.Api.Inventory.{Member, Declaration, both, public_declarations, is_documented}

pub record Module : Type 0 where
  pub name : String
  pub file : Option String
  pub members : List Member

-- `is_letter` is `\w` beyond ASCII, `lines_of` reads the file of that path below the root, and
-- `is_covered` says whether that path is normalized to one of COVERAGE_MODULES.
pub record Files : Type 0 where
  pub is_letter : ℕ → Bool
  pub lines_of : String → List Line
  pub is_covered : String → Bool

-- The declarations that lack a comment, and the number of all, of each covered module.
pub record Coverage : Type 0 where
  pub name : String
  pub missing : List Declaration
  pub required : ℕ

abbrev pub lacking : List Declaration → List Declaration
lacking [] = []
lacking ((name, m) ∷ ds) = if is_documented m then lacking ds else (name, m) ∷ lacking ds

abbrev pub coverage_from : Module → List Declaration → Option (List Coverage)
coverage_from m ds =
    some (record { name = m.name; missing = lacking ds; required = length ds } ∷ [])

abbrev pub declarations_coverage : Module → List (ℕ × String) → Option (List Coverage)
declarations_coverage m ps = public_declarations (some ps) m.members >>= coverage_from m

module _ (fs : Files) where
  -- `scan_protections`, if the module has a file
  unfoldable pub protections_of : Module → Option (Option (List (ℕ × String)))
  protections_of m = elim m.file [
    | none ↦ some none
    | some file ↦
        if str_eq file ""
        then some none
        else elim (scan_protections fs.is_letter (fs.lines_of file)) [
          | none ↦ none
          | some ps ↦ some (some ps)
        ]
  ]

  abbrev qualified : Declaration → Line
  qualified (name, m) = codes name

  -- The names of the modules and of their public declarations; a set is a list of its elements.
  unfoldable pub resolution_names : List Module → Option (List Line)
  unfolding protections_of
  resolution_names [] = some []
  resolution_names (m ∷ ms) = elim (protections_of m) [
    | none ↦ none
    | some ps ↦ elim (public_declarations ps m.members) [
      | none ↦ none
      | some ds ↦ elim (resolution_names ms) [
        | none ↦ none
        | some names ↦ some (codes m.name ∷ (map qualified ds ++ names))
      ]
    ]
  ]

  unfoldable pub file_coverage : Module → String → Bool → Option (List Coverage)
  file_coverage m file false = some []
  file_coverage m file true =
      scan_protections fs.is_letter (fs.lines_of file) >>= declarations_coverage m

  -- The round of the second loop; a module without a file is not covered.
  unfoldable pub module_coverage : Module → Option String → Option (List Coverage)
  unfolding file_coverage
  module_coverage m none = some []
  module_coverage m (some file) = file_coverage m file (fs.is_covered file)

  unfoldable pub coverage_of : List Module → Option (List Coverage)
  unfolding module_coverage
  coverage_of [] = some []
  coverage_of (m ∷ ms) = both (module_coverage m m.file) (coverage_of ms)

-- line.strip("|").split("|"), each cell stripped
unfoldable lstrip_bars : Line → Line
lstrip_bars [] = []
lstrip_bars (c ∷ cs) = if c == b'|' then lstrip_bars cs else c ∷ cs

unfoldable rstrip_bars : Line → Line
rstrip_bars [] = []
rstrip_bars (c ∷ cs) = elim (rstrip_bars cs) [
  | [] ↦ if c == b'|' then [] else c ∷ []
  | ◌∷◌ d rest ↦ c ∷ d ∷ rest
]

unfoldable split_bars : Line → Line → List Line
split_bars [] cell = cell ∷ []
split_bars (c ∷ cs) cell = elim (c == b'|') [
  | true ↦ cell ∷ split_bars cs []
  | false ↦ split_bars cs (cell ++ c ∷ [])
]

unfoldable pub cells_of : Line → List Line
unfolding lstrip_bars rstrip_bars split_bars strip
cells_of line = map strip (split_bars (rstrip_bars (lstrip_bars line)) [])

-- re.findall(r"`([^`]+)`", text): `open` holds the text behind a backtick that no other has closed.
unfoldable ticked : Option Line → Line → List Line
ticked open_text [] = []
ticked none (c ∷ cs) = ticked (if c == b'`' then some [] else none) cs
ticked (some []) (c ∷ cs) = ticked (some (if c == b'`' then [] else c ∷ [])) cs
ticked (some (t ∷ ts)) (c ∷ cs) = elim (c == b'`') [
  | true ↦ (t ∷ ts) ∷ ticked none cs
  | false ↦ ticked (some (t ∷ ts ++ c ∷ [])) cs
]

abbrev starts_with_bar : Line → Bool
starts_with_bar [] = false
starts_with_bar (c ∷ cs) = c == b'|'

abbrev is_heading : Line → Bool
is_heading cell =
    line_eq cell (codes "Symbol")
    || line_eq cell (codes "---")
    || line_eq cell (codes ":---")
    || line_eq cell (codes ":-:")

unfoldable pub symbols_in : List Line → List Line
unfolding ticked
symbols_in [] = []
symbols_in (first ∷ []) = []
symbols_in (first ∷ cell ∷ cells) = if is_heading cell then [] else ticked none cell

unfoldable pub index_symbols : List Line → List Line
unfolding cells_of symbols_in
index_symbols [] = []
index_symbols (line ∷ lines) =
    (if starts_with_bar line then symbols_in (cells_of line) else []) ++ index_symbols lines

abbrev pub has : Line → List Line → Bool
has s [] = false
has s (n ∷ names) = line_eq s n || has s names

-- The symbols of the index that no name resolves.
unfoldable pub unresolved : List Line → List Line → List Line
unresolved names [] = []
unresolved names (s ∷ symbols) =
    if has s names then unresolved names symbols else s ∷ unresolved names symbols

abbrev covers : String → List Coverage → Bool
covers name [] = false
covers name (c ∷ cs) = str_eq name c.name || covers name cs

-- sum(total for _, total in coverage.values()): of modules of one name the dict keeps the last.
unfoldable pub required_total : List Coverage → ℕ
required_total [] = 0
required_total (c ∷ cs) = (if covers c.name cs then 0 else c.required) + required_total cs

unfoldable pub missing_of : List Coverage → List Declaration
missing_of [] = []
missing_of (c ∷ cs) = c.missing ++ missing_of cs

-- The exit status, from the symbols and declarations that `errors` is made of. Where nothing is
-- required the percentage divides by zero.
unfoldable pub exit_of : List Line → List Declaration → ℕ → Option ℕ
exit_of lost missing zero = none
exit_of [] [] (suc n) = some 0
exit_of [] (d ∷ ds) (suc n) = some 1
exit_of (s ∷ ss) missing (suc n) = some 1

abbrev pub verdict : List Line → List Line → List Coverage → Option ℕ
verdict page names cs =
    exit_of (unresolved names (index_symbols page)) (missing_of cs) (required_total cs)

abbrev pub judged : Files → List Module → List Line → List Line → Option ℕ
judged fs api page names = coverage_of fs api >>= verdict page names

-- `api` is what the compiler writes, `page` the lines of INDEX_PAGE.
unfoldable pub main : Files → List Module → List Line → Option ℕ
unfolding resolution_names coverage_of index_symbols unresolved missing_of required_total exit_of
main fs api page = resolution_names fs api >>= judged fs api page

symbols :
    index_symbols (
      codes "| Module | Symbol |"
      ∷ codes "|---|---|"
      ∷ codes "| a | `Farm`, `write`` x |"
      ∷ codes "text `y`"
      ∷ [])
    ≡ codes "Farm" ∷ codes "write" ∷ []
unfolding index_symbols line_eq
symbols = refl
