-- ===== src/Runner/Measure.antt =====
-- tools/perf/run_performance_md.py, `frozen_cell`, `measure_cell` and `cell_is_cached`. A metric is a
-- float, of which these functions only keep the value: `V` is any type.
use text.Mathlib.Text.{◌==◌ as str_eq}
use antfarm.Prelude.{
  ℕ, zero, suc, Bool, false, ◌&&◌, not, List, [], ◌∷◌, ◌++◌, Option, none, some, String, ltb, leb,
  ◌==◌, if◌then◌else◌, length,
}
use antfarm.Runner.Words.{Word, Program, dub, benchmark, snapshot, Case}
use antfarm.Runner.Select.{Parser, parser_named, parser_for, requested_runs}
use antfarm.Runner.Texts.{text_of, text_of_name, command_eq, folder_eq, env_eq}

-- A cell after `frozen_cell`: its "parser" entry is there only for a Dub command.
pub record Frozen : Type 0 where
  pub case : Case
  pub parser : Option String

-- rc: an exit status, the number of the signal that ended the process, or "timeout"
pub data Exit : Type 0 where
  exited : ℕ → Exit
  killed : ℕ → Exit
  timed_out : Exit

abbrev pub is_success : Exit → Bool
is_success (exited n) = n == 0
is_success (killed n) = false
is_success timed_out = false

-- cmd[cmd.index(flag) + 1:]
unfoldable pub words_after : String → List Word → Option (List Word)
words_after flag [] = none
words_after flag (w ∷ ws) =
    let rest = words_after flag ws in if str_eq (text_of w) flag then some ws else rest

-- `is_unchanged` says whether file_hash of the program is the one of the manifest; `none` stands for
-- an exception. A configuration is written as it stands, so its text names the snapshot.
unfoldable pub frozen_cell : (Program → Bool) → Case → Option Frozen
unfolding words_after
frozen_cell is_unchanged c = elim c.cmd.program [
  | dub ↦ elim (words_after "-c" c.cmd.words) [
    | none ↦ none
    | some configuration ↦ elim configuration [
      | [] ↦ none
      | w ∷ _ ↦ elim (words_after "--" c.cmd.words) [
        | none ↦ none
        | some arguments ↦
            if is_unchanged (snapshot (text_of w))
            then some (record {
              case = record c {
                cmd = record { program = snapshot (text_of w); words = arguments };
              };
              parser = some "dub_fiber";
            })
            else none
      ]
    ]
  ]
  | benchmark name ↦
      if is_unchanged (benchmark name) then some (record { case = c; parser = none }) else none
  | snapshot name ↦
      if is_unchanged (snapshot name) then some (record { case = c; parser = none }) else none
]

-- PARSERS[cell["parser"]] if "parser" in cell else parser_for(cell["cmd"])
unfoldable pub cell_parser : Frozen → Option Parser
unfolding parser_for
cell_parser f = elim f.parser [ none ↦ parser_for f.case.cmd | some name ↦ parser_named name ]

abbrev pub is_spawn_and_drain : Option String → Bool
is_spawn_and_drain none = false
is_spawn_and_drain (some kind) = str_eq kind "spawn_and_drain"

-- The cell whose metric was another one in earlier versions.
abbrev pub is_benchmark_mt : Case → Bool
is_benchmark_mt c = str_eq c.section "fibers" && str_eq (text_of_name c.name) "benchmark_mt"

module _ {ℓ} (V : Type ℓ) where
  -- What a parser returns: the metric may be missing, and the kind of the metric is given by few.
  pub record Parsed : Type ℓ where
    pub metric : Option V
    pub metric_kind : Option String

  -- A run: what the runner returned, and what the parser makes of its output, `none` for a ValueError
  -- or a KeyError.
  pub record Run : Type ℓ where
    pub rc : Exit
    pub output : Option Parsed

  pub record Entry : Type ℓ where
    pub rc : Exit
    pub metric : Option V

  pub record Row : Type ℓ where
    pub section : String
    pub case : Case
    pub runs : List Entry
    pub valid_runs : ℕ
    pub requested : ℕ
    -- "values", which only a row with a valid run has
    pub values : List V
    -- "metric_kind" of "config", the last valid run
    pub metric_kind : Option String
    -- status == "ok"
    pub is_ok : Bool

  pub record Samples : Type ℓ where
    pub entries : List Entry
    pub valid : List (Parsed × V)

module _ {ℓ} {V : Type ℓ} where
  -- parsed, after the `try`
  abbrev pub parsed_of : Run V → Option (Parsed V)
  parsed_of r = if is_success r.rc then r.output else none

  abbrev pub metric_of : Option (Parsed V) → Option V
  metric_of none = none
  metric_of (some p) = p.metric

  abbrev pub valid_of : Option (Parsed V) → List (Parsed V × V)
  valid_of none = []
  valid_of (some p) = elim p.metric [ none ↦ [] | some v ↦ (p, v) ∷ [] ]

  -- for i in range(i, i + left)
  unfoldable pub samples : (ℕ → Run V) → ℕ → ℕ → Samples V
  samples run i zero = record { entries = []; valid = [] }
  samples run i (suc left) =
      let rest = samples run (suc i) left in
      let parsed = parsed_of (run i) in
      record {
        entries = record { rc = (run i).rc; metric = metric_of parsed } ∷ rest.entries;
        valid = valid_of parsed ++ rest.valid;
      }

  abbrev pub values_of : List (Parsed V × V) → List V
  values_of [] = []
  values_of ((p, v) ∷ rest) = v ∷ values_of rest

  abbrev pub last_kind : List (Parsed V × V) → Option String
  last_kind [] = none
  last_kind ((p, v) ∷ []) = p.metric_kind
  last_kind (_ ∷ q ∷ rest) = last_kind (q ∷ rest)

  abbrev pub row_of : String → Case → ℕ → Samples V → Row V
  row_of section c requested s = record {
    section = section;
    case = c;
    runs = s.entries;
    valid_runs = length s.valid;
    requested = requested;
    values = values_of s.valid;
    metric_kind = last_kind s.valid;
    is_ok = leb requested (length s.valid);
  }

  -- `runs` and `minimum` are args.runs and args.six_consumer_runs; `run` gives the run of each number,
  -- read by the given parser. `none` stands for an exception.
  unfoldable pub measure_cell :
      ℕ → Option ℕ → (Parser → ℕ → Run V) → String → Frozen → Option (Row V)
  unfolding samples cell_parser
  measure_cell runs minimum run section f = elim (cell_parser f) [
    | none ↦ none
    | some p ↦ elim (requested_runs runs minimum f.case.cmd) [
      | none ↦ none
      | some requested ↦ some (row_of section f.case requested (samples (run p) 0 requested))
    ]
  ]

  abbrev pub is_outdated : Case → Row V → Bool
  is_outdated c row = is_benchmark_mt c && not (is_spawn_and_drain row.metric_kind)

  unfoldable pub cell_is_cached : Option (Row V) → Frozen → ℕ → Bool
  unfolding command_eq env_eq
  cell_is_cached none f runs = false
  cell_is_cached (some row) f runs =
      if not row.is_ok
      then false
      else if ltb (length row.values) runs
      then false
      else if is_outdated f.case row
      then false
      else (command_eq row.case.cmd f.case.cmd
          && folder_eq row.case.in_ant_fibers f.case.in_ant_fibers
          && env_eq row.case.env f.case.env)
