-- ===== src/Runner/Words.antt =====
-- The commands of tools/perf/run_performance_md.py. A word of a command, or a piece of a name or a
-- note, is kept as the value that the source formats.
use antfarm.Prelude.{ℕ, List, Option, String}

pub data Word : Type 0 where
  -- a literal
  lit : String → Word
  -- str(n)
  dec : ℕ → Word
  -- ",".join(str(c) for c in cpus)
  cpus : List ℕ → Word

-- cmd[0]: "dub", benchmark_path(name), or args.out / "bin" / name.
pub data Program : Type 0 where
  dub : Program
  benchmark : String → Program
  snapshot : String → Program

pub record Command : Type 0 where
  pub program : Program
  pub words : List Word

-- The dict of `case`.
pub record Case : Type 0 where
  pub section : String
  pub name : List Word
  pub cmd : Command
  pub in_ant_fibers : Option String
  pub env : List (String × Word)
  pub note : List Word
