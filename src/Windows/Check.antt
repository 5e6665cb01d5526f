-- ===== src/Windows/Check.antt =====
-- scripts/check-windows.py: `parse_args` and `main`.
use Prim.Native.String.{◌++◌ as join}
use text.Mathlib.Text.{◌==◌ as str_eq}
use antfarm.Prelude.{
  ℕ, Bool, true, false, ◌&&◌, List, [], ◌∷◌, ◌++◌, Option, none, some, String, ◌==◌, if◌then◌else◌,
}
use antfarm.Shell.{Command, Ended, Failure, message, run_all, Outcome, usage, failed, ended}
use antfarm.Windows.{Lane, all_lanes, quick_lanes, Checks, run}
use antfarm.Windows.Lanes.{run_lanes}

-- --quick and --lanes exclude each other.
pub data Selection : Type 0 where
  every quick : Selection
  lanes : List Lane → Selection

-- The arguments, as argparse has read them; a timeout below 0 is one of 0.
pub record Args : Type 0 where
  pub compiler : String
  pub selection : Selection
  pub timeout : ℕ
  pub allow_hardware_skips : Bool

abbrev pub is_quick : Selection → Bool
is_quick quick = true
is_quick every = false
is_quick (lanes ls) = false

-- parser.error, by its message
unfoldable pub refused : Args → Option String
refused a =
    if a.timeout == 0
    then some "--timeout must be positive"
    else if is_quick a.selection && str_eq a.compiler "dmd"
    then some "--quick requires LDC; use --lanes to select DMD checks"
    else none

-- The host: os.name, the tools on PATH, and the processes.
pub record Windows : Type 0 where
  -- how a process ends that is started behind others
  pub process : List Command → Command → Ended
  pub os_name : String
  pub has_tool : String → Bool
  pub python : String
  pub doc_examples : List String

unfoldable pub compilers_of : Args → List String
compilers_of a =
    if is_quick a.selection
    then "ldc2" ∷ []
    else if str_eq a.compiler "all"
    then "ldc2" ∷ "dmd" ∷ []
    else a.compiler ∷ []

-- QUICK_LANES if args.quick else (args.lanes or LANES)
unfoldable pub lanes_of : Selection → List Lane
lanes_of quick = quick_lanes
lanes_of every = all_lanes
lanes_of (lanes []) = all_lanes
lanes_of (lanes (l ∷ ls)) = l ∷ ls

unfoldable pub missing_tool : (String → Bool) → List String → Option String
missing_tool has_tool [] = none
missing_tool has_tool (tool ∷ tools) =
    if has_tool tool then missing_tool has_tool tools else some tool

module _ (w : Windows) (a : Args) where
  abbrev pub checks_of : String → Checks
  checks_of compiler = record {
    compiler = compiler;
    quick = is_quick a.selection;
    python = w.python;
    doc_examples = w.doc_examples;
  }

  -- for compiler in compilers: for lane in lanes
  unfoldable pub run_compilers : List String → List Command
  unfolding run_lanes lanes_of
  run_compilers [] = []
  run_compilers (compiler ∷ compilers) =
      run_lanes (checks_of compiler) (lanes_of a.selection) ++ run_compilers compilers

  abbrev pub attempt : List Command → Command → Option Failure
  attempt past command = run a.allow_hardware_skips (w.process past command)

  abbrev pub with_tools : Option String → Outcome Command
  with_tools (some tool) = failed (message (join "required tool is not on PATH: " tool)) []
  with_tools none = ended (run_all attempt [] (run_compilers (compilers_of a)))

  abbrev pub accepted : Outcome Command
  accepted =
      if str_eq w.os_name "nt"
      then with_tools (missing_tool w.has_tool ("dub" ∷ "taskkill" ∷ compilers_of a))
      else failed (message "check-windows requires Windows; use make check on Linux") []

  unfoldable pub main : Outcome Command
  unfolding refused compilers_of missing_tool run run_all run_compilers
  main = elim (refused a) [ some error ↦ usage error | none ↦ accepted ]
