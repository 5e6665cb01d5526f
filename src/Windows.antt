-- ===== src/Windows.antt =====
-- scripts/check-windows.py: the lanes of the Windows checks.
pub mod Lanes
pub mod Check
pub mod Binaries
pub mod Verdict
mod Tests
use Prim.Native.String.{◌++◌ as join}
use text.Mathlib.Text.{◌==◌ as str_eq}
use antfarm.Prelude.{
  ℕ, zero, suc, Bool, true, false, ◌&&◌, ◌||◌, not, List, [], ◌∷◌, ◌++◌, map, Option, none, some,
  String, if◌then◌else◌,
}
use antfarm.Text.{Line, codes}
use antfarm.Shell.{
  Arg, word, file, built, built_as, Command, words, Ended, exited, timed_out, Failure, timeout,
  hardware_skipped, status, occurs_in,
}

-- LANES
pub data Lane : Type 0 where
  packages threadpool forkjoin ordering review actors private examples : Lane

abbrev pub all_lanes : List Lane
all_lanes = packages ∷ threadpool ∷ forkjoin ∷ ordering ∷ review ∷ actors ∷ private ∷ examples ∷ []

abbrev pub quick_lanes : List Lane
quick_lanes = packages ∷ review ∷ examples ∷ []

-- HARDWARE_SKIPS
abbrev pub hardware_skips : List Line
hardware_skips =
    codes "SKIP worker cases" ∷ codes "SKIP affinity regression" ∷ codes "SKIP confine-test" ∷ []

unfoldable pub has_skip : List Line → Line → Bool
unfolding occurs_in
has_skip [] text = false
has_skip (skip ∷ skips) text = occurs_in skip text || has_skip skips text

-- What `run` raises, from how its process ends.
unfoldable pub run : Bool → Ended → Option Failure
unfolding has_skip
run allow_hardware_skips timed_out = some timeout
run allow_hardware_skips (exited (suc n) text) = some (status (suc n))
run allow_hardware_skips (exited zero text) =
    if not allow_hardware_skips && has_skip hardware_skips text then some hardware_skipped else none

-- `self` of Checks, with the path of the Python that runs, and the examples that
-- extract_doc_examples.py leaves in tests/private/.doc-examples, by their stems in order.
pub record Checks : Type 0 where
  pub compiler : String
  pub quick : Bool
  pub python : String
  pub doc_examples : List String

module _ (c : Checks) where
  abbrev pub is_dmd : Bool
  is_dmd = str_eq c.compiler "dmd"

  abbrev pub is_ldc : Bool
  is_ldc = str_eq c.compiler "ldc2"

  abbrev pub version_flag : String
  version_flag = if is_dmd then "-version=" else "-d-version="

  abbrev pub flags : List String
  flags = if is_dmd then "-g" ∷ [] else "-g" ∷ "-O1" ∷ []

  -- [sys.executable, "-B", ...]
  abbrev pub python_script : List String → Command
  python_script args = words (c.python ∷ "-B" ∷ args)

  unfoldable pub dub : String → Option String → List String → Command
  dub command subpackage options = words (
      "dub"
      ∷ command
      ∷ (elim subpackage [ none ↦ [] | some p ↦ p ∷ [] ]
          ++ join "--compiler=" c.compiler ∷ "--arch=x86_64" ∷ "--combined" ∷ "--nodeps" ∷ options))

  abbrev pub binary : String → String
  binary name = join ".build/windows-check/" (join name (join "_" (join c.compiler ".exe")))

  unfoldable pub build_run : String → Command → List String → List Command
  build_run name sources versions =
      (words (c.compiler ∷ (flags ++ "-I." ∷ map (λ version. join version_flag version) versions))
        ++ sources
        ++ built_as "-of=" (binary name) ∷ [])
      ∷ (built (binary name) ∷ [])
      ∷ []
