-- ===== src/Cabi/Check.antt =====
-- scripts/check-c-abi.py: `main`.
use Prim.Native.String.{◌++◌ as join}
use text.Mathlib.Text.{◌==◌ as str_eq}
use antfarm.Prelude.{
  Bool, true, false, ◌&&◌, ◌||◌, not, List, [], ◌∷◌, ◌++◌, Option, none, some, String,
  if◌then◌else◌,
}
use antfarm.Text.{Line}
use antfarm.Shell.{Ended, Failure, checked, run_all, Outcome, usage, ended}
use antfarm.Cabi.{
  Host, is_nt, Step, unlink, run, msvc, execute, audit_symbols, audit_declarations, execute_error,
}
use antfarm.Cabi.Build.{in_folder, core_library, build_core}
use antfarm.Cabi.Plan.{core_checks, runtime_checks, tsan_checks}
use antfarm.Cabi.Symbols.{Dump, symbols_error}

-- --core-only and --runtime-only exclude each other.
pub data Selection : Type 0 where
  all core_only runtime_only : Selection

pub record Args : Type 0 where
  pub compiler : String
  pub selection : Selection
  pub tsan : Bool
  pub write_abi_lock : Bool

abbrev pub is_core_only : Selection → Bool
is_core_only core_only = true
is_core_only all = false
is_core_only runtime_only = false

abbrev pub is_runtime_only : Selection → Bool
is_runtime_only runtime_only = true
is_runtime_only all = false
is_runtime_only core_only = false

-- What happens outside, each behind the steps before it: how a process ends, what nm or dumpbin shows of
-- an archive, the functions that headers declare, and what the audit of the declarations raises.
pub record Machine : Type 0 where
  pub process : List Step → Step → Ended
  pub dump : List Step → String → Dump
  pub declared : List String → List Line
  pub audited : List Step → Bool → Option Failure

module _ (h : Host) (a : Args) where
  -- p.error
  unfoldable pub refused : Option String
  refused =
      if a.tsan && (is_nt h.os || not (str_eq a.compiler "ldc2") || is_runtime_only a.selection)
      then some "--tsan requires Linux LDC and checks the core"
      else if a.tsan && a.write_abi_lock
      then some "--write-abi-lock runs the declaration audit, which the TSan lane skips"
      else none

  abbrev pub build_folder : String
  build_folder =
      let build = join ".build/c-abi-" (join a.compiler (if is_nt h.os then "-nt" else "-posix")) in
      if a.tsan then in_folder build "tsan" else build

  abbrev pub main_checks : String → String → List Step
  main_checks build lib =
      (if is_runtime_only a.selection then [] else core_checks h a.compiler build lib)
      ++ (if is_core_only a.selection then [] else runtime_checks h a.compiler build lib)

  abbrev pub after_core : String → String → List Step
  after_core build lib =
      if a.tsan
      then tsan_checks h a.compiler build lib
      else audit_declarations a.write_abi_lock
        ∷ (if a.write_abi_lock then [] else main_checks build lib)

  unfoldable pub plan : List Step
  unfolding build_core core_checks runtime_checks tsan_checks
  plan =
      build_core h a.compiler build_folder false a.tsan false
      ++ audit_symbols (core_library h build_folder)
          ("antfarm.h" ∷ "antfarm_actors.h" ∷ "antfarm_private.h" ∷ []) true
        ∷ after_core build_folder (core_library h build_folder)

module _ (m : Machine) where
  unfoldable pub attempt : List Step → Step → Option Failure
  unfolding execute_error symbols_error
  attempt past (unlink file) = none
  attempt past (run c) = checked (m.process past (run c))
  attempt past (msvc c) = checked (m.process past (msvc c))
  attempt past (execute binary args death) =
      execute_error binary death (m.process past (execute binary args death))
  attempt past (audit_symbols library headers core) =
      symbols_error core (m.declared headers) (m.dump past library)
  attempt past (audit_declarations write) = m.audited past write

  unfoldable pub main : Host → Args → Outcome Step
  unfolding refused plan attempt run_all
  main h a = elim (refused h a) [
    | some error ↦ usage error
    | none ↦ ended (run_all attempt [] (plan h a))
  ]
