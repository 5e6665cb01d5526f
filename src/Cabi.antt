-- ===== src/Cabi.antt =====
-- scripts/build-c-abi.py and scripts/check-c-abi.py: the steps of the checks of the C ABI.
pub mod Build
pub mod Native
pub mod Deaths
pub mod Plan
pub mod Symbols
pub mod Exports
pub mod LockFile
pub mod Lock
pub mod Reports
pub mod Written
pub mod Verdict
mod Tests
pub mod Check
pub mod Steps
pub mod Compiled
pub mod Binaries
use Prim.Native.String.{◌++◌ as join}
use text.Mathlib.Text.{◌==◌ as str_eq}
use antfarm.Prelude.{
  ℕ, zero, suc, Bool, true, false, ◌||◌, not, List, [], ◌∷◌, ◌++◌, map, Option, none, some, String,
  if◌then◌else◌,
}
use antfarm.Text.{Line, codes}
use antfarm.Shell.{
  Arg, built, Command, words, Ended, exited, timed_out, Failure, timeout, message, checked,
  occurs_in,
}

pub data Os : Type 0 where
  posix nt : Os

abbrev pub is_nt : Os → Bool
is_nt posix = false
is_nt nt = true

-- os.name, os.environ, and the files that rglob finds below threadpool/source and forkjoin/source.
pub record Host : Type 0 where
  pub os : Os
  pub variable : String → Option String
  pub threadpool_sources : List String
  pub forkjoin_sources : List String

-- What the scripts do one by one: a file is removed, a command is run, or run behind vcvars64.bat, a
-- binary is executed with the message of the death that it shall die, an archive is compared with its
-- headers, and the headers are compared with D.
pub data Step : Type 0 where
  unlink : String → Step
  run msvc : Command → Step
  execute : String → List String → Option String → Step
  audit_symbols : String → List String → Bool → Step
  audit_declarations : Bool → Step

-- What a step reads and writes among the files that the scripts build, as a command.
abbrev pub command : Step → Command
command (unlink path) = []
command (run c) = c
command (msvc c) = c
command (execute binary args death) = built binary ∷ words args
command (audit_symbols library headers core) = built library ∷ []
command (audit_declarations write) = []

-- What `execute` raises, by the message of the death and what the process prints; an exit status is 0
-- or not.
unfoldable pub execute_error : String → Option String → Ended → Option Failure
unfolding occurs_in
execute_error binary death timed_out = some timeout
execute_error binary none (exited zero text) = none
execute_error binary none (exited (suc n) text) =
    some (message (join "C ABI probe failed: " binary))
execute_error binary (some death) (exited zero text) = some (message "missing fatal diagnostic")
execute_error binary (some death) (exited (suc n) text) =
    if not (occurs_in (codes "C_FATAL_OBSERVER:") text) || not (occurs_in (codes death) text)
    then some (message "missing fatal diagnostic")
    else none
