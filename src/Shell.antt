-- ===== src/Shell.antt =====
-- The commands that the checkers and drivers run, one after the other until one fails.
pub mod Runs
pub mod Builds
use antfarm.Prelude.{
  ℕ, zero, suc, ◌≡◌, Bool, true, false, ◌||◌, List, [], ◌∷◌, ◌++◌, map, Option, none, some, String,
  if◌then◌else◌,
}
use antfarm.Text.{Line, codes, after}

-- A word of a command: a text, a file below the root that is there, one that a command before it has
-- written, and one that the command itself writes; `built_as` is the last and `built_in` the one before,
-- behind an option in the same word.
pub data Arg : Type 0 where
  word file built output : String → Arg
  built_as built_in : String → String → Arg

abbrev pub Command : Type 0
Command = List Arg

abbrev pub words : List String → Command
words ss = map word ss

-- How a process ends: its exit status with its output, or the time runs out.
pub data Ended : Type 0 where
  exited : ℕ → Line → Ended
  timed_out : Ended

-- The exceptions that end a script.
pub data Failure : Type 0 where
  timeout hardware_skipped : Failure
  status : ℕ → Failure
  message : String → Failure

-- `part in text`
unfoldable pub occurs_in : Line → Line → Bool
unfolding after
occurs_in part [] = elim (after part []) [ none ↦ false | some rest ↦ true ]
occurs_in part (c ∷ cs) = elim (after part (c ∷ cs)) [ none ↦ occurs_in part cs | some rest ↦ true ]

-- subprocess.run with check=True
abbrev pub checked : Ended → Option Failure
checked timed_out = some timeout
checked (exited zero text) = none
checked (exited (suc n) text) = some (status (suc n))

-- What is run one by one, as long as `attempt` says nothing against it, behind what was run before: what
-- ended the run, and all that was run.
unfoldable pub run_all :
    {S : Type 0} → (List S → S → Option Failure) → List S → List S → Option Failure × List S
run_all attempt past [] = (none, past)
run_all attempt past (c ∷ cs) = elim (attempt past c) [
  | some f ↦ (some f, past ++ c ∷ [])
  | none ↦ run_all attempt (past ++ c ∷ []) cs
]

-- The end of a script: a usage error, what it raises with the steps taken by then, or its last line.
pub data Outcome (S : Type 0) : Type 0 where
  usage : String → Outcome S
  failed : Failure → List S → Outcome S
  passed : List S → Outcome S

abbrev pub ended : {S : Type 0} → Option Failure × List S → Outcome S
ended (none, steps) = passed steps
ended (some f, steps) = failed f steps
