-- ===== src/Cabi/Verdict.antt =====
-- scripts/check-c-abi.py: what it means that `main` comes to its end.
use antfarm.Prelude.{
  ℕ, zero, suc, ◌≡◌, ◌↔◌, refl, subst, Bool, true, false, ◌||◌, not, List, [], ◌∷◌, ◌++◌, Option,
  none, some, String, if◌then◌else◌,
}
use antfarm.Text.{Line, codes}
use antfarm.Shell.{
  Ended, exited, timed_out, Failure, timeout, message, occurs_in, Outcome, usage, passed, ended,
  run_all,
}
use antfarm.Shell.Runs.{AllPass, AllPass-at, ended-passed}
use antfarm.Cabi.{Host, Step, execute, execute_error}
use antfarm.Cabi.Check.{Machine, Args, refused, plan, attempt, main}

-- How a process shall end: with status 0, or, when it shall die, with another one, the words of the
-- observer of fatal errors, and the message of its death.
abbrev pub Judged : Option String → Ended → Type 0
Judged none e = (text : Line) × (e ≡ exited 0 text)
Judged (some death) e =
    (n : ℕ) × (text : Line) × ((e ≡ exited (suc n) text)
      × (occurs_in (codes "C_FATAL_OBSERVER:") text ≡ true)
      × (occurs_in (codes death) text ≡ true))

raised : (f : Failure) → some f ≡ none → ⊥
raised f e = cc

execute_error-Judged :
    (binary : String) (death : Option String) (e : Ended)
    → execute_error binary death e ≡ none
    → Judged death e
unfolding execute_error
execute_error-Judged binary none timed_out q = absurd (raised timeout q)
execute_error-Judged binary (some death) timed_out q = absurd (raised timeout q)
execute_error-Judged binary none (exited zero text) q = (text, refl)
execute_error-Judged binary none (exited (suc n) text) q = cc
execute_error-Judged binary (some death) (exited zero text) q =
    absurd (raised (message "missing fatal diagnostic") q)
execute_error-Judged binary (some death) (exited (suc n) text) q =
    go (occurs_in (codes "C_FATAL_OBSERVER:") text) (occurs_in (codes death) text) refl refl q
  where
    go :
        (b c : Bool)
        → occurs_in (codes "C_FATAL_OBSERVER:") text ≡ b
        → occurs_in (codes death) text ≡ c
        → (if not b || not c then some (message "missing fatal diagnostic") else none) ≡ none
        → Judged (some death) (exited (suc n) text)
    go true true x y r = (n, text, (refl, x, y))
    go true false x y r = absurd (raised (message "missing fatal diagnostic") r)
    go false c x y r = absurd (raised (message "missing fatal diagnostic") r)

module _ (m : Machine) (h : Host) (a : Args) where
  -- When `main` ends without an error, it has taken every step of the plan, and each has passed.
  pub main-AllPass :
      (steps : List Step)
      → main m h a ≡ passed steps
      → AllPass (attempt m) [] (plan h a) × (steps ≡ plan h a)
  unfolding main
  main-AllPass steps = go (refused h a) (ended-passed (attempt m) (plan h a) steps)
    where
      go :
          (r : Option String)
          → (ended (run_all (attempt m) [] (plan h a)) ≡ passed steps)
            ↔ (AllPass (attempt m) [] (plan h a) × (steps ≡ plan h a))
          → elim r as (λ r. Outcome Step) [
            | some error ↦ usage error
            | none ↦ ended (run_all (attempt m) [] (plan h a))
          ]
            ≡ passed steps
          → AllPass (attempt m) [] (plan h a) × (steps ≡ plan h a)
      go none (there, back) q = there q
      go (some error) k q = absurd (clash q)
        where
          clash : usage error ≡ passed steps → ⊥
          clash q = cc

  -- When `main` ends without an error, every program of its plan that shall die of a contract has ended
  -- with a status other than 0 and printed the words of the observer and the message of its death, and
  -- every other program has ended with status 0.
  pub main-Judged :
      (steps before later : List Step) (binary : String) (args : List String)
      (death : Option String)
      → main m h a ≡ passed steps
      → plan h a ≡ before ++ execute binary args death ∷ later
      → Judged death (m.process before (execute binary args death))
  unfolding attempt
  main-Judged steps before later binary args death q e =
      execute_error-Judged binary death (m.process before (execute binary args death)) (
        AllPass-at (attempt m) [] before (execute binary args death) later
          (subst (λ p. AllPass (attempt m) [] p) e (main-AllPass steps q).0))
