-- ===== src/Shell/Runs.antt =====
-- How far a script comes.
use mathlib.Core.List.{append_assoc, append-nil}
use antfarm.Prelude.{
  ◌≡◌, ◌⊎◌, inl, inr, ◌↔◌, refl, sym, ap, ◌∙◌, subst, List, [], ◌∷◌, ◌++◌, Option, none, some,
}
use antfarm.Shell.{Failure, run_all, Outcome, usage, failed, passed, ended}

module _ {S : Type 0} (attempt : List S → S → Option Failure) where
  -- Each step succeeds behind those before it.
  abbrev pub AllPass : List S → List S → Type 0
  AllPass past [] = Unit
  AllPass past (c ∷ cs) = (attempt past c ≡ none) × AllPass (past ++ c ∷ []) cs

  -- The first steps pass, and the next one fails.
  abbrev pub StopsAt : List S → List S → Failure → List S → Type 0
  StopsAt past [] f run = ⊥
  StopsAt past (c ∷ cs) f run =
      ((attempt past c ≡ some f) × (run ≡ past ++ c ∷ []))
      ⊎ ((attempt past c ≡ none) × StopsAt (past ++ c ∷ []) cs f run)

  -- A script either runs all its steps and all of them pass, or ends with the first that fails.
  abbrev pub Ran : List S → List S → Option Failure × List S → Type 0
  Ran past cs (none, run) = AllPass past cs × (run ≡ past ++ cs)
  Ran past cs (some f, run) = StopsAt past cs f run

  pub run_all-Ran : (past cs : List S) → Ran past cs (run_all attempt past cs)
  unfolding run_all
  run_all-Ran past [] = (tt, sym (append-nil past))
  run_all-Ran past (c ∷ cs) = go (attempt past c) refl (run_all-Ran (past ++ c ∷ []) cs)
    where
      later :
          (r : Option Failure × List S)
          → attempt past c ≡ none
          → Ran (past ++ c ∷ []) cs r
          → Ran past (c ∷ cs) r
      later (none, run) e (all, same) = ((e, all), same ∙ append_assoc past (c ∷ []) cs)
      later (some f, run) e stops = inr (e, stops)

      go :
          (o : Option Failure)
          → attempt past c ≡ o
          → Ran (past ++ c ∷ []) cs (run_all attempt (past ++ c ∷ []) cs)
          → Ran past (c ∷ cs) (elim o [
            | some f ↦ (some f, past ++ c ∷ [])
            | none ↦ run_all attempt (past ++ c ∷ []) cs
          ])
      go (some f) e k = inl (e, refl)
      go none e k = later (run_all attempt (past ++ c ∷ []) cs) e k

  pub AllPass-StopsAt :
      (past cs : List S) (f : Failure) (run : List S) → AllPass past cs → StopsAt past cs f run → ⊥
  AllPass-StopsAt past [] f run all stops = absurd stops
  AllPass-StopsAt past (c ∷ cs) f run (e, all) (inl (k, same)) = clash (sym e ∙ k)
    where
      clash : none ≡ some f → ⊥
      clash q = cc
  AllPass-StopsAt past (c ∷ cs) f run (e, all) (inr (k, stops)) =
      AllPass-StopsAt (past ++ c ∷ []) cs f run all stops

  unfoldable steps_of : List S → Outcome S → List S
  steps_of cs (passed ds) = ds
  steps_of cs (failed f ds) = cs
  steps_of cs (usage s) = cs

  -- It passes with the steps `taken` exactly when all steps pass, and it takes them all.
  pub ended-passed :
      (steps taken : List S)
      → (ended (run_all attempt [] steps) ≡ passed taken) ↔ (AllPass [] steps × (taken ≡ steps))
  unfolding steps_of
  ended-passed steps taken = go (run_all attempt [] steps) (run_all-Ran [] steps)
    where
      go :
          (r : Option Failure × List S)
          → Ran [] steps r
          → (ended r ≡ passed taken) ↔ (AllPass [] steps × (taken ≡ steps))
      go (none, ds) (all, e) =
          (λ q. (all, sym (ap (steps_of ds) q) ∙ e), λ (k, q). ap passed (e ∙ sym q))
      go (some f, ds) stops =
          (λ q. absurd (clash q), λ (all, q). absurd (AllPass-StopsAt [] steps f ds all stops))
        where
          clash : failed f ds ≡ passed taken → ⊥
          clash q = cc

  -- Each of the steps that all pass has passed behind those before it.
  pub AllPass-at :
      (past before : List S) (s : S) (later : List S)
      → AllPass past (before ++ s ∷ later)
      → attempt (past ++ before) s ≡ none
  AllPass-at past [] s later (e, all) = subst (λ p. attempt p s ≡ none) (sym (append-nil past)) e
  AllPass-at past (c ∷ before) s later (e, all) =
      subst (λ p. attempt p s ≡ none) (append_assoc past (c ∷ []) before)
        (AllPass-at (past ++ c ∷ []) before s later all)
