-- ===== src/Sweep/Groups.antt =====
-- tools/perf/offccd_sweep.py: `plan_key` and `group_cells`.
use antfarm.Prelude.{
  ℕ, zero, suc, ◌+◌, Bool, true, false, ◌&&◌, ◌||◌, List, [], ◌∷◌, ◌++◌, Option, none, some, ltb,
  ◌==◌, if◌then◌else◌,
}
use antfarm.Text.{Line, codes, line_eq}
use antfarm.Runner.Texts.{decimal}
use antfarm.Sweep.Cells.{Labels}

-- plan['cpus'], each value as it is printed, and plan['controller']['cpu']
pub record Plan : Type 0 where
  pub cpus : List (Line × Line)
  pub controller : Option ℕ

-- The order of texts.
unfoldable pub precedes : Line → Line → Bool
precedes [] t = true
precedes (a ∷ s) [] = false
precedes (a ∷ s) (b ∷ t) = ltb a b || (a == b && precedes s t)

unfoldable pub placed : Line × Line → List (Line × Line) → List (Line × Line)
unfolding precedes
placed (k, v) [] = (k, v) ∷ []
placed (k, v) ((l, w) ∷ cpus) =
    if precedes k l then (k, v) ∷ (l, w) ∷ cpus else (l, w) ∷ placed (k, v) cpus

-- sorted(cpus), with the values
unfoldable pub sorted_cpus : List (Line × Line) → List (Line × Line)
unfolding placed
sorted_cpus [] = []
sorted_cpus (cpu ∷ cpus) = placed cpu (sorted_cpus cpus)

-- ';'.join(f'{k}={cpus[k]}' ...)
unfoldable pub assignments : List (Line × Line) → Line
assignments [] = []
assignments ((k, v) ∷ []) = k ++ codes "=" ++ v
assignments ((k, v) ∷ next ∷ cpus) = k ++ codes "=" ++ v ++ codes ";" ++ assignments (next ∷ cpus)

-- A controller on CPU 0 is not named.
abbrev controller_text : Option ℕ → Line
controller_text none = []
controller_text (some zero) = []
controller_text (some (suc n)) = codes ";controller=" ++ codes (decimal (suc n))

unfoldable pub plan_key : Plan → Line
unfolding sorted_cpus assignments decimal
plan_key plan = assignments (sorted_cpus plan.cpus) ++ controller_text plan.controller

-- `ok` has what `run_metrics` makes of the result; the others their reasons.
pub data Status (M : Type 0) : Type 0 where
  ok : M → Status M
  skipped : Option Line → Status M
  invalid : Option Line → Status M

-- A row of raw/runs.jsonl, as far as it is grouped.
pub record Row (M : Type 0) : Type 0 where
  pub cell : Line
  pub labels : Labels
  pub status : Status M
  pub plan : Plan
  pub crosses_llc : Bool
  pub scope_drift : Bool

pub record Group (M : Type 0) : Type 0 where
  pub id : Line
  pub labels : Labels
  pub plan : Line
  pub runs : List M
  pub skipped : List (Option Line)
  pub invalid : List (Line × ℕ)
  pub scope_drift : ℕ
  pub crossing_runs : ℕ

abbrev pub or_unknown : Option Line → Line
or_unknown none = codes "unknown"
or_unknown (some []) = codes "unknown"
or_unknown (some (c ∷ cs)) = c ∷ cs

-- g['invalid'][reason] = g['invalid'].get(reason, 0) + 1
unfoldable pub increased : Line → List (Line × ℕ) → List (Line × ℕ)
unfolding line_eq
increased reason [] = (reason, 1) ∷ []
increased reason ((r, n) ∷ counts) =
    if line_eq reason r then (r, suc n) ∷ counts else (r, n) ∷ increased reason counts

unfoldable pub has_plan : Line → List Line → Bool
unfolding line_eq
has_plan p [] = false
has_plan p (q ∷ qs) = line_eq p q || has_plan p qs

abbrev pub with_plan : Line → List Line → List Line
with_plan p ps = if has_plan p ps then ps else p ∷ ps

-- The only one, or ''.
abbrev pub only_plan : List Line → Line
only_plan [] = []
only_plan (p ∷ []) = p
only_plan (p ∷ q ∷ ps) = []

abbrev pub one_if : Bool → ℕ
one_if true = 1
one_if false = 0

module _ {M : Type 0} where
  abbrev pub is_ok : Status M → Bool
  is_ok (ok m) = true
  is_ok (skipped r) = false
  is_ok (invalid r) = false

  -- plans.get(cell, set()): the plans of the ok runs of a cell
  unfoldable pub plans : List (Row M) → Line → List Line
  unfolding plan_key has_plan line_eq
  plans [] cell = []
  plans (r ∷ rows) cell =
      let rest = plans rows cell in
      if is_ok r.status && line_eq r.cell cell then with_plan (plan_key r.plan) rest else rest

  -- The second half of `key`.
  unfoldable pub plan_of : List (Row M) → Row M → Line
  unfolding plans plan_key
  plan_of rows r = if is_ok r.status then plan_key r.plan else only_plan (plans rows r.cell)

  -- What a row adds to its group.
  unfoldable pub extended : Row M → Group M → Group M
  unfolding increased
  extended r g = elim r.status [
    | ok m ↦ record g {
      runs = g.runs ++ m ∷ [];
      crossing_runs = g.crossing_runs + one_if r.crosses_llc;
      scope_drift = g.scope_drift + one_if r.scope_drift;
    }
    | skipped reason ↦ record g { skipped = g.skipped ++ reason ∷ [] }
    | invalid reason ↦ record g { invalid = increased (or_unknown reason) g.invalid }
  ]

  -- cells.setdefault(key, dict(...)), a group without runs
  abbrev pub new_group : Row M → Line → Group M
  new_group r plan = record {
    id = r.cell;
    labels = r.labels;
    plan = plan;
    runs = [];
    skipped = [];
    invalid = [];
    scope_drift = 0;
    crossing_runs = 0;
  }

  abbrev pub is_at : Line → Line → Group M → Bool
  is_at cell plan g = line_eq cell g.id && line_eq plan g.plan

  unfoldable pub grouped : Row M → Line → List (Group M) → List (Group M)
  unfolding extended line_eq
  grouped r plan [] = extended r (new_group r plan) ∷ []
  grouped r plan (g ∷ groups) =
      if is_at r.cell plan g then extended r g ∷ groups else g ∷ grouped r plan groups

  -- The second loop, with the plans of all rows.
  unfoldable pub group_from : List (Row M) → List (Row M) → List (Group M) → List (Group M)
  unfolding plan_of grouped
  group_from all [] groups = groups
  group_from all (r ∷ rows) groups = group_from all rows (grouped r (plan_of all r) groups)

  -- The groups in the order of the dict; each has its key.
  unfoldable pub group_cells : List (Row M) → List (Group M)
  unfolding group_from
  group_cells rows = group_from rows rows []
