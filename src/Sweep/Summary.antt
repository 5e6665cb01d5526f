-- ===== src/Sweep/Summary.antt =====
-- tools/perf/offccd_sweep.py: the cells of `summarize`, and what it says of off-CCD runs.
use text.Mathlib.Text.{◌==◌ as str_eq}
use antfarm.Prelude.{
  ℕ, ◌+◌, Bool, true, false, ◌&&◌, ◌||◌, not, List, [], ◌∷◌, Option, none, String, ◌==◌,
  if◌then◌else◌, length,
}
use antfarm.Text.{Line, line_eq}
use antfarm.Sweep.Cells.{Labels}
use antfarm.Sweep.Groups.{precedes, Row, Group, group_cells}

pub data CellStatus : Type 0 where
  measured skipped_cell invalid_cell : CellStatus

-- A cell of the summary, without its statistics.
pub record Entry : Type 0 where
  pub id : Line
  pub labels : Labels
  pub plan : Line
  pub status : CellStatus
  pub reason : Option Line
  pub n : ℕ
  pub invalid : List (Line × ℕ)
  pub subwindow_spread_runs : ℕ
  pub scope_drift : ℕ
  pub crossing_runs : ℕ

-- invalid[k] = invalid.get(k, 0) + v
unfoldable pub added : Line → ℕ → List (Line × ℕ) → List (Line × ℕ)
unfolding line_eq
added reason v [] = (reason, v) ∷ []
added reason v ((r, n) ∷ counts) =
    if line_eq reason r then (r, n + v) ∷ counts else (r, n) ∷ added reason v counts

unfoldable pub all_added : List (Line × ℕ) → List (Line × ℕ) → List (Line × ℕ)
unfolding added
all_added [] counts = counts
all_added ((r, v) ∷ more) counts = all_added more (added r v counts)

-- OFF_SWEEPS
abbrev is_off_sweep : String → Bool
is_off_sweep s =
    str_eq s "S_C"
    || str_eq s "S_P"
    || str_eq s "combined"
    || str_eq s "small-off"
    || str_eq s "mirror"
    || str_eq s "rolesplit"

-- The cells in `off`.
unfoldable pub is_off : Labels → Bool
is_off lb =
    is_off_sweep lb.sweep
    && (not (lb.k == 0) || str_eq lb.sweep "mirror" || str_eq lb.sweep "rolesplit")

abbrev is_measured : CellStatus → Bool
is_measured measured = true
is_measured skipped_cell = false
is_measured invalid_cell = false

unfoldable pub has_off : List Entry → Bool
unfolding is_off
has_off [] = false
has_off (e ∷ es) = is_off e.labels || has_off es

unfoldable pub has_off_measured : List Entry → Bool
unfolding is_off
has_off_measured [] = false
has_off_measured (e ∷ es) =
    (is_off e.labels && is_measured e.status && not (e.crossing_runs == 0)) || has_off_measured es

-- bool(off_measured) or not off
unfoldable pub off_ccd_measured : List Entry → Bool
unfolding has_off has_off_measured
off_ccd_measured es = has_off_measured es || not (has_off es)

module _ {M : Type 0} where
  -- The order of the keys (cell, plan).
  abbrev pub key_before : Group M → Group M → Bool
  key_before g h = if line_eq g.id h.id then precedes g.plan h.plan else precedes g.id h.id

  unfoldable pub inserted : Group M → List (Group M) → List (Group M)
  unfolding precedes line_eq
  inserted g [] = g ∷ []
  inserted g (h ∷ groups) = if key_before g h then g ∷ h ∷ groups else h ∷ inserted g groups

  -- sorted(groups.items())
  unfoldable pub sorted_groups : List (Group M) → List (Group M)
  unfolding inserted
  sorted_groups [] = []
  sorted_groups (g ∷ groups) = inserted g (sorted_groups groups)

  abbrev status_of : List M → List (Option Line) → CellStatus
  status_of (m ∷ ms) skips = measured
  status_of [] (r ∷ rs) = skipped_cell
  status_of [] [] = invalid_cell

  abbrev reason_of : List M → List (Option Line) → Option Line
  reason_of (m ∷ ms) skips = none
  reason_of [] (r ∷ rs) = r
  reason_of [] [] = none

  -- `is_spread` says of the metrics of a run that the spread of its windows is above 0.10.
  unfoldable pub spread_runs : (M → Bool) → List M → ℕ
  spread_runs is_spread [] = 0
  spread_runs is_spread (m ∷ ms) = (if is_spread m then 1 else 0) + spread_runs is_spread ms

  unfoldable pub entry_of : (M → Bool) → Group M → Entry
  unfolding spread_runs
  entry_of is_spread g = record {
    id = g.id;
    labels = g.labels;
    plan = g.plan;
    status = status_of g.runs g.skipped;
    reason = reason_of g.runs g.skipped;
    n = length g.runs;
    invalid = g.invalid;
    subwindow_spread_runs = spread_runs is_spread g.runs;
    scope_drift = g.scope_drift;
    crossing_runs = g.crossing_runs;
  }

  unfoldable pub entries_of : (M → Bool) → List (Group M) → List Entry
  unfolding entry_of
  entries_of is_spread [] = []
  entries_of is_spread (g ∷ groups) = entry_of is_spread g ∷ entries_of is_spread groups

  -- summary['cells']
  unfoldable pub cells_summary : (M → Bool) → List (Row M) → List Entry
  unfolding entries_of sorted_groups group_cells
  cells_summary is_spread rows = entries_of is_spread (sorted_groups (group_cells rows))

-- summary['invalid_by_reason'] and summary['scope_drift_runs'], from the cells
unfoldable pub invalid_by_reason : List Entry → List (Line × ℕ) → List (Line × ℕ)
unfolding all_added
invalid_by_reason [] counts = counts
invalid_by_reason (e ∷ es) counts = invalid_by_reason es (all_added e.invalid counts)

unfoldable pub scope_drift_runs : List Entry → ℕ
scope_drift_runs [] = 0
scope_drift_runs (e ∷ es) = e.scope_drift + scope_drift_runs es
