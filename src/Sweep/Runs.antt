-- ===== src/Sweep/Runs.antt =====
-- The theorems on the rows of tools/perf/offccd_sweep.py at a small sweep.
use antfarm.Prelude.{
  inl, inr, Option, map, ◌/◌, ◌-◌, ◌==◌, ℕ, ◌≡◌, ◌+◌, ◌*◌, refl, true, false, List, [], ◌∷◌, none,
  some,
}
use antfarm.Text.{Line, codes, line_eq}
use antfarm.Sweep.Cells.{Cell, labels}
use antfarm.Sweep.Groups.{Status, ok, skipped, invalid, Row, Plan, plan_key, group_cells}
use antfarm.Sweep.Suites.{ctl_small}
use antfarm.Sweep.Small.{IsSmall, off_ccd_measured-small}
use antfarm.Sweep.Summary.{Entry, skipped_cell, off_ccd_measured}
use antfarm.Sweep.Kept.{metrics_of, runs_at, runs_at-group_cells}
use antfarm.Sweep.Rounds.{Sweep, run_suites, is_settled, runs_cells}
use antfarm.Sweep.Attempts.{attempts, occurs, topup_count, Permutes, run_suites-attempts}
use antfarm.Sweep.Derived.{Combo, Reals, Measured, Step}
use antfarm.Sweep.Controls.{derive}
use antfarm.Sweep.Skips.{SkippedOnce, run_suites-SkippedOnce}

abbrev plan : Plan
plan = record { cpus = (codes "p0", codes "4") ∷ (codes "c0", codes "2") ∷ []; controller = some 7 }

keyed : plan_key plan ≡ codes "c0=2;p0=4;controller=7"
unfolding plan_key
keyed = refl

abbrev row : Line → Status ℕ → Row ℕ
row id status = record {
  cell = id;
  labels = labels "smoke" "S_C" 1;
  status = status;
  plan = plan;
  crosses_llc = true;
  scope_drift = false;
}

abbrev some_rows : List (Row ℕ)
some_rows =
    row (codes "a") (ok 5)
    ∷ row (codes "b") (skipped none)
    ∷ row (codes "a") (invalid none)
    ∷ row (codes "a") (ok 6)
    ∷ []

runs_at-group_cells_example :
    runs_at (codes "a") (plan_key plan) (group_cells some_rows)
    ≡ metrics_of (codes "a") (plan_key plan) some_rows
runs_at-group_cells_example = runs_at-group_cells some_rows (codes "a") (plan_key plan)

abbrev small_cell : Cell
small_cell = record {
  id = "s";
  driver = "offccd";
  labels = labels "smoke" "S_C" 1;
  args = [];
  skip = none;
  perf = false;
}

abbrev perf_cell : Cell
perf_cell = record small_cell { id = "p"; perf = true }

-- Two runs of a cell that is noisy, one to top it up, and a cell that needs perf.
abbrev sweep : Sweep ℕ
sweep = record {
  answer = λ c round pos topup. record {
    status = ok round;
    plan = plan;
    crosses_llc = false;
    scope_drift = false;
  };
  shuffle = λ k cells. cells;
  noisy = λ rows. codes "s" ∷ [];
  seed = 3;
  runs = 2;
  topup_runs = 1;
  has_perf = false;
}

in_order : Permutes sweep (codes "s")
in_order k cells = refl

unsettled : is_settled (codes "s") (run_suites sweep (small_cell ∷ perf_cell ∷ [])).settled ≡ false
unfolding run_suites is_settled line_eq
unsettled = refl

run_suites-attempts_example :
    attempts (codes "s") (run_suites sweep (small_cell ∷ perf_cell ∷ [])).rows
    ≡ (2 + topup_count sweep (codes "s") (runs_cells (small_cell ∷ perf_cell ∷ [])))
      * occurs (codes "s") (runs_cells (small_cell ∷ perf_cell ∷ []))
run_suites-attempts_example =
    run_suites-attempts sweep (codes "s") in_order (small_cell ∷ perf_cell ∷ []) unsettled

ran_thrice : attempts (codes "s") (run_suites sweep (small_cell ∷ perf_cell ∷ [])).rows ≡ 3
unfolding run_suites line_eq
ran_thrice = refl

once : occurs (codes "p") (runs_cells (small_cell ∷ perf_cell ∷ [])) ≡ 1
unfolding runs_cells line_eq
once = refl

run_suites-SkippedOnce_example :
    SkippedOnce (codes "p") (run_suites sweep (small_cell ∷ perf_cell ∷ []))
run_suites-SkippedOnce_example =
    run_suites-SkippedOnce sweep (codes "p") (small_cell ∷ perf_cell ∷ []) once

abbrev naturals : Reals
naturals = record {
  F = ℕ;
  one_f = 1;
  is_zero = λ n. n == 0;
  mul = λ a b. a * b;
  div = λ a b. a / b;
  sub = λ a b. a - b;
  step = λ x n. x;
}

abbrev measured : ℕ → ℕ → Measured naturals
measured k rate = record { labels = labels "main-c" "S_C" k; is_ok = true; rate = some rate }

abbrev touched : Combo
touched = record { cost = "touch"; batch = 1700; mode = "stream"; layout = "uniform" }

abbrev sweep_cells : List (Measured naturals)
sweep_cells = measured 3 900 ∷ measured 0 100 ∷ measured 1 200 ∷ []

derived :
    map {B = ℕ × (Option ℕ × Option ℕ)}
      (λ (s : Step naturals). (s.k, (s.delta_vs_k0, s.marginal)))
      (derive naturals sweep_cells).sweeps
    ≡ (1, (some 1, some 1)) ∷ (3, (some 8, some 3)) ∷ []
unfolding derive
derived = refl

-- The first cell of the off arm of ctl-small, on a host where it is skipped.
abbrev second : List Cell → Cell
second [] = small_cell
second (c ∷ []) = c
second (c ∷ d ∷ cells) = d

abbrev off_entry : Entry
off_entry = record {
  id = codes (second ctl_small).id;
  labels = (second ctl_small).labels;
  plan = [];
  status = skipped_cell;
  reason = some (codes "single-llc");
  n = 0;
  invalid = [];
  subwindow_spread_runs = 0;
  scope_drift = 0;
  crossing_runs = 0;
}

is_small : IsSmall off_entry
unfolding ctl_small
is_small = (second ctl_small, inr (inl refl), refl)

off_ccd_measured-small_example : off_ccd_measured (off_entry ∷ []) ≡ true
off_ccd_measured-small_example = off_ccd_measured-small (off_entry ∷ []) (is_small, tt)
