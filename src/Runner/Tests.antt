-- ===== src/Runner/Tests.antt =====
-- The theorems on tools/perf/run_performance_md.py and tools/perf/llc_split.py at concrete inputs,
-- some of them those of tools/perf/test_llc_split.py.
use antfarm.Prelude.{
  zero, none, ℕ, suc, ◌-◌, ◌*◌, ◌/◌, ◌≤◌, ◌<◌, ◌≡◌, ◌↔◌, true, ◌&&◌, not, ◌⊎◌, inr, refl, List, [],
  ◌∷◌, ◌++◌, some, length, arith, All, range_from,
}
use antfarm.Runner.Words.{lit, dec, snapshot}
use antfarm.Runner.Cases.{Churn, churn_case, churn}
use antfarm.Runner.Farms.{Args, fiber_case}
use antfarm.Runner.Actors.{cases_for}
use antfarm.Runner.Select.{Parser, parse_churn, parser_for}
use antfarm.Runner.Texts.{text_of}
use antfarm.Runner.Measure.{
  Frozen, exited, killed, frozen_cell, cell_parser, Run, Row, is_outdated, measure_cell,
  cell_is_cached,
}
use antfarm.Runner.Cached.{metrics, measure_cell-requested_runs, measure_cell-cell_is_cached}
use antfarm.Runner.Split.{split, Part, payload, private_children, per_llc, parts_for}
use antfarm.Runner.Ready.{Ready, cases_for-Ready}
use antfarm.Runner.Reads.{requested_runs-churn}
use antfarm.Runner.Layout.{total, split_lem, split-fits}
use antfarm.Runner.Threads.{threads_of_parts, parts_for-threads}
use antfarm.Runner.Confined.{Confined, parts_for-Confined}

-- Three runs of an actor cell: one fails, one has no metric.
abbrev three_runs : Parser → ℕ → Run ℕ
three_runs p zero = record {
  rc = exited 0;
  output = some (record { metric = some 40; metric_kind = none });
}
three_runs p (suc zero) = record { rc = killed 9; output = none }
three_runs p (suc (suc i)) = record {
  rc = exited 0;
  output = some (record { metric = none; metric_kind = none });
}

abbrev good_runs : Parser → ℕ → Run ℕ
good_runs p i = record {
  rc = exited 0;
  output = some (record { metric = some i; metric_kind = none });
}

abbrev tree_c2 : Frozen
tree_c2 = record {
  case = churn (churn_case "private" (lit "tree_c2" ∷ []) "tree" 2);
  parser = none;
}

tree_c2_parser : cell_parser tree_c2 ≡ some parse_churn
unfolding cell_parser parser_for churn
tree_c2_parser = refl

measure_cell-requested_runs_example :
    (row : Row ℕ) × (measure_cell 3 none three_runs "private" tree_c2 ≡ some row)
    × (length row.runs ≡ 3)
    × (row.values ≡ metrics row.runs)
    × (row.valid_runs ≡ length row.values)
    × (row.valid_runs ≤ 3)
    × ((row.is_ok ≡ true) ↔ (row.valid_runs ≡ 3))
measure_cell-requested_runs_example =
    measure_cell-requested_runs 3 none three_runs "private" tree_c2 parse_churn 3 tree_c2_parser
      (requested_runs-churn 3 none (churn_case "private" (lit "tree_c2" ∷ []) "tree" 2) (inr refl))

measure_cell-cell_is_cached_example :
    (row : Row ℕ) × (measure_cell 3 none good_runs "private" tree_c2 ≡ some row)
    × (cell_is_cached (some row) tree_c2 3 ≡ (row.is_ok && not (is_outdated tree_c2.case row)))
measure_cell-cell_is_cached_example =
    measure_cell-cell_is_cached 3 none good_runs "private" tree_c2 parse_churn 3 tree_c2_parser
      (requested_runs-churn 3 none (churn_case "private" (lit "tree_c2" ∷ []) "tree" 2) (inr refl))

-- Two groups of a core and its sibling each.
abbrev first_group : List ℕ
first_group = 0 ∷ 1 ∷ 8 ∷ 9 ∷ []

abbrev second_group : List ℕ
second_group = 2 ∷ 3 ∷ 10 ∷ 11 ∷ []

abbrev six_args : Args
six_args = record {
  threads = 2 ∷ 6 ∷ [];
  best_n = 1000;
  fiber_tasks = 100;
  dual_threads = 2 ∷ 6 ∷ [];
  tail_threads = 4 ∷ [];
  tail_ac = 2;
  private_consumers = 0 ∷ 6 ∷ [];
  order = 0 ∷ 1 ∷ 2 ∷ [];
}

abbrev tree_c6 : Churn
tree_c6 = churn_case "private" (lit "tree_c6" ∷ []) "tree" 6

cases_for-Ready_example : All (Ready 3 (some 10)) (cases_for "headline" six_args)
cases_for-Ready_example = cases_for-Ready 3 (some 10) "headline" six_args

split_lem_example :
    (ps : List (ℕ × List ℕ)) × (split 5 (first_group ∷ second_group ∷ []) ≡ some ps)
    × (total ps ≡ 5)
    × All (λ (p : ℕ × List ℕ). (p.0 ≡ 5 / length ps) ⊎ (p.0 ≡ suc (5 / length ps))) ps
    × (0 < length ps)
    × (length ps ≤ 2)
    × ((length ps - 1) * 4 < 5)
    × ((5 ≤ length ps * 4) ⊎ (length ps ≡ 2))
split_lem_example = split_lem 5 first_group (second_group ∷ []) (omega arith) (omega arith)

split-fits_example :
    (ps : List (ℕ × List ℕ)) × (split 7 (first_group ∷ second_group ∷ []) ≡ some ps)
    × All (λ (p : ℕ × List ℕ). p.0 ≤ 4) ps
split-fits_example =
    split-fits 7 first_group (second_group ∷ []) (omega arith) (omega arith) (omega arith)

parts_for-threads_example :
    (ps : List Part) × (parts_for private_children per_llc 5 (first_group ∷ second_group ∷ []) 100
      ≡ some ps)
    × (threads_of_parts ps ≡ some 5)
parts_for-threads_example =
    parts_for-threads 5 100 first_group (second_group ∷ []) (omega arith) (omega arith)
      private_children per_llc

parts_for-Confined_example :
    (ps : List Part) × (parts_for payload per_llc 5 (first_group ∷ second_group ∷ []) 100 ≡ some ps)
    × Confined ps (first_group ∷ second_group ∷ [])
parts_for-Confined_example =
    parts_for-Confined payload 5 100 first_group (second_group ∷ []) (omega arith) (omega arith)

abbrev ccds : List (List ℕ)
ccds = (range_from 0 8 ++ range_from 16 8) ∷ (range_from 8 8 ++ range_from 24 8) ∷ []

-- test_larger_counts_split_evenly_over_groups
split_21 :
    split 21 ccds
    ≡ some ((11, range_from 0 8 ++ range_from 16 8) ∷ (10, range_from 8 8 ++ range_from 24 8) ∷ [])
unfolding split range_from
split_21 = refl

-- The Fiber command of the first benchmark becomes its snapshot with the arguments.
frozen_fiber :
    frozen_cell (λ p. true) (fiber_case six_args 2)
    ≡ some (record {
      case = record (fiber_case six_args 2) {
        cmd = record {
          program = snapshot "benchmark_mt";
          words = dec 100 ∷ lit "private" ∷ dec 2 ∷ [];
        };
      };
      parser = some "dub_fiber";
    })
unfolding frozen_cell text_of
frozen_fiber = refl
