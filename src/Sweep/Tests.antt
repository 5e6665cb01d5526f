-- ===== src/Sweep/Tests.antt =====
-- The theorems on tools/perf/offccd_sweep.py at concrete suites.
use antfarm.Prelude.{◌≡◌, ◌↔◌, refl, true, none, some, List, [], ◌∷◌, All}
use antfarm.Sweep.Cells.{Cell}
use antfarm.Sweep.Whole.{suites, cells_of, cells_of-distinct}
use antfarm.Sweep.Merge.{Keys, seen, refused, check_mergeable, merge_key}
use antfarm.Sweep.Agree.{Agrees, check_mergeable-Agrees}
use antfarm.Sweep.Suites.{ctl_mirror, ctl_rolesplit}
use antfarm.Sweep.Plan.{suite_cells}
use antfarm.Sweep.Distinct.{is_distinct}

mirror_suite : suite_cells "ctl-mirror" (some 1) ≡ some (ctl_mirror (some 1))
unfolding suite_cells
mirror_suite = refl

single_suite : suite_cells "ctl-rolesplit" none ≡ some (ctl_rolesplit none)
unfolding suite_cells
single_suite = refl

abbrev first_row : Keys
first_row = record { cpu_model = some "Ryzen"; os_scope = none; grouping_source = some "sysfs" }

abbrev second_row : Keys
second_row = record { cpu_model = none; os_scope = some "0-31"; grouping_source = some "sysfs" }

check_mergeable-Agrees_example :
    ((host : Keys) × (check_mergeable (first_row ∷ second_row ∷ []) ≡ seen host))
    ↔ ((host : Keys) × All (Agrees host) (first_row ∷ second_row ∷ []))
check_mergeable-Agrees_example = check_mergeable-Agrees (first_row ∷ second_row ∷ [])

mixed_rows :
    check_mergeable (first_row ∷ record second_row { grouping_source = some "cpuinfo" } ∷ [])
    ≡ refused "grouping_source" "sysfs" "cpuinfo"
unfolding check_mergeable merge_key
mixed_rows = refl

cells_of-distinct_example :
    (cells : List Cell) × (cells_of suites (some 1) ≡ some cells) × (is_distinct cells ≡ true)
cells_of-distinct_example = cells_of-distinct (some 1)
