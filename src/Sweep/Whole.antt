-- ===== src/Sweep/Whole.antt =====
-- tools/perf/offccd_sweep.py: the cells of all the suites together.
use antfarm.Prelude.{◌≡◌, refl, true, ℕ, List, [], ◌∷◌, ◌++◌, Option, none, some, String}
use antfarm.Runner.Texts.{decimal}
use antfarm.Sweep.Cells.{Cell, cell}
use antfarm.Sweep.Suites.{
  calib, main_c, main_p, combined, ctl_equal, ctl_small, ctl_pack, ctl_mirror, ctl_rolesplit,
}
use antfarm.Sweep.Plan.{smt, layouts, perf_suite, lat, smoke, suite_cells}
use antfarm.Sweep.Distinct.{is_distinct}

-- SUITES
abbrev pub suites : List String
suites =
    "calib" ∷ "main-c" ∷ "main-p" ∷ "combined" ∷ "ctl-equal" ∷ "ctl-small" ∷ "ctl-pack"
    ∷ "ctl-mirror" ∷ "ctl-rolesplit" ∷ "smt" ∷ "layouts" ∷ "perf" ∷ "lat" ∷ "smoke" ∷ []

-- cells += suite_cells(s, mirror_llc), for the suites in order
unfoldable pub cells_of : List String → Option ℕ → Option (List Cell)
cells_of [] m = some []
cells_of (s ∷ ss) m = elim (suite_cells s m) [
  | none ↦ none
  | some cells ↦ elim (cells_of ss m) [ none ↦ none | some rest ↦ some (cells ++ rest) ]
]

-- All the suites have cells, and no two cells of the same or of different suites have the same id.
pub cells_of-distinct :
    (m : Option ℕ)
    → (cells : List Cell) × (cells_of suites m ≡ some cells) × (is_distinct cells ≡ true)
unfolding cells_of suite_cells is_distinct cell decimal calib main_c main_p combined ctl_equal
    ctl_small ctl_pack ctl_mirror ctl_rolesplit smt layouts perf_suite lat smoke
cells_of-distinct m = (_, refl, refl)
