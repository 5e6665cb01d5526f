-- ===== src/Sweep/Mirror.antt =====
-- tools/perf/offccd_sweep.py: the mirror controls, and the cells of several suites.
use text.Mathlib.Text.{◌==◌ as str_eq}
use antfarm.Prelude.{
  ℕ, ◌≡◌, refl, Bool, true, false, not, ◌&&◌, List, [], ◌∷◌, Option, none, some, String,
}
use antfarm.Runner.Words.{Word}
use antfarm.Runner.Texts.{text_of}
use antfarm.Sweep.Cells.{Cell, cell}
use antfarm.Sweep.Suites.{
  calib, main_c, main_p, combined, ctl_equal, ctl_small, ctl_pack, ctl_mirror, ctl_rolesplit,
}
use antfarm.Sweep.Plan.{smt, layouts, perf_suite, lat, smoke, suite_cells}
use antfarm.Sweep.Distinct.{suite_cells-each}

abbrev is_mirror : Cell → Bool
is_mirror c = elim c.labels.arm [ none ↦ false | some arm ↦ str_eq arm "mirror" ]

abbrev is_given : Option String → Bool
is_given none = false
is_given (some s) = true

-- The arguments start with the home group.
abbrev is_at_home : List Word → Bool
is_at_home [] = false
is_at_home (w ∷ ws) = str_eq (text_of w) "--home-llc"

abbrev both : Bool → Bool → Bool
both true b = b
both false b = not b

-- Without a second group a cell is skipped exactly when it is a mirror control; with one none is
-- skipped, and the mirror controls, and no other cell, name it as their home.
abbrev pub is_placed : Option ℕ → Cell → Bool
is_placed none c = both (is_given c.skip) (is_mirror c) && not (is_at_home c.args)
is_placed (some llc) c = not (is_given c.skip) && both (is_at_home c.args) (is_mirror c)

unfoldable pub all_placed : Option ℕ → List Cell → Bool
all_placed m [] = true
all_placed m (c ∷ cs) = is_placed m c && all_placed m cs

-- Without a second group the cells of a suite that are skipped are its mirror controls; with one no
-- cell is skipped, and the mirror controls are the cells that name a home group.
pub suite_cells-placed :
    (name : String) (m : Option ℕ) (cells : List Cell)
    → suite_cells name m ≡ some cells
    → all_placed m cells ≡ true
unfolding all_placed text_of cell calib main_c main_p combined ctl_equal ctl_small ctl_pack
    ctl_mirror ctl_rolesplit smt layouts perf_suite lat smoke
suite_cells-placed name none cells h =
    suite_cells-each (λ cs. all_placed none cs ≡ true) none refl refl refl refl refl refl refl refl
      refl refl refl refl refl refl name cells h
suite_cells-placed name (some llc) cells h =
    suite_cells-each (λ cs. all_placed (some llc) cs ≡ true) (some llc) refl refl refl refl refl
      refl refl refl refl refl refl refl refl refl name cells h
