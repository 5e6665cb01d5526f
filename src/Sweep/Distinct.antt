-- ===== src/Sweep/Distinct.antt =====
-- tools/perf/offccd_sweep.py: the ids of the cells of a suite.
use text.Mathlib.Text.{◌==◌ as str_eq}
use antfarm.Prelude.{
  ap, subst, ℕ, ◌≡◌, refl, Bool, true, false, not, ◌&&◌, ◌||◌, List, [], ◌∷◌, Option, none, some,
  String, if◌then◌else◌,
}
use antfarm.Runner.Texts.{decimal}
use antfarm.Sweep.Cells.{Cell, cell}
use antfarm.Sweep.Suites.{
  calib, main_c, main_p, combined, ctl_equal, ctl_small, ctl_pack, ctl_mirror, ctl_rolesplit,
}
use antfarm.Sweep.Plan.{smt, layouts, perf_suite, lat, smoke, suite_cells}

unfoldable has : String → List Cell → Bool
has id [] = false
has id (c ∷ cs) = str_eq id c.id || has id cs

-- No two cells have the same id.
unfoldable pub is_distinct : List Cell → Bool
unfolding has
is_distinct [] = true
is_distinct (c ∷ cs) = not (has c.id cs) && is_distinct cs

none_ne_some : (cells : List Cell) → none ≡ some cells → ⊥
none_ne_some cells h = cc

abbrev content : List Cell → Option (List Cell) → List Cell
content x none = x
content x (some cells) = cells

choose :
    (P : List Cell → Type 0) (b : Bool) (x : List Cell) (rest : Option (List Cell))
    (cells : List Cell)
    → P x
    → (rest ≡ some cells → P cells)
    → (if b then some x else rest) ≡ some cells
    → P cells
choose P true x rest cells h k e = subst P (ap (content x) e) h
choose P false x rest cells h k e = k e

-- What holds of every suite holds of the cells that `suite_cells` returns.
pub suite_cells-each :
    (P : List Cell → Type 0) (m : Option ℕ)
    → P calib
    → P main_c
    → P main_p
    → P combined
    → P ctl_equal
    → P ctl_small
    → P ctl_pack
    → P (ctl_mirror m)
    → P (ctl_rolesplit m)
    → P smt
    → P layouts
    → P perf_suite
    → P lat
    → P smoke
    → (name : String) (cells : List Cell) → suite_cells name m ≡ some cells
    → P cells
unfolding suite_cells
suite_cells-each P m h0 h1 h2 h3 h4 h5 h6 h7 h8 h9 h10 h11 h12 h13 name cells h =
    choose P (str_eq name "calib") calib _ cells h0
      (λ h.
        choose P (str_eq name "main-c") main_c _ cells h1
          (λ h.
            choose P (str_eq name "main-p") main_p _ cells h2
              (λ h.
                choose P (str_eq name "combined") combined _ cells h3
                  (λ h.
                    choose P (str_eq name "ctl-equal") ctl_equal _ cells h4
                      (λ h.
                        choose P (str_eq name "ctl-small") ctl_small _ cells h5
                          (λ h.
                            choose P (str_eq name "ctl-pack") ctl_pack _ cells h6
                              (λ h.
                                choose P (str_eq name "ctl-mirror") (ctl_mirror m) _ cells h7
                                  (λ h.
                                    choose P (str_eq name "ctl-rolesplit") (ctl_rolesplit m) _ cells
                                      h8
                                      (λ h.
                                        choose P (str_eq name "smt") smt _ cells h9
                                          (λ h.
                                            choose P (str_eq name "layouts") layouts _ cells h10
                                              (λ h.
                                                choose P (str_eq name "perf") perf_suite _ cells h11
                                                  (λ h.
                                                    choose P (str_eq name "lat") lat _ cells h12
                                                      (λ h.
                                                        choose P (str_eq name "smoke") smoke _ cells
                                                          h13 (λ h. absurd (none_ne_some cells h))
                                                          h)
                                                      h)
                                                  h)
                                              h)
                                          h)
                                      h)
                                  h)
                              h)
                          h)
                      h)
                  h)
              h)
          h)
      h

-- The cells of a suite have different ids, whatever the group of the mirror controls.
pub suite_cells-distinct :
    (name : String) (m : Option ℕ) (cells : List Cell)
    → suite_cells name m ≡ some cells
    → is_distinct cells ≡ true
unfolding is_distinct cell decimal calib main_c main_p combined ctl_equal ctl_small ctl_pack
    ctl_mirror ctl_rolesplit smt layouts perf_suite lat smoke
suite_cells-distinct name m cells h =
    suite_cells-each (λ cs. is_distinct cs ≡ true) m refl refl refl refl refl refl refl refl refl
      refl refl refl refl refl name cells h
