-- ===== src/Sweep/Plan.antt =====
-- tools/perf/offccd_sweep.py: the remaining suites, and `suite_cells`.
use text.Mathlib.Text.{◌==◌ as str_eq}
use antfarm.Prelude.{ℕ, true, List, [], ◌∷◌, ◌++◌, map, Option, none, some, String, if◌then◌else◌}
use antfarm.Runner.Words.{lit}
use antfarm.Runner.Farms.{concat_map}
use antfarm.Sweep.Cells.{labels, Cell, cell}
use antfarm.Sweep.Suites.{
  flag, calib, main_c, main_p, combined, ctl_equal, ctl_small, ctl_pack, ctl_mirror, ctl_rolesplit,
}

-- (role, flag, ks)
abbrev smt_roles : List (String × String × List ℕ)
smt_roles = ("consumer", "--smt-c", 1 ∷ 3 ∷ 5 ∷ []) ∷ ("producer", "--smt-p", 1 ∷ 2 ∷ []) ∷ []

unfoldable pub smt : List Cell
smt =
    concat_map
      (λ ((role, smt_flag, ks) : String × String × List ℕ).
        concat_map
          (λ k.
            map
              (λ batch.
                cell (record (labels "smt" "smt" k) { role = some role; batch = batch }) "offccd"
                  (flag smt_flag k))
              (1700 ∷ 16 ∷ []))
          ks)
      smt_roles

unfoldable pub layouts : List Cell
layouts =
    concat_map
      (λ layout.
        concat_map
          (λ mode.
            map
              (λ k.
                cell
                  (record (labels "layouts" "S_C" k) {
                    role = some "consumer";
                    batch = 256;
                    mode = mode;
                    layout = layout;
                  })
                  "offccd" (flag "--off-c" k))
              (0 ∷ 1 ∷ 4 ∷ 8 ∷ [])
            ++ map
                (λ k.
                  cell
                    (record (labels "layouts" "S_P" k) {
                      role = some "producer";
                      batch = 256;
                      mode = mode;
                      layout = layout;
                    })
                    "offccd" (flag "--off-p" k))
                (1 ∷ 4 ∷ 8 ∷ []))
          ("stream" ∷ "phased" ∷ []))
      ("compact" ∷ [])

unfoldable pub perf_suite : List Cell
perf_suite =
    concat_map
      (λ k.
        map
          (λ batch.
            record (cell (record (labels "perf" "perf" k) { role = some "consumer"; batch = batch })
              "offccd" (flag "--off-c" k)) { perf = true })
          (16 ∷ 1700 ∷ []))
      (0 ∷ 1 ∷ 4 ∷ 8 ∷ [])

unfoldable pub lat : List Cell
lat =
    map
      (λ k.
        cell (record (labels "lat" "lat" k) { role = some "consumer" }) "offccd"
          (flag "--off-c" k ++ lit "--lat-every" ∷ lit "64" ∷ []))
      (0 ∷ 1 ∷ 4 ∷ 8 ∷ [])

unfoldable pub smoke : List Cell
smoke =
    concat_map
      (λ mode.
        map
          (λ k.
            cell (record (labels "smoke" "S_C" k) { role = some "consumer"; mode = mode }) "offccd"
              (flag "--off-c" k))
          (0 ∷ 1 ∷ 8 ∷ [])
        ++ map
            (λ k.
              cell (record (labels "smoke" "S_P" k) { role = some "producer"; mode = mode })
                "offccd" (flag "--off-p" k))
            (1 ∷ 8 ∷ []))
      ("stream" ∷ "phased" ∷ [])
    ++ (cell (record (labels "smoke" "equal" 1) { role = some "consumer"; arm = some "on" })
          "offccd" (flag "--home-extra-c" 1)
        ∷ cell (record (labels "smoke" "calib" 0) { arm = some "pingpong" }) "c2c"
            (lit "--mode" ∷ lit "pingpong" ∷ lit "--pairs" ∷ lit "classes" ∷ [])
        ∷ [])

-- The branches of `suite_cells`, in its order; `none` stands for the ValueError.
unfoldable pub suite_cells : String → Option ℕ → Option (List Cell)
suite_cells name mirror_llc =
    if str_eq name "calib"
    then some calib
    else if str_eq name "main-c"
    then some main_c
    else if str_eq name "main-p"
    then some main_p
    else if str_eq name "combined"
    then some combined
    else if str_eq name "ctl-equal"
    then some ctl_equal
    else if str_eq name "ctl-small"
    then some ctl_small
    else if str_eq name "ctl-pack"
    then some ctl_pack
    else if str_eq name "ctl-mirror"
    then some (ctl_mirror mirror_llc)
    else if str_eq name "ctl-rolesplit"
    then some (ctl_rolesplit mirror_llc)
    else if str_eq name "smt"
    then some smt
    else if str_eq name "layouts"
    then some layouts
    else if str_eq name "perf"
    then some perf_suite
    else if str_eq name "lat"
    then some lat
    else if str_eq name "smoke"
    then some smoke
    else none
