-- ===== src/Sweep/Suites.antt =====
-- tools/perf/offccd_sweep.py: `suite_cells`.
use text.Mathlib.Text.{◌==◌ as str_eq}
use antfarm.Prelude.{
  ℕ, List, [], ◌∷◌, ◌++◌, map, Option, none, some, String, if◌then◌else◌, range_from,
}
use antfarm.Runner.Words.{Word, lit, dec}
use antfarm.Runner.Farms.{concat_map}
use antfarm.Sweep.Cells.{Labels, labels, Cell, cell, Combo, combos4, combos8, with_combo}

abbrev pub flag : String → ℕ → List Word
flag name k = lit name ∷ dec k ∷ []

-- For each combination, the cell of labels and arguments.
abbrev over : List Combo → Labels → List Word → List Cell
over combos l args = map (λ c. cell (with_combo l c) "offccd" args) combos

unfoldable pub calib : List Cell
calib =
    map
      (λ m.
        cell (record (labels "calib" "calib" 0) { arm = some m }) "c2c"
          (lit "--mode"
            ∷ lit m
            ∷ (if str_eq m "pingpong" then lit "--pairs" ∷ lit "all" ∷ [] else [])))
      ("pingpong" ∷ "rmw" ∷ "pull" ∷ [])

unfoldable pub main_c : List Cell
unfolding range_from
main_c =
    concat_map
      (λ k.
        over combos8 (record (labels "main-c" "S_C" k) { role = some "consumer" })
          (flag "--off-c" k))
      (range_from 0 9)

unfoldable pub main_p : List Cell
unfolding range_from
main_p =
    concat_map
      (λ k.
        over combos8 (record (labels "main-p" "S_P" k) { role = some "producer" })
          (flag "--off-p" k))
      (range_from 1 8)

unfoldable pub combined : List Cell
combined =
    concat_map
      (λ kk.
        over combos4 (record (labels "combined" "combined" kk) { role = some "both"; kp = some kk })
          (flag "--off-p" kk ++ flag "--off-c" kk))
      (1 ∷ 2 ∷ 4 ∷ [])

unfoldable pub ctl_equal : List Cell
ctl_equal =
    over combos4 (record (labels "ctl-equal" "equal" 1) { role = some "consumer"; arm = some "on" })
      (flag "--home-extra-c" 1)

abbrev small : List Word
small = flag "--home-p" 1 ++ flag "--home-c" 2

-- (role, the flag of the arm 'off', the flag of the arm 'on')
abbrev small_roles : List (String × String × String)
small_roles =
    ("consumer", "--off-c", "--home-extra-c") ∷ ("producer", "--off-p", "--home-extra-p") ∷ []

abbrev small_arm : Combo → String → ℕ → String → String → Cell
small_arm c role k arm where_flag =
    cell (with_combo (record (labels "ctl-small" "small" k) { role = some role; arm = some arm }) c)
      "offccd" (small ++ flag where_flag k)

unfoldable pub ctl_small : List Cell
ctl_small =
    concat_map
      (λ (c : Combo).
        cell (with_combo (record (labels "ctl-small" "small" 0) { arm = some "base" }) c) "offccd"
          small
        ∷ concat_map
            (λ ((role, off, on) : String × String × String).
              concat_map (λ k. small_arm c role k "off" off ∷ small_arm c role k "on" on ∷ [])
                (1 ∷ 3 ∷ 5 ∷ []))
            small_roles)
      (("touch", 1700, "stream") ∷ ("touch", 1700, "phased") ∷ ("touch", 16, "stream") ∷ [])

unfoldable pub ctl_pack : List Cell
unfolding range_from
ctl_pack =
    concat_map
      (λ n.
        map
          (λ batch.
            cell (record (labels "ctl-pack" "pack" n) { role = some "consumer"; batch = batch })
              "offccd" (flag "--home-c" n))
          (1700 ∷ 16 ∷ []))
      (range_from 1 6)

-- `mirror or []`
abbrev home : Option ℕ → List Word
home none = []
home (some llc) = flag "--home-llc" llc

abbrev skipped : Option ℕ → Option String
skipped none = some "single-llc"
skipped (some llc) = none

abbrev placements : List (ℕ × Option String × List Word)
placements =
    (0, none, [])
    ∷ (map (λ k. (k, some "consumer", flag "--off-c" k)) (1 ∷ 4 ∷ 8 ∷ [])
        ++ map (λ k. (k, some "producer", flag "--off-p" k)) (1 ∷ 4 ∷ 8 ∷ []))

unfoldable pub ctl_mirror : Option ℕ → List Cell
ctl_mirror mirror_llc =
    concat_map
      (λ ((k, role, extra) : ℕ × Option String × List Word).
        map
          (λ c.
            record (cell
              (with_combo
                (record (labels "ctl-mirror" "mirror" k) { role = role; arm = some "mirror" }) c)
              "offccd" (home mirror_llc ++ extra)) { skip = skipped mirror_llc })
          combos4)
      placements

abbrev split_words : List Word
split_words = flag "--home-p" 2 ++ (flag "--home-c" 0 ++ flag "--off-c" 5)

abbrev role_split : String → List Word → Option String → List Cell
role_split arm extra skip =
    map
      (λ c.
        record (cell
          (with_combo
            (record (labels "ctl-rolesplit" "rolesplit" 5) {
              role = some "consumer";
              arm = some arm;
            })
            c)
          "offccd" (extra ++ split_words)) { skip = skip })
      combos4

unfoldable pub ctl_rolesplit : Option ℕ → List Cell
ctl_rolesplit mirror_llc =
    role_split "main" [] none ++ role_split "mirror" (home mirror_llc) (skipped mirror_llc)
