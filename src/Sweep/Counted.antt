-- ===== src/Sweep/Counted.antt =====
-- tools/perf/offccd_sweep.py: the rows in the groups of `group_cells`.
use antfarm.Prelude.{
  ℕ, suc, ◌+◌, ◌≡◌, refl, Bool, true, false, List, [], ◌∷◌, if◌then◌else◌, length, arith,
  length-append,
}
use antfarm.Text.{Line}
use antfarm.Sweep.Groups.{
  Status, ok, skipped, invalid, Row, Group, or_unknown, increased, plan_of, extended, new_group,
  is_at, grouped, group_from, group_cells,
}

-- The runs counted under a reason, of all reasons.
abbrev pub sum_of : List (Line × ℕ) → ℕ
sum_of [] = 0
sum_of ((r, n) ∷ counts) = n + sum_of counts

pub sum_of-increased :
    (reason : Line) (counts : List (Line × ℕ))
    → sum_of (increased reason counts) ≡ suc (sum_of counts)
unfolding increased
sum_of-increased reason [] = refl
sum_of-increased reason ((r, n) ∷ counts) = ground (arith, sum_of-increased reason counts)

module _ {M : Type 0} where
  abbrev pub size_of : Group M → ℕ
  size_of g = length g.runs + length g.skipped + sum_of g.invalid

  abbrev pub sizes : List (Group M) → ℕ
  sizes [] = 0
  sizes (g ∷ groups) = size_of g + sizes groups

  size_of-extended : (r : Row M) (g : Group M) → size_of (extended r g) ≡ suc (size_of g)
  unfolding extended
  size_of-extended r g = go r.status
    where
      go : (s : Status M) → size_of (extended (record r { status = s }) g) ≡ suc (size_of g)
      go (ok m) = omega (arith, length-append g.runs (m ∷ []))
      go (skipped reason) = omega (arith, length-append g.skipped (reason ∷ []))
      go (invalid reason) = omega (arith, sum_of-increased (or_unknown reason) g.invalid)

  sizes-grouped :
      (r : Row M) (plan : Line) (groups : List (Group M))
      → sizes (grouped r plan groups) ≡ suc (sizes groups)
  unfolding grouped
  sizes-grouped r plan [] = omega (arith, size_of-extended r (new_group r plan))
  sizes-grouped r plan (g ∷ groups) = go (is_at r.cell plan g) (sizes-grouped r plan groups)
    where
      go :
          (b : Bool)
          → sizes (grouped r plan groups) ≡ suc (sizes groups)
          → sizes (if b then extended r g ∷ groups else g ∷ grouped r plan groups)
            ≡ suc (size_of g + sizes groups)
      go true h = omega (arith, size_of-extended r g)
      go false h = omega (arith, h)

  sizes-group_from :
      (all rows : List (Row M)) (groups : List (Group M))
      → sizes (group_from all rows groups) ≡ sizes groups + length rows
  unfolding group_from
  sizes-group_from all [] groups = omega arith
  sizes-group_from all (r ∷ rows) groups = omega (
    arith,
    sizes-group_from all rows (grouped r (plan_of all r) groups),
    sizes-grouped r (plan_of all r) groups,
  )

  -- Every row is counted in one group and once: the runs, the skipped and the invalid ones of all
  -- groups are as many as the rows.
  pub sizes-group_cells : (rows : List (Row M)) → sizes (group_cells rows) ≡ length rows
  unfolding group_cells
  sizes-group_cells rows = omega (arith, sizes-group_from rows rows [])
