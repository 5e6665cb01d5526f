-- ===== src/Sweep/Totals.antt =====
-- tools/perf/offccd_sweep.py: the invalid runs that `summarize` counts.
use antfarm.Prelude.{ℕ, ◌+◌, ◌≡◌, refl, Bool, true, false, List, [], ◌∷◌, if◌then◌else◌, arith}
use antfarm.Text.{Line}
use antfarm.Sweep.Groups.{
  Status, Row, Group, or_unknown, plan_of, extended, new_group, is_at, grouped, group_from,
  group_cells,
}
use antfarm.Sweep.Counted.{sum_of, sum_of-increased}
use antfarm.Sweep.Summary.{
  Entry, added, all_added, inserted, key_before, sorted_groups, entry_of, entries_of, cells_summary,
  invalid_by_reason,
}

sum_of-added :
    (reason : Line) (v : ℕ) (counts : List (Line × ℕ))
    → sum_of (added reason v counts) ≡ v + sum_of counts
unfolding added
sum_of-added reason v [] = refl
sum_of-added reason v ((r, n) ∷ counts) = ground (arith, sum_of-added reason v counts)

sum_of-all_added :
    (more counts : List (Line × ℕ)) → sum_of (all_added more counts) ≡ sum_of more + sum_of counts
unfolding all_added
sum_of-all_added [] counts = omega arith
sum_of-all_added ((r, v) ∷ more) counts =
    omega (arith, sum_of-all_added more (added r v counts), sum_of-added r v counts)

abbrev invalid_in : List Entry → ℕ
invalid_in [] = 0
invalid_in (e ∷ es) = sum_of e.invalid + invalid_in es

sum_of-invalid_by_reason :
    (es : List Entry) (counts : List (Line × ℕ))
    → sum_of (invalid_by_reason es counts) ≡ invalid_in es + sum_of counts
unfolding invalid_by_reason
sum_of-invalid_by_reason [] counts = omega arith
sum_of-invalid_by_reason (e ∷ es) counts = omega (
  arith,
  sum_of-invalid_by_reason es (all_added e.invalid counts),
  sum_of-all_added e.invalid counts,
)

module _ {M : Type 0} where
  abbrev pub invalid_one : Status M → ℕ
  invalid_one (Status.ok m) = 0
  invalid_one (Status.skipped reason) = 0
  invalid_one (Status.invalid reason) = 1

  abbrev pub invalid_rows : List (Row M) → ℕ
  invalid_rows [] = 0
  invalid_rows (r ∷ rows) = invalid_one r.status + invalid_rows rows

  abbrev invalids : List (Group M) → ℕ
  invalids [] = 0
  invalids (g ∷ groups) = sum_of g.invalid + invalids groups

  invalid-extended :
      (r : Row M) (g : Group M)
      → sum_of (extended r g).invalid ≡ invalid_one r.status + sum_of g.invalid
  unfolding extended
  invalid-extended r g = go r.status
    where
      go :
          (s : Status M)
          → sum_of (extended (record r { status = s }) g).invalid ≡ invalid_one s + sum_of g.invalid
      go (Status.ok m) = omega arith
      go (Status.skipped reason) = omega arith
      go (Status.invalid reason) = omega (arith, sum_of-increased (or_unknown reason) g.invalid)

  invalids-grouped :
      (r : Row M) (plan : Line) (groups : List (Group M))
      → invalids (grouped r plan groups) ≡ invalid_one r.status + invalids groups
  unfolding grouped
  invalids-grouped r plan [] = omega (arith, invalid-extended r (new_group r plan))
  invalids-grouped r plan (g ∷ groups) = go (is_at r.cell plan g) (invalids-grouped r plan groups)
    where
      go :
          (b : Bool)
          → invalids (grouped r plan groups) ≡ invalid_one r.status + invalids groups
          → invalids (if b then extended r g ∷ groups else g ∷ grouped r plan groups)
            ≡ invalid_one r.status + (sum_of g.invalid + invalids groups)
      go true h = omega (arith, invalid-extended r g)
      go false h = omega (arith, h)

  invalids-group_from :
      (all rows : List (Row M)) (groups : List (Group M))
      → invalids (group_from all rows groups) ≡ invalids groups + invalid_rows rows
  unfolding group_from
  invalids-group_from all [] groups = omega arith
  invalids-group_from all (r ∷ rows) groups = omega (
    arith,
    invalids-group_from all rows (grouped r (plan_of all r) groups),
    invalids-grouped r (plan_of all r) groups,
  )

  invalids-inserted :
      (g : Group M) (groups : List (Group M))
      → invalids (inserted g groups) ≡ sum_of g.invalid + invalids groups
  unfolding inserted
  invalids-inserted g [] = refl
  invalids-inserted g (h ∷ groups) = go (key_before g h) (invalids-inserted g groups)
    where
      go :
          (b : Bool)
          → invalids (inserted g groups) ≡ sum_of g.invalid + invalids groups
          → invalids (if b then g ∷ h ∷ groups else h ∷ inserted g groups)
            ≡ sum_of g.invalid + (sum_of h.invalid + invalids groups)
      go true e = refl
      go false e = omega (arith, e)

  invalids-sorted_groups :
      (groups : List (Group M)) → invalids (sorted_groups groups) ≡ invalids groups
  unfolding sorted_groups
  invalids-sorted_groups [] = refl
  invalids-sorted_groups (g ∷ groups) =
      omega (arith, invalids-inserted g (sorted_groups groups), invalids-sorted_groups groups)

  invalid_in-entries_of :
      (p : M → Bool) (groups : List (Group M)) → invalid_in (entries_of p groups) ≡ invalids groups
  unfolding entries_of entry_of
  invalid_in-entries_of p [] = refl
  invalid_in-entries_of p (g ∷ groups) = omega (arith, invalid_in-entries_of p groups)

  -- The counts of the summary by reason add up to the invalid rows.
  pub invalid_by_reason-total :
      (p : M → Bool) (rows : List (Row M))
      → sum_of (invalid_by_reason (cells_summary p rows) []) ≡ invalid_rows rows
  unfolding cells_summary group_cells
  invalid_by_reason-total p rows = omega (
    arith,
    sum_of-invalid_by_reason (cells_summary p rows) [],
    invalid_in-entries_of p (sorted_groups (group_cells rows)),
    invalids-sorted_groups (group_cells rows),
    invalids-group_from rows rows [],
  )
