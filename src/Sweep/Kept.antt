-- ===== src/Sweep/Kept.antt =====
-- tools/perf/offccd_sweep.py: the runs in the groups of `group_cells`.
use mathlib.Core.List.{append-nil, append_assoc}
use antfarm.Prelude.{
  ◌≡◌, inl, inr, refl, sym, ap, ◌∙◌, Bool, true, false, ◌&&◌, List, [], ◌∷◌, ◌++◌, if◌then◌else◌,
  arith, Bool-cases,
}
use antfarm.Text.{Line, line_eq, line_eq-eq}
use antfarm.Sweep.Groups.{
  Status, ok, skipped, invalid, Row, Group, plan_of, plan_key, extended, new_group, is_at, grouped,
  group_from, group_cells,
}

abbrev is_key : Line → Line → Line → Line → Bool
is_key cell plan c p = line_eq cell c && line_eq plan p

and-true : (a b : Bool) → (a && b) ≡ true → (a ≡ true) × (b ≡ true)
and-true a b h = ground arith

is_key-eq : (cell plan c p : Line) → is_key cell plan c p ≡ true → (cell ≡ c) × (plan ≡ p)
is_key-eq cell plan c p h =
    let (x, y) = and-true (line_eq cell c) (line_eq plan p) h in
    (line_eq-eq cell c x, line_eq-eq plan p y)

is_key-same :
    (cell plan c p d q : Line) → is_key c p d q ≡ true → is_key cell plan d q ≡ is_key cell plan c p
is_key-same cell plan c p d q h =
    let (x, y) = is_key-eq c p d q h in
    sym (ap (λ c. is_key cell plan c p) x ∙ ap (λ p. is_key cell plan d p) y)

is_key-other :
    (cell plan c p d q : Line)
    → is_key c p d q ≡ false
    → is_key cell plan d q ≡ true
    → is_key cell plan c p ≡ false
is_key-other cell plan c p d q h k = elim (Bool-cases (is_key cell plan c p)) [
  | inl e ↦ absurd (clash (sym h ∙ sym (moved (is_key-eq cell plan c p e)) ∙ k))
  | inr e ↦ e
]
  where
    moved : (cell ≡ c) × (plan ≡ p) → is_key cell plan d q ≡ is_key c p d q
    moved (x, y) = ap (λ c. is_key c plan d q) x ∙ ap (λ p. is_key c p d q) y

    clash : false ≡ true → ⊥
    clash e = cc

module _ {M : Type 0} where
  abbrev run_of : Status M → List M
  run_of (ok m) = m ∷ []
  run_of (skipped reason) = []
  run_of (invalid reason) = []

  -- The metrics of the ok rows of a cell and a plan, in order.
  abbrev pub metrics_of : Line → Line → List (Row M) → List M
  metrics_of cell plan [] = []
  metrics_of cell plan (r ∷ rows) =
      (if is_key cell plan r.cell (plan_key r.plan) then run_of r.status else [])
      ++ metrics_of cell plan rows

  -- cells[(cell, plan)]['runs'], none for a key that is missing
  abbrev pub runs_at : Line → Line → List (Group M) → List M
  runs_at cell plan [] = []
  runs_at cell plan (g ∷ groups) = if is_at cell plan g then g.runs else runs_at cell plan groups

  extended-runs : (r : Row M) (g : Group M) → (extended r g).runs ≡ g.runs ++ run_of r.status
  unfolding extended
  extended-runs r g = go r.status
    where
      go : (s : Status M) → (extended (record r { status = s }) g).runs ≡ g.runs ++ run_of s
      go (ok m) = refl
      go (skipped reason) = sym (append-nil g.runs)
      go (invalid reason) = sym (append-nil g.runs)

  is_at-extended :
      (cell plan : Line) (r : Row M) (g : Group M)
      → is_at cell plan (extended r g) ≡ is_at cell plan g
  unfolding extended
  is_at-extended cell plan r g = go r.status
    where
      go :
          (s : Status M)
          → is_at cell plan (extended (record r { status = s }) g) ≡ is_at cell plan g
      go (ok m) = refl
      go (skipped reason) = refl
      go (invalid reason) = refl

  joins :
      (b : Bool) (runs more others : List M)
      → (if b then runs ++ more else others)
        ≡ (if b then runs else others) ++ (if b then more else [])
  joins true runs more others = refl
  joins false runs more others = sym (append-nil others)

  runs_at-grouped :
      (r : Row M) (cell plan p : Line) (groups : List (Group M))
      → runs_at cell plan (grouped r p groups)
        ≡ runs_at cell plan groups ++ (if is_key cell plan r.cell p then run_of r.status else [])
  unfolding grouped
  runs_at-grouped r cell plan p [] =
      rw (is_at-extended cell plan r (new_group r p)) (rw (extended-runs r (new_group r p)) refl)
  runs_at-grouped r cell plan p (g ∷ groups) = elim (Bool-cases (is_at r.cell p g)) [
    | inl e ↦ rw e (
        rw (is_at-extended cell plan r g) (
          rw (extended-runs r g) (
            rw (sym (is_key-same cell plan r.cell p g.id g.plan e))
              (joins (is_at cell plan g) g.runs (run_of r.status) (runs_at cell plan groups)))))
    | inr e ↦ rw e (apart (is_at cell plan g) refl e (runs_at-grouped r cell plan p groups))
  ]
    where
      apart :
          (b : Bool)
          → is_at cell plan g ≡ b
          → is_at r.cell p g ≡ false
          → runs_at cell plan (grouped r p groups)
            ≡ runs_at cell plan groups
              ++ (if is_key cell plan r.cell p then run_of r.status else [])
          → (if b then g.runs else runs_at cell plan (grouped r p groups))
            ≡ (if b then g.runs else runs_at cell plan groups)
              ++ (if is_key cell plan r.cell p then run_of r.status else [])
      apart true k e h =
          rw (is_key-other cell plan r.cell p g.id g.plan e k) (sym (append-nil g.runs))
      apart false k e h = h

  no_runs : (b : Bool) → let ms : List M = if b then [] else [] in ms ≡ []
  no_runs true = refl
  no_runs false = refl

  -- An ok row is in the group of its own plan; the others have no run.
  run_of-plan_of :
      (all : List (Row M)) (r : Row M) (cell plan : Line)
      → (if is_key cell plan r.cell (plan_of all r) then run_of r.status else [])
        ≡ (if is_key cell plan r.cell (plan_key r.plan) then run_of r.status else [])
  unfolding plan_of
  run_of-plan_of all r cell plan = go r.status
    where
      go :
          (s : Status M)
          → (if is_key cell plan r.cell (plan_of all (record r { status = s }))
              then run_of s
              else [])
            ≡ (if is_key cell plan r.cell (plan_key r.plan) then run_of s else [])
      go (ok m) = refl
      go (skipped reason) =
          no_runs (is_key cell plan r.cell (plan_of all (record r { status = skipped reason })))
          ∙ sym (no_runs (is_key cell plan r.cell (plan_key r.plan)))
      go (invalid reason) =
          no_runs (is_key cell plan r.cell (plan_of all (record r { status = invalid reason })))
          ∙ sym (no_runs (is_key cell plan r.cell (plan_key r.plan)))

  runs_at-group_from :
      (all rows : List (Row M)) (cell plan : Line) (groups : List (Group M))
      → runs_at cell plan (group_from all rows groups)
        ≡ runs_at cell plan groups ++ metrics_of cell plan rows
  unfolding group_from
  runs_at-group_from all [] cell plan groups = sym (append-nil (runs_at cell plan groups))
  runs_at-group_from all (r ∷ rows) cell plan groups =
      runs_at-group_from all rows cell plan (grouped r (plan_of all r) groups)
      ∙ ap (λ ms. ms ++ metrics_of cell plan rows)
          (runs_at-grouped r cell plan (plan_of all r) groups
            ∙ ap (λ ms. runs_at cell plan groups ++ ms) (run_of-plan_of all r cell plan))
      ∙ append_assoc (runs_at cell plan groups)
          (if is_key cell plan r.cell (plan_key r.plan) then run_of r.status else [])
          (metrics_of cell plan rows)

  -- The runs of a group, from which the statistics of its cell are made, are the metrics of the ok
  -- rows of that cell with that plan, in the order of the rows; skipped and invalid rows add none.
  pub runs_at-group_cells :
      (rows : List (Row M)) (cell plan : Line)
      → runs_at cell plan (group_cells rows) ≡ metrics_of cell plan rows
  unfolding group_cells
  runs_at-group_cells rows cell plan = runs_at-group_from rows rows cell plan []
