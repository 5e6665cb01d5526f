-- ===== src/Sweep/Skips.antt =====
-- tools/perf/offccd_sweep.py: how often `run_suites` skips a cell.
use antfarm.Prelude.{
  ℕ, zero, suc, ◌+◌, ◌*◌, ◌≡◌, inl, inr, refl, sym, ap, ◌∙◌, Bool, true, false, ◌&&◌, List, [], ◌∷◌,
  ◌++◌, ◌==◌, if◌then◌else◌, arith, Bool-cases,
}
use antfarm.Text.{Line, codes, line_eq, line_eq-eq}
use antfarm.Sweep.Cells.{Cell}
use antfarm.Sweep.Groups.{Status, skipped, Row}
use antfarm.Sweep.Rounds.{
  Sweep, Settled, is_settled, runs_cells, settled_of, Progress, skip_row, skip_rows, reason_at,
  settled_by, run_row, ran, run_one, run_order, one_round, rounds, chosen, topped_up, before_rounds,
  run_suites,
}
use antfarm.Sweep.Attempts.{one_for, occurs}

differ : false ≡ true → ⊥
differ e = cc

module _ {M : Type 0} where
  abbrev pub is_skipped : Status M → Bool
  is_skipped (skipped reason) = true
  is_skipped (Status.ok m) = false
  is_skipped (Status.invalid reason) = false

  -- The skipped rows of a cell.
  abbrev pub skips : Line → List (Row M) → ℕ
  skips id [] = 0
  skips id (r ∷ rows) = one_for (line_eq id r.cell && is_skipped r.status) + skips id rows

  skips-append :
      (id : Line) (rows more : List (Row M))
      → skips id (rows ++ more) ≡ skips id rows + skips id more
  skips-append id [] more = omega arith
  skips-append id (r ∷ rows) more = omega (arith, skips-append id rows more)

  -- A cell has a skipped row if it is settled, and no other.
  abbrev pub SkippedOnce : Line → Progress M → Type 0
  SkippedOnce id s = skips id s.rows ≡ one_for (is_settled id s.settled)

skips-skip_rows :
    (M : Type 0) (id : Line) (settled : Settled) (cells : List Cell)
    → skips id (skip_rows {M = M} settled cells)
      ≡ (if is_settled id settled then occurs id cells else 0)
unfolding skip_rows
skips-skip_rows M id settled [] = ground arith
skips-skip_rows M id settled (c ∷ cells) =
    go (is_settled (codes c.id) settled) (is_settled id settled)
      (λ e. ap (λ i. is_settled i settled) (line_eq-eq id (codes c.id) e))
      (skips-skip_rows M id settled cells)
  where
    go :
        (b q : Bool)
        → (line_eq id (codes c.id) ≡ true → q ≡ b)
        → skips id (skip_rows {M = M} settled cells) ≡ (if q then occurs id cells else 0)
        → let left : List (Row M) =
            if b
            then skip_row c (reason_at (codes c.id) settled) ∷ skip_rows settled cells
            else skip_rows settled cells in
          skips id left ≡ (if q then one_for (line_eq id (codes c.id)) + occurs id cells else 0)
    go true true h ih = ground (arith, ih)
    go false false h ih = ih
    go true false h ih = elim (Bool-cases (line_eq id (codes c.id))) [
      | inl e ↦ absurd (differ (h e))
      | inr e ↦ rw e (omega (arith, ih))
    ]
    go false true h ih = elim (Bool-cases (line_eq id (codes c.id))) [
      | inl e ↦ absurd (differ (sym (h e)))
      | inr e ↦ rw e (omega (arith, ih))
    ]

module _ {M : Type 0} (d : Sweep M) (id : Line) where
  run_one-SkippedOnce :
      (round : ℕ) (topup : Bool) (pos : ℕ) (c : Cell) (s : Progress M)
      → SkippedOnce id s
      → SkippedOnce id (run_one d round topup pos c s)
  unfolding run_one
  run_one-SkippedOnce round topup pos c s h = go (is_settled (codes c.id) s.settled) refl
    where
      shut :
          is_settled (codes c.id) s.settled ≡ false
          → line_eq id (codes c.id) ≡ true
          → skips id s.rows ≡ 0
      shut e t =
          h ∙ ap one_for (ap (λ i. is_settled i s.settled) (line_eq-eq id (codes c.id) t) ∙ e)

      settles :
          (st : Status M)
          → is_settled (codes c.id) s.settled ≡ false
          → skips id s.rows + one_for (line_eq id (codes c.id) && is_skipped st)
            ≡ one_for (is_settled id (settled_by c st s.settled))
      settles (skipped reason) e = elim (Bool-cases (line_eq id (codes c.id))) [
        | inl t ↦ rw (is_settled, t) (omega (arith, shut e t))
        | inr t ↦ rw (is_settled, t) (omega (arith, h))
      ]
      settles (Status.ok m) e = ground (arith, h)
      settles (Status.invalid reason) e = ground (arith, h)

      go :
          (b : Bool)
          → is_settled (codes c.id) s.settled ≡ b
          → SkippedOnce id (if b then s else ran c (d.answer c round pos topup) s)
      go true e = h
      go false e = omega (
        arith,
        skips-append id s.rows (run_row c (d.answer c round pos topup) ∷ []),
        settles (d.answer c round pos topup).status e,
      )

  run_order-SkippedOnce :
      (round : ℕ) (topup : Bool) (pos : ℕ) (order : List Cell) (s : Progress M)
      → SkippedOnce id s
      → SkippedOnce id (run_order d round topup pos order s)
  unfolding run_order
  run_order-SkippedOnce round topup pos [] s h = h
  run_order-SkippedOnce round topup pos (c ∷ order) s h =
      run_order-SkippedOnce round topup (suc pos) order (run_one d round topup pos c s)
        (run_one-SkippedOnce round topup pos c s h)

  rounds-SkippedOnce :
      (count : ℕ) (todo : List Cell) (round : ℕ) (topup : Bool) (s : Progress M)
      → SkippedOnce id s
      → SkippedOnce id (rounds d count todo round topup s)
  unfolding rounds one_round
  rounds-SkippedOnce zero todo round topup s h = h
  rounds-SkippedOnce (suc count) todo round topup s h =
      rounds-SkippedOnce count todo (suc round) topup (one_round d todo round topup s)
        (run_order-SkippedOnce round topup 0 (d.shuffle (d.seed * 1000 + round) todo) s h)

  topped_up-SkippedOnce :
      (cells : List Cell) (s : Progress M) → SkippedOnce id s → SkippedOnce id (topped_up d cells s)
  topped_up-SkippedOnce cells s h = go (d.topup_runs == 0)
    where
      go :
          (b : Bool)
          → SkippedOnce id (
              if b
              then s
              else rounds d d.topup_runs (chosen d (d.noisy s.rows) cells) d.runs true s)
      go true = h
      go false = rounds-SkippedOnce d.topup_runs (chosen d (d.noisy s.rows) cells) d.runs true s h

  -- A cell of the sweep has one skipped row if it is settled, before the first round or by a run that
  -- was skipped, and no skipped row otherwise: it is not tried again. Its id occurs once.
  pub run_suites-SkippedOnce :
      (cells : List Cell) → occurs id (runs_cells cells) ≡ 1 → SkippedOnce id (run_suites d cells)
  unfolding run_suites
  run_suites-SkippedOnce cells once =
      topped_up-SkippedOnce cs (rounds d d.runs cs 0 false (before_rounds d cs)) (
        rounds-SkippedOnce d.runs cs 0 false (before_rounds d cs)
          (start (is_settled id settled) (skips-skip_rows M id settled cs)))
    where
      cs : List Cell
      cs = runs_cells cells

      settled : Settled
      settled = settled_of d.has_perf cs []

      start :
          (b : Bool)
          → skips id (skip_rows {M = M} settled cs) ≡ (if b then occurs id cs else 0)
          → skips id (skip_rows {M = M} settled cs) ≡ one_for b
      start true e = omega (arith, e, once)
      start false e = e
