-- ===== src/Sweep/Attempts.antt =====
-- tools/perf/offccd_sweep.py: how often `run_suites` runs a cell.
use native.Mathlib.Nat.{suc-mul, zero-mul, mul-zero, add-mul}
use antfarm.Prelude.{
  ℕ, zero, suc, ◌+◌, ◌*◌, ◌≡◌, inl, inr, refl, sym, ap, ◌∙◌, subst, Bool, true, false, List, [],
  ◌∷◌, ◌++◌, ◌==◌, if◌then◌else◌, arith, Bool-cases,
}
use antfarm.Text.{Line, codes, line_eq, line_eq-eq}
use antfarm.Sweep.Cells.{Cell}
use antfarm.Sweep.Groups.{Status, skipped, Row, has_plan}
use antfarm.Sweep.Rounds.{
  Sweep, Settled, is_settled, runs_cells, settled_of, Progress, skip_row, skip_rows, reason_at,
  settled_by, ran, run_one, run_order, one_round, rounds, chosen, topped_up, before_rounds,
  run_suites,
}

abbrev pub one_for : Bool → ℕ
one_for true = 1
one_for false = 0

-- The cells with an id.
abbrev pub occurs : Line → List Cell → ℕ
occurs id [] = 0
occurs id (c ∷ cells) = one_for (line_eq id (codes c.id)) + occurs id cells

differ : false ≡ true → ⊥
differ e = cc

zero_of : (n : ℕ) → (n == 0) ≡ true → n ≡ 0
zero_of n e = ground arith

unsettled :
    (id : Line) (c : Cell) (settled : Settled)
    → is_settled id settled ≡ false
    → is_settled (codes c.id) settled ≡ true
    → line_eq id (codes c.id) ≡ false
unsettled id c settled h k = elim (Bool-cases (line_eq id (codes c.id))) [
  | inl e ↦
      absurd (differ (sym h ∙ ap (λ i. is_settled i settled) (line_eq-eq id (codes c.id) e) ∙ k))
  | inr e ↦ e
]

module _ {M : Type 0} where
  -- The rows of a cell.
  abbrev pub attempts : Line → List (Row M) → ℕ
  attempts id [] = 0
  attempts id (r ∷ rows) = one_for (line_eq id r.cell) + attempts id rows

  attempts-append :
      (id : Line) (rows more : List (Row M))
      → attempts id (rows ++ more) ≡ attempts id rows + attempts id more
  attempts-append id [] more = omega arith
  attempts-append id (r ∷ rows) more = omega (arith, attempts-append id rows more)

  settled_by-before :
      (id : Line) (c : Cell) (st : Status M) (settled : Settled)
      → is_settled id (settled_by c st settled) ≡ false
      → is_settled id settled ≡ false
  unfolding is_settled
  settled_by-before id c (skipped reason) settled h = ground arith
  settled_by-before id c (Status.ok m) settled h = h
  settled_by-before id c (Status.invalid reason) settled h = h

  module _ (d : Sweep M) (id : Line) where
    -- A step that leaves the cell open has left it open before, and adds `n` rows of it.
    abbrev Adds : ℕ → Progress M → Progress M → Type 0
    Adds n s t =
        is_settled id t.settled ≡ false
        → (is_settled id s.settled ≡ false) × (attempts id t.rows ≡ attempts id s.rows + n)

    Adds-comp : (m n : ℕ) (s t u : Progress M) → Adds m s t → Adds n t u → Adds (m + n) s u
    Adds-comp m n s t u f g h = let (k, e) = g h in let (l, e') = f k in (l, omega (arith, e, e'))

    run_one-Adds :
        (round : ℕ) (topup : Bool) (pos : ℕ) (c : Cell) (s : Progress M)
        → Adds (one_for (line_eq id (codes c.id))) s (run_one d round topup pos c s)
    unfolding run_one
    run_one-Adds round topup pos c s = go (is_settled (codes c.id) s.settled) refl
      where
        go :
            (b : Bool)
            → is_settled (codes c.id) s.settled ≡ b
            → Adds
                (one_for (line_eq id (codes c.id)))
                s
                (if b then s else ran c (d.answer c round pos topup) s)
        go true e h = (h, rw (unsettled id c s.settled h e) (omega arith))
        go false e h = (
          settled_by-before id c (d.answer c round pos topup).status s.settled h,
          omega (arith, attempts-append id s.rows (_ ∷ [])),
        )

    run_order-Adds :
        (round : ℕ) (topup : Bool) (pos : ℕ) (order : List Cell) (s : Progress M)
        → Adds (occurs id order) s (run_order d round topup pos order s)
    unfolding run_order
    run_order-Adds round topup pos [] s = λ h. (h, omega arith)
    run_order-Adds round topup pos (c ∷ order) s =
        Adds-comp (one_for (line_eq id (codes c.id))) (occurs id order) s
          (run_one d round topup pos c s)
          (run_order d round topup (suc pos) order (run_one d round topup pos c s))
          (run_one-Adds round topup pos c s)
          (run_order-Adds round topup (suc pos) order (run_one d round topup pos c s))

    -- The law of `shuffle` that is used: each cell is as often in the order as in the list.
    abbrev pub Permutes : Type 0
    Permutes = (k : ℕ) (cells : List Cell) → occurs id (d.shuffle k cells) ≡ occurs id cells

    one_round-Adds :
        Permutes
        → (todo : List Cell) (round : ℕ) (topup : Bool) (s : Progress M)
        → Adds (occurs id todo) s (one_round d todo round topup s)
    unfolding one_round
    one_round-Adds p todo round topup s =
        subst (λ n. Adds n s (run_order d round topup 0 (d.shuffle (d.seed * 1000 + round) todo) s))
          (p (d.seed * 1000 + round) todo)
          (run_order-Adds round topup 0 (d.shuffle (d.seed * 1000 + round) todo) s)

    rounds-Adds :
        Permutes
        → (count : ℕ) (todo : List Cell) (round : ℕ) (topup : Bool) (s : Progress M)
        → Adds (count * occurs id todo) s (rounds d count todo round topup s)
    unfolding rounds
    rounds-Adds p zero todo round topup s = λ h. (h, omega arith)
    rounds-Adds p (suc count) todo round topup s =
        subst (λ n. Adds n s (rounds d (suc count) todo round topup s)) (more (occurs id todo))
          (Adds-comp (occurs id todo) (count * occurs id todo) s (one_round d todo round topup s)
            (rounds d count todo (suc round) topup (one_round d todo round topup s))
            (one_round-Adds p todo round topup s)
            (rounds-Adds p count todo (suc round) topup (one_round d todo round topup s)))
      where
        more : (n : ℕ) → n + count * n ≡ suc count * n
        more n = omega (arith, suc-mul count n)

    occurs-chosen :
        (ids : List Line) (cells : List Cell)
        → occurs id (chosen d ids cells) ≡ (if has_plan id ids then occurs id cells else 0)
    unfolding chosen
    occurs-chosen ids [] = ground arith
    occurs-chosen ids (c ∷ cells) =
        go (has_plan (codes c.id) ids) (has_plan id ids)
          (λ e. ap (λ i. has_plan i ids) (line_eq-eq id (codes c.id) e)) (occurs-chosen ids cells)
      where
        go :
            (b q : Bool)
            → (line_eq id (codes c.id) ≡ true → q ≡ b)
            → occurs id (chosen d ids cells) ≡ (if q then occurs id cells else 0)
            → let left : List Cell = if b then c ∷ chosen d ids cells else chosen d ids cells in
              occurs id left
              ≡ (if q then one_for (line_eq id (codes c.id)) + occurs id cells else 0)
        go true true h ih = omega (arith, ih)
        go false false h ih = ih
        go true false h ih = elim (Bool-cases (line_eq id (codes c.id))) [
          | inl e ↦ absurd (differ (h e))
          | inr e ↦ rw e (omega (arith, ih))
        ]
        go false true h ih = elim (Bool-cases (line_eq id (codes c.id))) [
          | inl e ↦ absurd (differ (sym (h e)))
          | inr e ↦ rw e (omega (arith, ih))
        ]

    skip_rows-none :
        (settled : Settled) (cells : List Cell)
        → is_settled id settled ≡ false
        → attempts id (skip_rows settled cells) ≡ 0
    unfolding skip_rows
    skip_rows-none settled [] h = refl
    skip_rows-none settled (c ∷ cells) h =
        go (is_settled (codes c.id) settled) refl (skip_rows-none settled cells h)
      where
        go :
            (b : Bool)
            → is_settled (codes c.id) settled ≡ b
            → attempts id (skip_rows {M = M} settled cells) ≡ 0
            → let left : List (Row M) =
                if b
                then skip_row c (reason_at (codes c.id) settled) ∷ skip_rows settled cells
                else skip_rows settled cells in
              attempts id left ≡ 0
        go true e ih = rw (unsettled id c settled h e) (omega (arith, ih))
        go false e ih = ih

    -- What the top-up rounds add.
    abbrev pub topup_count : List Cell → ℕ
    topup_count cells =
        if has_plan id (d.noisy (rounds d d.runs cells 0 false (before_rounds d cells)).rows)
        then d.topup_runs
        else 0

    topped_up-Adds :
        Permutes
        → (cells : List Cell)
        → let s : Progress M = rounds d d.runs cells 0 false (before_rounds d cells) in
          Adds (topup_count cells * occurs id cells) s (topped_up d cells s)
    topped_up-Adds p cells = go (d.topup_runs == 0) refl
      where
        s : Progress M
        s = rounds d d.runs cells 0 false (before_rounds d cells)

        none_left : (q : Bool) (n k : ℕ) → (n == 0) ≡ true → (if q then n else 0) * k ≡ 0
        none_left true n k e = rw (zero_of n e) (zero-mul k)
        none_left false n k e = zero-mul k

        picked : (q : Bool) (n k : ℕ) → n * (if q then k else 0) ≡ (if q then n else 0) * k
        picked true n k = refl
        picked false n k = omega (arith, mul-zero n, zero-mul k)

        go :
            (b : Bool)
            → (d.topup_runs == 0) ≡ b
            → Adds (topup_count cells * occurs id cells) s (
                if b
                then s
                else rounds d d.topup_runs (chosen d (d.noisy s.rows) cells) d.runs true s)
        go true e h = (
          h,
          omega (arith, none_left (has_plan id (d.noisy s.rows)) d.topup_runs (occurs id cells) e),
        )
        go false e h =
            let (k, total) =
              rounds-Adds p d.topup_runs (chosen d (d.noisy s.rows) cells) d.runs true s h in
            (
              k,
              total
                  ∙ ap (λ n. attempts id s.rows + n)
                      (ap (λ n. d.topup_runs * n) (occurs-chosen (d.noisy s.rows) cells)
                        ∙ picked (has_plan id (d.noisy s.rows)) d.topup_runs (occurs id cells)),
            )

    -- A cell that no run and no missing tool has settled has a row for each round: as many as were asked
    -- for, and those to top it up if its results are noisy, for each time that its id occurs.
    pub run_suites-attempts :
        Permutes
        → (cells : List Cell) → is_settled id (run_suites d cells).settled ≡ false
        → attempts id (run_suites d cells).rows
          ≡ (d.runs + topup_count (runs_cells cells)) * occurs id (runs_cells cells)
    unfolding run_suites
    run_suites-attempts p cells h =
        let cs : List Cell = runs_cells cells in
        let s : Progress M = rounds d d.runs cs 0 false (before_rounds d cs) in
        let (open_before, total) =
          Adds-comp (d.runs * occurs id cs) (topup_count cs * occurs id cs) (before_rounds d cs) s
            (topped_up d cs s) (rounds-Adds p d.runs cs 0 false (before_rounds d cs))
            (topped_up-Adds p cs) h in
        omega (
          arith,
          total,
          skip_rows-none (settled_of d.has_perf cs []) cs open_before,
          add-mul d.runs (topup_count cs) (occurs id cs),
        )
