-- ===== src/Sweep/Rounds.antt =====
-- tools/perf/offccd_sweep.py: `skip_row`, `run_cell` and the rounds of `run_suites`.
use text.Mathlib.Text.{◌==◌ as str_eq}
use antfarm.Prelude.{
  ℕ, zero, suc, ◌+◌, ◌*◌, Bool, true, false, ◌&&◌, ◌||◌, not, List, [], ◌∷◌, ◌++◌, Option, none,
  some, String, ◌==◌, if◌then◌else◌,
}
use antfarm.Text.{Line, codes, line_eq}
use antfarm.Sweep.Cells.{Cell}
use antfarm.Sweep.Noise.{Numbers, select_topup}
use antfarm.Sweep.Groups.{Status, skipped, Plan, Row, has_plan}

-- The result that a driver run prints, or the invalid one that stands for none.
pub record Answer (M : Type 0) : Type 0 where
  pub status : Status M
  pub plan : Plan
  pub crosses_llc : Bool
  pub scope_drift : Bool

-- `answer` runs the driver for a cell, a round, a place in it and `topup`; `shuffle` is
-- random.Random(seed).shuffle, by the seed. `noisy` finds the cells to top up, as `select_topup` does.
pub record Sweep (M : Type 0) : Type 0 where
  pub answer : Cell → ℕ → ℕ → Bool → Answer M
  pub shuffle : ℕ → List Cell → List Cell
  pub noisy : List (Row M) → List Line
  pub seed : ℕ
  pub runs : ℕ
  pub topup_runs : ℕ
  pub has_perf : Bool

-- `settled`, a dict from cells to the reasons why they are skipped
abbrev pub Settled : Type 0
Settled = List (Line × Option Line)

unfoldable pub is_settled : Line → Settled → Bool
unfolding line_eq
is_settled id [] = false
is_settled id ((cell, reason) ∷ settled) = line_eq id cell || is_settled id settled

-- The cells of the driver that is not for calibration.
unfoldable pub runs_cells : List Cell → List Cell
runs_cells [] = []
runs_cells (c ∷ cells) = if str_eq c.driver "offccd" then c ∷ runs_cells cells else runs_cells cells

-- c.get('skip') is not empty
abbrev has_reason : Option String → Bool
has_reason none = false
has_reason (some s) = not (str_eq s "")

abbrev reason_text : Option String → Option Line
reason_text none = none
reason_text (some s) = some (codes s)

-- The reason of a cell that is skipped before the first round.
unfoldable pub skip_reason : Bool → Cell → Option (Option Line)
skip_reason has_perf c =
    if has_reason c.skip
    then some (reason_text c.skip)
    else if c.perf && not has_perf
    then some (some (codes "perf-unavailable"))
    else none

abbrev pub settle : Cell → Option (Option Line) → Settled → Settled
settle c none settled = settled
settle c (some reason) settled = (codes c.id, reason) ∷ settled

unfoldable pub settled_of : Bool → List Cell → Settled → Settled
unfolding skip_reason
settled_of has_perf [] settled = settled
settled_of has_perf (c ∷ cells) settled =
    settled_of has_perf cells (settle c (skip_reason has_perf c) settled)

abbrev pub reason_at : Line → Settled → Option Line
reason_at id [] = none
reason_at id ((cell, reason) ∷ settled) = if line_eq id cell then reason else reason_at id settled

-- The state of the rounds.
pub record Progress (M : Type 0) : Type 0 where
  pub rows : List (Row M)
  pub settled : Settled

module _ {M : Type 0} where
  abbrev pub skip_row : Cell → Option Line → Row M
  skip_row c reason = record {
    cell = codes c.id;
    labels = c.labels;
    status = skipped reason;
    plan = record { cpus = []; controller = none };
    crosses_llc = false;
    scope_drift = false;
  }

  unfoldable pub skip_rows : Settled → List Cell → List (Row M)
  unfolding is_settled line_eq
  skip_rows settled [] = []
  skip_rows settled (c ∷ cells) =
      let rest = skip_rows settled cells in
      if is_settled (codes c.id) settled
      then skip_row c (reason_at (codes c.id) settled) ∷ rest
      else rest

  abbrev pub run_row : Cell → Answer M → Row M
  run_row c a = record {
    cell = codes c.id;
    labels = c.labels;
    status = a.status;
    plan = a.plan;
    crosses_llc = a.crosses_llc;
    scope_drift = a.scope_drift;
  }

  abbrev pub settled_by : Cell → Status M → Settled → Settled
  settled_by c (skipped reason) settled = (codes c.id, reason) ∷ settled
  settled_by c (Status.ok m) settled = settled
  settled_by c (Status.invalid reason) settled = settled

  abbrev pub ran : Cell → Answer M → Progress M → Progress M
  ran c a s = record {
    rows = s.rows ++ run_row c a ∷ [];
    settled = settled_by c a.status s.settled;
  }

  module _ (d : Sweep M) where
    -- The body of the loop of a round.
    unfoldable pub run_one : ℕ → Bool → ℕ → Cell → Progress M → Progress M
    unfolding is_settled
    run_one round topup pos c s =
        if is_settled (codes c.id) s.settled then s else ran c (d.answer c round pos topup) s

    unfoldable pub run_order : ℕ → Bool → ℕ → List Cell → Progress M → Progress M
    unfolding run_one
    run_order round topup pos [] s = s
    run_order round topup pos (c ∷ order) s =
        run_order round topup (suc pos) order (run_one round topup pos c s)

    unfoldable pub one_round : List Cell → ℕ → Bool → Progress M → Progress M
    unfolding run_order
    one_round todo round topup s =
        run_order round topup 0 (d.shuffle (d.seed * 1000 + round) todo) s

    -- `count` rounds, from `round` on
    unfoldable pub rounds : ℕ → List Cell → ℕ → Bool → Progress M → Progress M
    unfolding one_round
    rounds zero todo round topup s = s
    rounds (suc count) todo round topup s =
        rounds count todo (suc round) topup (one_round todo round topup s)

    unfoldable pub chosen : List Line → List Cell → List Cell
    unfolding has_plan
    chosen ids [] = []
    chosen ids (c ∷ cells) =
        if has_plan (codes c.id) ids then c ∷ chosen ids cells else chosen ids cells

    abbrev pub topped_up : List Cell → Progress M → Progress M
    topped_up cells s =
        if d.topup_runs == 0
        then s
        else rounds d.topup_runs (chosen (d.noisy s.rows) cells) d.runs true s

    abbrev pub before_rounds : List Cell → Progress M
    before_rounds cells =
        let settled = settled_of d.has_perf cells [] in
        record { rows = skip_rows settled cells; settled = settled }

    -- The rows of a sweep over the cells of the suites.
    unfoldable pub run_suites : List Cell → Progress M
    unfolding runs_cells settled_of skip_rows rounds chosen
    run_suites cells =
        topped_up (runs_cells cells)
          (rounds d.runs (runs_cells cells) 0 false (before_rounds (runs_cells cells)))

-- The cells to top up are those that `select_topup` finds in the rows.
abbrev pub with_select_topup :
    {M : Type 0} (o : Numbers) → (M → Option o.F) → o.F → o.F → Sweep M → Sweep M
with_select_topup o rate cv_threshold range_threshold d = record d {
  noisy = select_topup o rate cv_threshold range_threshold;
}
