-- ===== src/PerfGate/Laws/Tests.antt =====
-- Runs of the gate on whole numbers in place of floats, and its properties at them.
use antfarm.Prelude.{
  ℕ, zero, suc, ◌+◌, ◌-◌, ◌*◌, ◌/◌, ◌≤◌, ◌≡◌, ◌⊎◌, ◌↔◌, refl, Bool, true, false, List, [], ◌∷◌,
  none, arith, ltb, length, All, String,
}
use antfarm.PerfGate.Floats.{Floats}
use antfarm.PerfGate.Campaign.{
  Version, base, candidate, Row, Pair, Cell, Runs, measured, measure_cell, kept_order_count,
}
use antfarm.PerfGate.Report.{CellName, Gate, report_cell, run_cells, exit_status}
use antfarm.PerfGate.Laws.Pairs.{clean_of, measure_cell_lem}
use antfarm.PerfGate.Laws.Exit.{exit_status-zero, tree_cancel-exit_status}

abbrev head_of : List ℕ → ℕ
head_of [] = 0
head_of (x ∷ xs) = x

-- Thousandths, one more than the ratio in `sub`, so that no number is below zero.
abbrev whole : Floats
whole = record {
  F = ℕ;
  zero_f = 0;
  one_f = 1000;
  lt = ltb;
  sub = λ a b. a - b;
  div = λ a b. a * 1000 / b;
  abs = λ a. a;
  twice = λ a. 2 * a;
  half = λ a. a / 2;
  median = head_of;
  least = head_of;
  greatest = head_of;
  boot_low = head_of;
  boot_high = head_of;
}

abbrev gate : Gate whole
gate = record { repeats = 2; max_attempts = 3; threshold = 30; cancel_fraction_tolerance = 10 }

abbrev row : Bool → Row whole
row shared = record { rate = 5; contaminated = shared; valid = true; dispatched_fraction = none }

-- The second attempt is contaminated.
abbrev noisy : Runs whole
noisy (suc zero) v kept = row true
noisy _ v kept = row false

-- All but the first attempt are contaminated.
abbrev noisier : Runs whole
noisier zero v kept = row false
noisier _ v kept = row true

abbrev began : Version → Bool → Pair whole
began v shared = record { first = v; base_row = row shared; candidate_row = row shared }

abbrev two_kept : Cell whole
two_kept = record {
  pairs = began base false ∷ began candidate false ∷ [];
  attempts = began base false ∷ began candidate true ∷ began candidate false ∷ [];
}

abbrev one_kept : Cell whole
one_kept = record {
  pairs = began base false ∷ [];
  attempts = began base false ∷ began candidate true ∷ began candidate true ∷ [];
}

measure-noisy : measure_cell whole noisy 2 3 ≡ measured two_kept
unfolding measure_cell
measure-noisy = refl

measure-noisier : measure_cell whole noisier 2 3 ≡ measured one_kept
unfolding measure_cell
measure-noisier = refl

measure_cell_lem_example :
    (two_kept.pairs ≡ clean_of whole two_kept.attempts)
    × (length two_kept.pairs ≤ 2)
    × (length two_kept.attempts ≤ 3)
    × ((length two_kept.pairs ≡ 2) ⊎ (length two_kept.attempts ≡ 3))
    × (kept_order_count whole candidate two_kept.pairs ≤ kept_order_count whole base two_kept.pairs)
    × (kept_order_count whole base two_kept.pairs
        ≤ kept_order_count whole candidate two_kept.pairs + 1)
measure_cell_lem_example = measure_cell_lem whole noisy 2 3 two_kept (omega arith) measure-noisy

abbrev actor_cell : CellName
actor_cell = record { consumers = 0; mode = "actor"; percent = 100 }

abbrev cancel_cell : CellName
cancel_cell = record { consumers = 0; mode = "tree-cancel"; percent = 100 }

exit_status-zero_example : (exit_status whole gate (λ n. noisy) [] (actor_cell ∷ []) ≡ 0) ↔ (
    (◌≡◌ {A = List String} [] [])
    × All (λ i. 2 ≤ length i.kept) (report_cell whole gate actor_cell two_kept ∷ []))
unfolding run_cells measure_cell
exit_status-zero_example =
    exit_status-zero whole gate (λ n. noisy) [] (actor_cell ∷ [])
      (report_cell whole gate actor_cell two_kept ∷ []) (omega arith) (refl, tt) refl

tree_cancel-exit_status_example : exit_status whole gate (λ n. noisier) [] (cancel_cell ∷ []) ≡ 0
tree_cancel-exit_status_example =
    tree_cancel-exit_status whole gate (λ n. noisier) cancel_cell one_kept (began base false) []
      refl measure-noisier refl refl (omega arith)
