-- ===== src/PerfGate/Laws/Exit.antt =====
-- The exit status of tools/perf/perf_gate.py against the pairs that were kept.
use text.Mathlib.Text.{◌==◌ as str_eq}
use antfarm.Prelude.{
  ◌≤◌, ◌<◌, ◌≡◌, ◌↔◌, inl, inr, refl, Bool, true, false, ◌||◌, List, [], ◌∷◌, Option, none, some,
  arith, length, Bool-cases, subst, All, String,
}
use antfarm.PerfGate.Floats.{Floats}
use antfarm.PerfGate.Campaign.{Pair, Cell, Runs, Measured, measured, failed, measure_cell}
use antfarm.PerfGate.Report.{
  Decision, inconclusive_work, is_insufficient, CellName, Gate, classify, check_fractions,
  cell_decision, Item, report_cell, run_cells, some_insufficient, exit_status, exit_of,
}

module _ (N : Floats) (g : Gate N) where
  classify-insufficient :
      (ps : List (Pair N))
      → 0 < g.repeats
      → (is_insufficient (classify N g ps) ≡ false) ↔ (g.repeats ≤ length ps)
  unfolding classify
  classify-insufficient [] pos = (λ h. cc, λ h. absurd (omega arith))
  classify-insufficient (p ∷ ps) pos = (λ h. ground arith, λ h. ground arith)

  cell_decision-other :
      (mode : String) (ps : List (Pair N))
      → str_eq mode "tree-cancel" ≡ false
      → cell_decision N g mode ps ≡ classify N g ps
  unfolding cell_decision
  cell_decision-other mode [] e = refl
  cell_decision-other mode (p ∷ ps) e = rw e

  -- Every cell of another mode than tree-cancel.
  abbrev OtherModes : List CellName → Type 0
  OtherModes ns = All (λ n. str_eq n.mode "tree-cancel" ≡ false) ns

  abbrev AllKept : List (Item N) → Type 0
  AllKept is = All (λ i. g.repeats ≤ length i.kept) is

  abbrev Sufficient : Option (List (Item N)) → Type 0
  Sufficient none = Unit
  Sufficient (some is) = (some_insufficient N is ≡ false) ↔ AllKept is

  or_false_iff :
      {A B : Type 0} (a b : Bool) → (a ≡ false) ↔ A → (b ≡ false) ↔ B → ((a || b) ≡ false) ↔ (A × B)
  or_false_iff true b f h = (λ e. cc, λ p. cc (f.1 p.0))
  or_false_iff false b f h = (λ e. (f.0 refl, h.0 e), λ p. h.1 p.1)

  report_cell-sufficient :
      (n : CellName) (s : Cell N)
      → 0 < g.repeats
      → str_eq n.mode "tree-cancel" ≡ false
      → (is_insufficient (report_cell N g n s).decision ≡ false)
        ↔ (g.repeats ≤ length (report_cell N g n s).kept)
  unfolding report_cell
  report_cell-sufficient n s pos other =
      rw (cell_decision-other n.mode s.pairs other) (classify-insufficient s.pairs pos)

  run_cells-Sufficient :
      (runs : CellName → Runs N) (ns : List CellName)
      → 0 < g.repeats
      → OtherModes ns
      → Sufficient (run_cells N g runs ns)
  unfolding run_cells some_insufficient
  run_cells-Sufficient runs [] pos other = (λ e. tt, λ h. refl)
  run_cells-Sufficient runs (n ∷ ns) pos other =
      go (measure_cell N (runs n) g.repeats g.max_attempts) (run_cells N g runs ns)
        (run_cells-Sufficient runs ns pos other.1)
    where
      go :
          (m : Measured N) (rest : Option (List (Item N)))
          → Sufficient rest
          → Sufficient (elim m [
            | failed ↦ none
            | measured s ↦ elim rest [ none ↦ none | some is ↦ some (report_cell N g n s ∷ is) ]
          ])
      go failed rest h = tt
      go (measured s) none h = tt
      go (measured s) (some is) h =
          or_false_iff (is_insufficient (report_cell N g n s).decision) (some_insufficient N is)
            (report_cell-sufficient n s pos other.0) h

exit_of-zero :
    (N : Floats) (g : Gate N) (missing : List String) (is : List (Item N))
    → (some_insufficient N is ≡ false) ↔ AllKept N g is
    → (exit_of N missing (some is) ≡ 0) ↔ ((missing ≡ []) × AllKept N g is)
unfolding exit_of
exit_of-zero N g (m ∷ ms) is enough = (λ h. absurd (omega arith), λ h. cc h.0)
exit_of-zero N g [] is enough = elim (Bool-cases (some_insufficient N is)) [
  | inl lack ↦ rw lack (λ h. absurd (omega arith), λ h. cc (enough.1 h.1))
  | inr full ↦ rw full (λ h. (refl, enough.0 full), λ h. refl)
]

-- Without a tree-cancel cell the exit status is 0 exactly when no build lacks a mode and every cell
-- kept as many clean pairs as were asked for.
pub exit_status-zero :
    (N : Floats) (g : Gate N) (runs : CellName → Runs N) (missing : List String)
    (ns : List CellName) (is : List (Item N))
    → 0 < g.repeats
    → All (λ n. str_eq n.mode "tree-cancel" ≡ false) ns
    → run_cells N g runs ns ≡ some is
    → (exit_status N g runs missing ns ≡ 0)
      ↔ ((missing ≡ []) × All (λ i. g.repeats ≤ length i.kept) is)
unfolding exit_status
exit_status-zero N g runs missing ns is pos other e = rw e (
    exit_of-zero N g missing is
      (subst (Sufficient N g) e (run_cells-Sufficient N g runs ns pos other)))

check_fractions_missing :
    (N : Floats) (g : Gate N) (p : Pair N) (ps : List (Pair N)) (d : Decision)
    → p.base_row.dispatched_fraction ≡ none
    → check_fractions N g (p ∷ ps) d ≡ inconclusive_work
unfolding check_fractions
check_fractions_missing N g p ps d h = rw h

run_cells_one :
    (N : Floats) (g : Gate N) (runs : CellName → Runs N) (n : CellName) (s : Cell N)
    → measure_cell N (runs n) g.repeats g.max_attempts ≡ measured s
    → run_cells N g runs (n ∷ []) ≡ some (report_cell N g n s ∷ [])
unfolding run_cells
run_cells_one N g runs n s ran = rw (ran, run_cells)

-- A tree-cancel cell hides a lack of pairs: with a kept pair, the first, whose base row has no
-- dispatched fraction, the exit status is 0 however few of the pairs asked for were kept.
pub tree_cancel-exit_status :
    (N : Floats) (g : Gate N) (runs : CellName → Runs N) (n : CellName) (s : Cell N) (p : Pair N)
    (ps : List (Pair N))
    → str_eq n.mode "tree-cancel" ≡ true
    → measure_cell N (runs n) g.repeats g.max_attempts ≡ measured s
    → s.pairs ≡ p ∷ ps
    → p.base_row.dispatched_fraction ≡ none
    → length s.pairs < g.repeats
    → exit_status N g runs [] (n ∷ []) ≡ 0
unfolding exit_status
tree_cancel-exit_status N g runs n s p ps tree ran kept unknown few =
    rw (run_cells_one N g runs n s ran) (unfold exit_of some_insufficient report_cell in rw decided)
  where
    decided : cell_decision N g n.mode s.pairs ≡ inconclusive_work
    decided = rw kept (
        unfold cell_decision in
        rw tree (check_fractions_missing N g p ps (classify N g (p ∷ ps)) unknown))
