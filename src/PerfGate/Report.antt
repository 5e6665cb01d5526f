-- ===== src/PerfGate/Report.antt =====
-- tools/perf/perf_gate.py, `main`: the classification of a cell, the flag and the exit status.
use text.Mathlib.Text.{◌==◌ as str_eq}
use antfarm.Prelude.{
  ℕ, Bool, true, false, not, ◌&&◌, ◌||◌, List, [], ◌∷◌, ◌++◌, Option, none, some, ltb,
  if◌then◌else◌, length, String, map,
}
use antfarm.PerfGate.Floats.{Floats}
use antfarm.PerfGate.Campaign.{Pair, Cell, Runs, measured, failed, measure_cell}

pub data Decision : Type 0 where
  insufficient regression pass inconclusive inconclusive_work : Decision

abbrev pub is_insufficient : Decision → Bool
is_insufficient insufficient = true
is_insufficient _ = false

abbrev pub is_pass : Decision → Bool
is_pass pass = true
is_pass _ = false

pub record CellName : Type 0 where
  pub consumers : ℕ
  pub mode : String
  pub percent : ℕ

module _ {ℓ} {A : Type ℓ} where
  -- The loops over modes and percentages inside that over profiles.
  abbrev concat : List (List A) → List A
  concat [] = []
  concat (xs ∷ xss) = xs ++ concat xss

-- for consumers in profiles: for mode in modes: for percent in ...
unfoldable pub cell_names : List ℕ → List String → List ℕ → List CellName
cell_names profiles modes percents = concat (
    map
      (λ c. concat (
        map
          (λ m.
            map (λ p. record { consumers = c; mode = m; percent = p })
              (if str_eq m "subset" then percents else 100 ∷ []))
          modes))
      profiles)

module _ (N : Floats) where
  pub record Gate : Type 0 where
    pub repeats : ℕ
    pub max_attempts : ℕ
    pub threshold : N.F
    pub cancel_fraction_tolerance : N.F

  -- [c/b-1 for b,c in zip(bs,cs)]
  unfoldable pub paired_ratios : List (Pair N) → List N.F
  paired_ratios [] = []
  paired_ratios (p ∷ ps) =
      N.sub (N.div p.candidate_row.rate p.base_row.rate) N.one_f ∷ paired_ratios ps

  unfoldable pub classify : Gate → List (Pair N) → Decision
  unfolding paired_ratios
  classify g [] = insufficient
  classify g (p ∷ ps) =
      let ratios = paired_ratios (p ∷ ps) in
      if ltb (length (p ∷ ps)) g.repeats
      then insufficient
      else if N.lt (N.boot_high ratios) g.threshold
      then regression
      else if N.lt g.threshold (N.boot_low ratios)
      then pass
      else inconclusive

  -- [float(x['fields']['dispatched_fraction']) for x in rows]; `none` stands for the exception.
  unfoldable pub fractions : List (Option N.F) → Option (List N.F)
  fractions [] = some []
  fractions (none ∷ xs) = none
  fractions (some x ∷ xs) = elim (fractions xs) [ none ↦ none | some r ↦ some (x ∷ r) ]

  -- all(0<=x<=1 for x in xs)
  unfoldable pub all_in_unit : List N.F → Bool
  all_in_unit [] = true
  all_in_unit (x ∷ xs) = not (N.lt x N.zero_f) && not (N.lt N.one_f x) && all_in_unit xs

  -- The decision after the `try` block of a tree-cancel cell with pairs.
  unfoldable pub check_fractions : Gate → List (Pair N) → Decision → Decision
  unfolding fractions all_in_unit
  check_fractions g ps d = elim (fractions (map (λ p. p.base_row.dispatched_fraction) ps)) [
    | none ↦ inconclusive_work
    | some bf ↦ elim (fractions (map (λ p. p.candidate_row.dispatched_fraction) ps)) [
      | none ↦ inconclusive_work
      | some cf ↦
          if all_in_unit (bf ++ cf)
          then if N.lt g.cancel_fraction_tolerance (N.abs (N.sub (N.median cf) (N.median bf)))
            then inconclusive_work
            else d
          else inconclusive_work
    ]
  ]

  -- if mode=='tree-cancel' and pairs
  unfoldable pub cell_decision : Gate → String → List (Pair N) → Decision
  unfolding classify check_fractions
  cell_decision g mode [] = classify g []
  cell_decision g mode (p ∷ ps) =
      if str_eq mode "tree-cancel"
      then check_fractions g (p ∷ ps) (classify g (p ∷ ps))
      else classify g (p ∷ ps)

  -- item['flagged']; a cell with no pair has neither span nor median.
  unfoldable pub is_flagged : Gate → List (Pair N) → Decision → Bool
  unfolding paired_ratios
  is_flagged g [] d = not (is_pass d)
  is_flagged g (p ∷ ps) d =
      let ratios = paired_ratios (p ∷ ps) in
      not (is_pass d)
      || N.lt (N.twice (N.abs g.threshold)) (N.sub (N.greatest ratios) (N.least ratios))
      || N.lt (N.median ratios) (N.half g.threshold)

  pub record Item : Type 0 where
    pub cell : CellName
    pub kept : List (Pair N)
    pub tried : List (Pair N)
    pub decision : Decision
    pub flagged : Bool

  unfoldable pub report_cell : Gate → CellName → Cell N → Item
  unfolding cell_decision is_flagged
  report_cell g n s =
      let d = cell_decision g n.mode s.pairs in
      record {
        cell = n;
        kept = s.pairs;
        tried = s.attempts;
        decision = d;
        flagged = is_flagged g s.pairs d;
      }

  -- `runs` gives the rows of each cell; `none` is the early return of an invalid row.
  unfoldable pub run_cells : Gate → (CellName → Runs N) → List CellName → Option (List Item)
  run_cells g runs [] = some []
  run_cells g runs (n ∷ ns) = elim (measure_cell N (runs n) g.repeats g.max_attempts) [
    | failed ↦ none
    | measured s ↦ elim (run_cells g runs ns) [
      | none ↦ none
      | some is ↦ some (report_cell g n s ∷ is)
    ]
  ]

  -- any(x['decision']=='insufficient' for x in summary)
  unfoldable pub some_insufficient : List Item → Bool
  some_insufficient [] = false
  some_insufficient (i ∷ is) = is_insufficient i.decision || some_insufficient is

  -- The exit status of a report: `none` is the early return, `missing` the modes that a build lacks.
  unfoldable pub exit_of : List String → Option (List Item) → ℕ
  unfolding some_insufficient
  exit_of missing none = 2
  exit_of [] (some is) = if some_insufficient is then 2 else 0
  exit_of (m ∷ ms) (some is) = 2

  unfoldable pub exit_status : Gate → (CellName → Runs N) → List String → List CellName → ℕ
  exit_status g runs missing ns = exit_of missing (run_cells g runs ns)
