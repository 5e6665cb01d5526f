-- ===== src/PerfGate/Campaign.antt =====
-- tools/perf/perf_gate.py, `main`: the attempts at one cell. A row is what `runone` returned.
use antfarm.Prelude.{
  ℕ, zero, suc, ◌+◌, ◌%◌, Bool, true, false, not, ◌&&◌, List, [], ◌∷◌, ◌++◌, Option, leb, ◌==◌,
  if◌then◌else◌, length,
}
use antfarm.PerfGate.Floats.{Floats}

pub data Version : Type 0 where
  base candidate : Version

module _ (N : Floats) where
  pub record Row : Type 0 where
    pub rate : N.F
    pub contaminated : Bool
    pub valid : Bool
    pub dispatched_fraction : Option N.F

  -- `pair`, with the version that ran first.
  pub record Pair : Type 0 where
    pub first : Version
    pub base_row : Row
    pub candidate_row : Row

  -- What a run in the attempt `repeat` gives, with so many pairs kept before it.
  abbrev pub Runs : Type 0
  Runs = ℕ → Version → ℕ → Row

  pub data Attempt : Type 0 where
    paired : Pair → Attempt
    invalid : Attempt

  -- An invalid row ends the whole gate, whichever version it is of.
  -- for version in (['base','candidate'] if len(pairs)%2==0 else ['candidate','base'])
  unfoldable pub attempt_pair : Runs → ℕ → ℕ → Attempt
  attempt_pair run repeat kept =
      let b = run repeat base kept in
      let c = run repeat candidate kept in
      let order = if (kept % 2) == 0 then base else candidate in
      if b.valid && c.valid
      then paired (record { first = order; base_row = b; candidate_row = c })
      else invalid

  -- all(not r['contaminated'] for r in pair.values())
  unfoldable pub is_clean : Pair → Bool
  is_clean p = not p.base_row.contaminated && not p.candidate_row.contaminated

  pub record Cell : Type 0 where
    pub pairs : List Pair
    pub attempts : List Pair

  pub data Measured : Type 0 where
    measured : Cell → Measured
    failed : Measured

  -- attempts.append(pair), and pairs.append(pair) if it is clean
  unfoldable pub record_pair : Cell → Pair → Cell
  unfolding is_clean
  record_pair s p = record {
    pairs = if is_clean p then s.pairs ++ p ∷ [] else s.pairs;
    attempts = s.attempts ++ p ∷ [];
  }

  -- for repeat in range(a.max_attempts): `left` attempts are left, the next one is `repeat`.
  unfoldable pub measure : Runs → ℕ → ℕ → ℕ → Cell → Measured
  unfolding attempt_pair record_pair
  measure run repeats repeat zero s = measured s
  measure run repeats repeat (suc left) s = elim (attempt_pair run repeat (length s.pairs)) [
    | invalid ↦ failed
    | paired p ↦
        let rest = measure run repeats (suc repeat) left (record_pair s p) in
        if leb repeats (length (record_pair s p).pairs) then measured (record_pair s p) else rest
  ]

  unfoldable pub measure_cell : Runs → ℕ → ℕ → Measured
  unfolding measure
  measure_cell run repeats max_attempts =
      measure run repeats 0 max_attempts (record { pairs = []; attempts = [] })

-- sum(next(iter(pair))==v for pair in pairs)
abbrev pub is_version : Version → Version → Bool
is_version base base = true
is_version candidate candidate = true
is_version _ _ = false

module _ (N : Floats) where
  unfoldable pub kept_order_count : Version → List (Pair N) → ℕ
  kept_order_count v [] = 0
  kept_order_count v (p ∷ ps) = (if is_version p.first v then 1 else 0) + kept_order_count v ps
