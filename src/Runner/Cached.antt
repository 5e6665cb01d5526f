-- ===== src/Runner/Cached.antt =====
-- tools/perf/run_performance_md.py: what `measure_cell` records, and when the next invocation uses it
-- again.
use antfarm.Prelude.{
  ℕ, zero, suc, ◌≤◌, ◌≡◌, ◌↔◌, ◌∙◌, refl, ap, sym, Bool, true, false, ◌&&◌, not, List, [], ◌∷◌,
  ◌++◌, Option, none, some, String, ltb, leb, if◌then◌else◌, length, arith,
}
use antfarm.Runner.Select.{Parser, requested_runs}
use antfarm.Runner.Texts.{command_eq_refl, folder_eq_refl, env_eq_refl}
use antfarm.Runner.Measure.{
  Frozen, cell_parser, Parsed, Run, Entry, Row, parsed_of, metric_of, valid_of, samples, values_of,
  row_of, measure_cell, is_outdated, cell_is_cached,
}

module _ {ℓ} {V : Type ℓ} where
  abbrev shown : Option V → List V
  shown none = []
  shown (some v) = v ∷ []

  -- The metrics that the entries of a row show.
  abbrev pub metrics : List (Entry V) → List V
  metrics [] = []
  metrics (e ∷ es) = shown e.metric ++ metrics es

  metrics-samples :
      (run : ℕ → Run V) (i n : ℕ)
      → values_of (samples run i n).valid ≡ metrics (samples run i n).entries
  unfolding samples
  metrics-samples run i zero = refl
  metrics-samples run i (suc n) = go (parsed_of (run i)) (metrics-samples run (suc i) n)
    where
      go :
          (p : Option (Parsed V))
          → values_of (samples run (suc i) n).valid ≡ metrics (samples run (suc i) n).entries
          → values_of (valid_of p ++ (samples run (suc i) n).valid)
            ≡ metrics
                (record { rc = (run i).rc; metric = metric_of p } ∷ (samples run (suc i) n).entries)
      go none h = h
      go (some p) h = kept p.metric
        where
          kept :
              (m : Option V)
              → values_of
                  (elim m [ none ↦ [] | some v ↦ (p, v) ∷ [] ] ++ (samples run (suc i) n).valid)
                ≡ shown m ++ metrics (samples run (suc i) n).entries
          kept none = h
          kept (some v) = ap (λ vs. v ∷ vs) h

  length-samples : (run : ℕ → Run V) (i n : ℕ) → length (samples run i n).entries ≡ n
  unfolding samples
  length-samples run i zero = refl
  length-samples run i (suc n) = omega (arith, length-samples run (suc i) n)

  length-values_of : (xs : List (Parsed V × V)) → length (values_of xs) ≡ length xs
  length-values_of [] = refl
  length-values_of (x ∷ xs) = omega (arith, length-values_of xs)

  length-metrics : (es : List (Entry V)) → length (metrics es) ≤ length es
  length-metrics [] = omega arith
  length-metrics (e ∷ es) = go e.metric (length-metrics es)
    where
      go :
          (m : Option V)
          → length (metrics es) ≤ length es
          → length (shown m ++ metrics es) ≤ suc (length es)
      go none h = omega arith
      go (some v) h = omega arith

  module _ (runs : ℕ) (minimum : Option ℕ) (run : Parser → ℕ → Run V) (section : String)
      (f : Frozen) (p : Parser) (k : ℕ) (is_parsed : cell_parser f ≡ some p)
      (is_requested : requested_runs runs minimum f.case.cmd ≡ some k) where
    abbrev measured : Row V
    measured = row_of section f.case k (samples (run p) 0 k)

    measure_cell-eq : measure_cell runs minimum run section f ≡ some measured
    unfolding measure_cell samples
    measure_cell-eq = rw (is_parsed, is_requested, measure_cell) refl

    valid_runs-metrics : measured.valid_runs ≡ length (metrics measured.runs)
    valid_runs-metrics =
        sym (length-values_of (samples (run p) 0 k).valid) ∙ ap length (metrics-samples (run p) 0 k)

    valid_runs-bound : measured.valid_runs ≤ k
    valid_runs-bound =
        omega (arith, valid_runs-metrics, length-metrics measured.runs, length-samples (run p) 0 k)

    -- Measuring a cell that has a parser and asks for `k` runs makes a row of `k` entries, whose values
    -- are the metrics that the entries show, in their order; the row is ok exactly when every run has
    -- a metric.
    pub measure_cell-requested_runs :
        (row : Row V) × (measure_cell runs minimum run section f ≡ some row)
        × (length row.runs ≡ k)
        × (row.values ≡ metrics row.runs)
        × (row.valid_runs ≡ length row.values)
        × (row.valid_runs ≤ k)
        × ((row.is_ok ≡ true) ↔ (row.valid_runs ≡ k))
    measure_cell-requested_runs = (
      measured,
      measure_cell-eq,
      length-samples (run p) 0 k,
      metrics-samples (run p) 0 k,
      sym (length-values_of (samples (run p) 0 k).valid),
      valid_runs-bound,
      all_valid k measured.valid_runs valid_runs-bound,
    )
      where
        all_valid : (k v : ℕ) → v ≤ k → (leb k v ≡ true) ↔ (v ≡ k)
        all_valid k v h = ground arith

    measured-cached :
        cell_is_cached (some measured) f k ≡ (measured.is_ok && not (is_outdated f.case measured))
    unfolding cell_is_cached
    measured-cached =
        rw (command_eq_refl f.case.cmd, folder_eq_refl f.case.in_ant_fibers, env_eq_refl f.case.env)
          (reused k (length (samples (run p) 0 k).valid) _ (is_outdated f.case measured)
            (length-values_of (samples (run p) 0 k).valid))
      where
        reused :
            (k n len : ℕ) (old : Bool)
            → len ≡ n
            → (if not (leb k n)
                then false
                else if ltb len k
                then false
                else if old
                then false
                else true)
              ≡ (leb k n && not old)
        reused k n len old h = ground arith

    -- The row that measuring a cell makes, which has a parser and asks for `k` runs, is used again for
    -- the same cell and `k` runs exactly when it is ok and is not of the Fiber cell whose metric was
    -- another one.
    pub measure_cell-cell_is_cached :
        (row : Row V) × (measure_cell runs minimum run section f ≡ some row)
        × (cell_is_cached (some row) f k ≡ (row.is_ok && not (is_outdated f.case row)))
    measure_cell-cell_is_cached = (measured, measure_cell-eq, measured-cached)
