-- ===== src/Sweep/Noise.antt =====
-- tools/perf/offccd_sweep.py: `stats` and `select_topup`.
use antfarm.Prelude.{
  ℕ, Bool, false, ◌&&◌, ◌||◌, not, List, [], ◌∷◌, Option, none, some, leb, ltb, if◌then◌else◌,
  length,
}
use antfarm.Text.{Line}
use antfarm.Sweep.Groups.{Row, Group, group_cells}

-- The floats that the statistics use, and `statistics.median`, `stdev` and `fmean`; the lists they
-- are given are not empty, and `stdev` has two numbers at least.
pub record Numbers : Type 1 where
  pub F : Type 0
  pub zero_f : F
  pub is_nan : F → Bool
  pub is_zero : F → Bool
  pub lt : F → F → Bool
  pub sub : F → F → F
  pub div : F → F → F
  pub least : List F → F
  pub greatest : List F → F
  pub median : List F → F
  pub stdev : List F → F
  pub fmean : List F → F

module _ (o : Numbers) where
  pub record Stats : Type 0 where
    pub median : o.F
    pub min : o.F
    pub max : o.F
    pub stddev : o.F
    pub cv : o.F
    pub n : ℕ

  -- [x for x in xs if x is not None and not math.isnan(x)]
  unfoldable pub valid : List (Option o.F) → List o.F
  valid [] = []
  valid (none ∷ xs) = valid xs
  valid (some x ∷ xs) = if o.is_nan x then valid xs else x ∷ valid xs

  abbrev deviation : List o.F → o.F
  deviation xs = if ltb 1 (length xs) then o.stdev xs else o.zero_f

  abbrev variation : List o.F → o.F
  variation xs = if o.is_zero (o.fmean xs) then o.zero_f else o.div (deviation xs) (o.fmean xs)

  abbrev stats_of : List o.F → Option Stats
  stats_of [] = none
  stats_of (x ∷ xs) = some (record {
    median = o.median (x ∷ xs);
    min = o.least (x ∷ xs);
    max = o.greatest (x ∷ xs);
    stddev = deviation (x ∷ xs);
    cv = variation (x ∷ xs);
    n = length (x ∷ xs);
  })

  unfoldable pub stats : List (Option o.F) → Option Stats
  unfolding valid
  stats xs = stats_of (valid xs)

  module _ {M : Type 0} (rate : M → Option o.F) (cv_threshold range_threshold : o.F) where
    abbrev rates : List M → List (Option o.F)
    rates [] = []
    rates (m ∷ ms) = rate m ∷ rates ms

    abbrev exceeds : Option Stats → Bool
    exceeds none = false
    exceeds (some s) =
        leb 2 s.n
        && not (o.is_zero s.median)
        && (o.lt cv_threshold s.cv || o.lt range_threshold (o.div (o.sub s.max s.min) s.median))

    unfoldable pub noisy_in : List (Group M) → List Line
    unfolding stats
    noisy_in [] = []
    noisy_in (g ∷ groups) =
        if exceeds (stats (rates g.runs)) then g.id ∷ noisy_in groups else noisy_in groups

    -- The set of the noisy cells is a list of its elements.
    unfoldable pub select_topup : List (Row M) → List Line
    unfolding noisy_in group_cells
    select_topup rows = noisy_in (group_cells rows)
