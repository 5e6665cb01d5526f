-- ===== src/PerfGate/Floats.antt =====
-- The floating-point numbers and statistics of tools/perf/perf_gate.py, as far as the report uses
-- them. No law of floats is assumed.
use antfarm.Prelude.{Bool, List}

pub record Floats : Type 1 where
  pub F : Type 0
  pub zero_f : F
  pub one_f : F
  pub lt : F → F → Bool
  pub sub : F → F → F
  pub div : F → F → F
  pub abs : F → F
  pub twice : F → F
  pub half : F → F
  -- statistics.median, min and max of a list that is not empty
  pub median : List F → F
  pub least : List F → F
  pub greatest : List F → F
  -- boot_ci: the two ends of the bootstrap interval
  pub boot_low : List F → F
  pub boot_high : List F → F
