-- ===== src/Quota/Search/Tests.antt =====
-- Runs of tests/farm/quota_model.py, and its properties at them.
use antfarm.Prelude.{◌+◌, ◌/◌, ◌≤◌, ◌<◌, ◌≡◌, ◌≢◌, refl, true, false, List, [], ◌∷◌, some, inl}
use antfarm.Quota.Model.{
  Config, State, Action, Move, probe, scan_zero, grant, reserve, enters_pinned, moves, start, idles,
  sum,
}
use antfarm.Quota.Explore.{expand, explore, counterexample, bounded_pass, out_of_fuel}
use antfarm.Quota.Search.Strict.{explore_strict}
use antfarm.Quota.Search.Total.{explore-ne-out_of_fuel}
use antfarm.Quota.Search.Complete.{bounded_pass_complete, Reach, here, next}
use antfarm.Quota.Search.Trace.{counterexample_trace, Fails}
use antfarm.Quota.Search.Reachable.{reachable_strict}

-- (2, 2, (1, 1)) of `main`, over one lap
abbrev small : Config
small = record {
  k = 2;
  cap = 2;
  quotas = 1 ∷ 1 ∷ [];
  laps = 1;
  automatic = false;
  state_limit = 100000;
}

-- The negative control of `main`.
abbrev control : Config
control = record {
  k = 4;
  cap = 2;
  quotas = 1 ∷ 1 ∷ [];
  laps = 2;
  automatic = true;
  state_limit = 100000;
}

abbrev control_trace : List Action
control_trace =
    probe 0 0
    ∷ scan_zero 1 1
    ∷ grant 1 1
    ∷ reserve 1 0 1
    ∷ reserve 1 1 2
    ∷ reserve 1 2 3
    ∷ reserve 1 3 4
    ∷ reserve 1 4 5
    ∷ reserve 1 5 6
    ∷ reserve 1 6 7
    ∷ enters_pinned 1 7 8 4 0 0
    ∷ []

small_passes : explore small ≡ bounded_pass 283 688 4
unfolding explore
small_passes = refl

control_fails : explore control ≡ counterexample 298 660 (some control_trace)
unfolding explore
control_fails = refl

explore_strict_example : explore small ≢ counterexample 298 660 (some control_trace)
explore_strict_example = explore_strict small 298 660 (some control_trace) refl

explore-ne-out_of_fuel_example : explore control ≢ out_of_fuel
explore-ne-out_of_fuel_example = explore-ne-out_of_fuel control

bounded_pass_complete_example : (ms : List Move) × (expand small (start small) ≡ moves ms)
bounded_pass_complete_example =
    bounded_pass_complete small 283 688 4 small_passes (start small) here

counterexample_trace_example :
    (acts : List Action) × (some control_trace ≡ some acts) × Fails control (start control) acts
counterexample_trace_example =
    counterexample_trace control 298 660 (some control_trace) control_fails

-- The first probe.
abbrev probed : State
probed = record {
  wt = 0;
  oldest = 0;
  newest = 0;
  producers =
      record { balance = 0; anchor = 0; step = 0 }
      ∷ record { balance = 0; anchor = 0; step = 1 }
      ∷ [];
}

Reach-probed : Reach small probed
unfolding expand idles
Reach-probed = next {a = probe 0 0} here (_, refl, inl refl)

reachable_strict_example :
    ((ms : List Move) × (expand small probed ≡ moves ms))
    × (probed.oldest ≤ probed.newest)
    × (probed.newest ≤ probed.wt / small.cap)
    × (probed.wt / small.cap < probed.oldest + small.k)
unfolding sum
reachable_strict_example = reachable_strict small probed refl refl Reach-probed
