-- ===== src/Quota/Search/Strict.antt =====
-- tests/farm/quota_model.py, `explore(..., automatic=False)`: no counterexample.
use antfarm.Prelude.{
  ℕ, ◌+◌, ◌≡◌, ◌≢◌, List, [], ◌∷◌, All, All-append, length, false, Bool-cases, inl, inr, Option,
  subst,
}
use antfarm.Quota.Model.{Config, State, Action, Move, Expansion, moves, violation, fits}
use antfarm.Quota.Explore.{
  expand, Report, counterexample, state_limit, bounded_pass, assertion_error, out_of_fuel, Search,
  offers, visit, loop, first, explore_within, explore, trace,
}
use antfarm.Quota.Explore
use antfarm.Quota.Invariant.{Inv, Fits-fits}
use antfarm.Quota.Moves.{Keeps}
use antfarm.Quota.Safety.{expand-Keeps, Inv-start}
use antfarm.Quota.Search.Rules.{Holds, offer_rule, offers_rule, loop_rule}

-- A report other than a counterexample.
abbrev IsClean : Report → Type 0
IsClean (counterexample n e t) = ⊥
IsClean _ = Unit

module _ (P : State → Type 0) (c : Config) where
  abbrev Pending : Search → Type 0
  Pending x = All P x.pending

  offers-Pending :
      (s : State) (x : Search) (ms : List Move)
      → All P x.pending
      → All (λ m. P m.0) ms
      → Holds Pending IsClean (offers c s x ms)
  offers-Pending s =
      offers_rule Pending IsClean c (λ m. P m.0) s
        λ x t a h k.
          offer_rule Pending IsClean c s x t a (λ e. h) (λ e f. tt)
            (λ e f. All-append P x.pending (t ∷ []) h (k, tt))

  visit-Pending :
      (s : State) (x : Search)
      → Keeps P (expand c s)
      → All P x.pending
      → Holds Pending IsClean (visit c s x)
  unfolding visit
  visit-Pending s x = go (expand c s)
    where
      go :
          (e : Expansion)
          → Keeps P e
          → All P x.pending
          → Holds Pending IsClean (elim e [
            | violation a ↦
                Explore.stopped
                  (counterexample (length x.predecessor) x.edges (trace x.predecessor s a))
            | moves ms ↦ offers c s x ms
          ])
      go (moves ms) k h = offers-Pending s x ms h k
      go (violation a) k h = elim k [ ]

  loop-IsClean :
      ((s : State) → P s → Keeps P (expand c s))
      → (fuel : ℕ) (x : Search) → All P x.pending
      → IsClean (loop fuel c x)
  loop-IsClean keep =
      loop_rule (λ n. Pending) IsClean c
        (λ n x s rest e h.
          let hs = subst (All P) e h in
          visit-Pending s (record x { pending = rest }) (keep s hs.0) hs.1)
        (λ n x e h. tt) (λ x h. tt)

explore_within-IsClean :
    (fuel : ℕ) (c : Config) → c.automatic ≡ false → IsClean (explore_within fuel c)
unfolding explore_within
explore_within-IsClean fuel c strict = elim (Bool-cases (fits c)) [
  | inr no_fit ↦ rw no_fit tt
  | inl fit ↦ rw fit (
      loop-IsClean (Inv c) c (λ s v. expand-Keeps c (Fits-fits c fit) s v strict) fuel (first c)
        (Inv-start c (Fits-fits c fit), tt))
]

-- With single-use grants the search reports a counterexample for no ring, no quotas, no number of
-- laps and no limit on states: whatever `k`, `cap` and `quotas` are.
pub explore_strict :
    (c : Config) (states edges : ℕ) (trace : Option (List Action))
    → c.automatic ≡ false
    → explore c ≢ counterexample states edges trace
unfolding explore
explore_strict c states edges trace strict e =
    subst IsClean e (explore_within-IsClean (c.state_limit + 2) c strict)
