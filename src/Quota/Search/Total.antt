-- ===== src/Quota/Search/Total.antt =====
-- tests/farm/quota_model.py, `explore`: the `while` loop ends within the rounds that it is given.
use antfarm.Prelude.{
  ℕ, ◌+◌, ◌≤◌, ◌≡◌, ◌≢◌, List, [], ◌∷◌, arith, All, length, length-append, Bool-cases, inl, inr, ap,
  subst,
}
use antfarm.Quota.Model.{Config, State, Move, Expansion, moves, violation, fits}
use antfarm.Quota.Explore.{
  expand, Report, counterexample, state_limit, bounded_pass, assertion_error, out_of_fuel, Search,
  offers, visit, loop, first, explore_within, explore, trace,
}
use antfarm.Quota.Explore
use antfarm.Quota.Search.Rules.{Holds, offer_rule, offers_rule, loop_rule}

abbrev Ends : Report → Type 0
Ends out_of_fuel = ⊥
Ends _ = Unit

-- `taken` keys have left `pending`, the others wait in it, and the keys keep to the limit.
record Room (c : Config) (taken : ℕ) (x : Search) : Type 0 where
  waiting : taken + length x.pending ≡ length x.predecessor
  limited : length x.predecessor ≤ c.state_limit + 1

abbrev Fuelled : Config → ℕ → Search → Type 0
Fuelled c n x = (taken : ℕ) × Room c taken x × (c.state_limit + 2 ≤ n + taken)

All-unit : (ms : List Move) → All (λ m. Unit {0}) ms
All-unit [] = tt
All-unit (m ∷ ms) = (tt, All-unit ms)

module _ (c : Config) where
  offers-Room :
      (taken : ℕ) (s : State) (x : Search) (ms : List Move)
      → Room c taken x
      → Holds (Room c taken) Ends (offers c s x ms)
  offers-Room taken s x ms h =
      offers_rule (Room c taken) Ends c (λ m. Unit {0}) s
        (λ y t a k u.
          offer_rule (Room c taken) Ends c s y t a
            (λ e. record { waiting = k.waiting; limited = k.limited }) (λ e f. tt)
            (λ e f. record {
              waiting = omega (arith, k.waiting, length-append y.pending (t ∷ []));
              limited = ground arith;
            }))
        x ms h (All-unit ms)

  visit-Room :
      (taken : ℕ) (s : State) (x : Search)
      → Room c taken x
      → Holds (Room c taken) Ends (visit c s x)
  unfolding visit
  visit-Room taken s x = go (expand c s)
    where
      go :
          (e : Expansion)
          → Room c taken x
          → Holds (Room c taken) Ends (elim e [
            | violation a ↦
                Explore.stopped
                  (counterexample (length x.predecessor) x.edges (trace x.predecessor s a))
            | moves ms ↦ offers c s x ms
          ])
      go (moves ms) h = offers-Room taken s x ms h
      go (violation a) h = tt

  Holds-map :
      {A : Search → Type 0} {B : Search → Type 0}
      → ((x : Search) → A x → B x)
      → (o : Explore.Outcome) → Holds A Ends o
      → Holds B Ends o
  Holds-map f (Explore.running y) h = f y h
  Holds-map f (Explore.stopped r) h = h

  loop-Ends : (fuel : ℕ) (x : Search) → Fuelled c fuel x → Ends (loop fuel c x)
  loop-Ends =
      loop_rule (Fuelled c) Ends c
        (λ n x s rest e (taken, room, enough).
          Holds-map (λ y r. (taken + 1, r, omega arith)) (visit c s (record x { pending = rest }))
            (visit-Room (taken + 1) s (record x { pending = rest })
              (record {
                waiting = omega (arith, room.waiting, ap length e);
                limited = room.limited;
              })))
        (λ n x e h. tt)
        (λ x (taken, room, enough). absurd (omega (arith, room.waiting, room.limited)))

-- The search ends: `explore` reports an outcome of the source for every argument.
pub explore-ne-out_of_fuel : (c : Config) → explore c ≢ out_of_fuel
unfolding explore explore_within
explore-ne-out_of_fuel c e = elim (Bool-cases (fits c)) [
  | inl fit ↦ subst Ends (rw fit at e) (
      loop-Ends c (c.state_limit + 2) (first c)
        (0, record { waiting = omega arith; limited = omega arith }, omega arith))
  | inr no_fit ↦ subst Ends (rw no_fit at e) tt
]
