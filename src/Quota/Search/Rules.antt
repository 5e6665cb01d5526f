-- ===== src/Quota/Search/Rules.antt =====
-- Induction rules for the loops of the search: `P` of the search at each round, `Q` of the report.
use antfarm.Prelude.{
  ℕ, zero, suc, ◌+◌, ◌≡◌, List, [], ◌∷◌, ◌++◌, All, length, some, leb, true, false, Bool-cases,
  List-cases, inl, inr,
}
use antfarm.Quota.Model.{Config, State, Action, Move, max_wt}
use antfarm.Quota.Explore.{
  known, Report, state_limit, bounded_pass, out_of_fuel, Search, Outcome, running, stopped, offer,
  offers, visit, loop,
}

abbrev pub Holds {ℓ} : (Search → Type ℓ) → (Report → Type ℓ) → Outcome → Type ℓ
Holds P Q (running y) = P y
Holds P Q (stopped r) = Q r

-- The search after the new state `t` is entered.
abbrev pub entered_search : State → Search → State → Action → Search
entered_search s x t a = record {
  predecessor = (t, some (s, a)) ∷ x.predecessor;
  pending = x.pending ++ t ∷ [];
  edges = x.edges + 1;
}

module _ {ℓ} (P : Search → Type ℓ) (Q : Report → Type ℓ) (c : Config) where
  pub offer_rule :
      (s : State) (x : Search) (t : State) (a : Action)
      → (known t x.predecessor ≡ true → P (record x { edges = x.edges + 1 }))
      → (known t x.predecessor ≡ false
          → leb c.state_limit (suc (length x.predecessor)) ≡ true
          → Q (state_limit (suc (length x.predecessor)) (x.edges + 1)))
      → (known t x.predecessor ≡ false
          → leb c.state_limit (suc (length x.predecessor)) ≡ false
          → P (entered_search s x t a))
      → Holds P Q (offer c s x (t, a))
  unfolding offer
  offer_rule s x t a old full new = elim (Bool-cases (known t x.predecessor)) [
    | inl e ↦ rw (e, Holds) (old e)
    | inr e ↦ elim (Bool-cases (leb c.state_limit (suc (length x.predecessor)))) [
      | inl f ↦ rw (e, f, Holds) (full e f)
      | inr f ↦ rw (e, f, Holds) (new e f)
    ]
  ]

  pub offers_rule {κ} :
      (R : Move → Type κ) (s : State)
      → ((x : Search) (t : State) (a : Action) → P x → R (t, a) → Holds P Q (offer c s x (t, a)))
      → (x : Search) (ms : List Move) → P x
      → All R ms
      → Holds P Q (offers c s x ms)
  unfolding offers
  offers_rule R s step x [] h rs = h
  offers_rule R s step x ((t, a) ∷ ms) h rs =
      go (offer c s x (t, a)) (step x t a h rs.0) (λ y k. offers_rule R s step y ms k rs.1)
    where
      go :
          (o : Outcome)
          → Holds P Q o
          → ((y : Search) → P y → Holds P Q (offers c s y ms))
          → Holds P Q (elim o [ running y ↦ offers c s y ms | stopped r ↦ stopped r ])
      go (running y) h k = k y h
      go (stopped r) h k = h

-- `P` may name the rounds left.
module _ {ℓ} (P : ℕ → Search → Type ℓ) (Q : Report → Type ℓ) (c : Config) where
  pub loop_rule :
      ((n : ℕ) (x : Search) (s : State) (rest : List State)
        → x.pending ≡ s ∷ rest
        → P (suc n) x
        → Holds (P n) Q (visit c s (record x { pending = rest })))
      → ((n : ℕ) (x : Search)
          → x.pending ≡ []
          → P (suc n) x
          → Q (bounded_pass (length x.predecessor) x.edges (max_wt c)))
      → ((x : Search) → P zero x → Q out_of_fuel)
      → (fuel : ℕ) (x : Search) → P fuel x
      → Q (loop fuel c x)
  unfolding loop
  loop_rule step done out zero x h = out x h
  loop_rule step done out (suc fuel) x h = elim (List-cases x.pending) [
    | inl e ↦ rw (e, loop) (done fuel x e h)
    | inr (s, rest, e) ↦
        rw (e, loop)
          (go (visit c s (record x { pending = rest })) (step fuel x s rest e h)
            (λ y k. loop_rule step done out fuel y k))
  ]
    where
      go :
          (o : Outcome)
          → Holds (P fuel) Q o
          → ((y : Search) → P fuel y → Q (loop fuel c y))
          → Q (elim o [ running y ↦ loop fuel c y | stopped r ↦ r ])
      go (running y) h k = k y h
      go (stopped r) h k = h
