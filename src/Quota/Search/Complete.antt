-- ===== src/Quota/Search/Complete.antt =====
-- tests/farm/quota_model.py, `explore`: a bounded pass has seen every state that can be reached.
use antfarm.Prelude.{
  ℕ, ◌+◌, ◌≡◌, ◌⊎◌, inl, inr, refl, List, [], ◌∷◌, All, In, In-append, All-In, In-All, length, true,
  Bool-cases, subst, sym, none, some,
}
use antfarm.Quota.Model.{Config, State, Action, Move, Expansion, moves, violation, fits, start}
use antfarm.Quota.Explore
use antfarm.Quota.Explore.{
  expand, Report, counterexample, state_limit, bounded_pass, Search, known, Outcome, offer, offers,
  visit, loop, first, explore_within, explore, trace, lookup,
}
use antfarm.Quota.Search.Rules.{Holds, entered_search, offer_rule, loop_rule}
use antfarm.Quota.Search.Dict.{known_new, known_later, known-cons_cases}

-- One move of the model.
abbrev pub Edge : Config → State → Action → State → Type 0
Edge c s a t = (ms : List Move) × (expand c s ≡ moves ms) × In (t, a) ms

pub data Reach (c : Config) : State → Type 0 where
  here : Reach c (start c)
  next : {s t : State} {a : Action} → Reach c s → Edge c s a t → Reach c t

-- `y` has the keys of `x`, and further ones that wait in `pending`.
record Grows (x y : Search) : Type 0 where
  keys : (u : State) → known u x.predecessor ≡ true → known u y.predecessor ≡ true
  fresh :
      (u : State) → known u y.predecessor ≡ true → (known u x.predecessor ≡ true) ⊎ In u y.pending
  queue : (u : State) → In u x.pending → In u y.pending

Grows-refl : (x : Search) → Grows x x
Grows-refl x = record { keys = λ u h. h; fresh = λ u h. inl h; queue = λ u h. h }

Grows-trans : {x y z : Search} → Grows x y → Grows y z → Grows x z
Grows-trans g h = record {
  keys = λ u k. h.keys u (g.keys u k);
  fresh = λ u k. elim (h.fresh u k) [
    | inl old ↦ elim (g.fresh u old) [ inl older ↦ inl older | inr queued ↦ inr (h.queue u queued) ]
    | inr queued ↦ inr queued
  ];
  queue = λ u k. h.queue u (g.queue u k);
}

-- The reports inside a round: none is a pass.
abbrev Cut : Report → Type 0
Cut (bounded_pass n e w) = ⊥
Cut _ = Unit

Grows-entered : (s : State) (x : Search) (t : State) (a : Action) → Grows x (entered_search s x t a)
Grows-entered s x t a = record {
  keys = λ u. known_later u t (some (s, a)) x.predecessor;
  fresh = λ u k. elim (known-cons_cases u t (some (s, a)) x.predecessor k) [
    | inl e ↦ inr ((In-append u x.pending (t ∷ [])).1 (inr (inl e)))
    | inr old ↦ inl old
  ];
  queue = λ u k. (In-append u x.pending (t ∷ [])).1 (inl k);
}

module _ (c : Config) where
  abbrev Took : Search → List Move → Search → Type 0
  Took x ms y = Grows x y × All (λ m. known m.0 y.predecessor ≡ true) ms

  offer-Took :
      (s : State) (x : Search) (t : State) (a : Action)
      → Holds (λ y. Grows x y × (known t y.predecessor ≡ true)) Cut (offer c s x (t, a))
  offer-Took s x t a =
      offer_rule (λ y. Grows x y × (known t y.predecessor ≡ true)) Cut c s x t a
        (λ e. (record { keys = λ u h. h; fresh = λ u h. inl h; queue = λ u h. h }, e)) (λ e f. tt)
        (λ e f. (Grows-entered s x t a, known_new t (some (s, a)) x.predecessor))

  offers-Took : (s : State) (x : Search) (ms : List Move) → Holds (Took x ms) Cut (offers c s x ms)
  unfolding offers
  offers-Took s x [] = (Grows-refl x, tt)
  offers-Took s x ((t, a) ∷ ms) =
      go (offer c s x (t, a)) (offer-Took s x t a) (λ y. offers-Took s y ms)
    where
      wider :
          (y : Search)
          → Grows x y × (known t y.predecessor ≡ true)
          → (o : Outcome) → Holds (Took y ms) Cut o
          → Holds (Took x ((t, a) ∷ ms)) Cut o
      wider y (g, k) (Explore.running z) (h, ks) = (Grows-trans g h, (h.keys t k, ks))
      wider y p (Explore.stopped r) h = h

      go :
          (o : Outcome)
          → Holds (λ y. Grows x y × (known t y.predecessor ≡ true)) Cut o
          → ((y : Search) → Holds (Took y ms) Cut (offers c s y ms))
          → Holds (Took x ((t, a) ∷ ms)) Cut (elim o [
            | Explore.running y ↦ offers c s y ms
            | Explore.stopped r ↦ Explore.stopped r
          ])
      go (Explore.running y) h k = wider y h (offers c s y ms) (k y)
      go (Explore.stopped r) h k = h

  -- The successors of `s` are found, and none is a violation.
  abbrev Finished : State → Search → Type 0
  Finished s x =
      (ms : List Move) × (expand c s ≡ moves ms) × All (λ m. known m.0 x.predecessor ≡ true) ms

  record Closed (x : Search) : Type 0 where
    source : known (start c) x.predecessor ≡ true
    closed : (s : State) → known s x.predecessor ≡ true → In s x.pending ⊎ Finished s x

  Finished-Grows : (s : State) (x y : Search) → Grows x y → Finished s x → Finished s y
  Finished-Grows s x y g (ms, e, ks) = (
    ms,
    e,
    All-In (λ m. known m.0 y.predecessor ≡ true) ms
        (λ m i. g.keys m.0 (In-All (λ m. known m.0 x.predecessor ≡ true) ms m ks i)),
  )

  -- A round: `s` leaves the queue, and its successors join the keys.
  visit-Closed :
      (x : Search) (s : State) (rest : List State)
      → x.pending ≡ s ∷ rest
      → Closed x
      → Holds Closed Cut (visit c s (record x { pending = rest }))
  unfolding visit
  visit-Closed x s rest e h = go (expand c s) refl
    where
      after :
          (ms : List Move)
          → expand c s ≡ moves ms
          → (o : Outcome) → Holds (Took (record x { pending = rest }) ms) Cut o
          → Holds Closed Cut o
      after ms d (Explore.stopped r) k = k
      after ms d (Explore.running y) (g, ks) = record {
        source = g.keys (start c) h.source;
        closed = λ u k. elim (g.fresh u k) [
          | inr queued ↦ inl queued
          | inl old ↦ elim (h.closed u old) [
            | inr done ↦ inr (Finished-Grows u (record x { pending = rest }) y g done)
            | inl waiting ↦ elim (subst (In u) e waiting) [
              | inl now ↦ inr (subst (λ v. Finished v y) (sym now) (ms, d, ks))
              | inr later ↦ inl (g.queue u later)
            ]
          ]
        ];
      }

      go :
          (r : Expansion)
          → expand c s ≡ r
          → Holds Closed Cut (elim r [
            | violation a ↦
                Explore.stopped
                  (counterexample (length x.predecessor) x.edges (trace x.predecessor s a))
            | moves ms ↦ offers c s (record x { pending = rest }) ms
          ])
      go (moves ms) d =
          after ms d (offers c s (record x { pending = rest }) ms)
            (offers-Took s (record x { pending = rest }) ms)
      go (violation a) d = tt

  -- What a bounded pass tells: every state that can be reached is expanded, without violation.
  abbrev Passes : Report → Type 0
  Passes (bounded_pass n e w) = (s : State) → Reach c s → (ms : List Move) × (expand c s ≡ moves ms)
  Passes _ = Unit

  Reach-known :
      (x : Search)
      → x.pending ≡ []
      → Closed x
      → {s : State} → Reach c s
      → known s x.predecessor ≡ true
  Reach-known x e h here = h.source
  Reach-known x e h (next {s} {t} {a} r (ms, d, i)) = elim (h.closed s (Reach-known x e h r)) [
    | inl waiting ↦ absurd (subst (In s) e waiting)
    | inr (ns, d', ks) ↦
        In-All (λ m. known m.0 x.predecessor ≡ true) ns (t, a) ks (subst (In (t, a)) (cc) i)
  ]

  Holds-Passes : (o : Outcome) → Holds Closed Cut o → Holds Closed Passes o
  Holds-Passes (Explore.running y) h = h
  Holds-Passes (Explore.stopped (counterexample n e t)) h = tt
  Holds-Passes (Explore.stopped (bounded_pass n e w)) h = absurd h
  Holds-Passes (Explore.stopped _) h = tt

  loop-Passes : (fuel : ℕ) (x : Search) → Closed x → Passes (loop fuel c x)
  loop-Passes =
      loop_rule (λ n. Closed) Passes c
        (λ n x s rest e h.
          Holds-Passes (visit c s (record x { pending = rest })) (visit-Closed x s rest e h))
        (λ n x e h s r. elim (h.closed s (Reach-known x e h r)) [
          | inl waiting ↦ absurd (subst (In s) e waiting)
          | inr (ms, d, ks) ↦ (ms, d)
        ])
        (λ x h. tt)

  Closed-first : Closed (first c)
  unfolding lookup
  Closed-first = record {
    source = known_new (start c) none [];
    closed = λ s k. elim (known-cons_cases s (start c) none [] k) [
      | inl e ↦ inl (inl e)
      | inr never ↦ cc
    ];
  }

  explore_within-Passes : (fuel : ℕ) → Passes (explore_within fuel c)
  unfolding explore_within
  explore_within-Passes fuel = elim (Bool-cases (fits c)) [
    | inl fit ↦ rw fit (loop-Passes fuel (first c) Closed-first)
    | inr no_fit ↦ rw no_fit tt
  ]

-- After a bounded pass, with either kind of grant, every state that the moves reach from the start
-- is expanded without violation: no reservation up to `max_wt` enters a pinned epoch.
pub bounded_pass_complete :
    (c : Config) (states edges tail : ℕ)
    → explore c ≡ bounded_pass states edges tail
    → (s : State) → Reach c s
    → (ms : List Move) × (expand c s ≡ moves ms)
unfolding explore
bounded_pass_complete c states edges tail e s r =
    subst (Passes c) e (explore_within-Passes c (c.state_limit + 2)) s r
