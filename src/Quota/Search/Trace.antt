-- ===== src/Quota/Search/Trace.antt =====
-- tests/farm/quota_model.py, `trace`: a counterexample is a run of the model.
use antfarm.Prelude.{
  ℕ, zero, suc, ◌+◌, ◌≤◌, ◌≡◌, inl, inr, refl, List, [], ◌∷◌, ◌++◌, arith, In, In-append, All-In,
  length, true, false, Bool-cases, ap, subst, sym, Option, none, some, ◌∙◌,
}
use antfarm.Quota.Model.{Config, State, Action, Expansion, moves, violation, fits, start}
use antfarm.Quota.Explore
use antfarm.Quota.Explore.{
  expand, Report, counterexample, state_limit, bounded_pass, Search, known, Outcome, Predecessor,
  state_eq, offer, offers, visit, loop, first, explore_within, explore, trace, trace_from, lookup,
}
use antfarm.Quota.Search.Rules.{Holds, offer_rule, offers_rule, loop_rule}
use antfarm.Quota.Search.Dict.{known_new, known_later, known-cons_cases, state_eq→eq, state_eq_refl}
use antfarm.Quota.Search.Complete.{Edge}

-- The actions lead from a state to a reservation that enters a pinned epoch.
pub data Fails (c : Config) : State → List Action → Type 0 where
  fails : {s : State} {a : Action} → expand c s ≡ violation a → Fails c s (a ∷ [])
  then_fails :
      {s t : State} {a : Action} {acts : List Action}
      → Edge c s a t
      → Fails c t acts
      → Fails c s (a ∷ acts)

-- Each key but the first was found from an older one.
abbrev Linked : Config → Predecessor → Type 0
Linked c [] = ⊥
Linked c ((t, none) ∷ d) = (t ≡ start c) × (d ≡ [])
Linked c ((t, some (s, a)) ∷ d) =
    Edge c s a t × (known s d ≡ true) × (known t d ≡ false) × Linked c d

module _ (c : Config) where
  lookup_found :
      (s : State) (t : State) (v : Option (State × Action)) (d : Predecessor)
      → state_eq s t ≡ true
      → lookup s ((t, v) ∷ d) ≡ some v
  unfolding lookup
  lookup_found s t v d h = rw h

  lookup_older :
      (s : State) (t : State) (v : Option (State × Action)) (d : Predecessor)
      → state_eq s t ≡ false
      → lookup s ((t, v) ∷ d) ≡ lookup s d
  unfolding lookup
  lookup_older s t v d h = rw h

  lookup_empty : (s : State) → lookup s [] ≡ none
  unfolding lookup
  lookup_empty s = refl

  -- Where a lookup leads, that is a key, too.
  lookup-known :
      (d : Predecessor)
      → Linked c d
      → (s u : State) (a : Action) → lookup s d ≡ some (some (u, a))
      → known u d ≡ true
  lookup-known [] l s u a h = absurd l
  lookup-known ((t, none) ∷ d) l s u a h = elim (Bool-cases (state_eq s t)) [
    | inl e ↦ cc (lookup_found s t none d e)
    | inr e ↦ cc (lookup_older s t none d e, ap (lookup s) l.1, lookup_empty s)
  ]
  lookup-known ((t, some (w, b)) ∷ d) l s u a h = elim (Bool-cases (state_eq s t)) [
    | inl e ↦
        let same : w ≡ u = cc (lookup_found s t (some (w, b)) d e) in
        known_later u t (some (w, b)) d (subst (λ z. known z d ≡ true) same l.1)
    | inr e ↦
        known_later u t (some (w, b)) d
          (lookup-known d l.3 s u a (sym (lookup_older s t (some (w, b)) d e) ∙ h))
  ]

  -- A key that is not on the way does not change the walk.
  trace_from-older :
      (rounds : ℕ) (d : Predecessor) (t : State) (v : Option (State × Action))
      → Linked c d
      → known t d ≡ false
      → (s : State) (out : List Action) → known s d ≡ true
      → trace_from rounds ((t, v) ∷ d) s out ≡ trace_from rounds d s out
  unfolding trace_from
  trace_from-older zero d t v l new s out k = refl
  trace_from-older (suc rounds) d t v l new s out k = elim (Bool-cases (state_eq s t)) [
    | inl e ↦ cc (ap (λ z. known z d) (state_eq→eq s t e))
    | inr e ↦
        rw (lookup_older s t v d e, trace_from)
          (go (lookup s d)
            (λ u a h. trace_from-older rounds d t v l new u (a ∷ out) (lookup-known d l s u a h)))
  ]
    where
      go :
          (o : Option (Option (State × Action)))
          → ((u : State) (a : Action)
              → o ≡ some (some (u, a))
              → trace_from rounds ((t, v) ∷ d) u (a ∷ out) ≡ trace_from rounds d u (a ∷ out))
          → ◌≡◌ {A = Option (List Action)}
              (elim o [
                | none ↦ none
                | some w ↦ elim w [
                  | none ↦ some out
                  | some (u, a) ↦ trace_from rounds ((t, v) ∷ d) u (a ∷ out)
                ]
              ])
              (elim o [
                | none ↦ none
                | some w ↦ elim w [
                  | none ↦ some out
                  | some (u, a) ↦ trace_from rounds d u (a ∷ out)
                ]
              ])
      go none h = refl
      go (some none) h = refl
      go (some (some (u, a))) h = h u a refl

  trace_from-Fails :
      (d : Predecessor)
      → Linked c d
      → (rounds : ℕ) → length d ≤ rounds
      → (s : State) (out : List Action) → known s d ≡ true
      → Fails c s out
      → (acts : List Action) × (trace_from rounds d s out ≡ some acts) × Fails c (start c) acts
  unfolding trace_from
  trace_from-Fails [] l rounds r s out k f = absurd l
  trace_from-Fails ((t, v) ∷ d) l zero r s out k f = absurd (omega arith)
  trace_from-Fails ((t, none) ∷ d) l (suc rounds) r s out k f = elim (Bool-cases (state_eq s t)) [
    | inl e ↦ (
      out,
      rw (lookup_found s t none d e, trace_from),
      subst (λ z. Fails c z out) (state_eq→eq s t e ∙ l.0) f,
    )
    | inr e ↦ cc (lookup_older s t none d e, ap (lookup s) l.1, lookup_empty s, k)
  ]
  trace_from-Fails ((t, some (u, a)) ∷ d) l (suc rounds) r s out k f =
      elim (Bool-cases (state_eq s t)) [
        | inl e ↦
            let edge : Edge c u a s = subst (Edge c u a) (sym (state_eq→eq s t e)) l.0 in
            let (acts, p, q) =
              trace_from-Fails d l.3 rounds (omega arith) u (a ∷ out) l.1 (then_fails edge f) in
            (
              acts,
              rw (lookup_found s t (some (u, a)) d e, trace_from)
                  (trace_from-older rounds d t (some (u, a)) l.3 l.2 u (a ∷ out) l.1 ∙ p),
              q,
            )
        | inr e ↦
            let k' : known s d ≡ true = elim (known-cons_cases s t (some (u, a)) d k) [
              | inl same ↦ cc (ap (state_eq s) same, state_eq_refl s)
              | inr old ↦ old
            ] in
            let (acts, p, q) = trace_from-Fails d l.3 (suc rounds) (omega arith) s out k' f in
            (acts, trace_from-older (suc rounds) d t (some (u, a)) l.3 l.2 s out k' ∙ p, q)
      ]

  -- The search with a linked dict: what waits are keys.
  record Sound (x : Search) : Type 0 where
    linked : Linked c x.predecessor
    queued : (s : State) → In s x.pending → known s x.predecessor ≡ true

  abbrev Real : Report → Type 0
  Real (counterexample n e t) = (acts : List Action) × (t ≡ some acts) × Fails c (start c) acts
  Real _ = Unit

  -- In a round the state taken from the queue stays a key.
  abbrev SoundAt : State → Search → Type 0
  SoundAt s x = Sound x × (known s x.predecessor ≡ true)

  offer-Sound :
      (s : State) (x : Search) (t : State) (a : Action)
      → SoundAt s x
      → Edge c s a t
      → Holds (SoundAt s) Real (offer c s x (t, a))
  offer-Sound s x t a (h, k) edge =
      offer_rule (SoundAt s) Real c s x t a
        (λ e. (record { linked = h.linked; queued = h.queued }, k)) (λ e f. tt)
        (λ e f. (
          record { linked = (edge, k, e, h.linked); queued = later },
          known_later s t (some (s, a)) x.predecessor k,
        ))
    where
      later :
          (u : State)
          → In u (x.pending ++ t ∷ [])
          → known u ((t, some (s, a)) ∷ x.predecessor) ≡ true
      later u m = elim ((In-append u x.pending (t ∷ [])).0 m) [
        | inl old ↦ known_later u t (some (s, a)) x.predecessor (h.queued u old)
        | inr new ↦ elim new [
          | inl e ↦
              subst (λ z. known z ((t, some (s, a)) ∷ x.predecessor) ≡ true) (sym e)
                (known_new t (some (s, a)) x.predecessor)
          | inr never ↦ absurd never
        ]
      ]

  visit-Sound : (s : State) (x : Search) → SoundAt s x → Holds Sound Real (visit c s x)
  unfolding visit trace
  visit-Sound s x (h, k) = go (expand c s) refl
    where
      weaker : (o : Outcome) → Holds (SoundAt s) Real o → Holds Sound Real o
      weaker (Explore.running y) p = p.0
      weaker (Explore.stopped r) p = p

      go :
          (r : Expansion)
          → expand c s ≡ r
          → Holds Sound Real (elim r [
            | violation a ↦
                Explore.stopped
                  (counterexample (length x.predecessor) x.edges (trace x.predecessor s a))
            | moves ms ↦ offers c s x ms
          ])
      go (moves ms) e = weaker (offers c s x ms) (
          offers_rule (SoundAt s) Real c (λ m. Edge c s m.1 m.0) s (λ y t a. offer-Sound s y t a) x
            ms (h, k) (All-In (λ m. Edge c s m.1 m.0) ms (λ m i. (ms, e, i))))
      go (violation a) e =
          trace_from-Fails x.predecessor h.linked (length x.predecessor) (omega arith) s (a ∷ []) k
            (fails e)

  loop-Real : (fuel : ℕ) (x : Search) → Sound x → Real (loop fuel c x)
  loop-Real =
      loop_rule (λ n. Sound) Real c
        (λ n x s rest e h.
          let at_head : In s x.pending = subst (In s) (sym e) (inl refl) in
          visit-Sound s (record x { pending = rest })
            (
              record {
                linked = h.linked;
                queued = λ u m. h.queued u (subst (In u) (sym e) (inr m));
              },
              h.queued s at_head,
            ))
        (λ n x e h. tt) (λ x h. tt)

  Sound-first : Sound (first c)
  Sound-first = record {
    linked = (refl, refl);
    queued = λ s m. elim m [
      | inl e ↦
          subst (λ z. known z (first c).predecessor ≡ true) (sym e) (known_new (start c) none [])
      | inr never ↦ absurd never
    ];
  }

  explore_within-Real : (fuel : ℕ) → Real (explore_within fuel c)
  unfolding explore_within
  explore_within-Real fuel = elim (Bool-cases (fits c)) [
    | inl fit ↦ rw fit (loop-Real fuel (first c) Sound-first)
    | inr no_fit ↦ rw no_fit tt
  ]

-- A counterexample comes with its trace, and the trace is a run: its actions lead, each a move of
-- the model, from the start to a state in which the last one is a reservation into a pinned epoch.
pub counterexample_trace :
    (c : Config) (states edges : ℕ) (t : Option (List Action))
    → explore c ≡ counterexample states edges t
    → (acts : List Action) × (t ≡ some acts) × Fails c (start c) acts
unfolding explore
counterexample_trace c states edges t e =
    subst (Real c) e (explore_within-Real c (c.state_limit + 2))
