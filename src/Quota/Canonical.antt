-- ===== src/Quota/Canonical.antt =====
-- Sorting the producers of one quota among their places loses none of them.
use antfarm.Prelude.{
  ℕ, zero, suc, ◌+◌, ◌≤◌, ◌≡◌, sym, subst, refl, some, List, [], ◌∷◌, arith, ◌==◌, Bool-cases,
  eq_of_==, length, get_elem?, set, All, inl, inr,
}
use antfarm.Quota.Model.{Producer, tuple_leb, insort, sorted, select, place, canonical, sum}

-- The sum of `f` over the producers, each with its quota.
pub total : (ℕ → Producer → ℕ) → List ℕ → List Producer → ℕ
total f [] ps = 0
total f (q ∷ qs) [] = 0
total f (q ∷ qs) (p ∷ ps) = f q p + total f qs ps

-- Every producer, with its quota, meets `P`.
abbrev pub Roles {ℓ} : (ℕ → Producer → Type ℓ) → List ℕ → List Producer → Type ℓ
Roles P [] ps = Unit
Roles P (q ∷ qs) [] = Unit
Roles P (q ∷ qs) (p ∷ ps) = P q p × Roles P qs ps

sum_of : (Producer → ℕ) → List Producer → ℕ
sum_of g [] = 0
sum_of g (p ∷ ps) = g p + sum_of g ps

sum_of-insort :
    (g : Producer → ℕ) (p : Producer) (ps : List Producer)
    → sum_of g (insort p ps) ≡ g p + sum_of g ps
unfolding sum_of insort
sum_of-insort g p [] = refl
sum_of-insort g p (r ∷ rs) = ground (arith, sum_of-insort g p rs)

sum_of-sorted : (g : Producer → ℕ) (ps : List Producer) → sum_of g (sorted ps) ≡ sum_of g ps
unfolding sum_of sorted
sum_of-sorted g [] = refl
sum_of-sorted g (p ∷ ps) = omega (arith, sum_of-insort g p (sorted ps), sum_of-sorted g ps)

length-insort : (p : Producer) (ps : List Producer) → length (insort p ps) ≡ suc (length ps)
unfolding insort
length-insort p [] = refl
length-insort p (r ∷ rs) = ground (arith, length-insort p rs)

length-sorted : (ps : List Producer) → length (sorted ps) ≡ length ps
unfolding sorted
length-sorted [] = refl
length-sorted (p ∷ ps) = omega (arith, length-insort p (sorted ps), length-sorted ps)

sum_of-empty : (g : Producer → ℕ) (ps : List Producer) → length ps ≡ 0 → sum_of g ps ≡ 0
unfolding sum_of
sum_of-empty g [] e = refl
sum_of-empty g (p ∷ ps) e = absurd (omega arith)

total-place :
    (f : ℕ → Producer → ℕ) (q : ℕ) (qs : List ℕ) (ps vs : List Producer)
    → length vs ≡ length (select q qs ps)
    → total f qs (place q qs ps vs) + sum_of (f q) (select q qs ps)
      ≡ total f qs ps + sum_of (f q) vs
unfolding total sum_of select place
total-place f q [] ps [] e = omega arith
total-place f q [] ps (v ∷ vs) e = absurd (omega arith)
total-place f q (r ∷ qs) [] [] e = omega arith
total-place f q (r ∷ qs) [] (v ∷ vs) e = absurd (omega arith)
total-place f q (r ∷ qs) (p ∷ ps) [] e =
    omega (arith, sum_of-empty (f q) (select q (r ∷ qs) (p ∷ ps)) (omega arith))
total-place f q (r ∷ qs) (p ∷ ps) (v ∷ vs) e =
    ground (arith, total-place f q qs ps vs, total-place f q qs ps (v ∷ vs))

-- The sum over the producers is that before the sort.
pub total-canonical :
    (f : ℕ → Producer → ℕ) (ds qs : List ℕ) (ps : List Producer)
    → total f qs (canonical ds qs ps) ≡ total f qs ps
unfolding canonical
total-canonical f [] qs ps = refl
total-canonical f (q ∷ ds) qs ps =
    let own = select q qs ps in
    let after = place q qs ps (sorted own) in
    omega (
      arith,
      total-canonical f ds qs after,
      total-place f q qs ps (sorted own) (length-sorted own),
      sum_of-sorted (f q) own,
    )

module _ {ℓ} (P : ℕ → Producer → Type ℓ) where
  All-insort :
      (q : ℕ) (p : Producer) (ps : List Producer) → P q p → All (P q) ps → All (P q) (insort p ps)
  unfolding insort
  All-insort q p [] h hs = (h, tt)
  All-insort q p (r ∷ rs) h hs = elim (Bool-cases (tuple_leb p r)) [
    | inl e ↦ rw e (h, hs)
    | inr e ↦ rw e (hs.0, All-insort q p rs h hs.1)
  ]

  All-sorted : (q : ℕ) (ps : List Producer) → All (P q) ps → All (P q) (sorted ps)
  unfolding sorted
  All-sorted q [] hs = tt
  All-sorted q (p ∷ ps) hs = All-insort q p (sorted ps) hs.0 (All-sorted q ps hs.1)

  All-select :
      (q : ℕ) (qs : List ℕ) (ps : List Producer) → Roles P qs ps → All (P q) (select q qs ps)
  unfolding select
  All-select q [] ps hs = tt
  All-select q (r ∷ qs) [] hs = tt
  All-select q (r ∷ qs) (p ∷ ps) hs = elim (Bool-cases (r == q)) [
    | inl e ↦ rw e (subst (λ x. P x p) (eq_of_== r q e) hs.0, All-select q qs ps hs.1)
    | inr e ↦ rw e (All-select q qs ps hs.1)
  ]

  Roles-place :
      (q : ℕ) (qs : List ℕ) (ps vs : List Producer)
      → Roles P qs ps
      → All (P q) vs
      → Roles P qs (place q qs ps vs)
  unfolding place
  Roles-place q [] ps vs hs h = tt
  Roles-place q (r ∷ qs) [] vs hs h = tt
  Roles-place q (r ∷ qs) (p ∷ ps) [] hs h = hs
  Roles-place q (r ∷ qs) (p ∷ ps) (v ∷ vs) hs h = elim (Bool-cases (r == q)) [
    | inl e ↦
        rw (e, Roles)
          (subst (λ x. P x v) (sym (eq_of_== r q e)) h.0, Roles-place q qs ps vs hs.1 h.1)
    | inr e ↦ rw (e, Roles) (hs.0, Roles-place q qs ps (v ∷ vs) hs.1 h)
  ]

  -- What holds of every producer holds after the sort.
  pub Roles-canonical :
      (ds qs : List ℕ) (ps : List Producer) → Roles P qs ps → Roles P qs (canonical ds qs ps)
  unfolding canonical
  Roles-canonical [] qs ps hs = hs
  Roles-canonical (q ∷ ds) qs ps hs =
      let own = select q qs ps in
      Roles-canonical ds qs (place q qs ps (sorted own))
        (Roles-place q qs ps (sorted own) hs (All-sorted q own (All-select q qs ps hs)))

  pub Roles-set :
      (qs : List ℕ) (ps : List Producer) (i q : ℕ) (r : Producer)
      → Roles P qs ps
      → get_elem? qs i ≡ some q
      → P q r
      → Roles P qs (set ps i r)
  Roles-set [] ps i q r hs e h = tt
  Roles-set (x ∷ qs) [] i q r hs e h = tt
  Roles-set (x ∷ qs) (p ∷ ps) zero q r hs e h = (subst (λ y. P y r) (cc) h, hs.1)
  Roles-set (x ∷ qs) (p ∷ ps) (suc i) q r hs e h = (hs.0, Roles-set qs ps i q r hs.1 e h)

  pub Roles-get :
      (qs : List ℕ) (ps : List Producer) (i q : ℕ) (p : Producer)
      → Roles P qs ps
      → get_elem? qs i ≡ some q
      → get_elem? ps i ≡ some p
      → P q p
  Roles-get [] ps i q p hs e d = cc
  Roles-get (x ∷ qs) [] i q p hs e d = cc
  Roles-get (x ∷ qs) (y ∷ ps) zero q p hs e d =
      subst (λ a. P a p) (cc) (subst (λ a. P x a) (cc) hs.0)
  Roles-get (x ∷ qs) (y ∷ ps) (suc i) q p hs e d = Roles-get qs ps i q p hs.1 e d

pub Roles-map {ℓ κ} :
    (P : ℕ → Producer → Type ℓ) (Q : ℕ → Producer → Type κ)
    → ((q : ℕ) (p : Producer) → P q p → Q q p)
    → (qs : List ℕ) (ps : List Producer) → Roles P qs ps
    → Roles Q qs ps
Roles-map P Q f [] ps hs = tt
Roles-map P Q f (q ∷ qs) [] hs = tt
Roles-map P Q f (q ∷ qs) (p ∷ ps) hs = (f q p hs.0, Roles-map P Q f qs ps hs.1)

-- A write at `i` replaces its term of the sum.
pub total-set :
    (f : ℕ → Producer → ℕ) (qs : List ℕ) (ps : List Producer) (i q : ℕ) (p r : Producer)
    → get_elem? qs i ≡ some q
    → get_elem? ps i ≡ some p
    → total f qs (set ps i r) + f q p ≡ total f qs ps + f q r
unfolding total
total-set f [] ps i q p r e d = cc
total-set f (x ∷ qs) [] i q p r e d = cc
total-set f (x ∷ qs) (y ∷ ps) zero q p r e d =
    let same : f x y ≡ f q p = cc in let new : f x r ≡ f q r = cc in omega arith
total-set f (x ∷ qs) (y ∷ ps) (suc i) q p r e d = omega (arith, total-set f qs ps i q p r e d)

-- A term is at most the sum.
pub le-total :
    (f : ℕ → Producer → ℕ) (qs : List ℕ) (ps : List Producer) (i q : ℕ) (p : Producer)
    → get_elem? qs i ≡ some q
    → get_elem? ps i ≡ some p
    → f q p ≤ total f qs ps
unfolding total
le-total f [] ps i q p e d = cc
le-total f (x ∷ qs) [] i q p e d = cc
le-total f (x ∷ qs) (y ∷ ps) zero q p e d = let same : f x y ≡ f q p = cc in omega arith
le-total f (x ∷ qs) (y ∷ ps) (suc i) q p e d = omega (arith, le-total f qs ps i q p e d)

-- Terms that are at most the quotas sum up to at most the sum of the quotas.
pub total-le-sum :
    (f : ℕ → Producer → ℕ) (qs : List ℕ) (ps : List Producer)
    → Roles (λ q p. f q p ≤ q) qs ps
    → total f qs ps ≤ sum qs
unfolding total sum
total-le-sum f [] ps hs = omega arith
total-le-sum f (q ∷ qs) [] hs = omega arith
total-le-sum f (q ∷ qs) (p ∷ ps) hs = omega (arith, total-le-sum f qs ps hs.1)
