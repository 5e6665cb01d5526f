-- ===== src/Quota/Moves.antt =====
-- tests/farm/quota_model.py, `explore`: the moves of one producer and the invariant of the strict
-- protocol.
use native.Mathlib.Nat.{div-lt_iff_lt-mul, le-div_iff_mul-le, div-mul-le_self, suc-mul}
use antfarm.Prelude.{
  ℕ, zero, suc, ◌+◌, ◌-◌, ◌*◌, ◌/◌, ◌≤◌, ◌<◌, ◌≡◌, ◌≢◌, ◌⊎◌, inl, inr, refl, ap, ◌∙◌, true, false,
  List, [], ◌∷◌, arith, leb, ltb, ◌==◌, if◌then◌else◌, range_from, none, some, All, set, get_elem?,
  Bool-cases, eq_of_==, subst, sym,
}
use antfarm.Quota.Model.{
  Config, Producer, State, Action, exmax, need, max_wt, pinned, first_pinned, changed, distinct,
  entered, Expansion, moves, violation, add, join,
}
use antfarm.Quota.Canonical.{
  total, Roles, Roles-canonical, Roles-set, Roles-get, total-canonical, total-set, le-total,
  total-le-sum, Roles-map,
}
use antfarm.Quota.Explore.{reserves, producer_moves}
use antfarm.Quota.Invariant.{claim, Role, Inv, Fits, pinned_lap, pinned_ahead}

-- `⊥` at every level.
pub data Never {ℓ} : Type ℓ where

-- No violation, and `P` of every successor.
abbrev pub Keeps {ℓ} : (State → Type ℓ) → Expansion → Type ℓ
Keeps P (moves ms) = All (λ m. P m.0) ms
Keeps P (violation a) = Never

Keeps-add {ℓ} :
    (P : State → Type ℓ) (s : State) (a : Action) (e : Expansion)
    → P s
    → Keeps P e
    → Keeps P (add (s, a) e)
unfolding add
Keeps-add P s a (moves ms) h k = (h, k)
Keeps-add P s a (violation b) h k = k

pub Keeps-join {ℓ} :
    (P : State → Type ℓ) (e d : Expansion) → Keeps P e → Keeps P d → Keeps P (join e d)
unfolding join
Keeps-join P (violation a) d h k = h
Keeps-join P (moves []) d h k = k
Keeps-join P (moves ((s, a) ∷ ms)) d h k =
    Keeps-add P s a (join (moves ms) d) h.0 (Keeps-join P (moves ms) d h.1 k)

pub claim-le : (c : Config) (oldest x q : ℕ) (p : Producer) → Role c oldest q p → claim x q p ≤ q
claim-le c oldest x q p r = ground arith

claim_idle : (x q : ℕ) (p : Producer) → p.step ≡ 0 → claim x q p ≡ p.balance
claim_idle x q p e = ground arith

pub get_here {ℓ} :
    {A : Type ℓ} {x : A} (xs : List A) (i : ℕ) (rest : List A)
    → ((j : ℕ) → get_elem? xs (i + j) ≡ get_elem? (x ∷ rest) j)
    → get_elem? xs i ≡ some x
get_here xs i rest h = ap (get_elem? xs) (omega arith) ∙ h 0

pub get_later {ℓ} :
    {A : Type ℓ} {x : A} (xs : List A) (i : ℕ) (rest : List A)
    → ((j : ℕ) → get_elem? xs (i + j) ≡ get_elem? (x ∷ rest) j)
    → (j : ℕ) → get_elem? xs (suc i + j) ≡ get_elem? rest j
get_later xs i rest h j = ap (get_elem? xs) (omega arith) ∙ h (suc j)

tail_le : (w x size : ℕ) → 0 < size → leb (w / size) x ≡ true → w ≤ x * size + (size - 1)
tail_le w x size r h =
    let below : w / size < suc x = ground arith in
    let bound = (div-lt_iff_lt-mul r).0 below in omega (arith, suc-mul x size)

later_epoch : {e : ℕ} (w more size : ℕ) → 0 < size → e ≤ w / size → e ≤ (w + more) / size
later_epoch w more size r h =
    let bound =
      (le-div_iff_mul-le {x = w / size} {y = w + more} r).1
        (omega (arith, div-mul-le_self w size)) in
    omega arith

module _ (c : Config) (f : Fits c) where
  pub lap_bound :
      (s : State) (w : ℕ)
      → Inv c s
      → ((x : ℕ) → w ≤ s.wt + total (claim x) c.quotas s.producers)
      → w / c.cap < s.oldest + c.k
  lap_bound s w v h =
      (div-lt_iff_lt-mul f.room).1 (bound (s.oldest + c.k - need c - 1) (omega arith))
    where
      bound : (x : ℕ) → x + need c + 1 ≡ s.oldest + c.k → w < (s.oldest + c.k) * c.cap
      bound x e =
          let inv = v.budget x (omega arith) in
          let mono = h x in let enough = f.enough in subst (λ n. w < n * c.cap) e (omega arith)

  module _ (s : State) (v : Inv c s) (i q : ℕ) (p : Producer)
      (of_quota : get_elem? c.quotas i ≡ some q) (of_state : get_elem? s.producers i ≡ some p) where
    role : Role c s.oldest q p
    role = Roles-get (Role c s.oldest) c.quotas s.producers i q p v.roles of_quota of_state

    -- A move of producer `i` to `r`, with the tail at `w`.
    changed-Inv :
        (r : Producer) (w : ℕ)
        → s.newest ≤ w / c.cap
        → Role c s.oldest q r
        → ((x : ℕ)
            → s.oldest + c.k ≤ x + need c + 1
            → (w + claim x q r ≤ s.wt + claim x q p) ⊎ (w ≤ x * c.cap + (c.cap - 1)))
        → Inv c (changed c s i r w)
    unfolding changed
    changed-Inv r w pinning role' spend = record {
      ordered = v.ordered;
      behind = pinning;
      roles =
          Roles-canonical (Role c s.oldest) (distinct c.quotas) c.quotas (set s.producers i r)
            roles';
      budget = λ x h. rw total-canonical (budget_lem x h);
    }
      where
        roles' : Roles (Role c s.oldest) c.quotas (set s.producers i r)
        roles' = Roles-set (Role c s.oldest) c.quotas s.producers i q r v.roles of_quota role'

        budget_lem :
            (x : ℕ)
            → s.oldest + c.k ≤ x + need c + 1
            → w + total (claim x) c.quotas (set s.producers i r) ≤ x * c.cap + (c.cap - 1) + exmax c
        budget_lem x h = elim (spend x h) [
          | inl less ↦ omega (
            arith,
            v.budget x h,
            total-set (claim x) c.quotas s.producers i q p r of_quota of_state,
          )
          | inr early ↦ omega (
            arith,
            total-le-sum (claim x) c.quotas (set s.producers i r) (
                Roles-map (Role c s.oldest) (λ a b. claim x a b ≤ a) (claim-le c s.oldest x)
                  c.quotas (set s.producers i r) roles'),
          )
        ]

    probe-Inv :
        p.step ≡ 0 → Inv c (changed c s i (record p { anchor = s.wt / c.cap; step = 1 }) s.wt)
    probe-Inv e =
        changed-Inv _ s.wt v.behind
          (record { within = role.within; scanned = inr (omega arith, tail_in_lap) }) λ x h. later x
      where
        tail_in_lap : s.wt / c.cap + 1 ≤ s.oldest + c.k
        tail_in_lap = omega (arith, lap_bound s s.wt v (λ x. omega arith))

        later :
            (x : ℕ)
            → (s.wt + claim x q (record p { anchor = s.wt / c.cap; step = 1 }) ≤ s.wt + claim x q p)
              ⊎ (s.wt ≤ x * c.cap + (c.cap - 1))
        later x = elim (Bool-cases (leb (s.wt / c.cap) x)) [
          | inl old ↦ inr (tail_le s.wt x c.cap f.room old)
          | inr new ↦ inl (ground arith)
        ]

    grant-Inv :
        p.step ≡ need c + 1
        → Inv c (changed c s i (record { balance = q; anchor = 0; step = 0 }) s.wt)
    grant-Inv e =
        changed-Inv _ s.wt v.behind (record { within = omega arith; scanned = inl refl })
          λ x h. inl (ground (arith, role.scanned))

    blocked-Inv : Inv c (changed c s i (record p { anchor = 0; step = 0 }) s.wt)
    blocked-Inv =
        changed-Inv _ s.wt v.behind (record { within = role.within; scanned = inl refl })
          λ x h. inl (ground (arith, role.within))

    scan-Inv :
        (p.step == 0) ≡ false
        → (p.step == need c + 1) ≡ false
        → pinned c s (p.anchor + p.step) ≡ false
        → Inv c (changed c s i (record p { step = p.step + 1 }) s.wt)
    scan-Inv e g h =
        changed-Inv _ s.wt v.behind (record { within = role.within; scanned = inr bounds })
          λ x h'. inl (ground arith)
      where
        not_lap : p.anchor + p.step ≢ s.oldest + c.k
        not_lap d = ground (arith, pinned_lap c s v.ordered)

        bounds : (p.step + 1 ≤ need c + 1) × (p.anchor + (p.step + 1) ≤ s.oldest + c.k)
        bounds = ground (arith, role.scanned, not_lap)

    reserve-Inv :
        (size : ℕ)
        → p.step ≡ 0
        → size ≤ p.balance
        → Inv c (
            changed c s i
              (record { balance = p.balance - size; anchor = 0; step = 0 })
              (s.wt + size))
    reserve-Inv size e h =
        changed-Inv _ (s.wt + size) (later_epoch s.wt size c.cap f.room v.behind)
          (record { within = omega (arith, role.within); scanned = inl refl })
          λ x h'. inl (ground (arith, role.within))

    -- No epoch that a reservation within the balance enters is pinned.
    entered_free :
        (size : ℕ)
        → p.step ≡ 0
        → size ≤ p.balance
        → (lo n : ℕ) → s.wt / c.cap < lo
        → lo + n ≤ (s.wt + size) / c.cap + 1
        → first_pinned c s (range_from lo n) ≡ none
    unfolding first_pinned range_from
    entered_free size e h lo zero a b = refl
    entered_free size e h lo (suc n) a b =
        let tail = lap_bound s (s.wt + size) v (λ x. omega (
          arith,
          claim_idle x q p e,
          le-total (claim x) c.quotas s.producers i q p of_quota of_state,
        )) in
        rw (pinned_ahead c s lo v.ordered (omega (arith, v.behind)) (omega arith))
          (entered_free size e h (suc lo) n (omega arith) (omega arith))

    reserves-Keeps :
        (size left : ℕ)
        → c.automatic ≡ false
        → p.step ≡ 0
        → size + left ≤ p.balance + 1
        → Keeps (Inv c) (reserves c s i q p size left)
    unfolding reserves
    reserves-Keeps size zero strict e h = tt
    reserves-Keeps size (suc left) strict e h = elim (Bool-cases (ltb (max_wt c) (s.wt + size))) [
      | inl beyond ↦ rw beyond (reserves-Keeps (suc size) left strict e (omega arith))
      | inr within ↦
          rw (within, free)
            (Keeps-add (Inv c) _ _ _
              (subst
                (λ b.
                  Inv c
                    (changed c s i (record { balance = b; anchor = 0; step = 0 }) (s.wt + size)))
                (sym spent) (reserve-Inv size e (omega arith)))
              (reserves-Keeps (suc size) left strict e (omega arith)))
    ]
      where
        free : first_pinned c s (entered c s size) ≡ none
        free =
            entered_free size e (omega arith) (s.wt / c.cap + 1)
              ((s.wt + size) / c.cap - s.wt / c.cap) (omega arith)
              (omega (arith, later_epoch {e = s.wt / c.cap} s.wt size c.cap f.room (omega arith)))

        spent : (if c.automatic then q else p.balance - size) ≡ p.balance - size
        spent = ground arith

    pub producer_moves-Keeps : c.automatic ≡ false → Keeps (Inv c) (producer_moves c s i q p)
    unfolding producer_moves
    producer_moves-Keeps strict = elim (Bool-cases (p.step == 0)) [
      | inl idle' ↦ rw idle' (
          Keeps-add (Inv c) _ _ _ (probe-Inv (eq_of_== _ _ idle'))
            (reserves-Keeps 1 p.balance strict (eq_of_== _ _ idle') (omega arith)))
      | inr scanning ↦ rw scanning (elim (Bool-cases (p.step == need c + 1)) [
        | inl done ↦ rw done (grant-Inv (eq_of_== _ _ done), tt)
        | inr more ↦ rw more (elim (Bool-cases (pinned c s (p.anchor + p.step))) [
          | inl held ↦ rw held (blocked-Inv, tt)
          | inr free ↦ rw free (scan-Inv scanning more free, tt)
        ])
      ])
    ]
