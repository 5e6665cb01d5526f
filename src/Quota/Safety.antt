-- ===== src/Quota/Safety.antt =====
-- tests/farm/quota_model.py, `explore`: the moves of a state and the invariant of the strict protocol.
use antfarm.Prelude.{
  ℕ, suc, ◌+◌, ◌/◌, ◌≤◌, ◌≡◌, inl, inr, refl, ap, false, List, [], ◌∷◌, arith, ltb, if◌then◌else◌,
  All, All-append, get_elem?, Bool-cases,
}
use antfarm.Quota.Model.{Config, Producer, State, pin_ahead, drop_oldest, Move, moves, start, idles}
use antfarm.Quota.Canonical.{Roles, total-le-sum, Roles-map}
use antfarm.Quota.Explore.{all_moves, consumer_moves, expand}
use antfarm.Quota.Invariant.{claim, Role, Inv, Fits}
use antfarm.Quota.Moves.{Keeps, Keeps-join, claim-le, get_here, get_later, producer_moves-Keeps}

module _ (c : Config) (f : Fits c) where
  consumer_moves-Keeps : (s : State) → Inv c s → All (λ m. Inv c m.0) (consumer_moves c s)
  unfolding consumer_moves
  consumer_moves-Keeps s v =
      All-append (λ (m : Move). Inv c m.0)
        (if ltb s.newest (s.wt / c.cap)
          then (record s { newest = s.newest + 1 }, pin_ahead) ∷ []
          else [])
        (if ltb s.oldest s.newest
          then (record s { oldest = s.oldest + 1 }, drop_oldest) ∷ []
          else [])
        pin drop
    where
      pin :
          All
            (λ (m : Move). Inv c m.0)
            (if ltb s.newest (s.wt / c.cap)
              then (record s { newest = s.newest + 1 }, pin_ahead) ∷ []
              else [])
      pin = elim (Bool-cases (ltb s.newest (s.wt / c.cap))) [
        | inl ahead ↦ rw ahead (
          record {
            ordered = omega (arith, v.ordered);
            behind = ground arith;
            roles = v.roles;
            budget = v.budget;
          },
          tt,
        )
        | inr level ↦ rw level tt
      ]

      drop :
          All
            (λ (m : Move). Inv c m.0)
            (if ltb s.oldest s.newest
              then (record s { oldest = s.oldest + 1 }, drop_oldest) ∷ []
              else [])
      drop = elim (Bool-cases (ltb s.oldest s.newest)) [
        | inl held ↦ rw held (
          record {
            ordered = ground arith;
            behind = v.behind;
            roles =
                Roles-map (Role c s.oldest) (Role c (s.oldest + 1))
                  (λ q p r. ground (arith, r.within, r.scanned)) c.quotas s.producers v.roles;
            budget = λ x h. v.budget x (omega arith);
          },
          tt,
        )
        | inr last ↦ rw last tt
      ]

  all_moves-Keeps :
      (s : State)
      → Inv c s
      → c.automatic ≡ false
      → (i : ℕ) (qs : List ℕ) (ps : List Producer)
      → ((j : ℕ) → get_elem? c.quotas (i + j) ≡ get_elem? qs j)
      → ((j : ℕ) → get_elem? s.producers (i + j) ≡ get_elem? ps j)
      → Keeps (Inv c) (all_moves c s i qs ps)
  unfolding all_moves
  all_moves-Keeps s v strict i [] ps a b = tt
  all_moves-Keeps s v strict i (q ∷ qs) [] a b = tt
  all_moves-Keeps s v strict i (q ∷ qs) (p ∷ ps) a b =
      Keeps-join (Inv c) _ _
        (producer_moves-Keeps c f s v i q p (get_here c.quotas i qs a) (get_here s.producers i ps b)
          strict)
        (all_moves-Keeps s v strict (suc i) qs ps (get_later c.quotas i qs a)
          (get_later s.producers i ps b))

  pub expand-Keeps : (s : State) → Inv c s → c.automatic ≡ false → Keeps (Inv c) (expand c s)
  unfolding expand
  expand-Keeps s v strict =
      Keeps-join (Inv c) (moves (consumer_moves c s)) (all_moves c s 0 c.quotas s.producers)
        (consumer_moves-Keeps s v)
        (all_moves-Keeps s v strict 0 c.quotas s.producers
          (λ j. ap (get_elem? c.quotas) (omega arith))
          (λ j. ap (get_elem? s.producers) (omega arith)))

  idles-Roles : (qs : List ℕ) → Roles (Role c 0) qs (idles qs)
  unfolding idles
  idles-Roles [] = tt
  idles-Roles (q ∷ qs) = (record { within = omega arith; scanned = inl refl }, idles-Roles qs)

  pub Inv-start : Inv c (start c)
  Inv-start = record {
    ordered = omega arith;
    behind = omega arith;
    roles = idles-Roles c.quotas;
    budget = λ x h. omega (
      arith,
      total-le-sum (claim x) c.quotas (idles c.quotas) (
          Roles-map (Role c 0) (λ a b. claim x a b ≤ a) (claim-le c 0 x) c.quotas (idles c.quotas)
            (idles-Roles c.quotas)),
    );
  }
