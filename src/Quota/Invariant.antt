-- ===== src/Quota/Invariant.antt =====
-- The arithmetic invariant of the strict protocol, which spends a grant once.
use native.Mathlib.Nat.{
  div-lt_iff_lt-mul, lt-div-mul-add, add-mod_right, div-add-mod, mul-le-mul_left, mul-suc,
}
use native.Mathlib.Decide.{dec_lt}
use antfarm.Prelude.{
  ℕ, zero, suc, ◌+◌, ◌-◌, ◌*◌, ◌/◌, ◌%◌, ◌≤◌, ◌<◌, ◌≡◌, ◌⊎◌, refl, true, false, arith, leb, ◌==◌,
  if◌then◌else◌, range_from, ◌≢◌, sym, subst,
}
use antfarm.Quota.Model.{Config, Producer, State, exmax, need, residue_in, pinned, fits}
use antfarm.Quota.Canonical.{total, Roles}

-- What producer `p` of quota `q` may still reserve on grants that it has or awaits, if its scan
-- began at epoch `x` or before.
abbrev pub claim : ℕ → ℕ → Producer → ℕ
claim x q p = if p.step == 0 then p.balance else if leb p.anchor x then q else p.balance

-- A scan has seen the slots up to `anchor + step - 1` free, one lap behind.
pub record Role (c : Config) (oldest q : ℕ) (p : Producer) : Type 0 where
  pub within : p.balance ≤ q
  pub scanned : p.step ≡ 0 ⊎ (p.step ≤ need c + 1) × (p.anchor + p.step ≤ oldest + c.k)

pub record Inv (c : Config) (s : State) : Type 0 where
  pub ordered : s.oldest ≤ s.newest
  pub behind : s.newest ≤ s.wt / c.cap
  pub roles : Roles (Role c s.oldest) c.quotas s.producers
  pub budget :
      (x : ℕ)
      → s.oldest + c.k ≤ x + need c + 1
      → s.wt + total (claim x) c.quotas s.producers ≤ x * c.cap + (c.cap - 1) + exmax c

-- What the source asserts of its arguments.
pub record Fits (c : Config) : Type 0 where
  pub room : 0 < c.cap
  pub enough : exmax c + (c.cap - 1) < need c * c.cap + c.cap
  pub lap : need c + 1 ≤ c.k

fits_bounds : (c : Config) → fits c ≡ true → (0 < exmax c) × (exmax c ≤ (c.k - 1) * c.cap)
fits_bounds c h = ground arith

cap_pos : (x n cap : ℕ) → 0 < x → x ≤ n * cap → 0 < cap
cap_pos x n size h k = grind arith

enough_lem : (x cap : ℕ) → 0 < cap → x + (cap - 1) < (x + cap - 1) / cap * cap + cap
enough_lem x size h = omega (arith, lt-div-mul-add {a = x + size - 1} h)

lap_of : (x j cap : ℕ) → 0 < cap → 0 < x → x ≤ j * cap → x + cap - 1 < (j + 1) * cap
lap_of x j size r p h = omega arith

lap_lem : (x k size : ℕ) → 0 < size → 0 < x → x ≤ (k - 1) * size → x + size - 1 < k * size
lap_lem x zero size r p h = absurd (omega arith)
lap_lem x (suc k) size r p h =
    let e : suc k ≡ (suc k - 1) + 1 = omega arith in
    subst (λ n. x + size - 1 < n * size) (sym e) (lap_of x (suc k - 1) size r p h)

pub Fits-fits : (c : Config) → fits c ≡ true → Fits c
Fits-fits c h =
    let (some_quota, in_ring) = fits_bounds c h in
    let room : 0 < c.cap = cap_pos (exmax c) (c.k - 1) c.cap some_quota in_ring in
    record {
      room = room;
      enough = enough_lem (exmax c) c.cap room;
      lap =
          let below =
            (div-lt_iff_lt-mul room).1 (lap_lem (exmax c) c.k c.cap room some_quota in_ring) in
          omega arith;
    }

residue_in-range :
    (k r lo n e : ℕ) → lo ≤ e → e < lo + n → r ≡ e % k → residue_in k r (range_from lo n) ≡ true
unfolding residue_in range_from
residue_in-range k r lo zero e h l d = absurd (omega arith)
residue_in-range k r lo (suc n) e h l d = ground (arith, residue_in-range k r (suc lo) n e)

residue_out_range :
    (k r lo n : ℕ)
    → ((e : ℕ) → lo ≤ e → e < lo + n → r ≢ e % k)
    → residue_in k r (range_from lo n) ≡ false
unfolding residue_in range_from
residue_out_range k r lo zero h = refl
residue_out_range k r lo (suc n) h =
    ground
      (arith, h lo, residue_out_range k r (suc lo) n (λ e a b. h e (omega arith) (omega arith)))

mod-ne : (k e d : ℕ) → e < d → d < e + k → d % k ≢ e % k
mod-ne k e d h l q =
    apart (d / k) (e / k) (omega (arith, div-add-mod d k, div-add-mod e k))
      (omega (arith, div-add-mod d k, div-add-mod e k))
  where
    apart : (a b : ℕ) → k * b < k * a → k * a < k * b + k → ⊥
    apart a b p r = elim (dec_lt b a) [
      | yes h ↦ omega (arith, mul-le-mul_left {m = suc b} {n = a} k h, mul-suc k b)
      | no h ↦ omega (arith, mul-le-mul_left {m = a} {n = b} k (omega arith))
    ]

-- The slot of the oldest epoch held, one lap on, is pinned.
pub pinned_lap : (c : Config) (s : State) → s.oldest ≤ s.newest → pinned c s (s.oldest + c.k) ≡ true
unfolding pinned
pinned_lap c s h =
    residue_in-range c.k ((s.oldest + c.k) % c.k) s.oldest (s.newest + 1 - s.oldest) s.oldest
      (omega arith) (omega arith) (add-mod_right s.oldest c.k)

-- An epoch ahead of the consumer and less than a lap ahead of its oldest is not pinned.
pub pinned_ahead :
    (c : Config) (s : State) (e : ℕ)
    → s.oldest ≤ s.newest
    → s.newest < e
    → e < s.oldest + c.k
    → pinned c s e ≡ false
unfolding pinned
pinned_ahead c s e o h l =
    residue_out_range c.k (e % c.k) s.oldest (s.newest + 1 - s.oldest)
      (λ a p q. mod-ne c.k a e (omega arith) (omega arith))
