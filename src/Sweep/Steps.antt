-- ===== src/Sweep/Steps.antt =====
-- tools/perf/offccd_sweep.py: the steps of a sweep that `derive` lists.
use antfarm.Prelude.{
  ℕ, zero, suc, ◌+◌, ◌≤◌, ◌<◌, ◌≡◌, ◌⊎◌, inl, inr, ◌↔◌, refl, sym, ap, ◌∙◌, Bool, true, false, List,
  [], ◌∷◌, Option, none, some, String, arith, In,
}
use antfarm.Sweep.Derived.{Combo, Reals, Measured, find, at_k, Step, steps}

abbrev pub is_found : {A : Type 0} → Option A → Bool
is_found none = false
is_found (some a) = true

module _ (o : Reals) (cells : List (Measured o)) (sweep : String) (combo : Combo)
    (base : Option (Measured o)) where
  abbrev pub ks_of : List (Step o) → List ℕ
  ks_of [] = []
  ks_of (s ∷ ss) = s.k ∷ ks_of ss

  abbrev Within : ℕ → ℕ → ℕ → Type 0
  Within k count n =
      (k ≤ n) × (n < k + count) × (is_found (find o (at_k o sweep n combo) cells) ≡ true)

  -- A sweep has a step for a number of threads exactly when this is in the range that is walked and
  -- `find` gives a cell for it, whatever steps come before.
  pub steps-In :
      (count k : ℕ) (prev : Option (Measured o)) (kprev n : ℕ)
      → In n (ks_of (steps o cells sweep combo base count k prev kprev))
        ↔ ((k ≤ n) × (n < k + count) × (is_found (find o (at_k o sweep n combo) cells) ≡ true))
  unfolding steps
  steps-In zero k prev kprev n = (λ h. absurd h, λ (a, b, c). empty a b)
    where
      empty : k ≤ n → n < k + 0 → ⊥
      empty a b = omega (arith, a, b)
  steps-In (suc count) k prev kprev n =
      go (find o (at_k o sweep k combo) cells) refl (λ next m. steps-In count (suc k) next m n)
    where
      wider : Within (suc k) count n → Within k (suc count) n
      wider (a, b, c) = (omega (arith, a), omega (arith, b), c)

      narrower : Within k (suc count) n → (n ≡ k) ⊎ Within (suc k) count n
      narrower (a, b, c) = place (first_or_later a)
        where
          first_or_later : k ≤ n → (n ≡ k) ⊎ (suc k ≤ n)
          first_or_later a = ground arith

          place : (n ≡ k) ⊎ (suc k ≤ n) → (n ≡ k) ⊎ Within (suc k) count n
          place (inl e) = inl e
          place (inr l) = inr (l, omega (arith, b), c)

      clash : false ≡ true → ⊥
      clash e = cc

      at_first :
          (f : Option (Measured o))
          → find o (at_k o sweep k combo) cells ≡ f
          → n ≡ k
          → is_found (find o (at_k o sweep n combo) cells) ≡ is_found f
      at_first f e q = ap (λ m. is_found (find o (at_k o sweep m combo) cells)) q ∙ ap is_found e

      go :
          (f : Option (Measured o))
          → find o (at_k o sweep k combo) cells ≡ f
          → ((next : Option (Measured o)) (m : ℕ)
              → In n (ks_of (steps o cells sweep combo base count (suc k) next m))
                ↔ Within (suc k) count n)
          → In n (ks_of (steps o cells sweep combo base (suc count) k prev kprev))
            ↔ Within k (suc count) n
      go none e ih = rw (e, steps) (λ h. wider ((ih prev kprev).0 h), λ w. later w (narrower w))
        where
          later :
              Within k (suc count) n
              → (n ≡ k) ⊎ Within (suc k) count n
              → In n (ks_of (steps o cells sweep combo base count (suc k) prev kprev))
          later (a, b, c) (inl q) = absurd (clash (sym (at_first none e q) ∙ c))
          later w (inr v) = (ih prev kprev).1 v
      go (some c) e ih = rw (e, steps) (forth, λ w. back (narrower w))
        where
          forth :
              (n ≡ k) ⊎ In n (ks_of (steps o cells sweep combo base count (suc k) (some c) k))
              → Within k (suc count) n
          forth (inl q) = (omega (arith, q), omega (arith, q), at_first (some c) e q)
          forth (inr h) = wider ((ih (some c) k).0 h)

          back :
              (n ≡ k) ⊎ Within (suc k) count n
              → (n ≡ k) ⊎ In n (ks_of (steps o cells sweep combo base count (suc k) (some c) k))
          back (inl q) = inl q
          back (inr v) = inr ((ih (some c) k).1 v)
