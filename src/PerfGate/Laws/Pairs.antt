-- ===== src/PerfGate/Laws/Pairs.antt =====
-- The attempts at one cell: which pairs are kept, how many, and in which order their halves ran.
use antfarm.Prelude.{
  ℕ, zero, suc, ◌+◌, ◌*◌, ◌%◌, ◌≤◌, ◌<◌, ◌≡◌, ◌⊎◌, inl, inr, refl, List, [], ◌∷◌, ◌++◌, arith, leb,
  ◌==◌, if◌then◌else◌, length, length-append, Bool-cases, subst,
}
use antfarm.PerfGate.Floats.{Floats}
use antfarm.PerfGate.Campaign.{
  Version, base, candidate, Pair, Runs, Attempt, paired, invalid, attempt_pair, is_clean, Cell,
  Measured, measured, failed, record_pair, measure, measure_cell, kept_order_count, is_version,
}

-- The version that runs first in the next attempt.
abbrev next_first : ℕ → Version
next_first kept = if (kept % 2) == 0 then base else candidate

-- Of `n` alternating pairs, `b` began with the base and `c` with the candidate.
abbrev Alternates : ℕ → ℕ → ℕ → Type 0
Alternates n b c = (2 * b ≡ n + n % 2) × (2 * c + n % 2 ≡ n)

Alternates-next :
    (n b c : ℕ)
    → Alternates n b c
    → Alternates
        (n + 1)
        (b + (if is_version (next_first n) base then 1 else 0))
        (c + (if is_version (next_first n) candidate then 1 else 0))
Alternates-next n b c h = elim (Bool-cases ((n % 2) == 0)) [
  | inl e ↦ rw e (let even : n % 2 ≡ 0 = ground arith in omega arith)
  | inr e ↦ rw e (let odd : n % 2 ≡ 1 = ground arith in omega arith)
]

module _ (N : Floats) where
  -- The attempts in which no row was contaminated.
  pub clean_of : List (Pair N) → List (Pair N)
  clean_of [] = []
  clean_of (p ∷ ps) = let rest = clean_of ps in if is_clean N p then p ∷ rest else rest

  clean_of-append :
      (xs : List (Pair N)) (p : Pair N)
      → clean_of (xs ++ p ∷ []) ≡ (if is_clean N p then clean_of xs ++ p ∷ [] else clean_of xs)
  unfolding clean_of
  clean_of-append [] p = ground arith
  clean_of-append (x ∷ xs) p = ground (arith, clean_of-append xs p)

  kept_order_count-append :
      (v : Version) (xs : List (Pair N)) (p : Pair N)
      → kept_order_count N v (xs ++ p ∷ [])
        ≡ kept_order_count N v xs + (if is_version p.first v then 1 else 0)
  unfolding kept_order_count
  kept_order_count-append v [] p = ground arith
  kept_order_count-append v (x ∷ xs) p = ground (arith, kept_order_count-append v xs p)

  record CellInv (tried : ℕ) (s : Cell N) : Type 0 where
    filtered : s.pairs ≡ clean_of s.attempts
    attempted : length s.attempts ≡ tried
    alternates :
        Alternates
          (length s.pairs)
          (kept_order_count N base s.pairs)
          (kept_order_count N candidate s.pairs)

  attempt_pair-first :
      (run : Runs N) (repeat kept : ℕ) (p : Pair N)
      → attempt_pair N run repeat kept ≡ paired p
      → p.first ≡ next_first kept
  unfolding attempt_pair
  attempt_pair-first run repeat kept p h = ground arith

  record_pair-CellInv :
      (tried : ℕ) (s : Cell N) (p : Pair N)
      → p.first ≡ next_first (length s.pairs)
      → CellInv tried s
      → CellInv (suc tried) (record_pair N s p)
  unfolding record_pair
  record_pair-CellInv tried s p e h = elim (Bool-cases (is_clean N p)) [
    | inl clean ↦ rw clean (record {
      filtered = let new = rw clean at (clean_of-append s.attempts p) in cc;
      attempted = omega (arith, h.attempted, length-append s.attempts (p ∷ []));
      alternates =
          simp (kept_order_count-append, length-append, e)
            (Alternates-next (length s.pairs) (kept_order_count N base s.pairs)
              (kept_order_count N candidate s.pairs) h.alternates);
    })
    | inr shared ↦ rw shared (record {
      filtered = let old = rw shared at (clean_of-append s.attempts p) in cc;
      attempted = omega (arith, h.attempted, length-append s.attempts (p ∷ []));
      alternates = h.alternates;
    })
  ]

  length-record_pair :
      (s : Cell N) (p : Pair N) → length (record_pair N s p).pairs ≤ length s.pairs + 1
  unfolding record_pair
  length-record_pair s p = ground (arith, length-append s.pairs (p ∷ []))

  record Done (repeats max_attempts : ℕ) (s : Cell N) : Type 0 where
    pub kept : s.pairs ≡ clean_of s.attempts
    pub at_most : length s.pairs ≤ repeats
    pub in_budget : length s.attempts ≤ max_attempts
    pub ended : (length s.pairs ≡ repeats) ⊎ (length s.attempts ≡ max_attempts)
    pub alternates :
        Alternates
          (length s.pairs)
          (kept_order_count N base s.pairs)
          (kept_order_count N candidate s.pairs)

  abbrev MeasuredDone : ℕ → ℕ → Measured N → Type 0
  MeasuredDone repeats max_attempts (measured s) = Done repeats max_attempts s
  MeasuredDone repeats max_attempts failed = Unit

  Done-if :
      (repeats tried max_attempts kept : ℕ) (t : Cell N) (rest : Measured N)
      → kept < repeats
      → tried ≤ max_attempts
      → length t.pairs ≤ kept + 1
      → CellInv tried t
      → (CellInv tried t → length t.pairs < repeats → MeasuredDone repeats max_attempts rest)
      → MeasuredDone repeats max_attempts
          (if leb repeats (length t.pairs) then measured t else rest)
  Done-if repeats tried max_attempts kept t rest lt budget bound k more =
      elim (Bool-cases (leb repeats (length t.pairs))) [
        | inl full ↦ rw full (record {
          kept = k.filtered;
          at_most = omega arith;
          in_budget = omega (arith, k.attempted);
          ended = inl (ground arith);
          alternates = k.alternates;
        })
        | inr room ↦ rw room (more k (ground arith))
      ]

  measure-Done :
      (run : Runs N) (repeats tried left : ℕ) (s : Cell N)
      → CellInv tried s
      → length s.pairs < repeats
      → MeasuredDone repeats (tried + left) (measure N run repeats tried left s)
  unfolding measure
  measure-Done run repeats tried zero s h lt = record {
    kept = h.filtered;
    at_most = omega arith;
    in_budget = omega (arith, h.attempted);
    ended = inr (omega (arith, h.attempted));
    alternates = h.alternates;
  }
  measure-Done run repeats tried (suc left) s h lt =
      go (attempt_pair N run tried (length s.pairs)) refl
        (λ t. measure-Done run repeats (suc tried) left t)
    where
      budget : suc tried + left ≡ tried + suc left
      budget = omega arith

      go :
          (a : Attempt N)
          → attempt_pair N run tried (length s.pairs) ≡ a
          → ((t : Cell N)
              → CellInv (suc tried) t
              → length t.pairs < repeats
              → MeasuredDone repeats (suc tried + left) (measure N run repeats (suc tried) left t))
          → MeasuredDone repeats (tried + suc left) (elim a [
            | invalid ↦ failed
            | paired p ↦
                if leb repeats (length (record_pair N s p).pairs)
                then measured (record_pair N s p)
                else measure N run repeats (suc tried) left (record_pair N s p)
          ])
      go invalid e rest = tt
      go (paired p) e rest =
          Done-if repeats (suc tried) (tried + suc left) (length s.pairs) (record_pair N s p)
            (measure N run repeats (suc tried) left (record_pair N s p)) lt (omega arith)
            (length-record_pair s p)
            (record_pair-CellInv tried s p (attempt_pair-first run tried (length s.pairs) p e) h)
            (λ k b.
              subst
                (λ n.
                  MeasuredDone repeats n
                    (measure N run repeats (suc tried) left (record_pair N s p)))
                budget (rest (record_pair N s p) k b))

-- The attempts at a cell, whatever the rows: the pairs kept are the clean ones of the attempts, in
-- order; there are at most `repeats` of them and at most `max_attempts` attempts; the loop ends
-- with all the pairs that were asked for or with all attempts spent; and among the pairs kept those
-- that began with the base and those that began with the candidate differ in number by at most one.
pub measure_cell_lem :
    (N : Floats) (run : Runs N) (repeats max_attempts : ℕ) (s : Cell N)
    → 0 < repeats
    → measure_cell N run repeats max_attempts ≡ measured s
    → (s.pairs ≡ clean_of N s.attempts)
      × (length s.pairs ≤ repeats)
      × (length s.attempts ≤ max_attempts)
      × ((length s.pairs ≡ repeats) ⊎ (length s.attempts ≡ max_attempts))
      × (kept_order_count N candidate s.pairs ≤ kept_order_count N base s.pairs)
      × (kept_order_count N base s.pairs ≤ kept_order_count N candidate s.pairs + 1)
unfolding measure_cell
measure_cell_lem N run repeats max_attempts s pos e =
    let done : Done N repeats max_attempts s = subst (MeasuredDone N repeats max_attempts) e (
      subst
        (λ n.
          MeasuredDone N repeats n
            (measure N run repeats 0 max_attempts (record { pairs = []; attempts = [] })))
        (omega arith)
        (measure-Done N run repeats 0 max_attempts (record { pairs = []; attempts = [] })
          (record {
            filtered = unfold clean_of in refl;
            attempted = omega arith;
            alternates = unfold kept_order_count in omega arith;
          })
          (omega arith))) in
    let (b, c) = done.alternates in
    (done.kept, done.at_most, done.in_budget, done.ended, omega (arith, b, c), omega (arith, b, c))
