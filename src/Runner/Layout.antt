-- ===== src/Runner/Layout.antt =====
-- tools/perf/llc_split.py: what `split` and `parts_for` do with the threads of a sample.
use native.Mathlib.Nat.{
  le-div_iff_mul-le, div-le_of_le-mul, div-add-mod, mod-lt, lt-div-mul-add, lt_of_mul-lt-mul_left,
  le-mul_of_pos_right,
}
use antfarm.Prelude.{
  ℕ, zero, suc, ◌+◌, ◌-◌, ◌*◌, ◌/◌, ◌%◌, ◌≤◌, ◌<◌, ◌≡◌, ◌∙◌, subst, sym, ◌⊎◌, inl, inr, refl, min,
  false, ◌||◌, List, [], ◌∷◌, Option, none, some, ltb, ◌==◌, if◌then◌else◌, length, arith, All,
}
use antfarm.Runner.Split.{shares, first_groups, groups_needed, split}

-- The sum of the shares.
unfoldable pub total : List (ℕ × List ℕ) → ℕ
total [] = 0
total ((share, group) ∷ rest) = share + total rest

total-shares :
    (base extra i : ℕ) (gs : List (List ℕ))
    → total (shares base extra i gs) + min extra i ≡ length gs * base + min extra (i + length gs)
unfolding shares total
total-shares base extra i [] = omega arith
total-shares base extra i (g ∷ gs) = step (total-shares base extra (suc i) gs)
  where
    step :
        total (shares base extra (suc i) gs) + min extra (suc i)
          ≡ length gs * base + min extra (suc i + length gs)
        → base + (if ltb i extra then 1 else 0) + total (shares base extra (suc i) gs) + min extra i
          ≡ suc (length gs) * base + min extra (i + suc (length gs))
    step h = ground arith

length-first_groups : (n : ℕ) (gs : List (List ℕ)) → n ≤ length gs → length (first_groups n gs) ≡ n
unfolding first_groups
length-first_groups zero gs h = refl
length-first_groups (suc n) [] h = omega arith
length-first_groups (suc n) (g ∷ gs) h = omega (arith, length-first_groups n gs (omega arith))

-- Every share is the base or one more.
shares-even :
    (base extra i : ℕ) (gs : List (List ℕ))
    → All (λ (p : ℕ × List ℕ). (p.0 ≡ base) ⊎ (p.0 ≡ suc base)) (shares base extra i gs)
unfolding shares
shares-even base extra i [] = tt
shares-even base extra i (g ∷ gs) = (ground arith, shares-even base extra (suc i) gs)

length-shares :
    (base extra i : ℕ) (gs : List (List ℕ)) → length (shares base extra i gs) ≡ length gs
unfolding shares
length-shares base extra i [] = refl
length-shares base extra i (g ∷ gs) = omega (arith, length-shares base extra (suc i) gs)

min-cases : (a b : ℕ) → (min a b ≡ a) ⊎ (min a b ≡ b)
min-cases a b = omega arith

module _ (count size threads : ℕ) (c : 0 < count) (s : 0 < size) (t : 0 < threads) where
  groups_needed-bounds :
      (0 < groups_needed count size threads) × (groups_needed count size threads ≤ count)
  unfolding groups_needed
  groups_needed-bounds = (go ((le-div_iff_mul-le s).1 one_group), omega arith)
    where
      one_group : 1 * size ≤ threads + (size - 1)
      one_group = omega arith

      go : 1 ≤ (threads + (size - 1)) / size → 0 < min count ((threads + (size - 1)) / size)
      go h = omega arith

  -- One group fewer does not hold the threads.
  groups_needed-fewest : (k : ℕ) → k < groups_needed count size threads → k * size < threads
  unfolding groups_needed
  groups_needed-fewest k h = go ((le-div_iff_mul-le s).0 below)
    where
      below : suc k ≤ (threads + (size - 1)) / size
      below = omega arith

      go : suc k * size ≤ threads + (size - 1) → k * size < threads
      go h = omega arith

  -- The groups hold the threads when all of them do.
  groups_needed-enough : threads ≤ count * size → threads ≤ groups_needed count size threads * size
  unfolding groups_needed
  groups_needed-enough h = go ((threads + (size - 1)) / size) (lt-div-mul-add s)
    where
      go : (q : ℕ) → threads + (size - 1) < q * size + size → threads ≤ min count q * size
      go q k = elim (min-cases count q) [ inl e ↦ rw e h | inr e ↦ rw e (omega arith) ]

-- A group count that is less than all groups holds the threads.
groups_needed-all :
    (count size threads : ℕ)
    → 0 < size
    → (threads ≤ groups_needed count size threads * size)
      ⊎ (groups_needed count size threads ≡ count)
unfolding groups_needed
groups_needed-all count size threads s = go ((threads + (size - 1)) / size) (lt-div-mul-add s)
  where
    go :
        (q : ℕ)
        → threads + (size - 1) < q * size + size
        → (threads ≤ min count q * size) ⊎ (min count q ≡ count)
    go q k = elim (min-cases count q) [ inl e ↦ inr e | inr e ↦ inl (rw e (omega arith)) ]

-- No share is larger than `most`, when neither the base nor, with an extra thread, one more is.
shares-bounded :
    (most base extra i : ℕ) (gs : List (List ℕ))
    → base ≤ most
    → (0 < extra → suc base ≤ most)
    → All (λ (p : ℕ × List ℕ). p.0 ≤ most) (shares base extra i gs)
unfolding shares
shares-bounded most base extra i [] h k = tt
shares-bounded most base extra i (g ∷ gs) h k =
    (bound (ltb_lem i extra), shares-bounded most base extra (suc i) gs h k)
  where
    ltb_lem : (i extra : ℕ) → (ltb i extra ≡ false) ⊎ (0 < extra)
    ltb_lem i extra = ground arith

    bound : (ltb i extra ≡ false) ⊎ (0 < extra) → base + (if ltb i extra then 1 else 0) ≤ most
    bound (inl e) = rw e (omega arith)
    bound (inr p) = ground (arith, k p)

All-imp {ℓ κ μ} :
    {A : Type ℓ}
    → {P : A → Type κ} → {Q : A → Type μ} → (xs : List A) → ((x : A) → P x → Q x)
    → All P xs
    → All Q xs
All-imp [] h p = tt
All-imp (x ∷ xs) h p = (h x p.0, All-imp xs h p.1)

module _ (threads : ℕ) (g : List ℕ) (gs : List (List ℕ)) (t : 0 < threads) (s : 0 < length g) where
  abbrev pub used : ℕ
  used = groups_needed (suc (length gs)) (length g) threads

  abbrev pub portions : List (ℕ × List ℕ)
  portions = shares (threads / used) (threads % used) 0 (first_groups used (g ∷ gs))

  used-bounds : (0 < used) × (used ≤ suc (length gs))
  used-bounds = groups_needed-bounds (suc (length gs)) (length g) threads (omega arith) s t

  pub split-eq : split threads (g ∷ gs) ≡ some portions
  unfolding split
  split-eq = go used used-bounds.0 _
    where
      go :
          (n : ℕ)
          → 0 < n
          → (p : Option (List (ℕ × List ℕ))) → (if length g == 0 || n == 0 then none else p) ≡ p
      go n h p = ground arith

  length-portions : length portions ≡ used
  length-portions =
      length-shares (threads / used) (threads % used) 0 (first_groups used (g ∷ gs))
      ∙ length-first_groups used (g ∷ gs) used-bounds.1

  pub total-portions : total portions ≡ threads
  total-portions =
      go used (total portions) (length (first_groups used (g ∷ gs)))
        (length-first_groups used (g ∷ gs) used-bounds.1) (mod-lt threads used-bounds.0)
        (div-add-mod threads used)
        (total-shares (threads / used) (threads % used) 0 (first_groups used (g ∷ gs)))
    where
      go :
          (n sum count : ℕ)
          → count ≡ n
          → threads % n < n
          → n * (threads / n) + threads % n ≡ threads
          → sum + min (threads % n) 0 ≡ count * (threads / n) + min (threads % n) (0 + count)
          → sum ≡ threads
      go n sum count e m d h = go2 (
          subst (λ c. sum + min (threads % n) 0 ≡ c * (threads / n) + min (threads % n) (0 + c)) e
            h)
        where
          go2 :
              sum + min (threads % n) 0 ≡ n * (threads / n) + min (threads % n) (0 + n)
              → sum ≡ threads
          go2 h = omega arith

  portions-even :
      All (λ (p : ℕ × List ℕ). (p.0 ≡ threads / used) ⊎ (p.0 ≡ suc (threads / used))) portions
  portions-even = shares-even (threads / used) (threads % used) 0 (first_groups used (g ∷ gs))

  pub portions-positive : All (λ (p : ℕ × List ℕ). 0 < p.0) portions
  portions-positive =
      All-imp portions (λ p h. elim h [ inl e ↦ rw e base | inr e ↦ rw e (omega arith) ])
        portions-even
    where
      fewer : (n k l : ℕ) → n ≡ suc k → k * l < threads → 0 < l → n ≤ threads
      fewer n k l e h p = omega (arith, le-mul_of_pos_right {m = l} k p)

      last : used ≡ suc (used - 1)
      last = omega (arith, used-bounds.0)

      base : 0 < threads / used
      base = (le-div_iff_mul-le used-bounds.0).1 (
          omega (
            arith,
            fewer used (used - 1) (length g) last
                (groups_needed-fewest (suc (length gs)) (length g) threads (omega arith) s t
                  (used - 1) (omega (arith, used-bounds.0)))
                s,
          ))

  -- No share is larger than the first group when the groups hold the threads.
  portions-fit :
      threads ≤ suc (length gs) * length g → All (λ (p : ℕ × List ℕ). p.0 ≤ length g) portions
  portions-fit h =
      shares-bounded (length g) (threads / used) (threads % used) 0 (first_groups used (g ∷ gs))
        ((div-le_of_le-mul used enough)) extra
    where
      enough : threads ≤ used * length g
      enough = groups_needed-enough (suc (length gs)) (length g) threads (omega arith) s t h

      extra : 0 < threads % used → suc (threads / used) ≤ length g
      extra p = less used (threads / used) (threads % used) (div-add-mod threads used) p enough
        where
          less :
              (n q r : ℕ) → n * q + r ≡ threads → 0 < r → threads ≤ n * length g → suc q ≤ length g
          less n q r e p h = lt_of_mul-lt-mul_left n (omega arith)

  -- One group fewer would not hold the threads.
  portions-fewest : (length portions - 1) * length g < threads
  portions-fewest =
      groups_needed-fewest (suc (length gs)) (length g) threads (omega arith) s t
        (length portions - 1) (omega (arith, length-portions, used-bounds.0))

  -- For at least one thread and a first group of at least one CPU, `split` returns shares that add up
  -- to the threads and differ by at most one; it uses at least one group and no more than there are.
  -- With all groups taken to be of the first one's size, the groups that it uses hold the threads or
  -- are all that there are, and one group fewer would not hold the threads.
  pub split_lem :
      (ps : List (ℕ × List ℕ)) × (split threads (g ∷ gs) ≡ some ps)
      × (total ps ≡ threads)
      × All (λ (p : ℕ × List ℕ). (p.0 ≡ threads / length ps) ⊎ (p.0 ≡ suc (threads / length ps))) ps
      × (0 < length ps)
      × (length ps ≤ suc (length gs))
      × ((length ps - 1) * length g < threads)
      × ((threads ≤ length ps * length g) ⊎ (length ps ≡ suc (length gs)))
  split_lem = (
    portions,
    split-eq,
    total-portions,
    subst (λ n. All (λ (p : ℕ × List ℕ). (p.0 ≡ threads / n) ⊎ (p.0 ≡ suc (threads / n))) portions)
        (sym length-portions) portions-even,
    subst (λ n. 0 < n) (sym length-portions) used-bounds.0,
    subst (λ n. n ≤ suc (length gs)) (sym length-portions) used-bounds.1,
    portions-fewest,
    subst (λ n. (threads ≤ n * length g) ⊎ (n ≡ suc (length gs))) (sym length-portions)
        (groups_needed-all (suc (length gs)) (length g) threads s),
  )

  -- When all the groups, each taken to be of the first one's size, hold the threads, no share that
  -- `split` returns is larger than the first group. There is a thread, and the first group has a CPU.
  pub split-fits :
      threads ≤ suc (length gs) * length g
      → (ps : List (ℕ × List ℕ)) × (split threads (g ∷ gs) ≡ some ps)
        × All (λ (p : ℕ × List ℕ). p.0 ≤ length g) ps
  split-fits h = (portions, split-eq, portions-fit h)
