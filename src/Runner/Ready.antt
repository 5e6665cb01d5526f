-- ===== src/Runner/Ready.antt =====
-- Every cell of every section can be run: its output has a parser, and the number of its runs is
-- read off its command without an exception.
use text.Mathlib.Text.{◌==◌ as str_eq}
use antfarm.Prelude.{
  ℕ, ◌-◌, ◌≤◌, ◌≡◌, ◌⊎◌, inr, refl, Bool, true, false, ◌&&◌, List, [], ◌∷◌, map, Option, none, some,
  String, arith, ◌==◌, if◌then◌else◌, max, All, All-append, ltb, length,
}
use antfarm.Runner.Words.{Command, Case}
use antfarm.Runner.Cases.{Churn, churn, Throughput, tp, Dual, dcase}
use antfarm.Runner.Farms.{
  Args, concat_map, headline, headline_payload, headline_churn, headline_fiber, fiber_case,
  farm_consumers, farm_chunk_batch, farm_best, huge_cases, pinning, contains, dual, dual_shape,
  dual_thread, tail, tail_case,
}
use antfarm.Runner.Actors.{
  public, public_modes, private, private_case, private_modes, private_tuning, allocators, fibers,
  scaling, cases_for,
}
use antfarm.Runner.Select.{Parser, parser_for, consumers_of, requested_runs}
use antfarm.Runner.Reads.{
  consumers_of-churn, consumers_of-tp, consumers_of-dcase, consumers_of-tail_case, parser_for-churn,
  parser_for-tp, parser_for-dcase, parser_for-tail_case,
}

module _ {ℓ κ} {A : Type ℓ} {B : Type κ} where
  All-map {μ} :
      (P : B → Type μ) (f : A → B) → ((x : A) → P (f x)) → (xs : List A) → All P (map f xs)
  All-map P f h [] = tt
  All-map P f h (x ∷ xs) = (h x, All-map P f h xs)

  All-concat_map {μ} :
      (P : B → Type μ) (f : A → List B)
      → ((x : A) → All P (f x))
      → (xs : List A) → All P (concat_map f xs)
  All-concat_map P f h [] = tt
  All-concat_map P f h (x ∷ xs) =
      All-append P (f x) (concat_map f xs) (h x) (All-concat_map P f h xs)

abbrev read_ok : Option Parser → Option (Option ℕ) → Bool
read_ok none n = false
read_ok (some p) none = false
read_ok (some p) (some n) = true

-- The test of what `Ready` says.
unfoldable readable : Case → Bool
readable c = read_ok (parser_for c.cmd) (consumers_of c.cmd)

unfoldable all_readable : List Case → Bool
all_readable [] = true
all_readable (c ∷ cs) = readable c && all_readable cs

and_left : (a b : Bool) → (a && b) ≡ true → a ≡ true
and_left a b h = ground arith

and_right : (a b : Bool) → (a && b) ≡ true → b ≡ true
and_right a b h = ground arith

pick :
    (P : Case → Type 0) (b : Bool) (xs ys : List Case)
    → All P xs
    → All P ys
    → All P (if b then xs else ys)
pick P true xs ys h k = h
pick P false xs ys h k = k

module _ (runs : ℕ) (minimum : Option ℕ) where
  -- A parser, and a number of runs that is at least the one asked for.
  abbrev pub Ready : Case → Type 0
  Ready c =
      ((p : Parser) × (parser_for c.cmd ≡ some p))
      × ((n : ℕ) × (requested_runs runs minimum c.cmd ≡ some n) × (runs ≤ n))

  at_least : (m n : ℕ) → runs ≤ (if n == 6 then max runs m else runs)
  at_least m n = ground arith

  runs_of :
      (c : Command) (n : Option ℕ)
      → consumers_of c ≡ some n
      → (k : ℕ) × (requested_runs runs minimum c ≡ some k) × (runs ≤ k)
  unfolding requested_runs
  runs_of c n h = go minimum n h
    where
      go :
          (m : Option ℕ) (n : Option ℕ)
          → consumers_of c ≡ some n
          → (k : ℕ) × (requested_runs runs m c ≡ some k) × (runs ≤ k)
      go none n h = (runs, refl, omega arith)
      go (some m) none h = (runs, rw (h, requested_runs), omega arith)
      go (some m) (some n) h =
          (if n == 6 then max runs m else runs, rw (h, requested_runs), at_least m n)

  churn-Ready :
      (r : Churn)
      → (r.binary ≡ "actor_churn") ⊎ (r.binary ≡ "actor_churn_mimalloc")
      → Ready (churn r)
  churn-Ready r h =
      (parser_for-churn r h, runs_of (churn r).cmd (some r.consumers) (consumers_of-churn r h))

  tp-Ready : (r : Throughput) → Ready (tp r)
  tp-Ready r = (parser_for-tp r, runs_of (tp r).cmd (some r.nc) (consumers_of-tp r))

  dcase-Ready : (r : Dual) → Ready (dcase r)
  dcase-Ready r = (parser_for-dcase r, runs_of (dcase r).cmd none (consumers_of-dcase r))

  tail_case-Ready : (a : Args) (t : ℕ) → Ready (tail_case a t)
  tail_case-Ready a t = (
    parser_for-tail_case a t,
    runs_of (tail_case a t).cmd (some (t - 1)) (consumers_of-tail_case a t),
  )

  readable-Ready : (c : Case) → readable c ≡ true → Ready c
  unfolding readable
  readable-Ready c h = go (parser_for c.cmd) refl (consumers_of c.cmd) refl h
    where
      go :
          (p : Option Parser)
          → parser_for c.cmd ≡ p
          → (n : Option (Option ℕ)) → consumers_of c.cmd ≡ n
          → read_ok p n ≡ true
          → Ready c
      go none e n f h = ground arith
      go (some p) e none f h = ground arith
      go (some p) e (some n) f h = ((p, e), runs_of c.cmd n f)

  all_readable-Ready : (cs : List Case) → all_readable cs ≡ true → All Ready cs
  unfolding all_readable
  all_readable-Ready [] h = tt
  all_readable-Ready (c ∷ cs) h =
      (readable-Ready c (and_left _ _ h), all_readable-Ready cs (and_right _ _ h))

  fiber-Ready : (a : Args) (t : ℕ) → All Ready (headline_fiber a t)
  unfolding headline_fiber all_readable readable parser_for consumers_of
  fiber-Ready a t = go (ltb (length a.order) t)
    where
      go : (b : Bool) → All Ready (if b then [] else fiber_case a t ∷ [])
      go true = tt
      go false = (readable-Ready (fiber_case a t) refl, tt)

  headline-Ready : (a : Args) → All Ready (headline a)
  unfolding headline headline_churn headline_payload
  headline-Ready a =
      All-append Ready _ _ (All-map Ready (headline_payload a) (λ t. tp-Ready _) a.threads) (
        All-append Ready _ _ (churns "private_t" "private-slab" _) (
          All-append Ready _ _ (churns "tree_t" "tree-refill-slab" _) (
            All-append Ready _ _ (churns "public_t" "actor" _) (
              All-append Ready _ _ (churns "wave_t" "wave" _)
                (All-concat_map Ready (headline_fiber a) (fiber-Ready a) a.threads)))))
    where
      churns :
          (prefix mode note : String)
          → All Ready (map (headline_churn a prefix mode note) a.threads)
      churns prefix mode note =
          All-map Ready (headline_churn a prefix mode note) (λ t. churn-Ready _ (inr refl))
            a.threads

  farm_sections-Ready : All Ready farm_consumers × All Ready farm_chunk_batch × All Ready pinning
  unfolding farm_consumers farm_chunk_batch pinning all_readable readable parser_for tp churn
      consumers_of
  farm_sections-Ready = (
    all_readable-Ready farm_consumers refl,
    all_readable-Ready farm_chunk_batch refl,
    all_readable-Ready pinning refl,
  )

  best_and_huge-Ready : (a : Args) → All Ready (farm_best a) × All Ready (huge_cases a)
  unfolding farm_best huge_cases all_readable readable parser_for tp churn consumers_of
  best_and_huge-Ready a =
      (all_readable-Ready (farm_best a) refl, all_readable-Ready (huge_cases a) refl)

  dual-Ready : (a : Args) → All Ready (dual a)
  unfolding dual
  dual-Ready a =
      All-append Ready _ _ (All-map Ready (dual_thread) (λ nd. dcase-Ready _) a.dual_threads)
        (more (contains a.dual_threads 6))
    where
      more :
          (b : Bool)
          → All Ready (
              if b
              then dual_shape "nd6_b256_ac0" 256 0
                ∷ dual_shape "nd6_b2048_ac0" 2048 0
                ∷ dual_shape "nd6_b256_ac3" 256 3
                ∷ []
              else [])
      more true = (dcase-Ready _, (dcase-Ready _, (dcase-Ready _, tt)))
      more false = tt

  tail-Ready : (a : Args) → All Ready (tail a)
  unfolding tail
  tail-Ready a = All-map Ready (tail_case a) (tail_case-Ready a) a.tail_threads

  private-Ready : (a : Args) → All Ready (private a)
  unfolding private
  private-Ready a =
      All-concat_map Ready (λ m. map (private_case m.0 m.1) a.private_consumers)
        (λ m.
          All-map Ready (private_case m.0 m.1) (λ cons. churn-Ready _ (inr refl))
            a.private_consumers)
        private_modes

  actor_sections-Ready : All Ready public × All Ready private_tuning × All Ready allocators
  unfolding public public_modes private_tuning allocators all_readable readable parser_for churn
      consumers_of
  actor_sections-Ready = (
    all_readable-Ready public refl,
    all_readable-Ready private_tuning refl,
    all_readable-Ready allocators refl,
  )

  other_sections-Ready : All Ready fibers × All Ready scaling
  unfolding fibers scaling all_readable readable parser_for consumers_of
  other_sections-Ready = (all_readable-Ready fibers refl, all_readable-Ready scaling refl)

  -- Every cell of every section has a parser for its output, and a number of runs that is at least
  -- the one asked for.
  pub cases_for-Ready : (section : String) (a : Args) → All Ready (cases_for section a)
  unfolding cases_for
  cases_for-Ready section a = pick Ready (str_eq section "headline") _ _ (headline-Ready a) (
      pick Ready (str_eq section "farm_consumers") _ _ farm_sections-Ready.0 (
        pick Ready (str_eq section "farm_chunk_batch") _ _ farm_sections-Ready.1 (
          pick Ready (str_eq section "farm_best") _ _ ((best_and_huge-Ready a).0) (
            pick Ready (str_eq section "huge") _ _ ((best_and_huge-Ready a).1) (
              pick Ready (str_eq section "pinning") _ _ farm_sections-Ready.2 (
                pick Ready (str_eq section "dual") _ _ (dual-Ready a) (
                  pick Ready (str_eq section "tail") _ _ (tail-Ready a) (
                    pick Ready (str_eq section "public") _ _ actor_sections-Ready.0 (
                      pick Ready (str_eq section "private") _ _ (private-Ready a) (
                        pick Ready (str_eq section "private_tuning") _ _ actor_sections-Ready.1 (
                          pick Ready (str_eq section "allocators") _ _ actor_sections-Ready.2 (
                            pick Ready (str_eq section "fibers") _ _ other_sections-Ready.0 (
                              pick Ready (str_eq section "scaling") _ _ other_sections-Ready.1
                                (tt))))))))))))))
