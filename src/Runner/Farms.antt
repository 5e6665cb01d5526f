-- ===== src/Runner/Farms.antt =====
-- tools/perf/run_performance_md.py, `cases_for`: the cells of the Farm sections.
use antfarm.Prelude.{
  ℕ, ◌-◌, ◌/◌, ◌^◌, Bool, true, false, List, [], ◌∷◌, ◌++◌, map, Option, none, some, String, ltb,
  ◌==◌, ◌||◌, if◌then◌else◌, length,
}
use antfarm.Runner.Words.{Word, lit, dec, dub, benchmark, Case}
use antfarm.Runner.Cases.{
  churn_case, churn, Throughput, tp_case, tp, dual_case, dcase, pins_for, payload_split,
}

-- The arguments that `cases_for` reads, which `main` has checked: a count in `threads` or
-- `tail_threads` is at least 2; `order` is args.cpu_order, or what cpu_order() returns.
pub record Args : Type 0 where
  pub threads : List ℕ
  pub best_n : ℕ
  pub fiber_tasks : ℕ
  pub dual_threads : List ℕ
  pub tail_threads : List ℕ
  pub tail_ac : ℕ
  pub private_consumers : List ℕ
  pub order : List ℕ

module _ {ℓ κ} {A : Type ℓ} {B : Type κ} where
  abbrev pub concat_map : (A → List B) → List A → List B
  concat_map f [] = []
  concat_map f (x ∷ xs) = f x ++ concat_map f xs

abbrev fast_write : Option String
fast_write = some "--constant-callandlength"

unfoldable pub headline_payload : Args → ℕ → Case
headline_payload a t =
    let (producers, consumers) = payload_split t in
    tp (record (tp_case "headline" (lit "payload_t" ∷ dec t ∷ []) consumers) {
      ns = producers;
      nb = 0;
      body = 1;
      batch = 1700;
      ac = some 0;
      n = some a.best_n;
      write = fast_write;
      note =
          dec producers
          ∷ lit " small producers, "
          ∷ dec consumers
          ∷ lit " consumers, unpinned"
          ∷ [];
    })

unfoldable pub headline_churn : Args → String → String → String → ℕ → Case
headline_churn a prefix mode note t =
    churn (record (churn_case "headline" (lit prefix ∷ dec t ∷ []) mode (t - 1)) {
      pins = some (pins_for t a.order);
      note = lit note ∷ [];
    })

abbrev pub fiber_case : Args → ℕ → Case
fiber_case a t = record {
  section = "headline";
  name = lit "fiber_t" ∷ dec t ∷ [];
  cmd = record {
    program = dub;
    words =
        lit "run"
        ∷ lit "-c"
        ∷ lit "benchmark_mt"
        ∷ lit "--build=release"
        ∷ lit "--compiler=ldc2"
        ∷ lit "--"
        ∷ dec a.fiber_tasks
        ∷ lit "private"
        ∷ dec t
        ∷ [];
  };
  in_ant_fibers = some "ant_fibers";
  env = [];
  note = dec t ∷ lit " pinned workers" ∷ [];
}

-- The Fiber pool pins one worker per CPU: no cell for more threads than CPUs.
unfoldable pub headline_fiber : Args → ℕ → List Case
headline_fiber a t = if ltb (length a.order) t then [] else fiber_case a t ∷ []

unfoldable pub headline : Args → List Case
unfolding headline_payload headline_churn headline_fiber
headline a =
    map (headline_payload a) a.threads
    ++ (map (headline_churn a "private_t" "private-slab" "emitter plus consumers, root slab")
          a.threads
        ++ (map
              (headline_churn a "tree_t" "tree-refill-slab"
                "private child lifecycles: refilled slab cohorts")
              a.threads
            ++ (map (headline_churn a "public_t" "actor" "controller plus consumers") a.threads
                ++ (map (headline_churn a "wave_t" "wave" "public wave lifecycles") a.threads
                    ++ concat_map (headline_fiber a) a.threads))))

unfoldable pub farm_consumers : List Case
farm_consumers =
    map (λ nc. tp (tp_case "farm_consumers" (lit "nc" ∷ dec nc ∷ []) nc)) (1 ∷ 2 ∷ 4 ∷ 6 ∷ 11 ∷ [])

unfoldable pub farm_chunk_batch : List Case
farm_chunk_batch =
    concat_map
      (λ ac.
        map
          (λ batch.
            tp
              (record (tp_case "farm_chunk_batch" (lit "ac" ∷ dec ac ∷ lit "_b" ∷ dec batch ∷ [])
                4) { ac = some ac; batch = batch }))
          (64 ∷ 128 ∷ 256 ∷ 512 ∷ 1024 ∷ 2048 ∷ []))
      (0 ∷ 1 ∷ 2 ∷ 3 ∷ [])

-- tp(..., body=1, batch=1700, n=args.best_n, write="--constant-callandlength")
abbrev best_case : Args → String → String → ℕ → Throughput
best_case a section name nc = record (tp_case section (lit name ∷ []) nc) {
  nb = 0;
  body = 1;
  batch = 1700;
  n = some a.best_n;
  write = fast_write;
}

unfoldable pub farm_best : Args → List Case
farm_best a =
    tp (record (best_case a "farm_best" "headline" 8) {
      ns = 4;
      ac = some 0;
      note = lit ">1B items/s headline" ∷ [];
    })
    ∷ tp (record (best_case a "farm_best" "headline_default_chunk" 8) { ns = 4; ac = some 3 })
    ∷ tp (record (best_case a "farm_best" "single_producer" 11) { ns = 1; ac = some 0 })
    ∷ tp (record (tp_case "farm_best" (lit "default_shape" ∷ []) 4) {
      body = 16;
      batch = 80;
      ac = some 3;
      n = some 16_000_000;
    })
    ∷ []

abbrev huge_env : List (String × Word)
huge_env = ("ANTFARM_HUGE_PAGES", lit "1") ∷ []

unfoldable pub huge_cases : Args → List Case
huge_cases a =
    tp (record (best_case a "huge" "headline_huge" 8) {
      ns = 4;
      ac = some 0;
      huge = true;
      env = huge_env;
    })
    ∷ churn (record (churn_case "huge" (lit "actor_c6_huge" ∷ []) "actor" 6) { env = huge_env })
    ∷ churn (record (churn_case "huge" (lit "tree_c6_huge" ∷ []) "tree" 6) { env = huge_env })
    ∷ []

unfoldable pub pinning : List Case
pinning =
    concat_map
      (λ mode.
        churn (churn_case "pinning" (lit mode ∷ lit "_c6_pinned" ∷ []) mode 6)
        ∷ churn (record (churn_case "pinning" (lit mode ∷ lit "_c6_unpinned" ∷ []) mode 6) {
          unpinned = true;
        })
        ∷ [])
      ("actor" ∷ "tree" ∷ [])

unfoldable pub contains : List ℕ → ℕ → Bool
contains [] a = false
contains (x ∷ xs) a = a == x || contains xs a

abbrev pub dual_shape : String → ℕ → ℕ → Case
dual_shape name batch ac =
    dcase (record (dual_case "dual" (lit name ∷ []) 6) { batch = batch; ac = some ac })

abbrev pub dual_thread : ℕ → Case
dual_thread nd =
    dcase (record (dual_case "dual" (lit "nd" ∷ dec nd ∷ []) nd) { batch = 256; ac = some 3 })

unfoldable pub dual : Args → List Case
unfolding contains
dual a =
    map dual_thread a.dual_threads
    ++ (if contains a.dual_threads 6
        then dual_shape "nd6_b256_ac0" 256 0
          ∷ dual_shape "nd6_b2048_ac0" 2048 0
          ∷ dual_shape "nd6_b256_ac3" 256 3
          ∷ []
        else [])

unfoldable pub tail_case : Args → ℕ → Case
tail_case a t = record {
  section = "tail";
  name = lit "tail_t" ∷ dec t ∷ [];
  cmd = record {
    program = benchmark "tail";
    words =
        (lit "--nc" ∷ dec (t - 1) ∷ lit "--samples" ∷ lit "10000" ∷ lit "--repeats" ∷ lit "1" ∷ [])
        ++ (if a.tail_ac == 3 then [] else lit "--ac" ∷ dec a.tail_ac ∷ []);
  };
  in_ant_fibers = none;
  env = [];
  note =
      dec (t - 1)
      ∷ lit " pinned consumers plus the producer; chunk "
      ∷ dec (128 / 2 ^ a.tail_ac)
      ∷ [];
}

unfoldable pub tail : Args → List Case
unfolding tail_case
tail a = map (tail_case a) a.tail_threads
