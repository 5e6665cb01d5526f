-- ===== src/Runner/Actors.antt =====
-- tools/perf/run_performance_md.py, `cases_for`: the cells of the actor sections, and the choice of
-- the section.
use text.Mathlib.Text.{◌==◌ as str_eq}
use antfarm.Prelude.{ℕ, List, [], ◌∷◌, ◌++◌, map, Option, none, some, String, if◌then◌else◌}
use antfarm.Runner.Words.{Word, lit, dec, Program, dub, benchmark, Case}
use antfarm.Runner.Cases.{churn_case, churn}
use antfarm.Runner.Farms.{
  Args, concat_map, headline, farm_consumers, farm_chunk_batch, farm_best, huge_cases, pinning,
  dual, tail,
}

-- case("public", name, [benchmark_path("actor_ready"), "16384", "200", "32"], ...)
abbrev ready_case : String → List (String × Word) → String → Case
ready_case name env note = record {
  section = "public";
  name = lit name ∷ [];
  cmd = record {
    program = benchmark "actor_ready";
    words = lit "16384" ∷ lit "200" ∷ lit "32" ∷ [];
  };
  in_ant_fibers = none;
  env = env;
  note = lit note ∷ [];
}

unfoldable pub public_modes : List Case
public_modes =
    concat_map
      (λ mode.
        concat_map
          (λ cons.
            churn
              (record (churn_case "public" (lit mode ∷ lit "_c" ∷ dec cons ∷ lit "_default" ∷ [])
                mode cons) { note = lit "mimalloc, public flush/wave default chunk" ∷ [] })
            ∷ churn
                (record (churn_case "public" (lit mode ∷ lit "_c" ∷ dec cons ∷ lit "_chunk32" ∷ [])
                  mode cons) {
                    public_hint = some 2;
                    note = lit "mimalloc, public flush/wave chunk 32 (class 2)" ∷ [];
                  })
            ∷ [])
          (0 ∷ 6 ∷ []))
      ("actor" ∷ "wave" ∷ "inbox" ∷ [])

unfoldable pub public : List Case
unfolding public_modes
public =
    public_modes
    ++ (map (λ cons. churn (churn_case "public" (lit "actor_curve_c" ∷ dec cons ∷ []) "actor" cons))
          (1 ∷ 2 ∷ 4 ∷ 6 ∷ 11 ∷ [])
        ++ (ready_case "actor_ready_default" []
              "autonomous flush from a prequeued burst, default chunk"
            ∷ ready_case "actor_ready_chunk32" (("ANTFARM_PUBLIC_HINT", lit "2") ∷ [])
                "autonomous flush from a prequeued burst, chunk 32 (class 2)"
            ∷ []))

-- `modes`, with the percentage of a subset.
abbrev pub private_modes : List (String × Option ℕ)
private_modes =
    ("private", none)
    ∷ ("private-remote", none)
    ∷ ("private-tracked", none)
    ∷ ("private-slab", none)
    ∷ ("private-remote-slab", none)
    ∷ ("tree", none)
    ∷ ("tree-wait", none)
    ∷ ("tree-cont", none)
    ∷ ("tree-slab", none)
    ∷ ("tree-wait-slab", none)
    ∷ ("tree-cont-slab", none)
    ∷ ("tree-refill", none)
    ∷ ("tree-refill-slab", none)
    ∷ ("tree-pipelined", none)
    ∷ ("tree-cancel", none)
    ∷ ("dtor", none)
    ∷ ("subset", some 1)
    ∷ ("subset", some 10)
    ∷ ("subset", some 100)
    ∷ ("subset-whole", none)
    ∷ ("subset-whole-unreserved", none)
    ∷ []

abbrev tag : String → Option ℕ → List Word
tag mode none = lit mode ∷ []
tag mode (some p) = lit mode ∷ dec p ∷ []

abbrev pub private_case : String → Option ℕ → ℕ → Case
private_case mode percent cons =
    churn (record (churn_case "private" (tag mode percent ++ lit "_c" ∷ dec cons ∷ []) mode cons) {
      subset_percent = percent;
      note = lit "mimalloc" ∷ [];
    })

unfoldable pub private : Args → List Case
private a =
    concat_map
      (λ ((mode, percent) : String × Option ℕ). map (private_case mode percent) a.private_consumers)
      private_modes

abbrev tuning_case : String → ℕ → String → Option ℕ → String → Case
tuning_case mode batch suffix hint note =
    churn
      (record (churn_case "private_tuning" (lit mode ∷ lit "_b" ∷ dec batch ∷ lit suffix ∷ []) mode
        6) { batch = batch; root_hint = hint; note = lit note ∷ [] })

abbrev child_case : String → String → Option ℕ → String → Case
child_case mode suffix hint note =
    churn (record (churn_case "private_tuning" (lit mode ∷ lit suffix ∷ []) mode 6) {
      child_hint = hint;
      note = lit note ∷ [];
    })

unfoldable pub private_tuning : List Case
private_tuning =
    concat_map
      (λ mode.
        concat_map
          (λ batch.
            tuning_case mode batch "_auto" none "root-hint auto"
            ∷ tuning_case mode batch "_h2" (some 2) "root-hint 2 (chunk 32)"
            ∷ tuning_case mode batch "_h0" (some 0) "root-hint 0 (chunk 128)"
            ∷ [])
          (256 ∷ 1024 ∷ []))
      ("tree" ∷ "private" ∷ [])
    ++ (map (λ batch. tuning_case "private" batch "" none "batch-limit") (256 ∷ 1024 ∷ 2048 ∷ [])
        ++ concat_map
            (λ mode.
              child_case mode "_child_default" none "child wave default (chunk 32)"
              ∷ child_case mode "_child_h0" (some 0) "child wave chunk 128 (class 0)"
              ∷ [])
            ("tree" ∷ "tree-slab" ∷ []))

abbrev allocator_case : String → String → String → String → String → Case
allocator_case name mode allocator binary note =
    churn (record (churn_case "allocators" (lit name ∷ []) mode 6) {
      allocator = allocator;
      binary = binary;
      note = lit note ∷ [];
    })

unfoldable pub allocators : List Case
allocators =
    concat_map
      (λ mode.
        churn (record (churn_case "allocators" (lit mode ∷ lit "_mimalloc" ∷ []) mode 6) {
          allocator = "mimalloc";
          binary = "actor_churn_mimalloc";
        })
        ∷ churn (record (churn_case "allocators" (lit mode ∷ lit "_crt" ∷ []) mode 6) {
          allocator = "crt";
          binary = "actor_churn";
        })
        ∷ [])
      ("actor" ∷ "wave" ∷ "tree" ∷ "private-remote" ∷ [])
    ++ (allocator_case "private_emitter" "private" "mimalloc" "actor_churn_mimalloc"
          "emitter-side free"
        ∷ allocator_case "private_count" "private-remote" "mimalloc-count" "actor_churn_mimalloc"
            "cross-thread free diagnostic"
        ∷ allocator_case "private_emitter_count" "private" "mimalloc-count" "actor_churn_mimalloc"
            "cross-thread free diagnostic"
        ∷ [])

abbrev plain_case : String → String → Program → Option String → List Word → Case
plain_case section name program folder words = record {
  section = section;
  name = lit name ∷ [];
  cmd = record { program = program; words = words };
  in_ant_fibers = folder;
  env = [];
  note = [];
}

unfoldable pub fibers : List Case
fibers =
    plain_case "fibers" "benchmark_st" dub (some "ant_fibers") (
      lit "run"
      ∷ lit "-c"
      ∷ lit "benchmark"
      ∷ lit "--build=release"
      ∷ lit "--compiler=ldc2"
      ∷ lit "--"
      ∷ lit "200000"
      ∷ lit "256"
      ∷ lit "2"
      ∷ [])
    ∷ plain_case "fibers" "benchmark_mt" dub (some "ant_fibers") (
        lit "run"
        ∷ lit "-c"
        ∷ lit "benchmark_mt"
        ∷ lit "--build=release"
        ∷ lit "--compiler=ldc2"
        ∷ lit "--"
        ∷ lit "100000"
        ∷ [])
    ∷ []

unfoldable pub scaling : List Case
scaling =
    plain_case "scaling" "create_16384" (benchmark "scaling") none (lit "create" ∷ lit "16384" ∷ [])
    ∷ plain_case "scaling" "lifecycle_16384_b32" (benchmark "scaling") none
        (lit "lifecycle" ∷ lit "16384" ∷ lit "32" ∷ lit "handle" ∷ [])
    ∷ []

-- The branches of `cases_for`, in its order; a section of another name has no case.
unfoldable pub cases_for : String → Args → List Case
cases_for section a =
    if str_eq section "headline"
    then headline a
    else if str_eq section "farm_consumers"
    then farm_consumers
    else if str_eq section "farm_chunk_batch"
    then farm_chunk_batch
    else if str_eq section "farm_best"
    then farm_best a
    else if str_eq section "huge"
    then huge_cases a
    else if str_eq section "pinning"
    then pinning
    else if str_eq section "dual"
    then dual a
    else if str_eq section "tail"
    then tail a
    else if str_eq section "public"
    then public
    else if str_eq section "private"
    then private a
    else if str_eq section "private_tuning"
    then private_tuning
    else if str_eq section "allocators"
    then allocators
    else if str_eq section "fibers"
    then fibers
    else if str_eq section "scaling"
    then scaling
    else []
