-- ===== src/Windows/Lanes.antt =====
-- scripts/check-windows.py: the methods of Checks, by the commands that they run.
use Prim.Native.String.{◌++◌ as join}
use antfarm.Prelude.{List, [], ◌∷◌, ◌++◌, map, none, some, String, if◌then◌else◌}
use antfarm.Shell.{file, Command, words}
use antfarm.Windows.{
  Lane, packages, threadpool, forkjoin, ordering, review, actors, private, examples, Checks,
  python_script, dub, build_run, is_ldc,
}

module _ (c : Checks) where
  unfoldable pub run_packages : List Command
  unfolding dub
  run_packages =
      python_script c ("scripts/check-betterc.py" ∷ "--compiler" ∷ c.compiler ∷ [])
      ∷ python_script c ("scripts/check-c-abi.py" ∷ "--compiler" ∷ c.compiler ∷ "--core-only" ∷ [])
      ∷ dub c "test" none []
      ∷ dub c "test" (some ":threadpool") []
      ∷ dub c "test" (some ":ant_fibers") []
      ∷ []

  unfoldable pub run_threadpool : List Command
  unfolding dub
  run_threadpool =
      python_script c ("scripts/check-c-abi.py" ∷ "--compiler" ∷ c.compiler ∷ "--runtime-only" ∷ [])
      ∷ (map (λ config. dub c "run" (some ":threadpool") ("-c" ∷ config ∷ []))
            ("affinity-test" ∷ "confine-test" ∷ "wait-races" ∷ "host-test" ∷ [])
          ++ dub c "run" (some ":threadpool") ("-c" ∷ "wait-races" ∷ "--build=release" ∷ [])
            ∷ (if is_ldc c
                then dub c "run" (some ":threadpool") ("-c" ∷ "host-test" ∷ "--build=release" ∷ [])
                  ∷ []
                else []))

  unfoldable pub run_forkjoin : List Command
  unfolding dub
  run_forkjoin = dub c "test" (some ":forkjoin") ("--" ∷ "--DRT-testmode=run-main" ∷ []) ∷ []

  abbrev ordering_test : String → List String → List Command
  ordering_test name versions =
      build_run c name
        (words
          (join "tests/farm/" (join name ".d") ∷ "antfarm/package.d" ∷ "antfarm/allocation.d" ∷ []))
        versions

  unfoldable pub run_ordering : List Command
  unfolding build_run
  run_ordering =
      python_script c ("scripts/check-ring-stores.py" ∷ [])
      ∷ (ordering_test "farm_ordering" ("AntfarmWriteAuditHooks" ∷ [])
          ++ (ordering_test "subscription_live" ("AntfarmWriteAuditHooks" ∷ [])
              ++ ordering_test "leaf_reuse" []))

  abbrev pub common : List String
  common =
      "tests/farm/torture_common.d" ∷ "antfarm/package.d" ∷ "antfarm/allocation.d"
      ∷ "antfarm/templates.d" ∷ []

  abbrev pub slow_tests : List Command
  slow_tests =
      build_run c "t19" (words ("tests/farm/t19_flood_lap.d" ∷ common)) []
      ++ build_run c "concurrent_create"
          (words
            ("tests/farm/concurrent_create.d" ∷ "antfarm/package.d" ∷ "antfarm/allocation.d" ∷ []))
          []

  unfoldable pub run_review : List Command
  unfolding build_run
  run_review =
      python_script c ("tests/farm/run_parallel.py" ∷ "--compiler" ∷ c.compiler ∷ [])
      ∷ (build_run c "torture" (words ("tests/farm/torture_tests.d" ∷ common)) []
          ++ (build_run c "sweep_cursor" (words ("tests/farm/sweep_cursor.d" ∷ common))
                ("AntfarmSweepStats" ∷ [])
              ++ (if c.quick then [] else slow_tests)))

  unfoldable pub run_actors : List Command
  unfolding build_run
  run_actors =
      build_run c "actors"
        (words (
          "tests/actors/actors_torture.d" ∷ "antfarm/package.d" ∷ "antfarm/allocation.d"
          ∷ "antfarm/templates.d" ∷ "antfarm/actors/package.d" ∷ "antfarm/actors/actor.d"
          ∷ "antfarm/actors/wave.d" ∷ "antfarm/actors/private_actor.d" ∷ "antfarm/actors/mimalloc.d"
          ∷ []))
        ("AntfarmActorTestHooks" ∷ "AntfarmMimallocV3" ∷ "AntfarmMimallocStub" ∷ [])

  abbrev private_sources : List String
  private_sources =
      "antfarm/package.d" ∷ "antfarm/allocation.d" ∷ "antfarm/actors/actor.d"
      ∷ "antfarm/actors/wave.d" ∷ "antfarm/actors/private_actor.d" ∷ []

  -- for source in sorted(....glob("private_doc_*.d"))
  unfoldable pub run_doc_examples : List String → List Command
  unfolding build_run
  run_doc_examples [] = []
  run_doc_examples (stem ∷ stems) =
      build_run c stem
        (file (join "tests/private/.doc-examples/" (join stem ".d")) ∷ words private_sources) []
      ++ run_doc_examples stems

  unfoldable pub run_private : List Command
  unfolding build_run run_doc_examples
  run_private =
      build_run c "private" (words ("tests/private/main.d" ∷ private_sources))
        ("AntfarmWriteAuditHooks" ∷ "AntfarmActorTestHooks" ∷ [])
      ++ python_script c ("tests/private/extract_doc_examples.py" ∷ [])
        ∷ run_doc_examples c.doc_examples

  unfoldable pub run_examples : List Command
  run_examples = python_script c ("examples/run_examples.py" ∷ "--compiler" ∷ c.compiler ∷ []) ∷ []

  -- getattr(checks, lane)()
  unfoldable pub run_lane : Lane → List Command
  unfolding run_packages run_threadpool run_forkjoin run_ordering run_review run_actors run_private
      run_examples
  run_lane packages = run_packages
  run_lane threadpool = run_threadpool
  run_lane forkjoin = run_forkjoin
  run_lane ordering = run_ordering
  run_lane review = run_review
  run_lane actors = run_actors
  run_lane private = run_private
  run_lane examples = run_examples

  unfoldable pub run_lanes : List Lane → List Command
  unfolding run_lane
  run_lanes [] = []
  run_lanes (lane ∷ lanes) = run_lane lane ++ run_lanes lanes
