-- ===== src/Windows/Binaries.antt =====
-- scripts/check-windows.py: every binary that the lanes run has been compiled before.
use Prim.Native.String.{◌++◌ as join}
use antfarm.Prelude.{
  inl, refl, sym, subst, Bool, true, false, List, [], ◌∷◌, ◌++◌, map, String, All, In,
  if◌then◌else◌,
}
use antfarm.Shell.{Command, words, built_as}
use antfarm.Shell.Builds.{
  Ready, IsPlain, words-IsPlain, append-IsPlain, needs-append, makes-append, words-Ready,
  Ready-both,
}
use antfarm.Windows.{
  Lane, packages, threadpool, forkjoin, ordering, review, actors, private, examples, Checks, binary,
  flags, version_flag, dub, build_run,
}
use antfarm.Windows.Lanes.{
  common, slow_tests, run_packages, run_threadpool, run_forkjoin, run_ordering, run_review,
  run_actors, run_private, run_examples, run_doc_examples, run_lane, run_lanes,
}
use antfarm.Windows.Check.{Windows, Args, checks_of, lanes_of, run_compilers}

module _ (c : Checks) (made : List String) where
  build_run-Ready :
      (name : String) (sources : Command) (versions : List String)
      → IsPlain sources
      → Ready made (build_run c name sources versions)
  unfolding build_run
  build_run-Ready name sources versions h = (
    subst (λ ps. All (λ p. In p made) ps)
        (sym (needs-append front (built_as "-of=" (binary c name) ∷ []) plain)) tt,
    (
      (
        subst (λ ps. In (binary c name) (ps ++ made))
            (sym (makes-append front (built_as "-of=" (binary c name) ∷ []) plain)) (inl refl),
        tt,
      ),
      tt,
    ),
  )
    where
      front : Command
      front =
          words (
            c.compiler
            ∷ (flags c ++ "-I." ∷ map (λ version. join (version_flag c) version) versions))
          ++ sources

      plain : IsPlain front
      plain =
          append-IsPlain
            (words (
              c.compiler
              ∷ (flags c ++ "-I." ∷ map (λ version. join (version_flag c) version) versions)))
            sources
            (words-IsPlain (
              c.compiler
              ∷ (flags c ++ "-I." ∷ map (λ version. join (version_flag c) version) versions)))
            h

  -- A script in front of commands, and a built test.
  script-Ready : (ss : List String) (cs : List Command) → Ready made cs → Ready made (words ss ∷ cs)
  script-Ready ss cs h = words-Ready made ss cs h

  test-Ready :
      (name : String) (sources versions : List String) (cs : List Command)
      → Ready made cs
      → Ready made (build_run c name (words sources) versions ++ cs)
  test-Ready name sources versions cs h =
      Ready-both made (build_run c name (words sources) versions) cs
        (build_run-Ready name (words sources) versions (words-IsPlain sources)) h

  if-Ready :
      (b : Bool) (cs ds : List Command)
      → Ready made cs
      → Ready made ds
      → Ready made (if b then cs else ds)
  if-Ready true cs ds h k = h
  if-Ready false cs ds h k = k

  run_packages-Ready : Ready made (run_packages c)
  unfolding run_packages dub
  run_packages-Ready = search

  run_threadpool-Ready : Ready made (run_threadpool c)
  unfolding run_threadpool dub
  run_threadpool-Ready = search (if-Ready)

  run_ordering-Ready : Ready made (run_ordering c)
  unfolding run_ordering
  run_ordering-Ready = search (words-Ready, test-Ready, build_run-Ready)

  run_review-Ready : Ready made (run_review c)
  unfolding run_review
  run_review-Ready =
      script-Ready (c.python ∷ "-B" ∷ "tests/farm/run_parallel.py" ∷ "--compiler" ∷ c.compiler ∷ [])
        (build_run c "torture" (words ("tests/farm/torture_tests.d" ∷ common c)) []
          ++ (sweep ++ last))
        (test-Ready "torture" ("tests/farm/torture_tests.d" ∷ common c) [] (sweep ++ last) (
          test-Ready "sweep_cursor" ("tests/farm/sweep_cursor.d" ∷ common c)
            ("AntfarmSweepStats" ∷ []) last (if-Ready c.quick [] (slow_tests c) tt slow)))
    where
      sweep : List Command
      sweep =
          build_run c "sweep_cursor" (words ("tests/farm/sweep_cursor.d" ∷ common c))
            ("AntfarmSweepStats" ∷ [])

      last : List Command
      last = if c.quick then [] else slow_tests c

      slow : Ready made (slow_tests c)
      slow = search (test-Ready, build_run-Ready)

  run_actors-Ready : Ready made (run_actors c)
  unfolding run_actors
  run_actors-Ready = search (build_run-Ready)

  run_doc_examples-Ready : (stems : List String) → Ready made (run_doc_examples c stems)
  unfolding run_doc_examples
  run_doc_examples-Ready [] = tt
  run_doc_examples-Ready (stem ∷ stems) =
      search (Ready-both, build_run-Ready, run_doc_examples-Ready stems)

  run_private-Ready : Ready made (run_private c)
  unfolding run_private
  run_private-Ready = search (words-Ready, test-Ready, run_doc_examples-Ready)

  run_lane-Ready : (lane : Lane) → Ready made (run_lane c lane)
  unfolding run_lane run_forkjoin run_examples dub
  run_lane-Ready packages = run_packages-Ready
  run_lane-Ready threadpool = run_threadpool-Ready
  run_lane-Ready forkjoin = search
  run_lane-Ready ordering = run_ordering-Ready
  run_lane-Ready review = run_review-Ready
  run_lane-Ready actors = run_actors-Ready
  run_lane-Ready private = run_private-Ready
  run_lane-Ready examples = search

  run_lanes-Ready : (lanes : List Lane) → Ready made (run_lanes c lanes)
  unfolding run_lanes
  run_lanes-Ready [] = tt
  run_lanes-Ready (lane ∷ lanes) =
      Ready-both made (run_lane c lane) (run_lanes c lanes) (run_lane-Ready lane)
        (run_lanes-Ready lanes)

-- Whatever the compilers and lanes, each test binary that is run has been written by a command before
-- it.
pub run_compilers-Ready :
    (w : Windows) (a : Args) (compilers : List String) → Ready [] (run_compilers w a compilers)
unfolding run_compilers
run_compilers-Ready w a [] = tt
run_compilers-Ready w a (compiler ∷ compilers) =
    Ready-both [] (run_lanes (checks_of w a compiler) (lanes_of a.selection))
      (run_compilers w a compilers)
      (run_lanes-Ready (checks_of w a compiler) [] (lanes_of a.selection))
      (run_compilers-Ready w a compilers)
