-- ===== src/Cabi/Binaries.antt =====
-- scripts/check-c-abi.py: what is executed, linked or audited has been built by a step before.
use Prim.Native.String.{◌++◌ as join}
use antfarm.Prelude.{
  inl, refl, Bool, true, false, List, [], ◌∷◌, ◌++◌, none, String, In, if◌then◌else◌,
}
use antfarm.Shell.{Command, words, word, built, output, built_as, built_in}
use antfarm.Shell.Builds.{needs-All, words-needs, makes-In}
use antfarm.Cabi.{Host, is_nt, Step, run, execute, audit_symbols}
use antfarm.Cabi.Build.{core_library, runtime_library, in_folder}
use antfarm.Cabi.Native.{executable, runtime_extra}
use antfarm.Cabi.Plan.{
  cabi_test, native_checks, embedded_checks, runtime_groups, runtime_checks, whole_archive,
  debug_checks, audit_checks, core_groups, core_checks, tsan_program, tsan_groups, tsan_checks,
}
use antfarm.Cabi.Check.{
  Args, is_core_only, is_runtime_only, build_folder, main_checks, after_core, plan,
}
use antfarm.Cabi.Steps.{
  AllReady, Linked, StepsReady, StepsReady-both, if-StepsReady, in_order-Ready, then-Ready,
}
use antfarm.Cabi.Compiled.{
  build_core-Ready, build_runtime-Ready, native_checks-Ready, native_runtime_checks-Ready,
}

module _ (h : Host) (compiler : String) where
  embedded_checks-Ready :
      (made : List String) (build : String) (libraries : Command)
      → Linked made libraries
      → StepsReady made (embedded_checks h compiler build libraries)
  embedded_checks-Ready made build libraries l =
      then-Ready made (executable h build "embedded") (run (words front ++ (libraries ++ last)))
        (execute (executable h build "embedded") [] none ∷ [])
        (
          needs-All made (words front) (libraries ++ last) (words-needs made front) (
              needs-All made libraries last l (
                needs-All made (words (runtime_extra h)) out (words-needs made (runtime_extra h))
                  tt)),
          makes-In (executable h build "embedded") (words front) (libraries ++ last) (
              makes-In (executable h build "embedded") libraries last (
                makes-In (executable h build "embedded") (words (runtime_extra h)) out (inl refl))),
        )
        (λ more m w. ((m, tt), tt))
    where
      front : List String
      front =
          compiler ∷ "-O" ∷ "-I." ∷ "-Icabi/source" ∷ "-Ithreadpool/source"
          ∷ "tests/cabi/embedded.d" ∷ []

      out : Command
      out = built_as "-of=" (executable h build "embedded") ∷ []

      last : Command
      last = words (runtime_extra h) ++ out

  runtime_checks-Ready :
      (made : List String) (build core : String)
      → In core made
      → StepsReady made (runtime_checks h compiler build core)
  unfolding runtime_checks
  runtime_checks-Ready made build core m = build_runtime-Ready h compiler made build _ (λ more n w.
      (
        (n, tt),
        in_order-Ready more
            (runtime_groups h compiler build (built (runtime_library h build) ∷ built core ∷ []))
            (groups more n (w core m)),
      ))
    where
      groups :
          (more : List String)
          → In (runtime_library h build) more
          → In core more
          → AllReady more
              (runtime_groups h compiler build (built (runtime_library h build) ∷ built core ∷ []))
      groups more n k = search (native_runtime_checks-Ready, embedded_checks-Ready)

  whole-Linked :
      (made : List String) (lib : String) → In lib made → Linked made (whole_archive h compiler lib)
  whole-Linked made lib m = go (is_nt h.os)
    where
      go :
          (b : Bool)
          → Linked made (
              if b
              then built_in "/WHOLEARCHIVE:" lib ∷ []
              else word "-Wl,--whole-archive" ∷ built lib ∷ word "-Wl,--no-whole-archive" ∷ [])
      go true = (m, tt)
      go false = (m, tt)

  debug_checks-Ready :
      (made : List String) (debug : String) → StepsReady made (debug_checks h compiler debug)
  debug_checks-Ready made debug =
      build_core-Ready h compiler made debug false false true _ (λ more m w.
        native_checks-Ready h compiler more (cabi_test "private") debug
          (built (core_library h debug) ∷ []) [] false [] (m, tt))

  audit_checks-Ready :
      (made : List String) (audit : String) → StepsReady made (audit_checks h compiler audit)
  audit_checks-Ready made audit =
      build_core-Ready h compiler made audit true false false _
        (λ more m w. in_order-Ready more _ (groups more m))
    where
      lib : Command
      lib = built (core_library h audit) ∷ []

      groups :
          (more : List String)
          → In (core_library h audit) more
          → AllReady more (
              native_checks h compiler (cabi_test "core") audit lib ("AF_TEST_AUDIT" ∷ []) false []
              ∷ native_checks h compiler
                  (cabi_test "waves")
                  audit
                  lib
                  ("AF_TEST_AUDIT" ∷ [])
                  false
                  []
              ∷ native_checks h compiler
                  (cabi_test "actors")
                  audit
                  lib
                  ("AF_TEST_ACTOR_AUDIT" ∷ [])
                  false
                  []
              ∷ [])
      groups more m = search (native_checks-Ready)

  core_checks-Ready :
      (made : List String) (build lib : String)
      → In lib made
      → StepsReady made (core_checks h compiler build lib)
  unfolding core_checks
  core_checks-Ready made build lib m = in_order-Ready made (core_groups h compiler build lib) groups
    where
      groups : AllReady made (core_groups h compiler build lib)
      groups = search (native_checks-Ready, whole-Linked, debug_checks-Ready, audit_checks-Ready)

  tsan_program-Ready :
      (made : List String) (build lib name : String) (compile link : List String)
      → In lib made
      → StepsReady made (tsan_program h compiler build lib name compile link)
  tsan_program-Ready made build lib name compile link m =
      then-Ready made (in_folder build (join name "-main.o")) (run (words compile ++ obj))
        (linking ∷ execute (in_folder build (join name "-tsan")) [] none ∷ [])
        (
          needs-All made (words compile) obj (words-needs made compile) tt,
          makes-In (in_folder build (join name "-main.o")) (words compile) obj (inl refl),
        )
        (λ more n w.
          then-Ready more (in_folder build (join name "-tsan")) linking
            (execute (in_folder build (join name "-tsan")) [] none ∷ [])
            (
              (n, (w lib m, needs-All more (words link) out (words-needs more link) tt)),
              makes-In (in_folder build (join name "-tsan")) (words link) out (inl refl),
            )
            (λ most k v. ((k, tt), tt)))
    where
      out : Command
      out = built_as "-of=" (in_folder build (join name "-tsan")) ∷ []

      linking : Step
      linking = run (
          words (compiler ∷ "-betterC" ∷ "-fsanitize=thread" ∷ [])
          ++ built (in_folder build (join name "-main.o")) ∷ built lib ∷ (words link ++ out))

      obj : Command
      obj = output (in_folder build (join name "-main.o")) ∷ []

  tsan_checks-Ready :
      (made : List String) (build lib : String)
      → In lib made
      → StepsReady made (tsan_checks h compiler build lib)
  unfolding tsan_checks
  tsan_checks-Ready made build lib m = in_order-Ready made (tsan_groups h compiler build lib) groups
    where
      groups : AllReady made (tsan_groups h compiler build lib)
      groups = search (tsan_program-Ready)

module _ (h : Host) (a : Args) where
  main_checks-Ready :
      (made : List String) (build lib : String)
      → In lib made
      → StepsReady made (main_checks h a build lib)
  main_checks-Ready made build lib m =
      StepsReady-both made (if is_runtime_only a.selection then [] else core)
        (if is_core_only a.selection then [] else runtime)
        (if-StepsReady made (is_runtime_only a.selection) [] core tt
          (core_checks-Ready h a.compiler made build lib m))
        (if-StepsReady made (is_core_only a.selection) [] runtime tt
          (runtime_checks-Ready h a.compiler made build lib m))
    where
      core : List Step
      core = core_checks h a.compiler build lib

      runtime : List Step
      runtime = runtime_checks h a.compiler build lib

  -- Whatever the arguments, each binary that the checks execute, and each object and library that they
  -- link or audit, is written by a step before.
  pub plan-StepsReady : StepsReady [] (plan h a)
  unfolding plan
  plan-StepsReady =
      build_core-Ready h a.compiler [] build false a.tsan false
        (audit_symbols lib headers true ∷ after_core h a build lib)
        (λ more m w. (
          (m, tt),
          if-StepsReady more a.tsan _ _ (tsan_checks-Ready h a.compiler more build lib m) (
            tt,
            if-StepsReady more a.write_abi_lock [] (main_checks h a build lib) tt
                (main_checks-Ready more build lib m),
          ),
        ))
    where
      build : String
      build = build_folder h a

      lib : String
      lib = core_library h build

      headers : List String
      headers = "antfarm.h" ∷ "antfarm_actors.h" ∷ "antfarm_private.h" ∷ []
