-- ===== src/Cabi/Compiled.antt =====
-- scripts/check-c-abi.py: what the build of an archive and of a program leaves.
use Prim.Native.String.{◌++◌ as join}
use antfarm.Prelude.{
  inl, inr, refl, Bool, true, false, List, [], ◌∷◌, ◌++◌, none, String, In, if◌then◌else◌,
}
use antfarm.Shell.{Command, words, word, built, output, built_as}
use antfarm.Shell.Builds.{needs, Within, All-Within, needs-All, words-needs, makes-In}
use antfarm.Cabi.{Host, is_nt, Step, run, msvc, execute}
use antfarm.Cabi.Build.{
  core_library, core_words, build_core, runtime_library, runtime_sources, build_runtime, in_folder,
}
use antfarm.Cabi.Native.{
  Source, native_name, native_binary, cl_words, cc_words, native, object, executable, runtime_extra,
  compile_object, compile_probe, link_runtime, native_runtime,
}
use antfarm.Cabi.Deaths.{Deaths, deaths}
use antfarm.Cabi.Plan.{native_checks, native_runtime_checks}
use antfarm.Cabi.Steps.{Linked, StepsReady, Writes, if-Writes, runs-Ready, then-Ready}

module _ (h : Host) (compiler : String) where
  pub build_core-Ready :
      (made : List String) (build : String) (audit sanitize debug : Bool) (ss : List Step)
      → ((more : List String)
          → In (core_library h build) more
          → Within made more
          → StepsReady more ss)
      → StepsReady made (build_core h compiler build audit sanitize debug ++ ss)
  unfolding build_core
  build_core-Ready made build audit sanitize debug ss k = (
    tt,
    then-Ready made (core_library h build) (run (words front ++ last)) ss
        (
          needs-All made (words front) last (words-needs made front) tt,
          makes-In (core_library h build) (words front) last (inl refl),
        )
        k,
  )
    where
      front : List String
      front =
          compiler
          ∷ "-betterC"
          ∷ ((if debug then "-g" ∷ [] else "-O" ∷ "-release" ∷ [])
              ++ "-I." ∷ "-Icabi/source" ∷ "-lib" ∷ core_words h compiler audit sanitize)

      last : Command
      last = built_as "-of=" (core_library h build) ∷ []

  pub build_runtime-Ready :
      (made : List String) (build : String) (ss : List Step)
      → ((more : List String)
          → In (runtime_library h build) more
          → Within made more
          → StepsReady more ss)
      → StepsReady made (build_runtime h compiler build ++ ss)
  unfolding build_runtime
  build_runtime-Ready made build ss k = (
    tt,
    then-Ready made (runtime_library h build) (run (words front ++ last)) ss
        (
          needs-All made (words front) last (words-needs made front) tt,
          makes-In (runtime_library h build) (words front) last (inl refl),
        )
        k,
  )
    where
      front : List String
      front =
          compiler
          ∷ "-O"
          ∷ "-release"
          ∷ "-op"
          ∷ "-I."
          ∷ "-Icabi/source"
          ∷ "-Ithreadpool/source"
          ∷ "-Iforkjoin/source"
          ∷ "-lib"
          ∷ runtime_sources h

      last : Command
      last = built_as "-of=" (runtime_library h build) ∷ []

  pub native-Writes :
      (made : List String) (s : Source) (build : String) (libraries : Command)
      (defines : List String) (no_exceptions : Bool)
      → Linked made libraries
      → Writes made
          (native_binary h s build no_exceptions)
          (native h s build libraries defines no_exceptions)
  unfolding native
  native-Writes made s build libraries defines no_exceptions l =
      if-Writes made (native_binary h s build no_exceptions) (is_nt h.os)
        (msvc (words cl ++ cl_last)) (run (words cc ++ (libraries ++ cc_last)))
        (
          needs-All made (words cl) cl_last (words-needs made cl)
              (needs-All made libraries (words ("kernel32.lib" ∷ "advapi32.lib" ∷ [])) l tt),
          makes-In (native_binary h s build no_exceptions) (words cl) cl_last (inr (inl refl)),
        )
        (
          needs-All made (words cc) (libraries ++ cc_last) (words-needs made cc)
              (needs-All made libraries cc_last l tt),
          makes-In (native_binary h s build no_exceptions) (words cc) (libraries ++ cc_last)
              (makes-In (native_binary h s build no_exceptions) libraries cc_last (inl refl)),
        )
    where
      cl : List String
      cl = cl_words h s defines no_exceptions

      cl_last : Command
      cl_last =
          built_as "/Fo" (in_folder build (join (native_name h s no_exceptions) ".obj"))
          ∷ built_as "/Fe" (native_binary h s build no_exceptions)
          ∷ word "/link"
          ∷ (libraries ++ words ("kernel32.lib" ∷ "advapi32.lib" ∷ []))

      cc : List String
      cc = cc_words h s defines no_exceptions

      cc_last : Command
      cc_last = word "-pthread" ∷ word "-o" ∷ output (native_binary h s build no_exceptions) ∷ []

  pub native_checks-Ready :
      (made : List String) (s : Source) (build : String) (libraries : Command)
      (defines : List String) (no_exceptions : Bool) (table : Deaths)
      → Linked made libraries
      → StepsReady made (native_checks h compiler s build libraries defines no_exceptions table)
  unfolding native_checks
  native_checks-Ready made s build libraries defines no_exceptions table l =
      then-Ready made (native_binary h s build no_exceptions)
        (native h s build libraries defines no_exceptions)
        (execute (native_binary h s build no_exceptions) [] none
          ∷ deaths (native_binary h s build no_exceptions) table)
        (native-Writes made s build libraries defines no_exceptions l)
        (λ more m w. runs-Ready more (native_binary h s build no_exceptions) table m)

  pub compile_object-Writes :
      (made : List String) (s : Source) (build : String)
      → Writes made (object h build s.stem) (compile_object h s build)
  compile_object-Writes made s build =
      if-Writes made (object h build s.stem) (is_nt h.os) _ _ (tt, inl refl) (tt, inl refl)

  pub link_runtime-Writes :
      (made : List String) (s : Source) (build : String) (libraries probe_objects : Command)
      → In (object h build s.stem) made
      → Linked made libraries
      → Linked made probe_objects
      → Writes made
          (executable h build s.stem)
          (link_runtime h s build libraries compiler probe_objects)
  link_runtime-Writes made s build libraries probe_objects m l k = (
    (
      m,
      needs-All made probe_objects (libraries ++ last) k (
          needs-All made libraries last l
            (needs-All made (words (runtime_extra h)) out (words-needs made (runtime_extra h)) tt)),
    ),
    makes-In (executable h build s.stem) probe_objects (libraries ++ last) (
        makes-In (executable h build s.stem) libraries last
          (makes-In (executable h build s.stem) (words (runtime_extra h)) out (inl refl))),
  )
    where
      out : Command
      out = built_as "-of=" (executable h build s.stem) ∷ []

      last : Command
      last = words (runtime_extra h) ++ out

  pub Linked-Within :
      (made more : List String) (libraries : Command)
      → Within made more
      → Linked made libraries
      → Linked more libraries
  Linked-Within made more libraries w l = All-Within made more (needs libraries) w l

  -- The link of a program, with steps that run it.
  pub link_runtime-Ready :
      (made : List String) (s : Source) (build : String) (libraries probe_objects : Command)
      (table : Deaths)
      → In (object h build s.stem) made
      → Linked made libraries
      → Linked made probe_objects
      → StepsReady made (
          link_runtime h s build libraries compiler probe_objects
          ∷ execute (executable h build s.stem) [] none
          ∷ deaths (executable h build s.stem) table)
  link_runtime-Ready made s build libraries probe_objects table m l k =
      then-Ready made (executable h build s.stem)
        (link_runtime h s build libraries compiler probe_objects)
        (execute (executable h build s.stem) [] none ∷ deaths (executable h build s.stem) table)
        (link_runtime-Writes made s build libraries probe_objects m l k)
        (λ more n w. runs-Ready more (executable h build s.stem) table n)

  pub native_runtime_checks-Ready :
      (made : List String) (s : Source) (build : String) (libraries : Command) (probe : Bool)
      (table : Deaths)
      → Linked made libraries
      → StepsReady made (native_runtime_checks h compiler s build libraries probe table)
  unfolding native_runtime_checks native_runtime
  native_runtime_checks-Ready made s build libraries true table l =
      then-Ready made (object h build s.stem) (compile_object h s build)
        (compile_probe h compiler build ∷ link_runtime h s build libraries compiler probes ∷ rest)
        (compile_object-Writes made s build)
        (λ more m w.
          then-Ready more (object h build "runtime_probe") (compile_probe h compiler build)
            (link_runtime h s build libraries compiler probes ∷ rest) (tt, inl refl)
            (λ most n v.
              link_runtime-Ready most s build libraries probes table (v (object h build s.stem) m)
                (Linked-Within more most libraries v (Linked-Within made more libraries w l))
                (n, tt)))
    where
      probes : Command
      probes = built (object h build "runtime_probe") ∷ []

      rest : List Step
      rest = execute (executable h build s.stem) [] none ∷ deaths (executable h build s.stem) table
  native_runtime_checks-Ready made s build libraries false table l =
      then-Ready made (object h build s.stem) (compile_object h s build)
        (link_runtime h s build libraries compiler []
          ∷ execute (executable h build s.stem) [] none
          ∷ deaths (executable h build s.stem) table)
        (compile_object-Writes made s build)
        (λ more m w.
          link_runtime-Ready more s build libraries [] table m
            (Linked-Within made more libraries w l) tt)
