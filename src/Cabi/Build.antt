-- ===== src/Cabi/Build.antt =====
-- scripts/build-c-abi.py: `library`, `build_core` and `build_runtime`.
use Prim.Native.String.{◌++◌ as join}
use text.Mathlib.Text.{◌==◌ as str_eq}
use antfarm.Prelude.{Bool, List, [], ◌∷◌, ◌++◌, String, if◌then◌else◌}
use antfarm.Shell.{built_as, words}
use antfarm.Cabi.{Host, is_nt, Step, unlink, run}

-- CORE
abbrev pub core_sources : List String
core_sources =
    "antfarm/package.d" ∷ "antfarm/allocation.d" ∷ "cabi/source/antfarm/c/core.d"
    ∷ "antfarm/actors/actor.d" ∷ "antfarm/actors/wave.d" ∷ "cabi/source/antfarm/actors/cabi.d"
    ∷ "antfarm/actors/private_actor.d" ∷ "cabi/source/antfarm/actors/private_cabi.d" ∷ []

-- build / name
abbrev pub in_folder : String → String → String
in_folder build name = join build (join "/" name)

module _ (h : Host) where
  abbrev pub library : String → String → String
  library build name =
      in_folder build (if is_nt h.os then join name ".lib" else join "lib" (join name ".a"))

  abbrev pub core_library : String → String
  core_library build = library build "antfarm_core"

  abbrev pub version_option : String → String → String
  version_option compiler version =
      join (if str_eq compiler "dmd" then "-version=" else "-d-version=") version

  abbrev pub sanitize_flags : Bool → List String
  sanitize_flags sanitize = if sanitize then "-g" ∷ "-fsanitize=thread" ∷ [] else []

  abbrev pub audit_flags : String → Bool → List String
  audit_flags compiler audit =
      if audit
      then version_option compiler "AntfarmWriteAuditHooks"
        ∷ version_option compiler "AntfarmCActorTestHooks"
        ∷ []
      else []

  -- flags, and sources
  abbrev pub core_words : String → Bool → Bool → List String
  core_words compiler audit sanitize =
      sanitize_flags sanitize
      ++ (audit_flags compiler audit
          ++ (core_sources ++ (if audit then "tests/cabi/audit.d" ∷ [] else [])))

  unfoldable pub build_core : String → String → Bool → Bool → Bool → List Step
  build_core compiler build audit sanitize debug =
      unlink (core_library build)
      ∷ run (
          words (
            compiler
            ∷ "-betterC"
            ∷ ((if debug then "-g" ∷ [] else "-O" ∷ "-release" ∷ [])
                ++ "-I." ∷ "-Icabi/source" ∷ "-lib" ∷ core_words compiler audit sanitize))
          ++ built_as "-of=" (core_library build) ∷ [])
      ∷ []

  abbrev pub runtime_library : String → String
  runtime_library build = library build "antfarm_runtime"

  abbrev pub runtime_sources : List String
  runtime_sources =
      "cabi/source/antfarm/c/runtime.d"
      ∷ "cabi/source/antfarm/c/forkjoin.d"
      ∷ "cabi/source/antfarm/c/groups.d"
      ∷ "antfarm/templates.d"
      ∷ "antfarm/parallel.d"
      ∷ "antfarm/actors/package.d"
      ∷ (h.threadpool_sources ++ h.forkjoin_sources)

  unfoldable pub build_runtime : String → String → List Step
  build_runtime compiler build =
      unlink (runtime_library build)
      ∷ run (
          words (
            compiler ∷ "-O" ∷ "-release" ∷ "-op" ∷ "-I." ∷ "-Icabi/source" ∷ "-Ithreadpool/source"
            ∷ "-Iforkjoin/source" ∷ "-lib" ∷ runtime_sources)
          ++ built_as "-of=" (runtime_library build) ∷ [])
      ∷ []
