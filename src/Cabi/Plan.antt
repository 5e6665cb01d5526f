-- ===== src/Cabi/Plan.antt =====
-- scripts/check-c-abi.py: `runtime_checks` and `main`, by the steps that they take.
use Prim.Native.String.{◌++◌ as join}
use antfarm.Prelude.{Bool, true, false, List, [], ◌∷◌, ◌++◌, none, String, if◌then◌else◌}
use antfarm.Shell.{word, built, output, built_as, built_in, Command, words}
use antfarm.Cabi.{Host, is_nt, Step, run, execute, audit_symbols}
use antfarm.Cabi.Build.{in_folder, core_library, build_core, runtime_library, build_runtime}
use antfarm.Cabi.Native.{
  Source, path, variable_or, executable, native_binary, native, runtime_extra, native_runtime,
}
use antfarm.Cabi.Deaths.{
  Deaths, deaths, core_deaths, actor_deaths, wave_deaths, private_deaths, forkjoin_deaths,
}

-- One group of steps after the other.
unfoldable pub in_order : List (List Step) → List Step
in_order [] = []
in_order (steps ∷ groups) = steps ++ in_order groups

abbrev pub cabi_test : String → Source
cabi_test stem = record { folder = "tests/cabi"; stem = stem; suffix = ".c" }

abbrev pub cabi_cpp_test : String → Source
cabi_cpp_test stem = record { folder = "tests/cabi"; stem = stem; suffix = ".cpp" }

abbrev pub example : String → Source
example stem = record { folder = "examples"; stem = stem; suffix = ".c" }

abbrev pub threads_example : Source
threads_example = record { folder = "examples"; stem = "cpp_threads"; suffix = ".cpp" }

abbrev pub forkjoin_example : Source
forkjoin_example = record { folder = "cabi/examples"; stem = "forkjoin"; suffix = ".c" }

module _ (h : Host) (compiler : String) where
  -- execute(native(...)), and the deaths of the same binary
  unfoldable pub native_checks : Source → String → Command → List String → Bool → Deaths → List Step
  unfolding native deaths
  native_checks s build libraries defines no_exceptions table =
      native h s build libraries defines no_exceptions
      ∷ execute (native_binary h s build no_exceptions) [] none
      ∷ deaths (native_binary h s build no_exceptions) table

  -- execute(native_runtime(...)), and the deaths of the same binary
  unfoldable pub native_runtime_checks : Source → String → Command → Bool → Deaths → List Step
  unfolding native_runtime deaths
  native_runtime_checks s build libraries probe table =
      native_runtime h s build libraries compiler probe
      ++ execute (executable h build s.stem) [] none ∷ deaths (executable h build s.stem) table

  abbrev pub embedded_checks : String → Command → List Step
  embedded_checks build libraries =
      run (
        words (
          compiler ∷ "-O" ∷ "-I." ∷ "-Icabi/source" ∷ "-Ithreadpool/source"
          ∷ "tests/cabi/embedded.d" ∷ [])
        ++ (libraries
            ++ (words (runtime_extra h) ++ built_as "-of=" (executable h build "embedded") ∷ [])))
      ∷ execute (executable h build "embedded") [] none
      ∷ []

  abbrev pub runtime_groups : String → Command → List (List Step)
  runtime_groups build libraries =
      native_runtime_checks (cabi_test "runtime") build libraries true (
        ("borrowed", "cannot destroy a borrowed host Farm")
        ∷ ("nested", "runtime control operation inside Farm callback")
        ∷ [])
      ∷ native_runtime_checks (cabi_test "actors_host") build libraries true
          (("borrowed", "cannot destroy a host-owned actor runtime") ∷ [])
      ∷ native_runtime_checks (cabi_test "private_host") build libraries true []
      ∷ embedded_checks build libraries
      ∷ native_runtime_checks (example "c_host") build libraries false []
      ∷ native_runtime_checks (cabi_test "groups") build libraries false []
      ∷ native_runtime_checks (cabi_test "forkjoin") build libraries false forkjoin_deaths
      ∷ native_runtime_checks forkjoin_example build libraries false []
      ∷ []

  unfoldable pub runtime_checks : String → String → List Step
  unfolding native_runtime_checks in_order
  runtime_checks build core =
      build_runtime h compiler build
      ++ audit_symbols (runtime_library h build)
          ("antfarm_runtime.h" ∷ "antfarm_forkjoin.h" ∷ "antfarm_groups.h" ∷ []) false
        ∷ in_order (runtime_groups build (built (runtime_library h build) ∷ built core ∷ []))

  -- whole
  abbrev pub whole_archive : String → Command
  whole_archive lib =
      if is_nt h.os
      then built_in "/WHOLEARCHIVE:" lib ∷ []
      else word "-Wl,--whole-archive" ∷ built lib ∷ word "-Wl,--no-whole-archive" ∷ []

  abbrev pub debug_checks : String → List Step
  debug_checks debug =
      build_core h compiler debug false false true
      ++ native_checks (cabi_test "private") debug (built (core_library h debug) ∷ []) [] false []

  abbrev pub audit_checks : String → List Step
  audit_checks audit =
      build_core h compiler audit true false false
      ++ in_order (
          native_checks (cabi_test "core") audit (built (core_library h audit) ∷ [])
            ("AF_TEST_AUDIT" ∷ []) false []
          ∷ native_checks (cabi_test "waves") audit (built (core_library h audit) ∷ [])
              ("AF_TEST_AUDIT" ∷ []) false []
          ∷ native_checks (cabi_test "actors") audit (built (core_library h audit) ∷ [])
              ("AF_TEST_ACTOR_AUDIT" ∷ []) false []
          ∷ [])

  abbrev pub core_groups : String → String → List (List Step)
  core_groups build lib =
      native_checks (cabi_test "link_all") build (whole_archive lib) [] false []
      ∷ native_checks (cabi_test "core") build (built lib ∷ []) [] false core_deaths
      ∷ native_checks (cabi_test "actors") build (built lib ∷ []) [] false actor_deaths
      ∷ native_checks (cabi_test "waves") build (built lib ∷ []) [] false wave_deaths
      ∷ native_checks (cabi_test "private") build (built lib ∷ []) [] false private_deaths
      ∷ native_checks (cabi_cpp_test "private_cpp") build (built lib ∷ []) [] false []
      ∷ native_checks (cabi_cpp_test "private_cpp") build (built lib ∷ []) [] true []
      ∷ debug_checks (in_folder build "private-debug")
      ∷ native_checks (cabi_cpp_test "cpp") build (built lib ∷ []) [] false []
      ∷ native_checks (cabi_cpp_test "cpp") build (built lib ∷ []) [] true []
      ∷ native_checks (cabi_cpp_test "cpp_failures") build [] [] false []
      ∷ native_checks (cabi_cpp_test "cpp_failures") build [] [] true []
      ∷ native_checks (example "c_core") build (built lib ∷ []) [] false []
      ∷ native_checks threads_example build (built lib ∷ []) [] false []
      ∷ native_checks (example "c_actors") build (built lib ∷ []) [] false []
      ∷ native_checks (example "c_wave") build (built lib ∷ []) [] false []
      ∷ native_checks (example "c_private") build (built lib ∷ []) [] false []
      ∷ audit_checks (in_folder build "audit")
      ∷ []

  unfoldable pub core_checks : String → String → List Step
  unfolding native_checks in_order
  core_checks build lib = in_order (core_groups build lib)

  -- One program of the TSan lane, whose object and binary are named after `name`.
  abbrev pub tsan_program : String → String → String → List String → List String → List Step
  tsan_program build lib name compile link =
      run (words compile ++ output (in_folder build (join name "-main.o")) ∷ [])
      ∷ run (
          words (compiler ∷ "-betterC" ∷ "-fsanitize=thread" ∷ [])
          ++ built (in_folder build (join name "-main.o"))
            ∷ built lib
            ∷ (words link ++ built_as "-of=" (in_folder build (join name "-tsan")) ∷ []))
      ∷ execute (in_folder build (join name "-tsan")) [] none
      ∷ []

  abbrev pub tsan_c : String → String → String → List Step
  tsan_c build lib source =
      tsan_program build lib source
        (variable_or h "CC" "cc"
          ∷ "-std=c11"
          ∷ "-g"
          ∷ "-O1"
          ∷ "-fsanitize=thread"
          ∷ "-Wall"
          ∷ "-Wextra"
          ∷ "-Werror"
          ∷ "-Iinclude"
          ∷ "-Itests/cabi"
          ∷ "-DNDEBUG"
          ∷ "-c"
          ∷ join "tests/cabi/" (join source ".c")
          ∷ "-o"
          ∷ [])
        ("-L-lpthread" ∷ [])

  abbrev pub tsan_cpp : String → String → Source → List Step
  tsan_cpp build lib source =
      tsan_program build lib source.stem
        (variable_or h "CXX" "c++"
          ∷ "-std=c++11"
          ∷ "-g"
          ∷ "-O1"
          ∷ "-fno-exceptions"
          ∷ "-fsanitize=thread"
          ∷ "-Wall"
          ∷ "-Wextra"
          ∷ "-Werror"
          ∷ "-Iinclude"
          ∷ "-Itests/cabi"
          ∷ "-DNDEBUG"
          ∷ "-DAF_TEST_TSAN"
          ∷ "-include"
          ∷ "tests/cabi/tsan_preinit.h"
          ∷ "-c"
          ∷ path source
          ∷ "-o"
          ∷ [])
        ("-L-lstdc++" ∷ "-L-lpthread" ∷ [])

  abbrev pub tsan_groups : String → String → List (List Step)
  tsan_groups build lib =
      tsan_c build lib "core"
      ∷ tsan_c build lib "actors"
      ∷ tsan_c build lib "waves"
      ∷ tsan_c build lib "private"
      ∷ tsan_cpp build lib (cabi_cpp_test "cpp")
      ∷ tsan_cpp build lib threads_example
      ∷ []

  unfoldable pub tsan_checks : String → String → List Step
  unfolding in_order
  tsan_checks build lib = in_order (tsan_groups build lib)
