-- ===== src/Cabi/Native.antt =====
-- scripts/check-c-abi.py: `native` and `native_runtime`, which compile a C or C++ program.
use Prim.Native.String.{◌++◌ as join}
use text.Mathlib.Text.{◌==◌ as str_eq}
use antfarm.Prelude.{Bool, List, [], ◌∷◌, ◌++◌, map, none, some, String, if◌then◌else◌}
use antfarm.Shell.{word, built, output, built_as, Command, words}
use antfarm.Cabi.{Host, is_nt, Step, run, msvc}
use antfarm.Cabi.Build.{in_folder}

-- The path of a source: Path(source).parent, .stem and .suffix.
pub record Source : Type 0 where
  pub folder : String
  pub stem : String
  pub suffix : String

abbrev pub path : Source → String
path s = in_folder s.folder (join s.stem s.suffix)

abbrev pub is_cpp : Source → Bool
is_cpp s = str_eq s.suffix ".cpp"

module _ (h : Host) where
  -- os.environ.get(name, default)
  abbrev pub variable_or : String → String → String
  variable_or name default = elim (h.variable name) [ none ↦ default | some text ↦ text ]

  abbrev pub executable : String → String → String
  executable build name = in_folder build (if is_nt h.os then join name ".exe" else name)

  abbrev pub native_name : Source → Bool → String
  native_name s no_exceptions = if no_exceptions then join s.stem "-noexcept" else s.stem

  -- binary
  abbrev pub native_binary : Source → String → Bool → String
  native_binary s build no_exceptions = executable build (native_name s no_exceptions)

  abbrev pub all_defines : Source → List String → List String
  all_defines s defines = if str_eq s.folder "tests/cabi" then defines ++ "NDEBUG" ∷ [] else defines

  abbrev pub cl_words : Source → List String → Bool → List String
  cl_words s defines no_exceptions =
      "cl"
      ∷ "/nologo"
      ∷ (if is_cpp s then "/std:c++14" else "/std:c11")
      ∷ "/W4"
      ∷ "/WX"
      ∷ "/MT"
      ∷ ((if no_exceptions
            then "/EHs-c-" ∷ "/D_HAS_EXCEPTIONS=0" ∷ "/U_CPPUNWIND" ∷ []
            else if is_cpp s
            then "/EHsc" ∷ []
            else [])
          ++ "/Iinclude"
            ∷ "/Itests/cabi"
            ∷ (map (λ x. join "/D" x) (all_defines s defines) ++ path s ∷ []))

  abbrev pub cc_words : Source → List String → Bool → List String
  cc_words s defines no_exceptions =
      (if is_cpp s then variable_or "CXX" "c++" else variable_or "CC" "cc")
      ∷ (if is_cpp s then "-std=c++11" else "-std=c11")
      ∷ "-Wall"
      ∷ "-Wextra"
      ∷ "-Werror"
      ∷ ((if no_exceptions then "-fno-exceptions" ∷ [] else [])
          ++ "-Iinclude"
            ∷ "-Itests/cabi"
            ∷ (map (λ x. join "-D" x) (all_defines s defines) ++ path s ∷ []))

  unfoldable pub native : Source → String → Command → List String → Bool → Step
  native s build libraries defines no_exceptions =
      if is_nt h.os
      then msvc (
          words (cl_words s defines no_exceptions)
          ++ built_as "/Fo" (in_folder build (join (native_name s no_exceptions) ".obj"))
            ∷ built_as "/Fe" (native_binary s build no_exceptions)
            ∷ word "/link"
            ∷ (libraries ++ words ("kernel32.lib" ∷ "advapi32.lib" ∷ [])))
      else run (
          words (cc_words s defines no_exceptions)
          ++ (libraries
              ++ word "-pthread" ∷ word "-o" ∷ output (native_binary s build no_exceptions) ∷ []))

  abbrev pub object : String → String → String
  object build stem = in_folder build (join stem (if is_nt h.os then ".obj" else ".o"))

  -- extra
  abbrev pub runtime_extra : List String
  runtime_extra =
      if is_nt h.os
      then "kernel32.lib" ∷ "advapi32.lib" ∷ []
      else "-L-lpthread" ∷ "-L-lrt" ∷ "-L-latomic" ∷ []

  abbrev pub compile_object : Source → String → Step
  compile_object s build =
      if is_nt h.os
      then msvc (
          words (
            "cl"
            ∷ "/nologo"
            ∷ "/std:c11"
            ∷ "/W4"
            ∷ "/WX"
            ∷ "/MT"
            ∷ "/c"
            ∷ "/Iinclude"
            ∷ "/Itests/cabi"
            ∷ "/DNDEBUG"
            ∷ path s
            ∷ [])
          ++ built_as "/Fo" (object build s.stem) ∷ [])
      else run (
          words (
            variable_or "CC" "cc"
            ∷ "-std=c11"
            ∷ "-Wall"
            ∷ "-Wextra"
            ∷ "-Werror"
            ∷ "-Iinclude"
            ∷ "-Itests/cabi"
            ∷ "-DNDEBUG"
            ∷ "-c"
            ∷ path s
            ∷ "-o"
            ∷ [])
          ++ output (object build s.stem) ∷ [])

  abbrev pub compile_probe : String → String → Step
  compile_probe compiler build = run (
      words (
        compiler ∷ "-O" ∷ "-release" ∷ "-I." ∷ "-Icabi/source" ∷ "-Ithreadpool/source" ∷ "-c"
        ∷ "tests/cabi/runtime_probe.d" ∷ [])
      ++ built_as "-of=" (object build "runtime_probe") ∷ [])

  abbrev pub link_runtime : Source → String → Command → String → Command → Step
  link_runtime s build libraries compiler probe_objects = run (
      word compiler
      ∷ built (object build s.stem)
      ∷ (probe_objects
          ++ (libraries
              ++ (words runtime_extra ++ built_as "-of=" (executable build s.stem) ∷ []))))

  unfoldable pub native_runtime : Source → String → Command → String → Bool → List Step
  native_runtime s build libraries compiler probe =
      compile_object s build
      ∷ (if probe
          then compile_probe compiler build
            ∷ link_runtime s build libraries compiler (built (object build "runtime_probe") ∷ [])
            ∷ []
          else link_runtime s build libraries compiler [] ∷ [])
