-- ===== src/Examples.antt =====
-- examples/run_examples.py: the steps that build and run the examples. The steps of the C examples are
-- those of scripts/check-c-abi.py.
pub mod Driver
pub mod Quickstart
pub mod Programs
pub mod Binaries
mod Tests
use Prim.Native.Char.{code}
use Prim.Native.String.{◌++◌ as join}
use text.Mathlib.Text.{◌==◌ as str_eq}
use antfarm.Prelude.{
  ℕ, Bool, true, false, ◌&&◌, not, List, [], ◌∷◌, ◌++◌, Option, none, some, String, ◌==◌,
  if◌then◌else◌, range_from,
}
use antfarm.Runner.Texts.{decimal}
use antfarm.Shell.{Arg, word, built, output, built_as, words}
use antfarm.Cabi.{Host, is_nt, Step, run}
use antfarm.Cabi.Native.{variable_or}

pub record Config : Type 0 where
  pub compiler : String
  pub flags : List String
  pub suffix : String

abbrev pub examples : List String
examples =
    "public_service" ∷ "public_wave" ∷ "private_tree" ∷ "request_deadline" ∷ "fail_fast_fold"
    ∷ "fiber_cancel_at" ∷ "life/headless" ∷ []

abbrev includes : List String
includes = "-I." ∷ "-Iexamples" ∷ "-Ithreadpool/source" ∷ []

abbrev extra_includes : String → List String
extra_includes source = if str_eq source "fiber_cancel_at" then "-Iant_fibers/source" ∷ [] else []

-- configs[:2], and the others
abbrev pub ldc_configs : List Config
ldc_configs =
    record { compiler = "ldc2"; flags = "-g" ∷ []; suffix = "" }
    ∷ record { compiler = "ldc2"; flags = "-O2" ∷ "-release" ∷ []; suffix = "_release" }
    ∷ []

abbrev pub dmd_configs : List Config
dmd_configs =
    record { compiler = "dmd"; flags = "-g" ∷ []; suffix = "_dmd" }
    ∷ record { compiler = "dmd"; flags = "-O" ∷ "-release" ∷ []; suffix = "_dmd_release" }
    ∷ []

abbrev pub tsan : Config
tsan = record {
  compiler = "ldc2";
  flags = "-g" ∷ "-O1" ∷ "-fsanitize=thread" ∷ "-d-version=TSan" ∷ [];
  suffix = "_tsan";
}

-- build / name
abbrev pub in_build : String → String
in_build name = join "examples/.build/" name

-- name.replace("/", "_")
unfoldable pub flat : String → String
flat String.[] = ""
flat (String.◌∷◌ c s) = if code c == 47 then join "_" (flat s) else String.◌∷◌ c (flat s)

abbrev example_words : Config → String → List String
example_words c source =
    c.compiler
    ∷ (c.flags
        ++ "-i" ∷ (includes ++ (extra_includes source ++ join "examples/" (join source ".d") ∷ [])))

unfoldable pub compile_example : Config → String → String → Step
compile_example c source binary =
    run (words (example_words c source) ++ built_as "-of=" binary ∷ [])

unfoldable pub run_example : String → String → Step
run_example binary workers = run (built binary ∷ word workers ∷ [])

-- for x in xs
unfoldable pub each : {A : Type 0} → (A → List Step) → List A → List Step
each steps [] = []
each steps (x ∷ xs) = steps x ++ each steps xs

module _ (h : Host) where
  abbrev pub executable_path : String → String
  executable_path name = in_build (if is_nt h.os then join name ".exe" else name)

  abbrev pub shim : String
  shim = in_build "termbox_shim.o"

  unfoldable pub compile_termbox : List Step
  compile_termbox =
      if is_nt h.os
      then []
      else run (
          words (
            variable_or h "CC" "cc"
            ∷ "-std=c99"
            ∷ "-O2"
            ∷ "-c"
            ∷ "examples/life/termbox_shim.c"
            ∷ "-o"
            ∷ [])
          ++ output shim ∷ [])
        ∷ []

  unfoldable pub compile_life_tui : Config → Step
  compile_life_tui c = run (
      words (c.compiler ∷ (c.flags ++ "-i" ∷ (includes ++ "examples/life/tui.d" ∷ [])))
      ++ built shim ∷ built_as "-of=" (in_build (join "life" c.suffix)) ∷ [])

  abbrev pub config_binary : String → Config → String
  config_binary name c = executable_path (join (flat name) c.suffix)

  abbrev pub config_steps : String → Config → List Step
  config_steps name c =
      compile_example c name (config_binary name c)
      ∷ run_example (config_binary name c) "0"
      ∷ run_example (config_binary name c) "2"
      ∷ []

  abbrev pub tsan_binary : String → String
  tsan_binary name = in_build (join (flat name) tsan.suffix)

  abbrev pub tsan_steps : String → List Step
  tsan_steps name =
      compile_example tsan name (tsan_binary name)
      ∷ run_example (tsan_binary name) "0"
      ∷ (if str_eq name "fiber_cancel_at" then [] else run_example (tsan_binary name) "2" ∷ [])

  abbrev pub example_steps : List Config → Bool → String → List Step
  example_steps configs enable_tsan name =
      each (config_steps name) configs ++ (if enable_tsan then tsan_steps name else [])

  -- The program number `n` of the quickstart, whose text the script has written to its file.
  abbrev pub program_binary : ℕ → Config → String
  program_binary n c = executable_path (join "quickstart_" (join (decimal n) c.suffix))

  abbrev pub program_words : ℕ → Config → List String
  program_words n c =
      c.compiler
      ∷ (c.flags
          ++ "-i"
            ∷ "-I."
            ∷ "-Ithreadpool/source"
            ∷ "-Iforkjoin/source"
            ∷ in_build (join "quickstart_" (join (decimal n) ".d"))
            ∷ [])

  abbrev pub program_config : ℕ → Config → List Step
  program_config n c =
      run (words (program_words n c) ++ built_as "-of=" (program_binary n c) ∷ [])
      ∷ run (built (program_binary n c) ∷ [])
      ∷ []

  abbrev pub program_steps : List Config → ℕ → List Step
  program_steps configs n = each (program_config n) configs

  unfoldable pub quickstart_steps : List Config → ℕ → List Step
  unfolding each decimal
  quickstart_steps configs count = each (program_steps configs) (range_from 0 count)
