-- ===== src/Examples/Driver.antt =====
-- examples/run_examples.py: `check_quickstart_programs`, `main`, `check_c_examples` and the arguments.
use Prim.Native.String.{◌++◌ as join}
use text.Mathlib.Text.{◌==◌ as str_eq}
use antfarm.Prelude.{
  ℕ, ◌⊎◌, inl, inr, Bool, true, false, ◌&&◌, not, List, [], ◌∷◌, ◌++◌, String, if◌then◌else◌,
  length,
}
use antfarm.Text.{Line, codes}
use antfarm.Shell.{built, Failure, message, occurs_in, run_all, Outcome, usage, failed, ended}
use antfarm.Cabi.{Host, is_nt, Step}
use antfarm.Cabi.Build.{core_library, build_core, runtime_library, build_runtime}
use antfarm.Cabi.Native.{variable_or}
use antfarm.Cabi.Plan.{example, threads_example, native_checks, native_runtime_checks, in_order}
use antfarm.Cabi.Check.{Machine, attempt}
use antfarm.Examples.{
  Config, examples, ldc_configs, dmd_configs, each, example_steps, quickstart_steps,
  compile_termbox, compile_life_tui,
}

abbrev pub is_program : Line → Bool
is_program block = occurs_in (codes "void main") block

abbrev pub is_fragment : Line → Bool
is_fragment block = occurs_in (codes "fragment") block

-- The complete programs among the blocks, or the message of a block that is neither.
unfoldable pub programs_in : List Line → Failure ⊎ List Line
unfolding occurs_in
programs_in [] = inr []
programs_in (block ∷ blocks) =
    let rest = programs_in blocks in
    if is_program block
    then elim rest [ inl f ↦ inl f | inr programs ↦ inr (block ∷ programs) ]
    else if is_fragment block
    then rest
    else inl (
        message
          "docs/guide/quickstart.md block is neither a complete program nor marked as a fragment")

unfoldable pub quickstart_programs : List Line → Failure ⊎ List Line
unfolding programs_in
quickstart_programs [] = inl (message "docs/guide/quickstart.md has no ```d blocks")
quickstart_programs (block ∷ blocks) = elim (programs_in (block ∷ blocks)) [
  | inl f ↦ inl f
  | inr programs ↦ elim programs as (λ ps. Failure ⊎ List Line) [
    | [] ↦ inl (message "expected at least one complete quickstart program")
    | ◌∷◌ p ps ↦ inr (p ∷ ps)
  ]
]

-- --ldc-only, --compiler and --life exclude each other.
pub data Selection : Type 0 where
  every ldc_only life : Selection
  only : String → Selection

abbrev pub selected_configs : Selection → List Config
selected_configs every = ldc_configs ++ dmd_configs
selected_configs ldc_only = ldc_configs
selected_configs life = ldc_configs ++ dmd_configs
selected_configs (only c) =
    (if str_eq c "ldc2" then ldc_configs else []) ++ (if str_eq c "dmd" then dmd_configs else [])

abbrev pub is_ldc_only : Selection → Bool
is_ldc_only ldc_only = true
is_ldc_only every = false
is_ldc_only life = false
is_ldc_only (only c) = false

abbrev pub is_dmd : Selection → Bool
is_dmd (only c) = str_eq c "dmd"
is_dmd every = false
is_dmd ldc_only = false
is_dmd life = false

module _ (h : Host) where
  abbrev pub enable_tsan : Selection → Bool
  enable_tsan s = not (is_nt h.os) && not (is_ldc_only s) && not (is_dmd s)

  abbrev pub tui_steps : Selection → List Step
  tui_steps s = compile_termbox h ++ each (λ c. compile_life_tui h c ∷ []) (selected_configs s)

  -- `main`, with as many programs as the quickstart has
  unfoldable pub example_plan : Selection → ℕ → List Step
  unfolding each quickstart_steps
  example_plan s count =
      quickstart_steps h (selected_configs s) count
      ++ (each (example_steps h (selected_configs s) (enable_tsan s)) examples
          ++ (if not (is_nt h.os) && not (is_ldc_only s) then tui_steps s else []))

  abbrev pub c_host_checks : String → String → List Step
  c_host_checks compiler build =
      build_runtime h compiler build
      ++ native_runtime_checks h compiler (example "c_host") build
          (built (runtime_library h build) ∷ built (core_library h build) ∷ []) false []

  abbrev pub c_groups : String → String → String → List (List Step)
  c_groups compiler build lib =
      native_checks h compiler (example "c_core") build (built lib ∷ []) [] false []
      ∷ native_checks h compiler threads_example build (built lib ∷ []) [] false []
      ∷ native_checks h compiler (example "c_actors") build (built lib ∷ []) [] false []
      ∷ native_checks h compiler (example "c_wave") build (built lib ∷ []) [] false []
      ∷ native_checks h compiler (example "c_private") build (built lib ∷ []) [] false []
      ∷ c_host_checks compiler build
      ∷ []

  abbrev pub c_folder : String → String
  c_folder compiler = join ".build/c-abi-" (join compiler (if is_nt h.os then "-nt" else "-posix"))

  unfoldable pub check_c_examples : String → List Step
  unfolding build_core in_order
  check_c_examples compiler =
      build_core h compiler (c_folder compiler) false false false
      ++ in_order (c_groups compiler (c_folder compiler) (core_library h (c_folder compiler)))

  abbrev pub c_compilers : Selection → List String
  c_compilers (only c) = c ∷ []
  c_compilers ldc_only = "ldc2" ∷ []
  c_compilers every = "ldc2" ∷ "dmd" ∷ []
  c_compilers life = "ldc2" ∷ "dmd" ∷ []

  abbrev pub life_config : Config
  life_config =
      let compiler = variable_or h "DC" "ldc2" in
      record {
        compiler = compiler;
        flags = if str_eq compiler "ldc2" then "-O2" ∷ "-release" ∷ [] else "-O" ∷ "-release" ∷ [];
        suffix = "";
      }

  abbrev pub life_plan : Failure ⊎ List Step
  life_plan =
      if is_nt h.os
      then inl (message "The Life terminal front end requires POSIX")
      else inr (compile_termbox h ++ compile_life_tui h life_config ∷ [])

  abbrev pub main_plan : List Line → Selection → Failure ⊎ List Step
  main_plan blocks s = elim (quickstart_programs blocks) [
    | inl f ↦ inl f
    | inr programs ↦ inr (example_plan s (length programs))
  ]

  -- What the script does, by the `d` blocks of the quickstart and the arguments.
  unfoldable pub plan : List Line → Selection → Bool → Failure ⊎ List Step
  unfolding quickstart_programs example_plan check_c_examples compile_termbox each
  plan blocks s true = inr (each check_c_examples (c_compilers s))
  plan blocks life false = life_plan
  plan blocks every false = main_plan blocks every
  plan blocks ldc_only false = main_plan blocks ldc_only
  plan blocks (only c) false = main_plan blocks (only c)

  unfoldable pub driver : Machine → List Line → Selection → Bool → Outcome Step
  unfolding plan run_all attempt
  driver m blocks life true = usage "--c-abi cannot be combined with --life"
  driver m blocks s c_abi = elim (plan blocks s c_abi) [
    | inl f ↦ failed f []
    | inr steps ↦ ended (run_all (attempt m) [] steps)
  ]
