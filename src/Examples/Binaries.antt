-- ===== src/Examples/Binaries.antt =====
-- examples/run_examples.py: what is run or linked has been built by a step before.
use antfarm.Prelude.{
  ℕ, ◌≡◌, ◌⊎◌, inl, inr, refl, ap, subst, Bool, true, false, ◌&&◌, not, List, [], ◌∷◌, ◌++◌, String,
  In, if◌then◌else◌, length,
}
use antfarm.Text.{Line}
use antfarm.Shell.{Failure, message, built, Command}
use antfarm.Cabi.{Host, is_nt, Step}
use antfarm.Cabi.Build.{core_library, runtime_library}
use antfarm.Cabi.Plan.{example, in_order, native_runtime_checks}
use antfarm.Cabi.Steps.{StepsReady, StepsReady-both, if-StepsReady, in_order-Ready, AllReady}
use antfarm.Cabi.Compiled.{
  build_core-Ready, build_runtime-Ready, native_checks-Ready, native_runtime_checks-Ready,
}
use antfarm.Examples.{
  examples, each, compile_termbox, compile_life_tui, example_steps, quickstart_steps,
}
use antfarm.Examples.Driver.{
  Selection, every, ldc_only, life, only, selected_configs, enable_tsan, is_ldc_only,
  quickstart_programs, tui_steps, example_plan, c_host_checks, c_groups, c_folder, check_c_examples,
  c_compilers, life_config, main_plan, plan,
}
use antfarm.Examples.Programs.{
  each-Ready, example_steps-Ready, quickstart_steps-Ready, life_tui-Ready, compile_termbox-Ready,
}

abbrev Planned : Type 0
Planned = Failure ⊎ List Step

abbrev steps_at : List Step → Planned → List Step
steps_at ss (inl f) = ss
steps_at ss (inr ts) = ts

arrived :
    (ss ts : List Step) → ◌≡◌ {A = Planned} (inr ss) (inr ts) → StepsReady [] ss → StepsReady [] ts
arrived ss ts e h = subst (λ us. StepsReady [] us) (ap (steps_at ss) e) h

module _ (h : Host) where
  tui_steps-Ready :
      (made : List String) (s : Selection) (b : Bool)
      → is_nt h.os ≡ b
      → StepsReady made (if not b && not (is_ldc_only s) then tui_steps h s else [])
  tui_steps-Ready made s true e = tt
  tui_steps-Ready made s false e =
      if-StepsReady made (not (is_ldc_only s)) (tui_steps h s) []
        (compile_termbox-Ready h made (each (λ c. compile_life_tui h c ∷ []) (selected_configs s)) e
          (λ more m.
            each-Ready more (λ c. compile_life_tui h c ∷ []) (selected_configs s)
              (λ c. life_tui-Ready h more c m)))
        tt

  example_plan-Ready : (s : Selection) (count : ℕ) → StepsReady [] (example_plan h s count)
  unfolding example_plan
  example_plan-Ready s count =
      StepsReady-both [] (quickstart_steps h (selected_configs s) count) (programs ++ last)
        (quickstart_steps-Ready h [] (selected_configs s) count)
        (StepsReady-both [] programs last
          (each-Ready [] (example_steps h (selected_configs s) (enable_tsan h s)) examples
            (example_steps-Ready h [] (selected_configs s) (enable_tsan h s)))
          (tui_steps-Ready [] s (is_nt h.os) refl))
    where
      programs : List Step
      programs = each (example_steps h (selected_configs s) (enable_tsan h s)) examples

      last : List Step
      last = if not (is_nt h.os) && not (is_ldc_only s) then tui_steps h s else []

  check_c_examples-Ready : (compiler : String) → StepsReady [] (check_c_examples h compiler)
  unfolding check_c_examples
  check_c_examples-Ready compiler =
      build_core-Ready h compiler [] build false false false
        (in_order (c_groups h compiler build lib))
        (λ more m w. in_order-Ready more (c_groups h compiler build lib) (groups more m))
    where
      build : String
      build = c_folder h compiler

      lib : String
      lib = core_library h build

      host : (made : List String) → In lib made → StepsReady made (c_host_checks h compiler build)
      host made m =
          build_runtime-Ready h compiler made build
            (native_runtime_checks h compiler (example "c_host") build libraries false [])
            (λ more n w.
              native_runtime_checks-Ready h compiler more (example "c_host") build libraries false
                [] (n, (w lib m, tt)))
        where
          libraries : Command
          libraries = built (runtime_library h build) ∷ built lib ∷ []

      groups : (made : List String) → In lib made → AllReady made (c_groups h compiler build lib)
      groups made m = search (native_checks-Ready, host)

  main_plan-Ready :
      (blocks : List Line) (s : Selection) (steps : List Step)
      → main_plan h blocks s ≡ inr steps
      → StepsReady [] steps
  main_plan-Ready blocks s steps = go (quickstart_programs blocks)
    where
      go :
          (r : Failure ⊎ List Line)
          → elim r as (λ r. Failure ⊎ List Step) [
            | inl f ↦ inl f
            | inr programs ↦ inr (example_plan h s (length programs))
          ]
            ≡ inr steps
          → StepsReady [] steps
      go (inl f) e = absurd (clash e)
        where
          clash : ◌≡◌ {A = Planned} (inl f) (inr steps) → ⊥
          clash q = cc
      go (inr programs) e =
          arrived (example_plan h s (length programs)) steps e
            (example_plan-Ready s (length programs))

  -- Whatever the host, the quickstart and the arguments, each binary that the examples' driver runs or
  -- links is written by a step before it, with the C examples and the terminal program.
  pub plan-Ready :
      (blocks : List Line) (s : Selection) (c_abi : Bool) (steps : List Step)
      → plan h blocks s c_abi ≡ inr steps
      → StepsReady [] steps
  unfolding plan
  plan-Ready blocks s true steps e =
      arrived (each (check_c_examples h) (c_compilers h s)) steps e
        (each-Ready [] (check_c_examples h) (c_compilers h s) check_c_examples-Ready)
  plan-Ready blocks every false steps e = main_plan-Ready blocks every steps e
  plan-Ready blocks ldc_only false steps e = main_plan-Ready blocks ldc_only steps e
  plan-Ready blocks (only c) false steps e = main_plan-Ready blocks (only c) steps e
  plan-Ready blocks life false steps e = go (is_nt h.os) refl e
    where
      go :
          (b : Bool)
          → is_nt h.os ≡ b
          → (let found : Failure ⊎ List Step =
                if b
                then inl (message "The Life terminal front end requires POSIX")
                else inr (compile_termbox h ++ compile_life_tui h (life_config h) ∷ []) in
              found ≡ inr steps)
          → StepsReady [] steps
      go true d q = absurd (clash q)
        where
          clash :
              ◌≡◌ {A = Planned}
                (inl (message "The Life terminal front end requires POSIX"))
                (inr steps)
              → ⊥
          clash p = cc
      go false d q =
          arrived (compile_termbox h ++ compile_life_tui h (life_config h) ∷ []) steps q (
            compile_termbox-Ready h [] (compile_life_tui h (life_config h) ∷ []) d
              (λ more m. life_tui-Ready h more (life_config h) m))
