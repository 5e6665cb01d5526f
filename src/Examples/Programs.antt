-- ===== src/Examples/Programs.antt =====
-- examples/run_examples.py: each program is built before it is run.
use Prim.Native.String.{◌++◌ as join}
use text.Mathlib.Text.{◌==◌ as str_eq}
use antfarm.Prelude.{
  ℕ, ◌≡◌, inl, refl, Bool, false, List, [], ◌∷◌, ◌++◌, String, In, if◌then◌else◌, range_from,
}
use antfarm.Shell.{built, built_as, words}
use antfarm.Shell.Builds.{words-needs, needs-All, makes-In}
use antfarm.Cabi.{Host, is_nt, Step, run}
use antfarm.Cabi.Steps.{StepsReady, StepsReady-both, if-StepsReady, Writes, then-Ready}
use antfarm.Examples.{
  Config, tsan, example_words, compile_example, run_example, each, shim, compile_termbox,
  compile_life_tui, config_binary, config_steps, tsan_binary, tsan_steps, example_steps,
  program_binary, program_words, program_config, program_steps, quickstart_steps, includes,
  in_build,
}

pub each-Ready :
    {A : Type 0}
    → (made : List String) (steps : A → List Step) (xs : List A)
    → ((x : A) → StepsReady made (steps x))
    → StepsReady made (each steps xs)
unfolding each
each-Ready made steps [] h = tt
each-Ready made steps (x ∷ xs) h =
    StepsReady-both made (steps x) (each steps xs) (h x) (each-Ready made steps xs h)

-- Words, and then the file that they write.
compile-Writes :
    (made : List String) (binary : String) (ws : List String)
    → Writes made binary (run (words ws ++ built_as "-of=" binary ∷ []))
compile-Writes made binary ws = (
  needs-All made (words ws) (built_as "-of=" binary ∷ []) (words-needs made ws) tt,
  makes-In binary (words ws) (built_as "-of=" binary ∷ []) (inl refl),
)

module _ (h : Host) (made : List String) where
  config_steps-Ready : (name : String) (c : Config) → StepsReady made (config_steps h name c)
  unfolding compile_example run_example
  config_steps-Ready name c =
      then-Ready made (config_binary h name c) (compile_example c name (config_binary h name c))
        (run_example (config_binary h name c) "0" ∷ run_example (config_binary h name c) "2" ∷ [])
        (compile-Writes made (config_binary h name c) (example_words c name))
        (λ more m w. ((m, tt), ((m, tt), tt)))

  tsan_steps-Ready : (name : String) → StepsReady made (tsan_steps h name)
  unfolding compile_example run_example
  tsan_steps-Ready name =
      then-Ready made (tsan_binary h name) (compile_example tsan name (tsan_binary h name))
        (run_example (tsan_binary h name) "0"
          ∷ (if str_eq name "fiber_cancel_at"
              then []
              else run_example (tsan_binary h name) "2" ∷ []))
        (compile-Writes made (tsan_binary h name) (example_words tsan name))
        (λ more m w. (
          (m, tt),
          if-StepsReady more (str_eq name "fiber_cancel_at") []
              (run_example (tsan_binary h name) "2" ∷ []) tt ((m, tt), tt),
        ))

  pub example_steps-Ready :
      (configs : List Config) (b : Bool) (name : String)
      → StepsReady made (example_steps h configs b name)
  example_steps-Ready configs b name =
      StepsReady-both made (each (config_steps h name) configs)
        (if b then tsan_steps h name else [])
        (each-Ready made (config_steps h name) configs (config_steps-Ready name))
        (if-StepsReady made b (tsan_steps h name) [] (tsan_steps-Ready name) tt)

  program_config-Ready : (n : ℕ) (c : Config) → StepsReady made (program_config h n c)
  program_config-Ready n c =
      then-Ready made (program_binary h n c)
        (run (words (program_words h n c) ++ built_as "-of=" (program_binary h n c) ∷ []))
        (run (built (program_binary h n c) ∷ []) ∷ [])
        (compile-Writes made (program_binary h n c) (program_words h n c))
        (λ more m w. ((m, tt), tt))

  pub quickstart_steps-Ready :
      (configs : List Config) (count : ℕ) → StepsReady made (quickstart_steps h configs count)
  unfolding quickstart_steps
  quickstart_steps-Ready configs count =
      each-Ready made (program_steps h configs) (range_from 0 count)
        (λ n. each-Ready made (program_config h n) configs (program_config-Ready n))

  pub life_tui-Ready : (c : Config) → In (shim h) made → StepsReady made (compile_life_tui h c ∷ [])
  unfolding compile_life_tui
  life_tui-Ready c m = (
    needs-All made (words front)
        (built (shim h) ∷ built_as "-of=" (in_build (join "life" c.suffix)) ∷ [])
        (words-needs made front) (m, tt),
    tt,
  )
    where
      front : List String
      front = c.compiler ∷ (c.flags ++ "-i" ∷ (includes ++ "examples/life/tui.d" ∷ []))

-- On POSIX the object of termbox is written before the steps that link it.
pub compile_termbox-Ready :
    (h : Host) (made : List String) (ss : List Step)
    → is_nt h.os ≡ false
    → ((more : List String) → In (shim h) more → StepsReady more ss)
    → StepsReady made (compile_termbox h ++ ss)
unfolding compile_termbox
compile_termbox-Ready h made ss e k = rw (e, if◌then◌else◌) (tt, k (shim h ∷ made) (inl refl))
