-- ===== src/Examples/Tests.antt =====
-- examples/run_examples.py: a quickstart of a program and a fragment.
use antfarm.Prelude.{◌≡◌, ◌≢◌, inl, inr, ◌↔◌, refl, false, List, [], ◌∷◌, none}
use antfarm.Text.{Line, codes}
use antfarm.Shell.{message}
use antfarm.Cabi.{posix, Host}
use antfarm.Cabi.Steps.{StepsReady}
use antfarm.Cabi.Symbols.{select}
use antfarm.Examples.{flat}
use antfarm.Examples.Driver.{is_program, quickstart_programs, only, example_plan, plan}
use antfarm.Examples.Quickstart.{AreMarked, quickstart_programs-AreMarked}
use antfarm.Examples.Binaries.{plan-Ready}

abbrev linux : Host
linux = record {
  os = posix;
  variable = λ name. none;
  threadpool_sources = [];
  forkjoin_sources = [];
}

abbrev quickstart : List Line
quickstart = codes "void main() {}" ∷ codes "// fragment" ∷ []

flat-life : flat "life/headless" ≡ "life_headless"
unfolding flat
flat-life = refl

one-program : quickstart_programs quickstart ≡ inr (codes "void main() {}" ∷ [])
unfolding quickstart_programs
one-program = refl

unmarked :
    quickstart_programs (codes "int x;" ∷ quickstart)
    ≡ inl (
        message
          "docs/guide/quickstart.md block is neither a complete program nor marked as a fragment")
unfolding quickstart_programs
unmarked = refl

quickstart_programs-AreMarked_example :
    (quickstart_programs quickstart ≡ inr (codes "void main() {}" ∷ [])) ↔ (
      AreMarked quickstart
      × (codes "void main() {}" ∷ [] ≡ select is_program quickstart)
      × (codes "void main() {}" ∷ [] ≢ []))
quickstart_programs-AreMarked_example =
    quickstart_programs-AreMarked quickstart (codes "void main() {}" ∷ [])

plan-Ready_example : StepsReady [] (example_plan linux (only "dmd") 1)
unfolding plan
plan-Ready_example =
    plan-Ready linux quickstart (only "dmd") false (example_plan linux (only "dmd") 1) refl
