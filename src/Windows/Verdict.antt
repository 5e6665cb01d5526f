-- ===== src/Windows/Verdict.antt =====
-- scripts/check-windows.py: what the end of `main` means.
use Prim.Native.String.{◌++◌ as join}
use text.Mathlib.Text.{◌==◌ as str_eq}
use antfarm.Prelude.{◌≡◌, true, List, [], ◌∷◌, none, String}
use antfarm.Shell.{Command}
use antfarm.Shell.Runs.{AllPass}
use antfarm.Windows.Check.{
  Windows, Args, refused, missing_tool, compilers_of, run_compilers, attempt,
}

module _ (w : Windows) (a : Args) where
  abbrev pub plan : List Command
  plan = run_compilers w a (compilers_of a)

  -- The arguments are accepted, on Windows, with the tools at hand.
  abbrev pub Starts : Type 0
  Starts =
      (refused a ≡ none)
      × (str_eq w.os_name "nt" ≡ true)
      × (missing_tool w.has_tool ("dub" ∷ "taskkill" ∷ compilers_of a) ≡ none)

  -- Each command of the plan passes behind those before it, and `commands` are all of them.
  abbrev pub Passes : List Command → Type 0
  Passes commands = AllPass (attempt w a) [] plan × (commands ≡ plan)
