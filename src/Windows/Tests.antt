-- ===== src/Windows/Tests.antt =====
-- scripts/check-windows.py: a host on which every command succeeds.
use antfarm.Prelude.{◌≡◌, refl, true, false, [], ◌∷◌, some, none}
use antfarm.Text.{codes}
use antfarm.Shell.{exited, timed_out, hardware_skipped, timeout, status}
use antfarm.Shell.Builds.{Ready}
use antfarm.Windows.{run, private}
use antfarm.Windows.Check.{Windows, Args, quick, lanes, refused, run_compilers}
use antfarm.Windows.Binaries.{run_compilers-Ready}

abbrev host : Windows
host = record {
  process = λ past command. exited 0 [];
  os_name = "nt";
  has_tool = λ tool. true;
  python = "python.exe";
  doc_examples = "private_doc_1" ∷ "private_doc_2" ∷ [];
}

abbrev quick_args : Args
quick_args = record {
  compiler = "all";
  selection = quick;
  timeout = 300;
  allow_hardware_skips = false;
}

abbrev private_args : Args
private_args = record {
  compiler = "dmd";
  selection = lanes (private ∷ []);
  timeout = 300;
  allow_hardware_skips = false;
}

run-skips : run false (exited 0 (codes "ok; SKIP confine-test: one CPU")) ≡ some hardware_skipped
unfolding run
run-skips = refl

run-allowed : run true (exited 0 (codes "ok; SKIP confine-test: one CPU")) ≡ none
unfolding run
run-allowed = refl

run-fails : run true (exited 3 []) ≡ some (status 3)
unfolding run
run-fails = refl

run-slow : run true timed_out ≡ some timeout
unfolding run
run-slow = refl

quick-dmd :
    refused
      (record { compiler = "dmd"; selection = quick; timeout = 300; allow_hardware_skips = false })
    ≡ some "--quick requires LDC; use --lanes to select DMD checks"
unfolding refused
quick-dmd = refl

run_compilers-Ready_example : Ready [] (run_compilers host private_args ("ldc2" ∷ "dmd" ∷ []))
run_compilers-Ready_example = run_compilers-Ready host private_args ("ldc2" ∷ "dmd" ∷ [])
