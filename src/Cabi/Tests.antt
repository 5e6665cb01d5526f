-- ===== src/Cabi/Tests.antt =====
-- scripts/check-c-abi.py: a host on which every check passes, an archive, and a lock.
use antfarm.Prelude.{ℕ, zero, suc, ◌≡◌, ◌↔◌, refl, true, false, List, [], ◌∷◌, ◌++◌, some, none, In}
use antfarm.Text.{Line, codes}
use antfarm.Shell.{Ended, exited, passed}
use antfarm.Cabi.{
  posix, nt, Host, Step, unlink, run, msvc, execute, audit_symbols, audit_declarations,
}
use antfarm.Cabi.Symbols.{Symbols, nm, dumpbin, symbols_of, is_forbidden, audit_error}
use antfarm.Cabi.Exports.{Audited, audit_error-Audited}
use antfarm.Cabi.LockFile.{lock_text, splitlines, is_break}
use antfarm.Cabi.Lock.{
  Rows, lock_key, keyed, report, changed, removed, added, check_abi_lock, matched,
}
use antfarm.Cabi.Reports.{Differs, report-Differs}
use antfarm.Cabi.Written.{write-check_abi_lock}
use antfarm.Cabi.Check.{Args, all, core_only, Machine, refused, plan, main}
use antfarm.Cabi.Steps.{StepsReady}
use antfarm.Cabi.Binaries.{plan-StepsReady}
use antfarm.Cabi.Verdict.{Judged, main-Judged}

abbrev linux : Host
linux = record {
  os = posix;
  variable = λ name. none;
  threadpool_sources = "threadpool/source/threadpool/package.d" ∷ [];
  forkjoin_sources = "forkjoin/source/forkjoin/package.d" ∷ [];
}

abbrev windows : Host
windows = record {
  os = nt;
  variable = λ name. none;
  threadpool_sources = "threadpool/source/threadpool/package.d" ∷ [];
  forkjoin_sources = "forkjoin/source/forkjoin/package.d" ∷ [];
}

abbrev core_args : Args
core_args = record {
  compiler = "ldc2";
  selection = core_only;
  tsan = false;
  write_abi_lock = false;
}

abbrev tsan_args : Args
tsan_args = record { compiler = "ldc2"; selection = all; tsan = true; write_abi_lock = false }

abbrev reply : Step → Ended
reply (execute binary args (some death)) = exited 134 (codes "C_FATAL_OBSERVER: " ++ codes death)
reply (execute binary args none) = exited 0 []
reply (unlink path) = exited 0 []
reply (run c) = exited 0 []
reply (msvc c) = exited 0 []
reply (audit_symbols library headers core) = exited 0 []
reply (audit_declarations write) = exited 0 []

abbrev machine : Machine
machine = record {
  process = λ past step. reply step;
  dump = λ past library.
      nm (codes "0000000000000010 T af_farm_create" ∷ []) (codes "                 U malloc" ∷ []);
  declared = λ headers. codes "af_farm_create" ∷ [];
  audited = λ past write. none;
}

abbrev first_steps : ℕ → List Step → List Step
first_steps zero steps = []
first_steps (suc n) [] = []
first_steps (suc n) (s ∷ steps) = s ∷ first_steps n steps

abbrev later_steps : ℕ → List Step → List Step
later_steps zero steps = steps
later_steps (suc n) [] = []
later_steps (suc n) (s ∷ steps) = later_steps n steps

tsan-windows : refused windows tsan_args ≡ some "--tsan requires Linux LDC and checks the core"
unfolding refused
tsan-windows = refl

main-core : main machine linux core_args ≡ passed (plan linux core_args)
unfolding main
main-core = refl

callback-step :
    plan linux core_args
    ≡ first_steps 8 (plan linux core_args)
      ++ execute ".build/c-abi-ldc2-posix/core" ("callback" ∷ []) (some "null payload callback")
        ∷ later_steps 9 (plan linux core_args)
unfolding plan
callback-step = refl

main-Judged_example : Judged (some "null payload callback") (
    reply (execute ".build/c-abi-ldc2-posix/core" ("callback" ∷ []) (some "null payload callback")))
main-Judged_example =
    main-Judged machine linux core_args (plan linux core_args)
      (first_steps 8 (plan linux core_args)) (later_steps 9 (plan linux core_args))
      ".build/c-abi-ldc2-posix/core" ("callback" ∷ []) (some "null payload callback") main-core
      callback-step

plan-StepsReady_example : StepsReady [] (plan windows core_args)
plan-StepsReady_example = plan-StepsReady windows core_args

coff :
    symbols_of (
      dumpbin (
        codes "001 00000000 SECT4 notype () External | af_farm_create"
        ∷ codes "002 00000000 UNDEF notype External | malloc"
        ∷ codes "Summary"
        ∷ []))
    ≡ some (record { defined = codes "af_farm_create" ∷ []; undefined = codes "malloc" ∷ [] })
unfolding symbols_of
coff = refl

imported : is_forbidden (codes "__imp_gc_malloc") ≡ true
unfolding is_forbidden
imported = refl

abbrev archive : Symbols
archive = record {
  defined = codes "af_farm_create" ∷ codes "helper" ∷ codes "af_farm_destroy" ∷ [];
  undefined = codes "malloc" ∷ codes "helper" ∷ [];
}

audit_error-Audited_example :
    (audit_error (codes "af_farm_destroy" ∷ codes "af_farm_create" ∷ []) archive true ≡ none)
    ↔ Audited (codes "af_farm_destroy" ∷ codes "af_farm_create" ∷ []) archive true
audit_error-Audited_example =
    audit_error-Audited (codes "af_farm_destroy" ∷ codes "af_farm_create" ∷ []) archive true

abbrev old_rows : List Line
old_rows =
    codes "PROTO int af_abi(void)"
    ∷ codes "CONST AF_MAX 4"
    ∷ codes "LAYOUT F af_view begin 0 8"
    ∷ []

abbrev new_rows : List Line
new_rows =
    codes "CONST AF_MAX 8" ∷ codes "LAYOUT F af_view begin 0 8" ∷ codes "LAYOUT S af_view 16 8" ∷ []

prototype-key : lock_key (codes "PROTO int af_abi(void)") ≡ some (codes "PROTO af_abi")
unfolding lock_key
prototype-key = refl

abbrev old_keyed : Rows
old_keyed =
    (codes "PROTO af_abi", codes "PROTO int af_abi(void)")
    ∷ (codes "CONST AF_MAX", codes "CONST AF_MAX 4")
    ∷ (codes "LAYOUT F af_view begin", codes "LAYOUT F af_view begin 0 8")
    ∷ []

abbrev new_keyed : Rows
new_keyed =
    (codes "CONST AF_MAX", codes "CONST AF_MAX 8")
    ∷ (codes "LAYOUT F af_view begin", codes "LAYOUT F af_view begin 0 8")
    ∷ (codes "LAYOUT S af_view", codes "LAYOUT S af_view 16 8")
    ∷ []

keyed-old : keyed [] old_rows ≡ some old_keyed
unfolding keyed
keyed-old = refl

report-rows :
    report old_keyed new_keyed
    ≡ changed (codes "CONST AF_MAX 4") (codes "CONST AF_MAX 8")
      ∷ removed (codes "PROTO int af_abi(void)")
      ∷ added (codes "LAYOUT S af_view 16 8")
      ∷ []
unfolding report
report-rows = refl

report-Differs_example :
    In (removed (codes "PROTO int af_abi(void)")) (report old_keyed new_keyed)
    ↔ Differs old_keyed new_keyed (removed (codes "PROTO int af_abi(void)"))
report-Differs_example =
    report-Differs old_keyed new_keyed (removed (codes "PROTO int af_abi(void)"))

write-check_abi_lock_example :
    (check_abi_lock new_rows (some (lock_text old_rows)) false ≡ matched) ↔ (new_rows ≡ old_rows)
unfolding check_abi_lock is_break
write-check_abi_lock_example =
    write-check_abi_lock old_rows new_rows (lock_text old_rows) none
      ((refl, (refl, (refl, tt))), (refl, (refl, (refl, tt)))) refl

two-lines : splitlines (codes "a\r\n\nb") ≡ codes "a" ∷ [] ∷ codes "b" ∷ []
unfolding splitlines
two-lines = refl
