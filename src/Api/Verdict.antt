-- ===== src/Api/Verdict.antt =====
-- scripts/check-api-docs.py: what exit status 0 of `main` means.
use antfarm.Prelude.{
  >>=-eq-some, ℕ, zero, suc, ◌≡◌, ◌↔◌, ◌<◌, refl, sym, ap, ◌∙◌, subst, Bool, true, false, List, [],
  ◌∷◌, ◌++◌, Option, none, some, String, length, arith, All,
}
use mathlib.Core.List.{append_assoc, append-nil}
use antfarm.Text.{Line}
use antfarm.Api.Protections.{scan_protections}
use antfarm.Api.Inventory.{Declaration, public_declarations, is_documented}
use antfarm.Api.Declared.{both-some}
use antfarm.Api.Check.{
  Module, Files, Coverage, lacking, resolution_names, coverage_of, index_symbols, has, unresolved,
  missing_of, required_total, exit_of, main, file_coverage, module_coverage, declarations_coverage,
  coverage_from, judged, verdict,
}

-- Every public declaration of a module has its comment; only of a covered module, where it is read.
abbrev pub InFile : Files → Module → String → Bool → Type 0
InFile fs m file false = Unit
InFile fs m file true =
    (ps : List (ℕ × String)) × (scan_protections fs.is_letter (fs.lines_of file) ≡ some ps)
    × (ds : List Declaration) × (public_declarations (some ps) m.members ≡ some ds)
    × All (λ (d : Declaration). is_documented d.1 ≡ true) ds

abbrev InModule : Files → Module → Option String → Type 0
InModule fs m none = Unit
InModule fs m (some file) = InFile fs m file (fs.is_covered file)

abbrev pub IsDocumented : Files → Module → Type 0
IsDocumented fs m = InModule fs m m.file

-- What `cs` is, in `some cs`.
abbrev from : Option (List Coverage) → List Coverage
from none = []
from (some cs) = cs

lacking-nil :
    (ds : List Declaration)
    → (lacking ds ≡ []) ↔ All (λ (d : Declaration). is_documented d.1 ≡ true) ds
lacking-nil [] = (λ h. tt, λ h. refl)
lacking-nil ((name, m) ∷ ds) = ground (arith, lacking-nil ds)

unresolved-nil :
    (names symbols : List Line)
    → (unresolved names symbols ≡ []) ↔ All (λ s. has s names ≡ true) symbols
unfolding unresolved
unresolved-nil names [] = (λ h. tt, λ h. refl)
unresolved-nil names (s ∷ symbols) = ground (arith, unresolved-nil names symbols)

append-nil_iff : (xs ys : List Declaration) → (xs ++ ys ≡ []) ↔ ((xs ≡ []) × (ys ≡ []))
append-nil_iff [] ys = (λ h. (refl, h), λ h. h.1)
append-nil_iff (x ∷ xs) ys = ground arith

exit_of-zero :
    (lost : List Line) (missing : List Declaration) (n : ℕ)
    → (exit_of lost missing n ≡ some 0) ↔ ((lost ≡ []) × (missing ≡ []) × (0 < n))
unfolding exit_of
exit_of-zero lost missing zero = ground arith
exit_of-zero [] [] (suc n) = ground arith
exit_of-zero [] (d ∷ ds) (suc n) = ground arith
exit_of-zero (s ∷ ss) missing (suc n) = ground arith

missing_of-append : (xs ys : List Coverage) → missing_of (xs ++ ys) ≡ missing_of xs ++ missing_of ys
unfolding missing_of
missing_of-append [] ys = refl
missing_of-append (x ∷ xs) ys = rw (missing_of-append xs ys, append_assoc) refl

same_declarations :
    (m : Module) (ps ps' : List (ℕ × String)) (ds ds' : List Declaration)
    → ps' ≡ ps
    → public_declarations (some ps) m.members ≡ some ds
    → public_declarations (some ps') m.members ≡ some ds'
    → ds' ≡ ds
same_declarations m ps ps' ds ds' e f g = cc

only_missing :
    (name : String) (ds : List Declaration)
    → missing_of (record { name = name; missing = lacking ds; required = length ds } ∷ [])
      ≡ lacking ds
unfolding missing_of
only_missing name ds = append-nil (lacking ds)

module _ (fs : Files) where
  -- What the coverage of a covered module is made of.
  file_coverage-some :
      (m : Module) (file : String) (cs : List Coverage)
      → file_coverage fs m file true ≡ some cs
      → (ps : List (ℕ × String)) × (scan_protections fs.is_letter (fs.lines_of file) ≡ some ps)
        × (ds : List Declaration) × (public_declarations (some ps) m.members ≡ some ds)
        × (missing_of cs ≡ lacking ds)
  unfolding file_coverage
  file_coverage-some m file cs h =
      let (ps, e, k) =
        >>=-eq-some (scan_protections fs.is_letter (fs.lines_of file)) (declarations_coverage m)
          h in
      let (ds, f, l) = >>=-eq-some (public_declarations (some ps) m.members) (coverage_from m) k in
      (ps, e, ds, f, ap (λ o. missing_of (from o)) (sym l) ∙ only_missing m.name ds)

  same_protections :
      (file : String) (ps ps' : List (ℕ × String))
      → scan_protections fs.is_letter (fs.lines_of file) ≡ some ps
      → scan_protections fs.is_letter (fs.lines_of file) ≡ some ps'
      → ps' ≡ ps
  same_protections file ps ps' e f = cc

  file_coverage-missing :
      (m : Module) (file : String) (covered : Bool) (cs : List Coverage)
      → file_coverage fs m file covered ≡ some cs
      → (missing_of cs ≡ []) ↔ InFile fs m file covered
  file_coverage-missing m file false cs h = (
    λ k. tt,
    λ k. subst (λ o. missing_of (from o) ≡ []) h (unfold file_coverage missing_of in refl),
  )
  file_coverage-missing m file true cs h =
      let (ps, e, ds, f, l) = file_coverage-some m file cs h in
      (
        λ k. (ps, e, ds, f, (lacking-nil ds).0 (sym l ∙ k)),
        λ (ps', e', ds', f', all).
            l
            ∙ (lacking-nil ds).1 (
                subst (λ xs. All (λ (d : Declaration). is_documented d.1 ≡ true) xs)
                  (same_declarations m ps ps' ds ds' (same_protections file ps ps' e e') f f') all),
      )

  module_coverage-missing :
      (m : Module) (file : Option String) (cs : List Coverage)
      → module_coverage fs m file ≡ some cs
      → (missing_of cs ≡ []) ↔ InModule fs m file
  unfolding module_coverage
  module_coverage-missing m none cs h =
      (λ k. tt, λ k. subst (λ o. missing_of (from o) ≡ []) h (unfold missing_of in refl))
  module_coverage-missing m (some file) cs h =
      file_coverage-missing m file (fs.is_covered file) cs h

  coverage_of-missing :
      (api : List Module) (cs : List Coverage)
      → coverage_of fs api ≡ some cs
      → (missing_of cs ≡ []) ↔ All (IsDocumented fs) api
  unfolding coverage_of
  coverage_of-missing [] cs h =
      (λ k. tt, λ k. subst (λ o. missing_of (from o) ≡ []) h (unfold missing_of in refl))
  coverage_of-missing (m ∷ ms) cs h =
      let (xs, ys, a, b, e) = both-some (module_coverage fs m m.file) (coverage_of fs ms) cs h in
      let here = module_coverage-missing m m.file xs a in
      let rest = coverage_of-missing ms ys b in
      let whole = append-nil_iff (missing_of xs) (missing_of ys) in
      let parts : missing_of cs ≡ missing_of xs ++ missing_of ys =
        ap missing_of (sym e) ∙ missing_of-append xs ys in
      (
        λ k. let (p, q) = whole.0 (sym parts ∙ k) in (here.0 p, rest.0 q),
        λ (p, q). parts ∙ whole.1 (here.1 p, rest.1 q),
      )

  -- The exit status is 0 exactly when every symbol of the index is a name of the inventory, every
  -- public declaration of every covered module has its comment, and there is such a declaration: the
  -- names and the coverage are read without an exception, and the percentage has no zero below it.
  pub main-zero :
      (api : List Module) (page : List Line)
      → (main fs api page ≡ some 0) ↔ (
          (names : List Line) × (resolution_names fs api ≡ some names)
          × All (λ s. has s names ≡ true) (index_symbols page)
          × (cs : List Coverage) × (coverage_of fs api ≡ some cs)
          × (0 < required_total cs)
          × All (IsDocumented fs) api)
  unfolding main
  main-zero api page = (
    λ h.
        let (names, e, k) = >>=-eq-some (resolution_names fs api) (judged fs api page) h in
        let (cs, f, l) = >>=-eq-some (coverage_of fs api) (verdict page names) k in
        let (lost, missing, positive) =
          (exit_of-zero (unresolved names (index_symbols page)) (missing_of cs)
              (required_total cs)).0
            l in
        (
          names,
          e,
          (unresolved-nil names (index_symbols page)).0 lost,
          cs,
          f,
          positive,
          (coverage_of-missing api cs f).0 missing,
        ),
    λ (names, e, symbols, cs, f, positive, all).
        rw (e, main, f)
          ((exit_of-zero (unresolved names (index_symbols page)) (missing_of cs)
              (required_total cs)).1
            (
              (unresolved-nil names (index_symbols page)).1 symbols,
              (coverage_of-missing api cs f).1 all,
              positive,
            )),
  )
