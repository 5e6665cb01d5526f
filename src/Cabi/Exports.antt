-- ===== src/Cabi/Exports.antt =====
-- scripts/check-c-abi.py: what it means that `audit_symbols` raises nothing.
use antfarm.Prelude.{
  ◌≡◌, inl, inr, ◌↔◌, refl, sym, ap, ◌∙◌, subst, Bool, true, false, ◌&&◌, ◌||◌, not, List, [], ◌∷◌,
  none, some, In, ◌==◌, eq_of_==, if◌then◌else◌,
}
use antfarm.Text.{Line, line_eq, line_eq-eq, line_eq_refl}
use antfarm.Shell.{Failure, message}
use antfarm.Cabi.Symbols.{
  Symbols, listed, all_lines, select, occurrences, is_export, is_forbidden, exports, external,
  is_match, is_free, audit_error,
}

listed-In : (names : List Line) (name : Line) → (listed names name ≡ true) ↔ In name names
unfolding listed
listed-In [] name = (λ e. absurd (clash e), λ h. absurd h)
  where
    clash : false ≡ true → ⊥
    clash e = cc
listed-In (n ∷ names) name = go (line_eq name n) refl (listed-In names name)
  where
    go :
        (b : Bool)
        → line_eq name n ≡ b
        → (listed names name ≡ true) ↔ In name names
        → ((b || listed names name) ≡ true) ↔ In name (n ∷ names)
    go true e k = (λ q. inl (line_eq-eq name n e), λ m. refl)
    go false e (there, back) = (
      λ q. inr (there q),
      λ m. elim m [ inl same ↦ absurd (clash same) | inr later ↦ back later ],
    )
      where
        clash : name ≡ n → ⊥
        clash same =
            let r : line_eq name n ≡ true =
              subst (λ x. line_eq name x ≡ true) same (line_eq_refl name) in
            cc

all_lines-In :
    (test : Line → Bool) (names : List Line)
    → (all_lines test names ≡ true) ↔ ((name : Line) → In name names → test name ≡ true)
unfolding all_lines
all_lines-In test [] = (λ e name m. absurd m, λ h. refl)
all_lines-In test (n ∷ names) = go (test n) refl (all_lines-In test names)
  where
    go :
        (b : Bool)
        → test n ≡ b
        → (all_lines test names ≡ true) ↔ ((name : Line) → In name names → test name ≡ true)
        → ((b && all_lines test names) ≡ true)
          ↔ ((name : Line) → In name (n ∷ names) → test name ≡ true)
    go true e (there, back) = (
      λ q name m. elim m [ inl same ↦ ap test same ∙ e | inr later ↦ there q name later ],
      λ h. back (λ name m. h name (inr m)),
    )
    go false e k = (λ q. absurd (clash q), λ h. sym e ∙ h n (inl refl))
      where
        clash : false ≡ true → ⊥
        clash q = cc

select-In :
    (test : Line → Bool) (names : List Line) (name : Line)
    → In name (select test names) ↔ (In name names × (test name ≡ true))
unfolding select
select-In test [] name = (λ m. absurd m, λ (m, e). absurd m)
select-In test (n ∷ names) name = go (test n) refl (select-In test names name)
  where
    go :
        (b : Bool)
        → test n ≡ b
        → In name (select test names) ↔ (In name names × (test name ≡ true))
        → In name (if b then n ∷ select test names else select test names)
          ↔ (In name (n ∷ names) × (test name ≡ true))
    go true e (there, back) = (
      λ m. elim m [
        | inl same ↦ (inl same, ap test same ∙ e)
        | inr later ↦ (inr (there later).0, (there later).1)
      ],
      λ (m, q). elim m [ inl same ↦ inl same | inr later ↦ inr (back (later, q)) ],
    )
    go false e (there, back) = (
      λ m. (inr (there m).0, (there m).1),
      λ (m, q). elim m [
        | inl same ↦ absurd (clash (sym e ∙ (ap test (sym same) ∙ q)))
        | inr later ↦ back (later, q)
      ],
    )
      where
        clash : false ≡ true → ⊥
        clash r = cc

-- A conjunction of tests.
both : (a b : Bool) → ((a && b) ≡ true) ↔ ((a ≡ true) × (b ≡ true))
both true b = (λ e. (refl, e), λ (h, e). e)
both false b = (λ e. (e, absurd (clash e)), λ (h, e). h)
  where
    clash : false ≡ true → ⊥
    clash e = cc

not-true : (b : Bool) → (not b ≡ true) ↔ (b ≡ false)
not-true true = (λ e. sym e, λ e. sym e)
not-true false = (λ e. refl, λ e. refl)

not-listed :
    (names : List Line) (name : Line) → (not (listed names name) ≡ true) ↔ (In name names → ⊥)
not-listed names name = go (listed names name) (listed-In names name)
  where
    go : (b : Bool) → (b ≡ true) ↔ In name names → (not b ≡ true) ↔ (In name names → ⊥)
    go true (there, back) = (λ e. absurd (clash e), λ h. absurd (h (there refl)))
      where
        clash : false ≡ true → ⊥
        clash e = cc
    go false (there, back) = (λ e m. clash (back m), λ h. refl)
      where
        clash : false ≡ true → ⊥
        clash e = cc

module _ (expected : List Line) (s : Symbols) where
  -- The exported functions are those that the headers declare.
  abbrev pub Matches : Type 0
  Matches = (name : Line) → (In name s.defined × (is_export name ≡ true)) ↔ In name expected

  -- None is exported twice.
  abbrev pub Once : Type 0
  Once = (name : Line) → In name expected → occurrences name (exports expected s) ≡ 1

  -- What no member of the archive defines is no part of the D runtime.
  abbrev pub Free : Type 0
  Free = (name : Line) → In name s.undefined → (In name s.defined → ⊥) → is_forbidden name ≡ false

  abbrev pub Audited : Bool → Type 0
  Audited core = Matches × Once × (core ≡ true → Free)

  is_match-Matches : (is_match expected s ≡ true) ↔ (Matches × Once)
  unfolding is_match
  is_match-Matches = (
    λ e.
        let (x, r) = (both sub (super && once)).0 e in
        let (y, z) = (both super once).0 r in
        (
          λ name. (
            λ p. (listed-In expected name).0 (
                (all_lines-In (listed expected) names).0 x name
                  ((select-In is_export s.defined name).1 p)),
            λ m.
                (select-In is_export s.defined name).0
                  ((listed-In names name).0 ((all_lines-In (listed names) expected).0 y name m)),
          ),
          λ name m. eq_of_== (occurrences name names) 1 (
              (all_lines-In one names).0 z name
                ((listed-In names name).0 ((all_lines-In (listed names) expected).0 y name m))),
        ),
    λ (h, k). (both sub (super && once)).1 (
      (all_lines-In (listed expected) names).1 (λ name m.
          (listed-In expected name).1 ((h name).0 ((select-In is_export s.defined name).0 m))),
      (both super once).1 (
        (all_lines-In (listed names) expected).1 (λ name m.
            (listed-In names name).1 ((select-In is_export s.defined name).1 ((h name).1 m))),
        (all_lines-In one names).1 (λ name m.
            subst (λ n. (n == 1) ≡ true)
              (sym (k name ((h name).0 ((select-In is_export s.defined name).0 m)))) refl),
      ),
    ),
  )
    where
      names : List Line
      names = exports expected s

      one : Line → Bool
      one name = occurrences name names == 1

      sub : Bool
      sub = all_lines (listed expected) names

      super : Bool
      super = all_lines (listed names) expected

      once : Bool
      once = all_lines one names

  is_free-Free : (is_free expected s ≡ true) ↔ Free
  unfolding is_free
  is_free-Free = (
    λ e name m n. (not-true (is_forbidden name)).0 (
        (all_lines-In (λ name. not (is_forbidden name)) (external expected s)).0 e name (
          (select-In (λ name. not (listed s.defined name)) s.undefined name).1
            (m, (not-listed s.defined name).1 n))),
    λ h. (all_lines-In (λ name. not (is_forbidden name)) (external expected s)).1 (λ name m.
        let (n, q) = (select-In (λ name. not (listed s.defined name)) s.undefined name).0 m in
        (not-true (is_forbidden name)).1 (h name n ((not-listed s.defined name).0 q))),
  )

  -- The audit of an archive raises nothing exactly when the `af_` functions that it defines are those
  -- that its headers declare, each defined once, and, for the core, each symbol that it leaves undefined
  -- is outside the D runtime.
  pub audit_error-Audited : (core : Bool) → (audit_error expected s core ≡ none) ↔ Audited core
  unfolding audit_error
  audit_error-Audited core =
      go core (is_match expected s) (is_free expected s) is_match-Matches is_free-Free
    where
      raised : (text : Failure) → some text ≡ none → ⊥
      raised text e = cc

      clash : false ≡ true → ⊥
      clash e = cc

      go :
          (core b c : Bool)
          → (b ≡ true) ↔ (Matches × Once)
          → (c ≡ true) ↔ Free
          → ((if b
                then if core && not c
                  then some (message "core archive requires D runtime")
                  else none
                else some (message "archive/header mismatch"))
              ≡ none)
            ↔ Audited core
      go core false c h k = (
        λ e. absurd (raised (message "archive/header mismatch") e),
        λ (x, y, z). absurd (clash (h.1 (x, y))),
      )
      go true true false h k = (
        λ e. absurd (raised (message "core archive requires D runtime") e),
        λ (x, y, z). absurd (clash (k.1 (z refl))),
      )
      go true true true h k = (λ e. ((h.0 refl).0, (h.0 refl).1, λ q. k.0 refl), λ p. refl)
      go false true c h k = (λ e. ((h.0 refl).0, (h.0 refl).1, λ q. absurd (clash q)), λ p. refl)
