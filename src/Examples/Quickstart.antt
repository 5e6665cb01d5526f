-- ===== src/Examples/Quickstart.antt =====
-- examples/run_examples.py: which blocks of the quickstart are programs.
use antfarm.Prelude.{
  ◌≡◌, ◌≢◌, ◌⊎◌, inl, inr, ◌↔◌, refl, sym, ap, ◌∙◌, Bool, true, false, List, [], ◌∷◌, All,
  if◌then◌else◌,
}
use antfarm.Text.{Line}
use antfarm.Shell.{Failure, message}
use antfarm.Cabi.Symbols.{select}
use antfarm.Examples.Driver.{is_program, is_fragment, programs_in, quickstart_programs}

-- Each block is a program or says that it is a fragment.
abbrev pub AreMarked : List Line → Type 0
AreMarked blocks = All (λ block. (is_program block ≡ true) ⊎ (is_fragment block ≡ true)) blocks

abbrev taken : List Line → Failure ⊎ List Line → List Line
taken ps (inl f) = ps
taken ps (inr qs) = qs

same : (ps qs : List Line) (r : Failure ⊎ List Line) → r ≡ inr ps → r ≡ inr qs → ps ≡ qs
same ps qs r d e = sym (ap (taken ps) d) ∙ ap (taken ps) e

refused : (f : Failure) (ps : List Line) (r : Failure ⊎ List Line) → r ≡ inl f → r ≡ inr ps → ⊥
refused f ps r d e = let q : inl f ≡ inr ps = sym d ∙ e in cc

-- With every block marked the programs are found, and with another there is an error.
abbrev Found : List Line → Failure ⊎ List Line → Type 0
Found blocks (inr programs) = AreMarked blocks × (programs ≡ select is_program blocks)
Found blocks (inl f) = AreMarked blocks → ⊥

programs_in-Found : (blocks : List Line) → Found blocks (programs_in blocks)
unfolding programs_in select
programs_in-Found [] = (tt, refl)
programs_in-Found (block ∷ blocks) =
    go (is_program block) (is_fragment block) refl refl (programs_in blocks)
      (programs_in-Found blocks)
  where
    unclear : Failure
    unclear =
        message
          "docs/guide/quickstart.md block is neither a complete program nor marked as a fragment"

    clash : (b : Bool) → b ≡ false → b ≡ true → ⊥
    clash b d e = let q : false ≡ true = sym d ∙ e in cc

    go :
        (b c : Bool)
        → is_program block ≡ b
        → is_fragment block ≡ c
        → (r : Failure ⊎ List Line) → Found blocks r
        → (let found : Failure ⊎ List Line =
              if b
              then elim r [ inl f ↦ inl f | inr programs ↦ inr (block ∷ programs) ]
              else if c
              then r
              else inl unclear in
            Found (block ∷ blocks) found)
    go true c d e (inl f) h = λ (m, ms). h ms
    go true c d e (inr ps) (h, q) = ((inl d, h), rw (d, q) refl)
    go false true d e (inl f) h = λ (m, ms). h ms
    go false true d e (inr ps) (h, q) = ((inr e, h), rw (d, q) refl)
    go false false d e r h = λ (m, ms). elim m [
      | inl p ↦ clash (is_program block) d p
      | inr p ↦ clash (is_fragment block) e p
    ]

-- The quickstart is accepted exactly when each of its blocks is a program or marked as a fragment and
-- one at least is a program; its programs are then all the blocks that are one, in their order.
pub quickstart_programs-AreMarked :
    (blocks programs : List Line)
    → (quickstart_programs blocks ≡ inr programs)
      ↔ (AreMarked blocks × (programs ≡ select is_program blocks) × (programs ≢ []))
unfolding quickstart_programs select
quickstart_programs-AreMarked [] programs = (
  λ q. absurd (
      refused (message "docs/guide/quickstart.md has no ```d blocks") programs
        (quickstart_programs []) refl q),
  λ (h, e, n). absurd (n (e ∙ nothing)),
)
  where
    nothing : select is_program [] ≡ []
    nothing = refl
quickstart_programs-AreMarked (block ∷ blocks) programs =
    go (programs_in (block ∷ blocks)) (programs_in-Found (block ∷ blocks))
  where
    none_found : Failure
    none_found = message "expected at least one complete quickstart program"

    go :
        (r : Failure ⊎ List Line)
        → Found (block ∷ blocks) r
        → (elim r as (λ r. Failure ⊎ List Line) [
          | inl f ↦ inl f
          | inr programs ↦ elim programs as (λ ps. Failure ⊎ List Line) [
            | [] ↦ inl none_found
            | ◌∷◌ p ps ↦ inr (p ∷ ps)
          ]
        ]
            ≡ inr programs)
          ↔ (AreMarked (block ∷ blocks)
              × (programs ≡ select is_program (block ∷ blocks))
              × (programs ≢ []))
    go (inl f) h = (λ q. absurd (refused f programs (inl f) refl q), λ (m, e, n). absurd (h m))
    go (inr []) (m, e) = (
      λ q. absurd (refused none_found programs (inl none_found) refl q),
      λ (k, d, n). absurd (n (d ∙ sym e)),
    )
    go (inr (p ∷ ps)) (m, e) = (
      λ q. (
        m,
        sym (same (p ∷ ps) programs (inr (p ∷ ps)) refl q) ∙ e,
        λ z. some_left (same (p ∷ ps) programs (inr (p ∷ ps)) refl q ∙ z),
      ),
      λ (k, d, n). ap inr (e ∙ sym d),
    )
      where
        some_left : p ∷ ps ≡ [] → ⊥
        some_left z = cc
