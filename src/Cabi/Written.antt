-- ===== src/Cabi/Written.antt =====
-- scripts/check-c-abi.py: a lock that is written matches the rows that it was written from.
use antfarm.Prelude.{
  ◌≡◌, ◌↔◌, ◌∙◌, inl, inr, refl, sym, ap, subst, Bool, true, false, ◌&&◌, List, [], ◌∷◌, Option,
  none, some, All, if◌then◌else◌,
}
use antfarm.Text.{Line, line_eq, line_eq-eq, line_eq_refl}
use antfarm.Cabi.Symbols.{select}
use antfarm.Cabi.LockFile.{IsUnbroken, lock_text, splitlines, splitlines-lock_text}
use antfarm.Cabi.Lock.{
  Rows, report, keyed, Locked, matched, missing, bad_row, written, differs, is_row, all_same,
  compared, check_abi_lock,
}

-- A row of the lock is a line that is not empty, no comment, and without a line break.
abbrev pub AreRows : List Line → Type 0
AreRows rows = All (λ row. is_row row ≡ true) rows × All IsUnbroken rows

select-rows : (rows : List Line) → All (λ row. is_row row ≡ true) rows → select is_row rows ≡ rows
unfolding select
select-rows [] h = refl
select-rows (row ∷ rows) (e, h) = rw (e, select-rows rows h) refl

-- The rows that are read from the text that is written.
select-lock_text :
    (rows : List Line) → AreRows rows → select is_row (splitlines (lock_text rows)) ≡ rows
unfolding select
select-lock_text rows (h, k) = elim (splitlines-lock_text rows k) [
  | inl e ↦ ap (select is_row) e ∙ select-rows rows h
  | inr e ↦ ap (select is_row) e ∙ select-rows rows h
]

all_same_refl : (rows : List Line) → all_same rows rows ≡ true
unfolding all_same
all_same_refl [] = refl
all_same_refl (row ∷ rows) = rw (line_eq_refl row, all_same_refl rows) refl

all_same-eq : (xs ys : List Line) → all_same xs ys ≡ true → xs ≡ ys
unfolding all_same
all_same-eq [] [] e = refl
all_same-eq [] (y ∷ ys) e = cc
all_same-eq (x ∷ xs) [] e = cc
all_same-eq (x ∷ xs) (y ∷ ys) e = go (line_eq x y) refl e (all_same-eq xs ys)
  where
    go :
        (b : Bool)
        → line_eq x y ≡ b
        → (b && all_same xs ys) ≡ true
        → (all_same xs ys ≡ true → xs ≡ ys)
        → x ∷ xs ≡ y ∷ ys
    go true q r h = let same : x ≡ y = line_eq-eq x y q in let rest : xs ≡ ys = h r in cc
    go false q r h = cc

-- The file that is written.
abbrev file_of : Line → Locked → Line
file_of file (written text) = text
file_of file matched = file
file_of file missing = file
file_of file bad_row = file
file_of file (differs changes) = file

lock_file-matched :
    (rows now : List Line)
    → AreRows rows
    → (check_abi_lock now (some (lock_text rows)) false ≡ matched) ↔ (now ≡ rows)
unfolding check_abi_lock select
lock_file-matched rows now h = rw (select-lock_text rows h) (go (all_same rows now) refl)
  where
    clash : (b c : List Line) → compared b c ≡ matched → ⊥
    clash b c e = go (keyed [] b) (keyed [] c) e
      where
        go :
            (o p : Option Rows)
            → (elim o as (λ o. Locked) [
              | none ↦ bad_row
              | some old ↦ elim p as (λ p. Locked) [
                | none ↦ bad_row
                | some new ↦ differs (report old new)
              ]
            ]
                ≡ matched)
            → ⊥
        go none p q = cc
        go (some old) none q = cc
        go (some old) (some new) q = cc

    go :
        (b : Bool)
        → all_same rows now ≡ b
        → ((if b then matched else compared rows now) ≡ matched) ↔ (now ≡ rows)
    go true e = (λ q. sym (all_same-eq rows now e), λ q. refl)
    go false e = (λ q. absurd (clash rows now q), λ q. absurd (other q))
      where
        other : now ≡ rows → ⊥
        other q =
            let r : all_same rows now ≡ true =
              subst (λ x. all_same rows x ≡ true) (sym q) (all_same_refl rows) in
            cc

-- After `--write-abi-lock` has written rows to a file, the rows of a later check match the text of that
-- file exactly when they are the same in the same order, as long as no row that was written is empty,
-- begins with `#` or has a line break in it.
pub write-check_abi_lock :
    (rows now : List Line) (file : Line) (lock : Option Line)
    → AreRows rows
    → check_abi_lock rows lock true ≡ written file
    → (check_abi_lock now (some file) false ≡ matched) ↔ (now ≡ rows)
unfolding check_abi_lock
write-check_abi_lock rows now file lock h e =
    subst (λ f. (check_abi_lock now (some f) false ≡ matched) ↔ (now ≡ rows)) (ap (file_of file) e)
      (lock_file-matched rows now h)
