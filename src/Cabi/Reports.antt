-- ===== src/Cabi/Reports.antt =====
-- scripts/check-c-abi.py: what the report of `check_abi_lock` says, and that a written lock matches.
use antfarm.Prelude.{
  ◌≡◌, ◌⊎◌, inl, inr, ◌↔◌, refl, sym, ap, ◌∙◌, subst, Bool, true, false, List, [], ◌∷◌, ◌++◌,
  Option, none, some, In, In-append, if◌then◌else◌,
}
use antfarm.Text.{Line, line_eq, line_eq-eq, line_eq_refl}
use antfarm.Cabi.Lock.{
  Rows, row_at, Change, changed, removed, added, reordered, changed_row, removed_row, added_row,
  rows_by, or_reordered, report,
}

-- A line of the report, of the rows with the same key in the lock and in the headers.
abbrev pub Differs : Rows → Rows → Change → Type 0
Differs old new (changed v w) =
    (k : Line) × ((row_at k old ≡ some v) × (row_at k new ≡ some w) × (line_eq v w ≡ false))
Differs old new (removed v) = (k : Line) × ((row_at k old ≡ some v) × (row_at k new ≡ none))
Differs old new (added w) = (k : Line) × ((row_at k old ≡ none) × (row_at k new ≡ some w))
Differs old new reordered = (k : Line) → row_at k old ≡ row_at k new

-- The keys of rows are those that have a row.
abbrev HasKey : Line → Rows → Type 0
HasKey k [] = ⊥
HasKey k ((j, l) ∷ rows) = (k ≡ j) ⊎ HasKey k rows

row_at-HasKey : (k : Line) (rows : Rows) (l : Line) → row_at k rows ≡ some l → HasKey k rows
unfolding row_at
row_at-HasKey k [] l e = absurd (clash e)
  where
    clash : none ≡ some l → ⊥
    clash e = cc
row_at-HasKey k ((j, m) ∷ rows) l e = go (line_eq j k) refl e (row_at-HasKey k rows l)
  where
    go :
        (b : Bool)
        → line_eq j k ≡ b
        → (if b then some m else row_at k rows) ≡ some l
        → (row_at k rows ≡ some l → HasKey k rows)
        → HasKey k ((j, m) ∷ rows)
    go true e q h = inl (sym (line_eq-eq j k e))
    go false e q h = inr (h q)

-- Of which keys the lines of the report are.
rows_by-In :
    (row : Option Line → Option Line → List Change) (old new keys : Rows) (c : Change)
    → In c (rows_by row old new keys)
      ↔ ((k : Line) × HasKey k keys × In c (row (row_at k old) (row_at k new)))
unfolding rows_by
rows_by-In row old new [] c = (λ m. absurd m, λ (k, h, m). absurd h)
rows_by-In row old new ((j, l) ∷ keys) c = (
  λ m. elim ((In-append c (row (row_at j old) (row_at j new)) (rows_by row old new keys)).0 m) [
    | inl here ↦ (j, inl refl, here)
    | inr later ↦ let (k, h, n) = (rows_by-In row old new keys c).0 later in (k, inr h, n)
  ],
  λ (k, h, m).
      (In-append c (row (row_at j old) (row_at j new)) (rows_by row old new keys)).1 (elim h [
        | inl same ↦ inl (subst (λ i. In c (row (row_at i old) (row_at i new))) same m)
        | inr later ↦ inr ((rows_by-In row old new keys c).1 (k, later, m))
      ]),
)

-- The line of the report that two rows of a key make, unless they are the same.
abbrev RowDiffers : Option Line → Option Line → Change → Type 0
RowDiffers was now (changed v w) = (was ≡ some v) × (now ≡ some w) × (line_eq v w ≡ false)
RowDiffers was now (removed v) = (was ≡ some v) × (now ≡ none)
RowDiffers was now (added w) = (was ≡ none) × (now ≡ some w)
RowDiffers was now reordered = ⊥

changed_row-RowDiffers :
    (was now : Option Line) (c : Change) → In c (changed_row was now) → RowDiffers was now c
changed_row-RowDiffers none now c m = absurd m
changed_row-RowDiffers (some v) none c m = absurd m
changed_row-RowDiffers (some v) (some w) c m = go (line_eq v w) refl m
  where
    go :
        (b : Bool)
        → line_eq v w ≡ b
        → In c (if b then [] else changed v w ∷ [])
        → RowDiffers (some v) (some w) c
    go true e n = absurd n
    go false e (inl same) = subst (λ d. RowDiffers (some v) (some w) d) (sym same) (refl, refl, e)
    go false e (inr later) = absurd later

removed_row-RowDiffers :
    (was now : Option Line) (c : Change) → In c (removed_row was now) → RowDiffers was now c
removed_row-RowDiffers none now c m = absurd m
removed_row-RowDiffers (some v) (some w) c m = absurd m
removed_row-RowDiffers (some v) none c (inl same) =
    subst (λ d. RowDiffers (some v) none d) (sym same) (refl, refl)
removed_row-RowDiffers (some v) none c (inr later) = absurd later

added_row-RowDiffers :
    (was now : Option Line) (c : Change) → In c (added_row was now) → RowDiffers was now c
added_row-RowDiffers was none c m = absurd m
added_row-RowDiffers (some v) (some w) c m = absurd m
added_row-RowDiffers none (some w) c (inl same) =
    subst (λ d. RowDiffers none (some w) d) (sym same) (refl, refl)
added_row-RowDiffers none (some w) c (inr later) = absurd later

module _ (old new : Rows) where
  abbrev changes : List Change
  changes =
      rows_by changed_row old new old
      ++ (rows_by removed_row old new old ++ rows_by added_row old new new)

  abbrev Told : Change → Type 0
  Told c = (k : Line) × RowDiffers (row_at k old) (row_at k new) c

  from_rows :
      (row : Option Line → Option Line → List Change) (keys : Rows) (c : Change)
      → ((was now : Option Line) → In c (row was now) → RowDiffers was now c)
      → In c (rows_by row old new keys)
      → Told c
  from_rows row keys c h m =
      let (k, j, n) = (rows_by-In row old new keys c).0 m in (k, h (row_at k old) (row_at k new) n)

  changes-Told : (c : Change) → In c changes → Told c
  changes-Told c m =
      elim ((In-append c (rows_by changed_row old new old)
          (rows_by removed_row old new old ++ rows_by added_row old new new)).0
        m) [
          | inl first ↦
              from_rows changed_row old c (λ was now n. changed_row-RowDiffers was now c n) first
          | inr rest ↦
              elim ((In-append c (rows_by removed_row old new old)
                  (rows_by added_row old new new)).0
                rest) [
                  | inl second ↦
                      from_rows removed_row old c (λ was now n. removed_row-RowDiffers was now c n)
                        second
                  | inr third ↦
                      from_rows added_row new c (λ was now n. added_row-RowDiffers was now c n)
                        third
                ]
        ]

  Told-changes : (c : Change) → Told c → In c changes
  Told-changes (changed v w) (k, (was, now, e)) =
      (In-append (changed v w) (rows_by changed_row old new old)
          (rows_by removed_row old new old ++ rows_by added_row old new new)).1
        (inl (
          (rows_by-In changed_row old new old (changed v w)).1
            (k, row_at-HasKey k old v was, here)))
    where
      here : In (changed v w) (changed_row (row_at k old) (row_at k new))
      here = rw (was, now, e) (inl refl)
  Told-changes (removed v) (k, (was, now)) =
      (In-append (removed v) (rows_by changed_row old new old)
          (rows_by removed_row old new old ++ rows_by added_row old new new)).1
        (inr (
          (In-append (removed v) (rows_by removed_row old new old)
              (rows_by added_row old new new)).1
            (inl (
              (rows_by-In removed_row old new old (removed v)).1
                (k, row_at-HasKey k old v was, here)))))
    where
      here : In (removed v) (removed_row (row_at k old) (row_at k new))
      here = rw (was, now) (inl refl)
  Told-changes (added w) (k, (was, now)) =
      (In-append (added w) (rows_by changed_row old new old)
          (rows_by removed_row old new old ++ rows_by added_row old new new)).1
        (inr (
          (In-append (added w) (rows_by removed_row old new old) (rows_by added_row old new new)).1
            (inr (
              (rows_by-In added_row old new new (added w)).1
                (k, row_at-HasKey k new w now, here)))))
    where
      here : In (added w) (added_row (row_at k old) (row_at k new))
      here = rw (was, now) (inl refl)
  Told-changes reordered (k, h) = absurd h

  -- Rows that agree tell nothing.
  agree-silent : ((k : Line) → row_at k old ≡ row_at k new) → (c : Change) → Told c → ⊥
  agree-silent h (changed v w) (k, (was, now, e)) = clash (sym was ∙ (h k ∙ now))
    where
      clash : some v ≡ some w → ⊥
      clash q =
          let same : v ≡ w = cc in
          let r : line_eq v w ≡ true = subst (λ x. line_eq v x ≡ true) same (line_eq_refl v) in cc
  agree-silent h (removed v) (k, (was, now)) = clash (sym was ∙ (h k ∙ now))
    where
      clash : some v ≡ none → ⊥
      clash q = cc
  agree-silent h (added w) (k, (was, now)) = clash (sym was ∙ (h k ∙ now))
    where
      clash : none ≡ some w → ⊥
      clash q = cc
  agree-silent h reordered (k, m) = m

  silent-agree : ((c : Change) → Told c → ⊥) → (k : Line) → row_at k old ≡ row_at k new
  silent-agree h k = go (row_at k old) (row_at k new) refl refl
    where
      go : (was now : Option Line) → row_at k old ≡ was → row_at k new ≡ now → was ≡ now
      go none none a b = refl
      go none (some w) a b = absurd (h (added w) (k, (a, b)))
      go (some v) none a b = absurd (h (removed v) (k, (a, b)))
      go (some v) (some w) a b = last (line_eq v w) refl
        where
          last : (e : Bool) → line_eq v w ≡ e → some v ≡ some w
          last true q = ap some (line_eq-eq v w q)
          last false q = absurd (h (changed v w) (k, (a, b, q)))

  -- The report has a change, removal or addition exactly for the keys whose rows differ so between the
  -- lock and the headers, and says that the order has changed exactly when every key has the same row
  -- in both.
  pub report-Differs : (c : Change) → In c (report old new) ↔ Differs old new c
  unfolding report
  report-Differs c = go changes c changes-Told Told-changes
    where
      told : (c : Change) → Told c → Differs old new c
      told (changed v w) d = d
      told (removed v) d = d
      told (added w) d = d
      told reordered (k, d) = absurd d

      go :
          (cs : List Change) (c : Change)
          → ((d : Change) → In d cs → Told d)
          → ((d : Change) → Told d → In d cs)
          → In c (or_reordered cs) ↔ Differs old new c
      go [] c there back = (
        λ m. elim m [
          | inl same ↦ subst (λ d. Differs old new d) (sym same) (silent-agree (λ d t. back d t))
          | inr later ↦ absurd later
        ],
        λ d. silent c d,
      )
        where
          silent : (c : Change) → Differs old new c → In c (reordered ∷ [])
          silent (changed v w) d = absurd (back (changed v w) d)
          silent (removed v) d = absurd (back (removed v) d)
          silent (added w) d = absurd (back (added w) d)
          silent reordered d = inl refl
      go (b ∷ cs) c there back = (λ m. told c (there c m), λ d. told_back c d)
        where
          told_back : (c : Change) → Differs old new c → In c (b ∷ cs)
          told_back (changed v w) d = back (changed v w) d
          told_back (removed v) d = back (removed v) d
          told_back (added w) d = back (added w) d
          told_back reordered d = absurd (agree-silent d b (there b (inl refl)))
