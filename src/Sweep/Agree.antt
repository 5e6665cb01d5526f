-- ===== src/Sweep/Agree.antt =====
-- tools/perf/offccd_sweep.py: when `check_mergeable` takes the rows of several runs.
use text.Mathlib.Text.{◌==◌ as str_eq}
use text.Mathlib.TextEquality.{eq_iff}
use antfarm.Prelude.{
  ◌≡◌, ◌↔◌, refl, sym, ap, subst, ◌∙◌, Bool, true, false, List, [], ◌∷◌, Option, none, some, String,
  if◌then◌else◌, All,
}
use antfarm.Sweep.Merge.{
  Keys, Merge, seen, refused, Kept, kept, differs, merge_key, merge_row, merged, merge_rows,
  check_mergeable,
}

-- A value that is given is the one of the host.
abbrev pub AgreesOn : Option String → Option String → Type 0
AgreesOn host none = Unit
AgreesOn host (some v) = host ≡ some v

pub record Agrees (host row : Keys) : Type 0 where
  pub model : AgreesOn host.cpu_model row.cpu_model
  pub scope : AgreesOn host.os_scope row.os_scope
  pub source : AgreesOn host.grouping_source row.grouping_source

abbrev IsDiffers : Kept → Type 0
IsDiffers (kept v) = ⊥
IsDiffers (differs s v) = Unit

abbrev IsRefused : Merge → Type 0
IsRefused (seen k) = ⊥
IsRefused (refused k s v) = Unit

abbrev keys_of : Keys → Merge → Keys
keys_of old (seen k) = k
keys_of old (refused k s v) = old

abbrev value : Kept → Option String
value (kept v) = v
value (differs s v) = none

AgreesOn-refl : (v : Option String) → AgreesOn v v
AgreesOn-refl none = tt
AgreesOn-refl (some v) = refl

AgreesOn-trans : (a b v : Option String) → AgreesOn a b → AgreesOn b v → AgreesOn a v
AgreesOn-trans a b none h k = tt
AgreesOn-trans a b (some v) h k = subst (λ x. AgreesOn a x) k h

-- A value kept agrees with the old one and the row's.
merge_key-AgreesOn :
    (old row next : Option String)
    → merge_key old row ≡ kept next
    → AgreesOn next old × AgreesOn next row
unfolding merge_key
merge_key-AgreesOn old none next h =
    (subst (λ x. AgreesOn x old) (ap value h) (AgreesOn-refl old), tt)
merge_key-AgreesOn none (some v) next h = (tt, sym (ap value h))
merge_key-AgreesOn (some s) (some v) next h = go (str_eq s v) refl h
  where
    go :
        (b : Bool)
        → str_eq s v ≡ b
        → (if b then kept (some v) else differs s v) ≡ kept next
        → (next ≡ some s) × (next ≡ some v)
    go true e h = (sym (ap value h) ∙ ap some (sym ((eq_iff s v).0 e)), sym (ap value h))
    go false e h = absurd (subst IsDiffers h tt)

-- Where both agree with a host, a value is kept, which agrees too.
merge_key-kept :
    (host old row : Option String)
    → AgreesOn host old
    → AgreesOn host row
    → (next : Option String) × (merge_key old row ≡ kept next) × AgreesOn host next
unfolding merge_key
merge_key-kept host old none h k = (old, refl, h)
merge_key-kept host none (some v) h k = (some v, refl, k)
merge_key-kept host (some s) (some v) h k = (some v, rw same refl, k)
  where
    default : Option String → String
    default none = s
    default (some x) = x

    same : str_eq s v ≡ true
    same = (eq_iff s v).1 (ap default (sym h ∙ k))

Agrees-refl : (a : Keys) → Agrees a a
Agrees-refl a = record {
  model = AgreesOn-refl a.cpu_model;
  scope = AgreesOn-refl a.os_scope;
  source = AgreesOn-refl a.grouping_source;
}

Agrees-trans : (a b c : Keys) → Agrees a b → Agrees b c → Agrees a c
Agrees-trans a b c h k = record {
  model = AgreesOn-trans a.cpu_model b.cpu_model c.cpu_model h.model k.model;
  scope = AgreesOn-trans a.os_scope b.os_scope c.os_scope h.scope k.scope;
  source = AgreesOn-trans a.grouping_source b.grouping_source c.grouping_source h.source k.source;
}

merge_row-Agrees :
    (old row next : Keys) → merge_row old row ≡ seen next → Agrees next old × Agrees next row
unfolding merge_row
merge_row-Agrees old row next h =
    go (merge_key old.cpu_model row.cpu_model) refl (merge_key old.os_scope row.os_scope) refl
      (merge_key old.grouping_source row.grouping_source) refl h
  where
    go :
        (a : Kept)
        → merge_key old.cpu_model row.cpu_model ≡ a
        → (b : Kept) → merge_key old.os_scope row.os_scope ≡ b
        → (c : Kept) → merge_key old.grouping_source row.grouping_source ≡ c
        → merged a b c ≡ seen next
        → Agrees next old × Agrees next row
    go (differs s v) e b f c g h = absurd (subst IsRefused h tt)
    go (kept m) e (differs s v) f c g h = absurd (subst IsRefused h tt)
    go (kept m) e (kept o) f (differs s v) g h = absurd (subst IsRefused h tt)
    go (kept m) e (kept o) f (kept x) g h =
        subst (λ (n : Keys). Agrees n old × Agrees n row) (ap (keys_of old) h)
          (
            record { model = model.0; scope = scope.0; source = source.0 },
            record { model = model.1; scope = scope.1; source = source.1 },
          )
      where
        model : AgreesOn m old.cpu_model × AgreesOn m row.cpu_model
        model = merge_key-AgreesOn old.cpu_model row.cpu_model m e

        scope : AgreesOn o old.os_scope × AgreesOn o row.os_scope
        scope = merge_key-AgreesOn old.os_scope row.os_scope o f

        source : AgreesOn x old.grouping_source × AgreesOn x row.grouping_source
        source = merge_key-AgreesOn old.grouping_source row.grouping_source x g

merge_row-seen :
    (host old row : Keys)
    → Agrees host old
    → Agrees host row
    → (next : Keys) × (merge_row old row ≡ seen next) × Agrees host next
unfolding merge_row
merge_row-seen host old row h k = (
  record { cpu_model = model.0; os_scope = scope.0; grouping_source = source.0 },
  rw (model.1, scope.1, source.1) refl,
  record { model = model.2; scope = scope.2; source = source.2 },
)
  where
    model :
        (next : Option String) × (merge_key old.cpu_model row.cpu_model ≡ kept next)
        × AgreesOn host.cpu_model next
    model = merge_key-kept host.cpu_model old.cpu_model row.cpu_model h.model k.model

    scope :
        (next : Option String) × (merge_key old.os_scope row.os_scope ≡ kept next)
        × AgreesOn host.os_scope next
    scope = merge_key-kept host.os_scope old.os_scope row.os_scope h.scope k.scope

    source :
        (next : Option String) × (merge_key old.grouping_source row.grouping_source ≡ kept next)
        × AgreesOn host.grouping_source next
    source =
        merge_key-kept host.grouping_source old.grouping_source row.grouping_source h.source
          k.source

merge_rows-Agrees :
    (old : Keys) (rows : List Keys) (host : Keys)
    → merge_rows old rows ≡ seen host
    → Agrees host old × All (Agrees host) rows
unfolding merge_rows
merge_rows-Agrees old [] host h =
    (subst (λ (n : Keys). Agrees n old) (ap (keys_of old) h) (Agrees-refl old), tt)
merge_rows-Agrees old (row ∷ rows) host h =
    go (merge_row old row) refl (λ next. merge_rows-Agrees next rows host) h
  where
    go :
        (m : Merge)
        → merge_row old row ≡ m
        → ((next : Keys)
            → merge_rows next rows ≡ seen host
            → Agrees host next × All (Agrees host) rows)
        → (elim m [ refused k s v ↦ refused k s v | seen next ↦ merge_rows next rows ]) ≡ seen host
        → Agrees host old × (Agrees host row × All (Agrees host) rows)
    go (refused k s v) e rest h = absurd (subst IsRefused h tt)
    go (seen next) e rest h = (
      Agrees-trans host next old (rest next h).0 (merge_row-Agrees old row next e).0,
      (
        Agrees-trans host next row (rest next h).0 (merge_row-Agrees old row next e).1,
        (rest next h).1,
      ),
    )

merge_rows-seen :
    (host old : Keys) (rows : List Keys)
    → Agrees host old
    → All (Agrees host) rows
    → (final : Keys) × (merge_rows old rows ≡ seen final)
unfolding merge_rows
merge_rows-seen host old [] h k = (old, refl)
merge_rows-seen host old (row ∷ rows) h k =
    go (merge_row-seen host old row h k.0) (λ next a. merge_rows-seen host next rows a k.1)
  where
    go :
        (next : Keys) × (merge_row old row ≡ seen next) × Agrees host next
        → ((next : Keys) → Agrees host next → (final : Keys) × (merge_rows next rows ≡ seen final))
        → (final : Keys) × (merge_rows old (row ∷ rows) ≡ seen final)
    go (next, e, a) rest = ((rest next a).0, rw (e, merge_rows) (rest next a).1)

-- The rows of several runs can be merged exactly when there are a CPU model, an OS scope and a
-- grouping source with which every row agrees that gives them.
pub check_mergeable-Agrees :
    (rows : List Keys)
    → ((host : Keys) × (check_mergeable rows ≡ seen host))
      ↔ ((host : Keys) × All (Agrees host) rows)
unfolding check_mergeable
check_mergeable-Agrees rows = (
  λ (host, h). (host, (merge_rows-Agrees _ rows host h).1),
  λ (host, h). merge_rows-seen host _ rows (record { model = tt; scope = tt; source = tt }) h,
)
