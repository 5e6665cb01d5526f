-- ===== src/Api/Surface.antt =====
-- scripts/check-api-docs.py: exactly which declarations `public_declarations` yields.
use Prim.Native.String.{◌++◌ as join}
use text.Mathlib.Text.{◌==◌ as str_eq}
use antfarm.Prelude.{
  ℕ, ◌≡◌, ◌⊎◌, inl, inr, ◌↔◌, refl, sym, ap, ◌∙◌, subst, Bool, true, false, ◌&&◌, List, [], ◌∷◌,
  ◌++◌, Option, none, some, String, if◌then◌else◌, All, In, In-append,
}
use antfarm.Api.Inventory.{
  Member, Declaration, info, nested_in, one_of, type_kinds, is_required, under, with_nested,
  body_in, body_of, members_of_body, nested_declarations, declarations_of, public_declarations,
}
use antfarm.Api.Declared.{both-some}

abbrev entries : Option (List Declaration) → List Declaration
entries none = []
entries (some ds) = ds

entries-eq :
    (xs ys : List Declaration) → ◌≡◌ {A = Option (List Declaration)} (some xs) (some ys) → xs ≡ ys
entries-eq xs ys e = ap entries e

missing : (xs : List Declaration) → ◌≡◌ {A = Option (List Declaration)} none (some xs) → ⊥
missing xs e = cc

clash : (b : Bool) → b ≡ true → b ≡ false → ⊥
clash b e f = let q : true ≡ false = sym e ∙ f in cc

-- A type of that name.
abbrev pub is_type_named : String → Member → Bool
is_type_named name m =
    elim ((info m).name) [ none ↦ false | some n ↦ str_eq n name ]
    && one_of type_kinds (info m).kind

-- A member of the first type of that name.
abbrev pub IsInFirst : String → List Member → Member → Type 0
IsInFirst name ms k =
    (before : List Member) × (body : Member) × (after : List Member) × ((ms
        ≡ before ++ body ∷ after)
      × All (λ m. is_type_named name m ≡ false) before
      × (is_type_named name body ≡ true)
      × In k (nested_in body))

-- A member of a type, or of the type in a template that has the template's name.
abbrev pub IsNested : String → Member → Member → Type 0
IsNested name m k =
    ((one_of type_kinds (info m).kind ≡ true) × In k (nested_in m))
    ⊎ ((one_of type_kinds (info m).kind ≡ false)
        × (one_of ("template" ∷ []) (info m).kind ≡ true)
        × IsInFirst name (nested_in m) k)

body_in-IsInFirst :
    (name : String) (ms : List Member) (k : Member)
    → In k (members_of_body (body_in name ms))
    → IsInFirst name ms k
unfolding body_in
body_in-IsInFirst name [] k h = absurd h
body_in-IsInFirst name (m ∷ ms) k h = go (is_type_named name m) refl h (body_in-IsInFirst name ms k)
  where
    go :
        (b : Bool)
        → is_type_named name m ≡ b
        → In k (members_of_body (if b then some m else body_in name ms))
        → (In k (members_of_body (body_in name ms)) → IsInFirst name ms k)
        → IsInFirst name (m ∷ ms) k
    go true e i later = ([], m, ms, (refl, tt, e, i))
    go false e i later =
        let (before, body, after, (q, none_before, t, j)) = later i in
        (m ∷ before, body, after, (ap (λ ns. m ∷ ns) q, (e, none_before), t, j))

IsInFirst-body_in :
    (name : String) (before : List Member) (body : Member) (after : List Member) (k : Member)
    → All (λ m. is_type_named name m ≡ false) before
    → is_type_named name body ≡ true
    → In k (nested_in body)
    → In k (members_of_body (body_in name (before ++ body ∷ after)))
unfolding body_in
IsInFirst-body_in name [] body after k h t i = rw t i
IsInFirst-body_in name (m ∷ before) body after k (e, h) t i =
    rw e (IsInFirst-body_in name before body after k h t i)

body_of-IsNested :
    (name : String) (m k : Member) → In k (members_of_body (body_of m name)) ↔ IsNested name m k
unfolding body_of
body_of-IsNested name m k =
    go (one_of type_kinds (info m).kind) (one_of ("template" ∷ []) (info m).kind) refl refl
  where
    body : Bool → Bool → Option Member
    body b c = if b then some m else if c then body_in name (nested_in m) else none

    go :
        (b c : Bool)
        → one_of type_kinds (info m).kind ≡ b
        → one_of ("template" ∷ []) (info m).kind ≡ c
        → In k (members_of_body (body b c)) ↔ IsNested name m k
    go true c e f = (
      λ i. inl (e, i),
      λ h. elim h [
        | inl (x, i) ↦ i
        | inr (x, y, z) ↦ absurd (clash (one_of type_kinds (info m).kind) e x)
      ],
    )
    go false true e f = (
      λ i. inr (e, f, body_in-IsInFirst name (nested_in m) k i),
      λ h. elim h [
        | inl (x, i) ↦ absurd (clash (one_of type_kinds (info m).kind) x e)
        | inr (x, y, (before, b, after, (q, u, t, j))) ↦
            subst (λ ns. In k (members_of_body (body_in name ns))) (sym q)
              (IsInFirst-body_in name before b after k u t j)
      ],
    )
    go false false e f = (
      λ i. absurd i,
      λ h. elim h [
        | inl (x, i) ↦ absurd (clash (one_of type_kinds (info m).kind) x e)
        | inr (x, y, z) ↦ absurd (clash (one_of ("template" ∷ []) (info m).kind) y f)
      ],
    )

module _ (ps : Option (List (ℕ × String))) where
  -- A nested declaration that must be documented, by its name behind its owner's.
  abbrev pub IsNamed : String → String → Member → Type 0
  IsNamed owner name k =
      (is_required ps k ≡ true)
      × ((n : String) × (((info k).name ≡ some n) × (name ≡ join owner (join "." n))))

  -- What `m` declares: itself, by its name, and the members in it.
  abbrev pub Declares : Member → String → Member → Type 0
  Declares m name k =
      (is_required ps m ≡ true)
      × ((owner : String) × (((info m).name ≡ some owner)
            × (((k ≡ m) × (name ≡ owner)) ⊎ (IsNested owner m k × IsNamed owner name k))))

  under-IsNamed :
      (owner name : String) (m k : Member) (r : Bool) (o : Option String) (xs : List Declaration)
      → is_required ps m ≡ r
      → (info m).name ≡ o
      → (if r then under owner m o else some []) ≡ some xs
      → In (name, k) xs ↔ ((k ≡ m) × IsNamed owner name k)
  under-IsNamed owner name m k true none xs e f h = absurd (missing xs h)
  under-IsNamed owner name m k true (some n) xs e f h =
      subst (λ ds. In (name, k) ds ↔ ((k ≡ m) × IsNamed owner name k))
        (entries-eq ((join owner (join "." n), m) ∷ []) xs h)
        (
          λ i. elim i [
            | inl q ↦ there (ap (λ (d : Declaration). d.0) q) (ap (λ (d : Declaration). d.1) q)
            | inr j ↦ absurd j
          ],
          λ (same, (r, (l, (g, q)))). inl (back same l g q),
        )
    where
      there : name ≡ join owner (join "." n) → k ≡ m → (k ≡ m) × IsNamed owner name k
      there q same =
          (same, (ap (is_required ps) same ∙ e, (n, (ap (λ x. (info x).name) same ∙ f, q))))

      back :
          k ≡ m
          → (l : String) → (info k).name ≡ some l
          → name ≡ join owner (join "." l)
          → ◌≡◌ {A = Declaration} (name, k) (join owner (join "." n), m)
      back same l g q =
          let z : some l ≡ some n = sym g ∙ (ap (λ x. (info x).name) same ∙ f) in
          let w : l ≡ n = cc in cc
  under-IsNamed owner name m k false o xs e f h =
      subst (λ ds. In (name, k) ds ↔ ((k ≡ m) × IsNamed owner name k)) (entries-eq [] xs h)
        (
          λ i. absurd i,
          λ (same, (r, z)).
              absurd (clash (is_required ps m) (ap (is_required ps) (sym same) ∙ r) e),
        )

  nested_declarations-IsNamed :
      (owner name : String) (k : Member) (ms : List Member) (ds : List Declaration)
      → nested_declarations ps owner ms ≡ some ds
      → In (name, k) ds ↔ (In k ms × IsNamed owner name k)
  unfolding nested_declarations
  nested_declarations-IsNamed owner name k [] ds h =
      subst (λ ds. In (name, k) ds ↔ (In k [] × IsNamed owner name k)) (entries-eq [] ds h)
        (λ i. absurd i, λ (i, z). absurd i)
  nested_declarations-IsNamed owner name k (m ∷ ms) ds h =
      let (xs, ys, a, b, e) = both-some _ (nested_declarations ps owner ms) ds h in
      subst (λ ds. In (name, k) ds ↔ (In k (m ∷ ms) × IsNamed owner name k)) e
        (join_iff xs ys
          (under-IsNamed owner name m k (is_required ps m) (info m).name xs refl refl a)
          (nested_declarations-IsNamed owner name k ms ys b))
    where
      join_iff :
          (xs ys : List Declaration)
          → In (name, k) xs ↔ ((k ≡ m) × IsNamed owner name k)
          → In (name, k) ys ↔ (In k ms × IsNamed owner name k)
          → In (name, k) (xs ++ ys) ↔ (In k (m ∷ ms) × IsNamed owner name k)
      join_iff xs ys (f, g) (u, v) = (
        λ i. elim ((In-append (name, k) xs ys).0 i) [
          | inl j ↦ (inl (f j).0, (f j).1)
          | inr j ↦ (inr (u j).0, (u j).1)
        ],
        λ (i, z).
            (In-append (name, k) xs ys).1
              (elim i [ inl q ↦ inl (g (q, z)) | inr j ↦ inr (v (j, z)) ]),
      )

  with_nested-Declares :
      (name : String) (m k : Member) (o : Option String) (ds : List Declaration)
      → is_required ps m ≡ true
      → (info m).name ≡ o
      → with_nested ps m o ≡ some ds
      → In (name, k) ds ↔ Declares m name k
  with_nested-Declares name m k none ds e f h = absurd (missing ds h)
  with_nested-Declares name m k (some owner) ds e f h =
      let (xs, ys, a, b, q) =
        both-some (some ((owner, m) ∷ []))
          (nested_declarations ps owner (members_of_body (body_of m owner))) ds h in
      subst (λ ds. In (name, k) ds ↔ Declares m name k)
        (ap (λ zs. zs ++ ys) (entries-eq ((owner, m) ∷ []) xs a) ∙ q)
        (head ys (nested_declarations-IsNamed owner name k (members_of_body (body_of m owner)) ys b)
          (body_of-IsNested owner m k))
    where
      head :
          (ys : List Declaration)
          → In (name, k) ys ↔ (In k (members_of_body (body_of m owner)) × IsNamed owner name k)
          → In k (members_of_body (body_of m owner)) ↔ IsNested owner m k
          → In (name, k) ((owner, m) ∷ ys) ↔ Declares m name k
      head ys (u, v) (f2, g2) = (
        λ i. elim i [
          | inl q ↦ (
            e,
            (owner, (f, inl (ap (λ (d : Declaration). d.1) q, ap (λ (d : Declaration). d.0) q))),
          )
          | inr j ↦ (e, (owner, (f, inr (f2 (u j).0, (u j).1))))
        ],
        λ (r, (other, (g, w))). back other (owners other g) w,
      )
        where
          owners : (other : String) → (info m).name ≡ some other → other ≡ owner
          owners other g = let z : some other ≡ some owner = sym g ∙ f in cc

          back :
              (other : String)
              → other ≡ owner
              → ((k ≡ m) × (name ≡ other)) ⊎ (IsNested other m k × IsNamed other name k)
              → In (name, k) ((owner, m) ∷ ys)
          back other same w =
              placed
                (subst (λ o. ((k ≡ m) × (name ≡ o)) ⊎ (IsNested o m k × IsNamed o name k)) same w)
            where
              pair : k ≡ m → name ≡ owner → ◌≡◌ {A = Declaration} (name, k) (owner, m)
              pair p q = cc

              placed :
                  ((k ≡ m) × (name ≡ owner)) ⊎ (IsNested owner m k × IsNamed owner name k)
                  → In (name, k) ((owner, m) ∷ ys)
              placed (inl (p, q)) = inl (pair p q)
              placed (inr (x, z)) = inr (v (g2 x, z))

  declarations_of-Declares :
      (name : String) (m k : Member) (ds : List Declaration)
      → declarations_of ps m ≡ some ds
      → In (name, k) ds ↔ Declares m name k
  unfolding declarations_of
  declarations_of-Declares name m k ds = go (is_required ps m) refl
    where
      go :
          (r : Bool)
          → is_required ps m ≡ r
          → (if r then with_nested ps m (info m).name else some []) ≡ some ds
          → In (name, k) ds ↔ Declares m name k
      go true e h = with_nested-Declares name m k (info m).name ds e refl h
      go false e h =
          subst (λ ds. In (name, k) ds ↔ Declares m name k) (entries-eq [] ds h)
            (λ i. absurd i, λ (r, z). absurd (clash (is_required ps m) r e))

  -- When the members of a module have the names that are asked for, a declaration is yielded under a
  -- name exactly when a top-level member that must be documented declares it: as itself, by its name, or
  -- as a member that must be documented of the type that it is, or of the first type of its name in the
  -- template that it is, by both names.
  pub public_declarations-Declares :
      (ms : List Member) (ds : List Declaration) (name : String) (k : Member)
      → public_declarations ps ms ≡ some ds
      → In (name, k) ds ↔ ((m : Member) × (In m ms × Declares m name k))
  unfolding public_declarations
  public_declarations-Declares [] ds name k h =
      subst (λ ds. In (name, k) ds ↔ ((m : Member) × (In m [] × Declares m name k)))
        (entries-eq [] ds h) (λ i. absurd i, λ (m, (i, z)). absurd i)
  public_declarations-Declares (m ∷ ms) ds name k h =
      let (xs, ys, a, b, e) = both-some (declarations_of ps m) (public_declarations ps ms) ds h in
      subst (λ ds. In (name, k) ds ↔ ((x : Member) × (In x (m ∷ ms) × Declares x name k))) e
        (either xs ys (declarations_of-Declares name m k xs a)
          (public_declarations-Declares ms ys name k b))
    where
      either :
          (xs ys : List Declaration)
          → In (name, k) xs ↔ Declares m name k
          → In (name, k) ys ↔ ((x : Member) × (In x ms × Declares x name k))
          → In (name, k) (xs ++ ys) ↔ ((x : Member) × (In x (m ∷ ms) × Declares x name k))
      either xs ys (f, g) (u, v) = (
        λ i. elim ((In-append (name, k) xs ys).0 i) [
          | inl j ↦ (m, (inl refl, f j))
          | inr j ↦ let (x, (l, z)) = u j in (x, (inr l, z))
        ],
        λ (x, (i, z)). (In-append (name, k) xs ys).1 (elim i [
          | inl q ↦ inl (g (subst (λ y. Declares y name k) q z))
          | inr j ↦ inr (v (x, (j, z)))
        ]),
      )
