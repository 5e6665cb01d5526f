-- ===== src/Api/Declared.antt =====
-- scripts/check-api-docs.py: the declarations that `public_declarations` yields.
use antfarm.Prelude.{
  ℕ, ◌≡◌, ◌⊎◌, inl, inr, refl, sym, subst, Bool, true, false, List, [], ◌∷◌, ◌++◌, Option, none,
  some, String, if◌then◌else◌, All, All-append, In, In-append, arith,
}
use antfarm.Api.Inventory.{
  Member, Declaration, info, is_required, both, under, with_nested, body_of, members_of_body,
  nested_declarations, declarations_of, public_declarations,
}

-- Two lists that are appended, where both are there.
pub both-some {ℓ} :
    {A : Type ℓ} (a b : Option (List A)) (cs : List A)
    → both a b ≡ some cs
    → (xs : List A) × (ys : List A) × (a ≡ some xs) × (b ≡ some ys) × (xs ++ ys ≡ cs)
both-some none b cs h = cc
both-some (some xs) none cs h = cc
both-some (some xs) (some ys) cs h = (xs, ys, refl, refl, cc)

abbrev from : Option (List Declaration) → List Declaration
from none = []
from (some ds) = ds

abbrev nothing : Option (List Declaration)
nothing = some []

module _ (ps : Option (List (ℕ × String))) where
  abbrev pub IsRequired : Declaration → Type 0
  IsRequired (name, m) = is_required ps m ≡ true

  joined :
      (xs ys ds : List Declaration)
      → xs ++ ys ≡ ds
      → All IsRequired xs
      → All IsRequired ys
      → All IsRequired ds
  joined xs ys ds e h k = subst (All IsRequired) e (All-append IsRequired xs ys h k)

  none-IsRequired : (ds : List Declaration) → nothing ≡ some ds → All IsRequired ds
  none-IsRequired [] h = tt
  none-IsRequired (d ∷ ds) h = cc

  under-IsRequired :
      (owner : String) (m : Member) (n : Option String) (ds : List Declaration)
      → is_required ps m ≡ true
      → under owner m n ≡ some ds
      → All IsRequired ds
  under-IsRequired owner m none ds e h = cc
  under-IsRequired owner m (some n) ds e h = subst (λ o. All IsRequired (from o)) h (e, tt)

  nested-IsRequired :
      (owner : String) (ms : List Member) (ds : List Declaration)
      → nested_declarations ps owner ms ≡ some ds
      → All IsRequired ds
  unfolding nested_declarations
  nested-IsRequired owner [] ds h = none-IsRequired ds h
  nested-IsRequired owner (m ∷ ms) ds h =
      let (xs, ys, a, b, e) = both-some _ (nested_declarations ps owner ms) ds h in
      joined xs ys ds e (first (is_required ps m) refl xs a) (nested-IsRequired owner ms ys b)
    where
      first :
          (r : Bool)
          → is_required ps m ≡ r
          → (xs : List Declaration) → (if r then under owner m (info m).name else some []) ≡ some xs
          → All IsRequired xs
      first true e xs h = under-IsRequired owner m (info m).name xs e h
      first false e xs h = none-IsRequired xs h

  with_nested-IsRequired :
      (m : Member) (n : Option String) (ds : List Declaration)
      → is_required ps m ≡ true
      → with_nested ps m n ≡ some ds
      → All IsRequired ds
  with_nested-IsRequired m none ds e h = cc
  with_nested-IsRequired m (some name) ds e h =
      let (xs, ys, a, b, f) =
        both-some (some ((name, m) ∷ []))
          (nested_declarations ps name (members_of_body (body_of m name))) ds h in
      joined xs ys ds f (subst (λ o. All IsRequired (from o)) a (e, tt))
        (nested-IsRequired name (members_of_body (body_of m name)) ys b)

  of_member-IsRequired :
      (m : Member) (ds : List Declaration) → declarations_of ps m ≡ some ds → All IsRequired ds
  unfolding declarations_of
  of_member-IsRequired m ds h = go (is_required ps m) refl h
    where
      go :
          (r : Bool)
          → is_required ps m ≡ r
          → (if r then with_nested ps m (info m).name else some []) ≡ some ds
          → All IsRequired ds
      go true e h = with_nested-IsRequired m (info m).name ds e h
      go false e h = none-IsRequired ds h

  -- Every declaration that `public_declarations` yields is one that must be documented.
  pub public_declarations-IsRequired :
      (ms : List Member) (ds : List Declaration)
      → public_declarations ps ms ≡ some ds
      → All IsRequired ds
  unfolding public_declarations
  public_declarations-IsRequired [] ds h = none-IsRequired ds h
  public_declarations-IsRequired (m ∷ ms) ds h =
      let (xs, ys, a, b, e) = both-some (declarations_of ps m) (public_declarations ps ms) ds h in
      joined xs ys ds e (of_member-IsRequired m xs a) (public_declarations-IsRequired ms ys b)

  -- A member whose name and declarations are there is the first of them.
  with_nested-head :
      (m : Member) (n : Option String) (ds : List Declaration)
      → with_nested ps m n ≡ some ds
      → (name : String) × (n ≡ some name) × In (name, m) ds
  with_nested-head m none ds h = cc
  with_nested-head m (some name) ds h =
      let (xs, ys, a, b, f) =
        both-some (some ((name, m) ∷ []))
          (nested_declarations ps name (members_of_body (body_of m name))) ds h in
      (
        name,
        refl,
        subst (In (name, m)) f
            ((In-append (name, m) xs ys).1 (inl (subst (λ o. In (name, m) (from o)) a (inl refl)))),
      )

  own_declarations :
      (m : Member) (xs : List Declaration)
      → is_required ps m ≡ true
      → declarations_of ps m ≡ some xs
      → with_nested ps m (info m).name ≡ some xs
  unfolding declarations_of
  own_declarations m xs r h = ground (arith, r)

  -- No member that must be documented is left out: it is yielded under its name.
  pub public_declarations-In :
      (ms : List Member) (ds : List Declaration) (m : Member)
      → public_declarations ps ms ≡ some ds
      → In m ms
      → is_required ps m ≡ true
      → (name : String) × ((info m).name ≡ some name) × In (name, m) ds
  unfolding public_declarations
  public_declarations-In [] ds m h i r = absurd i
  public_declarations-In (k ∷ ms) ds m h i r =
      let (xs, ys, a, b, e) = both-some (declarations_of ps k) (public_declarations ps ms) ds h in
      place xs ys e (λ j. public_declarations-In ms ys m b j r) i a
    where
      place :
          (xs ys : List Declaration)
          → xs ++ ys ≡ ds
          → (In m ms → (name : String) × ((info m).name ≡ some name) × In (name, m) ys)
          → (m ≡ k) ⊎ In m ms
          → declarations_of ps k ≡ some xs
          → (name : String) × ((info m).name ≡ some name) × In (name, m) ds
      place xs ys e later (inr j) a =
          let (name, f, l) = later j in
          (name, f, subst (In (name, m)) e ((In-append (name, m) xs ys).1 (inr l)))
      place xs ys e later (inl j) a =
          let (name, f, l) =
            with_nested-head m (info m).name xs
              (own_declarations m xs r (subst (λ n. declarations_of ps n ≡ some xs) (sym j) a)) in
          (name, f, subst (In (name, m)) e ((In-append (name, m) xs ys).1 (inl l)))
