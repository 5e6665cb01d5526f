-- ===== src/Links/Judged.antt =====
-- scripts/check-doc-links.py: what a round over one link does to the outcome and the cache of `main`.
use antfarm.Prelude.{
  ◌>>=◌, >>=-eq-some, ◌≡◌, ◌⊎◌, inl, inr, refl, sym, ap, ◌∙◌, subst, Bool, true, false, ◌&&◌, ◌||◌,
  not, List, [], ◌∷◌, ◌++◌, Option, none, some, if◌then◌else◌, Bool-cases,
}
use antfarm.Text.{Line, codes, line_eq, line_eq-eq}
use antfarm.Links.Check.{
  Checkout, State, Link, Reason, has, cached, anchors_at, with_broken, with_absolute, with_cache,
  no_anchor, leaves, leaves_by_link, untracked, known, learned, looked_up, check_anchor, check_path,
  status, exit_of, ends_in_md, is_tracked,
}
use antfarm.Links.Paths.{starts_with, is_within}
use antfarm.Links.Clean.{holds, is_anchored, is_inside}

status-broken :
    (bs : List (Link × Reason)) (b : Link × Reason) (ls : List Link) → status (bs ++ b ∷ []) ls ≡ 1
status-broken [] b ls = refl
status-broken (d ∷ bs) b ls = refl

status-absolute :
    (bs : List (Link × Reason)) (ls : List Link) (l : Link) → status bs (ls ++ l ∷ []) ≡ 1
status-absolute [] [] l = refl
status-absolute [] (m ∷ ls) l = refl
status-absolute (b ∷ bs) ls l = refl

pub some_eq {ℓ} : {A : Type ℓ} (s t : A) → some s ≡ some t → s ≡ t
some_eq {A = A} s t e = subst (λ o. s ≡ from o) e refl
  where
    from : Option A → A
    from none = s
    from (some t) = t

pub no_state : (t : State) → none ≡ some t → exit_of t ≡ 1
no_state t e = cc

module _ (c : Checkout) where
  -- What the cache holds of a page are its anchors.
  abbrev pub IsValid : State → Type 0
  IsValid s = (p : Line) (ids : List Line) → cached p s.cache ≡ some ids → anchors_at c p ≡ some ids

  -- A good part leaves no link broken and the cache valid; a bad one that is not an exception leaves
  -- a broken or an absolute link.
  abbrev pub Judged : Bool → Option State → Type 0
  Judged true o = (s : State) × (o ≡ some s) × (exit_of s ≡ 0) × IsValid s
  Judged false o = (s : State) → o ≡ some s → exit_of s ≡ 1

  -- A round that keeps a link that is not right.
  abbrev pub Keeps : (State → Option State) → Type 0
  Keeps f = (s t : State) → exit_of s ≡ 1 → f s ≡ some t → exit_of t ≡ 1

  pub >>=-Judged :
      (a b : Bool) (o : Option State) (f : State → Option State)
      → Judged a o
      → ((s : State) → exit_of s ≡ 0 → IsValid s → Judged b (f s))
      → Keeps f
      → Judged (a && b) (o >>= f)
  >>=-Judged false b o f h g k = λ t e. bad t (>>=-eq-some o f e)
    where
      bad : (t : State) → (s : State) × (o ≡ some s) × (f s ≡ some t) → exit_of t ≡ 1
      bad t (s, e, d) = k s t (h s e) d
  >>=-Judged true b o f (s, e, z, v) g k = subst (λ o. Judged b (o >>= f)) (sym e) (g s z v)

  -- The state that a bad link is recorded in.
  pub recorded : (s t : State) → exit_of s ≡ 1 → some s ≡ some t → exit_of t ≡ 1
  recorded s t h e = subst (λ t. exit_of t ≡ 1) (some_eq s t e) h

  broken-recorded :
      (l : Link) (r : Reason) (s t : State) → some (with_broken l r s) ≡ some t → exit_of t ≡ 1
  broken-recorded l r s t e =
      recorded (with_broken l r s) t (status-broken s.broken (l, r) s.absolute) e

  known-Judged :
      (l : Link) (frag : Line) (s : State) (ids : List Line)
      → exit_of s ≡ 0
      → IsValid s
      → Judged (has (c.unquote frag) ids) (known c l frag s ids)
  known-Judged l frag s ids z v = go (has (c.unquote frag) ids)
    where
      go : (b : Bool) → Judged b (some (if b then s else with_broken l no_anchor s))
      go true = (s, refl, z, v)
      go false = broken-recorded l no_anchor s

  known-Keeps : (l : Link) (frag : Line) (ids : List Line) → Keeps (λ s. known c l frag s ids)
  known-Keeps l frag ids s t h = go (has (c.unquote frag) ids)
    where
      go : (b : Bool) → some (if b then s else with_broken l no_anchor s) ≡ some t → exit_of t ≡ 1
      go true = recorded s t h
      go false = broken-recorded l no_anchor s t

  with_cache-IsValid :
      (p : Line) (ids : List Line) (s : State)
      → anchors_at c p ≡ some ids
      → IsValid s
      → IsValid (with_cache p ids s)
  unfolding cached
  with_cache-IsValid p ids s e v q found = go (Bool-cases (line_eq q p)) found
    where
      go :
          (line_eq q p ≡ true) ⊎ (line_eq q p ≡ false)
          → (found : List Line) → (if line_eq q p then some ids else cached q s.cache) ≡ some found
          → anchors_at c q ≡ some found
      go (inl b) found h =
          ap (anchors_at c) (line_eq-eq q p b)
          ∙ e
          ∙ subst (λ x. (if x then some ids else cached q s.cache) ≡ some found) b h
      go (inr b) found h =
          v q found (subst (λ x. (if x then some ids else cached q s.cache) ≡ some found) b h)

  looked_up-Judged :
      (l : Link) (frag p : Line) (s : State) (o : Option (List Line))
      → cached p s.cache ≡ o
      → exit_of s ≡ 0
      → IsValid s
      → Judged (holds (anchors_at c p) (c.unquote frag)) (looked_up c l frag p s o)
  looked_up-Judged l frag p s (some ids) e z v =
      subst (λ o. Judged (holds o (c.unquote frag)) (known c l frag s ids)) (sym (v p ids e))
        (known-Judged l frag s ids z v)
  looked_up-Judged l frag p s none e z v = go (anchors_at c p) refl
    where
      go :
          (o : Option (List Line))
          → anchors_at c p ≡ o
          → Judged (holds o (c.unquote frag)) (learned c l frag p s o)
      go none e = no_state
      go (some ids) e =
          known-Judged l frag (with_cache p ids s) ids z (with_cache-IsValid p ids s e v)

  looked_up-Keeps :
      (l : Link) (frag p : Line) (o : Option (List Line)) → Keeps (λ s. looked_up c l frag p s o)
  looked_up-Keeps l frag p (some ids) = known-Keeps l frag ids
  looked_up-Keeps l frag p none = λ s t h. go s t h (anchors_at c p)
    where
      go :
          (s t : State)
          → exit_of s ≡ 1
          → (o : Option (List Line)) → learned c l frag p s o ≡ some t
          → exit_of t ≡ 1
      go s t h none = no_state t
      go s t h (some ids) = known-Keeps l frag ids (with_cache p ids s) t h

  pub check_anchor-Judged :
      (l : Link) (frag p : Line) (s : State)
      → exit_of s ≡ 0
      → IsValid s
      → Judged (is_anchored c frag p) (check_anchor c l frag p s)
  unfolding check_anchor
  check_anchor-Judged l [] p s z v = (s, refl, z, v)
  check_anchor-Judged l (f ∷ fs) p s z v = go (ends_in_md p)
    where
      go :
          (b : Bool)
          → Judged
              (not b || holds (anchors_at c p) (c.unquote (f ∷ fs)))
              (if b then looked_up c l (f ∷ fs) p s (cached p s.cache) else some s)
      go true = looked_up-Judged l (f ∷ fs) p s (cached p s.cache) refl z v
      go false = (s, refl, z, v)

  pub check_anchor-Keeps : (l : Link) (frag p : Line) → Keeps (check_anchor c l frag p)
  unfolding check_anchor
  check_anchor-Keeps l [] p s t h e = recorded s t h e
  check_anchor-Keeps l (f ∷ fs) p s t h e = go (ends_in_md p) e
    where
      go :
          (b : Bool)
          → (if b then looked_up c l (f ∷ fs) p s (cached p s.cache) else some s) ≡ some t
          → exit_of t ≡ 1
      go true = looked_up-Keeps l (f ∷ fs) p (cached p s.cache) s t h
      go false = recorded s t h

  -- The three guards of `check_path`, by their values.
  pub check_path-Judged :
      (l : Link) (part frag p : Line) (s : State)
      → exit_of s ≡ 0
      → IsValid s
      → Judged (is_inside c p && is_anchored c frag p) (check_path c l part frag p s)
  unfolding check_path
  check_path-Judged l part frag p s z v =
      go (is_within c.root p) (c.is_there p) (is_within c.real_root (c.realpath p)) (is_tracked c p)
    where
      outside :
          (b : Bool) → Judged false (some (if b then with_absolute l s else with_broken l leaves s))
      outside true = λ t e. recorded (with_absolute l s) t (status-absolute s.broken s.absolute l) e
      outside false = broken-recorded l leaves s

      go :
          (within there real tracked : Bool)
          → Judged ((within && (not there || real) && tracked) && is_anchored c frag p) (
              if not within
              then some (
                  if starts_with (codes "/") part
                  then with_absolute l s
                  else with_broken l leaves s)
              else if there && not real
              then some (with_broken l leaves_by_link s)
              else if not tracked
              then some (with_broken l untracked s)
              else check_anchor c l frag p s)
      go false there real tracked = outside (starts_with (codes "/") part)
      go true true false tracked = broken-recorded l leaves_by_link s
      go true true true false = broken-recorded l untracked s
      go true true true true = check_anchor-Judged l frag p s z v
      go true false real false = broken-recorded l untracked s
      go true false real true = check_anchor-Judged l frag p s z v

  pub check_path-Keeps : (l : Link) (part frag p : Line) → Keeps (check_path c l part frag p)
  unfolding check_path
  check_path-Keeps l part frag p s t h e =
      go (is_within c.root p) (c.is_there p && not (is_within c.real_root (c.realpath p)))
        (is_tracked c p) e
    where
      outside :
          (b : Bool)
          → some (if b then with_absolute l s else with_broken l leaves s) ≡ some t
          → exit_of t ≡ 1
      outside true e = recorded (with_absolute l s) t (status-absolute s.broken s.absolute l) e
      outside false e = broken-recorded l leaves s t e

      go :
          (within linked tracked : Bool)
          → (if not within
              then some (
                  if starts_with (codes "/") part
                  then with_absolute l s
                  else with_broken l leaves s)
              else if linked
              then some (with_broken l leaves_by_link s)
              else if not tracked
              then some (with_broken l untracked s)
              else check_anchor c l frag p s)
            ≡ some t
          → exit_of t ≡ 1
      go false linked tracked e = outside (starts_with (codes "/") part) e
      go true true tracked e = broken-recorded l leaves_by_link s t e
      go true false false e = broken-recorded l untracked s t e
      go true false true e = check_anchor-Keeps l frag p s t h e
