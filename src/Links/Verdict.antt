-- ===== src/Links/Verdict.antt =====
-- scripts/check-doc-links.py: when `main` returns 0.
use antfarm.Prelude.{
  ◌>>=◌, >>=-eq-some, ℕ, suc, ◌≡◌, ◌↔◌, refl, ap, Bool, true, false, ◌||◌, List, [], ◌∷◌, Option,
  none, some, arith, if◌then◌else◌,
}
use antfarm.Text.{Line}
use antfarm.Links.Fences.{unfence}
use antfarm.Links.Targets.{targets_of, strip_angles, is_external, partition}
use antfarm.Links.Paths.{normpath, join_path, dirname}
use antfarm.Links.Check.{
  cached, Checkout, State, Link, counted_link, check_part, check_target, check_targets, check_lines,
  check_text, check_files, exit_of, exit_status, part_of, initial, main, tracked_markdown,
}
use antfarm.Links.Clean.{is_right, is_good, all_good, lines_good, text_good, pages_good, is_clean}
use antfarm.Links.Judged.{
  IsValid, Judged, Keeps, >>=-Judged, recorded, no_state, some_eq, check_anchor-Judged,
  check_anchor-Keeps, check_path-Judged, check_path-Keeps,
}

empty_cache : (c : Checkout) → IsValid c initial
unfolding cached
empty_cache c p ids h = cc

module _ (c : Checkout) where
  >>=-Keeps : (f g : State → Option State) → Keeps c f → Keeps c g → Keeps c (λ s. f s >>= g)
  >>=-Keeps f g k m s t h e = go (>>=-eq-some (f s) g e)
    where
      go : (r : State) × (f s ≡ some r) × (g r ≡ some t) → exit_of t ≡ 1
      go (r, d, b) = m r t (k s r h d) b

  check_part-Judged :
      (path : Line) (l : Link) (part frag : Line) (s : State)
      → exit_of s ≡ 0
      → IsValid c s
      → Judged c (is_right c path part frag) (check_part c path l part frag s)
  check_part-Judged path l [] frag s z v = check_anchor-Judged c l frag path s z v
  check_part-Judged path l (p ∷ ps) frag s z v =
      check_path-Judged c l (p ∷ ps) frag (normpath (join_path (dirname path) (p ∷ ps))) s z v

  check_part-Keeps :
      (path : Line) (l : Link) (part frag : Line) → Keeps c (check_part c path l part frag)
  check_part-Keeps path l [] frag = check_anchor-Keeps c l frag path
  check_part-Keeps path l (p ∷ ps) frag =
      check_path-Keeps c l (p ∷ ps) frag (normpath (join_path (dirname path) (p ∷ ps)))

  check_target-Judged :
      (path : Line) (n : ℕ) (word : Line) (s : State)
      → exit_of s ≡ 0
      → IsValid c s
      → Judged c (is_good c path word) (check_target c path n word s)
  unfolding check_target
  check_target-Judged path n word s z v = go (is_external target)
    where
      target : Line
      target = strip_angles word

      go :
          (b : Bool)
          → Judged c (b || is_right c path (part_of c target) (partition b'#' target).1) (
              if b
              then some (counted_link s)
              else check_part c path
                  (path, n, target)
                  (part_of c target)
                  (partition b'#' target).1
                  (counted_link s))
      go true = (counted_link s, refl, z, v)
      go false =
          check_part-Judged path (path, n, target) (part_of c target) (partition b'#' target).1
            (counted_link s) z v

  check_target-Keeps : (path : Line) (n : ℕ) (word : Line) → Keeps c (check_target c path n word)
  unfolding check_target
  check_target-Keeps path n word s t h e = go (is_external target) e
    where
      target : Line
      target = strip_angles word

      go :
          (b : Bool)
          → (if b
              then some (counted_link s)
              else check_part c path
                  (path, n, target)
                  (part_of c target)
                  (partition b'#' target).1
                  (counted_link s))
            ≡ some t
          → exit_of t ≡ 1
      go true e = recorded c (counted_link s) t h e
      go false e =
          check_part-Keeps path (path, n, target) (part_of c target) (partition b'#' target).1
            (counted_link s) t h e

  check_targets-Keeps : (path : Line) (n : ℕ) (ts : List Line) → Keeps c (check_targets c path n ts)
  unfolding check_targets
  check_targets-Keeps path n [] s t h e = recorded c s t h e
  check_targets-Keeps path n (w ∷ ts) s t h e =
      >>=-Keeps (check_target c path n w) (check_targets c path n ts) (check_target-Keeps path n w)
        (check_targets-Keeps path n ts) s t h e

  check_targets-Judged :
      (path : Line) (n : ℕ) (ts : List Line) (s : State)
      → exit_of s ≡ 0
      → IsValid c s
      → Judged c (all_good c path ts) (check_targets c path n ts s)
  unfolding check_targets
  check_targets-Judged path n [] s z v = (s, refl, z, v)
  check_targets-Judged path n (w ∷ ts) s z v =
      >>=-Judged c (is_good c path w) (all_good c path ts) (check_target c path n w s)
        (check_targets c path n ts) (check_target-Judged path n w s z v)
        (check_targets-Judged path n ts) (check_targets-Keeps path n ts)

  check_lines-Keeps :
      (path : Line) (n : ℕ) (lines : List Line) → Keeps c (check_lines c path n lines)
  unfolding check_lines
  check_lines-Keeps path n [] s t h e = recorded c s t h e
  check_lines-Keeps path n (line ∷ lines) s t h e =
      >>=-Keeps (check_targets c path n (targets_of line)) (check_lines c path (suc n) lines)
        (check_targets-Keeps path n (targets_of line)) (check_lines-Keeps path (suc n) lines) s t h
        e

  check_lines-Judged :
      (path : Line) (n : ℕ) (lines : List Line) (s : State)
      → exit_of s ≡ 0
      → IsValid c s
      → Judged c (lines_good c path lines) (check_lines c path n lines s)
  unfolding check_lines
  check_lines-Judged path n [] s z v = (s, refl, z, v)
  check_lines-Judged path n (line ∷ lines) s z v =
      >>=-Judged c (all_good c path (targets_of line)) (lines_good c path lines)
        (check_targets c path n (targets_of line) s) (check_lines c path (suc n) lines)
        (check_targets-Judged path n (targets_of line) s z v)
        (check_lines-Judged path (suc n) lines) (check_lines-Keeps path (suc n) lines)

  check_text-Judged :
      (path : Line) (o : Option (List Line)) (s : State)
      → exit_of s ≡ 0
      → IsValid c s
      → Judged c (text_good c path o) (check_text c path s o)
  check_text-Judged path none s z v = no_state
  check_text-Judged path (some lines) s z v = check_lines-Judged path 1 (unfence lines) s z v

  check_text-Keeps : (path : Line) (o : Option (List Line)) → Keeps c (λ s. check_text c path s o)
  check_text-Keeps path none s t h e = no_state t e
  check_text-Keeps path (some lines) s t h e = check_lines-Keeps path 1 (unfence lines) s t h e

  check_files-Keeps : (paths : List Line) → Keeps c (check_files c paths)
  unfolding check_files
  check_files-Keeps [] s t h e = recorded c s t h e
  check_files-Keeps (path ∷ paths) s t h e =
      >>=-Keeps (λ s. check_text c path s (c.lines_of path)) (check_files c paths)
        (check_text-Keeps path (c.lines_of path)) (check_files-Keeps paths) s t h e

  check_files-Judged :
      (paths : List Line) (s : State)
      → exit_of s ≡ 0
      → IsValid c s
      → Judged c (pages_good c paths) (check_files c paths s)
  unfolding check_files
  check_files-Judged [] s z v = (s, refl, z, v)
  check_files-Judged (path ∷ paths) s z v =
      >>=-Judged c (text_good c path (c.lines_of path)) (pages_good c paths)
        (check_text c path s (c.lines_of path)) (check_files c paths)
        (check_text-Judged path (c.lines_of path) s z v) (check_files-Judged paths)
        (check_files-Keeps paths)

  exit_status-Judged :
      (b : Bool) (o : Option State) → Judged c b o → (o >>= exit_status ≡ some 0) ↔ (b ≡ true)
  exit_status-Judged true o (s, e, z, v) = (λ h. refl, λ h. rw e (ap some z))
  exit_status-Judged false o h = (λ e. absurd (clash (>>=-eq-some o exit_status e)), λ e. cc)
    where
      clash : (s : State) × (o ≡ some s) × (exit_status s ≡ some 0) → ⊥
      clash (s, e, d) = omega (arith, h s e, some_eq (exit_of s) 0 d)

  -- The check returns 0 exactly when every Markdown file that is scanned can be read, and each link
  -- outside of its fenced blocks and code spans has another scheme, or leads to a path that is inside
  -- of the checkout, also where links lead, and tracked, and to an anchor of the page there, if it
  -- names one and the page is Markdown.
  pub main-is_clean : (main c ≡ some 0) ↔ (is_clean c ≡ true)
  unfolding main is_clean
  main-is_clean =
      exit_status-Judged (pages_good c (tracked_markdown c))
        (check_files c (tracked_markdown c) initial)
        (check_files-Judged (tracked_markdown c) initial refl (empty_cache c))
