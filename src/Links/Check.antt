-- ===== src/Links/Check.antt =====
-- scripts/check-doc-links.py: `tracked_markdown`, `tracked_sets` and `main`.
use antfarm.Prelude.{
  ◌>>=◌, ℕ, zero, suc, Bool, false, ◌&&◌, ◌||◌, not, List, [], ◌∷◌, ◌++◌, Option, none, some,
  if◌then◌else◌, length,
}
use antfarm.Text.{Line, codes, line_eq}
use antfarm.Links.Fences.{unfence}
use antfarm.Links.Anchors.{Unicode}
use antfarm.Links.Headings.{anchors}
use antfarm.Links.Targets.{targets_of, strip_angles, is_external, partition}
use antfarm.Links.Paths.{starts_with, normpath, join_path, dirname, is_within, repo_path}

-- `root` and `real_root` are ROOT_PATH and REAL_ROOT; `names` is what git prints of all files, and
-- `markdown_names` of `*.md`. `lines_of` is the text of a file by lines, none where it cannot be read;
-- `is_there` says that a path exists or is a link. `unquote` is urllib's.
pub record Checkout : Type 0 where
  pub unicode : Unicode
  pub root : Line
  pub real_root : Line
  pub names : List Line
  pub markdown_names : List Line
  pub is_link : Line → Bool
  pub is_there : Line → Bool
  pub realpath : Line → Line
  pub lines_of : Line → Option (List Line)
  pub unquote : Line → Line

-- Membership in a set, that is a list of its elements.
unfoldable pub has : Line → List Line → Bool
unfolding line_eq
has p [] = false
has p (q ∷ qs) = line_eq p q || has p qs

abbrev pub Reason : Type 0
Reason = Line

abbrev pub leaves : Reason
leaves = codes "link escapes the checkout"

abbrev pub leaves_by_link : Reason
leaves_by_link = codes "escapes the checkout through a symlink"

abbrev pub untracked : Reason
untracked = codes "path is missing or not tracked"

abbrev pub no_anchor : Reason
no_anchor = codes "missing heading anchor"

-- [relative, number, target], by the path of the file
abbrev pub Link : Type 0
Link = Line × ℕ × Line

-- The variables of `main`; `cache` is `anchor_cache`.
pub record State : Type 0 where
  pub cache : List (Line × List Line)
  pub broken : List (Link × Reason)
  pub absolute : List Link
  pub total : ℕ

unfoldable pub cached : Line → List (Line × List Line) → Option (List Line)
unfolding line_eq
cached p [] = none
cached p ((q, ids) ∷ cache) = if line_eq p q then some ids else cached p cache

abbrev pub with_broken : Link → Reason → State → State
with_broken l r s = record s { broken = s.broken ++ (l, r) ∷ [] }

abbrev pub with_absolute : Link → State → State
with_absolute l s = record s { absolute = s.absolute ++ l ∷ [] }

abbrev pub with_cache : Line → List Line → State → State
with_cache p ids s = record s { cache = (p, ids) ∷ s.cache }

abbrev pub counted_link : State → State
counted_link s = record s { total = suc s.total }

abbrev pub initial : State
initial = record { cache = []; broken = []; absolute = []; total = 0 }

-- 1 if broken or absolute else 0
abbrev pub status : List (Link × Reason) → List Link → ℕ
status [] [] = 0
status [] (l ∷ ls) = 1
status (b ∷ bs) ls = 1

abbrev pub exit_of : State → ℕ
exit_of s = status s.broken s.absolute

abbrev pub exit_status : State → Option ℕ
exit_status s = some (exit_of s)

-- joined.endswith(".md")
unfoldable pub ends_in_md : Line → Bool
unfolding line_eq
ends_in_md [] = false
ends_in_md (d ∷ ds) = line_eq (d ∷ ds) (codes ".md") || ends_in_md ds

module _ (c : Checkout) where
  -- name.startswith(SKIP_PREFIXES), and the links that leave the checkout
  unfoldable pub is_scanned : Line → Bool
  unfolding starts_with is_within repo_path
  is_scanned [] = false
  is_scanned (n ∷ ns) =
      let path = repo_path c.root (n ∷ ns) in
      not (starts_with (codes "third_party/") (n ∷ ns))
      && not (c.is_link path && not (is_within c.real_root (c.realpath path)))

  unfoldable pub markdown_of : List Line → List Line
  unfolding is_scanned repo_path
  markdown_of [] = []
  markdown_of (name ∷ names) =
      if is_scanned name then repo_path c.root name ∷ markdown_of names else markdown_of names

  unfoldable pub tracked_markdown : List Line
  unfolding markdown_of
  tracked_markdown = markdown_of c.markdown_names

  -- The loop over the parents.
  unfoldable pub parents : ℕ → Line → List Line
  unfolding dirname is_within line_eq
  parents zero parent = []
  parents (suc fuel) parent =
      let rest = parents fuel (dirname parent) in
      if not (line_eq parent c.root) && is_within c.root parent then parent ∷ rest else []

  -- (files, dirs); the names have no empty one but the last
  unfoldable pub tracked_files : List Line → List Line
  unfolding repo_path
  tracked_files [] = []
  tracked_files ([] ∷ names) = tracked_files names
  tracked_files ((n ∷ ns) ∷ names) = repo_path c.root (n ∷ ns) ∷ tracked_files names

  unfoldable pub tracked_dirs : List Line → List Line
  unfolding parents dirname
  tracked_dirs [] = c.root ∷ []
  tracked_dirs (path ∷ paths) = parents (suc (length path)) (dirname path) ++ tracked_dirs paths

  unfoldable pub is_tracked : Line → Bool
  unfolding has tracked_files tracked_dirs
  is_tracked p = has p (tracked_files c.names) || has p (tracked_dirs (tracked_files c.names))

  unfoldable pub anchors_at : Line → Option (List Line)
  unfolding anchors
  anchors_at p = elim (c.lines_of p) [ none ↦ none | some lines ↦ some (anchors c.unicode lines) ]

  abbrev pub known : Link → Line → State → List Line → Option State
  known l frag s ids = some (if has (c.unquote frag) ids then s else with_broken l no_anchor s)

  abbrev pub learned : Link → Line → Line → State → Option (List Line) → Option State
  learned l frag p s none = none
  learned l frag p s (some ids) = known l frag (with_cache p ids s) ids

  abbrev pub looked_up : Link → Line → Line → State → Option (List Line) → Option State
  looked_up l frag p s (some ids) = known l frag s ids
  looked_up l frag p s none = learned l frag p s (anchors_at p)

  -- if frag and joined.endswith(".md")
  unfoldable pub check_anchor : Link → Line → Line → State → Option State
  unfolding ends_in_md cached has anchors_at
  check_anchor l [] p s = some s
  check_anchor l (f ∷ fs) p s =
      if ends_in_md p then looked_up l (f ∷ fs) p s (cached p s.cache) else some s

  -- `part` is not empty
  unfoldable pub check_path : Link → Line → Line → Line → State → Option State
  unfolding is_within is_tracked check_anchor starts_with
  check_path l part frag joined s =
      if not (is_within c.root joined)
      then some (if starts_with (codes "/") part then with_absolute l s else with_broken l leaves s)
      else if c.is_there joined && not (is_within c.real_root (c.realpath joined))
      then some (with_broken l leaves_by_link s)
      else if not (is_tracked joined)
      then some (with_broken l untracked s)
      else check_anchor l frag joined s

  -- urllib.parse.unquote(part).partition("?")[0]
  unfoldable pub part_of : Line → Line
  unfolding partition
  part_of target = (partition b'?' (c.unquote (partition b'#' target).0)).0

  abbrev pub check_part : Line → Link → Line → Line → State → Option State
  check_part path l [] frag s = check_anchor l frag path s
  check_part path l (p ∷ ps) frag s =
      check_path l (p ∷ ps) frag (normpath (join_path (dirname path) (p ∷ ps))) s

  -- A round over `targets`.
  unfoldable pub check_target : Line → ℕ → Line → State → Option State
  unfolding strip_angles is_external part_of check_path check_anchor normpath join_path dirname
  check_target path number word s =
      let target = strip_angles word in
      if is_external target
      then some (counted_link s)
      else check_part path (path, number, target) (part_of target) (partition b'#' target).1
          (counted_link s)

  unfoldable pub check_targets : Line → ℕ → List Line → State → Option State
  unfolding check_target
  check_targets path number [] s = some s
  check_targets path number (t ∷ ts) s =
      check_target path number t s >>= check_targets path number ts

  unfoldable pub check_lines : Line → ℕ → List Line → State → Option State
  unfolding check_targets targets_of
  check_lines path number [] s = some s
  check_lines path number (line ∷ lines) s =
      check_targets path number (targets_of line) s >>= check_lines path (suc number) lines

  abbrev pub check_text : Line → State → Option (List Line) → Option State
  check_text path s none = none
  check_text path s (some lines) = check_lines path 1 (unfence lines) s

  unfoldable pub check_files : List Line → State → Option State
  unfolding check_lines unfence
  check_files [] s = some s
  check_files (path ∷ paths) s = check_text path s (c.lines_of path) >>= check_files paths

  -- The exit status; none is an exception.
  unfoldable pub main : Option ℕ
  unfolding tracked_markdown check_files
  main = check_files tracked_markdown initial >>= exit_status
