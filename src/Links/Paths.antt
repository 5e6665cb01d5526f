-- ===== src/Links/Paths.antt =====
-- scripts/check-doc-links.py: `is_within`, `repo_path`, and the functions of os.path that they use.
use mathlib.Core.List.{reverse}
use antfarm.Prelude.{
  ◌≡◌, refl, Bool, true, false, ◌&&◌, ◌||◌, not, List, [], ◌∷◌, ◌++◌, none, some, ◌==◌,
  if◌then◌else◌,
}
use antfarm.Text.{Line, codes, after, line_eq}

-- text.startswith(word)
unfoldable pub starts_with : Line → Line → Bool
unfolding after
starts_with word line = elim (after word line) [ none ↦ false | some rest ↦ true ]

-- text.split("/"), behind the text `part` that is read
unfoldable pub split_slashes : Line → Line → List Line
split_slashes part [] = part ∷ []
split_slashes part (c ∷ cs) = elim (c == b'/') [
  | true ↦ part ∷ split_slashes [] cs
  | false ↦ split_slashes (part ++ c ∷ []) cs
]

abbrev dot_dot : Line
dot_dot = codes ".."

-- new_comps.append(comp), of a list that is kept reversed
abbrev pushed : Bool → Line → List Line → List Line
pushed absolute part [] = if absolute && line_eq part dot_dot then [] else part ∷ []
pushed absolute part (p ∷ ps) =
    if line_eq part dot_dot && not (line_eq p dot_dot) then ps else part ∷ p ∷ ps

-- The loop of os.path.normpath.
unfoldable pub components : Bool → List Line → List Line → List Line
unfolding line_eq
components absolute [] done = reverse done
components absolute (part ∷ parts) done =
    components absolute parts
      (if line_eq part [] || line_eq part (codes ".") then done else pushed absolute part done)

unfoldable pub joined_by_slash : List Line → Line
joined_by_slash [] = []
joined_by_slash (part ∷ []) = part
joined_by_slash (part ∷ next ∷ parts) = part ++ codes "/" ++ joined_by_slash (next ∷ parts)

-- Two slashes stay, three and more are one.
unfoldable pub root_of : Line → Line
unfolding starts_with
root_of path =
    if starts_with (codes "//") path && not (starts_with (codes "///") path)
    then codes "//"
    else if starts_with (codes "/") path
    then codes "/"
    else []

abbrev pub or_dot : Line → Line
or_dot [] = codes "."
or_dot (c ∷ cs) = c ∷ cs

-- os.path.normpath
unfoldable pub normpath : Line → Line
unfolding split_slashes components joined_by_slash root_of
normpath path = or_dot (
    root_of path
    ++ joined_by_slash (components (starts_with (codes "/") path) (split_slashes [] path) []))

abbrev ends_in_slash : Line → Bool
ends_in_slash [] = true
ends_in_slash (c ∷ []) = c == b'/'
ends_in_slash (c ∷ d ∷ cs) = ends_in_slash (d ∷ cs)

-- os.path.join
unfoldable pub join_path : Line → Line → Line
unfolding starts_with
join_path a b =
    if starts_with (codes "/") b then b else if ends_in_slash a then a ++ b else a ++ codes "/" ++ b

-- The reversed path behind the last slash.
unfoldable pub from_slash : Line → Line
from_slash [] = []
from_slash (c ∷ cs) = if c == b'/' then c ∷ cs else from_slash cs

unfoldable pub without_slashes : Line → Line
without_slashes [] = []
without_slashes (c ∷ cs) = if c == b'/' then without_slashes cs else c ∷ cs

abbrev pub or_slashes : Line → Line → Line
or_slashes slashes [] = slashes
or_slashes slashes (c ∷ cs) = c ∷ cs

-- os.path.dirname: a head of slashes only is kept.
unfoldable pub dirname : Line → Line
unfolding from_slash without_slashes
dirname path =
    let head = from_slash (reverse path) in reverse (or_slashes head (without_slashes head))

unfoldable pub is_within : Line → Line → Bool
unfolding normpath starts_with line_eq
is_within root path =
    line_eq (normpath path) (normpath root)
    || starts_with (normpath root ++ codes "/") (normpath path)

unfoldable pub repo_path : Line → Line → Line
unfolding normpath join_path
repo_path root name = normpath (join_path root name)

normalized : normpath (codes "/a/./b//../../../c/d/") ≡ codes "/c/d"
unfolding normpath line_eq
normalized = refl

relative : normpath (codes "../a/..") ≡ codes ".."
unfolding normpath line_eq
relative = refl

directories :
    dirname (codes "/a/b") ∷ dirname (codes "/a") ∷ dirname (codes "a") ∷ []
    ≡ codes "/a" ∷ codes "/" ∷ [] ∷ []
unfolding dirname
directories = refl
