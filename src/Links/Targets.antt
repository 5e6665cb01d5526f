-- ===== src/Links/Targets.antt =====
-- scripts/check-doc-links.py: the regular expressions of `main`, that find the targets of a line.
use antfarm.Prelude.{
  ℕ, zero, suc, ◌-◌, ◌≡◌, refl, Bool, false, ◌&&◌, ◌||◌, List, [], ◌∷◌, ◌++◌, Option, none, some,
  leb, ltb, ◌==◌, if◌then◌else◌, length,
}
use antfarm.Text.{Line, codes, is_space, lstrip, after}
use antfarm.Links.Anchors.{Match, upto}
use antfarm.Links.Spans.{strip_inline_code}

abbrev or_else : Match → Match → Match
or_else none m = m
or_else (some p) m = some p

-- `[^\s)]+`
unfoldable word : Line → Line × Line
unfolding is_space
word [] = ([], [])
word (c ∷ cs) =
    let next = word cs in if is_space c || c == b')' then ([], c ∷ cs) else (c ∷ next.0, next.1)

abbrev behind : Option (Line × Line) → Option Line
behind none = none
behind (some (text, rest)) = some rest

abbrev is_quote : ℕ → Bool
is_quote c = c == b'"' || c == b'\''

-- `(?:\s+["\'][^\n]*?)?\s*\)`: a title goes to the first round bracket behind it.
abbrev closing : Line → Line → Option Line
closing spaced [] = none
closing spaced (c ∷ cs) =
    if c == b')'
    then some cs
    else if is_quote c && ltb (length (c ∷ cs)) (length spaced)
    then behind (upto b')' cs)
    else none

unfoldable tail_of : Line → Option Line
unfolding lstrip upto
tail_of line = closing line (lstrip line)

abbrev with_tail : Line → Option Line → Match
with_tail target none = none
with_tail target (some rest) = some (target, rest)

abbrev angled : Option (Line × Line) → Match
angled none = none
angled (some ([], rest)) = none
angled (some (c ∷ cs, rest)) = with_tail (b'<' ∷ c ∷ cs ++ b'>' ∷ []) (tail_of rest)

abbrev plain : Line × Line → Match
plain ([], rest) = none
plain (c ∷ cs, rest) = with_tail (c ∷ cs) (tail_of rest)

abbrev target_at : Line → Match
target_at [] = none
target_at (c ∷ cs) =
    or_else (if c == b'<' then angled (upto b'>' cs) else none) (plain (word (c ∷ cs)))

abbrev behind_bracket : Option Line → Match
behind_bracket none = none
behind_bracket (some rest) = target_at (lstrip rest)

-- `.*?\]\(\s*(<[^>]+>|[^\s)]+)(?:\s+["\'][^\n]*?)?\s*\)`
unfoldable inline_target : Line → Match
unfolding after lstrip tail_of word upto
inline_target [] = none
inline_target (c ∷ cs) = or_else (behind_bracket (after (codes "](") (c ∷ cs))) (inline_target cs)

abbrev opened : Line → Match
opened [] = none
opened (c ∷ cs) = if c == b'[' then inline_target cs else none

-- re.findall; a `!` in front of the bracket makes no difference to the targets.
unfoldable inline_targets : ℕ → Line → List Line
unfolding inline_target
inline_targets skip [] = []
inline_targets (suc skip) (c ∷ cs) = inline_targets skip cs
inline_targets zero (c ∷ cs) = elim (opened (c ∷ cs)) [
  | none ↦ inline_targets zero cs
  | some (target, rest) ↦ target ∷ inline_targets (length cs - length rest) cs
]

-- `\S+`
unfoldable solid : Line → Line
unfolding is_space
solid [] = []
solid (c ∷ cs) = if is_space c then [] else c ∷ solid cs

abbrev defined_by : Option Line → List Line
defined_by none = []
defined_by (some rest) = elim (solid (lstrip rest)) [ [] ↦ [] | ◌∷◌ c cs ↦ (c ∷ cs) ∷ [] ]

abbrev or_next : List Line → List Line → List Line
or_next [] ts = ts
or_next (t ∷ ts) us = t ∷ ts

-- `.*?\]:\s*(\S+)`
unfoldable defined_in : Line → List Line
unfolding after lstrip solid
defined_in [] = []
defined_in (c ∷ cs) = or_next (defined_by (after (codes "]:") (c ∷ cs))) (defined_in cs)

abbrev defined_at : Line → List Line
defined_at [] = []
defined_at (c ∷ cs) = if c == b'[' then defined_in cs else []

-- The targets of a line, the one that it defines last.
unfoldable pub targets_of : Line → List Line
unfolding strip_inline_code inline_targets defined_in lstrip
targets_of line =
    let masked = strip_inline_code line in inline_targets 0 masked ++ defined_at (lstrip masked)

-- target.strip("<>")
unfoldable lstrip_angles : Line → Line
lstrip_angles [] = []
lstrip_angles (c ∷ cs) = if c == b'<' || c == b'>' then lstrip_angles cs else c ∷ cs

unfoldable rstrip_angles : Line → Line
rstrip_angles [] = []
rstrip_angles (c ∷ cs) = elim (rstrip_angles cs) [
  | [] ↦ if c == b'<' || c == b'>' then [] else c ∷ []
  | ◌∷◌ d rest ↦ c ∷ d ∷ rest
]

unfoldable pub strip_angles : Line → Line
unfolding lstrip_angles rstrip_angles
strip_angles target = rstrip_angles (lstrip_angles target)

abbrev is_letter : ℕ → Bool
is_letter c = (leb b'A' c && leb c b'Z') || (leb b'a' c && leb c b'z')

-- `[A-Za-z0-9+.-]*:`
unfoldable scheme_rest : Line → Bool
scheme_rest [] = false
scheme_rest (c ∷ cs) =
    let next = scheme_rest cs in
    c == b':'
    || ((is_letter c || (leb b'0' c && leb c b'9') || c == b'+' || c == b'.' || c == b'-') && next)

-- `^[A-Za-z][A-Za-z0-9+.-]*:`
unfoldable pub is_external : Line → Bool
unfolding scheme_rest
is_external [] = false
is_external (c ∷ cs) = is_letter c && scheme_rest cs

-- text.partition(c)
unfoldable pub partition : ℕ → Line → Line × Line
unfolding upto
partition c line = elim (upto c line) [ none ↦ (line, []) | some (text, rest) ↦ (text, rest) ]

found :
    targets_of (codes " [a](b) ![c]( <d e> \"t\" ) [f] `[g](h)` [i](j k)")
    ≡ codes "b" ∷ codes "<d e>" ∷ []
unfolding targets_of
found = refl

defined : targets_of (codes "  [a]:  https://b c") ≡ codes "https://b" ∷ []
unfolding targets_of
defined = refl
