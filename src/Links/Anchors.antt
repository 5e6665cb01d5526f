-- ===== src/Links/Anchors.antt =====
-- scripts/check-doc-links.py: `anchor_slug`, the headings of a page and `anchors`.
use antfarm.Prelude.{
  ℕ, zero, suc, ◌-◌, Bool, true, false, ◌&&◌, ◌||◌, not, [], ◌∷◌, ◌++◌, Option, none, some, leb,
  ◌==◌, if◌then◌else◌, length,
}
use antfarm.Text.{Line, codes, is_space, strip, after, drop, line_eq}
use antfarm.Links.Fences.{run}

-- str.lower, str.isalnum of a character, and `\d`.
pub record Unicode : Type 0 where
  pub lower : Line → Line
  pub is_alnum : ℕ → Bool
  pub is_digit : ℕ → Bool

-- The text before the first `c`, and what follows that.
unfoldable pub upto : ℕ → Line → Option (Line × Line)
upto c [] = none
upto c (d ∷ ds) = elim (d == c) [
  | true ↦ some ([], ds)
  | false ↦ elim (upto c ds) [ none ↦ none | some (text, rest) ↦ some (d ∷ text, rest) ]
]

-- What a pattern matches at the beginning of a text: what it is replaced by, and what follows it.
abbrev pub Match : Type 0
Match = Option (Line × Line)

-- The second pair of brackets: `open_by` stands before it and `close_by` ends it.
abbrev second : ℕ → ℕ → Line → Line → Match
second open_by close_by text [] = none
second open_by close_by text (c ∷ cs) = elim (c == open_by) [
  | true ↦ elim (upto close_by cs) [ none ↦ none | some (target, rest) ↦ some (text, rest) ]
  | false ↦ none
]

abbrev first : ℕ → ℕ → Line → Match
first open_by close_by cs = elim (upto b']' cs) [
  | none ↦ none
  | some (text, rest) ↦ second open_by close_by text rest
]

abbrev bracketed : ℕ → ℕ → Line → Match
bracketed open_by close_by [] = none
bracketed open_by close_by (c ∷ cs) = if c == b'[' then first open_by close_by cs else none

-- `!?\[([^\]]*)\]\([^)]*\)`, or with other brackets in place of the round ones
unfoldable pub reference : ℕ → ℕ → Line → Match
unfolding upto
reference open_by close_by [] = none
reference open_by close_by (c ∷ cs) =
    if c == b'!' then bracketed open_by close_by cs else bracketed open_by close_by (c ∷ cs)

abbrev closed_tag : Option (Line × Line) → Match
closed_tag none = none
closed_tag (some ([], rest)) = none
closed_tag (some (t ∷ ts, rest)) = some ([], rest)

-- `<[^>]+>`
unfoldable pub tag : Line → Match
unfolding upto
tag [] = none
tag (c ∷ cs) = if c == b'<' then closed_tag (upto b'>' cs) else none

-- re.sub: what is matched counts `skip` characters more.
unfoldable pub substitute : (Line → Match) → ℕ → Line → Line
substitute pattern skip [] = []
substitute pattern (suc skip) (c ∷ cs) = substitute pattern skip cs
substitute pattern zero (c ∷ cs) = elim (pattern (c ∷ cs)) [
  | none ↦ c ∷ substitute pattern zero cs
  | some (text, rest) ↦ text ++ substitute pattern (length cs - length rest) cs
]

-- re.sub(r"[`*]", "", text)
unfoldable pub without_marks : Line → Line
without_marks [] = []
without_marks (c ∷ cs) = if c == b'`' || c == b'*' then without_marks cs else c ∷ without_marks cs

-- The last two lines of `anchor_slug`.
unfoldable pub slugged : (ℕ → Bool) → Line → Line
slugged is_alnum [] = []
slugged is_alnum (c ∷ cs) =
    if is_alnum c || c == b'_' || c == b'-'
    then (if c == b' ' then b'-' else c) ∷ slugged is_alnum cs
    else if c == b' '
    then b'-' ∷ slugged is_alnum cs
    else slugged is_alnum cs

unfoldable pub anchor_slug : Unicode → Line → Line
unfolding reference tag substitute without_marks slugged
anchor_slug u text =
    let inline_links = substitute (reference b'(' b')') 0 text in
    let reference_links = substitute (reference b'[' b']') 0 inline_links in
    slugged u.is_alnum (u.lower (without_marks (substitute tag 0 reference_links)))

abbrev all_are : ℕ → Line → Bool
all_are a [] = true
all_are a (c ∷ cs) = c == a && all_are a cs

abbrev underline : Line → Bool
underline [] = false
underline (c ∷ cs) = (c == b'=' && all_are b'=' cs) || (c == b'-' && all_are b'-' cs)

-- re.fullmatch(r"=+|-+", line.strip())
unfoldable pub is_setext_underline : Line → Bool
unfolding strip
is_setext_underline line = underline (strip line)

abbrev begins_with_space : Line → Bool
begins_with_space [] = false
begins_with_space (c ∷ cs) = is_space c

abbrev ends_or_space : Line → Bool
ends_or_space [] = true
ends_or_space (c ∷ cs) = is_space c

abbrev is_prefix : Line → Line → Bool
is_prefix word line = elim (after word line) [ none ↦ false | some rest ↦ true ]

-- `^#{1,6}(\s|$)`
unfoldable pub is_atx : Line → Bool
unfolding run drop is_space
is_atx line = let n = run b'#' line in leb 1 n && leb n 6 && ends_or_space (drop n line)

-- `^(>|\||```|~~~)`
unfoldable pub is_block : Line → Bool
unfolding after
is_block line =
    is_prefix (codes ">") line
    || is_prefix (codes "|") line
    || is_prefix (codes "```") line
    || is_prefix (codes "~~~") line

-- `[.)]\s`, behind the digits
abbrev numbered_rest : Line → Bool
numbered_rest [] = false
numbered_rest (c ∷ cs) = (c == b'.' || c == b')') && begins_with_space cs

abbrev number_mark : (ℕ → Bool) → Line → Bool
number_mark is_digit [] = false
number_mark is_digit (c ∷ cs) = (is_digit c && (number_mark is_digit cs || numbered_rest cs))

abbrev bullet : Line → Bool
bullet [] = false
bullet (c ∷ cs) = (c == b'-' || c == b'*' || c == b'+') && begins_with_space cs

-- `^([-*+]|\d+[.)])\s`
unfoldable pub is_item : (ℕ → Bool) → Line → Bool
unfolding is_space
is_item is_digit line = bullet line || number_mark is_digit line

unfoldable pub is_paragraph_line : Unicode → Line → Bool
unfolding strip is_atx is_block is_item after
is_paragraph_line u line =
    let stripped = strip line in
    not (line_eq stripped [])
    && not (is_atx stripped)
    && not (is_block stripped)
    && not (is_item u.is_digit stripped)
    && not (is_prefix (codes "    ") line)
