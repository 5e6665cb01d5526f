-- ===== src/Links/Headings.antt =====
-- scripts/check-doc-links.py: `anchors`.
use antfarm.Prelude.{
  ℕ, zero, suc, ◌+◌, ◌-◌, ◌≡◌, refl, Bool, true, false, ◌&&◌, ◌||◌, not, List, [], ◌∷◌, ◌++◌,
  Option, none, some, leb, ◌==◌, if◌then◌else◌, length,
}
use antfarm.Text.{Line, codes, is_space, lstrip, is_visible, strip, after, drop, line_eq}
use antfarm.Runner.Texts.{decimal}
use antfarm.Links.Fences.{run, unfence}
use antfarm.Links.Anchors.{Unicode, anchor_slug, is_setext_underline, is_paragraph_line}

-- `\s*#*$`
unfoldable pub is_trailer : Line → Bool
unfolding run lstrip drop
is_trailer line = let rest = lstrip line in run b'#' rest == length rest

-- `(.+?)` in front of `\s*#*$`
unfoldable pub shortest : Line → Line
unfolding is_trailer
shortest [] = []
shortest (c ∷ cs) = elim (is_trailer cs) [ true ↦ c ∷ [] | false ↦ c ∷ shortest cs ]

-- The last character of the blanks `c ∷ cs`, where `\s+` leaves one for `(.+?)`.
unfoldable pub last_blank : ℕ → Line → Option Line
last_blank c [] = none
last_blank c (d ∷ []) = some (d ∷ [])
last_blank c (d ∷ e ∷ cs) = last_blank d (e ∷ cs)

-- `\s+(.+?)\s*#*$`
unfoldable pub title_of : Line → Option Line
unfolding is_space lstrip shortest last_blank
title_of [] = none
title_of (c ∷ cs) = elim (is_space c) [
  | true ↦ elim (lstrip cs) [ [] ↦ last_blank c cs | ◌∷◌ t ts ↦ some (shortest (t ∷ ts)) ]
  | false ↦ none
]

abbrev pub hashes : Line → Option Line
hashes line = let n = run b'#' line in if leb 1 n && leb n 6 then title_of (drop n line) else none

-- `^\s{0,3}#{1,6}\s+(.+?)\s*#*$`
unfoldable pub heading_of : Line → Option Line
unfolding run drop lstrip title_of
heading_of line = if leb (length line - length (lstrip line)) 3 then hashes (lstrip line) else none

-- (?:id|name)= and a quote
abbrev or_else : Option Line → Option Line → Option Line
or_else none f = f
or_else (some f) g = some f

abbrev quoted : Line → Option Line
quoted [] = none
quoted (c ∷ cs) = if c == b'"' || c == b'\'' then some cs else none

abbrev value_of : Option Line → Option Line
value_of none = none
value_of (some rest) = quoted rest

-- `[^"\']+`
unfoldable pub unquoted : Line → Line
unquoted [] = []
unquoted (c ∷ cs) = if c == b'"' || c == b'\'' then [] else c ∷ unquoted cs

-- What follows `(?:id|name)=["\']` at the beginning of a text.
unfoldable pub attribute : Line → Option Line
unfolding after
attribute line =
    or_else (value_of (after (codes "id=") line)) (value_of (after (codes "name=") line))

-- re.findall: a match counts `skip` characters more.
unfoldable pub attributes : ℕ → Line → List Line
unfolding attribute unquoted
attributes skip [] = []
attributes (suc skip) (c ∷ cs) = attributes skip cs
attributes zero (c ∷ cs) = elim (attribute (c ∷ cs)) [
  | none ↦ attributes zero cs
  | some rest ↦ elim (unquoted rest) [
    | [] ↦ attributes zero cs
    | ◌∷◌ v vs ↦ (v ∷ vs) ∷ attributes (length cs - length rest + length (v ∷ vs)) cs
  ]
]

-- `hits` is a Counter, with the texts in it; a set is a list of its elements.
pub record Anchors : Type 0 where
  pub hits : List (Line × ℕ)
  pub ids : List Line

-- hits[slug]
unfoldable pub count_of : Line → List (Line × ℕ) → ℕ
count_of s [] = 0
count_of s ((t, n) ∷ hits) = if line_eq s t then n else count_of s hits

-- hits[slug] += 1
unfoldable pub counted : Line → List (Line × ℕ) → List (Line × ℕ)
counted s [] = (s, 1) ∷ []
counted s ((t, n) ∷ hits) = if line_eq s t then (t, suc n) ∷ hits else (t, n) ∷ counted s hits

-- slug + ("-" + str(count) if count else "")
unfoldable pub numbered : Line → ℕ → Line
unfolding decimal
numbered slug zero = slug
numbered slug (suc n) = slug ++ codes "-" ++ codes (decimal (suc n))

abbrev pub add_slug : Line → Anchors → Anchors
add_slug [] a = a
add_slug (c ∷ cs) a = record {
  hits = counted (c ∷ cs) a.hits;
  ids = numbered (c ∷ cs) (count_of (c ∷ cs) a.hits) ∷ a.ids;
}

-- `previous` and the state
abbrev pub Reader : Type 0
Reader = Option Line × Anchors

abbrev pub with_ids : List Line → Anchors → Anchors
with_ids values a = record { hits = a.hits; ids = values ++ a.ids }

module _ (u : Unicode) where
  unfoldable pub add : Line → Anchors → Anchors
  unfolding anchor_slug count_of counted numbered
  add text a = add_slug (anchor_slug u text) a

  abbrev pub add_previous : Option Line → Anchors → Anchors
  add_previous none a = a
  add_previous (some text) a = add text a

  abbrev subject : Line → Option Line
  subject line = if is_paragraph_line u line then some (strip line) else none

  abbrev pub text_line : Line → Option Line → Anchors → Reader
  text_line line (some title) a = (none, add title a)
  text_line line none a = (subject line, a)

  -- A round of the loop.
  unfoldable pub read_line : Line → Reader → Reader
  unfolding is_setext_underline is_visible heading_of is_paragraph_line strip attributes add
  read_line line (previous, a) =
      if is_setext_underline line
      then (none, add_previous previous a)
      else if not (is_visible line)
      then (none, a)
      else let next = text_line line (heading_of line) a in
        (next.0, with_ids (attributes 0 line) next.1)

  unfoldable pub read_lines : List Line → Reader → Reader
  unfolding read_line
  read_lines [] r = r
  read_lines (line ∷ lines) r = read_lines lines (read_line line r)

  -- `lines` are those of the page's text.
  unfoldable pub anchors : List Line → List Line
  unfolding unfence read_lines
  anchors lines = (read_lines (unfence lines) (none, record { hits = []; ids = [] })).1.ids

abbrev pub ascii : Unicode
ascii = record {
  lower = λ line. line;
  is_alnum = λ c. (leb b'a' c && leb c b'z') || (leb b'0' c && leb c b'9');
  is_digit = λ c. leb b'0' c && leb c b'9';
}

slug : anchor_slug ascii (codes "a `b` [c d](e) <i>f![g][h]") ≡ codes "a-b-c-d-fg"
unfolding anchor_slug
slug = refl

ids :
    anchors ascii (
      codes "# a b #"
      ∷ codes "a b"
      ∷ codes "==="
      ∷ codes "  ## c ##d"
      ∷ codes "<a id='x y' name=\"z\">"
      ∷ codes "---"
      ∷ codes "#  "
      ∷ [])
    ≡ codes "-" ∷ codes "x y" ∷ codes "z" ∷ codes "c-d" ∷ codes "a-b-1" ∷ codes "a-b" ∷ []
unfolding anchors anchor_slug line_eq
ids = refl
