-- ===== src/Api/Protections.antt =====
-- scripts/check-api-docs.py: `scan_protections`. Protections are the keywords; `labels` is a list with
-- its last element first, and `none` stands for an exception.
use antfarm.Prelude.{
  ℕ, zero, suc, ◌≡◌, refl, Bool, true, false, ◌&&◌, ◌||◌, not, List, [], ◌∷◌, ◌++◌, Option, none,
  some, String, leb, ◌==◌, if◌then◌else◌,
}
use antfarm.Text.{Line, codes, lstrip, after, count}
use antfarm.Api.Comments.{Closer, strip_comments}

abbrev keywords : List String
keywords = "public" ∷ "private" ∷ "package" ∷ "protected" ∷ "export" ∷ []

-- `(public|private|...)` at the beginning of a text, with what follows; no keyword begins another.
unfoldable keyword_in : List String → Line → Option (String × Line)
unfolding after
keyword_in [] text = none
keyword_in (k ∷ ks) text = elim (after (codes k) text) [
  | some rest ↦ some (k, rest)
  | none ↦ keyword_in ks text
]

-- `\s*(public|private|...)`
unfoldable keyword_of : Line → Option (String × Line)
unfolding keyword_in lstrip
keyword_of line = keyword_in keywords (lstrip line)

abbrev starts_with_colon : Line → Bool
starts_with_colon [] = false
starts_with_colon (c ∷ cs) = c == b':'

-- `\s*(public|private|...)\s*:`
unfoldable pub label_of : Line → Option String
unfolding keyword_of
label_of line = elim (keyword_of line) [
  | none ↦ none
  | some (k, rest) ↦ if starts_with_colon (lstrip rest) then some k else none
]

abbrev within : ℕ → ℕ → ℕ → Bool
within lo hi c = leb lo c && leb c hi

-- labels.extend([labels[-1]] * opening), where labels[-1] is `label`
unfoldable pub push : ℕ → String → List String → List String
push zero label labels = labels
push (suc n) label labels = label ∷ push n label labels

-- for _ in range(closing): if len(labels) > 1: labels.pop()
unfoldable pub pop : ℕ → List String → List String
pop zero labels = labels
pop (suc n) [] = pop n []
pop (suc n) (l ∷ []) = pop n (l ∷ [])
pop (suc n) (l ∷ m ∷ labels) = pop n (m ∷ labels)

-- prefix.group(1) if prefix else labels[-1]
abbrev pub own : Option String → String → String
own none active = active
own (some k) active = k

abbrev pub entry : ℕ → Option String → List (ℕ × String)
entry number none = []
entry number (some protection) = (number, protection) ∷ []

-- stripped.append(strip_comments(line, state))
unfoldable pub strip_lines : List Line → List Closer → List Line
unfolding strip_comments
strip_lines [] state = []
strip_lines (line ∷ lines) state =
    let (text, next_state) = strip_comments line state in text ∷ strip_lines lines next_state

module _ (is_letter : ℕ → Bool) where
  -- `\w`: `is_letter` says it of the characters beyond ASCII.
  unfoldable is_word : ℕ → Bool
  is_word c =
      within b'a' b'z' c
      || within b'A' b'Z' c
      || within b'0' b'9' c
      || c == b'_'
      || (leb 128 c && is_letter c)

  unfoldable at_boundary : Line → Bool
  unfolding is_word
  at_boundary [] = true
  at_boundary (c ∷ cs) = not (is_word c)

  -- `\s*(public|private|...)\b`
  unfoldable pub prefix_of : Line → Option String
  unfolding keyword_of at_boundary
  prefix_of line = elim (keyword_of line) [
    | none ↦ none
    | some (k, rest) ↦ if at_boundary rest then some k else none
  ]

  -- The body of the loop: the entry of the line, if it gets one, and the labels behind it.
  unfoldable pub scan_line : Line → List String → Option (Option String × List String)
  unfolding label_of prefix_of push pop count
  scan_line line [] = none
  scan_line line (active ∷ labels) = elim (label_of line) [
    | some label ↦ some (none, label ∷ labels)
    | none ↦ some (
      some (own (prefix_of line) active),
      pop (count b'}' line) (push (count b'{' line) active (active ∷ labels)),
    )
  ]

  -- for number, line in enumerate(lines, number): the entries, and the labels at the end
  unfoldable pub scan_lines : ℕ → List Line → List String → Option (List (ℕ × String) × List String)
  unfolding scan_line
  scan_lines number [] labels = some ([], labels)
  scan_lines number (line ∷ lines) labels = elim (scan_line line labels) [
    | none ↦ none
    | some (e, next_labels) ↦ elim (scan_lines (suc number) lines next_labels) [
      | none ↦ none
      | some (entries, last) ↦ some (entry number e ++ entries, last)
    ]
  ]

  -- `lines` are those of the file.
  unfoldable pub scan_protections : List Line → Option (List (ℕ × String))
  unfolding strip_lines scan_lines
  scan_protections lines = elim (scan_lines 1 (strip_lines lines []) ("public" ∷ [])) [
    | none ↦ none
    | some (entries, labels) ↦ some entries
  ]

scanned :
    scan_protections
      (λ c. true)
      (codes "struct S {"
        ∷ codes "private:"
        ∷ codes "  int a; // public:"
        ∷ codes "  public int b;"
        ∷ codes "}"
        ∷ codes "int c;"
        ∷ [])
    ≡ some ((1, "public") ∷ (3, "private") ∷ (4, "public") ∷ (5, "private") ∷ (6, "public") ∷ [])
unfolding scan_protections
scanned = refl
