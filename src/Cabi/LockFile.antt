-- ===== src/Cabi/LockFile.antt =====
-- scripts/check-c-abi.py: the text of the lock, as `check_abi_lock` writes and reads it.
use mathlib.Core.List.{append_assoc, append-nil}
use antfarm.Prelude.{
  ℕ, ◌≡◌, ◌⊎◌, inl, inr, refl, ap, ◌∙◌, Bool, true, false, ◌&&◌, ◌||◌, List, [], ◌∷◌, ◌++◌, leb,
  ◌==◌, if◌then◌else◌, All, arith,
}
use antfarm.Text.{Line, codes}

-- ABI_LOCK_HEADER, by its lines
abbrev header_line : Line
header_line = codes "# C ABI 1 lock: header prototypes, numeric constants and struct layouts."

abbrev header_rest : List Line
header_rest =
    codes "# The declaration audit in scripts/check-c-abi.py fails on any difference."
    ∷ codes "# Within ABI 1 only additions are compatible; regenerate deliberately with"
    ∷ codes "# scripts/check-c-abi.py --write-abi-lock and review the diff."
    ∷ []

abbrev pub lock_header : List Line
lock_header = header_line ∷ header_rest

-- "\n".join(lines)
unfoldable pub join_lines : List Line → Line
join_lines [] = []
join_lines (line ∷ []) = line
join_lines (line ∷ next ∷ lines) = line ++ b'\n' ∷ join_lines (next ∷ lines)

-- ABI_LOCK_HEADER + "\n".join(rows) + "\n"
unfoldable pub lock_text : List Line → Line
unfolding join_lines
lock_text rows = (join_lines lock_header ++ b'\n' ∷ []) ++ (join_lines rows ++ b'\n' ∷ [])

-- A character at which str.splitlines ends a line.
unfoldable pub is_break : ℕ → Bool
is_break c = (leb 10 c && leb c 13) || (leb 28 c && leb c 30) || c == 133 || c == 8232 || c == 8233

-- "\r\n" is one line break.
abbrev pub is_return : ℕ → Line → Bool
is_return c [] = false
is_return c (d ∷ cs) = c == b'\r' && d == b'\n'

abbrev pub add_first : ℕ → List Line → List Line
add_first c [] = (c ∷ []) ∷ []
add_first c (line ∷ lines) = (c ∷ line) ∷ lines

-- text.splitlines(); the line breaks that read_text makes of others end the same lines.
unfoldable pub splitlines : Line → List Line
unfolding is_break
splitlines [] = []
splitlines (c ∷ cs) =
    let rest = splitlines cs in
    if is_return c cs then rest else if is_break c then [] ∷ rest else add_first c rest

abbrev has_break : Line → Bool
has_break [] = false
has_break (c ∷ cs) = is_break c || has_break cs

-- No character of the line ends it.
abbrev pub IsUnbroken : Line → Type 0
IsUnbroken line = has_break line ≡ false

neither : (a b : Bool) → (a || b) ≡ false → (a ≡ false) × (b ≡ false)
neither true b h = absurd (clash h)
  where
    clash : true ≡ false → ⊥
    clash h = cc
neither false b h = (refl, h)

splitlines-line :
    (line rest : Line)
    → IsUnbroken line
    → splitlines (line ++ b'\n' ∷ rest) ≡ line ∷ splitlines rest
unfolding splitlines
splitlines-line [] [] h = refl
splitlines-line [] (c ∷ cs) h = refl
splitlines-line (c ∷ cs) rest h =
    let (b, k) = neither (is_break c) (has_break cs) h in
    rw (no_return b (cs ++ b'\n' ∷ rest), b, splitlines-line cs rest k) refl
  where
    no_return : is_break c ≡ false → (ds : Line) → is_return c ds ≡ false
    no_return b [] = refl
    no_return b (d ∷ ds) = ground (arith, b)

-- Lines that are joined and ended come back, in front of what follows.
splitlines-join_lines :
    (line : Line) (lines : List Line) (rest : Line)
    → All IsUnbroken (line ∷ lines)
    → splitlines (join_lines (line ∷ lines) ++ b'\n' ∷ rest) ≡ line ∷ (lines ++ splitlines rest)
unfolding join_lines
splitlines-join_lines line [] rest (h, k) = splitlines-line line rest h
splitlines-join_lines line (next ∷ lines) rest (h, k) =
    ap splitlines (append_assoc line (b'\n' ∷ join_lines (next ∷ lines)) (b'\n' ∷ rest))
    ∙ splitlines-line line (join_lines (next ∷ lines) ++ b'\n' ∷ rest) h
    ∙ ap (λ ls. line ∷ ls) (splitlines-join_lines next lines rest k)

header-lines :
    (rest : Line)
    → splitlines (join_lines lock_header ++ b'\n' ∷ rest) ≡ lock_header ++ splitlines rest
unfolding is_break
header-lines rest =
    splitlines-join_lines header_line header_rest rest (refl, (refl, (refl, (refl, tt))))

rows-lines :
    (rows : List Line)
    → All IsUnbroken rows
    → (splitlines (join_lines rows ++ b'\n' ∷ []) ≡ rows)
      ⊎ (splitlines (join_lines rows ++ b'\n' ∷ []) ≡ [] ∷ rows)
unfolding splitlines join_lines is_break
rows-lines [] h = inr refl
rows-lines (row ∷ rows) h =
    inl (splitlines-join_lines row rows [] h ∙ ap (λ ls. row ∷ ls) (append-nil rows))

-- The lines of the file are the header and the rows, with an empty line when there is no row.
pub splitlines-lock_text :
    (rows : List Line)
    → All IsUnbroken rows
    → (splitlines (lock_text rows) ≡ lock_header ++ rows)
      ⊎ (splitlines (lock_text rows) ≡ lock_header ++ [] ∷ rows)
unfolding lock_text
splitlines-lock_text rows h = elim (rows-lines rows h) [
  | inl e ↦ inl (start ∙ ap (λ ls. lock_header ++ ls) e)
  | inr e ↦ inr (start ∙ ap (λ ls. lock_header ++ ls) e)
]
  where
    start : splitlines (lock_text rows) ≡ lock_header ++ splitlines (join_lines rows ++ b'\n' ∷ [])
    start =
        ap splitlines
          (append_assoc (join_lines lock_header) (b'\n' ∷ []) (join_lines rows ++ b'\n' ∷ []))
        ∙ header-lines (join_lines rows ++ b'\n' ∷ [])
