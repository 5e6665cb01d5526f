-- ===== src/Api/Scopes.antt =====
-- scripts/check-api-docs.py: the labels of `scan_protections` and the braces of the source.
use antfarm.Prelude.{
  ℕ, zero, suc, ◌+◌, ◌-◌, ◌≤◌, ◌<◌, ◌≡◌, refl, ap, ◌∙◌, Bool, List, [], ◌∷◌, ◌++◌, Option, none,
  some, String, length, arith,
}
use antfarm.Text.{Line, count}
use antfarm.Api.Protections.{label_of, prefix_of, push, pop, own, entry, scan_line, scan_lines}

-- The braces of a line without a label open and close scopes, none of them below the `depth` scopes
-- that are open; a label stands inside one of these.
abbrev pub line_depth : Option String → Line → ℕ → ℕ
line_depth (some label) line depth = depth
line_depth none line depth = depth + count b'{' line - count b'}' line

abbrev pub Within : Option String → Line → ℕ → Type 0
Within (some label) line depth = 0 < depth
Within none line depth = count b'}' line ≤ depth + count b'{' line

-- Lines that begin and end with `depth` and `last` open scopes, and close no other.
abbrev pub Scoped : ℕ → List Line → ℕ → Type 0
Scoped depth [] last = depth ≡ last
Scoped depth (line ∷ lines) last =
    Within (label_of line) line depth × Scoped (line_depth (label_of line) line depth) lines last

push-append :
    (n : ℕ) (label : String) (labels base : List String)
    → push n label (labels ++ base) ≡ push n label labels ++ base
unfolding push
push-append zero label labels base = refl
push-append (suc n) label labels base = ap (λ ls. label ∷ ls) (push-append n label labels base)

length-push :
    (n : ℕ) (label : String) (labels : List String)
    → length (push n label labels) ≡ n + length labels
unfolding push
length-push zero label labels = omega arith
length-push (suc n) label labels = omega (arith, length-push n label labels)

-- Popping no more labels than stand above a base that has one leaves the base alone.
pop-append :
    (n : ℕ) (labels : List String) (b : String) (base : List String)
    → n ≤ length labels
    → (rest : List String) × (pop n (labels ++ b ∷ base) ≡ rest ++ b ∷ base)
      × (length rest + n ≡ length labels)
unfolding pop
pop-append zero labels b base h = (labels, refl, omega arith)
pop-append (suc n) [] b base h = absurd (omega arith)
pop-append (suc n) (l ∷ []) b base h =
    let (rest, e, k) = pop-append n [] b base (omega arith) in (rest, e, omega arith)
pop-append (suc n) (l ∷ m ∷ labels) b base h =
    let (rest, e, k) = pop-append n (m ∷ labels) b base (omega arith) in (rest, e, omega arith)

-- The labels behind a line without a label.
popped :
    (opening closing : ℕ) (active : String) (inner : List String) (b : String) (base : List String)
    → closing ≤ length inner + opening
    → (next : List String) × (pop closing (push opening active (inner ++ b ∷ base))
        ≡ next ++ b ∷ base)
      × (length next ≡ length inner + opening - closing)
popped opening closing active inner b base h =
    let (next, e, k) =
      pop-append closing (push opening active inner) b base
        (omega (arith, length-push opening active inner)) in
    (next, rw push-append e, omega (arith, length-push opening active inner))

module _ (is_letter : ℕ → Bool) where
  line_scoped :
      (line : Line) (inner : List String) (b : String) (base : List String)
      → Within (label_of line) line (length inner)
      → (e : Option String) × (next : List String) × (scan_line is_letter line (inner ++ b ∷ base)
          ≡ some (e, next ++ b ∷ base))
        × (length next ≡ line_depth (label_of line) line (length inner))
  unfolding scan_line
  line_scoped line inner b base w = go inner (label_of line) refl w
    where
      go :
          (inner : List String) (label : Option String)
          → label_of line ≡ label
          → Within label line (length inner)
          → (e : Option String) × (next : List String) × (scan_line is_letter line
                (inner ++ b ∷ base)
              ≡ some (e, next ++ b ∷ base))
            × (length next ≡ line_depth label line (length inner))
      go [] (some label) e w = absurd (omega arith)
      go (x ∷ inner) (some label) e w = (none, label ∷ inner, rw (e, scan_line) refl, refl)
      go [] none e w =
          let (next, p, k) = popped (count b'{' line) (count b'}' line) b [] b base w in
          (some (own (prefix_of is_letter line) b), next, rw (e, scan_line, p) refl, k)
      go (x ∷ inner) none e w =
          let (next, p, k) = popped (count b'{' line) (count b'}' line) x (x ∷ inner) b base w in
          (some (own (prefix_of is_letter line) x), next, rw (e, scan_line, p) refl, k)

  -- Scanning lines that close no scope but those they open, and no label of theirs stands outside
  -- these, leaves the labels below as they were.
  scan_lines-Scoped :
      (lines : List Line) (number : ℕ) (inner : List String) (b : String) (base : List String)
      (last : ℕ)
      → Scoped (length inner) lines last
      → (entries : List (ℕ × String)) × (next : List String) × (scan_lines is_letter number lines
            (inner ++ b ∷ base)
          ≡ some (entries, next ++ b ∷ base))
        × (length next ≡ last)
  unfolding scan_lines
  scan_lines-Scoped [] number inner b base last h = ([], inner, refl, h)
  scan_lines-Scoped (line ∷ lines) number inner b base last (w, h) =
      let (e, next, p, k) = line_scoped line inner b base w in
      let (entries, final, q, l) = scan_lines-Scoped lines (suc number) next b base last (rw k h) in
      (entry number e ++ entries, final, rw (p, scan_lines, q) refl, l)

  length-nil : (xs : List String) → length xs ≡ 0 → xs ≡ []
  length-nil [] h = refl
  length-nil (x ∷ xs) h = absurd (omega arith)

  -- A block: lines that close exactly the scopes that they open, with labels only inside these. The
  -- labels behind a block are those in front of it, so its labels hold for no line behind it.
  pub scan_lines-block :
      (lines : List Line) (number : ℕ) (active : String) (labels : List String)
      → Scoped 0 lines 0
      → (entries : List (ℕ × String)) × (scan_lines is_letter number lines (active ∷ labels)
          ≡ some (entries, active ∷ labels))
  scan_lines-block lines number active labels h =
      let (entries, next, p, l) = scan_lines-Scoped lines number [] active labels 0 h in
      (entries, p ∙ ap (λ ls. some (entries, ls ++ active ∷ labels)) (length-nil next l))
