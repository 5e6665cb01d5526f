-- ===== src/Api/Entries.antt =====
-- scripts/check-api-docs.py: the lines to which `scan_protections` gives a protection.
use antfarm.Prelude.{
  ℕ, zero, suc, ◌≡◌, refl, Bool, List, [], ◌∷◌, ◌++◌, map, Option, none, some, String,
}
use mathlib.Core.List.{map-append}
use antfarm.Text.{Line, count}
use antfarm.Api.Protections.{
  label_of, prefix_of, push, pop, own, entry, scan_line, scan_lines, strip_lines, scan_protections,
}

abbrev pub numbered : Option String → ℕ → List ℕ
numbered none number = number ∷ []
numbered (some label) number = []

-- The numbers of the lines without a label.
abbrev pub unlabelled : ℕ → List Line → List ℕ
unlabelled number [] = []
unlabelled number (line ∷ lines) = numbered (label_of line) number ++ unlabelled (suc number) lines

abbrev pub number_of : ℕ × String → ℕ
number_of (number, protection) = number

pop_nonempty :
    (n : ℕ) (l : String) (labels : List String)
    → (m : String) × (rest : List String) × (pop n (l ∷ labels) ≡ m ∷ rest)
unfolding pop
pop_nonempty zero l labels = (l, labels, refl)
pop_nonempty (suc n) l [] = pop_nonempty n l []
pop_nonempty (suc n) l (m ∷ labels) = pop_nonempty n m labels

push_nonempty :
    (n : ℕ) (label : String) (labels : List String)
    → (m : String) × (rest : List String) × (push n label (label ∷ labels) ≡ m ∷ rest)
unfolding push
push_nonempty zero label labels = (label, labels, refl)
push_nonempty (suc n) label labels = (label, push n label (label ∷ labels), refl)

module _ (is_letter : ℕ → Bool) where
  line_entry :
      (line : Line) (number : ℕ) (l : String) (labels : List String)
      → (e : Option String) × (m : String) × (rest : List String) × (scan_line is_letter line
            (l ∷ labels)
          ≡ some (e, m ∷ rest))
        × (map number_of (entry number e) ≡ numbered (label_of line) number)
  unfolding scan_line
  line_entry line number l labels = go (label_of line) refl
    where
      go :
          (label : Option String)
          → label_of line ≡ label
          → (e : Option String) × (m : String) × (rest : List String) × (scan_line is_letter line
                (l ∷ labels)
              ≡ some (e, m ∷ rest))
            × (map number_of (entry number e) ≡ numbered label number)
      go (some label) f = (none, label, labels, rw (f, scan_line) refl, refl)
      go none f =
          let (m, ms, p) = push_nonempty (count b'{' line) l labels in
          let (k, ks, q) = pop_nonempty (count b'}' line) m ms in
          (some (own (prefix_of is_letter line) l), k, ks, rw (f, scan_line, p, q) refl, refl)

  scan_lines_total :
      (lines : List Line) (number : ℕ) (l : String) (labels : List String)
      → (entries : List (ℕ × String)) × (final : List String) × (scan_lines is_letter number lines
            (l ∷ labels)
          ≡ some (entries, final))
        × (map number_of entries ≡ unlabelled number lines)
  unfolding scan_lines
  scan_lines_total [] number l labels = ([], l ∷ labels, refl, refl)
  scan_lines_total (line ∷ lines) number l labels =
      let (e, m, rest, p, k) = line_entry line number l labels in
      let (entries, final, q, j) = scan_lines_total lines (suc number) m rest in
      (entry number e ++ entries, final, rw (p, scan_lines, q) refl, rw (map-append, k, j) refl)

  -- `scan_protections` raises nothing, and gives one protection to each line that has no label once
  -- its comments are gone, in order, and none to the others.
  pub scan_protections_total :
      (lines : List Line)
      → (entries : List (ℕ × String)) × (scan_protections is_letter lines ≡ some entries)
        × (map number_of entries ≡ unlabelled 1 (strip_lines lines []))
  unfolding scan_protections
  scan_protections_total lines =
      let (entries, final, p, k) = scan_lines_total (strip_lines lines []) 1 "public" [] in
      (entries, rw (p, scan_protections) refl, k)
