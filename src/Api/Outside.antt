-- ===== src/Api/Outside.antt =====
-- scripts/check-api-docs.py: `strip_comments` leaves the text outside the comments.
use antfarm.Prelude.{
  ℕ, zero, suc, ◌+◌, ◌≤◌, ◌<◌, ◌≡◌, refl, sym, ap, ◌∙◌, Bool, true, false, ◌&&◌, List, [], ◌∷◌,
  Option, none, some, ◌==◌, length, arith,
}
use antfarm.Text.{Line, drop, take, length-drop}
use antfarm.Api.Comments.{
  Closer, star, plus, next, Marker, line_comment, block_comment, nesting_comment, find,
  first_marker, earliest, open_again, keep, strip_within, strip_comments,
}
use antfarm.Api.Automaton.{
  outside, behind, after_plus, outside-star, outside-plus, find_here, find_later, drop_next,
}

-- A marker, counted from one character before.
abbrev shift : Option (ℕ × Marker) → Option (ℕ × Marker)
shift none = none
shift (some (p, m)) = some (suc p, m)

earliest-next : (a b c : Option ℕ) → earliest (next a) (next b) (next c) ≡ shift (earliest a b c)
earliest-next none none none = refl
earliest-next none none (some c) = refl
earliest-next none (some b) none = refl
earliest-next none (some b) (some c) = ground arith
earliest-next (some a) none none = refl
earliest-next (some a) none (some c) = ground arith
earliest-next (some a) (some b) none = ground arith
earliest-next (some a) (some b) (some c) = ground arith

earliest_line : (b c : Option ℕ) → earliest (some 0) (next b) (next c) ≡ some (0, line_comment)
earliest_line none none = refl
earliest_line none (some c) = ground arith
earliest_line (some b) none = ground arith
earliest_line (some b) (some c) = ground arith

earliest_block : (a c : Option ℕ) → earliest (next a) (some 0) (next c) ≡ some (0, block_comment)
earliest_block none none = refl
earliest_block none (some c) = ground arith
earliest_block (some a) none = ground arith
earliest_block (some a) (some c) = ground arith

earliest_nesting :
    (a b : Option ℕ) → earliest (next a) (next b) (some 0) ≡ some (0, nesting_comment)
earliest_nesting none none = refl
earliest_nesting none (some b) = ground arith
earliest_nesting (some a) none = ground arith
earliest_nesting (some a) (some b) = ground arith

-- What follows outside the comments, from the first marker.
abbrev at_marker : Line → Option (ℕ × Marker) → Line × List Closer
at_marker rest none = (rest, [])
at_marker rest (some (p, line_comment)) = (take p rest, [])
at_marker rest (some (p, block_comment)) =
    keep (take p rest) (outside (star ∷ []) (drop (p + 2) rest))
at_marker rest (some (p, nesting_comment)) =
    keep (take p rest) (outside (plus ∷ []) (drop (p + 2) rest))

at_marker-shift :
    (c : ℕ) (rest : Line) (m : Option (ℕ × Marker))
    → at_marker (c ∷ rest) (shift m) ≡ keep (c ∷ []) (at_marker rest m)
unfolding take
at_marker-shift c rest none = refl
at_marker-shift c rest (some (p, line_comment)) = refl
at_marker-shift c rest (some (p, block_comment)) = rw drop_next refl
at_marker-shift c rest (some (p, nesting_comment)) = rw drop_next refl

outside-nil : (rest : Line) → outside [] rest ≡ at_marker rest (first_marker rest)
unfolding outside drop take first_marker
outside-nil [] = unfold find in refl
outside-nil (c ∷ []) = unfold find in refl
outside-nil (c ∷ d ∷ rest) =
    go (c == b'/' && d == b'/') refl (c == b'/' && d == b'*') refl (c == b'/' && d == b'+') refl
      (outside-nil (d ∷ rest))
  where
    block_only : (c == b'/' && d == b'*') ≡ true → (c == b'/' && d == b'+') ≡ false
    block_only e = ground arith

    line_only : (c == b'/' && d == b'/') ≡ true → (c == b'/' && d == b'*') ≡ false
    line_only e = ground arith

    line_alone : (c == b'/' && d == b'/') ≡ true → (c == b'/' && d == b'+') ≡ false
    line_alone e = ground arith

    go :
        (t : Bool)
        → (c == b'/' && d == b'/') ≡ t
        → (u : Bool) → (c == b'/' && d == b'*') ≡ u
        → (v : Bool) → (c == b'/' && d == b'+') ≡ v
        → outside [] (d ∷ rest) ≡ at_marker (d ∷ rest) (first_marker (d ∷ rest))
        → (elim t [
          | true ↦ ([], [])
          | false ↦ elim u [
            | true ↦ outside (star ∷ []) rest
            | false ↦ elim v [
              | true ↦ outside (plus ∷ []) rest
              | false ↦ keep (c ∷ []) (outside [] (d ∷ rest))
            ]
          ]
        ])
          ≡ at_marker (c ∷ d ∷ rest) (first_marker (c ∷ d ∷ rest))
    go true e u f v g ih =
        rw
          (
            find_here _ _ c d rest e,
            find_later _ _ c d rest (line_only e),
            find_later _ _ c d rest (line_alone e),
            earliest_line,
          )
          refl
    go false e true f v g ih =
        rw
          (
            find_later _ _ c d rest e,
            find_here _ _ c d rest f,
            find_later _ _ c d rest (block_only f),
            earliest_block,
          )
          refl
    go false e false f true g ih =
        rw
          (
            find_later _ _ c d rest e,
            find_later _ _ c d rest f,
            find_here _ _ c d rest g,
            earliest_nesting,
          )
          refl
    go false e false f false g ih =
        rw
          (
            find_later _ _ c d rest e,
            find_later _ _ c d rest f,
            find_later _ _ c d rest g,
            earliest-next,
            at_marker-shift,
          )
          (ap (keep (c ∷ [])) ih)

two_more : (p : ℕ) → p + 2 ≡ suc (suc p)
two_more p = omega arith

length-drop_pos : (p c : ℕ) (cs : Line) → length (drop (p + 2) (c ∷ cs)) ≤ length cs
unfolding drop
length-drop_pos p c cs = rw two_more (length-drop (suc p) cs)

-- The rounds after one that found a comment, and after one that found no comment open.
module _ (fuel c : ℕ) (cs : Line)
    (rounds : (state : List Closer) (rest : Line)
      → length rest ≤ length cs
      → strip_within fuel state rest ≡ outside state rest) where
  closed_round :
      (closer : Closer) (state : List Closer) (p : Option ℕ)
      → (elim p [
        | some p ↦ strip_within fuel state (drop (p + 2) (c ∷ cs))
        | none ↦ ([], closer ∷ state)
      ])
        ≡ behind state closer (c ∷ cs) p
  closed_round closer state none = refl
  closed_round closer state (some p) = rounds state (drop (p + 2) (c ∷ cs)) (length-drop_pos p c cs)

  plus_round :
      (state : List Closer) (o p : Option ℕ)
      → (elim o [
        | some o ↦ strip_within fuel (plus ∷ plus ∷ state) (drop (o + 2) (c ∷ cs))
        | none ↦ elim p [
          | some p ↦ strip_within fuel state (drop (p + 2) (c ∷ cs))
          | none ↦ ([], plus ∷ state)
        ]
      ])
        ≡ after_plus state (c ∷ cs) p o
  plus_round state none p = closed_round plus state p
  plus_round state (some o) p =
      rounds (plus ∷ plus ∷ state) (drop (o + 2) (c ∷ cs)) (length-drop_pos o c cs)

  open_round :
      (m : Option (ℕ × Marker))
      → (elim m [
        | none ↦ (c ∷ cs, [])
        | some (p, line_comment) ↦ (take p (c ∷ cs), [])
        | some (p, block_comment) ↦
            keep (take p (c ∷ cs)) (strip_within fuel (star ∷ []) (drop (p + 2) (c ∷ cs)))
        | some (p, nesting_comment) ↦
            keep (take p (c ∷ cs)) (strip_within fuel (plus ∷ []) (drop (p + 2) (c ∷ cs)))
      ])
        ≡ at_marker (c ∷ cs) m
  open_round none = refl
  open_round (some (p, line_comment)) = refl
  open_round (some (p, block_comment)) =
      ap (keep (take p (c ∷ cs)))
        (rounds (star ∷ []) (drop (p + 2) (c ∷ cs)) (length-drop_pos p c cs))
  open_round (some (p, nesting_comment)) =
      ap (keep (take p (c ∷ cs)))
        (rounds (plus ∷ []) (drop (p + 2) (c ∷ cs)) (length-drop_pos p c cs))

strip_within-outside :
    (fuel : ℕ) (state : List Closer) (rest : Line)
    → length rest < fuel
    → strip_within fuel state rest ≡ outside state rest
unfolding strip_within
strip_within-outside zero state rest h = absurd (omega arith)
strip_within-outside (suc fuel) state [] h = unfold outside in refl
strip_within-outside (suc fuel) [] (c ∷ cs) h =
    open_round fuel c cs (λ st rest k. strip_within-outside fuel st rest (omega arith))
      (first_marker (c ∷ cs))
    ∙ sym (outside-nil (c ∷ cs))
strip_within-outside (suc fuel) (star ∷ state) (c ∷ cs) h =
    closed_round fuel c cs (λ st rest k. strip_within-outside fuel st rest (omega arith)) star state
      (find b'*' b'/' (c ∷ cs))
    ∙ sym (outside-star state (c ∷ cs))
strip_within-outside (suc fuel) (plus ∷ state) (c ∷ cs) h =
    plus_round fuel c cs (λ st rest k. strip_within-outside fuel st rest (omega arith)) state
      (open_again plus (c ∷ cs)) (find b'+' b'/' (c ∷ cs))
    ∙ sym (outside-plus state (c ∷ cs))

-- `strip_comments` returns the text outside the comments, as reading the line one character at a
-- time finds it, and the comments open at its end, whatever is open at its beginning.
pub strip_comments-eq-outside :
    (line : Line) (state : List Closer) → strip_comments line state ≡ outside state line
unfolding strip_comments
strip_comments-eq-outside line state =
    strip_within-outside (length line + 1) state line (omega arith)
