-- ===== src/Api/Automaton.antt =====
-- scripts/check-api-docs.py: the comments of a line, one character at a time, and `strip_comments`.
use antfarm.Prelude.{
  ℕ, suc, ◌+◌, ◌≡◌, refl, sym, ◌∙◌, Bool, true, false, ◌&&◌, List, [], ◌∷◌, Option, none, some,
  ◌==◌, arith,
}
use antfarm.Text.{Line, drop}
use antfarm.Api.Comments.{Closer, star, plus, next, find, reopened, open_again, keep}

-- The text outside the comments, read from left to right with the stack of the comments around.
unfoldable pub outside : List Closer → Line → Line × List Closer
outside state [] = ([], state)
outside [] (c ∷ []) = (c ∷ [], [])
outside (closer ∷ state) (c ∷ []) = ([], closer ∷ state)
outside [] (c ∷ d ∷ rest) = elim (c == b'/' && d == b'/') [
  | true ↦ ([], [])
  | false ↦ elim (c == b'/' && d == b'*') [
    | true ↦ outside (star ∷ []) rest
    | false ↦ elim (c == b'/' && d == b'+') [
      | true ↦ outside (plus ∷ []) rest
      | false ↦ keep (c ∷ []) (outside [] (d ∷ rest))
    ]
  ]
]
outside (star ∷ state) (c ∷ d ∷ rest) = elim (c == b'*' && d == b'/') [
  | true ↦ outside state rest
  | false ↦ outside (star ∷ state) (d ∷ rest)
]
outside (plus ∷ state) (c ∷ d ∷ rest) = elim (c == b'/' && d == b'+') [
  | true ↦ outside (plus ∷ plus ∷ state) rest
  | false ↦ elim (c == b'+' && d == b'/') [
    | true ↦ outside state rest
    | false ↦ outside (plus ∷ state) (d ∷ rest)
  ]
]

two_more : (p : ℕ) → suc p + 2 ≡ suc (p + 2)
two_more p = omega arith

pub drop_next : (p c : ℕ) (cs : Line) → drop (suc p + 2) (c ∷ cs) ≡ drop (p + 2) cs
unfolding drop
drop_next p c cs = rw two_more

-- What follows the closer of a "/*" comment.
abbrev pub behind : List Closer → Closer → Line → Option ℕ → Line × List Closer
behind state closer rest none = ([], closer ∷ state)
behind state closer rest (some p) = outside state (drop (p + 2) rest)

pub find_here :
    (a b c d : ℕ) (rest : Line) → (c == a && d == b) ≡ true → find a b (c ∷ d ∷ rest) ≡ some 0
unfolding find
find_here a b c d rest e = rw (e, find)

pub find_later :
    (a b c d : ℕ) (rest : Line)
    → (c == a && d == b) ≡ false
    → find a b (c ∷ d ∷ rest) ≡ next (find a b (d ∷ rest))
unfolding find
find_later a b c d rest e = rw (e, find)

behind-next :
    (state : List Closer) (closer : Closer) (c : ℕ) (rest : Line) (o : Option ℕ)
    → behind state closer (c ∷ rest) (next o) ≡ behind state closer rest o
behind-next state closer c rest none = refl
behind-next state closer c rest (some p) = rw drop_next

pub outside-star :
    (state : List Closer) (rest : Line)
    → outside (star ∷ state) rest ≡ behind state star rest (find b'*' b'/' rest)
unfolding outside drop
outside-star state [] = unfold find in refl
outside-star state (c ∷ []) = unfold find in refl
outside-star state (c ∷ d ∷ rest) = go (c == b'*' && d == b'/') refl (outside-star state (d ∷ rest))
  where
    go :
        (t : Bool)
        → (c == b'*' && d == b'/') ≡ t
        → outside (star ∷ state) (d ∷ rest)
          ≡ behind state star (d ∷ rest) (find b'*' b'/' (d ∷ rest))
        → (elim t [ true ↦ outside state rest | false ↦ outside (star ∷ state) (d ∷ rest) ])
          ≡ behind state star (c ∷ d ∷ rest) (find b'*' b'/' (c ∷ d ∷ rest))
    go true e ih = rw (find_here _ _ c d rest e) refl
    go false e ih =
        rw (find_later _ _ c d rest e)
          (ih ∙ sym (behind-next state star c (d ∷ rest) (find b'*' b'/' (d ∷ rest))))

-- What follows in a "/+" comment, from the places of "/+" and of the closer.
abbrev pub after_plus : List Closer → Line → Option ℕ → Option ℕ → Line × List Closer
after_plus state rest close none = behind state plus rest close
after_plus state rest close (some o) = outside (plus ∷ plus ∷ state) (drop (o + 2) rest)

after_plus-next :
    (state : List Closer) (c : ℕ) (rest : Line) (close o : Option ℕ)
    → after_plus state (c ∷ rest) (next close) (next o) ≡ after_plus state rest close o
after_plus-next state c rest close none = behind-next state plus c rest close
after_plus-next state c rest close (some o) = rw drop_next

reopened-next : (o c : Option ℕ) → reopened (next o) (next c) ≡ next (reopened o c)
reopened-next none c = refl
reopened-next (some o) none = refl
reopened-next (some o) (some c) = ground arith

reopened_here : (c : Option ℕ) → reopened (some 0) (next c) ≡ some 0
reopened_here none = refl
reopened_here (some c) = ground arith

reopened_closed : (o : Option ℕ) → reopened (next o) (some 0) ≡ none
reopened_closed none = refl
reopened_closed (some o) = ground arith

pub outside-plus :
    (state : List Closer) (rest : Line)
    → outside (plus ∷ state) rest
      ≡ after_plus state rest (find b'+' b'/' rest) (open_again plus rest)
unfolding outside drop
outside-plus state [] = unfold find in refl
outside-plus state (c ∷ []) = unfold find in refl
outside-plus state (c ∷ d ∷ rest) =
    go (c == b'/' && d == b'+') refl (c == b'+' && d == b'/') refl (outside-plus state (d ∷ rest))
  where
    apart : (c == b'/' && d == b'+') ≡ true → (c == b'+' && d == b'/') ≡ false
    apart e = ground arith

    go :
        (t : Bool)
        → (c == b'/' && d == b'+') ≡ t
        → (u : Bool) → (c == b'+' && d == b'/') ≡ u
        → outside (plus ∷ state) (d ∷ rest)
          ≡ after_plus state (d ∷ rest) (find b'+' b'/' (d ∷ rest)) (open_again plus (d ∷ rest))
        → (elim t [
          | true ↦ outside (plus ∷ plus ∷ state) rest
          | false ↦ elim u [ true ↦ outside state rest | false ↦ outside (plus ∷ state) (d ∷ rest) ]
        ])
          ≡ after_plus state
              (c ∷ d ∷ rest)
              (find b'+' b'/' (c ∷ d ∷ rest))
              (open_again plus (c ∷ d ∷ rest))
    go true e u f ih =
        rw (find_here _ _ c d rest e, find_later _ _ c d rest (apart e), reopened_here) refl
    go false e true f ih =
        rw (find_later _ _ c d rest e, find_here _ _ c d rest f, reopened_closed) refl
    go false e false f ih =
        rw (find_later _ _ c d rest e, find_later _ _ c d rest f, reopened-next, after_plus-next) ih
