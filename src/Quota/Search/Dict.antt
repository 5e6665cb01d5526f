-- ===== src/Quota/Search/Dict.antt =====
-- The dict `predecessor`: equality of states decides its keys.
use antfarm.Prelude.{◌≡◌, refl, true, List, [], ◌∷◌, Option, arith, if◌then◌else◌, ◌⊎◌}
use antfarm.Quota.Model.{Producer, State, Action}
use antfarm.Quota.Explore.{producer_eq, producers_eq, state_eq, Predecessor, lookup, known}

producer_eq→eq : (p r : Producer) → producer_eq p r ≡ true → p ≡ r
unfolding producer_eq
producer_eq→eq p r h = ground arith

producers_eq→eq : (ps rs : List Producer) → producers_eq ps rs ≡ true → ps ≡ rs
unfolding producers_eq
producers_eq→eq [] [] h = refl
producers_eq→eq [] (r ∷ rs) h = cc
producers_eq→eq (p ∷ ps) [] h = cc
producers_eq→eq (p ∷ ps) (r ∷ rs) h = ground (arith, producer_eq→eq p r, producers_eq→eq ps rs)

pub state_eq→eq : (s t : State) → state_eq s t ≡ true → s ≡ t
unfolding state_eq
state_eq→eq s t h = ground (arith, producers_eq→eq s.producers t.producers)

producers_eq_refl : (ps : List Producer) → producers_eq ps ps ≡ true
unfolding producers_eq producer_eq
producers_eq_refl [] = refl
producers_eq_refl (p ∷ ps) = ground (arith, producers_eq_refl ps)

pub state_eq_refl : (s : State) → state_eq s s ≡ true
unfolding state_eq
state_eq_refl s = ground (arith, producers_eq_refl s.producers)

pub known-cons :
    (s t : State) (v : Option (State × Action)) (d : Predecessor)
    → known s ((t, v) ∷ d) ≡ (if state_eq s t then true else known s d)
unfolding lookup
known-cons s t v d = ground arith

pub known_new :
    (t : State) (v : Option (State × Action)) (d : Predecessor) → known t ((t, v) ∷ d) ≡ true
known_new t v d = rw (known-cons, state_eq_refl)

pub known_later :
    (s t : State) (v : Option (State × Action)) (d : Predecessor)
    → known s d ≡ true
    → known s ((t, v) ∷ d) ≡ true
known_later s t v d h = ground (arith, known-cons s t v d)

pub known-cons_cases :
    (s t : State) (v : Option (State × Action)) (d : Predecessor)
    → known s ((t, v) ∷ d) ≡ true
    → (s ≡ t) ⊎ (known s d ≡ true)
known-cons_cases s t v d h = ground (arith, known-cons s t v d, state_eq→eq s t)
