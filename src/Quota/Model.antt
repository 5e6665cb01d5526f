-- ===== src/Quota/Model.antt =====
-- tests/farm/quota_model.py, `explore`: the states, the moves out of a state and the roles of equal
-- quota. A tuple of Python is a record; an action keeps the values of the message that it prints.
use antfarm.Prelude.{
  ℕ, ◌+◌, ◌-◌, ◌*◌, ◌/◌, ◌%◌, Bool, true, false, Option, none, some, List, [], ◌∷◌, ◌&&◌, ◌||◌, ltb,
  leb, ◌==◌, if◌then◌else◌, set, range_from,
}

pub record Config : Type 0 where
  pub k : ℕ
  pub cap : ℕ
  pub quotas : List ℕ
  pub laps : ℕ
  pub automatic : Bool
  pub state_limit : ℕ

-- (balance, anchor epoch, next scan index)
pub record Producer : Type 0 where
  pub balance : ℕ
  pub anchor : ℕ
  pub step : ℕ

pub record State : Type 0 where
  pub wt : ℕ
  pub oldest : ℕ
  pub newest : ℕ
  pub producers : List Producer

pub data Action : Type 0 where
  pin_ahead drop_oldest : Action
  probe : ℕ → ℕ → Action
  reserve : ℕ → ℕ → ℕ → Action
  grant : ℕ → ℕ → Action
  scan_blocked : ℕ → Action
  scan_zero : ℕ → ℕ → Action
  enters_pinned : ℕ → ℕ → ℕ → ℕ → ℕ → ℕ → Action

-- sum(quotas)
unfoldable pub sum : List ℕ → ℕ
sum [] = 0
sum (x ∷ xs) = x + sum xs

abbrev pub exmax : Config → ℕ
exmax c = sum c.quotas

abbrev pub need : Config → ℕ
need c = (exmax c + c.cap - 1) / c.cap

abbrev pub max_wt : Config → ℕ
max_wt c = c.k * c.cap * c.laps

-- The assertion of the source: some quota, and no more than the ring holds.
abbrev pub fits : Config → Bool
fits c = ltb 0 (exmax c) && leb (exmax c) ((c.k - 1) * c.cap)

abbrev pub idle : Producer
idle = record { balance = 0; anchor = 0; step = 0 }

unfoldable pub idles : List ℕ → List Producer
idles [] = []
idles (q ∷ qs) = idle ∷ idles qs

abbrev pub start : Config → State
start c = record { wt = 0; oldest = 0; newest = 0; producers = idles c.quotas }

-- The order of Python's tuples.
unfoldable pub tuple_leb : Producer → Producer → Bool
tuple_leb p r =
    ltb p.balance r.balance
    || p.balance == r.balance
      && (ltb p.anchor r.anchor || p.anchor == r.anchor && leb p.step r.step)

unfoldable pub insort : Producer → List Producer → List Producer
insort p [] = p ∷ []
insort p (r ∷ rs) = let rest = insort p rs in if tuple_leb p r then p ∷ r ∷ rs else r ∷ rest

unfoldable pub sorted : List Producer → List Producer
sorted [] = []
sorted (p ∷ ps) = insort p (sorted ps)

-- ps[j] for the indices j with quotas[j] == q
unfoldable pub select : ℕ → List ℕ → List Producer → List Producer
select q [] ps = []
select q (r ∷ qs) [] = []
select q (r ∷ qs) (p ∷ ps) = let rest = select q qs ps in if r == q then p ∷ rest else rest

-- for j, value in zip(indices, ordered): ps[j] = value
unfoldable pub place : ℕ → List ℕ → List Producer → List Producer → List Producer
place q [] ps vs = ps
place q (r ∷ qs) [] vs = []
place q (r ∷ qs) (p ∷ ps) [] = p ∷ ps
place q (r ∷ qs) (p ∷ ps) (v ∷ vs) = elim (r == q) [
  | true ↦ v ∷ place q qs ps vs
  | false ↦ p ∷ place q qs ps (v ∷ vs)
]

unfoldable pub contains : List ℕ → ℕ → Bool
contains [] a = false
contains (x ∷ xs) a = a == x || contains xs a

-- set(quotas), each value once. The loop over it does not depend on the order, since the indices of
-- two quotas are disjoint.
unfoldable pub distinct : List ℕ → List ℕ
unfolding contains
distinct [] = []
distinct (q ∷ qs) = let rest = distinct qs in if contains qs q then rest else q ∷ rest

unfoldable pub canonical : List ℕ → List ℕ → List Producer → List Producer
unfolding sorted insort tuple_leb select place
canonical [] quotas ps = ps
canonical (q ∷ qs) quotas ps = canonical qs quotas (place q quotas ps (sorted (select q quotas ps)))

-- changed(p, tail)
unfoldable pub changed : Config → State → ℕ → Producer → ℕ → State
unfolding canonical distinct
changed c s i p tail = record s {
  wt = tail;
  producers = canonical (distinct c.quotas) c.quotas (set s.producers i p);
}

-- e % k in {e % k for e in epochs}
unfoldable pub residue_in : ℕ → ℕ → List ℕ → Bool
residue_in k r [] = false
residue_in k r (e ∷ es) = r == (e % k) || residue_in k r es

-- epoch % k in pinned
unfoldable pub pinned : Config → State → ℕ → Bool
unfolding residue_in range_from
pinned c s epoch = residue_in c.k (epoch % c.k) (range_from s.oldest (s.newest + 1 - s.oldest))

unfoldable pub first_pinned : Config → State → List ℕ → Option ℕ
unfolding pinned
first_pinned c s [] = none
first_pinned c s (e ∷ es) = let rest = first_pinned c s es in if pinned c s e then some e else rest

-- The epochs that the reservation [wt, wt + size) enters.
abbrev pub entered : Config → State → ℕ → List ℕ
entered c s size = range_from (s.wt / c.cap + 1) ((s.wt + size) / c.cap - s.wt / c.cap)

abbrev pub Move : Type 0
Move = State × Action

-- The successors of a state, or the reservation at which `explore` returns a counterexample.
pub data Expansion : Type 0 where
  moves : List Move → Expansion
  violation : Action → Expansion

unfoldable pub add : Move → Expansion → Expansion
add m (moves ms) = moves (m ∷ ms)
add m (violation a) = violation a

unfoldable pub join : Expansion → Expansion → Expansion
join (violation a) e = violation a
join (moves []) e = e
join (moves (m ∷ ms)) e = add m (join (moves ms) e)
