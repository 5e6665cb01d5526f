-- ===== src/Quota/Explore.antt =====
-- tests/farm/quota_model.py, `explore`: the expansion of a state and the breadth-first search.
use antfarm.Prelude.{
  ℕ, zero, suc, ◌+◌, ◌-◌, ◌/◌, ◌%◌, Bool, true, false, Option, none, some, List, [], ◌∷◌, ◌++◌,
  ◌&&◌, ltb, leb, ◌==◌, if◌then◌else◌, length,
}
use antfarm.Quota.Model.{
  Config, Producer, State, Action, pin_ahead, drop_oldest, probe, reserve, grant, scan_blocked,
  scan_zero, enters_pinned, sum, need, max_wt, start, idles, changed, pinned, first_pinned, entered,
  Move, fits, Expansion, moves, violation, add, join,
}

-- for size in range(1, balance + 1): the sizes are counted up from `size`.
unfoldable pub reserves : Config → State → ℕ → ℕ → Producer → ℕ → ℕ → Expansion
unfolding add changed first_pinned
reserves c s i q p size zero = moves []
reserves c s i q p size (suc left) =
    let rest = reserves c s i q p (suc size) left in
    let end = s.wt + size in
    let remaining = if c.automatic then q else p.balance - size in
    let next : Producer = record { balance = remaining; anchor = 0; step = 0 } in
    if ltb (max_wt c) end then rest else elim (first_pinned c s (entered c s size)) [
      | some e ↦ violation (enters_pinned i s.wt end e s.oldest s.newest)
      | none ↦ add (changed c s i next end, reserve i s.wt end) rest
    ]

-- The moves of producer `i`, of quota `q`, in the state `p`.
unfoldable pub producer_moves : Config → State → ℕ → ℕ → Producer → Expansion
unfolding reserves pinned
producer_moves c s i q p =
    let go = λ (r : Producer). changed c s i r s.wt in
    if p.step == 0
    then add (go (record p { anchor = s.wt / c.cap; step = 1 }), probe i s.wt)
        (reserves c s i q p 1 p.balance)
    else if p.step == need c + 1
    then moves ((go (record { balance = q; anchor = 0; step = 0 }), grant i q) ∷ [])
    else if pinned c s (p.anchor + p.step)
    then moves ((go (record p { anchor = 0; step = 0 }), scan_blocked i) ∷ [])
    else moves ((go (record p { step = p.step + 1 }), scan_zero i ((p.anchor + p.step) % c.k)) ∷ [])

-- for i, (balance, anchor, step) in enumerate(producers), with the quotas beside them
unfoldable pub all_moves : Config → State → ℕ → List ℕ → List Producer → Expansion
unfolding producer_moves join
all_moves c s i [] ps = moves []
all_moves c s i (q ∷ qs) [] = moves []
all_moves c s i (q ∷ qs) (p ∷ ps) = join (producer_moves c s i q p) (all_moves c s (suc i) qs ps)

unfoldable pub consumer_moves : Config → State → List Move
consumer_moves c s =
    (if ltb s.newest (s.wt / c.cap)
      then (record s { newest = s.newest + 1 }, pin_ahead) ∷ []
      else [])
    ++ (if ltb s.oldest s.newest
        then (record s { oldest = s.oldest + 1 }, drop_oldest) ∷ []
        else [])

-- The body of the loop up to `for nxt, action in next_states`.
unfoldable pub expand : Config → State → Expansion
unfolding all_moves consumer_moves join
expand c s = join (moves (consumer_moves c s)) (all_moves c s 0 c.quotas s.producers)

unfoldable pub producer_eq : Producer → Producer → Bool
producer_eq p r = p.balance == r.balance && p.anchor == r.anchor && p.step == r.step

unfoldable pub producers_eq : List Producer → List Producer → Bool
unfolding producer_eq
producers_eq [] [] = true
producers_eq (p ∷ ps) (r ∷ rs) = producer_eq p r && producers_eq ps rs
producers_eq _ _ = false

unfoldable pub state_eq : State → State → Bool
unfolding producers_eq
state_eq s t =
    s.wt == t.wt
    && s.oldest == t.oldest
    && s.newest == t.newest
    && producers_eq s.producers t.producers

-- The dict `predecessor`: its latest entry first, each key once.
abbrev pub Predecessor : Type 0
Predecessor = List (State × Option (State × Action))

unfoldable pub lookup : State → Predecessor → Option (Option (State × Action))
unfolding state_eq
lookup s [] = none
lookup s ((t, v) ∷ d) = let rest = lookup s d in if state_eq s t then some v else rest

-- The actions on the way from the start; `none` if a key is missing or the rounds run out.
unfoldable pub trace_from : ℕ → Predecessor → State → List Action → Option (List Action)
unfolding lookup
trace_from zero d s out = none
trace_from (suc rounds) d s out = elim (lookup s d) [
  | none ↦ none
  | some v ↦ elim v [ none ↦ some out | some (t, a) ↦ trace_from rounds d t (a ∷ out) ]
]

-- trace(state, final)
unfoldable pub trace : Predecessor → State → Action → Option (List Action)
unfolding trace_from
trace d s final = trace_from (length d) d s (final ∷ [])

pub data Report : Type 0 where
  counterexample : ℕ → ℕ → Option (List Action) → Report
  state_limit : ℕ → ℕ → Report
  bounded_pass : ℕ → ℕ → ℕ → Report
  assertion_error : Report
  out_of_fuel : Report

pub record Search : Type 0 where
  pub predecessor : Predecessor
  pub pending : List State
  pub edges : ℕ

pub data Outcome : Type 0 where
  running : Search → Outcome
  stopped : Report → Outcome

abbrev pub known : State → Predecessor → Bool
known s d = elim (lookup s d) [ none ↦ false | some _ ↦ true ]

-- One round of `for nxt, action in next_states`.
unfoldable pub offer : Config → State → Search → Move → Outcome
unfolding lookup
offer c s x (t, a) =
    let d = (t, some (s, a)) ∷ x.predecessor in
    if known t x.predecessor
    then running (record x { edges = x.edges + 1 })
    else if leb c.state_limit (length d)
    then stopped (state_limit (length d) (x.edges + 1))
    else running (record { predecessor = d; pending = x.pending ++ t ∷ []; edges = x.edges + 1 })

unfoldable pub offers : Config → State → Search → List Move → Outcome
unfolding offer
offers c s x [] = running x
offers c s x (m ∷ ms) = elim (offer c s x m) [ running y ↦ offers c s y ms | stopped r ↦ stopped r ]

-- The rest of a round after `state` left the head of `pending`.
unfoldable pub visit : Config → State → Search → Outcome
unfolding expand offers trace
visit c s x = elim (expand c s) [
  | violation a ↦ stopped (counterexample (length x.predecessor) x.edges (trace x.predecessor s a))
  | moves ms ↦ offers c s x ms
]

unfoldable pub loop : ℕ → Config → Search → Report
unfolding visit
loop zero c x = out_of_fuel
loop (suc fuel) c x = elim x.pending [
  | [] ↦ bounded_pass (length x.predecessor) x.edges (max_wt c)
  | s ∷ rest ↦ elim (visit c s (record x { pending = rest })) [
    | running y ↦ loop fuel c y
    | stopped r ↦ r
  ]
]

abbrev pub first : Config → Search
first c = record { predecessor = (start c, none) ∷ []; pending = start c ∷ []; edges = 0 }

-- `fuel` bounds the rounds of the `while` loop.
unfoldable pub explore_within : ℕ → Config → Report
unfolding loop sum idles
explore_within fuel c = let r = loop fuel c (first c) in if fits c then r else assertion_error

-- Each round takes another key of `predecessor`, which never has more than `state_limit` of them.
unfoldable pub explore : Config → Report
unfolding explore_within
explore c = explore_within (c.state_limit + 2) c
