-- ===== src/Quota/Search/Reachable.antt =====
-- tests/farm/quota_model.py: what holds in every state of the strict protocol, with no bound on the
-- states that a search visits.
use antfarm.Prelude.{◌+◌, ◌/◌, ◌≤◌, ◌<◌, ◌≡◌, refl, List, true, false, arith, subst, In-All}
use antfarm.Quota.Model.{Config, State, Action, Move, Expansion, moves, violation, fits}
use antfarm.Quota.Explore.{expand}
use antfarm.Quota.Invariant.{Inv, Fits-fits}
use antfarm.Quota.Moves.{Keeps, lap_bound}
use antfarm.Quota.Safety.{expand-Keeps, Inv-start}
use antfarm.Quota.Search.Complete.{Reach, here, next, Edge}

Keeps-moves : (P : State → Type 0) (e : Expansion) → Keeps P e → (ms : List Move) × (e ≡ moves ms)
Keeps-moves P (moves ms) k = (ms, refl)
Keeps-moves P (violation a) k = elim k [ ]

module _ (c : Config) (fit : fits c ≡ true) (strict : c.automatic ≡ false) where
  Keeps-expand : (s : State) → Inv c s → Keeps (Inv c) (expand c s)
  Keeps-expand s v = expand-Keeps c (Fits-fits c fit) s v strict

  Inv-Edge : {s t : State} {a : Action} → Inv c s → Edge c s a t → Inv c t
  Inv-Edge {s} {t} {a} v (ms, e, i) =
      In-All (λ m. Inv c m.0) ms (t, a) (subst (Keeps (Inv c)) e (Keeps-expand s v)) i

  Reach-Inv : {s : State} → Reach c s → Inv c s
  Reach-Inv here = Inv-start c (Fits-fits c fit)
  Reach-Inv (next r edge) = Inv-Edge (Reach-Inv r) edge

-- In every state that the strict protocol reaches, for every ring and quotas that the source
-- accepts: no reservation enters a pinned epoch, the consumer holds a range behind the tail, and the
-- tail is less than a lap ahead of the oldest epoch held.
pub reachable_strict :
    (c : Config) (s : State)
    → fits c ≡ true
    → c.automatic ≡ false
    → Reach c s
    → ((ms : List Move) × (expand c s ≡ moves ms))
      × (s.oldest ≤ s.newest)
      × (s.newest ≤ s.wt / c.cap)
      × (s.wt / c.cap < s.oldest + c.k)
reachable_strict c s fit strict r =
    let v = Reach-Inv c fit strict r in
    (
      Keeps-moves (Inv c) (expand c s) (Keeps-expand c fit strict s v),
      v.ordered,
      v.behind,
      lap_bound c (Fits-fits c fit) s s.wt v (λ x. omega arith),
    )
