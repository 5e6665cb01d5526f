-- ===== src/Sweep/Derived.antt =====
-- tools/perf/offccd_sweep.py: `find`, `combo_of`, `ratio` and `derive`.
use text.Mathlib.Text.{◌==◌ as str_eq}
use antfarm.Prelude.{
  ℕ, zero, suc, ◌-◌, Bool, true, ◌&&◌, ◌||◌, List, [], ◌∷◌, ◌++◌, Option, none, some, String, ltb,
  ◌==◌, if◌then◌else◌,
}
use antfarm.Text.{codes}
use antfarm.Sweep.Cells.{Labels}
use antfarm.Sweep.Groups.{precedes}

-- (cost, batch, mode, layout)
pub record Combo : Type 0 where
  pub cost : String
  pub batch : ℕ
  pub mode : String
  pub layout : String

unfoldable pub combo_of : Labels → Combo
combo_of lb = record { cost = lb.cost; batch = lb.batch; mode = lb.mode; layout = lb.layout }

unfoldable pub combo_eq : Combo → Combo → Bool
combo_eq a b =
    str_eq a.cost b.cost && a.batch == b.batch && str_eq a.mode b.mode && str_eq a.layout b.layout

-- Python's order of two texts, where it goes on to the next member of a tuple if they are equal
abbrev text_before : String → String → Bool → Bool
text_before s t next = if str_eq s t then next else precedes (codes s) (codes t)

unfoldable pub combo_before : Combo → Combo → Bool
unfolding precedes
combo_before a b = text_before a.cost b.cost (
    ltb a.batch b.batch
    || (a.batch == b.batch && text_before a.mode b.mode (text_before a.layout b.layout true)))

-- A combo is put into a sorted list, if it is not there.
unfoldable pub with_combo_of : Combo → List Combo → List Combo
unfolding combo_eq combo_before
with_combo_of a [] = a ∷ []
with_combo_of a (b ∷ bs) =
    if combo_eq a b then b ∷ bs else if combo_before a b then a ∷ b ∷ bs else b ∷ with_combo_of a bs

-- The floats of `derive`; `step` is (x) ** (1 / n).
pub record Reals : Type 1 where
  pub F : Type 0
  pub one_f : F
  pub is_zero : F → Bool
  pub mul : F → F → F
  pub div : F → F → F
  pub sub : F → F → F
  pub step : F → ℕ → F

module _ (o : Reals) where
  -- A cell of a summary: `rate` is the median of its rates.
  pub record Measured : Type 0 where
    pub labels : Labels
    pub is_ok : Bool
    pub rate : Option o.F

  abbrev pub med : Option Measured → Option o.F
  med none = none
  med (some c) = c.rate

  -- find(cells, **want), `want` as a test of the labels
  unfoldable pub find : (Labels → Bool) → List Measured → Option Measured
  find want [] = none
  find want (c ∷ cells) = if c.is_ok && want c.labels then some c else find want cells

  abbrev pub at_k : String → ℕ → Combo → Labels → Bool
  at_k sweep k combo lb = str_eq lb.sweep sweep && lb.k == k && combo_eq (combo_of lb) combo

  abbrev pub truthy : Option o.F → Option o.F
  truthy none = none
  truthy (some x) = if o.is_zero x then none else some x

  -- f(a, b) if a and b else None
  abbrev both_of : (o.F → o.F → o.F) → Option o.F → Option o.F → Option o.F
  both_of f none b = none
  both_of f (some x) none = none
  both_of f (some x) (some y) = some (f x y)

  -- a / b if a is not None and b else None
  unfoldable pub ratio : Option o.F → Option o.F → Option o.F
  ratio a b = both_of o.div a (truthy b)

  pub record Step : Type 0 where
    pub sweep : String
    pub k : ℕ
    pub combo : Combo
    pub delta_vs_k0 : Option o.F
    pub marginal : Option o.F

  abbrev step_of : String → Combo → ℕ → ℕ → Option Measured → Option Measured → Measured → Step
  step_of sweep combo k kprev base prev c = record {
    sweep = sweep;
    k = k;
    combo = combo;
    delta_vs_k0 = both_of (λ r r0. o.sub (o.div r r0) o.one_f) (truthy c.rate) (truthy (med base));
    marginal =
        both_of (λ r rp. o.sub (o.step (o.div r rp) (k - kprev)) o.one_f) (truthy c.rate)
          (truthy (med prev));
  }

  -- for k in range(k, k + count)
  unfoldable pub steps :
      List Measured → String → Combo → Option Measured → ℕ → ℕ → Option Measured → ℕ → List Step
  unfolding find combo_eq combo_of
  steps cells sweep combo base zero k prev kprev = []
  steps cells sweep combo base (suc count) k prev kprev = elim (find (at_k sweep k combo) cells) [
    | none ↦ steps cells sweep combo base count (suc k) prev kprev
    | some c ↦
        step_of sweep combo k kprev base prev c
        ∷ steps cells sweep combo base count (suc k) (some c) k
  ]

  -- sorted({combo_of(c) ...}) of the ok cells of a sweep
  unfoldable pub combos_of : String → List Measured → List Combo
  unfolding with_combo_of combo_of
  combos_of sweep [] = []
  combos_of sweep (c ∷ cells) =
      let rest = combos_of sweep cells in
      if str_eq c.labels.sweep sweep && c.is_ok
      then with_combo_of (combo_of c.labels) rest
      else rest

  unfoldable pub steps_of : List Measured → String → List Combo → List Step
  unfolding steps find
  steps_of cells sweep [] = []
  steps_of cells sweep (combo ∷ combos) =
      let base = find (at_k "S_C" 0 combo) cells in
      steps cells sweep combo base 8 1 base 0 ++ steps_of cells sweep combos

  -- d['sweeps']
  unfoldable pub sweeps : List Measured → List Step
  unfolding steps_of combos_of
  sweeps cells =
      steps_of cells "S_C" (combos_of "S_C" cells) ++ steps_of cells "S_P" (combos_of "S_P" cells)
