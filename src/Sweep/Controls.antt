-- ===== src/Sweep/Controls.antt =====
-- tools/perf/offccd_sweep.py: the combined cells and the controls of `derive`.
use text.Mathlib.Text.{◌==◌ as str_eq}
use antfarm.Prelude.{
  ℕ, Bool, true, false, ◌&&◌, not, List, [], ◌∷◌, Option, none, some, String, ◌==◌, if◌then◌else◌,
}
use antfarm.Sweep.Cells.{Labels}
use antfarm.Sweep.Derived.{
  Combo, combo_of, combo_eq, Reals, Measured, med, find, at_k, truthy, ratio, Step, sweeps,
}

abbrev is_text : Option String → String → Bool
is_text none t = false
is_text (some s) t = str_eq s t

abbrev texts_eq : Option String → Option String → Bool
texts_eq none none = true
texts_eq none (some t) = false
texts_eq (some s) none = false
texts_eq (some s) (some t) = str_eq s t

abbrev at_arm : String → String → Combo → Labels → Bool
at_arm sweep arm combo lb =
    str_eq lb.sweep sweep && is_text lb.arm arm && combo_eq (combo_of lb) combo

-- find(cells, sweep='small', arm='on', role=role, k=k, **kw)
abbrev at_small : Labels → Labels → Bool
at_small of lb = at_arm "small" "on" (combo_of of) lb && texts_eq lb.role of.role && lb.k == of.k

-- 'S_C' if lb['role'] in (None, 'consumer') else 'S_P'
abbrev sweep_of_role : Option String → String
sweep_of_role none = "S_C"
sweep_of_role (some role) = if str_eq role "consumer" then "S_C" else "S_P"

pub data Kind : Type 0 where
  equal small mirror rolesplit : Kind

module _ (o : Reals) where
  pub record Combined : Type 0 where
    pub kp : Option ℕ
    pub kc : ℕ
    pub combo : Combo
    pub measured : Option o.F
    pub predicted : Option o.F

  -- s0 * (rc / s0) * (rp / s0) if s0 and rc and rp else None
  unfoldable pub predicted_rate : Option o.F → Option o.F → Option o.F → Option o.F
  predicted_rate none c p = none
  predicted_rate (some s) none p = none
  predicted_rate (some s) (some c) none = none
  predicted_rate (some s) (some c) (some p) = some (o.mul (o.mul s (o.div c s)) (o.div p s))

  abbrev rate_at : List (Measured o) → String → Option ℕ → Combo → Option o.F
  rate_at cells sweep none combo = none
  rate_at cells sweep (some k) combo = truthy o (med o (find o (at_k o sweep k combo) cells))

  abbrev combined_row : List (Measured o) → Measured o → Combined
  combined_row cells c =
      let combo = combo_of c.labels in
      record {
        kp = c.labels.kp;
        kc = c.labels.k;
        combo = combo;
        measured = c.rate;
        predicted =
            predicted_rate (rate_at cells "S_C" (some 0) combo)
              (rate_at cells "S_C" (some c.labels.k) combo) (rate_at cells "S_P" c.labels.kp combo);
      }

  -- d['combined'], of the cells that are read
  unfoldable pub combined_rows : List (Measured o) → List (Measured o) → List Combined
  unfolding predicted_rate find combo_of combo_eq
  combined_rows all [] = []
  combined_rows all (c ∷ cells) =
      let rest = combined_rows all cells in
      if str_eq c.labels.sweep "combined" && c.is_ok then combined_row all c ∷ rest else rest

  -- `own` is the rate of the cell and `other` that of the cell it is compared with.
  pub record Control : Type 0 where
    pub control : Kind
    pub labels : Labels
    pub own : Option o.F
    pub other : Option o.F
    pub ratio : Option o.F

  -- The ratio of another cell to this one, and of this one to another.
  abbrev of_other : Kind → Measured o → Option o.F → Option Control
  of_other kind c other = some (record {
    control = kind;
    labels = c.labels;
    own = c.rate;
    other = other;
    ratio = ratio o other c.rate;
  })

  abbrev to_other : Kind → Measured o → Option o.F → Option Control
  to_other kind c other = some (record {
    control = kind;
    labels = c.labels;
    own = c.rate;
    other = other;
    ratio = ratio o c.rate other;
  })

  -- The branches of the last loop.
  unfoldable pub control_of : List (Measured o) → Measured o → Option Control
  unfolding find ratio combo_of combo_eq
  control_of all c =
      let lb = c.labels in
      let combo = combo_of lb in
      if not c.is_ok
      then none
      else if str_eq lb.sweep "equal"
      then of_other equal c (med o (find o (at_k o "S_C" 1 combo) all))
      else if str_eq lb.sweep "small" && is_text lb.arm "off"
      then to_other small c (med o (find o (at_small lb) all))
      else if str_eq lb.sweep "mirror"
      then to_other mirror c (med o (find o (at_k o (sweep_of_role lb.role) lb.k combo) all))
      else if str_eq lb.sweep "rolesplit" && is_text lb.arm "main"
      then of_other rolesplit c (med o (find o (at_arm "rolesplit" "mirror" combo) all))
      else none

  unfoldable pub controls : List (Measured o) → List (Measured o) → List Control
  unfolding control_of
  controls all [] = []
  controls all (c ∷ cells) =
      let rest = controls all cells in
      elim (control_of all c) [ none ↦ rest | some row ↦ row ∷ rest ]

  pub record Derived : Type 0 where
    pub sweeps : List (Step o)
    pub combined : List Combined
    pub controls : List Control

  unfoldable pub derive : List (Measured o) → Derived
  unfolding sweeps combined_rows controls
  derive cells = record {
    sweeps = sweeps o cells;
    combined = combined_rows cells cells;
    controls = controls cells cells;
  }
