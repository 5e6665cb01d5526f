-- ===== src/Sweep/Cells.antt =====
-- tools/perf/offccd_sweep.py: `cell` and the controls.
use Prim.Native.String.{◌++◌ as join}
use text.Mathlib.Text.{◌==◌ as str_eq}
use antfarm.Prelude.{ℕ, Bool, false, List, [], ◌∷◌, Option, none, some, String, if◌then◌else◌}
use antfarm.Runner.Words.{Word}
use antfarm.Runner.Texts.{decimal}

pub record Labels : Type 0 where
  pub suite : String
  pub sweep : String
  pub k : ℕ
  pub role : Option String
  pub arm : Option String
  pub kp : Option ℕ
  pub cost : String
  pub batch : ℕ
  pub mode : String
  pub layout : String

-- The arguments of `cell`, its defaults where they are not given.
abbrev pub labels : String → String → ℕ → Labels
labels suite sweep k = record {
  suite = suite;
  sweep = sweep;
  k = k;
  role = none;
  arm = none;
  kp = none;
  cost = "touch";
  batch = 1700;
  mode = "stream";
  layout = "uniform";
}

pub record Cell : Type 0 where
  pub id : String
  pub driver : String
  pub labels : Labels
  pub args : List Word
  -- c.get('skip') and c.get('perf')
  pub skip : Option String
  pub perf : Bool

-- text or '-'
unfoldable or_dash : Option String → String
or_dash none = "-"
or_dash (some s) = if str_eq s "" then "-" else s

-- '/'.join(parts)
unfoldable slashed : List String → String
slashed [] = ""
slashed (s ∷ []) = s
slashed (s ∷ t ∷ rest) = join s (join "/" (slashed (t ∷ rest)))

unfoldable sizes : Option ℕ → ℕ → String
sizes none k = join "k" (decimal k)
sizes (some kp) k = join "kp" (join (decimal kp) (join "kc" (decimal k)))

unfoldable pub cell_id : Labels → String
unfolding or_dash slashed sizes
cell_id l = slashed (
    l.suite
    ∷ l.sweep
    ∷ or_dash l.arm
    ∷ or_dash l.role
    ∷ sizes l.kp l.k
    ∷ l.cost
    ∷ decimal l.batch
    ∷ l.mode
    ∷ l.layout
    ∷ [])

unfoldable pub cell : Labels → String → List Word → Cell
unfolding cell_id
cell l driver args = record {
  id = cell_id l;
  driver = driver;
  labels = l;
  args = args;
  skip = none;
  perf = false;
}

-- A cost, a batch and a mode.
abbrev pub Combo : Type 0
Combo = String × ℕ × String

abbrev pub combos4 : List Combo
combos4 =
    ("touch", 1700, "stream")
    ∷ ("touch", 1700, "phased")
    ∷ ("touch", 16, "stream")
    ∷ ("touch", 16, "phased")
    ∷ []

abbrev pub combos8 : List Combo
combos8 =
    ("touch", 16, "stream")
    ∷ ("touch", 16, "phased")
    ∷ ("touch", 1700, "stream")
    ∷ ("touch", 1700, "phased")
    ∷ ("w100", 16, "stream")
    ∷ ("w100", 16, "phased")
    ∷ ("w100", 1700, "stream")
    ∷ ("w100", 1700, "phased")
    ∷ []

abbrev pub with_combo : Labels → Combo → Labels
with_combo l (cost, batch, mode) = record l { cost = cost; batch = batch; mode = mode }
