-- ===== src/Cabi/Steps.antt =====
-- scripts/check-c-abi.py: steps whose files are written before they are used.
use mathlib.Core.List.{map-append}
use antfarm.Prelude.{
  sym, subst, Bool, true, false, List, [], ◌∷◌, ◌++◌, map, none, String, All, In, if◌then◌else◌,
}
use antfarm.Shell.{Command}
use antfarm.Shell.Builds.{Ready, makes, needs, Ready-both, Within, In-later, In-made}
use antfarm.Cabi.{Step, execute, command}
use antfarm.Cabi.Deaths.{Deaths, deaths}
use antfarm.Cabi.Plan.{in_order}

-- Steps that use only what is there, or what steps before them have written.
abbrev pub StepsReady : List String → List Step → Type 0
StepsReady made steps = Ready made (map command steps)

-- A step that has what it needs, and writes `p`.
abbrev pub Writes : List String → String → Step → Type 0
Writes made p s = All (λ q. In q made) (needs (command s)) × In p (makes (command s))

pub if-Writes :
    (made : List String) (p : String) (b : Bool) (s t : Step)
    → Writes made p s
    → Writes made p t
    → Writes made p (if b then s else t)
if-Writes made p true s t h k = h
if-Writes made p false s t h k = k

pub if-StepsReady :
    (made : List String) (b : Bool) (ss ts : List Step)
    → StepsReady made ss
    → StepsReady made ts
    → StepsReady made (if b then ss else ts)
if-StepsReady made true ss ts h k = h
if-StepsReady made false ss ts h k = k

pub StepsReady-both :
    (made : List String) (ss ts : List Step)
    → StepsReady made ss
    → StepsReady made ts
    → StepsReady made (ss ++ ts)
StepsReady-both made ss ts h k =
    subst (λ cs. Ready made cs) (sym (map-append command ss ts))
      (Ready-both made (map command ss) (map command ts) h k)

-- Each group has what it needs for itself.
abbrev pub AllReady : List String → List (List Step) → Type 0
AllReady made groups = All (λ ss. StepsReady made ss) groups

pub in_order-Ready :
    (made : List String) (groups : List (List Step))
    → AllReady made groups
    → StepsReady made (in_order groups)
unfolding in_order
in_order-Ready made [] h = tt
in_order-Ready made (ss ∷ groups) (h, k) =
    StepsReady-both made ss (in_order groups) h (in_order-Ready made groups k)

-- A step that writes `p`, in front of steps that need it.
pub then-Ready :
    (made : List String) (p : String) (s : Step) (ss : List Step)
    → Writes made p s
    → ((more : List String) → In p more → Within made more → StepsReady more ss)
    → StepsReady made (s ∷ ss)
then-Ready made p s ss (h, m) k = (
  h,
  k (makes (command s) ++ made) (In-made p (command s) made m) (In-later (makes (command s)) made),
)

pub deaths-Ready :
    (made : List String) (binary : String) (table : Deaths)
    → In binary made
    → StepsReady made (deaths binary table)
unfolding deaths
deaths-Ready made binary [] m = tt
deaths-Ready made binary ((name, diagnostic) ∷ table) m =
    ((m, tt), deaths-Ready made binary table m)

-- The runs of a binary that is there.
pub runs-Ready :
    (made : List String) (binary : String) (table : Deaths)
    → In binary made
    → StepsReady made (execute binary [] none ∷ deaths binary table)
runs-Ready made binary table m = ((m, tt), deaths-Ready made binary table m)

-- The libraries at hand.
abbrev pub Linked : List String → Command → Type 0
Linked made libraries = All (λ q. In q made) (needs libraries)
