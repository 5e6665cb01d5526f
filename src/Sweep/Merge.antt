-- ===== src/Sweep/Merge.antt =====
-- tools/perf/offccd_sweep.py: `mirror_group` and `check_mergeable`.
use text.Mathlib.Text.{◌==◌ as str_eq}
use antfarm.Prelude.{ℕ, Bool, List, [], ◌∷◌, Option, none, some, String, if◌then◌else◌}

-- topo.get('single_llc') and topo.get('remote_llc')
pub record Topology : Type 0 where
  pub single_llc : Bool
  pub remote_llc : Option ℕ

unfoldable pub mirror_group : Option Topology → Option ℕ
mirror_group none = none
mirror_group (some topo) = if topo.single_llc then none else topo.remote_llc

-- What `check_mergeable` looks up in a row; a key is missing where the row or its topology has none. An OS
-- scope is a text, as the report has it.
pub record Keys : Type 0 where
  pub cpu_model : Option String
  pub os_scope : Option String
  pub grouping_source : Option String

-- The keys seen, or the name of the one that differs with its two values.
pub data Merge : Type 0 where
  seen : Keys → Merge
  refused : String → String → String → Merge

pub data Kept : Type 0 where
  kept : Option String → Kept
  differs : String → String → Kept

-- The body of `for k, v in keys.items()`, for the value seen and the row's.
unfoldable pub merge_key : Option String → Option String → Kept
merge_key old none = kept old
merge_key none (some v) = kept (some v)
merge_key (some s) (some v) = if str_eq s v then kept (some v) else differs s v

-- The first key that differs is the one named.
abbrev pub merged : Kept → Kept → Kept → Merge
merged (differs s v) scope source = refused "cpu_model" s v
merged (kept m) (differs s v) source = refused "os_scope" s v
merged (kept m) (kept o) (differs s v) = refused "grouping_source" s v
merged (kept m) (kept o) (kept g) =
    seen (record { cpu_model = m; os_scope = o; grouping_source = g })

-- for k, v in keys.items()
unfoldable pub merge_row : Keys → Keys → Merge
merge_row old row =
    merged (merge_key old.cpu_model row.cpu_model) (merge_key old.os_scope row.os_scope)
      (merge_key old.grouping_source row.grouping_source)

unfoldable pub merge_rows : Keys → List Keys → Merge
unfolding merge_row
merge_rows old [] = seen old
merge_rows old (row ∷ rows) = elim (merge_row old row) [
  | refused k s v ↦ refused k s v
  | seen next ↦ merge_rows next rows
]

unfoldable pub check_mergeable : List Keys → Merge
unfolding merge_rows
check_mergeable rows =
    merge_rows (record { cpu_model = none; os_scope = none; grouping_source = none }) rows
