-- ===== src/Runner/Split.antt =====
-- tools/perf/llc_split.py: how a sample's threads are split over the groups of CPUs that share a
-- last-level cache, and the commands that run them.
use antfarm.Prelude.{
  ℕ, zero, suc, ◌+◌, ◌-◌, ◌/◌, ◌%◌, min, ◌||◌, List, [], ◌∷◌, ◌++◌, map, Option, none, some, ltb,
  leb, ◌==◌, if◌then◌else◌, length,
}
use antfarm.Runner.Words.{Word, lit, dec, cpus, benchmark, Command}
use antfarm.Runner.Cases.{take, pins_for, payload_split}

-- [(base + (i < extra), groups[i]) for i in range(...)], for the groups from the i-th on
unfoldable pub shares : ℕ → ℕ → ℕ → List (List ℕ) → List (ℕ × List ℕ)
shares base extra i [] = []
shares base extra i (g ∷ gs) =
    (base + (if ltb i extra then 1 else 0), g) ∷ shares base extra (suc i) gs

-- groups[:need]
unfoldable pub first_groups : ℕ → List (List ℕ) → List (List ℕ)
first_groups zero gs = []
first_groups (suc n) [] = []
first_groups (suc n) (g ∷ gs) = g ∷ first_groups n gs

-- The fewest groups of `size` CPUs that hold the threads, or all the groups.
unfoldable pub groups_needed : ℕ → ℕ → ℕ → ℕ
groups_needed count size threads = min count ((threads + (size - 1)) / size)

-- `none` stands for an exception: no group, a group of no CPU, or no thread.
unfoldable pub split : ℕ → List (List ℕ) → Option (List (ℕ × List ℕ))
unfolding shares first_groups groups_needed
split threads [] = none
split threads (g ∷ gs) =
    let size = length g in
    let need = groups_needed (length (g ∷ gs)) size threads in
    if size == 0 || need == 0
    then none
    else some (shares (threads / need) (threads % need) 0 (first_groups need (g ∷ gs)))

unfoldable pub payload_cmd : ℕ → ℕ → Command
payload_cmd threads n =
    let (producers, consumers) = payload_split threads in
    record {
      program = benchmark "throughput";
      words =
          lit "--once"
          ∷ lit "--nc"
          ∷ dec consumers
          ∷ lit "--nb"
          ∷ lit "0"
          ∷ lit "--ns"
          ∷ dec producers
          ∷ lit "--body"
          ∷ lit "1"
          ∷ lit "--batch"
          ∷ lit "1700"
          ∷ lit "--repeats"
          ∷ lit "1"
          ∷ lit "--ac"
          ∷ lit "0"
          ∷ lit "--n"
          ∷ dec n
          ∷ lit "--constant-callandlength"
          ∷ [];
    }

unfoldable pub private_cmd : ℕ → Word → Command
private_cmd threads pins = record {
  program = benchmark "actor_churn_mimalloc";
  words =
      lit "tree-refill-slab"
      ∷ lit "16384"
      ∷ lit "3"
      ∷ dec (threads - 1)
      ∷ lit "256"
      ∷ lit "5"
      ∷ lit "mimalloc"
      ∷ pins
      ∷ lit "small"
      ∷ lit "16384"
      ∷ [];
}

-- A process of a sample, and the CPUs that `taskset -c` confines it to.
pub record Part : Type 0 where
  pub confine : Option (List ℕ)
  pub cmd : Command

pub data Workload : Type 0 where
  payload private_children : Workload

pub data Layout : Type 0 where
  headline_layout per_llc : Layout

abbrev flatten : List (List ℕ) → List ℕ
flatten [] = []
flatten (g ∷ gs) = g ++ flatten gs

-- The body of the loop over the shares.
unfoldable pub part_for : Workload → ℕ → (ℕ × List ℕ) → Part
unfolding take
part_for payload n (share, group) = record {
  confine = some (if leb share (length group) then take share group else group);
  cmd = payload_cmd share n;
}
part_for private_children n (share, group) = record {
  confine = some (if leb share (length group) then take share group else group);
  cmd = private_cmd share (if leb share (length group) then cpus (take share group) else lit "-");
}

-- The commands one sample runs concurrently; `none` stands for an exception.
unfoldable pub parts_for : Workload → Layout → ℕ → List (List ℕ) → ℕ → Option (List Part)
parts_for payload headline_layout threads groups n =
    some (record { confine = none; cmd = payload_cmd threads n } ∷ [])
parts_for private_children headline_layout threads groups n =
    some (
      record { confine = none; cmd = private_cmd threads (pins_for threads (flatten groups)) } ∷ [])
parts_for workload per_llc threads groups n = elim (split threads groups) [
  | none ↦ none
  | some portions ↦ some (map (part_for workload n) portions)
]
