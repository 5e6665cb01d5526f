-- ===== src/Runner/Threads.antt =====
-- tools/perf/llc_split.py: the threads that the processes of a sample run, read off their commands.
use text.Mathlib.Text.{◌==◌ as str_eq}
use native.Mathlib.Nat.{div-le_self}
use antfarm.Prelude.{
  ℕ, ◌+◌, ◌-◌, ◌/◌, ◌≤◌, ◌<◌, ◌≡◌, ◌∙◌, refl, ap, max, List, [], ◌∷◌, map, Option, none, some,
  if◌then◌else◌, length, arith, All,
}
use antfarm.Runner.Words.{Word, dub, benchmark, snapshot, Command}
use antfarm.Runner.Cases.{payload_split}
use antfarm.Runner.Select.{int_at, int_word, after_flag}
use antfarm.Runner.Split.{
  payload_cmd, private_cmd, Part, Workload, payload, private_children, Layout, headline_layout,
  per_llc, part_for, parts_for,
}
use antfarm.Runner.Layout.{total, portions, split-eq, portions-positive, total-portions}

abbrev number : Option (Option Word) → Option ℕ
number none = none
number (some none) = none
number (some (some w)) = int_word w

abbrev plus : Option ℕ → Option ℕ → Option ℕ
plus none n = none
plus (some m) none = none
plus (some m) (some n) = some (m + n)

-- The threads a benchmark starts: producers and consumers, or an emitter and its consumers.
unfoldable pub threads_of : Command → Option ℕ
threads_of c = elim c.program [
  | dub ↦ none
  | snapshot name ↦ none
  | benchmark name ↦
      if str_eq name "throughput"
      then plus (number (after_flag "--ns" c.words)) (number (after_flag "--nc" c.words))
      else plus (some 1) (int_at c.words 3)
]

unfoldable pub threads_of_parts : List Part → Option ℕ
threads_of_parts [] = some 0
threads_of_parts (p ∷ ps) = plus (threads_of p.cmd) (threads_of_parts ps)

threads_of-payload_cmd :
    (threads n : ℕ) → 0 < threads → threads_of (payload_cmd threads n) ≡ some threads
unfolding threads_of payload_cmd payload_split after_flag int_word
threads_of-payload_cmd threads n t = ap some (go (threads / 3) (div-le_self threads 3))
  where
    go : (q : ℕ) → q ≤ threads → max 1 q + (threads - max 1 q) ≡ threads
    go q h = omega arith

threads_of-private_cmd :
    (threads : ℕ) (pins : Word) → 0 < threads → threads_of (private_cmd threads pins) ≡ some threads
unfolding threads_of private_cmd int_at int_word
threads_of-private_cmd threads pins t = ap some (omega arith)

threads_of-part_for :
    (w : Workload) (n share : ℕ) (group : List ℕ)
    → 0 < share
    → threads_of (part_for w n (share, group)).cmd ≡ some share
unfolding part_for
threads_of-part_for payload n share group s = threads_of-payload_cmd share n s
threads_of-part_for private_children n share group s = threads_of-private_cmd share _ s

threads_of-parts :
    (w : Workload) (n : ℕ) (ps : List (ℕ × List ℕ))
    → All (λ (p : ℕ × List ℕ). 0 < p.0) ps
    → threads_of_parts (map (part_for w n) ps) ≡ some (total ps)
unfolding threads_of_parts total
threads_of-parts w n [] h = refl
threads_of-parts w n ((share, group) ∷ ps) (s, h) =
    rw (threads_of-part_for w n share group s, threads_of-parts w n ps h) refl

one :
    (c : Command) {k : ℕ}
    → threads_of c ≡ some k
    → threads_of_parts (record { confine = none; cmd = c } ∷ []) ≡ some k
unfolding threads_of_parts
one c {k} e = rw e (ap some (omega arith))

module _ (threads n : ℕ) (g : List ℕ) (gs : List (List ℕ)) (t : 0 < threads)
    (s : 0 < length g) where
  pub parts_for-eq :
      (w : Workload)
      → parts_for w per_llc threads (g ∷ gs) n
        ≡ some (map (part_for w n) (portions threads g gs t s))
  unfolding parts_for
  parts_for-eq payload = rw (split-eq threads g gs t s, parts_for) refl
  parts_for-eq private_children = rw (split-eq threads g gs t s, parts_for) refl

  -- In either layout a sample of at least one thread runs exactly the threads asked for, when there
  -- is a group and the first group has a CPU.
  pub parts_for-threads :
      (w : Workload) (l : Layout)
      → (ps : List Part) × (parts_for w l threads (g ∷ gs) n ≡ some ps)
        × (threads_of_parts ps ≡ some threads)
  unfolding parts_for
  parts_for-threads payload headline_layout =
      (_, refl, one (payload_cmd threads n) (threads_of-payload_cmd threads n t))
  parts_for-threads private_children headline_layout =
      (_, refl, one (private_cmd threads _) (threads_of-private_cmd threads _ t))
  parts_for-threads w per_llc = (
    _,
    parts_for-eq w,
    threads_of-parts w n (portions threads g gs t s) (portions-positive threads g gs t s)
        ∙ ap some (total-portions threads g gs t s),
  )
