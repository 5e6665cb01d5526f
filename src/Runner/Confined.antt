-- ===== src/Runner/Confined.antt =====
-- tools/perf/llc_split.py: the CPUs that the processes of a sample may run on.
use antfarm.Prelude.{
  ℕ, zero, suc, ◌<◌, ◌≡◌, refl, inl, inr, Bool, true, false, List, [], ◌∷◌, map, some,
  if◌then◌else◌, length, leb, In,
}
use antfarm.Runner.Cases.{take}
use antfarm.Runner.Split.{
  shares, first_groups, Part, Workload, payload, private_children, per_llc, part_for, parts_for,
}
use antfarm.Runner.Threads.{parts_for-eq}

-- The i-th process is confined to CPUs of the i-th group.
unfoldable pub Confined : List Part → List (List ℕ) → Type 0
Confined [] gs = Unit
Confined (p ∷ ps) [] = ⊥
Confined (p ∷ ps) (g ∷ gs) =
    ((cs : List ℕ) × (p.confine ≡ some cs) × ((c : ℕ) → In c cs → In c g)) × Confined ps gs

In-take : (n : ℕ) (xs : List ℕ) (c : ℕ) → In c (take n xs) → In c xs
unfolding take
In-take zero xs c h = absurd h
In-take (suc n) [] c h = h
In-take (suc n) (x ∷ xs) c h = elim h [ inl e ↦ inl e | inr m ↦ inr (In-take n xs c m) ]

confine-part_for :
    (w : Workload) (n share : ℕ) (g : List ℕ)
    → (cs : List ℕ) × ((part_for w n (share, g)).confine ≡ some cs) × ((c : ℕ) → In c cs → In c g)
unfolding part_for
confine-part_for w n share g = (_, same w, within (leb share (length g)))
  where
    within : (b : Bool) (c : ℕ) → In c (if b then take share g else g) → In c g
    within true c h = In-take share g c h
    within false c h = h

    same :
        (w : Workload)
        → (part_for w n (share, g)).confine
          ≡ some (if leb share (length g) then take share g else g)
    same payload = refl
    same private_children = refl

Confined-shares :
    (w : Workload) (n base extra i need : ℕ) (gs : List (List ℕ))
    → Confined (map (part_for w n) (shares base extra i (first_groups need gs))) gs
unfolding Confined shares first_groups
Confined-shares w n base extra i zero gs = tt
Confined-shares w n base extra i (suc need) [] = tt
Confined-shares w n base extra i (suc need) (g ∷ gs) =
    (confine-part_for w n _ g, Confined-shares w n base extra (suc i) need gs)

-- Laid out per group, every process is confined to CPUs of a group of its own, when a thread is asked
-- for and the first group has a CPU.
pub parts_for-Confined :
    (w : Workload) (threads n : ℕ) (g : List ℕ) (gs : List (List ℕ))
    → 0 < threads
    → 0 < length g
    → (ps : List Part) × (parts_for w per_llc threads (g ∷ gs) n ≡ some ps) × Confined ps (g ∷ gs)
parts_for-Confined w threads n g gs t s =
    (_, parts_for-eq threads n g gs t s w, Confined-shares w n _ _ 0 _ (g ∷ gs))
