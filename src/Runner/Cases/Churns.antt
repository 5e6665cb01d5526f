-- ===== src/Runner/Cases/Churns.antt =====
-- tools/perf/run_performance_md.py: `churn` and its helpers. An argument with the default None is an
-- `Option`.
use text.Mathlib.Text.{starts_with}
use antfarm.Prelude.{
  ℕ, zero, suc, ◌+◌, ◌-◌, ◌/◌, Bool, false, List, [], ◌∷◌, ◌++◌, Option, none, some, String, ltb,
  ◌==◌, if◌then◌else◌, length, max, range_from,
}
use antfarm.Runner.Words.{Word, lit, dec, cpus, benchmark, Case}

-- ",".join(str(i) for i in range(consumers + 1)), or "-"
unfoldable pub cpus_for : ℕ → Word
cpus_for consumers = if consumers == 0 then lit "-" else cpus (range_from 0 (consumers + 1))

-- order[:threads]
unfoldable pub take : ℕ → List ℕ → List ℕ
take zero xs = []
take (suc n) [] = []
take (suc n) (x ∷ xs) = x ∷ take n xs

unfoldable pub pins_for : ℕ → List ℕ → Word
unfolding take
pins_for threads order = if ltb (length order) threads then lit "-" else cpus (take threads order)

-- (producers, consumers)
unfoldable pub payload_split : ℕ → ℕ × ℕ
payload_split threads = let producers = max 1 (threads / 3) in (producers, threads - producers)

pub record Churn : Type 0 where
  pub section : String
  pub name : List Word
  pub mode : String
  pub consumers : ℕ
  pub actors : ℕ
  pub seconds : ℕ
  pub batch : ℕ
  pub warmups : ℕ
  pub allocator : String
  pub tier : String
  pub quota : ℕ
  pub subset_percent : Option ℕ
  pub root_hint : Option ℕ
  pub binary : String
  pub unpinned : Bool
  pub pins : Option Word
  pub env : List (String × Word)
  pub public_hint : Option ℕ
  pub child_hint : Option ℕ
  pub note : List Word

-- The defaults of `churn`.
abbrev pub churn_case : String → List Word → String → ℕ → Churn
churn_case section name mode consumers = record {
  section = section;
  name = name;
  mode = mode;
  consumers = consumers;
  actors = 16384;
  seconds = 3;
  batch = 256;
  warmups = 5;
  allocator = "mimalloc";
  tier = "small";
  quota = 16384;
  subset_percent = none;
  root_hint = none;
  binary = "actor_churn_mimalloc";
  unpinned = false;
  pins = none;
  env = [];
  public_hint = none;
  child_hint = none;
  note = [];
}

-- [str(x)], or nothing for None
abbrev pub given : Option ℕ → List Word
given none = []
given (some n) = dec n ∷ []

-- The words that `churn` appends for a mode that starts with "subset".
unfoldable pub subset_words : Option ℕ → Option ℕ → List Word
subset_words none none = []
subset_words (some p) none = dec p ∷ []
subset_words none (some h) = lit "100" ∷ dec h ∷ []
subset_words (some p) (some h) = dec p ∷ dec h ∷ []

-- The words that `churn` appends after the quota.
unfoldable pub churn_tail : Churn → List Word
unfolding subset_words
churn_tail r =
    if starts_with r.mode "subset"
    then subset_words r.subset_percent r.root_hint
    else given r.root_hint

abbrev hint_env : String → Option ℕ → List (String × Word)
hint_env key none = []
hint_env key (some n) = (key, dec n) ∷ []

unfoldable pub churn : Churn → Case
unfolding churn_tail cpus_for
churn r = record {
  section = r.section;
  name = r.name;
  cmd = record {
    program = benchmark r.binary;
    words =
        (lit r.mode
          ∷ dec r.actors
          ∷ dec r.seconds
          ∷ dec r.consumers
          ∷ dec r.batch
          ∷ dec r.warmups
          ∷ lit r.allocator
          ∷ (if r.unpinned
              then lit "-"
              else elim r.pins [ none ↦ cpus_for r.consumers | some w ↦ w ])
          ∷ lit r.tier
          ∷ dec r.quota
          ∷ [])
        ++ churn_tail r;
  };
  in_ant_fibers = none;
  env =
      r.env
      ++ (hint_env "ANTFARM_PUBLIC_HINT" r.public_hint
          ++ hint_env "ANTFARM_CHILD_HINT" r.child_hint);
  note = r.note;
}
