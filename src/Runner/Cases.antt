-- ===== src/Runner/Cases.antt =====
-- tools/perf/run_performance_md.py: `tp` and `dcase`, and the names of the child module. An argument
-- with the default None is an `Option`.
mod Churns
pub use Churns.{Churn, churn_case}
unfoldable pub use Churns.{cpus_for, take, pins_for, payload_split, churn}
use text.Mathlib.Text.{◌==◌ as str_eq, starts_with}
use antfarm.Prelude.{
  ℕ, zero, suc, ◌+◌, ◌-◌, ◌/◌, Bool, true, false, List, [], ◌∷◌, ◌++◌, Option, none, some, String,
  ltb, ◌==◌, if◌then◌else◌, length, max, range_from,
}
use antfarm.Runner.Words.{Word, lit, dec, cpus, benchmark, Case}

pub record Throughput : Type 0 where
  pub section : String
  pub name : List Word
  pub nc : ℕ
  pub nb : ℕ
  pub ns : ℕ
  pub body : ℕ
  pub batch : ℕ
  pub ac : Option ℕ
  pub n : Option ℕ
  pub ln : Option ℕ
  pub k : Option ℕ
  pub write : Option String
  pub huge : Bool
  pub small : Option ℕ
  pub env : List (String × Word)
  pub note : List Word

abbrev pub tp_case : String → List Word → ℕ → Throughput
tp_case section name nc = record {
  section = section;
  name = name;
  nc = nc;
  nb = 1;
  ns = 0;
  body = 16;
  batch = 80;
  ac = none;
  n = none;
  ln = none;
  k = none;
  write = none;
  huge = false;
  small = none;
  env = [];
  note = [];
}

-- [flag, str(x)], or nothing for None
abbrev pub option_words : String → Option ℕ → List Word
option_words flag none = []
option_words flag (some n) = lit flag ∷ dec n ∷ []

abbrev flag_words : Bool → String → List Word
flag_words true flag = lit flag ∷ []
flag_words false flag = []

abbrev write_words : Option String → List Word
write_words none = []
write_words (some w) = if str_eq w "" then [] else lit w ∷ []

unfoldable pub tp : Throughput → Case
tp r = record {
  section = r.section;
  name = r.name;
  cmd = record {
    program = benchmark "throughput";
    words =
        (lit "--once"
          ∷ lit "--nc"
          ∷ dec r.nc
          ∷ lit "--nb"
          ∷ dec r.nb
          ∷ lit "--ns"
          ∷ dec r.ns
          ∷ lit "--body"
          ∷ dec r.body
          ∷ lit "--batch"
          ∷ dec r.batch
          ∷ lit "--repeats"
          ∷ lit "1"
          ∷ [])
        ++ (option_words "--ac" r.ac
            ++ (option_words "--n" r.n
                ++ (option_words "--ln" r.ln
                    ++ (option_words "--k" r.k
                        ++ (write_words r.write
                            ++ (flag_words r.huge "--huge" ++ option_words "--small" r.small))))));
  };
  in_ant_fibers = none;
  env = r.env;
  note = r.note;
}

pub record Dual : Type 0 where
  pub section : String
  pub name : List Word
  pub nd : ℕ
  pub body : ℕ
  pub batch : ℕ
  pub consume : ℕ
  pub ac : Option ℕ
  pub n : Option ℕ
  pub tier : Option String
  pub huge : Bool
  pub note : List Word

abbrev pub dual_case : String → List Word → ℕ → Dual
dual_case section name nd = record {
  section = section;
  name = name;
  nd = nd;
  body = 16;
  batch = 256;
  consume = 1;
  ac = none;
  n = none;
  tier = none;
  huge = false;
  note = [];
}

abbrev tier_words : Option String → List Word
tier_words none = []
tier_words (some t) = if str_eq t "" then [] else lit "--tier" ∷ lit t ∷ []

unfoldable pub dcase : Dual → Case
dcase r = record {
  section = r.section;
  name = r.name;
  cmd = record {
    program = benchmark "dual";
    words =
        (lit "--nd"
          ∷ dec r.nd
          ∷ lit "--body"
          ∷ dec r.body
          ∷ lit "--batch"
          ∷ dec r.batch
          ∷ lit "--consume"
          ∷ dec r.consume
          ∷ lit "--repeats"
          ∷ lit "1"
          ∷ [])
        ++ (option_words "--ac" r.ac
            ++ (option_words "--n" r.n ++ (tier_words r.tier ++ flag_words r.huge "--huge")));
  };
  in_ant_fibers = none;
  env = [];
  note = r.note;
}
