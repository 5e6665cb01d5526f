-- ===== src/Runner/Select.antt =====
-- tools/perf/run_performance_md.py: which parser reads a cell, how often it is run, and when an
-- earlier result of it is used again.
use Prim.Native.Char.{code}
use text.Mathlib.Text.{◌==◌ as str_eq}
use antfarm.Prelude.{
  ℕ, ◌+◌, ◌-◌, ◌*◌, Bool, false, ◌&&◌, ◌||◌, List, [], ◌∷◌, Option, none, some, String, leb, ◌==◌,
  if◌then◌else◌, max, get_elem?,
}
use antfarm.Runner.Words.{Word, lit, dec, cpus, dub, benchmark, snapshot, Command}

pub data Parser : Type 0 where
  parse_throughput parse_dual parse_churn parse_ready parse_scaling parse_tail parse_fiber : Parser

-- PARSERS[name]; `none` stands for the KeyError.
unfoldable pub parser_named : String → Option Parser
parser_named name =
    if str_eq name "throughput"
    then some parse_throughput
    else if str_eq name "dual"
    then some parse_dual
    else if str_eq name "actor_churn"
    then some parse_churn
    else if str_eq name "actor_churn_mimalloc"
    then some parse_churn
    else if str_eq name "actor_ready"
    then some parse_ready
    else if str_eq name "scaling"
    then some parse_scaling
    else if str_eq name "tail"
    then some parse_tail
    else if str_eq name "dub_fiber"
    then some parse_fiber
    else none

-- The paths of benchmarks and snapshots are absolute, so they do not start with "dub".
unfoldable pub parser_for : Command → Option Parser
unfolding parser_named
parser_for c = elim c.program [
  | dub ↦ parser_named "dub_fiber"
  | benchmark name ↦ parser_named name
  | snapshot name ↦ parser_named name
]

-- int(text), for a text of decimal digits
unfoldable pub int_digits : ℕ → String → Option ℕ
int_digits n String.[] = some n
int_digits n (String.◌∷◌ ch rest) =
    let more = int_digits (n * 10 + (code ch - 48)) rest in
    if leb 48 (code ch) && leb (code ch) 57 then more else none

-- int(word); `none` stands for the exception.
unfoldable pub int_word : Word → Option ℕ
unfolding int_digits
int_word (dec n) = some n
int_word (lit s) = if str_eq s "" then none else int_digits 0 s
int_word (cpus cs) = none

unfoldable pub int_at : List Word → ℕ → Option ℕ
unfolding int_word
int_at ws i = elim (get_elem? ws i) [ none ↦ none | some w ↦ int_word w ]

abbrev is_flag : String → Word → Bool
is_flag flag (lit s) = str_eq s flag
is_flag flag (dec n) = false
is_flag flag (cpus cs) = false

-- The word behind the first `flag`, which `flag in cmd` and `cmd.index(flag)` look for.
unfoldable pub after_flag : String → List Word → Option (Option Word)
after_flag flag [] = none
after_flag flag (w ∷ ws) =
    let rest = after_flag flag ws in if is_flag flag w then some (get_elem? ws 0) else rest

-- `consumers` of a command whose program has the stem `name`.
unfoldable pub consumers_named : String → List Word → Option (Option ℕ)
unfolding int_word int_at after_flag
consumers_named name words =
    if str_eq name "actor_churn" || str_eq name "actor_churn_mimalloc"
    then elim (int_at words 3) [ none ↦ none | some n ↦ some (some n) ]
    else if str_eq name "throughput" || str_eq name "tail"
    then elim (after_flag "--nc" words) [
      | none ↦ some (if str_eq name "tail" then some 6 else none)
      | some none ↦ none
      | some (some w) ↦ elim (int_word w) [ none ↦ none | some n ↦ some (some n) ]
    ]
    else some none

-- `consumers` of a command: none for an exception, some none for None.
unfoldable pub consumers_of : Command → Option (Option ℕ)
unfolding consumers_named
consumers_of c = elim c.program [
  | dub ↦ some none
  | benchmark name ↦ consumers_named name c.words
  | snapshot name ↦ consumers_named name c.words
]

-- `runs` is args.runs and `minimum` args.six_consumer_runs; `none` stands for an exception.
unfoldable pub requested_runs : ℕ → Option ℕ → Command → Option ℕ
requested_runs runs none c = some runs
requested_runs runs (some minimum) c = elim (consumers_of c) [
  | none ↦ none
  | some none ↦ some runs
  | some (some n) ↦ some (if n == 6 then max runs minimum else runs)
]
