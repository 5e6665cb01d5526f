-- ===== src/Runner/Reads.antt =====
-- tools/perf/run_performance_md.py: what `parser_for` and `requested_runs` read off the commands of
-- the cells.
use antfarm.Prelude.{ℕ, ◌-◌, ◌≡◌, ◌⊎◌, inl, inr, refl, Option, none, some, ◌==◌, if◌then◌else◌, max}
use antfarm.Runner.Cases.{Churn, churn, Throughput, tp, Dual, dcase}
use antfarm.Runner.Farms.{Args, tail_case}
use antfarm.Runner.Select.{
  Parser, parse_throughput, parse_dual, parse_churn, parse_tail, parser_for, consumers_of,
  requested_runs,
}

-- The consumers that the command of `churn` runs are those that `requested_runs` reads off it.
pub consumers_of-churn :
    (r : Churn)
    → (r.binary ≡ "actor_churn") ⊎ (r.binary ≡ "actor_churn_mimalloc")
    → consumers_of (churn r).cmd ≡ some (some r.consumers)
unfolding consumers_of churn
consumers_of-churn r (inl e) = rw e
consumers_of-churn r (inr e) = rw e

pub consumers_of-tp : (r : Throughput) → consumers_of (tp r).cmd ≡ some (some r.nc)
unfolding consumers_of tp
consumers_of-tp r = refl

pub consumers_of-dcase : (r : Dual) → consumers_of (dcase r).cmd ≡ some none
unfolding consumers_of dcase
consumers_of-dcase r = refl

pub consumers_of-tail_case :
    (a : Args) (t : ℕ) → consumers_of (tail_case a t).cmd ≡ some (some (t - 1))
unfolding consumers_of tail_case
consumers_of-tail_case a t = refl

pub parser_for-churn :
    (r : Churn)
    → (r.binary ≡ "actor_churn") ⊎ (r.binary ≡ "actor_churn_mimalloc")
    → (p : Parser) × (parser_for (churn r).cmd ≡ some p)
unfolding parser_for churn
parser_for-churn r (inl e) = (parse_churn, rw e)
parser_for-churn r (inr e) = (parse_churn, rw e)

pub parser_for-tp : (r : Throughput) → (p : Parser) × (parser_for (tp r).cmd ≡ some p)
unfolding parser_for tp
parser_for-tp r = (parse_throughput, refl)

pub parser_for-dcase : (r : Dual) → (p : Parser) × (parser_for (dcase r).cmd ≡ some p)
unfolding parser_for dcase
parser_for-dcase r = (parse_dual, refl)

pub parser_for-tail_case :
    (a : Args) (t : ℕ) → (p : Parser) × (parser_for (tail_case a t).cmd ≡ some p)
unfolding parser_for tail_case
parser_for-tail_case a t = (parse_tail, refl)

-- What `requested_runs` says of a command of `churn`.
abbrev churn_runs : ℕ → Option ℕ → ℕ → ℕ
churn_runs runs none consumers = runs
churn_runs runs (some minimum) consumers = if consumers == 6 then max runs minimum else runs

-- A command of `churn` for one of the two churn benchmarks asks for the larger of the two numbers of
-- runs when it has six consumers and a minimum is given, and otherwise for `runs`.
pub requested_runs-churn :
    (runs : ℕ) (minimum : Option ℕ) (r : Churn)
    → (r.binary ≡ "actor_churn") ⊎ (r.binary ≡ "actor_churn_mimalloc")
    → requested_runs runs minimum (churn r).cmd ≡ some (churn_runs runs minimum r.consumers)
unfolding requested_runs
requested_runs-churn runs none r h = refl
requested_runs-churn runs (some m) r h = rw (consumers_of-churn r h, requested_runs) refl
