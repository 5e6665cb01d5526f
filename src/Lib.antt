-- ===== src/Lib.antt =====
-- The Python tools of the Ant Farm repository: the checkers of its documentation, of its C ABI and of
-- its builds on Windows, the driver of its examples, the model checker of a protocol of the library,
-- and the programs that plan, run and judge its benchmarks.
--
-- Quota (tests/farm/quota_model.py). The explicit model of producers that reserve ranges of a ring
-- under a quota while a consumer advances through epochs. Quota.Model holds the configuration, the
-- state and the canonical order of producers with equal quotas (`canonical`); Quota.Explore holds
-- the moves of a state (`expand`, the body of the `while` loop up to the offers), the dict of
-- predecessors, `trace` and `explore`. A dict is an association list with the source's key
-- equality, the deque a list, the failed assertion a constructor of the report. `explore` runs on
-- fuel: each round takes another key of `predecessor`, which never holds more than `state_limit` of
-- them, and `state_limit + 2` rounds are given. Quota.Canonical, Quota.Invariant, Quota.Moves and
-- Quota.Safety are about one move, Quota.Search about the search.
--
-- PerfGate (tools/perf/perf_gate.py, `main`). The campaign of paired runs of two versions
-- (PerfGate.Campaign), and the report with its classification and exit status (PerfGate.Report).
-- Floats and what is computed with them (medians, ratios, comparisons) are the record of
-- PerfGate.Floats, a parameter; the results of the runs are a function from attempt numbers, since
-- the runs are processes.
--
-- Runner (tools/perf/run_performance_md.py and tools/perf/llc_split.py). Runner.Words has the
-- commands of the benchmark cells as data: a word stands for the value that the source formats.
-- Runner.Cases has `churn`, `tp`, `dcase` and their helpers; Runner.Farms and Runner.Actors have
-- the sections of `cases_for`; Runner.Select has `parser_for` and `requested_runs`, which read
-- those commands back. Runner.Measure has `frozen_cell`, `measure_cell` and `cell_is_cached`: what
-- the process of a run returns and what the parser makes of it is a function from the run's number,
-- and a metric a value of any type. Runner.Texts has the texts that words stand for, and equality
-- of commands. Runner.Split has `split` and `parts_for` of llc_split.py, which lay the threads of a
-- sample out over the groups of CPUs with a common cache and use `payload_split` and `pins_for` of
-- the runner. Runner.Reads, Runner.Ready, Runner.Cached, Runner.Layout, Runner.Threads and Runner.Confined have
-- the proofs. An argument is a natural number. `main` of both programs refuses a thread count below
-- 2 before these functions are called; they are modelled for counts of at least 1, where `t - 1`
-- does not go below 0.
--
-- Sweep (tools/perf/offccd_sweep.py). Sweep.Cells has `cell`, Sweep.Suites and Sweep.Plan the
-- suites of `suite_cells`, whose cells carry their id as text, Sweep.Whole their concatenation,
-- Sweep.Merge has `mirror_group` and `check_mergeable`. Sweep.Rounds has the part of `run_suites`
-- between the plan of the cells and the summary: `settled`, the rows, `one_round` and the top-up
-- rounds; what a run of the driver prints, and the order of a round, are fields of the record Sweep.
-- Sweep.Groups has `plan_key` and `group_cells`, with what `run_metrics` returns as a type, and
-- Sweep.Noise `stats` and `select_topup` over a record of floats. Sweep.Summary has the cells and the
-- counts of `summarize`, Sweep.Derived and Sweep.Controls `derive`, over the medians of the rates.
-- Sweep.Distinct, Sweep.Mirror, Sweep.Agree, Sweep.Attempts, Sweep.Skips, Sweep.Kept, Sweep.Counted,
-- Sweep.Totals, Sweep.Small and Sweep.Steps have the proofs. It uses the words and texts of Runner.
--
-- Text has what the next two programs do with texts: a line is the list of its code points.
--
-- Api (scripts/check-api-docs.py). Api.Comments has `strip_comments`: the place in the line is the
-- rest of the line, and the rounds run on fuel, one more than the line has characters, since each
-- round but the last leaves two characters behind. Api.Automaton has a second definition that reads
-- one character at a time, for Api.Outside. Api.Protections has `scan_protections`, Api.Inventory the
-- members of a module and the rules on them up to `public_declarations`, Api.Check
-- `resolution_names`, `index_symbols` and `main`. Where the source raises an exception the result is
-- none. The compiler's inventory is an argument, and the files and `\w` beyond ASCII are the record
-- Files. Api.Scopes, Api.Entries, Api.Declared, Api.Surface and Api.Verdict have proofs.
--
-- Links (scripts/check-doc-links.py). Links.Fences has `unfence`, Links.Spans `strip_inline_code`,
-- Links.Anchors and Links.Headings `anchors` with its helpers, Links.Targets the regular expressions
-- of `main`, each as a function by clauses, Links.Paths the functions of os.path that need no file
-- system, and Links.Check `tracked_markdown`, `tracked_sets` and `main` with its cache of anchors.
-- git's output, the file system and the functions on percent escapes are the record Checkout, those
-- on Unicode characters the record Unicode. The loop over the parents of a path runs on fuel, one
-- round more than the path has characters, as each parent is shorter. Links.Clean says without state
-- or cache which links are right, Links.Titles what the headings of a page are;
-- Links.Parents, Links.Blocks,
-- Links.Numbering, Links.Slugs, Links.Judged and Links.Verdict have the proofs.
--
-- Shell has what the next three programs share: a command is a list of words, of which some name a
-- file that a command before it has written or that the command writes itself, the process ends with
-- a status and a text or runs out of time, and a script takes its steps one by one until one fails
-- (`run_all`). Shell.Builds says when each command has the files that it needs, Shell.Runs how far a
-- script comes. A path is written from the root of the repository, with `/` on every host.
--
-- Windows (scripts/check-windows.py). Windows has `Checks` with `run`, `dub` and `build_run`,
-- Windows.Lanes the methods of the lanes as the commands that they run, Windows.Check `parse_args` and
-- `main`. How the processes end is a field of the record Windows. Windows.Binaries and Windows.Verdict
-- have the proofs.
--
-- Cabi (scripts/build-c-abi.py and scripts/check-c-abi.py). Cabi has the steps of the checks as data,
-- and how `execute` judges the end of a process; Cabi.Build `build_core` and `build_runtime`,
-- Cabi.Native `native` and `native_runtime`, whose compile commands are lists of words, Cabi.Deaths the
-- tables of fatal cases, Cabi.Plan and Cabi.Check `runtime_checks` and `main`, as the steps that they
-- take. A source is given by folder, stem and suffix. A command behind vcvars64.bat is the command that
-- the batch file holds. Cabi.Symbols has `audit_symbols` on the lines that nm or dumpbin print; the
-- functions that a header declares, and the outcome of the audit of the declarations, are fields of the
-- record Machine, and so are the processes. A status below 0 counts as one above. Cabi.LockFile
-- has the text of the lock, as it is joined and split into lines, Cabi.Lock `lock_key` and
-- `check_abi_lock`, with a dict as a list of pairs. Cabi.Steps, Cabi.Compiled and
-- Cabi.Binaries have the proofs on the order of the steps, Cabi.Exports, Cabi.Reports, Cabi.Written and
-- Cabi.Verdict the others.
--
-- Examples (examples/run_examples.py). Examples has the steps of an example, of a program of the
-- quickstart and of the terminal program, Examples.Driver the check of the quickstart's blocks, `main`,
-- `check_c_examples`, whose steps are those of Cabi, and what each choice of arguments does.
-- Examples.Quickstart, Examples.Programs and Examples.Binaries have the proofs.
--
-- The programs do not use each other's functions, but for run_examples.py, which imports
-- check-c-abi.py, and llc_split.py, which imports the runner. Prelude has the names, tests on numbers
-- and lists that they share.
--
-- Not modelled: processes, signals, clocks, files, /proc and /sys, and the text of the messages and
-- tables, since they are input and output; the regular expressions that read the benchmarks' output,
-- the headers and the quickstart; the metrics of a run of the sweep, its sensitive results and tables;
-- the environment of a process; `header_abi` and `audit_declarations` of the C ABI checker; the other
-- checkers and drivers under scripts, tests and tools; and the library itself, which is written in D.
pub mod Api
pub mod Cabi
pub mod Examples
pub mod Links
pub mod PerfGate
pub mod Prelude
pub mod Quota
pub mod Runner
pub mod Shell
pub mod Sweep
pub mod Text
pub mod Windows
