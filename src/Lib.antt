-- ===== src/Lib.antt =====
-- recompile: a native-code reliability tool. `rerun observe` traces a binary, once or repeatedly,
-- lets external tools (the sanitizers, valgrind, gdb) confirm what the tracer found, and writes
-- summaries. These files model the part that decides what is run, what is escalated and what the
-- summaries say.
--
-- Observation (recompile/rerun/src/observation.rs)
--   Status, Target, Run: `TargetStatus`, the summary of a target, and of a run with its totals.
--   Attempt, Groups, Repeat: one attempt of a repeated run, the issue groups over all of them, and
--   the repeat summary (`new_with_issue_groups_and_escalation` is `new_repeat`).
-- Escalate (recompile/re-escalate/src; recompile/re-crashpack/src/lib.rs)
--   Finding, Result, Config (lib.rs): a finding with its plan, the result of a tool, the default
--   configuration of the tools.
--   Tools (asan.rs, lsan.rs, ubsan.rs, valgrind.rs, gdb.rs): the readers of the tools' output. Tools
--   itself holds what the five files have in common: `detected_classes` and the joined streams.
--   Process (runner.rs): starting a tool and reporting on it. Sanitizers is one definition for the
--   three copies of the source, with the names in which they differ (`run_asan_binary` and its
--   siblings stand in Dispatch); External is valgrind and gdb. What they call outside is the
--   record `Surroundings`, and they return the files that they write.
--   Runner (runner.rs): `EscalationRunner`, which asks a tool and then lets it rest. A call takes
--   the instants that it reads from the clock, in nanoseconds, and the functions that start a
--   tool, which Process.Dispatch supplies.
-- Cli (recompile/rerun/src/cli.rs)
--   Policy, Select: `RepeatEscalationPolicy`, and `RepeatEscalationState::select_attempt`.
--   Timeouts, Target, Fallback, Escalation: the budgets, the target summary of a traced run, the
--   status a tool-only run gives, and the escalation of a target.
--   Observe, Repeat: `run_observe_once` and `run_observe_repeated`. Escalation.Tools puts the runner
--   of Escalate behind the observer, a new one for each call, and Observe.Told follows its results
--   into the summary of a run.
--   Promote: the detections of a tool's result and the frames that they get from its output
--   (`tool_detections`, `attach_tool_frames`). Promote.Findings: the finding that is made of a
--   detection (`tool_backed_finding`), and the keys of detections. Promote.Gdb: what the
--   reports of gdb add to findings (`enrich_gdb_crash_findings`). Promote.Additions: the loop over the
--   results. Promote.Crashpack: `promote_tool_findings_to_crashpack`, over a record of what it reads
--   and calls outside; for the observer it is one of the functions of Effects.
--   Inputs: `load_repeat_issue_group_inputs`, the issue groups of an attempt as inputs of those of the
--   run; Inputs.Whole joins it to Issues.Annotate and Observation.Groups.
--   Agent: the summaries for agents (`build_agent_summary`, `build_repeat_agent_summary`), over the
--   interface for JSON values. `Value::as_bool` and the quotient of two f64 are parameters.
--   Effects: what those call outside: files, the clock, the tracer, the tools. It is a record of
--   functions that the definitions take, and the definitions assume nothing of them.
--   Ensures: what a fallible computation ensures of its result. The assumptions under which a run
--   completes stand in Repeat.Completes.
-- Issues (recompile/rerun/src/issue_groups.rs)
--   Json: what is used of the values of serde_json, a package outside the repository, with the laws
--   of inserting a field as assumptions. Normalize, Finding: making sites and messages independent
--   of addresses and process ids, and reading the fields of a finding. Inputs, Fingerprint: what a
--   fingerprint is made from, and the fingerprint. Annotate: the groups, and the marked findings.
-- Rules (recompile/re-rules/src), the deferred rule engine, which nothing else uses
--   Event (lib.rs), Config (config.rs): events, findings and the configuration.
--   Matchers, Registry (rules.rs): the matchers and the registered rules. Matchers.Reference says
--   what two of them look for without their sets.
--   Likeness, Ranking, Clusters, Report (clustering.rs): fingerprints and their similarity, scores,
--   `ClusterManager`, and what it tells.
--   Checks, Engine, Process (engine.rs): what a rule computes from a window of events, the check of
--   a rule (`check_rule_by_id`; `check_rule` is its part behind the table of the rules), and
--   `process_event`. A call takes what it reads from the clocks as records: instants, and the time
--   since 1970, which is none on a clock before, where the source panics. Engine.Registered compares
--   the checks with the rules of the registry.
--   Outside: f64, the default hasher, the order in which a HashMap is iterated and the sort of
--   findings by comparisons that read the clock, as parameters. The theorems that need it assume that
--   an iteration visits each entry once (Clusters.Limits), that sorting keeps the elements
--   (Report.Totals), or that it does not panic (Process.Total).
-- Summary (recompile/rerun/src/summary.rs): the summary of a finding, and the lines that are printed
--   of it. Summary.Promoted is about the findings that Cli.Promote.Findings makes, with what
--   `finalize_findings` (native.rs, not modelled) may add to them.
-- Compiler (recompile/recc/src/main.rs): the compiler wrapper, over functions that find and start
--   programs. Arguments: the language and the output; Manifests: a whole run; Libraries: the output
--   of ldd, otool and readelf; Stub: the manifest.
-- Examples: sample data, and the theorems at them.
-- Base: texts as lists of code points, maps and sets as sorted association lists (`BTreeMap` and
--   `BTreeSet`), a stable insertion sort (`sort_by`), paths, numbers in decimal, and their lemmas.
--
-- A mutable variable of the source is a field of a record that the step returns (`Progress` for
-- the loop over the attempts). An `anyhow` error is `err` with its message, a panic `panicked`, or
-- `none` in Observation.Groups and in Issues. u64 sums wrap at 2^64, as in a release build;
-- lengths are unbounded.
-- Loops are structural: the one over the attempts runs on their number, and printing a number in
-- decimal has the number as fuel (Base.Decimal). Text is counted in characters where the source
-- counts bytes of the same text; where a panic depends on bytes, `text_len` counts those.
--
-- Not modelled: printing, the command line, the serialization of the summaries, the native tracer
-- (process control and BPF), the symbolizer of the rules and their unused generic path, and the
-- crashpack writer.
pub mod Base
pub mod Observation
pub mod Escalate
pub mod Cli
pub mod Issues
pub mod Rules
pub mod Compiler
pub mod Examples
pub mod Summary
