-- ===== src/Examples/Processes.antt =====
-- The theorems on the runs of the tools in sample surroundings.
use recompile.Base.{Option, ℕ, length, none, ◌≡◌, refl, true, some, [], codes, pos}
use recompile.Escalate.Config.{default_config, EscalationConfig}
use recompile.Escalate.Result.{
  EscalationResult, EscalationStatus, findings, not_applicable, tool_unavailable,
}
use recompile.Escalate.Runner.{new, escalate, check_clean_binary}
use recompile.Escalate.Runner.Answers.{ConsistentAnswer, escalate-Consistent}
use recompile.Escalate.Process.{
  Outcome, Files, failed_with, not_found, done, Surroundings, exited, report_confirmed,
}
use recompile.Escalate.Process.Consistent.{SoundOutcome}
use recompile.Escalate.Process.Sanitizers.{asan, run_sanitizer_result}
use recompile.Escalate.Process.External.{run_gdb_result}
use recompile.Escalate.Process.Sound.{run_sanitizer_result-Sound}
use recompile.Escalate.Process.Dispatch.{run_asan_result, run_lsan_result, tools_in, asan_setting}
use recompile.Examples.Escalations.{sample_finding, sample_plan, at_second}

-- A disk that takes everything, and a process that prints what asan prints.
abbrev pub surroundings : Surroundings
surroundings = record {
  exists = λ path. true;
  canonicalize = λ path. some path;
  read = λ path. done (codes "__asan_init");
  create_dir = λ path. done tt;
  write = λ path text. done tt;
  to_json = λ report. done (codes "{}");
  run = λ command limit.
      exited (some (pos 1)) [] (codes "ERROR: AddressSanitizer: heap-use-after-free");
  elapsed = 12;
  stamp = 1700000000;
}

abbrev with_binary : EscalationConfig
with_binary = record default_config { binary_path = some (codes "/bin/app") }

run_sanitizer_result-Sound_example : SoundOutcome (
    run_sanitizer_result surroundings asan with_binary
      (asan_setting with_binary)
      sample_finding
      (codes "E-1"))
unfolding asan report_confirmed
run_sanitizer_result-Sound_example =
    run_sanitizer_result-Sound surroundings asan (λ out err. refl) with_binary
      (asan_setting with_binary) sample_finding (codes "E-1")

escalate-Consistent_example :
    ConsistentAnswer
      (escalate
        (tools_in (λ id. surroundings))
        (new with_binary)
        (record sample_finding { escalation = some sample_plan })
        (at_second 1)).1
    × ConsistentAnswer
        (check_clean_binary
          (tools_in {E = Unit {0}} (λ id. surroundings))
          (new with_binary)
          (codes "asan")
          (at_second 1)).1
escalate-Consistent_example =
    escalate-Consistent (Unit {0}) (λ id. surroundings) (new with_binary)
      (record sample_finding { escalation = some sample_plan }) (codes "asan") (at_second 1)

-- The status of a run, and how many files it has written.
abbrev status_and_files : Outcome (Files × EscalationResult) → Option (EscalationStatus × ℕ)
status_and_files (done r) = some (r.1.status, length r.0)
status_and_files (failed_with e) = none

abbrev without_valgrind : Surroundings
without_valgrind = record surroundings { run = λ command limit. not_found (codes "no such file") }

runs_test :
    (status_and_files (run_asan_result surroundings with_binary sample_finding (codes "E-1"))
      ≡ some (findings, 3))
    × (status_and_files (run_lsan_result surroundings with_binary sample_finding (codes "E-2"))
        ≡ some (not_applicable, 0))
    × (status_and_files (run_gdb_result without_valgrind with_binary sample_finding (codes "E-3"))
        ≡ some (tool_unavailable, 1))
    × (status_and_files (run_asan_result without_valgrind with_binary sample_finding (codes "E-4"))
        ≡ none)
unfolding run_sanitizer_result default_config recompile.Escalate.Process.find_binary asan
    recompile.Base.Scan.contains recompile.Escalate.Process.end_reported
    recompile.Escalate.Tools.Asan.parse_asan_output recompile.Escalate.Tools.combined
    recompile.Base.Scan.trim_end_of recompile.Base.Scan.trim_start_of
    recompile.Escalate.Tools.Asan.asan_line recompile.Escalate.Tools.Asan.asan_error_class
    recompile.Base.Scan.is_whitespace recompile.Escalate.Tools.push_detection
    recompile.Escalate.Process.Sanitizers.lsan run_gdb_result
runs_test = (refl, refl, refl, refl)
