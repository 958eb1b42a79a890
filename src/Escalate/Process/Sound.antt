-- ===== src/Escalate/Process/Sound.antt =====
-- What every run of a tool ensures of its result.
use recompile.Base.{
  ℕ, ◌≡◌, refl, [], not, Bool, true, false, List, Text, codes, arith, if◌then◌else◌,
}
use recompile.Escalate.Finding.{Finding}
use recompile.Escalate.Config.{EscalationConfig}
use recompile.Escalate.Result.{
  EscalationResult, is_empty, not_applicable, failed, tool_unavailable, result_failure,
}
use recompile.Escalate.Tools.Gdb.{parse_gdb_output}
use recompile.Escalate.Tools.Crashes.{parse_gdb_confirms}
use recompile.Escalate.Process.{
  Outcome, Report, of_gdb, report_detected, report_confirmed, Surroundings, Files, LogPaths,
  find_binary, clean_binary, Ending, exited, late, not_found, broken,
}
use recompile.Escalate.Process.Consistent.{
  SoundOutcome, bind-Sound, failure-Sound, write-Sound, end_late-Sound, end_reported-Sound,
}
use recompile.Escalate.Process.Sanitizers.{
  Sanitizer, Setting, looks_instrumented, end_instrumented, run_instrumented, run_sanitizer_binary,
  disabled, run_sanitizer_result, run_sanitizer_clean_check,
}
use recompile.Escalate.Process.External.{
  end_external, run_valgrind_binary, run_valgrind_escalation, run_valgrind_clean_check,
  run_gdb_binary, run_gdb_result,
}

-- What a parser of output says of its reports.
abbrev Agrees : (Text → Text → Report) → Type 0
Agrees parse =
    (out err : Text)
    → report_confirmed (parse out err) ≡ not (is_empty (report_detected (parse out err)))

gdb-Agrees : Agrees (λ out err. of_gdb (parse_gdb_output out err))
unfolding report_confirmed report_detected
gdb-Agrees out err =
    let report = parse_gdb_output out err in
    let one = (parse_gdb_confirms out err).1 in ground (arith, one)

if-Sound :
    (b : Bool) (x y : Outcome (Files × EscalationResult))
    → SoundOutcome x
    → SoundOutcome y
    → SoundOutcome (if b then x else y)
if-Sound true x y h k = h
if-Sound false x y h k = k

module _ (env : Surroundings) where
  module _ (s : Sanitizer) (agrees : Agrees s.parse) where
    end_instrumented-Sound :
        (finding_id id : Text) (limit : ℕ) (command : List Text) (paths : LogPaths)
        (ending : Ending)
        → SoundOutcome (end_instrumented env s finding_id id limit command paths ending)
    unfolding end_instrumented
    end_instrumented-Sound finding_id id limit command paths late =
        end_late-Sound env finding_id id s.name limit command paths []
    end_instrumented-Sound finding_id id limit command paths (not_found message) = tt
    end_instrumented-Sound finding_id id limit command paths (broken message) = tt
    end_instrumented-Sound finding_id id limit command paths (exited code out err) =
        end_reported-Sound env finding_id id s.name limit command paths [] code out err
          (s.parse out err) (agrees out err)

    sanitizer-Sound :
        (c : EscalationConfig) (setting : Setting) (finding_id binary_path id : Text)
        → SoundOutcome (run_sanitizer_binary env s c setting finding_id binary_path id)
    unfolding run_sanitizer_binary run_instrumented
    sanitizer-Sound c setting finding_id binary_path id =
        bind-Sound (looks_instrumented env s binary_path) _ (λ instrumented.
          if-Sound instrumented _ _
            (bind-Sound (env.create_dir _) _
              (λ u. end_instrumented-Sound finding_id id setting.timeout_ms _ _ _))
            (failure-Sound [] finding_id id s.name not_applicable true _ _ _ _ refl))

    disabled-Sound : (finding_id id : Text) → SoundOutcome (disabled env s finding_id id)
    unfolding disabled result_failure
    disabled-Sound finding_id id = failure-Sound [] finding_id id s.name failed false _ _ _ _ refl

    -- A sanitizer that is asked about a finding gives a consistent result and writes the files
    -- that it names, if it gives one.
    pub run_sanitizer_result-Sound :
        {E : Type 0} (c : EscalationConfig) (setting : Setting) (finding : Finding E) (id : Text)
        → SoundOutcome (run_sanitizer_result env s c setting finding id)
    unfolding run_sanitizer_result
    run_sanitizer_result-Sound c setting finding id =
        if-Sound setting.enabled _ _
          (bind-Sound (find_binary env c finding) _
            (λ binary_path. sanitizer-Sound c setting finding.id binary_path id))
          (disabled-Sound finding.id id)

    pub run_sanitizer_clean_check-Sound :
        (c : EscalationConfig) (setting : Setting) (id : Text)
        → SoundOutcome (run_sanitizer_clean_check env s c setting id)
    unfolding run_sanitizer_clean_check
    run_sanitizer_clean_check-Sound c setting id =
        if-Sound setting.enabled _ _
          (bind-Sound (clean_binary env c _) _
            (λ binary_path. sanitizer-Sound c setting (codes "clean-run") binary_path id))
          (disabled-Sound (codes "clean-run") id)

  end_external-Sound :
      (finding_id id tool : Text) (limit : ℕ) (command : List Text) (paths : LogPaths)
      (files : Files) (parse : Text → Text → Report) (ending : Ending)
      → Agrees parse
      → SoundOutcome (end_external env finding_id id tool limit command paths files parse ending)
  unfolding end_external
  end_external-Sound finding_id id tool limit command paths files parse late a =
      end_late-Sound env finding_id id tool limit command paths files
  end_external-Sound finding_id id tool limit command paths files parse (not_found message) a =
      failure-Sound files finding_id id tool tool_unavailable false _ _ _ _ refl
  end_external-Sound finding_id id tool limit command paths files parse (broken message) a = tt
  end_external-Sound finding_id id tool limit command paths files parse (exited code out err) a =
      end_reported-Sound env finding_id id tool limit command paths files code out err
        (parse out err) (a out err)

  run_valgrind_binary-Sound :
      (c : EscalationConfig) (finding_id binary_path id : Text)
      → SoundOutcome (run_valgrind_binary env c finding_id binary_path id)
  unfolding run_valgrind_binary report_confirmed
  run_valgrind_binary-Sound c finding_id binary_path id = bind-Sound (env.create_dir _) _ (λ u.
      end_external-Sound finding_id id (codes "valgrind") c.tools.valgrind.timeout_ms _ _ [] _ _
        (λ out err. refl))

  pub run_valgrind_escalation-Sound :
      {E : Type 0} (c : EscalationConfig) (finding : Finding E) (id : Text)
      → SoundOutcome (run_valgrind_escalation env c finding id)
  unfolding run_valgrind_escalation result_failure
  run_valgrind_escalation-Sound c finding id =
      if-Sound c.tools.valgrind.enabled _ _
        (bind-Sound (find_binary env c finding) _
          (λ binary_path. run_valgrind_binary-Sound c finding.id binary_path id))
        (failure-Sound [] finding.id id (codes "valgrind") failed false _ _ _ _ refl)

  pub run_valgrind_clean_check-Sound :
      (c : EscalationConfig) (id : Text) → SoundOutcome (run_valgrind_clean_check env c id)
  unfolding run_valgrind_clean_check result_failure
  run_valgrind_clean_check-Sound c id =
      if-Sound c.tools.valgrind.enabled _ _
        (bind-Sound (clean_binary env c _) _
          (λ binary_path. run_valgrind_binary-Sound c (codes "clean-run") binary_path id))
        (failure-Sound [] (codes "clean-run") id (codes "valgrind") failed false _ _ _ _ refl)

  pub run_gdb_result-Sound :
      {E : Type 0} (c : EscalationConfig) (finding : Finding E) (id : Text)
      → SoundOutcome (run_gdb_result env c finding id)
  unfolding run_gdb_result run_gdb_binary result_failure
  run_gdb_result-Sound c finding id =
      if-Sound c.tools.gdb.enabled _ _
        (bind-Sound (find_binary env c finding) _ (λ binary_path.
          bind-Sound (env.create_dir _) _ (λ u. write-Sound env _ _ [] _ (
            end_external-Sound finding.id id (codes "gdb") c.tools.gdb.timeout_ms _ _ _ _ _
              gdb-Agrees))))
        (failure-Sound [] finding.id id (codes "gdb") failed false _ _ _ _ refl)
