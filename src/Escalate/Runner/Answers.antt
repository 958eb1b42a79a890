-- ===== src/Escalate/Runner/Answers.antt =====
-- What the runner answers when it starts the tools itself.
use recompile.Base.{
  ℕ, [], refl, Bool, true, false, Option, none, some, Text, codes, text_eq, if◌then◌else◌,
}
use recompile.Escalate.Finding.{Finding, EscalationPlan}
use recompile.Escalate.Config.{EscalationConfig}
use recompile.Escalate.Result.{EscalationResult, failed, result_failure}
use recompile.Escalate.Runner.{
  EscalationRunner, EscalationError, config, Moment, Answer, answered, refused, is_in_cooldown,
  settle, escalate, escalate_planned, check_clean_binary, ask, ask_clean,
}
use recompile.Escalate.Process.{Outcome, done, failed_with, Surroundings, Files, report_confirmed}
use recompile.Escalate.Process.Consistent.{Consistent, SoundOutcome, failure-Sound}
use recompile.Escalate.Process.Sanitizers.{asan, lsan, ubsan}
use recompile.Escalate.Process.Sound.{
  run_sanitizer_result-Sound, run_sanitizer_clean_check-Sound, run_valgrind_escalation-Sound,
  run_valgrind_clean_check-Sound, run_gdb_result-Sound,
}
use recompile.Escalate.Process.Dispatch.{
  answer, tools_in, asan_setting, lsan_setting, ubsan_setting,
}

-- A result that is answered is consistent.
abbrev pub ConsistentAnswer : Answer → Type 0
ConsistentAnswer (answered r) = Consistent r
ConsistentAnswer (refused e) = Unit

answer-Consistent :
    (o : Outcome (Files × EscalationResult)) → SoundOutcome o → ConsistentAnswer (answer o)
answer-Consistent (done (files, r)) h = h.consistent
answer-Consistent (failed_with e) h = tt

choose-Consistent :
    (b : Bool) (x y : Answer)
    → ConsistentAnswer x
    → ConsistentAnswer y
    → ConsistentAnswer (if b then x else y)
choose-Consistent true x y h k = h
choose-Consistent false x y h k = k

unknown-Consistent :
    (finding_id id tool error : Text) (available : Bool) (ms now : ℕ)
    → ConsistentAnswer (answered (result_failure finding_id id tool available ms error now))
unfolding result_failure
unknown-Consistent finding_id id tool error available ms now =
    (failure-Sound [] finding_id id tool failed available ms none error now refl).consistent

settle-Consistent :
    (b : Bool) (runner : EscalationRunner) (tool : Text) (wait ended : ℕ) (error : EscalationError)
    (a : Answer)
    → ConsistentAnswer a
    → ConsistentAnswer (if b then (runner, refused error) else settle runner tool wait ended a).1
unfolding settle
settle-Consistent true runner tool wait ended error a h = tt
settle-Consistent false runner tool wait ended error (answered r) h = h
settle-Consistent false runner tool wait ended error (refused e) h = tt

module _ (E : Type 0) (env : Text → Surroundings) where
  ask-Consistent :
      (c : EscalationConfig) (finding : Finding E) (tool : Text) (m : Moment)
      → ConsistentAnswer (ask (tools_in env) c finding tool m)
  unfolding ask tools_in asan lsan ubsan report_confirmed
  ask-Consistent c finding tool m =
      choose-Consistent (text_eq tool (codes "asan")) _ _
        (answer-Consistent _ (
          run_sanitizer_result-Sound (env m.id) asan (λ out err. refl) c (asan_setting c) finding
            m.id))
        (choose-Consistent (text_eq tool (codes "lsan")) _ _
          (answer-Consistent _ (
            run_sanitizer_result-Sound (env m.id) lsan (λ out err. refl) c (lsan_setting c) finding
              m.id))
          (choose-Consistent (text_eq tool (codes "ubsan")) _ _
            (answer-Consistent _ (
              run_sanitizer_result-Sound (env m.id) ubsan (λ out err. refl) c (ubsan_setting c)
                finding m.id))
            (choose-Consistent (text_eq tool (codes "valgrind")) _ _
              (answer-Consistent _ (run_valgrind_escalation-Sound (env m.id) c finding m.id))
              (choose-Consistent (text_eq tool (codes "gdb")) _ _
                (answer-Consistent _ (run_gdb_result-Sound (env m.id) c finding m.id))
                (unknown-Consistent finding.id m.id tool _ false m.elapsed m.stamp)))))

  ask_clean-Consistent :
      (c : EscalationConfig) (tool : Text) (m : Moment)
      → ConsistentAnswer (ask_clean (tools_in {E = E} env) c tool m)
  unfolding ask_clean tools_in asan lsan ubsan report_confirmed
  ask_clean-Consistent c tool m =
      choose-Consistent (text_eq tool (codes "valgrind")) _ _
        (answer-Consistent _ (run_valgrind_clean_check-Sound (env m.id) c m.id))
        (choose-Consistent (text_eq tool (codes "asan")) _ _
          (answer-Consistent _ (
            run_sanitizer_clean_check-Sound (env m.id) asan (λ out err. refl) c (asan_setting c)
              m.id))
          (choose-Consistent (text_eq tool (codes "lsan")) _ _
            (answer-Consistent _ (
              run_sanitizer_clean_check-Sound (env m.id) lsan (λ out err. refl) c (lsan_setting c)
                m.id))
            (choose-Consistent (text_eq tool (codes "ubsan")) _ _
              (answer-Consistent _ (
                run_sanitizer_clean_check-Sound (env m.id) ubsan (λ out err. refl) c
                  (ubsan_setting c) m.id))
              (unknown-Consistent (codes "clean-run") m.id tool _ false m.elapsed m.stamp))))

  pub check-Consistent :
      (runner : EscalationRunner) (tool : Text) (m : Moment)
      → ConsistentAnswer (check_clean_binary (tools_in {E = E} env) runner tool m).1
  unfolding check_clean_binary
  check-Consistent runner tool m =
      settle-Consistent (is_in_cooldown runner tool m.asked) runner tool 0 m.ended _ _
        (ask_clean-Consistent runner.config tool m)

  -- Whatever the runner answers, to a finding or to a check of the binary, for any tool and however
  -- the tool ends, is consistent: with a report, the status is findings exactly if the report
  -- confirms something, which is exactly if it has classes, else clean, and there is no error;
  -- without one there is an error, and neither a confirmation nor a class.
  pub escalate-Consistent :
      (runner : EscalationRunner) (finding : Finding E) (tool : Text) (m : Moment)
      → ConsistentAnswer (escalate (tools_in env) runner finding m).1
        × ConsistentAnswer (check_clean_binary (tools_in {E = E} env) runner tool m).1
  unfolding escalate escalate_planned
  escalate-Consistent runner finding tool m = (
    elim finding.escalation
        as (λ (p : Option EscalationPlan).
          ConsistentAnswer
            (elim p as (λ x. EscalationRunner × Answer) [
              | none ↦ (runner, refused (config (codes "No escalation plan in finding")))
              | some plan ↦ escalate_planned (tools_in env) runner finding plan m
            ]).1) [
              | none ↦ tt
              | some plan ↦
                  settle-Consistent (is_in_cooldown runner plan.tool m.asked) runner plan.tool
                    plan.cooldown_ms m.ended _ _ (ask-Consistent runner.config finding plan.tool m)
            ],
    check-Consistent runner tool m,
  )
