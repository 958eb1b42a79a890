-- ===== src/Escalate/Process/Consistent.antt =====
-- The results of the tools: whether their fields agree, and whether the files that they name
-- have been written.
use recompile.Base.{
  any-append, ℕ, ℤ, ◌≡◌, refl, sym, ap, ◌∙◌, ◌∷◌, [], ◌++◌, not, Bool, true, false, Option, none,
  some, List, Text, text_eq, text_eq_refl, any, is_some, arith, if◌then◌else◌,
}
use recompile.Escalate.Result.{
  EscalationResult, EscalationStatus, findings, clean, is_empty, result_failure_with_status,
  timeout_result, successful_status,
}
use recompile.Escalate.Tools.Classes.{detected_classes-empty}
use recompile.Escalate.Process.{
  Outcome, done, failed_with, ◌>>>◌, Report, report_detected, report_confirmed, Surroundings, Files,
  LogPaths, write_file, end_late, reported, end_reported,
}

-- The statuses of a tool that gave no report.
abbrev pub gave_none : EscalationStatus → Bool
gave_none clean = false
gave_none findings = false
gave_none _ = true

-- A result with a report has a status, a confirmation and classes that agree, and no error; one
-- without has an error, and neither a confirmation nor classes.
pub data Consistent (r : EscalationResult) : Type 0 where
  with_report :
      r.success ≡ true
      → r.status ≡ (if r.confirmed then findings else clean)
      → r.confirmed ≡ not (is_empty r.findings_detected)
      → r.error ≡ none
      → is_some r.report_path ≡ true
      → Consistent r
  without_report :
      r.success ≡ false
      → gave_none r.status ≡ true
      → r.confirmed ≡ false
      → r.findings_detected ≡ []
      → is_some r.error ≡ true
      → r.report_path ≡ none
      → Consistent r

-- A file under a path that the result names has been written.
abbrev pub is_written : Files → Option Text → Bool
is_written files none = true
is_written files (some path) = any (λ f. text_eq path f.0) files

-- A result is consistent, and the files that it names have been written.
pub record Sound (files : Files) (r : EscalationResult) : Type 0 where
  pub consistent : Consistent r
  pub stdout : is_written files r.stdout_path ≡ true
  pub stderr : is_written files r.stderr_path ≡ true
  pub report : is_written files r.report_path ≡ true

-- What an outcome ensures, if it is a result.
abbrev pub SoundOutcome : Outcome (Files × EscalationResult) → Type 0
SoundOutcome (done r) = Sound r.0 r.1
SoundOutcome (failed_with e) = Unit

pub bind-Sound :
    {A : Type 0} (m : Outcome A) (f : A → Outcome (Files × EscalationResult))
    → ((a : A) → SoundOutcome (f a))
    → SoundOutcome (m >>> f)
bind-Sound (done a) f h = h a
bind-Sound (failed_with e) f h = tt

pub failure-Sound :
    (files : Files) (finding_id id tool : Text) (status : EscalationStatus) (available : Bool)
    (ms : ℕ) (limit : Option ℕ) (error : Text) (now : ℕ)
    → gave_none status ≡ true
    → Sound files
        (result_failure_with_status finding_id id tool status available ms limit error now)
unfolding result_failure_with_status
failure-Sound files finding_id id tool status available ms limit error now h = record {
  consistent = without_report refl h refl refl refl refl;
  stdout = refl;
  stderr = refl;
  report = refl;
}

-- Does a file stand under the path?
abbrev stands : Text → Files → Bool
stands path files = any (λ f. text_eq path f.0) files

stands_first : (path text : Text) (files : Files) → stands path (files ++ (path, text) ∷ []) ≡ true
stands_first path text files =
    ground (arith, any-append (λ f. text_eq path f.0) files ((path, text) ∷ []), text_eq_refl path)

stands_still :
    (path other text : Text) (files : Files)
    → stands path files ≡ true
    → stands path (files ++ (other, text) ∷ []) ≡ true
stands_still path other text files h =
    ground (arith, any-append (λ f. text_eq path f.0) files ((other, text) ∷ []))

module _ (env : Surroundings) where
  -- A file that is written stands there, with all before it.
  pub write-Sound :
      (path text : Text) (files : Files) (f : Files → Outcome (Files × EscalationResult))
      → SoundOutcome (f (files ++ (path, text) ∷ []))
      → SoundOutcome (write_file env path text files >>> f)
  unfolding write_file
  write-Sound path text files f h =
      elim (env.write path text)
        as (λ w. SoundOutcome ((w >>> λ _. done (files ++ (path, text) ∷ [])) >>> f)) [
          | done u ↦ h
          | failed_with e ↦ tt
        ]

  pub end_late-Sound :
      (finding_id id tool : Text) (limit : ℕ) (command : List Text) (paths : LogPaths)
      (files : Files)
      → SoundOutcome (end_late env finding_id id tool limit command paths files)
  unfolding end_late timeout_result
  end_late-Sound finding_id id tool limit command paths files =
      let first = files ++ (paths.stdout_file, []) ∷ [] in
      write-Sound paths.stdout_file [] files _ (
        write-Sound paths.stderr_file _ first _ (record {
          consistent = without_report refl refl refl refl refl refl;
          stdout =
              stands_still paths.stdout_file paths.stderr_file _ first
                (stands_first paths.stdout_file [] files);
          stderr = stands_first paths.stderr_file _ first;
          report = refl;
        }))

  reported-Consistent :
      (finding_id id tool : Text) (limit : ℕ) (command : List Text) (paths : LogPaths)
      (code : Option ℤ) (report : Report)
      → report_confirmed report ≡ not (is_empty (report_detected report))
      → Consistent (reported env finding_id id tool limit command paths code report)
  unfolding reported successful_status
  reported-Consistent finding_id id tool limit command paths code report h =
      let same = detected_classes-empty (report_detected report) in
      with_report refl (ground (arith, h, same)) (h ∙ ap not (sym same)) refl refl

  pub end_reported-Sound :
      (finding_id id tool : Text) (limit : ℕ) (command : List Text) (paths : LogPaths)
      (files : Files) (code : Option ℤ) (out err : Text) (report : Report)
      → report_confirmed report ≡ not (is_empty (report_detected report))
      → SoundOutcome
          (end_reported env finding_id id tool limit command paths files code out err report)
  unfolding end_reported reported
  end_reported-Sound finding_id id tool limit command paths files code out err report h =
      let one = files ++ (paths.stdout_file, out) ∷ [] in
      let two = one ++ (paths.stderr_file, err) ∷ [] in
      write-Sound paths.stdout_file out files _ (
        write-Sound paths.stderr_file err one _ (
          bind-Sound (env.to_json report) _ (λ json.
            write-Sound paths.report_file json two _ (record {
              consistent = reported-Consistent finding_id id tool limit command paths code report h;
              stdout = stands_still paths.stdout_file paths.report_file json two (
                  stands_still paths.stdout_file paths.stderr_file err one
                    (stands_first paths.stdout_file out files));
              stderr =
                  stands_still paths.stderr_file paths.report_file json two
                    (stands_first paths.stderr_file err one);
              report = stands_first paths.report_file json two;
            }))))
