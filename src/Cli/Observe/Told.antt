-- ===== src/Cli/Observe/Told.antt =====
-- What the summary of a run tells of the tools.
use recompile.Base.{◌≡◌, refl, ◌∷◌, [], All, Text, codes}
use recompile.Base.Paths.{path_join}
use recompile.Observation.Target.{ObservationTargetSummary, new_target}
use recompile.Observation.Run.{ObservationRunSummary, new_run}
use recompile.Escalate.Finding.{Finding}
use recompile.Escalate.Config.{EscalationConfig}
use recompile.Escalate.Process.{Surroundings}
use recompile.Escalate.Process.Consistent.{Consistent}
use recompile.Escalate.Runner.{Moment}
use recompile.Cli.Policy.{Result, ok, err, panicked, ◌>>=◌}
use recompile.Cli.Ensures.{Ensures, ensured, gives, after, after_known, branch}
use recompile.Cli.Effects.{Effects, ObserveRequest, NativeRunResult}
use recompile.Cli.Target.{observation_target_from_native_result, observation_target_from_error}
use recompile.Cli.Escalation.{apply_observe_escalation_to_target}
use recompile.Cli.Escalation.Consistent.{AreTold, FirstAreTold, apply-AreTold}
use recompile.Cli.Escalation.Tools.{with_runner, escalates, checks}
use recompile.Cli.Observe.{traced, escalate_if, run_observe_once, observation_target_name, jq_of}

-- The targets of a run.
abbrev pub TargetsTold : ObservationRunSummary → Type 0
TargetsTold summary = All AreTold summary.targets

module _ {E : Type 0} (eff : Effects E)
    (sound : (c : EscalationConfig) (f : Finding E) → Ensures Consistent (eff.escalate c f))
    (sound_clean : (c : EscalationConfig) (tool : Text)
      → Ensures Consistent (eff.check_clean_binary c tool)) where
  traced-AreTold :
      (request : ObserveRequest) (name dir : Text) (r : Result NativeRunResult)
      → eff.native_run dir ≡ r
      → Ensures AreTold (traced eff request name dir)
  unfolding traced observation_target_from_native_result observation_target_from_error Ensures
      new_target
  traced-AreTold request name dir (ok result) e = rw (traced, e) tt
  traced-AreTold request name dir (err error) e = rw (traced, e) tt
  traced-AreTold request name dir panicked e = rw (traced, e) tt

  escalate_if-AreTold :
      (request : ObserveRequest) (target : ObservationTargetSummary) (dir : Text)
      → AreTold target
      → Ensures AreTold (escalate_if eff request target dir)
  unfolding escalate_if
  escalate_if-AreTold request target dir h =
      branch AreTold request.escalation_enabled _ _
        (after_known AreTold FirstAreTold
          (apply_observe_escalation_to_target eff target request dir) (λ r. ok r.0)
          (apply-AreTold eff sound sound_clean target request dir h) (λ r k. gives AreTold r.0 k))
        (gives AreTold target h)

  run-TargetsTold : (request : ObserveRequest) → Ensures TargetsTold (run_observe_once eff request)
  unfolding run_observe_once
  run-TargetsTold request =
      let name = observation_target_name request.binary_path in
      let dir = path_join (path_join request.output_root (codes "targets")) name in
      let summary_of = λ (target : ObservationTargetSummary).
        new_run request.output_root (target ∷ [])
          (jq_of request.output_root (codes "run-summary.json") ∷ []) in
      after TargetsTold (eff.create_dir dir) _ (λ u.
        after_known TargetsTold AreTold (traced eff request name dir)
          (λ target.
            escalate_if eff request (record target { diagnostics = eff.diagnostics }) dir
            >>= λ target'. eff.write_summary request.output_root (summary_of target') >>= λ w.
                ok (summary_of target'))
          (traced-AreTold request name dir (eff.native_run dir) refl)
          (λ target h.
            after_known TargetsTold AreTold
              (escalate_if eff request (record target { diagnostics = eff.diagnostics }) dir)
              (λ target'. eff.write_summary request.output_root (summary_of target') >>= λ w.
                ok (summary_of target'))
              (escalate_if-AreTold request (record target { diagnostics = eff.diagnostics }) dir h)
              (λ target' k.
                after TargetsTold (eff.write_summary request.output_root (summary_of target'))
                  (λ w. ok (summary_of target'))
                  (λ w. gives TargetsTold (summary_of target') (unfold new_run in (k, tt))))))

-- With the runner behind the observer, whatever the tracer, the tools and the files do: in the
-- summary of a run that is made, every escalation of every target has the status findings exactly if
-- the tool confirmed something, which is exactly if it detected classes, and an error exactly if its
-- status is neither findings nor clean.
pub run_observe_once_tells :
    {E : Type 0} (env : Text → Surroundings) (asked : Finding E → Moment)
    (asked_clean : Text → Moment) (eff : Effects E) (request : ObserveRequest)
    (summary : ObservationRunSummary)
    → run_observe_once (with_runner env asked asked_clean eff) request ≡ ok summary
    → All AreTold summary.targets
run_observe_once_tells env asked asked_clean eff request summary e =
    let behind = with_runner env asked asked_clean eff in
    ensured TargetsTold (run_observe_once behind request) summary
      (run-TargetsTold behind (escalates env asked asked_clean eff)
        (checks env asked asked_clean eff) request)
      e
