-- ===== src/Examples/Told.antt =====
-- The theorem on the summary of a run with the runner of the tools, at sample data.
use recompile.Base.{◌≡◌, refl, ◌∷◌, [], some, All, codes}
use recompile.Observation.Run.{ObservationRunSummary}
use recompile.Escalate.Process.{Surroundings}
use recompile.Escalate.Runner.{Moment}
use recompile.Cli.Policy.{ok}
use recompile.Cli.Effects.{Effects}
use recompile.Cli.Observe.{run_observe_once}
use recompile.Cli.Escalation.Consistent.{AreTold}
use recompile.Cli.Escalation.Tools.{with_runner}
use recompile.Cli.Observe.Told.{run_observe_once_tells}
use recompile.Examples.{attempt_effects, request}
use recompile.Examples.Escalations.{sample_finding, sample_plan, at_second}
use recompile.Examples.Processes.{surroundings}

-- The native run has one finding, which asks for valgrind.
abbrev with_finding : Effects (Unit {0})
with_finding = record (attempt_effects 1) {
  findings = λ dir. ok (record sample_finding { escalation = some sample_plan } ∷ []);
}

abbrev with_tools : Effects (Unit {0})
with_tools =
    with_runner (λ id. surroundings) (λ finding. at_second 1) (λ tool. at_second 1) with_finding

unfoldable observed :
    (summary : ObservationRunSummary) × (run_observe_once with_tools request ≡ ok summary)
unfolding run_observe_once with_runner recompile.Cli.Escalation.apply_observe_escalation_to_target
    recompile.Cli.Target.observation_target_from_native_result
    recompile.Observation.Target.new_target recompile.Escalate.Runner.escalate
    recompile.Escalate.Runner.is_in_cooldown recompile.Base.Dict.get
    recompile.Escalate.Process.Dispatch.tools_in
    recompile.Escalate.Process.External.run_valgrind_escalation recompile.Cli.Timeouts.apply
    recompile.Escalate.Config.default_config recompile.Escalate.Process.find_binary
    recompile.Escalate.Process.end_reported
observed = (_, refl)

run_observe_once_tells_example : All AreTold observed.0.targets
run_observe_once_tells_example =
    run_observe_once_tells (λ id. surroundings) (λ finding. at_second 1) (λ tool. at_second 1)
      with_finding request observed.0 observed.1
