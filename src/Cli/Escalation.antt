-- ===== src/Cli/Escalation.antt =====
-- recompile/rerun/src/cli.rs: escalating a target, with findings or without, or with tools alone
-- where native tracing is unavailable.
pub mod Consistent
pub mod Tools
use recompile.Base.{
  ℕ, Bool, true, false, ◌++◌, ◌&&◌, ◌||◌, not, Option, none, some, List, [], ◌∷◌, map, Text, codes,
  text_eq, ltb, unwrap_or, if◌then◌else◌, any, length,
}
use recompile.Base.Paths.{path_join}
use recompile.Observation.Status.{clean, findings, failed, status_eq}
use recompile.Observation.Target.{ObservationTargetSummary, ObservationEscalationSummary}
use recompile.Escalate.Config.{EscalationConfig, default_config}
use recompile.Escalate.Result.{EscalationResult, is_empty}
use recompile.Cli.Policy.{
  Result, ok, err, panicked, ◌>>=◌, ◌>>◌, had_observation_error,
  native_error_allows_tool_only_fallback,
}
use recompile.Cli.Timeouts.{EscalationTimeoutOverrides, apply}
use recompile.Cli.Fallback.{
  observation_escalation_summary, observe_escalation_failure, observe_escalation_skipped,
  fallback_target_status,
}
use recompile.Cli.Target.{summarize_of, replay_of}
use recompile.Cli.Effects.{Effects, ObserveRequest, NativeRunMetadata, CrashpackFindingSnapshot}
use recompile.Escalate.Finding.{EscalationPlan, Finding}

abbrev pub skip_reason : Text
skip_reason =
    codes "sanitizer runtime detected; sanitizer scans provide the primary deep evidence path"

-- The configuration of the runner for the recorded binary.
unfoldable pub scan_config :
    Text → NativeRunMetadata → EscalationTimeoutOverrides → EscalationConfig
scan_config dir analysis timeouts = apply timeouts (record default_config {
  output_dir = path_join dir (codes "escalations");
  binary_path = some analysis.binary_path;
  source_file = analysis.source_path;
  cwd = analysis.cwd;
  args = analysis.args;
})

-- A loop that pushes one result for each element.
each {ℓ} : {A : Type ℓ} → (A → Result EscalationResult) → List A → Result (List EscalationResult)
each f [] = ok []
each f (x ∷ xs) = do result ← f x; results ← each f xs; ok (result ∷ results)

-- `unwrap_or_else` into a failed result.
or_failure : Text → Text → ℕ → Result EscalationResult → Result EscalationResult
unfolding observe_escalation_failure
or_failure finding_id tool now (ok result) = ok result
or_failure finding_id tool now (err error) =
    ok (observe_escalation_failure finding_id tool error now)
or_failure finding_id tool now panicked = panicked

module _ {E : Type 0} (eff : Effects E) where
  check : EscalationConfig → Text → Text → Result EscalationResult
  unfolding or_failure
  check config finding_id tool =
      or_failure finding_id tool eff.now (eff.check_clean_binary config tool)

  scan : EscalationConfig → Bool → Text → Result EscalationResult
  unfolding check observe_escalation_skipped text_eq
  scan config skip_valgrind tool =
      if skip_valgrind && text_eq tool (codes "valgrind")
      then ok (
          observe_escalation_skipped (codes "tool-only-fallback") (codes "valgrind") skip_reason
            eff.now)
      else check config (codes "tool-only-fallback") tool

  unfoldable pub run_observe_binary_scans :
      Text → List Text → EscalationTimeoutOverrides → Result (List EscalationResult)
  unfolding scan scan_config each
  run_observe_binary_scans dir tools timeouts = do
    analysis ← eff.analysis dir
    let config = scan_config dir analysis timeouts
    let skip_valgrind = ltb 1 (length tools) && eff.sanitizer_runtime analysis.binary_path
    each (scan config skip_valgrind) tools

  -- The plan of a finding, with the observer's tool in it.
  plan_for : Finding E → Text → EscalationPlan
  plan_for f tool =
      record (unwrap_or f.escalation (record {
        tool = tool;
        reason = codes "observe_confirm";
        estimated_cost = codes "medium";
        cooldown_ms = 0;
      })) { tool = tool }

  unfoldable pub observe_tool_for_finding : Finding E → Text
  unfolding text_eq
  observe_tool_for_finding f =
      if text_eq f.class (codes "unclassified_crash") then codes "gdb" else codes "valgrind"

  escalate_finding : EscalationConfig → Finding E → Result EscalationResult
  unfolding plan_for observe_tool_for_finding or_failure
  escalate_finding config f =
      let tool = observe_tool_for_finding f in
      or_failure f.id tool eff.now
        (eff.escalate config (record f { escalation = some (plan_for f tool) }))

  -- The first results of `run_observe_escalation`: one for each finding, or the clean check.
  first_results :
      ObservationTargetSummary → Text → EscalationConfig → Text → Result (List EscalationResult)
  unfolding escalate_finding check observe_escalation_skipped each
  first_results target dir config binary_path =
      if ltb 0 target.findings_count
      then (do
        found ← eff.findings (path_join dir (codes "findings.json"))
        each (escalate_finding config) found)
      else if eff.sanitizer_runtime binary_path
      then ok (
          observe_escalation_skipped (codes "clean-run") (codes "valgrind") skip_reason eff.now
          ∷ [])
      else do result ← check config (codes "clean-run") (codes "valgrind"); ok (result ∷ [])

  unfoldable pub run_observe_escalation :
      ObservationTargetSummary → Bool → EscalationTimeoutOverrides → Result (List EscalationResult)
  unfolding first_results check scan_config each
  run_observe_escalation target deep timeouts =
      if not (ltb 0 target.findings_count) && not deep then ok [] else do
        let dir = target.artifacts.crashpack
        analysis ← eff.analysis dir
        let config = scan_config dir analysis timeouts
        results ← first_results target dir config analysis.binary_path
        more ←
            each (check config (codes "clean-run"))
              (if deep then map codes ("asan" ∷ "lsan" ∷ "ubsan" ∷ []) else [])
        ok (results ++ more)

  -- What `promote_tool_findings_to_crashpack` tells of the target.
  with_snapshot :
      ObservationTargetSummary → Option CrashpackFindingSnapshot → ObservationTargetSummary
  with_snapshot target none = target
  with_snapshot target (some snapshot) = record target {
    findings_count = snapshot.count;
    findings_by_class = snapshot.class_counts;
    issue_group_count = snapshot.issue_group_count;
  }

  fallback_target : ObservationTargetSummary → ObserveRequest → Text → ObservationTargetSummary
  fallback_target target request dir = record target {
    error = some (
        codes "native tracing unavailable; used tool-only fallback: "
        ++ unwrap_or target.error (codes "unknown"));
    timeout_ms = request.timeout_ms;
    replay_command = some (replay_of dir);
    summarize_command = some (summarize_of dir);
    next_commands =
        summarize_of dir
        ∷ replay_of dir
        ∷ (codes "rerun escalate " ++ dir ++ codes " --tool valgrind --scan-binary")
        ∷ [];
  }

  -- The results of the scans in a target, if there are any.
  record_scans :
      ObservationTargetSummary → Text → List EscalationResult → Result ObservationTargetSummary
  unfolding with_snapshot observation_escalation_summary
  record_scans target dir results = if is_empty results then ok target else do
    eff.write_results dir results
    snapshot ← eff.promote dir results
    ok (
        with_snapshot (record target { escalation = map observation_escalation_summary results })
          snapshot)

  unfoldable pub run_observe_tool_only_fallback :
      ObservationTargetSummary → ObserveRequest → Text → Result ObservationTargetSummary
  unfolding fallback_target run_observe_binary_scans record_scans fallback_target_status
  run_observe_tool_only_fallback target request dir = do
    eff.prepare_tool_only dir
    let prepared = fallback_target target request dir
    let tools =
        map codes
          (if request.deep then "valgrind" ∷ "asan" ∷ "lsan" ∷ "ubsan" ∷ [] else "valgrind" ∷ [])
    results ← run_observe_binary_scans dir tools request.tool_timeouts
    scanned ← record_scans prepared dir results
    ok (record scanned { status = fallback_target_status scanned results })

  -- A native error that the tools can stand in for.
  needs_fallback : ObservationTargetSummary → Bool
  unfolding native_error_allows_tool_only_fallback
  needs_fallback target = elim target.error [
    | none ↦ false
    | some error ↦ status_eq target.status failed && native_error_allows_tool_only_fallback error
  ]

  promoted :
      ObservationTargetSummary → List EscalationResult → Result (ObservationTargetSummary × Bool)
  unfolding with_snapshot observation_escalation_summary
  promoted target results = do
    let dir = target.artifacts.crashpack
    eff.write_results dir results
    let summaries = map observation_escalation_summary results
    let status =
        if status_eq target.status clean
          && any
              (λ (s : ObservationEscalationSummary).
                s.confirmed || not (is_empty s.findings_detected))
              summaries
        then findings
        else target.status
    snapshot ← eff.promote dir results
    ok (with_snapshot (record target { status = status; escalation = summaries }) snapshot, true)

  unfoldable pub apply_observe_escalation_to_target :
      ObservationTargetSummary → ObserveRequest → Text → Result (ObservationTargetSummary × Bool)
  unfolding needs_fallback run_observe_tool_only_fallback promoted run_observe_escalation
      had_observation_error
  apply_observe_escalation_to_target target request dir =
      if request.native_only
      then ok (target, false)
      else if needs_fallback target
      then (do
        t ← run_observe_tool_only_fallback target request dir
        ok (t, not (is_empty t.escalation)))
      else if had_observation_error target.status
      then ok (target, false)
      else do
        results ← run_observe_escalation target request.deep request.tool_timeouts
        if is_empty results then ok (target, false) else promoted target results
