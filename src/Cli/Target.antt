-- ===== src/Cli/Target.antt =====
-- recompile/rerun/src/cli.rs: the target summary of a traced run, or of one that could not start.
use recompile.Base.{
  ℕ, ◌++◌, Option, none, some, List, [], ◌∷◌, Text, codes, ltb, unwrap_or, if◌then◌else◌,
}
use recompile.Base.Paths.{path_join}
use recompile.Observation.Status.{TargetStatus, clean, findings, failed, timeout}
use recompile.Observation.Target.{ObservationTargetSummary, new_target, target_defaults, not_run}
use recompile.Cli.Effects.{NativeRunResult, u128_to_u64}

abbrev pub summarize_of : Text → Text
summarize_of dir = codes "rerun summarize " ++ dir ++ codes " --format json"

abbrev pub replay_of : Text → Text
replay_of dir = codes "rerun replay " ++ dir ++ codes " --format json"

native_status : NativeRunResult → TargetStatus
native_status result =
    if result.timed_out then timeout else if ltb 0 result.findings_count then findings else clean

unfoldable pub observation_target_from_native_result :
    Text → Option ℕ → NativeRunResult → ObservationTargetSummary
unfolding native_status
observation_target_from_native_result name timeout_ms result =
    let dir = result.output_dir in
    record (new_target name result.binary_path result.args (unwrap_or result.cwd (codes "."))
      (native_status result)
      (record { code = result.exit_code; signal = result.signal; crashed = result.crashed })
      (target_defaults dir)) {
        duration_ms = some (u128_to_u64 result.duration_ms);
        timeout_ms = timeout_ms;
        findings_count = result.findings_count;
        findings_by_class = result.findings_by_class;
        issue_group_count = result.issue_group_count;
        replay_command = some (replay_of dir);
        summarize_command = some (summarize_of dir);
        next_commands = summarize_of dir ∷ replay_of dir ∷ [];
        error = if result.timed_out then some (codes "target timed out") else none;
      }

unfoldable pub observation_target_from_error :
    Text → Text → List Text → Option Text → Text → Option ℕ → Text → ℕ → ObservationTargetSummary
observation_target_from_error name binary_path args cwd output_root timeout_ms error duration =
    let dir = path_join (path_join output_root (codes "targets")) name in
    record (new_target name binary_path args (unwrap_or cwd (codes ".")) failed not_run
      (target_defaults dir)) {
        error = some error;
        duration_ms = some (u128_to_u64 duration);
        timeout_ms = timeout_ms;
        next_commands = (codes "jq . " ++ path_join output_root (codes "run-summary.json")) ∷ [];
      }
