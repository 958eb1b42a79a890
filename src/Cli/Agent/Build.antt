-- ===== src/Cli/Agent/Build.antt =====
-- recompile/rerun/src/cli.rs: `build_agent_summary` and `build_repeat_agent_summary`.
use recompile.Base.{
  ℕ, ◌-◌, ◌∷◌, [], ◌++◌, ◌>>=◌, Bool, Option, List, map, length, ltb, Text, codes, unwrap_or,
  if◌then◌else◌,
}
use recompile.Base.Paths.{path_join}
use recompile.Issues.Json.{Json}
use recompile.Issues.Finding.{value_at}
use recompile.Cli.Promote.Findings.{Maker}
use recompile.Cli.Agent.{
  or_null, or_object, or_array, pointer, compact_agent_finding, summarize_escalation_results,
}

-- `json!` of a quotient of floating-point numbers is the parameter `quotient`.
module _ {V : Type 0} (json : Json V) (maker : Maker V) (as_bool : V → Option Bool)
    (quotient : ℕ → ℕ → V) where
  -- The values of an array under a key, if there is one.
  abbrev array_at : V → Text → List V
  array_at value key = unwrap_or (json.get value key >>= json.as_array) []

  unfoldable pub build_agent_summary : Text → V → List V → V
  unfolding compact_agent_finding summarize_escalation_results value_at
  build_agent_summary crashpack_path evidence_pack escalation_results =
      let findings =
        map (compact_agent_finding json maker as_bool escalation_results)
          (array_at evidence_pack (codes "findings")) in
      let escalation =
        summarize_escalation_results json maker as_bool crashpack_path escalation_results in
      let of : Text → Text × V =
        λ key. (key, pointer json maker as_bool maker.null evidence_pack (codes "summary") key) in
      let runs : Text → Text → V → Text × V =
        λ name key default. (name, unwrap_or (json.get escalation key) default) in
      maker.object (
        (codes "schema_version", json.string (codes "1.0"))
        ∷ (codes "purpose", json.string (codes "agent_summary"))
        ∷ (codes "crashpack", json.string crashpack_path)
        ∷ or_object json maker as_bool evidence_pack (codes "artifacts")
        ∷ or_object json maker as_bool evidence_pack (codes "binary")
        ∷ (
          codes "summary",
          maker.object (
              of (codes "total_findings")
              ∷ (
                codes "class_counts",
                pointer json maker as_bool (maker.object []) evidence_pack (codes "summary")
                    (codes "class_counts"),
              )
              ∷ of (codes "source_resolved")
              ∷ of (codes "source_unresolved")
              ∷ of (codes "issue_group_count")
              ∷ runs (codes "escalation_total_runs") (codes "total_runs") maker.null
              ∷ runs (codes "escalation_confirmed_runs") (codes "confirmed_runs") maker.null
              ∷ runs (codes "escalation_detected_classes") (codes "detected_classes")
                  (maker.array [])
              ∷ []),
        )
        ∷ or_array json maker as_bool evidence_pack (codes "issue_groups")
        ∷ (codes "findings", maker.array findings)
        ∷ (codes "escalation", escalation)
        ∷ [])

  abbrev null_fields : V → List Text → List (Text × V)
  null_fields value keys = map (or_null json maker as_bool value) keys

  unfoldable pub compact_repeat_attempt : V → V
  compact_repeat_attempt attempt = maker.object (
      null_fields attempt (
        codes "attempt"
        ∷ codes "target_name"
        ∷ codes "status"
        ∷ codes "outcome"
        ∷ codes "findings_count"
        ∷ [])
      ++ (or_object json maker as_bool attempt (codes "findings_by_class")
          ∷ (null_fields attempt (
                codes "issue_group_count"
                ∷ codes "error"
                ∷ codes "duration_ms"
                ∷ codes "run_summary"
                ∷ codes "crashpack"
                ∷ codes "findings"
                ∷ codes "evidence_pack"
                ∷ codes "issue_groups"
                ∷ [])
              ++ or_array json maker as_bool attempt (codes "next_commands") ∷ [])))

  unfoldable pub compact_repeat_issue_group : V → V
  compact_repeat_issue_group group = maker.object (
      null_fields group (
        codes "id"
        ∷ codes "fingerprint"
        ∷ codes "class"
        ∷ codes "operation"
        ∷ codes "attempt_count"
        ∷ codes "occurrence_count"
        ∷ codes "first_attempt"
        ∷ codes "last_attempt"
        ∷ codes "representative_attempt"
        ∷ [])
      ++ or_array json maker as_bool group (codes "attempts") ∷ [])

  -- The attempts that did not pass: `completed_attempts.saturating_sub(pass_attempts)`.
  unfoldable pub non_pass_attempts : ℕ → ℕ → ℕ
  non_pass_attempts completed_attempts pass_attempts = completed_attempts - pass_attempts

  unfoldable pub failure_rate : ℕ → ℕ → V
  unfolding non_pass_attempts
  failure_rate completed_attempts pass_attempts =
      if ltb 0 completed_attempts
      then quotient (non_pass_attempts completed_attempts pass_attempts) completed_attempts
      else maker.null

  unfoldable pub build_repeat_agent_summary : Text → V → V → V
  unfolding compact_repeat_attempt compact_repeat_issue_group failure_rate value_at path_join
  build_repeat_agent_summary output_root repeat_summary run_summary =
      let completed_attempts =
        unwrap_or (json.get repeat_summary (codes "completed_attempts") >>= json.as_u64) 0 in
      let pass_attempts =
        unwrap_or
          (value_at json repeat_summary (codes "outcome_totals" ∷ codes "pass" ∷ [])
            >>= json.as_u64)
          0 in
      let attempts = map compact_repeat_attempt (array_at repeat_summary (codes "attempts")) in
      let issue_groups =
        map compact_repeat_issue_group (array_at repeat_summary (codes "issue_groups")) in
      let repeat_object = or_object json maker as_bool repeat_summary in
      let repeat_null = or_null json maker as_bool repeat_summary in
      maker.object (
        (codes "schema_version", json.string (codes "1.0"))
        ∷ (codes "purpose", json.string (codes "repeat_agent_summary"))
        ∷ (codes "output_root", json.string output_root)
        ∷ (
          codes "artifacts",
          maker.object (
              (
                codes "repeat_summary",
                json.string (path_join output_root (codes "repeat-summary.json")),
              )
              ∷ (
                codes "run_summary",
                json.string (path_join output_root (codes "run-summary.json")),
              )
              ∷ []),
        )
        ∷ (
          codes "summary",
          maker.object (
              repeat_null (codes "requested_attempts")
              ∷ (codes "completed_attempts", maker.number completed_attempts)
              ∷ (codes "pass_attempts", maker.number pass_attempts)
              ∷ (
                codes "non_pass_attempts",
                maker.number (non_pass_attempts completed_attempts pass_attempts),
              )
              ∷ (codes "failure_rate", failure_rate completed_attempts pass_attempts)
              ∷ repeat_object (codes "status_totals")
              ∷ repeat_object (codes "outcome_totals")
              ∷ repeat_object (codes "finding_totals_by_class")
              ∷ (codes "repeat_issue_group_count", maker.number (length issue_groups))
              ∷ or_null json maker as_bool run_summary (codes "target_count")
              ∷ (
                codes "tool_totals_by_status",
                unwrap_or (json.get run_summary (codes "escalation_totals_by_tool"))
                    (maker.object []),
              )
              ∷ []),
        )
        ∷ repeat_null (codes "first_failure")
        ∷ repeat_null (codes "best_evidence_attempt")
        ∷ (codes "issue_groups", maker.array issue_groups)
        ∷ (codes "attempts", maker.array attempts)
        ∷ (
          codes "escalation",
          unwrap_or (json.get repeat_summary (codes "escalation_policy")) (maker.object []),
        )
        ∷ or_array json maker as_bool repeat_summary (codes "next_commands")
        ∷ [])
