-- ===== src/Cli/Promote/Crashpack.antt =====
-- recompile/rerun/src/cli.rs: `promote_tool_findings_to_crashpack`, the whole of it.
pub mod Again
use recompile.Base.{
  ℕ, ◌∷◌, [], ◌++◌, Bool, true, false, Option, none, some, List, not, length, keep, Text, codes,
  if◌then◌else◌,
}
use recompile.Base.Paths.{path_join}
use recompile.Escalate.Result.{EscalationResult}
use recompile.Issues.Json.{Json}
use recompile.Cli.Policy.{Result, ok, err, panicked, ◌>>=◌, ◌>>◌}
use recompile.Cli.Effects.{NativeRunMetadata, CrashpackFindingSnapshot}
use recompile.Cli.Promote.{ToolDetection}
use recompile.Cli.Promote.Findings.{Maker, existing_tool_detection_keys, class_counts_for_values}
use recompile.Cli.Promote.Gdb.{enrich_gdb_crash_findings}
use recompile.Cli.Promote.Additions.{Promotion, is_promoted, promote_results}

-- What the function reads and calls outside, for one crashpack.
pub record Pack (V : Type 0) : Type 0 where
  -- findings_path.exists(), load_analysis_metadata, read_json_file(&findings_path)
  pub exists : Bool
  pub analysis : Result NativeRunMetadata
  pub findings : Result V
  -- fs::write(&findings_path, ..)
  pub write : List V → Result (Unit {0})
  -- the number of groups that finalize_findings returns, and the findings behind it
  pub finalize : Text → Result ℕ
  pub refreshed : Result V

module _ {V : Type 0} (json : Json V) (maker : Maker V) (quote : Text → Text)
    (read_report : Text → Option V)
    (tool_detections : EscalationResult → Option (List ToolDetection)) where
  -- From the keys of the findings to the end of the loop; a panic is none.
  unfoldable pub promote_tool_findings :
      NativeRunMetadata → List V → List EscalationResult → Option (Promotion V)
  unfolding enrich_gdb_crash_findings promote_results existing_tool_detection_keys
  promote_tool_findings analysis findings results =
      let (enriched, changed) = enrich_gdb_crash_findings json maker read_report findings results in
      promote_results json maker quote analysis tool_detections (keep is_promoted results) (record {
        findings = enriched;
        known_tool_keys = existing_tool_detection_keys json quote findings;
        changed = changed;
      })

  -- The findings in the file.
  unfoldable pub array_of : Text → V → Result (List V)
  unfolding path_join
  array_of dir value = elim (json.as_array value) [
    | some findings ↦ ok findings
    | none ↦ err (path_join dir (codes "findings.json") ++ codes " must contain a JSON array")
  ]

  abbrev pub no_panic {ℓ} : {A : Type ℓ} → Option A → Result A
  no_panic (some value) = ok value
  no_panic none = panicked

  -- What follows the loop, where it has changed something.
  unfoldable pub store :
      Pack V → Text → NativeRunMetadata → List V → Result (Option CrashpackFindingSnapshot)
  unfolding class_counts_for_values array_of
  store pack dir analysis findings = do
    pack.write findings
    issue_group_count ← pack.finalize analysis.binary_path
    value ← pack.refreshed
    refreshed ← array_of dir value
    ok (
        some (record {
          count = length refreshed;
          class_counts = class_counts_for_values json refreshed;
          issue_group_count = issue_group_count;
        }))

  -- What follows the test for the file.
  unfoldable pub promote_existing :
      Pack V → Text → List EscalationResult → Result (Option CrashpackFindingSnapshot)
  unfolding promote_tool_findings array_of store
  promote_existing pack dir results = do
    analysis ← pack.analysis
    value ← pack.findings
    findings ← array_of dir value
    p ← no_panic (promote_tool_findings analysis findings results)
    if p.changed then store pack dir analysis p.findings else ok none

  unfoldable pub promote_tool_findings_to_crashpack :
      Pack V → Text → List EscalationResult → Result (Option CrashpackFindingSnapshot)
  unfolding promote_existing
  promote_tool_findings_to_crashpack pack dir results =
      if pack.exists then promote_existing pack dir results else ok none
