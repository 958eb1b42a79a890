-- ===== src/Cli/Promote/Additions.antt =====
-- recompile/rerun/src/cli.rs: the loop of `promote_tool_findings_to_crashpack` over the results of the
-- tools. A panic is `none`.
pub mod Settled
pub mod Known
use recompile.Base.{
  ℕ, ◌+◌, ◌∷◌, [], ◌++◌, ◌&&◌, ◌>>=◌, Bool, true, false, Option, none, some, List, not, Text, codes,
  text_eq, if◌then◌else◌, keep,
}
use recompile.Base.Order.{text_ord}
use recompile.Base.Sets.{Set, insert, member}
use recompile.Escalate.Result.{EscalationResult, is_empty}
use recompile.Issues.Json.{Json}
use recompile.Cli.Effects.{NativeRunMetadata}
use recompile.Cli.Promote.{ToolDetection}
use recompile.Cli.Promote.Findings.{
  Maker, tool_detection_key, tool_backed_finding, existing_tool_detection_keys,
  confirms_existing_finding,
}

-- The variables of the loop.
pub record Promotion (V : Type 0) : Type 0 where
  pub findings : List V
  pub known_tool_keys : Set Text
  pub changed : Bool

-- Is a result promoted? gdb only enriches findings.
abbrev pub is_promoted : EscalationResult → Bool
is_promoted result =
    not (text_eq result.tool (codes "gdb"))
    && result.success
    && result.confirmed
    && not (is_empty result.findings_detected)

module _ {V : Type 0} (json : Json V) (maker : Maker V) (quote : Text → Text)
    (analysis : NativeRunMetadata) where
  -- The body of the inner loop.
  unfoldable pub promote_detection :
      EscalationResult → ℕ → ToolDetection → Promotion V → Promotion V
  promote_detection result index d p =
      let key = tool_detection_key quote result.tool d in
      if confirms_existing_finding json p.findings result d
      then p
      else if member key p.known_tool_keys
      then p
      else record {
        findings = p.findings ++ tool_backed_finding json maker result d index analysis ∷ [];
        known_tool_keys = insert key p.known_tool_keys;
        changed = true;
      }

  unfoldable pub promote_detections :
      EscalationResult → ℕ → List ToolDetection → Promotion V → Promotion V
  unfolding promote_detection
  promote_detections result index [] p = p
  promote_detections result index (d ∷ ds) p =
      promote_detections result (index + 1) ds (promote_detection result index d p)

  module _ (tool_detections : EscalationResult → Option (List ToolDetection)) where
    unfoldable pub promote_results : List EscalationResult → Promotion V → Option (Promotion V)
    unfolding promote_detections
    promote_results [] p = some p
    promote_results (result ∷ results) p = do
      ds ← tool_detections result
      promote_results results (promote_detections result 0 ds p)
