-- ===== src/Cli/Promote/Crashpack/Again.antt =====
-- Promoting the same results to the same crashpack again.
use recompile.Base.{
  ◌≡◌, refl, sym, ◌∙◌, Option, some, List, All, All-map, Text, arith, any, length, keep,
}
use recompile.Base.Order.{text_ord}
use recompile.Escalate.Result.{EscalationResult}
use recompile.Issues.Json.{Json}
use recompile.Cli.Effects.{NativeRunMetadata}
use recompile.Cli.Promote.{ToolDetection}
use recompile.Cli.Promote.Findings.{Maker, existing_tool_detection_keys}
use recompile.Cli.Promote.Findings.Keys.{MakerLaws}
use recompile.Cli.Promote.Gdb.{enrich_gdb_crash_findings}
use recompile.Cli.Promote.Gdb.Objects.{ObjectLaws}
use recompile.Cli.Promote.Gdb.Kept.{key_kept}
use recompile.Cli.Promote.Gdb.Same.{enrichment-Same, enrichment_keeps_confirmations}
use recompile.Cli.Promote.Additions.{Promotion, is_promoted}
use recompile.Cli.Promote.Additions.Settled.{results_settled, results_skipped}
use recompile.Cli.Promote.Additions.Known.{
  has_key, member-existing, KeysAgree, results-KeysAgree, AreTrimmed, AreTrimmed-some,
  results_total, transfer,
}
use recompile.Cli.Promote.Crashpack.{promote_tool_findings}

module _ {V : Type 0} (json : Json V) (maker : Maker V) (made : MakerLaws json maker)
    (objects : ObjectLaws json maker) (quote : Text → Text) (read_report : Text → Option V)
    (tool_detections : EscalationResult → Option (List ToolDetection))
    (analysis : NativeRunMetadata) where
  enriched : List V → List EscalationResult → List V
  enriched findings results = (enrich_gdb_crash_findings json maker read_report findings results).0

  key_same :
      (findings : List V) (results : List EscalationResult) (k : Text)
      → any (has_key json maker made quote analysis k) (enriched findings results)
        ≡ any (has_key json maker made quote analysis k) findings
  unfolding enriched
  key_same findings results k =
      (enrichment-Same json maker objects read_report findings results).any_same
        (has_key json maker made quote analysis k)
        (λ v w h. ground (arith, key_kept json maker objects quote v w h))

  -- The state in which the loop starts.
  abbrev start_of : List V → List EscalationResult → Promotion V
  start_of findings results = record {
    findings = enriched findings results;
    known_tool_keys = existing_tool_detection_keys json quote findings;
    changed = (enrich_gdb_crash_findings json maker read_report findings results).1;
  }

  start-KeysAgree :
      (findings : List V) (results : List EscalationResult)
      → KeysAgree json maker made quote analysis (start_of findings results)
  start-KeysAgree findings results k =
      member-existing json maker made quote analysis k findings ∙ sym (key_same findings results k)

  -- A promotion of results whose detections have summaries with no blanks around them and line
  -- numbers that fit in 64 bits, and are read without a panic, gives a state. Promoting the same
  -- results to its findings again adds no finding: it gives what the enrichment by the reports of gdb
  -- makes of them, which are as many, and it has changed something only if that has.
  pub promote_tool_findings_again :
      (findings : List V) (results : List EscalationResult)
      → All
          (λ r. AreTrimmed json maker made quote analysis tool_detections (tool_detections r))
          (keep is_promoted results)
      → (p : Promotion V) × (q : Promotion V) × (promote_tool_findings json maker quote read_report
            tool_detections analysis findings results
          ≡ some p)
        × (promote_tool_findings json maker quote read_report tool_detections analysis p.findings
              results
            ≡ some q)
        × (q.findings ≡ (enrich_gdb_crash_findings json maker read_report p.findings results).0)
        × (length q.findings ≡ length p.findings)
        × (q.changed ≡ (enrich_gdb_crash_findings json maker read_report p.findings results).1)
  unfolding promote_tool_findings enriched
  promote_tool_findings_again findings results t =
      let rs = keep is_promoted results in
      let first = start_of findings results in
      let (p, ran) = results_total json maker made quote analysis tool_detections rs first t in
      let second = start_of p.findings results in
      let agree =
        results-KeysAgree json maker made quote analysis tool_detections rs first p ran t
          (start-KeysAgree findings results) in
      let settled = results_settled json maker quote analysis tool_detections rs first p ran in
      let again =
        All-map
          (λ r.
            transfer json maker made quote analysis tool_detections p second r (tool_detections r)
              (λ d. sym (
                enrichment_keeps_confirmations json maker objects read_report p.findings results r
                  d))
              (λ k. agree k ∙ sym (member-existing json maker made quote analysis k p.findings)))
          rs settled in
      (
        p,
        second,
        ran,
        results_skipped json maker quote analysis tool_detections rs second again (
            All-map
              (λ r.
                AreTrimmed-some json maker made quote analysis tool_detections (tool_detections r))
              rs t),
        refl,
        (enrichment-Same json maker objects read_report p.findings results).number,
        refl,
      )
