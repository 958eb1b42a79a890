-- ===== src/Cli/Promote/Gdb/Same.antt =====
-- What the enrichment leaves of all findings as it is: what they confirm, and their keys.
use recompile.Base.{
  suc, ◌≡◌, refl, ◌∙◌, ◌∷◌, [], ◌>>=◌, Bool, false, Option, List, Text, codes, unwrap_or, any,
  length, ap, Option-cases, Bool-cases, inl, inr,
}
use recompile.Escalate.Result.{EscalationResult, is_empty}
use recompile.Issues.Json.{Json}
use recompile.Cli.Promote.{ToolDetection}
use recompile.Cli.Promote.Findings.{Maker, is_confirmed_by, confirms_existing_finding}
use recompile.Cli.Promote.Gdb.{
  enrich_each, is_crash, is_gdb_result, enrich_with, enrich_from, enrich_gdb_crash_findings,
}
use recompile.Cli.Promote.Gdb.Objects.{ObjectLaws}
use recompile.Cli.Promote.Gdb.Kept.{Keeps, enrich_finding-Keeps, confirmed_kept}

module _ {V : Type 0} (json : Json V) (maker : Maker V) (laws : ObjectLaws json maker) where
  -- A test that tells no finding from one that keeps its fields.
  abbrev pub IsStable : (V → Bool) → Type 0
  IsStable test = (v w : V) → Keeps json maker laws v w → test w ≡ test v

  -- As many findings, of which as many pass any such test.
  pub record Same (fs gs : List V) : Type 0 where
    pub number : length gs ≡ length fs
    pub any_same : (test : V → Bool) → IsStable test → any test gs ≡ any test fs

  itself-Same : (fs : List V) → Same fs fs
  itself-Same fs = record { number = refl; any_same = λ test h. refl }

  enrich_each-Same :
      (result : EscalationResult) (report : V) (frames fs : List V)
      → Same fs (enrich_each json maker result report frames fs).0
  unfolding enrich_each
  enrich_each-Same result report frames [] = itself-Same []
  enrich_each-Same result report frames (v ∷ vs) =
      let rest = enrich_each-Same result report frames vs in
      let kept = enrich_finding-Keeps json maker laws result report frames v in
      elim (Bool-cases (is_crash json maker result v)) [
        | inl crash ↦ rw crash (record {
          number = ap suc rest.number;
          any_same = λ test h. rw (h v _ kept, rest.any_same test h) refl;
        })
        | inr other ↦ rw other (record {
          number = ap suc rest.number;
          any_same = λ test h. rw (rest.any_same test h) refl;
        })
      ]

  module _ (read_report : Text → Option V) where
    enrich_with-Same :
        (result : EscalationResult) (fs : List V) (changed : Bool)
        → Same fs (enrich_with json maker read_report result (fs, changed)).0
    unfolding enrich_with
    enrich_with-Same result fs changed = elim (Bool-cases (is_gdb_result json maker result)) [
      | inr other ↦ rw (enrich_with, other) (itself-Same fs)
      | inl gdb ↦ elim (Option-cases (result.report_path >>= read_report)) [
        | inl missing ↦ rw (enrich_with, gdb, missing) (itself-Same fs)
        | inr (report, found) ↦
            let frames = unwrap_or (json.get report (codes "crash_frames") >>= json.as_array) [] in
            elim (Bool-cases (is_empty frames)) [
              | inl empty ↦ rw (enrich_with, gdb, found, empty) (itself-Same fs)
              | inr filled ↦
                  rw (enrich_with, gdb, found, filled) (enrich_each-Same result report frames fs)
            ]
      ]
    ]

    enrich_from-Same :
        (results : List EscalationResult) (fs : List V) (changed : Bool)
        → Same fs (enrich_from json maker read_report results (fs, changed)).0
    unfolding enrich_from
    enrich_from-Same [] fs changed = itself-Same fs
    enrich_from-Same (result ∷ results) fs changed =
        let one = enrich_with-Same result fs changed in
        let rest = enrich_from-Same results _ _ in
        record {
          number = rest.number ∙ one.number;
          any_same = λ test h. rest.any_same test h ∙ one.any_same test h;
        }

    pub enrichment-Same :
        (findings : List V) (results : List EscalationResult)
        → Same findings (enrich_gdb_crash_findings json maker read_report findings results).0
    unfolding enrich_gdb_crash_findings
    enrichment-Same findings results = enrich_from-Same results findings false

    -- The enrichment of findings by the reports of gdb changes nothing for the promotion behind it: a
    -- detection of a result confirms one of the findings exactly if it did before.
    pub enrichment_keeps_confirmations :
        (findings : List V) (results : List EscalationResult) (result : EscalationResult)
        (d : ToolDetection)
        → confirms_existing_finding json
            (enrich_gdb_crash_findings json maker read_report findings results).0
            result
            d
          ≡ confirms_existing_finding json findings result d
    unfolding confirms_existing_finding
    enrichment_keeps_confirmations findings results result d =
        rw
          ((enrichment-Same findings results).any_same
            (is_confirmed_by json result.finding_id d.class)
            (confirmed_kept json maker laws result.finding_id d.class))
          refl
