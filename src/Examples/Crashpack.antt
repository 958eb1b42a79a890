-- ===== src/Examples/Crashpack.antt =====
-- The promotion to a crashpack, the enrichment by gdb included, at samples.
use recompile.Base.{
  ◌≡◌, refl, true, false, Option, none, some, List, [], ◌∷◌, Text, codes, text_eq, length,
}
use recompile.Escalate.Result.{EscalationResult, EscalationStatus}
use recompile.Cli.Promote.{ToolDetection}
use recompile.Cli.Promote.Findings.{
  Maker, confirms_existing_finding, tool_backed_finding, tool_detection_key,
}
use recompile.Cli.Promote.Findings.Keys.{MakerLaws}
use recompile.Cli.Promote.Gdb.{enrich_gdb_crash_findings}
use recompile.Cli.Promote.Gdb.Objects.{ObjectLaws}
use recompile.Cli.Promote.Gdb.Same.{enrichment_keeps_confirmations}
use recompile.Cli.Promote.Additions.{Promotion}
use recompile.Cli.Promote.Crashpack.{promote_tool_findings}
use recompile.Cli.Promote.Crashpack.Again.{promote_tool_findings_again}
use recompile.Issues.Json.{Json, Laws}
use recompile.Base.Order.{text_ord}
use recompile.Base.Sets.{insert}
use recompile.Examples.{tool_result}
use recompile.Examples.Issues.{
  Value, text, number, field, empty, get_field, sample_json, sample-Laws,
}
use recompile.Examples.Promotion.{
  sample_object, sample_maker, sample-MakerLaws, overflow, overflow-IsTrimmed, sample_analysis,
  quoted, asan_result, read_overflow,
}

-- The sample values, each of which is also a list of itself.
abbrev listing_json : Json Value
listing_json = record sample_json { as_array = λ v. some (v ∷ []) }

listing-Laws : Laws listing_json
listing-Laws = record {
  get-insert_same = sample-Laws.get-insert_same;
  get-insert_other = sample-Laws.get-insert_other;
  is_object-insert = sample-Laws.is_object-insert;
  as_str-string = sample-Laws.as_str-string;
}

abbrev crash : Value
crash =
    sample_object
      ((codes "id", text (codes "F1")) ∷ (codes "class", text (codes "unclassified_crash")) ∷ [])

abbrev gdb_result : EscalationResult
gdb_result = record (tool_result (codes "gdb") EscalationStatus.findings) {
  success = true;
  confirmed = true;
  finding_id = codes "F1";
  report_path = some (codes "report");
}

abbrev read_gdb_sample : Text → Option Value
read_gdb_sample path = some (sample_object ((codes "crash_frames", text (codes "main")) ∷ []))

-- The report is added to the crash.
enriched_test :
    (enrich_gdb_crash_findings listing_json sample_maker read_gdb_sample
      (crash ∷ [])
      (gdb_result ∷ [])).1
    ≡ true
unfolding enrich_gdb_crash_findings get_field recompile.Cli.Promote.Findings.finding_class
enriched_test = refl

-- A new detection is added.
promoted_test :
    promote_tool_findings listing_json sample_maker quoted
      (λ path. none)
      read_overflow
      sample_analysis
      []
      (gdb_result ∷ asan_result ∷ [])
    ≡ some (record {
      findings =
          tool_backed_finding listing_json sample_maker asan_result overflow 0 sample_analysis ∷ [];
      known_tool_keys = insert (tool_detection_key quoted (codes "asan") overflow) [];
      changed = true;
    })
unfolding promote_tool_findings confirms_existing_finding recompile.Base.Dict.get
    recompile.Base.Sets.insert_all
promoted_test = refl

listing-MakerLaws : MakerLaws listing_json sample_maker
listing-MakerLaws = record {
  get-object = sample-MakerLaws.get-object;
  as_str-string = sample-MakerLaws.as_str-string;
  as_str-null = sample-MakerLaws.as_str-null;
  as_u64-number = sample-MakerLaws.as_u64-number;
  as_u64-null = sample-MakerLaws.as_u64-null;
}

not_object : (v : Value) (key : Text) → sample_json.is_object v ≡ false → get_field v key ≡ none
unfolding get_field
not_object empty key h = refl
not_object (field k v rest) key h = cc
not_object (text s) key h = refl
not_object (number n) key h = refl

object_made : (fields : List (Text × Value)) → sample_json.is_object (sample_object fields) ≡ true
object_made [] = refl
object_made ((k, v) ∷ fields) = refl

listing-ObjectLaws : ObjectLaws listing_json sample_maker
unfolding get_field
listing-ObjectLaws = record {
  laws = listing-Laws;
  get-other = not_object;
  is_object-object = object_made;
  get-empty = λ key. refl;
}

enrichment_keeps_confirmations_example :
    confirms_existing_finding listing_json
      (enrich_gdb_crash_findings listing_json sample_maker read_gdb_sample
        (crash ∷ [])
        (gdb_result ∷ [])).0
      gdb_result
      overflow
    ≡ confirms_existing_finding listing_json (crash ∷ []) gdb_result overflow
enrichment_keeps_confirmations_example =
    enrichment_keeps_confirmations listing_json sample_maker listing-ObjectLaws read_gdb_sample
      (crash ∷ []) (gdb_result ∷ []) gdb_result overflow

promote_tool_findings_again_example :
    (p : Promotion Value) × (q : Promotion Value) × (promote_tool_findings listing_json sample_maker
        quoted read_gdb_sample read_overflow sample_analysis
        (crash ∷ [])
        (gdb_result ∷ asan_result ∷ [])
      ≡ some p)
    × (promote_tool_findings listing_json sample_maker quoted read_gdb_sample read_overflow
          sample_analysis p.findings
          (gdb_result ∷ asan_result ∷ [])
        ≡ some q)
    × (q.findings
        ≡ (enrich_gdb_crash_findings listing_json sample_maker read_gdb_sample p.findings
            (gdb_result ∷ asan_result ∷ [])).0)
    × (length q.findings ≡ length p.findings)
    × (q.changed
        ≡ (enrich_gdb_crash_findings listing_json sample_maker read_gdb_sample p.findings
            (gdb_result ∷ asan_result ∷ [])).1)
unfolding text_eq
promote_tool_findings_again_example =
    promote_tool_findings_again listing_json sample_maker listing-MakerLaws listing-ObjectLaws
      quoted read_gdb_sample read_overflow sample_analysis (crash ∷ [])
      (gdb_result ∷ asan_result ∷ []) ((overflow-IsTrimmed, tt), tt)
