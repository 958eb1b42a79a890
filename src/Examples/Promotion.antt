-- ===== src/Examples/Promotion.antt =====
-- The theorems on the detections of a result at sample output.
use recompile.Base.{
  ◌≡◌, refl, true, false, Option, none, some, List, [], ◌∷◌, ◌++◌, Text, codes, text_eq, take, drop,
  arith,
}
use recompile.Base.Order.{text_ord}
use recompile.Base.Scan.{lines, trim_start_of, trim_end_of, is_whitespace}
use recompile.Escalate.Result.{EscalationResult, EscalationStatus, is_empty}
use recompile.Cli.Effects.{NativeRunMetadata}
use recompile.Cli.Promote.{ToolDetection, read_tool_output, attach_tool_frames, attach_frames_of}
use recompile.Cli.Promote.Reported.{tool_detections, tool_detections_cover}
use recompile.Cli.Promote.Findings.{Maker, existing_key, tool_detection_key, tool_backed_finding}
use recompile.Cli.Promote.Findings.Keys.{
  MakerLaws, field_of, IsTrimmed, existing_key-tool_backed_finding,
}
use recompile.Summary.{summarize_finding, source_location, print_findings_summary}
use recompile.Summary.Promoted.{summarize_promoted}
use recompile.Examples.{tool_result}
use recompile.Cli.Promote.Findings.{severity_for_tool_class}
use recompile.Examples.Issues.{Value, text, number, field, empty, get_field, sample_json}

abbrev valgrind_result : EscalationResult
valgrind_result = record (tool_result (codes "valgrind") EscalationStatus.findings) {
  stderr_path = some (codes "err");
  findings_detected = codes "use_after_free" ∷ [];
}

abbrev kept_output : Text
kept_output = codes "==1== Invalid read of size 1\n==1==    at 0x1: main (a.c:9)"

abbrev read_kept : Text → Option Text
read_kept path = some kept_output

abbrev unattached : ToolDetection
unattached = record {
  class = codes "use_after_free";
  summary = codes "Invalid read of size 1";
  line = some 1;
  call_frame = none;
  alloc_frame = none;
  free_frame = none;
}

frames_test :
    attach_tool_frames read_kept valgrind_result unattached
    ≡ some (record unattached { call_frame = some (codes "0x1: main (a.c:9)") })
unfolding attach_tool_frames read_tool_output recompile.Base.Scan.trim_end_of
    recompile.Base.Scan.trim_start_of recompile.Base.Scan.is_whitespace lines
    recompile.Cli.Promote.Frames.stable_valgrind_frame
    recompile.Escalate.Tools.Valgrind.strip_valgrind_prefix
frames_test = refl

tool_detections_cover_example :
    (detections : List ToolDetection) × (tool_detections sample_json
        (λ s. some empty)
        read_kept
        valgrind_result
      ≡ some detections)
    × (is_empty detections ≡ false)
tool_detections_cover_example =
    tool_detections_cover sample_json (λ s. some empty) read_kept valgrind_result refl

-- `json!` for the sample values, which have no arrays and no negative numbers.
abbrev pub sample_object : List (Text × Value) → Value
sample_object [] = empty
sample_object ((key, v) ∷ fields) = field key v (sample_object fields)

abbrev pub sample_maker : Maker Value
sample_maker = record {
  object = sample_object;
  array = λ vs. empty;
  number = number;
  integer = λ n. empty;
  null = empty;
}

get-sample_object :
    (fields : List (Text × Value)) (key : Text)
    → get_field (sample_object fields) key ≡ field_of key fields
unfolding get_field
get-sample_object [] key = refl
get-sample_object ((name, v) ∷ fields) key = ground (arith, get-sample_object fields key)

pub sample-MakerLaws : MakerLaws sample_json sample_maker
sample-MakerLaws = record {
  get-object = get-sample_object;
  as_str-string = λ s. refl;
  as_str-null = refl;
  as_u64-number = λ n h. refl;
  as_u64-null = refl;
}

abbrev pub overflow : ToolDetection
overflow = record {
  class = codes "heap_overflow";
  summary = codes "heap-buffer-overflow";
  line = some 3;
  call_frame = some (codes "main a.c:1");
  alloc_frame = none;
  free_frame = none;
}

pub overflow-IsTrimmed : IsTrimmed overflow
unfolding trim_start_of trim_end_of is_whitespace
overflow-IsTrimmed = record { summary = refl; line = omega arith }

abbrev pub sample_analysis : NativeRunMetadata
sample_analysis = record { binary_path = codes "/bin/a"; source_path = none; cwd = none; args = [] }

abbrev pub quoted : Text → Text
quoted s = codes "'" ++ s ++ codes "'"

existing_key-tool_backed_finding_example :
    existing_key sample_json quoted
      (tool_backed_finding sample_json sample_maker valgrind_result overflow 0 sample_analysis)
    ≡ some (tool_detection_key quoted (codes "valgrind") overflow)
existing_key-tool_backed_finding_example =
    existing_key-tool_backed_finding sample_json sample_maker sample-MakerLaws quoted
      sample_analysis valgrind_result overflow 0 overflow-IsTrimmed

abbrev pub asan_result : EscalationResult
asan_result = record (tool_result (codes "asan") EscalationStatus.findings) {
  success = true;
  confirmed = true;
  findings_detected = codes "heap_overflow" ∷ [];
}

abbrev pub read_overflow : EscalationResult → Option (List ToolDetection)
read_overflow result = some (overflow ∷ [])

-- The finding that is made, when its provenance has got a source path.
abbrev made : Value
made = tool_backed_finding sample_json sample_maker valgrind_result overflow 0 sample_analysis

abbrev finalized : Value
finalized =
    field (codes "provenance") (sample_object ((codes "source_path", text (codes "a.c")) ∷ [])) made

summarize_promoted_example :
    (let summary = summarize_finding sample_json finalized in
      (summary.class ≡ codes "heap_overflow")
      × (summary.severity ≡ severity_for_tool_class (codes "heap_overflow"))
      × (summary.confidence ≡ codes "tool_confirmed")
      × (summary.operation ≡ some (codes "valgrind"))
      × (summary.location ≡ some (codes "a.c")))
unfolding trim_start_of trim_end_of is_whitespace tool_backed_finding severity_for_tool_class
    recompile.Cli.Promote.Findings.tool_evidence get_field recompile.Summary.string_field
    recompile.Issues.Finding.finding_string
summarize_promoted_example =
    summarize_promoted sample_json sample_maker sample-MakerLaws valgrind_result overflow 0
      sample_analysis finalized
      (record {
        class = refl;
        severity = refl;
        confidence = refl;
        evidence = refl;
        location = refl;
      })
      (record { trimmed = refl; filled = refl }) (record { trimmed = refl; filled = refl })

-- An unknown source path hides the site of the allocation.
unknown_source_test :
    source_location sample_json (
      sample_object (
        (codes "provenance", sample_object ((codes "source_path", text (codes "unknown")) ∷ []))
        ∷ (codes "evidence", sample_object ((codes "alloc_site", text (codes "src/alloc.c")) ∷ []))
        ∷ []))
    ≡ none
unfolding source_location recompile.Issues.Finding.finding_string get_field trim_end_of
    trim_start_of is_whitespace
unknown_source_test = refl

no_findings_test :
    take 1 (print_findings_summary sample_json []) ≡ codes "No findings detected." ∷ []
unfolding print_findings_summary
no_findings_test = refl
