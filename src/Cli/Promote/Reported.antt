-- ===== src/Cli/Promote/Reported.antt =====
-- recompile/rerun/src/cli.rs: `tool_detections`, the detections of a result: those of its report,
-- or else one for each class. Reading a file and parsing JSON are functions that it takes.
use recompile.Base.{
  ◌≡◌, refl, ◌∷◌, [], ◌++◌, ◌>>=◌, true, false, Option, none, some, List, map, Text, codes, arith,
  is_some, unwrap_or, if◌then◌else◌, Option-cases, Bool-cases, inl, inr,
}
use recompile.Escalate.Result.{EscalationResult, is_empty}
use recompile.Issues.Json.{Json}
use recompile.Cli.Promote.{ToolDetection, attach_tool_frames}
use recompile.Cli.Promote.Detections.{attach_tool_frames_total}

-- The detections without a report.
unfoldable pub class_detections : EscalationResult → List ToolDetection
class_detections result =
    map
      (λ class. record {
        class = class;
        summary = result.tool ++ codes " detected " ++ class;
        line = none;
        call_frame = none;
        alloc_frame = none;
        free_frame = none;
      })
      result.findings_detected

module _ {V : Type 0} (json : Json V) (from_str : Text → Option V)
    (read_to_string : Text → Option Text) where
  -- A detection of the report, without its frames; none without a class.
  unfoldable pub detection_of : V → Option ToolDetection
  detection_of value = do
    field ← json.get value (codes "class")
    class ← json.as_str field
    some (record {
      class = class;
      summary =
          unwrap_or (json.get value (codes "summary") >>= json.as_str)
            (codes "tool-backed finding");
      line = json.get value (codes "line") >>= json.as_u64;
      call_frame = none;
      alloc_frame = none;
      free_frame = none;
    })

  -- The detections with their frames; a panic is `none`.
  unfoldable pub with_frames : EscalationResult → List V → Option (List ToolDetection)
  unfolding detection_of
  with_frames result [] = some []
  with_frames result (value ∷ values) =
      let later = with_frames result values in
      elim (detection_of value) [
        | none ↦ later
        | some d ↦ do
          attached ← attach_tool_frames read_to_string result d
          rest ← later
          some (attached ∷ rest)
      ]

  -- `report.get("detected").and_then(Value::as_array)` of the report, if it is read.
  unfoldable pub report_values : EscalationResult → Option (List V)
  report_values result = do
    path ← result.report_path
    content ← read_to_string path
    report ← from_str content
    detected ← json.get report (codes "detected")
    json.as_array detected

  unfoldable pub tool_detections : EscalationResult → Option (List ToolDetection)
  unfolding with_frames report_values class_detections
  tool_detections result = elim (report_values result) [
    | none ↦ some (class_detections result)
    | some values ↦ with_frames result values >>= λ detections.
        if is_empty detections then some (class_detections result) else some detections
  ]

  with_frames-some :
      (result : EscalationResult) (values : List V) → is_some (with_frames result values) ≡ true
  unfolding with_frames
  with_frames-some result [] = refl
  with_frames-some result (value ∷ values) = elim (Option-cases (detection_of value)) [
    | inl skipped ↦ ground (arith, skipped, with_frames-some result values)
    | inr (d, here) ↦ ground (
      arith,
      here,
      with_frames-some result values,
      attach_tool_frames_total read_to_string result d,
    )
  ]

  class_detections-empty :
      (result : EscalationResult)
      → is_empty (class_detections result) ≡ is_empty result.findings_detected
  unfolding class_detections
  class_detections-empty result = ground arith

  -- A result with classes gives at least one detection, without a panic, whatever its report and
  -- its output hold and whether or not they can be read.
  pub tool_detections_cover :
      (result : EscalationResult)
      → is_empty result.findings_detected ≡ false
      → (detections : List ToolDetection) × (tool_detections result ≡ some detections)
        × (is_empty detections ≡ false)
  unfolding tool_detections
  tool_detections_cover result h =
      let plain = class_detections-empty result in
      elim (Option-cases (report_values result)) [
        | inl unread ↦ (class_detections result, ground (arith, unread), ground (arith, h, plain))
        | inr (values, read) ↦ elim (Option-cases (with_frames result values)) [
          | inl panic ↦ ground (arith, panic, with_frames-some result values)
          | inr (detections, e) ↦ elim (Bool-cases (is_empty detections)) [
            | inl empty ↦
                (class_detections result, ground (arith, read, e, empty), ground (arith, h, plain))
            | inr found ↦ (detections, ground (arith, read, e, found), found)
          ]
        ]
      ]
