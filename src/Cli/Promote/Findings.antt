-- ===== src/Cli/Promote/Findings.antt =====
-- recompile/rerun/src/cli.rs: the findings that `promote_tool_findings_to_crashpack` adds to those of a
-- crashpack, one for each detection of a tool that is new.
pub mod Keys
use recompile.Base.{
  ℕ, ◌+◌, ◌∷◌, [], ◌++◌, ◌&&◌, ◌||◌, ◌>>=◌, ℤ, Bool, false, Option, none, some, List, map, any,
  Text, codes, text_eq, or_else, opt_map, unwrap_or, filter_map, if◌then◌else◌,
}
use recompile.Base.Order.{text_ord}
use recompile.Base.Dict.{Dict}
use recompile.Base.Sets.{Set, insert_all}
use recompile.Base.Tally.{tally}
use recompile.Base.Scan.{trim}
use recompile.Base.Decimal.{decimal}
use recompile.Escalate.Result.{EscalationResult}
use recompile.Issues.Json.{Json}
use recompile.Cli.Effects.{NativeRunMetadata}
use recompile.Cli.Promote.{ToolDetection}

-- What `json!` makes values with.
pub record Maker (V : Type 0) : Type 0 where
  pub object : List (Text × V) → V
  pub array : List V → V
  pub number : ℕ → V
  pub integer : ℤ → V
  pub null : V

-- `option.as_deref() == Some(text)`
abbrev pub same_text : Option Text → Text → Bool
same_text none t = false
same_text (some s) t = text_eq s t

unfoldable pub severity_for_tool_class : Text → Text
unfolding text_eq
severity_for_tool_class class =
    if text_eq class (codes "use_after_free") || text_eq class (codes "double_free")
    then codes "critical"
    else if text_eq class (codes "heap_overflow")
        || text_eq class (codes "stack_overflow")
        || text_eq class (codes "global_overflow")
        || text_eq class (codes "invalid_free")
    then codes "error"
    else if text_eq class (codes "signed_integer_overflow")
        || text_eq class (codes "shift_out_of_bounds")
        || text_eq class (codes "null_pointer_use")
        || text_eq class (codes "misaligned_pointer")
        || text_eq class (codes "bounds")
        || text_eq class (codes "undefined_behavior")
    then codes "error"
    else codes "warning"

-- `{:?}` of a text is the function `quote` of the standard library; `{:?}` of an option is written out.
module _ (quote : Text → Text) where
  abbrev pub debug : Option Text → Text
  debug none = codes "None"
  debug (some s) = codes "Some(" ++ s ++ codes ")"

  unfoldable pub tool_detection_key : Text → ToolDetection → Text
  tool_detection_key tool d =
      tool
      ++ (0x1f ∷ d.class)
      ++ (0x1f ∷ d.summary)
      ++ (0x1f ∷ debug (opt_map decimal d.line))
      ++ (0x1f ∷ debug (opt_map quote d.call_frame))
      ++ (0x1f ∷ debug (opt_map quote d.alloc_frame))
      ++ (0x1f ∷ debug (opt_map quote d.free_frame))

module _ {V : Type 0} (json : Json V) (maker : Maker V) where
  abbrev pub text_or_null : Option Text → V
  text_or_null none = maker.null
  text_or_null (some s) = json.string s

  abbrev pub number_or_null : Option ℕ → V
  number_or_null none = maker.null
  number_or_null (some n) = maker.number n

  abbrev pub integer_or_null : Option ℤ → V
  integer_or_null none = maker.null
  integer_or_null (some n) = maker.integer n

  -- `frame.iter().cloned().collect::<Vec<_>>()`
  abbrev pub frame_values : Option Text → List V
  frame_values none = []
  frame_values (some frame) = json.string frame ∷ []

  unfoldable pub tool_evidence : EscalationResult → ToolDetection → V
  tool_evidence result d = maker.object (
      (codes "name", json.string result.tool)
      ∷ (codes "result_id", json.string result.id)
      ∷ (codes "finding_id", json.string result.finding_id)
      ∷ (codes "summary", json.string (trim d.summary))
      ∷ (codes "line", number_or_null d.line)
      ∷ (codes "call_frame", text_or_null d.call_frame)
      ∷ (codes "alloc_frame", text_or_null d.alloc_frame)
      ∷ (codes "free_frame", text_or_null d.free_frame)
      ∷ (codes "report_path", text_or_null result.report_path)
      ∷ (codes "stdout_path", text_or_null result.stdout_path)
      ∷ (codes "stderr_path", text_or_null result.stderr_path)
      ∷ (codes "command", maker.array (map json.string result.command))
      ∷ (codes "exit_code", integer_or_null result.exit_code)
      ∷ [])

  unfoldable pub stacks_evidence : ToolDetection → V
  stacks_evidence d = maker.object (
      (codes "alloc", maker.array (frame_values d.alloc_frame))
      ∷ (codes "free", maker.array (frame_values d.free_frame))
      ∷ (codes "call", maker.array (frame_values d.call_frame ++ json.string (trim d.summary) ∷ []))
      ∷ [])

  unfoldable pub event_evidence : EscalationResult → ToolDetection → V
  event_evidence result d = maker.object (
      (codes "source", json.string (codes "escalation"))
      ∷ (codes "tool", json.string result.tool)
      ∷ (codes "class", json.string d.class)
      ∷ (codes "summary", json.string (trim d.summary))
      ∷ [])

  unfoldable pub tool_backed_finding : EscalationResult → ToolDetection → ℕ → NativeRunMetadata → V
  tool_backed_finding result d index analysis =
      let id =
        codes "F-"
        ++ result.tool
        ++ codes "-"
        ++ d.class
        ++ codes "-"
        ++ result.id
        ++ codes "-"
        ++ decimal (index + 1) in
      maker.object (
        (codes "schema_version", json.string (codes "1.0"))
        ∷ (codes "id", json.string id)
        ∷ (codes "origin", json.string result.tool)
        ∷ (codes "class", json.string d.class)
        ∷ (codes "confidence", json.string (codes "tool_confirmed"))
        ∷ (codes "severity", json.string (severity_for_tool_class d.class))
        ∷ (codes "timestamp", maker.number result.timestamp)
        ∷ (codes "pid", maker.number 0)
        ∷ (codes "message", json.string (trim d.summary))
        ∷ (
          codes "evidence",
          maker.object (
              (codes "api", json.string result.tool)
              ∷ (codes "tool", tool_evidence result d)
              ∷ (codes "stacks", stacks_evidence d)
              ∷ (codes "event_sequence", maker.array (event_evidence result d ∷ []))
              ∷ []),
        )
        ∷ (
          codes "provenance",
          maker.object (
              (codes "original_binary_path", json.string analysis.binary_path)
              ∷ (codes "source_status", json.string (codes "unresolved"))
              ∷ []),
        )
        ∷ (codes "related", maker.array [])
        ∷ [])

module _ {V : Type 0} (json : Json V) where
  unfoldable pub finding_class : V → Option Text
  finding_class finding =
      or_else (json.get finding (codes "class")) (json.get finding (codes "kind")) >>= json.as_str

  -- A field of the tool that the evidence names.
  unfoldable pub tool_field : V → Text → Option V
  tool_field finding key = json.get finding (codes "evidence") >>= λ evidence.
      json.get evidence (codes "tool") >>= λ tool. json.get tool key

  -- The detection that a finding was made from.
  unfoldable pub detection_in : V → Text → ToolDetection
  unfolding tool_field
  detection_in finding class = record {
    class = class;
    summary =
        unwrap_or (json.get finding (codes "message") >>= json.as_str)
          (codes "tool-backed finding");
    line = tool_field finding (codes "line") >>= json.as_u64;
    call_frame = tool_field finding (codes "call_frame") >>= json.as_str;
    alloc_frame = tool_field finding (codes "alloc_frame") >>= json.as_str;
    free_frame = tool_field finding (codes "free_frame") >>= json.as_str;
  }

  unfoldable pub class_counts_for_values : List V → Dict Text ℕ
  unfolding finding_class
  class_counts_for_values findings =
      tally (λ class. class) (λ class. 1) [] (filter_map finding_class findings)

  module _ (quote : Text → Text) where
    -- The key of a finding that a tool backs.
    unfoldable pub existing_key : V → Option Text
    unfolding tool_field finding_class detection_in
    existing_key finding = (tool_field finding (codes "name") >>= json.as_str) >>= λ tool.
        finding_class finding >>= λ class.
        some (tool_detection_key quote tool (detection_in finding class))

    unfoldable pub existing_tool_detection_keys : List V → Set Text
    unfolding existing_key
    existing_tool_detection_keys findings = insert_all (filter_map existing_key findings) []

  -- The finding that the tool was asked about has the class.
  abbrev pub is_confirmed_by : Text → Text → V → Bool
  is_confirmed_by id class finding =
      same_text (json.get finding (codes "id") >>= json.as_str) id
      && same_text (finding_class finding) class

  unfoldable pub confirms_existing_finding : List V → EscalationResult → ToolDetection → Bool
  unfolding text_eq
  confirms_existing_finding findings result d =
      if text_eq result.finding_id (codes "clean-run")
        || text_eq result.finding_id (codes "tool-only-fallback")
      then false
      else any (is_confirmed_by result.finding_id d.class) findings
