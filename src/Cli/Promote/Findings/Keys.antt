-- ===== src/Cli/Promote/Findings/Keys.antt =====
-- The findings that a promotion makes, read back.
use recompile.Base.{
  ℕ, ◌<◌, ◌≡◌, ◌∙◌, ap, ◌∷◌, [], ◌>>=◌, Option, none, some, List, Text, codes, text_eq, arith,
  if◌then◌else◌, u64_mod, unwrap_or,
}
use recompile.Base.Order.{text_ord}
use recompile.Base.Scan.{trim}
use recompile.Escalate.Result.{EscalationResult}
use recompile.Issues.Json.{Json}
use recompile.Cli.Effects.{NativeRunMetadata}
use recompile.Cli.Promote.{ToolDetection}
use recompile.Cli.Promote.Findings.{
  Maker, tool_detection_key, tool_backed_finding, existing_key, text_or_null, number_or_null,
  tool_evidence, tool_field, finding_class, detection_in,
}

-- The value under a key among the fields of an object.
abbrev pub field_of {ℓ} : {V : Type ℓ} → Text → List (Text × V) → Option V
field_of key [] = none
field_of key ((name, v) ∷ fields) = if text_eq key name then some v else field_of key fields

-- What is documented of the values that `json!` makes, and of reading them.
pub record MakerLaws {V : Type 0} (json : Json V) (maker : Maker V) : Type 0 where
  pub get-object :
      (fields : List (Text × V)) (key : Text)
      → json.get (maker.object fields) key ≡ field_of key fields
  pub as_str-string : (s : Text) → json.as_str (json.string s) ≡ some s
  pub as_str-null : json.as_str maker.null ≡ none
  pub as_u64-number : (n : ℕ) → n < u64_mod → json.as_u64 (maker.number n) ≡ some n
  pub as_u64-null : json.as_u64 maker.null ≡ none

-- A line number fits in 64 bits, if there is one.
abbrev pub FitsU64 : Option ℕ → Type 0
FitsU64 none = Unit
FitsU64 (some n) = n < u64_mod

-- A detection whose summary has no blanks around it.
pub record IsTrimmed (d : ToolDetection) : Type 0 where
  pub summary : trim d.summary ≡ d.summary
  pub line : FitsU64 d.line

module _ {V : Type 0} (json : Json V) (maker : Maker V) (laws : MakerLaws json maker)
    (quote : Text → Text) (analysis : NativeRunMetadata) where
  read_text : (o : Option Text) → json.as_str (text_or_null json maker o) ≡ o
  read_text none = laws.as_str-null
  read_text (some s) = laws.as_str-string s

  read_number : (o : Option ℕ) → FitsU64 o → json.as_u64 (number_or_null json maker o) ≡ o
  read_number none h = laws.as_u64-null
  read_number (some n) h = laws.as_u64-number n h

  tool_field_lem :
      (result : EscalationResult) (d : ToolDetection) (index : ℕ) (key : Text)
      → tool_field json (tool_backed_finding json maker result d index analysis) key
        ≡ json.get (tool_evidence json maker result d) key
  unfolding tool_field tool_backed_finding text_eq
  tool_field_lem result d index key = simp (laws.get-object)

  class_lem :
      (result : EscalationResult) (d : ToolDetection) (index : ℕ)
      → finding_class json (tool_backed_finding json maker result d index analysis) ≡ some d.class
  unfolding finding_class tool_backed_finding text_eq
  class_lem result d index = simp (laws.get-object, laws.as_str-string)

  -- The fields of the tool's evidence that the keys are made of.
  record Reads (result : EscalationResult) (d : ToolDetection) (evidence : V) : Type 0 where
    name : (json.get evidence (codes "name") >>= json.as_str) ≡ some result.tool
    line : (json.get evidence (codes "line") >>= json.as_u64) ≡ d.line
    call_frame : (json.get evidence (codes "call_frame") >>= json.as_str) ≡ d.call_frame
    alloc_frame : (json.get evidence (codes "alloc_frame") >>= json.as_str) ≡ d.alloc_frame
    free_frame : (json.get evidence (codes "free_frame") >>= json.as_str) ≡ d.free_frame

  tool_evidence-Reads :
      (result : EscalationResult) (d : ToolDetection)
      → FitsU64 d.line
      → Reads result d (tool_evidence json maker result d)
  unfolding tool_evidence text_eq
  tool_evidence-Reads result d h = record {
    name = simp (laws.get-object, laws.as_str-string);
    line = rw laws.get-object (read_number d.line h);
    call_frame = rw laws.get-object (read_text d.call_frame);
    alloc_frame = rw laws.get-object (read_text d.alloc_frame);
    free_frame = rw laws.get-object (read_text d.free_frame);
  }

  detection_in_lem :
      (result : EscalationResult) (d : ToolDetection) (index : ℕ)
      → IsTrimmed d
      → detection_in json (tool_backed_finding json maker result d index analysis) d.class ≡ d
  unfolding detection_in
  detection_in_lem result d index t =
      let f = tool_backed_finding json maker result d index analysis in
      let reads = tool_evidence-Reads result d t.line in
      let message : unwrap_or (json.get f (codes "message") >>= json.as_str)
            (codes "tool-backed finding")
          ≡ d.summary =
        unfold tool_backed_finding text_eq in
        simp (laws.get-object, laws.as_str-string, t.summary) in
      let field = tool_field_lem result d index in
      ground (
        arith,
        message,
        field (codes "line"),
        field (codes "call_frame"),
        field (codes "alloc_frame"),
        field (codes "free_frame"),
        reads.line,
        reads.call_frame,
        reads.alloc_frame,
        reads.free_frame,
      )

  -- A finding that the promotion makes of a detection is read back, from its JSON value, with the key
  -- of that detection, if its summary has no blanks around it and its line number fits in 64 bits.
  pub existing_key-tool_backed_finding :
      (result : EscalationResult) (d : ToolDetection) (index : ℕ)
      → IsTrimmed d
      → existing_key json quote (tool_backed_finding json maker result d index analysis)
        ≡ some (tool_detection_key quote result.tool d)
  unfolding existing_key
  existing_key-tool_backed_finding result d index t =
      let name =
        ap (λ o. o >>= json.as_str) (tool_field_lem result d index (codes "name"))
        ∙ (tool_evidence-Reads result d t.line).name in
      rw (name, class_lem result d index)
        (ap (λ e. some (tool_detection_key quote result.tool e))
          (detection_in_lem result d index t))
