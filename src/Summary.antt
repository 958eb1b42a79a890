-- ===== src/Summary.antt =====
-- recompile/rerun/src/summary.rs: the summary of a finding that is printed.
pub mod Promoted
use recompile.Base.{
  ℕ, ◌+◌, ◌∷◌, [], ◌++◌, ◌&&◌, ◌>>=◌, Bool, true, false, Option, none, some, List, not, length,
  Text, codes, text_eq, or_else, opt_map, unwrap_or, filter_map, head?, if◌then◌else◌,
}
use recompile.Base.Scan.{trim, contains, strip_prefix}
use recompile.Base.Decimal.{decimal}
use recompile.Escalate.Result.{is_empty}
use recompile.Issues.Json.{Json}
use recompile.Issues.Finding.{value_at, finding_string}

pub record FindingSummary : Type 0 where
  pub class : Text
  pub severity : Text
  pub confidence : Text
  pub operation : Option Text
  pub location : Option Text
  pub fallback : Option Text

-- `option.filter(p)`
abbrev pub filter {ℓ} : {A : Type ℓ} → (A → Bool) → Option A → Option A
filter p none = none
filter p (some x) = if p x then some x else none

abbrev pub is_filled : Text → Bool
is_filled s = not (is_empty s)

module _ {V : Type 0} (json : Json V) where
  unfoldable pub string_field : V → List Text → Option Text
  string_field value path = filter is_filled (opt_map trim (finding_string json value path))

  unfoldable pub primary_location : V → Option Text
  unfolding string_field
  primary_location finding =
      string_field finding (codes "primaryLocation" ∷ codes "uri" ∷ []) >>= λ uri.
      or_else (strip_prefix (codes "file://") uri) (some uri)

  abbrev pub is_known : Text → Bool
  is_known value = is_filled value && not (text_eq value (codes "unknown"))

  unfoldable pub source_location : V → Option Text
  unfolding string_field primary_location text_eq
  source_location finding = filter is_known (
      or_else (string_field finding (codes "provenance" ∷ codes "source_path" ∷ [])) (
        or_else (string_field finding (codes "evidence" ∷ codes "alloc_site" ∷ []))
          (primary_location finding)))

  -- The text of a frame that has an offset into a binary.
  unfoldable pub offset_frame : V → Option Text
  unfolding contains
  offset_frame frame =
      json.as_str frame >>= λ s. if contains (codes "+0x") (trim s) then some (trim s) else none

  -- The first such frame of a stack.
  unfoldable pub offset_in : V → Text → Option Text
  unfolding offset_frame
  offset_in finding stack_name =
      (value_at json finding (codes "evidence" ∷ codes "stacks" ∷ stack_name ∷ [])
        >>= json.as_array)
      >>= λ frames. head? (filter_map offset_frame frames)

  unfoldable pub binary_offset : V → Option Text
  unfolding offset_in
  binary_offset finding =
      head? (filter_map (offset_in finding) (codes "call" ∷ codes "alloc" ∷ codes "crash" ∷ []))

  unfoldable pub summarize_finding : V → FindingSummary
  unfolding string_field source_location binary_offset
  summarize_finding finding = record {
    class = unwrap_or (string_field finding (codes "class" ∷ [])) (codes "unknown");
    severity = unwrap_or (string_field finding (codes "severity" ∷ [])) (codes "unknown");
    confidence = unwrap_or (string_field finding (codes "confidence" ∷ [])) (codes "unknown");
    operation =
        or_else (string_field finding (codes "evidence" ∷ codes "memory" ∷ codes "operation" ∷ []))
          (or_else
            (string_field finding (codes "evidence" ∷ codes "resource" ∷ codes "operation" ∷ []))
            (string_field finding (codes "evidence" ∷ codes "api" ∷ [])));
    location = source_location finding;
    fallback = binary_offset finding;
  }

-- The line that tells the location.
abbrev pub location_line : Option Text → Option Text → Text
location_line (some location) fallback = codes "  Location:   " ++ location
location_line none (some fallback) =
    codes "  Location:   unresolved source (" ++ fallback ++ codes ")"
location_line none none = codes "  Location:   unresolved source"

-- The lines printed for a finding.
unfoldable pub summary_lines : ℕ → FindingSummary → List Text
summary_lines index summary =
    []
    ∷ (codes "--- Finding #" ++ decimal (index + 1) ++ codes " ---")
    ∷ (codes "  Class:      " ++ summary.class)
    ∷ (codes "  Severity:   " ++ summary.severity)
    ∷ (codes "  Confidence: " ++ summary.confidence)
    ∷ (elim summary.operation [
      | some operation ↦ (codes "  Operation:  " ++ operation) ∷ []
      | none ↦ []
    ]
        ++ location_line summary.location summary.fallback ∷ [])

-- `print_no_findings_help`
abbrev pub help_lines : List Text
help_lines =
    []
    ∷ codes "No-finding checklist:"
    ∷ codes "  - If running in Docker, use --privileged --pid=host"
    ∷ codes "  - Build the target with debug info (-g) and frame pointers"
    ∷ codes "  - Avoid optimizer/builtin rewrites for allocator and libc memory calls"
    ∷ codes "  - Confirm the test run actually executes the bug path"
    ∷ codes "  - Check re-findings.jsonl for attach or symbolization diagnostics"
    ∷ []

module _ {V : Type 0} (json : Json V) where
  unfoldable pub lines_from : ℕ → List V → List Text
  unfolding summary_lines summarize_finding
  lines_from index [] = []
  lines_from index (finding ∷ findings) =
      summary_lines index (summarize_finding json finding) ++ lines_from (index + 1) findings

  -- The lines that are printed.
  unfoldable pub print_findings_summary : List V → List Text
  unfolding lines_from
  print_findings_summary findings =
      lines_from 0 findings
      ++ (if is_empty findings
          then codes "No findings detected." ∷ help_lines
          else [] ∷ (codes "Total findings: " ++ decimal (length findings)) ∷ [])
