-- ===== src/Summary/Promoted.antt =====
-- The summary of the findings that a promotion adds.
use recompile.Base.{
  ℕ, ◌≡◌, refl, ◌∙◌, ◌&&◌, not, or_else, Option, ◌∷◌, [], Bool, true, false, none, some, List, Text,
  codes, text_eq, if◌then◌else◌,
}
use recompile.Base.Scan.{trim, trim_start_of, trim_end_of, is_whitespace}
use recompile.Escalate.Result.{EscalationResult}
use recompile.Issues.Json.{Json}
use recompile.Issues.Finding.{value_at, finding_string}
use recompile.Cli.Effects.{NativeRunMetadata}
use recompile.Cli.Promote.{ToolDetection}
use recompile.Cli.Promote.Findings.{Maker, tool_backed_finding, severity_for_tool_class}
use recompile.Cli.Promote.Findings.Keys.{MakerLaws}
use recompile.Summary.{
  summarize_finding, string_field, source_location, primary_location, is_filled, is_known, filter,
}

-- A text that is shown as it is.
pub record IsShown (s : Text) : Type 0 where
  pub trimmed : trim s ≡ s
  pub filled : is_filled s ≡ true

either {ℓ} : (P : Text → Type ℓ) {x y : Text} (b : Bool) → P x → P y → P (if b then x else y)
either P true p q = p
either P false p q = q

critical-IsShown : IsShown (codes "critical")
unfolding trim_start_of trim_end_of is_whitespace
critical-IsShown = record { trimmed = refl; filled = refl }

error-IsShown : IsShown (codes "error")
unfolding trim_start_of trim_end_of is_whitespace
error-IsShown = record { trimmed = refl; filled = refl }

warning-IsShown : IsShown (codes "warning")
unfolding trim_start_of trim_end_of is_whitespace
warning-IsShown = record { trimmed = refl; filled = refl }

confirmed-IsShown : IsShown (codes "tool_confirmed")
unfolding trim_start_of trim_end_of is_whitespace
confirmed-IsShown = record { trimmed = refl; filled = refl }

severity-IsShown : (class : Text) → IsShown (severity_for_tool_class class)
unfolding severity_for_tool_class
severity-IsShown class =
    either IsShown _ critical-IsShown
      (either IsShown _ error-IsShown (either IsShown _ error-IsShown warning-IsShown))

or_else-none :
    (o : Option Text)
    → filter (λ v. is_filled v && not (text_eq v (codes "unknown"))) (or_else o (or_else none none))
      ≡ filter (λ v. is_filled v && not (text_eq v (codes "unknown"))) o
or_else-none none = refl
or_else-none (some s) = refl

module _ {V : Type 0} (json : Json V) (maker : Maker V) (laws : MakerLaws json maker)
    (result : EscalationResult) (d : ToolDetection) (index : ℕ) (analysis : NativeRunMetadata) where
  shown :
      (finding : V) (path : List Text) (s : Text)
      → IsShown s
      → finding_string json finding path ≡ some s
      → string_field json finding path ≡ some s
  unfolding string_field
  shown finding path s h e = rw (e, h.trimmed, h.filled) refl

  absent :
      (finding : V) (path : List Text)
      → finding_string json finding path ≡ none
      → string_field json finding path ≡ none
  unfolding string_field
  absent finding path e = rw e refl

  -- The fields of a finding of a tool that a summary reads.
  abbrev added : V
  added = tool_backed_finding json maker result d index analysis

  record Fields : Type 0 where
    class : finding_string json added (codes "class" ∷ []) ≡ some d.class
    severity :
        finding_string json added (codes "severity" ∷ []) ≡ some (severity_for_tool_class d.class)
    confidence : finding_string json added (codes "confidence" ∷ []) ≡ some (codes "tool_confirmed")
    memory :
        finding_string json added (codes "evidence" ∷ codes "memory" ∷ codes "operation" ∷ [])
        ≡ none
    resource :
        finding_string json added (codes "evidence" ∷ codes "resource" ∷ codes "operation" ∷ [])
        ≡ none
    api : finding_string json added (codes "evidence" ∷ codes "api" ∷ []) ≡ some result.tool
    alloc_site : finding_string json added (codes "evidence" ∷ codes "alloc_site" ∷ []) ≡ none
    uri : finding_string json added (codes "primaryLocation" ∷ codes "uri" ∷ []) ≡ none

  added-Fields : Fields
  unfolding finding_string value_at tool_backed_finding text_eq
  added-Fields = record {
    class = simp (laws.get-object, laws.as_str-string);
    severity = simp (laws.get-object, laws.as_str-string);
    confidence = simp (laws.get-object, laws.as_str-string);
    memory = simp (laws.get-object);
    resource = simp (laws.get-object);
    api = simp (laws.get-object, laws.as_str-string);
    alloc_site = simp (laws.get-object);
    uri = simp (laws.get-object);
  }

  -- A finding that has the fields of the one made, but perhaps another provenance and further fields,
  -- as `finalize_findings` leaves it.
  pub record KeepsFields (final : V) : Type 0 where
    pub class : json.get final (codes "class") ≡ json.get added (codes "class")
    pub severity : json.get final (codes "severity") ≡ json.get added (codes "severity")
    pub confidence : json.get final (codes "confidence") ≡ json.get added (codes "confidence")
    pub evidence : json.get final (codes "evidence") ≡ json.get added (codes "evidence")
    pub location :
        json.get final (codes "primaryLocation") ≡ json.get added (codes "primaryLocation")

  same_field :
      (final : V) (key : Text) (path : List Text)
      → json.get final key ≡ json.get added key
      → finding_string json final (key ∷ path) ≡ finding_string json added (key ∷ path)
  unfolding finding_string value_at
  same_field final key path e = rw e refl

  location_kept :
      (final : V)
      → KeepsFields final
      → source_location json final
        ≡ filter
            (is_known json)
            (string_field json final (codes "provenance" ∷ codes "source_path" ∷ []))
  unfolding source_location primary_location
  location_kept final keeps =
      let fields = added-Fields in
      rw
        (
          absent final _ (same_field final _ _ keeps.evidence ∙ fields.alloc_site),
          absent final _ (same_field final _ _ keeps.location ∙ fields.uri),
        )
        (or_else-none (string_field json final (codes "provenance" ∷ codes "source_path" ∷ [])))

  -- A finding that the promotion makes of a detection is summarized with the class of the detection,
  -- the severity of that class, the confidence of a tool, and the tool as its operation, if the class
  -- and the name of the tool are neither empty nor padded with spaces. This stays so when the finding
  -- gets another provenance and further fields before it is stored; its source location is then the
  -- source path of its provenance, and unknown if that is missing, empty or `unknown`.
  pub summarize_promoted :
      (final : V)
      → KeepsFields final
      → IsShown d.class
      → IsShown result.tool
      → (let summary = summarize_finding json final in
          (summary.class ≡ d.class)
          × (summary.severity ≡ severity_for_tool_class d.class)
          × (summary.confidence ≡ codes "tool_confirmed")
          × (summary.operation ≡ some result.tool)
          × (summary.location
              ≡ filter
                  (is_known json)
                  (string_field json final (codes "provenance" ∷ codes "source_path" ∷ []))))
  unfolding summarize_finding
  summarize_promoted final keeps class tool =
      let fields = added-Fields in
      (
        rw (shown final _ d.class class (same_field final _ _ keeps.class ∙ fields.class)) refl,
        rw
            (shown final _ _ (severity-IsShown d.class)
              (same_field final _ _ keeps.severity ∙ fields.severity))
            refl,
        rw
            (shown final _ _ confirmed-IsShown
              (same_field final _ _ keeps.confidence ∙ fields.confidence))
            refl,
        rw
            (
              absent final _ (same_field final _ _ keeps.evidence ∙ fields.memory),
              absent final _ (same_field final _ _ keeps.evidence ∙ fields.resource),
              shown final _ _ tool (same_field final _ _ keeps.evidence ∙ fields.api),
            )
            refl,
        location_kept final keeps,
      )
