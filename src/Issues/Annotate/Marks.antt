-- ===== src/Issues/Annotate/Marks.antt =====
-- The marks that a finding gets, against what its fingerprint is made from.
use recompile.Base.{
  take, ◌++◌, ℕ, ◌+◌, ◌≡◌, ◌≢◌, refl, ◌∙◌, ◌∷◌, [], true, false, none, some, List, Text, codes,
  text_eq, text_eq_iff, arith, all, is_some, Bool-cases, Option-cases, inl, inr,
}
use recompile.Base.Order.{text_ord}
use recompile.Base.Dict.{Dict}
use recompile.Issues.Json.{Json, Laws}
use recompile.Issues.Finding.{
  value_at, finding_string, finding_u64, finding_file_uri, first_stack_site, tool_frame, tool_name,
  normalized_tool_summary, binary_identity, finding_call_site, evidence_site,
}
use recompile.Issues.Inputs.{
  IssueFingerprintInputs, class_of, operation_of, source_path_of, memory_of, fingerprint_inputs,
}
use recompile.Base.Hex.{hex}
use recompile.Issues.Fingerprint.{issue_fingerprint, issue_group_id}
use recompile.Issues.Fingerprint.Shape.{fingerprint-Shape, hash_of}
use recompile.Issues.Annotate.{
  annotate, IssueGroup, new_call_site, annotate_step, annotate_from,
  annotate_findings_with_issue_groups,
}

-- The key is none of those of the marks.
abbrev IsUnmarked : Text → Type 0
IsUnmarked key =
    (text_eq key (codes "fingerprint") ≡ false) × (text_eq key (codes "issue_group_id") ≡ false)

differs : (s t : Text) → text_eq s t ≡ false → s ≢ t
differs s t h e = ground (arith, (text_eq_iff s t).1 e)

group-named :
    (inputs : IssueFingerprintInputs)
    → (id : Text) × (issue_group_id (issue_fingerprint inputs) ≡ some id)
group-named inputs =
    (codes "IG-" ++ take 12 (hex 16 (hash_of inputs)), (fingerprint-Shape inputs).5)

module _ {V : Type 0} (json : Json V) (laws : Laws json) where
  get-annotate :
      (fingerprint id key : Text) (finding : V)
      → IsUnmarked key
      → json.get (annotate json fingerprint id finding) key ≡ json.get finding key
  unfolding annotate
  get-annotate fingerprint id key finding h = elim (Bool-cases (json.is_object finding)) [
    | inr other ↦ rw other refl
    | inl object ↦
        let first = json.insert finding (codes "fingerprint") (json.string fingerprint) in
        rw object (
          laws.get-insert_other first (json.string id) (codes "issue_group_id") key
            (laws.is_object-insert finding (json.string fingerprint) (codes "fingerprint") object)
            (differs key (codes "issue_group_id") h.1)
          ∙ laws.get-insert_other finding (json.string fingerprint) (codes "fingerprint") key object
              (differs key (codes "fingerprint") h.0))
  ]

  -- The readers read only below keys that are not marks.
  module _ (fingerprint id : Text) (finding : V) where
    marked : V
    marked = annotate json fingerprint id finding

    value_at-marked :
        (key : Text) (path : List Text)
        → IsUnmarked key
        → value_at json marked (key ∷ path) ≡ value_at json finding (key ∷ path)
    unfolding value_at marked
    value_at-marked key path h = rw (get-annotate fingerprint id key finding h) refl

    string-marked :
        (key : Text) (path : List Text)
        → IsUnmarked key
        → finding_string json marked (key ∷ path) ≡ finding_string json finding (key ∷ path)
    unfolding finding_string
    string-marked key path h = rw (value_at-marked key path h) refl

    u64-marked :
        (key : Text) (path : List Text)
        → IsUnmarked key
        → finding_u64 json marked (key ∷ path) ≡ finding_u64 json finding (key ∷ path)
    unfolding finding_u64
    u64-marked key path h = rw (value_at-marked key path h) refl

    evidence : IsUnmarked (codes "evidence")
    unfolding text_eq
    evidence = (refl, refl)

    provenance : IsUnmarked (codes "provenance")
    unfolding text_eq
    provenance = (refl, refl)

    stack-marked :
        (name : Text) → first_stack_site json marked name ≡ first_stack_site json finding name
    unfolding first_stack_site
    stack-marked name =
        rw
          (
            value_at-marked (codes "evidence") (codes "stacks" ∷ name ∷ []) evidence,
            first_stack_site,
          )
          refl

    frame-marked : (field : Text) → tool_frame json marked field ≡ tool_frame json finding field
    unfolding tool_frame
    frame-marked field =
        rw (string-marked (codes "evidence") (codes "tool" ∷ field ∷ []) evidence, tool_frame) refl

    call_site-marked : finding_call_site json marked ≡ finding_call_site json finding
    unfolding finding_call_site
    call_site-marked = rw (frame-marked (codes "call_frame"), stack-marked (codes "call")) refl

    site-marked :
        (site frame stack : Text)
        → evidence_site json marked site frame stack ≡ evidence_site json finding site frame stack
    unfolding evidence_site
    site-marked site frame stack =
        rw
          (
            string-marked (codes "evidence") (site ∷ []) evidence,
            frame-marked frame,
            stack-marked stack,
          )
          refl

    tool_name-marked : tool_name json marked ≡ tool_name json finding
    unfolding tool_name text_eq
    tool_name-marked =
        rw
          (
            string-marked (codes "evidence") (codes "tool" ∷ codes "name" ∷ []) evidence,
            string-marked (codes "origin") [] (refl, refl),
          )
          refl

    summary-marked : normalized_tool_summary json marked ≡ normalized_tool_summary json finding
    unfolding normalized_tool_summary text_eq
    summary-marked =
        rw
          (
            string-marked (codes "evidence") (codes "tool" ∷ codes "summary" ∷ []) evidence,
            string-marked (codes "message") [] (refl, refl),
            normalized_tool_summary,
          )
          refl

    identity-marked : binary_identity json marked ≡ binary_identity json finding
    unfolding binary_identity
    identity-marked =
        rw
          (
            string-marked (codes "provenance") (codes "original_binary_path" ∷ []) provenance,
            string-marked (codes "provenance") (codes "binary_path" ∷ []) provenance,
          )
          refl

    class-marked : class_of json marked ≡ class_of json finding
    unfolding class_of text_eq
    class-marked =
        rw
          (
            string-marked (codes "class") [] (refl, refl),
            string-marked (codes "kind") [] (refl, refl),
          )
          refl

    operation-marked : operation_of json marked ≡ operation_of json finding
    unfolding operation_of
    operation-marked =
        rw
          (
            string-marked (codes "evidence") (codes "memory" ∷ codes "operation" ∷ []) evidence,
            string-marked (codes "evidence") (codes "api" ∷ []) evidence,
          )
          refl

    source-marked : source_path_of json marked ≡ source_path_of json finding
    unfolding source_path_of finding_file_uri text_eq
    source-marked =
        rw
          (
            string-marked (codes "provenance") (codes "source_path" ∷ []) provenance,
            string-marked (codes "primaryLocation") (codes "uri" ∷ []) (refl, refl),
          )
          refl

    memory-marked : (key : Text) → memory_of json marked key ≡ memory_of json finding key
    unfolding memory_of
    memory-marked key = u64-marked (codes "evidence") (codes "memory" ∷ key ∷ []) evidence

    inputs-marked : fingerprint_inputs json marked ≡ fingerprint_inputs json finding
    unfolding fingerprint_inputs
    inputs-marked =
        rw
          (
            tool_name-marked,
            class-marked,
            operation-marked,
            source-marked,
            memory-marked (codes "size"),
            memory-marked (codes "alloc_size"),
            memory-marked (codes "alloc_offset"),
            call_site-marked,
            site-marked (codes "alloc_site") (codes "alloc_frame") (codes "alloc"),
            site-marked (codes "free_site") (codes "free_frame") (codes "free"),
            summary-marked,
            identity-marked,
            fingerprint_inputs,
          )
          refl

  -- The marks change nothing that a fingerprint is made from: a finding that is marked, with any
  -- fingerprint and any group id, has the inputs that it had before.
  pub annotate_keeps_inputs :
      (fingerprint id : Text) (finding : V)
      → fingerprint_inputs json (annotate json fingerprint id finding)
        ≡ fingerprint_inputs json finding
  unfolding marked
  annotate_keeps_inputs fingerprint id finding = inputs-marked fingerprint id finding

  call_site-panic :
      (finding : V) → finding_call_site json finding ≡ none → fingerprint_inputs json finding ≡ none
  unfolding fingerprint_inputs
  call_site-panic finding h = rw (h, fingerprint_inputs) refl

  -- Inputs are there only if the call site is read without a panic.
  inputs-call_site :
      (finding : V)
      → is_some (fingerprint_inputs json finding) ≡ true
      → is_some (finding_call_site json finding) ≡ true
  inputs-call_site finding h = elim (Option-cases (finding_call_site json finding)) [
    | inl panic ↦ ground (arith, call_site-panic finding panic)
    | inr (site, e) ↦ rw e refl
  ]

  new_call_site-some :
      (finding : V) (fingerprint id : Text) (groups : Dict Text IssueGroup)
      → is_some (fingerprint_inputs json finding) ≡ true
      → is_some (new_call_site json fingerprint (annotate json fingerprint id finding) groups)
        ≡ true
  unfolding new_call_site marked
  new_call_site-some finding fingerprint id groups h =
      ground (arith, call_site-marked fingerprint id finding, inputs-call_site finding h)

  step-some :
      (index : ℕ) (finding : V) (groups : Dict Text IssueGroup)
      → is_some (annotate_step json index finding groups)
        ≡ is_some (fingerprint_inputs json finding)
  unfolding annotate_step
  step-some index finding groups = elim (Option-cases (fingerprint_inputs json finding)) [
    | inl panic ↦ rw (panic, annotate_step) refl
    | inr (inputs, e) ↦
        let (id, named) = group-named inputs in
        let call_site =
          new_call_site-some finding (issue_fingerprint inputs) id groups (rw e refl) in
        ground (arith, e, named, call_site)
  ]

  from-some :
      (index : ℕ) (findings : List V) (groups : Dict Text IssueGroup)
      → is_some (annotate_from json index findings groups)
        ≡ all (λ finding. is_some (fingerprint_inputs json finding)) findings
  unfolding annotate_from
  from-some index [] groups = refl
  from-some index (finding ∷ findings) groups =
      elim (Option-cases (annotate_step json index finding groups)) [
        | inl panic ↦ ground (arith, panic, step-some index finding groups)
        | inr ((marked, groups'), e) ↦
            ground
              (arith, e, step-some index finding groups, from-some (index + 1) findings groups')
      ]

  -- The findings of a crashpack are annotated without a panic exactly if the fingerprint inputs of
  -- each are read without one.
  pub annotate_completes :
      (findings : List V)
      → is_some (annotate_findings_with_issue_groups json findings)
        ≡ all (λ finding. is_some (fingerprint_inputs json finding)) findings
  unfolding annotate_findings_with_issue_groups
  annotate_completes findings = ground (arith, from-some 0 findings [])
