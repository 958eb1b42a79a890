-- ===== src/Issues/Inputs.antt =====
-- recompile/rerun/src/issue_groups.rs: what a fingerprint is made from.
use recompile.Base.{
  ℕ, ◌&&◌, ◌||◌, ◌>>=◌, ◌∷◌, [], not, Bool, Option, none, some, Text, codes, is_some, or_else,
  unwrap_or, if◌then◌else◌,
}
use recompile.Issues.Json.{Json}
use recompile.Issues.Normalize.{stable_non_unknown}
use recompile.Issues.Finding.{
  finding_string, finding_u64, finding_file_uri, tool_name, normalized_tool_summary,
  binary_identity, finding_call_site, evidence_site,
}

pub record IssueFingerprintInputs : Type 0 where
  pub class : Text
  pub operation : Text
  pub source_path : Option Text
  pub call_site : Option Text
  pub alloc_site : Option Text
  pub free_site : Option Text
  pub access_size : Option ℕ
  pub alloc_size : Option ℕ
  pub alloc_offset : Option ℕ
  pub tool : Option Text
  pub tool_summary : Option Text
  pub binary_identity : Option Text

unfoldable pub fingerprint_call_site :
    Option Text
    → Option Text
    → Option Text
    → Option Text
    → Option ℕ
    → Option ℕ
    → Option ℕ
    → Option Text
fingerprint_call_site tool call_site source_path alloc_site access_size alloc_size alloc_offset =
    call_site >>= λ site.
    if is_some tool
    then some site
    else if is_some source_path
        && is_some alloc_site
        && (is_some access_size || is_some alloc_size || is_some alloc_offset)
    then none
    else some site

unfoldable pub has_stable_native_memory_identity :
    Option Text → Text → Text → Option ℕ → Option ℕ → Option ℕ → Bool
has_stable_native_memory_identity tool class operation access_size alloc_size alloc_offset =
    not (is_some tool)
    && stable_non_unknown class
    && stable_non_unknown operation
    && is_some access_size
    && is_some alloc_size
    && is_some alloc_offset

unfoldable pub uses_stable_native_memory_identity : IssueFingerprintInputs → Bool
unfolding has_stable_native_memory_identity
uses_stable_native_memory_identity inputs =
    has_stable_native_memory_identity inputs.tool inputs.class inputs.operation inputs.access_size
      inputs.alloc_size inputs.alloc_offset

module _ {V : Type 0} (json : Json V) where
  unfoldable pub class_of : V → Text
  class_of finding =
      unwrap_or
        (or_else (finding_string json finding (codes "class" ∷ []))
          (finding_string json finding (codes "kind" ∷ [])))
        (codes "unknown")

  unfoldable pub operation_of : V → Text
  operation_of finding =
      unwrap_or
        (or_else
          (finding_string json finding (codes "evidence" ∷ codes "memory" ∷ codes "operation" ∷ []))
          (finding_string json finding (codes "evidence" ∷ codes "api" ∷ [])))
        (codes "unknown")

  unfoldable pub source_path_of : V → Option Text
  source_path_of finding =
      or_else (finding_string json finding (codes "provenance" ∷ codes "source_path" ∷ []))
        (finding_file_uri json finding (codes "primaryLocation" ∷ codes "uri" ∷ []))

  unfoldable pub memory_of : V → Text → Option ℕ
  memory_of finding key = finding_u64 json finding (codes "evidence" ∷ codes "memory" ∷ key ∷ [])

  unfoldable pub fingerprint_inputs : V → Option IssueFingerprintInputs
  unfolding class_of operation_of source_path_of memory_of
  fingerprint_inputs finding =
      let tool = tool_name json finding in
      let class = class_of finding in
      let operation = operation_of finding in
      let source_path = source_path_of finding in
      let access_size = memory_of finding (codes "size") in
      let alloc_size = memory_of finding (codes "alloc_size") in
      let alloc_offset = memory_of finding (codes "alloc_offset") in
      let native =
        has_stable_native_memory_identity tool class operation access_size alloc_size
          alloc_offset in
      do
        raw_call_site ← finding_call_site json finding
        alloc_site ←
            evidence_site json finding (codes "alloc_site") (codes "alloc_frame") (codes "alloc")
        free_site ←
            evidence_site json finding (codes "free_site") (codes "free_frame") (codes "free")
        let call_site =
            fingerprint_call_site tool raw_call_site source_path alloc_site access_size alloc_size
              alloc_offset
        tool_summary ← normalized_tool_summary json finding
        some (record {
          class = class;
          operation = operation;
          source_path = source_path;
          call_site = call_site;
          alloc_site = alloc_site;
          free_site = free_site;
          access_size = access_size;
          alloc_size = alloc_size;
          alloc_offset = alloc_offset;
          tool = tool;
          tool_summary = tool_summary;
          binary_identity =
              if native
                || (is_some tool
                    && not (is_some source_path)
                    && not (is_some call_site)
                    && not (is_some alloc_site)
                    && not (is_some free_site))
              then binary_identity json finding
              else none;
        })
