-- ===== src/Examples/Issues.antt =====
-- The theorems on the issue groups of a crashpack at sample findings.
use recompile.Base.{
  ℕ, ◌≡◌, ◌≢◌, refl, ap, ◌∷◌, [], ◌++◌, Bool, true, false, Option, none, some, List, Text, codes,
  text_eq, text_eq_iff, is_some, if◌then◌else◌, arith, u64_mod, ◌<◌, length, all, take, IsAscii,
  All, count, any, not, unwrap_or, String, Bool-cases, inl, inr,
}
use recompile.Base.Order.{text_ord}
use recompile.Base.Dict.{same}
use recompile.Base.Words.{split_whitespace}
use recompile.Issues.Json.{Json, Laws}
use recompile.Issues.Normalize.{normalize_volatile_tokens, trim_marks}
use recompile.Issues.Normalize.Panics.{is_bare, normalize_tokens_panic}
use recompile.Issues.Inputs.{IssueFingerprintInputs, fingerprint_inputs}
use recompile.Base.Hex.{hex}
use recompile.Issues.Fingerprint.{issue_fingerprint, issue_group_id}
use recompile.Issues.Fingerprint.Shape.{fingerprint-Shape, hash_of, is_hex_digit}
use recompile.Issues.Annotate.{annotate, IssueGroupReport, annotate_findings_with_issue_groups}
use recompile.Issues.Annotate.Groups.{IsGroupOf, indices_of, has_fingerprint, annotate_groups}
use recompile.Issues.Annotate.Marks.{annotate_keeps_inputs, annotate_completes}

-- JSON values without arrays; an object is a chain of fields, the last written first.
pub data Value : Type 0 where
  text : Text → Value
  number : ℕ → Value
  empty : Value
  field : Text → Value → Value → Value

unfoldable pub get_field : Value → Text → Option Value
unfolding text_eq
get_field (field k v rest) key = if text_eq key k then some v else get_field rest key
get_field _ key = none

abbrev is_object : Value → Bool
is_object empty = true
is_object (field k v rest) = true
is_object _ = false

abbrev str_of : Value → Option Text
str_of (text s) = some s
str_of _ = none

abbrev as_u64 : Value → Option ℕ
as_u64 (number n) = some n
as_u64 _ = none

abbrev pub sample_json : Json Value
sample_json = record {
  get = get_field;
  as_str = str_of;
  as_u64 = as_u64;
  as_i64 = λ v. none;
  as_array = λ v. none;
  is_object = is_object;
  insert = λ v key x. field key x v;
  string = text;
}

text_eq-differs : (s t : Text) → s ≢ t → text_eq s t ≡ false
text_eq-differs s t h = elim (Bool-cases (text_eq s t)) [
  | inl same ↦ absurd (h ((text_eq_iff s t).0 same))
  | inr other ↦ other
]

pub sample-Laws : Laws sample_json
unfolding get_field
sample-Laws = record {
  get-insert_same = λ v x key h. ground (arith, (text_eq_iff key key).1 refl);
  get-insert_other = λ v x key other h d. ground (arith, text_eq-differs other key d);
  is_object-insert = λ v x key h. refl;
  as_str-string = λ s. refl;
}

abbrev one_field : String → Value → Value
one_field key v = field (codes key) v empty

abbrev native_inputs : IssueFingerprintInputs
native_inputs = record {
  class = codes "heap_overflow";
  operation = codes "memcpy";
  source_path = none;
  call_site = some (codes "b.c:7");
  alloc_site = none;
  free_site = none;
  access_size = some 32;
  alloc_size = some 16;
  alloc_offset = some 0;
  tool = none;
  tool_summary = none;
  binary_identity = some (codes "app");
}

abbrev sample : Value
sample =
    field (codes "class") (text (codes "double_free"))
      (one_field "message" (text (codes "pid ==7== x")))

abbrev broken : Value
broken = one_field "message" (text (codes "a == b"))

normalize_tokens_panic_example :
    is_some (normalize_volatile_tokens (codes "a == b"))
    ≡ all (λ token. not (is_bare (trim_marks token))) (split_whitespace (codes "a == b"))
normalize_tokens_panic_example = normalize_tokens_panic (codes "a == b")

annotate_keeps_inputs_example :
    fingerprint_inputs sample_json (annotate sample_json (codes "f") (codes "g") sample)
    ≡ fingerprint_inputs sample_json sample
annotate_keeps_inputs_example =
    annotate_keeps_inputs sample_json sample-Laws (codes "f") (codes "g") sample

-- A finding whose message has a word of two equals signs stops the annotation of all.
annotate_completes_example :
    is_some (annotate_findings_with_issue_groups sample_json (sample ∷ broken ∷ [])) ≡ false
unfolding fingerprint_inputs recompile.Issues.Finding.finding_call_site
    recompile.Issues.Finding.site_or_else recompile.Issues.Finding.tool_frame
    recompile.Issues.Finding.finding_string get_field recompile.Issues.Finding.first_stack_site
    recompile.Issues.Finding.evidence_site recompile.Issues.Finding.normalized_tool_summary
    normalize_volatile_tokens recompile.Issues.Normalize.map_all recompile.Base.Scan.is_whitespace
    recompile.Issues.Normalize.normalize_volatile_token recompile.Base.Scan.strip_prefix
    recompile.Base.Scan.trim_end_of recompile.Base.Scan.trim_start_of
    recompile.Issues.Normalize.normalize_pid_prefix
annotate_completes_example = annotate_completes sample_json sample-Laws (sample ∷ broken ∷ [])

fingerprint-Shape_example :
    let digits = hex 16 (hash_of native_inputs) in
    (issue_fingerprint native_inputs ≡ codes "re-issue-v1-" ++ digits)
    × (length digits ≡ 16)
    × (all is_hex_digit digits ≡ true)
    × (hash_of native_inputs < u64_mod)
    × IsAscii (issue_fingerprint native_inputs)
    × (issue_group_id (issue_fingerprint native_inputs) ≡ some (codes "IG-" ++ take 12 digits))
fingerprint-Shape_example = fingerprint-Shape native_inputs

abbrev pub two_findings : List Value
two_findings = sample ∷ one_field "kind" (text (codes "leak")) ∷ []

two_complete : is_some (annotate_findings_with_issue_groups sample_json two_findings) ≡ true
unfolding fingerprint_inputs recompile.Issues.Finding.finding_call_site
    recompile.Issues.Finding.site_or_else recompile.Issues.Finding.tool_frame
    recompile.Issues.Finding.finding_string get_field recompile.Issues.Finding.first_stack_site
    recompile.Issues.Finding.evidence_site recompile.Issues.Finding.normalized_tool_summary
    normalize_volatile_tokens recompile.Issues.Normalize.map_all recompile.Base.Scan.is_whitespace
    recompile.Issues.Normalize.normalize_volatile_token recompile.Base.Scan.strip_prefix
    recompile.Base.Scan.trim_end_of recompile.Base.Scan.trim_start_of
    recompile.Issues.Normalize.normalize_pid_prefix
two_complete = annotate_completes sample_json sample-Laws two_findings

abbrev pub two_annotated : List Value × IssueGroupReport
two_annotated =
    unwrap_or (annotate_findings_with_issue_groups sample_json two_findings)
      ([], record { schema_version = []; purpose = []; groups = [] })

unwrap_some :
    (o : Option (List Value × IssueGroupReport)) (d : List Value × IssueGroupReport)
    → is_some o ≡ true
    → o ≡ some ((unwrap_or o d).0, (unwrap_or o d).1)
unwrap_some none d h = ground arith
unwrap_some (some r) d h = refl

pub two_done :
    annotate_findings_with_issue_groups sample_json two_findings
    ≡ some (two_annotated.0, two_annotated.1)
two_done = unwrap_some (annotate_findings_with_issue_groups sample_json two_findings) _ two_complete

annotate_groups_example :
    (length two_annotated.0 ≡ 2)
    × All
        (λ g.
          IsGroupOf sample_json g.fingerprint
            (indices_of sample_json g.fingerprint 0 two_findings)
            g)
        two_annotated.1.groups
    × ((f : Text)
        → count (λ g. same f g.fingerprint) two_annotated.1.groups
          ≡ (if any (has_fingerprint sample_json f) two_findings then 1 else 0))
annotate_groups_example =
    annotate_groups sample_json two_findings two_annotated.0 two_annotated.1 two_done
