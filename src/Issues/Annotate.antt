-- ===== src/Issues/Annotate.antt =====
-- recompile/rerun/src/issue_groups.rs: the groups of the findings of a crashpack, and the marks
-- that the findings get.
pub mod Groups
pub mod Marks
use recompile.Base.{
  ℕ, ◌+◌, ◌>>=◌, ◌∷◌, [], ◌++◌, map, Option, none, some, List, Text, codes, or_else, unwrap_or,
  if◌then◌else◌, length, is_some,
}
use recompile.Base.Decimal.{decimal}
use recompile.Base.Order.{text_ord}
use recompile.Base.Dict.{Dict, alter, get}
use recompile.Issues.Json.{Json}
use recompile.Issues.Finding.{finding_string, finding_call_site}
use recompile.Issues.Inputs.{IssueFingerprintInputs, fingerprint_inputs}
use recompile.Issues.Fingerprint.{issue_fingerprint, issue_group_id}

pub record IssueSource : Type 0 where
  pub status : Text
  pub path : Option Text
  pub call_site : Option Text
  pub alloc_site : Option Text
  pub free_site : Option Text

pub record IssueMemory : Type 0 where
  pub access_size : Option ℕ
  pub alloc_size : Option ℕ
  pub pointer_status : Option Text

pub record IssueGroup : Type 0 where
  pub id : Text
  pub fingerprint : Text
  pub class : Text
  pub operation : Text
  pub severity : Text
  pub confidence : Text
  pub finding_count : ℕ
  pub finding_indices : List ℕ
  pub finding_ids : List Text
  pub source : IssueSource
  pub memory : IssueMemory
  pub fingerprint_inputs : IssueFingerprintInputs

pub record IssueGroupReport : Type 0 where
  pub schema_version : Text
  pub purpose : Text
  pub groups : List IssueGroup

abbrev pub group_count : IssueGroupReport → ℕ
group_count report = length report.groups

-- The closure of `and_modify`.
unfoldable pub add_finding : ℕ → Text → IssueGroup → IssueGroup
add_finding index finding_id group = record group {
  finding_count = group.finding_count + 1;
  finding_indices = group.finding_indices ++ index ∷ [];
  finding_ids = group.finding_ids ++ finding_id ∷ [];
}

-- `entry(fingerprint).and_modify(..).or_insert_with(..)`, with the group that is inserted.
unfoldable pub enter : ℕ → Text → IssueGroup → Option IssueGroup → IssueGroup
enter index finding_id new none = new
enter index finding_id new (some group) = add_finding index finding_id group

module _ {V : Type 0} (json : Json V) where
  -- A finding with its fingerprint and the id of its group, if it is an object.
  unfoldable pub annotate : Text → Text → V → V
  annotate fingerprint group_id finding =
      if json.is_object finding
      then json.insert (json.insert finding (codes "fingerprint") (json.string fingerprint))
          (codes "issue_group_id") (json.string group_id)
      else finding

  unfoldable pub finding_id_of : ℕ → V → Text
  finding_id_of index finding =
      unwrap_or (finding_string json finding (codes "id" ∷ []))
        (codes "finding-" ++ decimal (index + 1))

  -- The closure of `or_insert_with`, with the call site read from the finding.
  unfoldable pub new_group : ℕ → V → IssueFingerprintInputs → Text → Text → Option Text → IssueGroup
  new_group index finding inputs fingerprint group_id call_site = record {
    id = group_id;
    fingerprint = fingerprint;
    class = inputs.class;
    operation = inputs.operation;
    severity = unwrap_or (finding_string json finding (codes "severity" ∷ [])) (codes "unknown");
    confidence =
        unwrap_or (finding_string json finding (codes "confidence" ∷ [])) (codes "unknown");
    finding_count = 1;
    finding_indices = index ∷ [];
    finding_ids = finding_id_of index finding ∷ [];
    source = record {
      status =
          unwrap_or (finding_string json finding (codes "provenance" ∷ codes "source_status" ∷ []))
            (codes "unknown");
      path = inputs.source_path;
      call_site = call_site;
      alloc_site = inputs.alloc_site;
      free_site = inputs.free_site;
    };
    memory = record {
      access_size = inputs.access_size;
      alloc_size = inputs.alloc_size;
      pointer_status =
          or_else (finding_string json finding (codes "evidence" ∷ codes "pointer_status" ∷ []))
            (finding_string json finding (codes "pointer_status" ∷ []));
    };
    fingerprint_inputs = inputs;
  }

  -- The call site is read only for a new group.
  unfoldable pub new_call_site : Text → V → Dict Text IssueGroup → Option (Option Text)
  new_call_site fingerprint marked groups =
      if is_some (get fingerprint groups) then some none else finding_call_site json marked

  -- The marked finding, and its group entered.
  unfoldable pub commit :
      ℕ
      → V
      → Dict Text IssueGroup
      → IssueFingerprintInputs
      → Text
      → Option Text
      → V × Dict Text IssueGroup
  commit index finding groups inputs group_id call_site =
      let fingerprint = issue_fingerprint inputs in
      let marked = annotate fingerprint group_id finding in
      let new = new_group index marked inputs fingerprint group_id call_site in
      (marked, alter fingerprint (enter index (finding_id_of index marked) new) groups)

  -- The body of the loop for one finding.
  unfoldable pub annotate_step : ℕ → V → Dict Text IssueGroup → Option (V × Dict Text IssueGroup)
  annotate_step index finding groups = do
    inputs ← fingerprint_inputs json finding
    let fingerprint = issue_fingerprint inputs
    group_id ← issue_group_id fingerprint
    call_site ← new_call_site fingerprint (annotate fingerprint group_id finding) groups
    some (commit index finding groups inputs group_id call_site)

  unfoldable pub annotate_from :
      ℕ → List V → Dict Text IssueGroup → Option (List V × Dict Text IssueGroup)
  annotate_from index [] groups = some ([], groups)
  annotate_from index (finding ∷ findings) groups = do
    (marked, groups') ← annotate_step index finding groups
    (rest, groups'') ← annotate_from (index + 1) findings groups'
    some (marked ∷ rest, groups'')

  unfoldable pub annotate_findings_with_issue_groups : List V → Option (List V × IssueGroupReport)
  unfolding annotate_from
  annotate_findings_with_issue_groups findings = do
    (marked, groups) ← annotate_from 0 findings []
    some (
      marked,
      record {
        schema_version = codes "1.0";
        purpose = codes "issue_groups";
        groups = map (λ e. e.1) groups;
      },
    )
