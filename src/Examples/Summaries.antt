-- ===== src/Examples/Summaries.antt =====
-- The theorems on the summaries at sample data.
use recompile.Base.{
  ℕ, ◌≡◌, refl, ◌<◌, true, false, none, some, List, [], ◌∷◌, Text, codes, arith, count, any, All,
  is_some, opt_map, if◌then◌else◌, Option,
}
use recompile.Base.Order.{text_ord, text_cmp}
use recompile.Base.Sort.{sort_by}
use recompile.Base.Sets.{insert, last}
use recompile.Base.Dict.{same, alter}
use recompile.Observation.Status.{clean, findings, timeout}
use recompile.Observation.Target.{ObservationTargetSummary}
use recompile.Observation.Attempt.{RepeatAttemptSummary, select}
use recompile.Observation.Repeat.{first_failure, best_evidence_attempt}
use recompile.Observation.Repeat.Selection.{
  first_failure-Selects, best_evidence_ranks, Selects, BestEvidence, goes_wrong,
}
use recompile.Observation.Groups.{
  RepeatIssueGroupInput, RepeatIssueGroup, aggregate_repeat_issue_groups, finish_all, collect,
  update, extend, new_builder, repeat_issue_group_id, compare_occurrences,
}
use recompile.Observation.Groups.Aggregate.{aggregate_groups, GroupOf}
use recompile.Observation.Groups.Collect.{inputs_of}
use recompile.Examples.{target_with, attempt_with, issue_input}

abbrev two_targets : List ObservationTargetSummary
two_targets = target_with clean 0 ∷ target_with findings 2 ∷ []

abbrev three_attempts : List RepeatAttemptSummary
three_attempts = attempt_with 1 clean 0 ∷ attempt_with 2 timeout 0 ∷ attempt_with 3 findings 2 ∷ []

-- The same issue in two attempts, and another.
abbrev three_inputs : List RepeatIssueGroupInput
three_inputs =
    issue_input (codes "IGF-abc") 2
    ∷ issue_input (codes "IGF-xyz") 1
    ∷ issue_input (codes "IGF-abc") 1
    ∷ []

first_failure-Selects_example :
    Selects
      (codes "first_non_pass")
      (λ a. goes_wrong a.status)
      three_attempts
      (first_failure three_attempts)
first_failure-Selects_example = first_failure-Selects three_attempts (refl, (refl, (refl, tt)))

best_evidence_ranks_example :
    (r : Option RepeatAttemptSummary) × BestEvidence three_attempts r
    × (best_evidence_attempt three_attempts
        ≡ opt_map (λ a. select a (codes "best_available_evidence")) r)
best_evidence_ranks_example = best_evidence_ranks three_attempts (refl, (refl, (refl, tt)))

-- Their groups: two, in the order of the fingerprints.
unfoldable grouped :
    (groups : List RepeatIssueGroup) × (aggregate_repeat_issue_groups three_inputs ≡ some groups)
unfolding aggregate_repeat_issue_groups finish_all collect alter text_cmp update extend new_builder
    repeat_issue_group_id recompile.Base.slice_to recompile.Base.rsplit_once recompile.Base.text_len
    sort_by compare_occurrences insert last
grouped = (_, refl)

aggregate_groups_example :
    All (λ g. GroupOf (inputs_of g.fingerprint three_inputs) g) grouped.0
    × ((f : Text)
        → count (λ g. same f g.fingerprint) grouped.0
          ≡ (if any (λ i. same f i.fingerprint) three_inputs then 1 else 0))
aggregate_groups_example = aggregate_groups three_inputs grouped.0 grouped.1

-- A target with two findings of a class, which valgrind has looked at.
abbrev classed_target : ObservationTargetSummary
classed_target = record (target_with findings 2) {
  findings_by_class = (codes "double_free", 2) ∷ [];
  escalation =
      record {
        tool = codes "valgrind";
        status = findings;
        confirmed = true;
        findings_detected = [];
        artifact_path = none;
        error = none;
        duration_ms = 40;
        timeout_ms = none;
      }
      ∷ [];
}

abbrev classed_attempt : RepeatAttemptSummary
classed_attempt = record (attempt_with 1 findings 2) {
  findings_by_class = (codes "double_free", 2) ∷ [];
}
