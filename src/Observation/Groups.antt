-- ===== src/Observation/Groups.antt =====
-- recompile/rerun/src/observation.rs: the issue groups over the attempts of a repeated run.
-- A panic is `none`; since it ends the whole call, the id of a builder is kept as the result of
-- its computation until the groups are built.
pub mod Collect
pub mod Aggregate
pub mod Total
use recompile.Base.{
  ℕ, ◌+◌, ◌∷◌, ◌++◌, [], Option, none, some, List, map, Text, codes, min, add64, head?, length,
  unwrap_or, opt_map, ◌>>=◌, text_len, slice_to, rsplit_once, Bool, true, false, if◌then◌else◌,
  ◌&&◌, ◌||◌, ltb, ◌==◌,
}
use recompile.Base.Order.{text_ord, nat_ord, text_cmp}
use recompile.Base.Dict.{Dict, alter}
use recompile.Base.Sets.{Set, insert, first, last}
use recompile.Base.Sort.{sort_by}
use Prim.Native.Nat.{compare, Ordering}
use Prim.Native.Nat.Ordering.{lt, eq, gt}

pub record RepeatIssueGroupOccurrence : Type 0 where
  pub attempt : ℕ
  pub target_name : Text
  pub issue_group_id : Text
  pub finding_count : ℕ
  pub issue_groups : Text
  pub crashpack : Text

pub record RepeatIssueGroupInput : Type 0 where
  pub fingerprint : Text
  pub class : Text
  pub operation : Text
  pub severity : Text
  pub confidence : Text
  pub occurrence : RepeatIssueGroupOccurrence

pub record RepeatIssueGroup : Type 0 where
  pub id : Text
  pub fingerprint : Text
  pub class : Text
  pub operation : Text
  pub severity : Text
  pub confidence : Text
  pub attempt_count : ℕ
  pub occurrence_count : ℕ
  pub first_attempt : ℕ
  pub last_attempt : ℕ
  pub representative_attempt : RepeatIssueGroupOccurrence
  pub attempts : List RepeatIssueGroupOccurrence

pub record RepeatIssueGroupBuilder : Type 0 where
  pub id : Option Text
  pub fingerprint : Text
  pub class : Text
  pub operation : Text
  pub severity : Text
  pub confidence : Text
  pub occurrence_count : ℕ
  pub attempt_numbers : Set ℕ
  pub attempts : List RepeatIssueGroupOccurrence

-- What stands behind the last dash, or all.
id_suffix : Text → Text
id_suffix fingerprint = elim (rsplit_once b'-' fingerprint) [
  | some (head, value) ↦ value
  | none ↦ fingerprint
]

unfoldable pub repeat_issue_group_id : Text → Option Text
unfolding id_suffix
repeat_issue_group_id fingerprint =
    let suffix = id_suffix fingerprint in
    opt_map (λ s. codes "RIG-" ++ s) (slice_to (min (text_len suffix) 12) suffix)

-- The closure of `or_insert_with`.
unfoldable pub new_builder : RepeatIssueGroupInput → RepeatIssueGroupBuilder
new_builder input = record {
  id = repeat_issue_group_id input.fingerprint;
  fingerprint = input.fingerprint;
  class = input.class;
  operation = input.operation;
  severity = input.severity;
  confidence = input.confidence;
  occurrence_count = input.occurrence.finding_count;
  attempt_numbers = insert input.occurrence.attempt [];
  attempts = input.occurrence ∷ [];
}

-- The closure of `and_modify`.
unfoldable pub extend : RepeatIssueGroupInput → RepeatIssueGroupBuilder → RepeatIssueGroupBuilder
extend input builder = record builder {
  occurrence_count = add64 builder.occurrence_count input.occurrence.finding_count;
  attempt_numbers = insert input.occurrence.attempt builder.attempt_numbers;
  attempts = builder.attempts ++ input.occurrence ∷ [];
}

unfoldable pub update :
    RepeatIssueGroupInput → Option RepeatIssueGroupBuilder → RepeatIssueGroupBuilder
update input none = new_builder input
update input (some builder) = extend input builder

unfoldable pub collect :
    Dict Text RepeatIssueGroupBuilder
    → List RepeatIssueGroupInput
    → Dict Text RepeatIssueGroupBuilder
collect builders [] = builders
collect builders (input ∷ inputs) = collect (alter input.fingerprint (update input) builders) inputs

-- The comparison of the sort: attempt, target name, group id.
unfoldable pub compare_occurrences :
    RepeatIssueGroupOccurrence → RepeatIssueGroupOccurrence → Ordering
compare_occurrences l r = elim (compare l.attempt r.attempt) [
  | lt ↦ lt
  | gt ↦ gt
  | eq ↦ elim (text_cmp l.target_name r.target_name) [
    | lt ↦ lt
    | gt ↦ gt
    | eq ↦ text_cmp l.issue_group_id r.issue_group_id
  ]
]

unfoldable pub finish : RepeatIssueGroupBuilder → Option RepeatIssueGroup
finish builder =
    let attempts = sort_by compare_occurrences builder.attempts in
    do
      id ← builder.id
      representative ← head? attempts
      first_attempt ← first builder.attempt_numbers
      last_attempt ← last builder.attempt_numbers
      some (record {
        id = id;
        fingerprint = builder.fingerprint;
        class = builder.class;
        operation = builder.operation;
        severity = builder.severity;
        confidence = builder.confidence;
        attempt_count = length builder.attempt_numbers;
        occurrence_count = builder.occurrence_count;
        first_attempt = first_attempt;
        last_attempt = last_attempt;
        representative_attempt = representative;
        attempts = attempts;
      })

unfoldable pub finish_all : Dict Text RepeatIssueGroupBuilder → Option (List RepeatIssueGroup)
unfolding finish
finish_all [] = some []
finish_all ((fingerprint, builder) ∷ builders) = do
  group ← finish builder
  groups ← finish_all builders
  some (group ∷ groups)

unfoldable pub aggregate_repeat_issue_groups :
    List RepeatIssueGroupInput → Option (List RepeatIssueGroup)
aggregate_repeat_issue_groups inputs = finish_all (collect [] inputs)
