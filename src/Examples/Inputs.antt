-- ===== src/Examples/Inputs.antt =====
-- The issue groups of a repeated run of two attempts, at sample findings.
use recompile.Base.{
  ℕ, ◌<◌, ◌≤◌, ◌≡◌, refl, Bool, true, false, some, List, All, [], ◌∷◌, Text, codes, count,
  count-le-length, any, arith, u64_mod, if◌then◌else◌,
}
use recompile.Base.Order.{text_ord}
use recompile.Base.Dict.{same}
use recompile.Observation.Status.{findings}
use recompile.Observation.Groups.{
  RepeatIssueGroupInput, RepeatIssueGroup, aggregate_repeat_issue_groups,
}
use recompile.Issues.Annotate.{IssueGroupReport}
use recompile.Issues.Annotate.Groups.{has_fingerprint}
use recompile.Cli.Policy.{Result, ok, err}
use recompile.Cli.Inputs.{load_repeat_issue_group_inputs}
use recompile.Cli.Inputs.Counted.{Recorded, IsStored, findings_with, has}
use recompile.Cli.Inputs.Whole.{load_all, Counts, repeat_groups_count}
use recompile.Examples.{attempt_with}
use recompile.Examples.Issues.{sample_json, two_findings, two_annotated, two_done}

abbrev run_of : ℕ → Recorded sample_json
run_of n = record {
  attempt = record (attempt_with n findings 2) { issue_groups = some (codes "groups.json") };
  findings = two_findings;
}

abbrev read_two : Text → Result IssueGroupReport
read_two path = ok two_annotated.1

abbrev is_there : Text → Bool
is_there path = true

run_of-IsStored : (n : ℕ) → IsStored sample_json is_there read_two (run_of n)
run_of-IsStored n = record {
  path = codes "groups.json";
  marked = two_annotated.0;
  report = two_annotated.1;
  named = refl;
  there = refl;
  read = refl;
  annotated = two_done;
}

abbrev two_runs : List (Recorded sample_json)
two_runs = run_of 1 ∷ run_of 2 ∷ []

few : (f : Text) → findings_with sample_json f two_runs < u64_mod
few f =
    let bound : count (has_fingerprint sample_json f) two_findings ≤ 2 =
      count-le-length (has_fingerprint sample_json f) two_findings in
    omega (arith, bound)

-- A report that is missing is an error, unless there are no groups.
missing_test :
    load_repeat_issue_group_inputs
      (λ path. false)
      read_two
      (record (run_of 1).attempt { issue_group_count = 1 })
    ≡ err (codes "missing issue group artifact for app at groups.json")
unfolding load_repeat_issue_group_inputs
missing_test = refl

repeat_groups_count_example :
    (inputs : List RepeatIssueGroupInput) × (groups : List RepeatIssueGroup) × (load_all sample_json
        is_there read_two two_runs
      ≡ ok inputs)
    × (aggregate_repeat_issue_groups inputs ≡ some groups)
    × All (Counts sample_json two_runs) groups
    × ((f : Text)
        → count (λ g. same f g.fingerprint) groups
          ≡ (if any (has sample_json f) two_runs then 1 else 0))
repeat_groups_count_example =
    repeat_groups_count sample_json is_there read_two two_runs
      (run_of-IsStored 1, (run_of-IsStored 2, tt)) few
