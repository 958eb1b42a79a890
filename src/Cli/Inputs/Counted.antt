-- ===== src/Cli/Inputs/Counted.antt =====
-- What the inputs of an attempt say of the findings of its crashpack.
use recompile.Base.{
  ℕ, suc, ◌+◌, ◌*◌, ◌<◌, ◌≡◌, refl, sym, ap, ◌∙◌, ◌∷◌, [], Bool, true, false, some, List, All,
  All-map, map, Text, IsAscii, arith, any, count, keep, sum_of, length, ltb, replicate, Bool-cases,
  Option-cases, inl, inr, if◌then◌else◌,
}
use mathlib.Core.Path.{subst}
use recompile.Base.Order.{text_ord}
use recompile.Base.Dict.{same, same→eq}
use recompile.Observation.Attempt.{RepeatAttemptSummary}
use recompile.Observation.Groups.{RepeatIssueGroupInput}
use recompile.Observation.Groups.Collect.{inputs_of, attempt_numbers, findings_of}
use recompile.Issues.Json.{Json}
use recompile.Issues.Inputs.{fingerprint_inputs}
use recompile.Issues.Fingerprint.{issue_fingerprint}
use recompile.Issues.Fingerprint.Shape.{fingerprint-Shape}
use recompile.Issues.Annotate.{IssueGroup, IssueGroupReport, annotate_findings_with_issue_groups}
use recompile.Issues.Annotate.Groups.{
  has_fingerprint, indices_of, IsGroupOf, any-indices_of, annotate_groups,
}
use recompile.Cli.Policy.{Result, ok}
use recompile.Cli.Inputs.{input_of, load_repeat_issue_group_inputs}

replicate-step : (n a : ℕ) → replicate (1 + n) a ≡ a ∷ replicate n a
replicate-step n a = let e : 1 + n ≡ suc n = omega arith in rw e refl

attempts-inputs :
    (f : Text) (attempt : RepeatAttemptSummary) (path : Text) (groups : List IssueGroup)
    → attempt_numbers (inputs_of f (map (input_of attempt path) groups))
      ≡ replicate (count (λ g. same f g.fingerprint) groups) attempt.attempt
unfolding input_of
attempts-inputs f attempt path [] = refl
attempts-inputs f attempt path (g ∷ gs) = elim (Bool-cases (same f g.fingerprint)) [
  | inl here ↦ rw here (
      ap (λ ns. attempt.attempt ∷ ns) (attempts-inputs f attempt path gs)
      ∙ sym (replicate-step (count (λ g. same f g.fingerprint) gs) attempt.attempt))
  | inr other ↦ rw other (
      attempts-inputs f attempt path gs ∙ ap (λ (n : ℕ). replicate n attempt.attempt) (omega arith))
]

-- The findings of groups that hold as many each.
findings-inputs :
    (f : Text) (attempt : RepeatAttemptSummary) (path : Text) (groups : List IssueGroup) (n : ℕ)
    → All (λ g. same f g.fingerprint ≡ true → g.finding_count ≡ n) groups
    → findings_of (inputs_of f (map (input_of attempt path) groups))
      ≡ count (λ g. same f g.fingerprint) groups * n
unfolding input_of
findings-inputs f attempt path [] n h = omega arith
findings-inputs f attempt path (g ∷ gs) n h = elim (Bool-cases (same f g.fingerprint)) [
  | inl here ↦ ground (arith, here, h.0 here, findings-inputs f attempt path gs n h.1)
  | inr other ↦ ground (arith, other, findings-inputs f attempt path gs n h.1)
]

any-inputs :
    (f : Text) (attempt : RepeatAttemptSummary) (path : Text) (groups : List IssueGroup)
    → any (λ i. same f i.fingerprint) (map (input_of attempt path) groups)
      ≡ ltb 0 (count (λ g. same f g.fingerprint) groups)
unfolding input_of
any-inputs f attempt path [] = refl
any-inputs f attempt path (g ∷ gs) = elim (Bool-cases (same f g.fingerprint)) [
  | inl here ↦ rw here (ground arith)
  | inr other ↦ ground (arith, other, any-inputs f attempt path gs)
]

input_of-All :
    (P : Text → Type 0) (attempt : RepeatAttemptSummary) (path : Text) (groups : List IssueGroup)
    → All (λ g. P g.fingerprint) groups
    → All (λ i. P i.fingerprint) (map (input_of attempt path) groups)
unfolding input_of
input_of-All P attempt path [] h = tt
input_of-All P attempt path (g ∷ gs) h = (h.0, input_of-All P attempt path gs h.1)

module _ {V : Type 0} (json : Json V) where
  length-indices_of :
      (f : Text) (index : ℕ) (findings : List V)
      → length (indices_of json f index findings) ≡ count (has_fingerprint json f) findings
  length-indices_of f index [] = refl
  length-indices_of f index (finding ∷ findings) =
      ground (arith, length-indices_of f (index + 1) findings)

  -- A fingerprint that a finding has is ASCII.
  has_fingerprint-IsAscii :
      (f : Text) (finding : V) → has_fingerprint json f finding ≡ true → IsAscii f
  has_fingerprint-IsAscii f finding h = elim (Option-cases (fingerprint_inputs json finding)) [
    | inl missing ↦ absurd (ground (arith, h, missing))
    | inr (inputs, found) ↦
        let equal : f ≡ issue_fingerprint inputs =
          same→eq f (issue_fingerprint inputs) (ground (arith, h, found)) in
        subst IsAscii (sym equal) (fingerprint-Shape inputs).4
  ]

  found-IsAscii :
      (f : Text) (findings : List V) → 0 < count (has_fingerprint json f) findings → IsAscii f
  found-IsAscii f [] h = absurd (omega (arith, h))
  found-IsAscii f (finding ∷ findings) h = elim (Bool-cases (has_fingerprint json f finding)) [
    | inl here ↦ has_fingerprint-IsAscii f finding here
    | inr other ↦ found-IsAscii f findings (ground (arith, h, other))
  ]

  -- An attempt, and the findings of its crashpack.
  pub record Recorded : Type 0 where
    pub attempt : RepeatAttemptSummary
    pub findings : List V

  abbrev pub has : Text → Recorded → Bool
  has f run = any (has_fingerprint json f) run.findings

  -- The findings with a fingerprint, over all attempts.
  abbrev pub findings_with : Text → List Recorded → ℕ
  findings_with f runs = sum_of (λ run. count (has_fingerprint json f) run.findings) runs

  replicate-choose :
      (b : Bool) (run : Recorded)
      → replicate (if b then 1 else 0) run.attempt.attempt
        ≡ map (λ (r : Recorded). r.attempt.attempt) (if b then run ∷ [] else [])
  replicate-choose true run = refl
  replicate-choose false run = refl

  group_findings :
      (f : Text) (findings : List V) (g : IssueGroup)
      → IsGroupOf json g.fingerprint (indices_of json g.fingerprint 0 findings) g
      → same f g.fingerprint ≡ true
      → g.finding_count ≡ count (has_fingerprint json f) findings
  group_findings f findings g is h =
      is.3
      ∙ length-indices_of g.fingerprint 0 findings
      ∙ ap (λ k. count (has_fingerprint json k) findings) (sym (same→eq f g.fingerprint h))

  module _ (exists : Text → Bool) (read_report : Text → Result IssueGroupReport) where
    -- The report of the groups of the findings is stored where the attempt says.
    pub record IsStored (run : Recorded) : Type 0 where
      pub path : Text
      pub marked : List V
      pub report : IssueGroupReport
      pub named : run.attempt.issue_groups ≡ some path
      pub there : exists path ≡ true
      pub read : read_report path ≡ ok report
      pub annotated : annotate_findings_with_issue_groups json run.findings ≡ some (marked, report)

    -- What inputs say of findings.
    pub record Agree (inputs : List RepeatIssueGroupInput) (runs : List Recorded) : Type 0 where
      pub ascii : All (λ i. IsAscii i.fingerprint) inputs
      pub counts : (f : Text) → findings_of (inputs_of f inputs) ≡ findings_with f runs
      pub numbers :
          (f : Text)
          → attempt_numbers (inputs_of f inputs)
            ≡ map (λ (run : Recorded). run.attempt.attempt) (keep (has f) runs)
      pub known : (f : Text) → any (λ i. same f i.fingerprint) inputs ≡ any (has f) runs

    unfoldable pub stored_inputs : (run : Recorded) → IsStored run → List RepeatIssueGroupInput
    stored_inputs run s = map (input_of run.attempt s.path) s.report.groups

    pub loaded :
        (run : Recorded) (s : IsStored run)
        → load_repeat_issue_group_inputs exists read_report run.attempt ≡ ok (stored_inputs run s)
    unfolding load_repeat_issue_group_inputs stored_inputs
    loaded run s = rw (s.named, s.there, s.read) refl

    pub stored-Agree : (run : Recorded) (s : IsStored run) → Agree (stored_inputs run s) (run ∷ [])
    unfolding stored_inputs
    stored-Agree run s =
        let groups = s.report.groups in
        let (marks, of, once) = annotate_groups json run.findings s.marked s.report s.annotated in
        let held = λ (f : Text). length-indices_of f 0 run.findings in
        let found = λ (f : Text). any-indices_of json f 0 run.findings in
        record {
          ascii = input_of-All IsAscii run.attempt s.path groups (
              All-map
                (λ g is.
                  found-IsAscii g.fingerprint run.findings
                    (ground (arith, is.5, held g.fingerprint)))
                groups of);
          counts = λ f.
              let n = count (has_fingerprint json f) run.findings in
              let each =
                All-map {Q = λ g. same f g.fingerprint ≡ true → g.finding_count ≡ n}
                  (λ g is h. group_findings f run.findings g is h) groups of in
              findings-inputs f run.attempt s.path groups n each
              ∙ ground (arith, once f, found f, held f);
          numbers = λ f.
              attempts-inputs f run.attempt s.path groups
              ∙ ap (λ n. replicate n run.attempt.attempt) (once f)
              ∙ replicate-choose (has f run) run;
          known = λ f. any-inputs f run.attempt s.path groups ∙ ground (arith, once f);
        }
