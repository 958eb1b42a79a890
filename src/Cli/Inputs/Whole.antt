-- ===== src/Cli/Inputs/Whole.antt =====
-- The issue groups of a repeated run against the findings of its attempts.
use recompile.Base.{
  ℕ, ◌+◌, ◌<◌, ◌≡◌, refl, sym, ap, ◌∙◌, ◌∷◌, [], ◌++◌, Bool, false, some, List, All, All-map, map,
  Text, IsAscii, arith, any, any-append, count, keep, u64_mod, Bool-cases, Option-cases, inl, inr,
  if◌then◌else◌, map-append,
}
use mathlib.Core.Path.{subst}
use recompile.Base.Order.{text_ord, nat_ord}
use recompile.Base.Dict.{same}
use recompile.Base.Sets.{distinct}
use recompile.Observation.Groups.{
  RepeatIssueGroupInput, RepeatIssueGroup, aggregate_repeat_issue_groups,
}
use recompile.Observation.Groups.Collect.{inputs_of, attempt_numbers, findings_of}
use recompile.Observation.Groups.Aggregate.{aggregate_groups}
use recompile.Observation.Groups.Total.{aggregate_total}
use recompile.Issues.Json.{Json}
use recompile.Issues.Annotate.{IssueGroupReport}
use recompile.Cli.Policy.{Result, ok, ◌>>=◌}
use recompile.Cli.Inputs.{load_repeat_issue_group_inputs}
use recompile.Cli.Inputs.Counted.{
  Recorded, has, findings_with, IsStored, Agree, stored_inputs, loaded, stored-Agree,
}

inputs_of-append :
    (f : Text) (xs ys : List RepeatIssueGroupInput)
    → inputs_of f (xs ++ ys) ≡ inputs_of f xs ++ inputs_of f ys
inputs_of-append f [] ys = refl
inputs_of-append f (x ∷ xs) ys = ground (arith, inputs_of-append f xs ys)

findings_of-append :
    (xs ys : List RepeatIssueGroupInput) → findings_of (xs ++ ys) ≡ findings_of xs + findings_of ys
findings_of-append [] ys = omega arith
findings_of-append (x ∷ xs) ys = omega (arith, findings_of-append xs ys)

All-append :
    (xs ys : List RepeatIssueGroupInput)
    → All (λ i. IsAscii i.fingerprint) xs
    → All (λ i. IsAscii i.fingerprint) ys
    → All (λ i. IsAscii i.fingerprint) (xs ++ ys)
All-append [] ys a b = b
All-append (x ∷ xs) ys a b = (a.0, All-append xs ys a.1 b)

module _ {V : Type 0} (json : Json V) where
  -- The attempts of runs whose findings have a fingerprint.
  abbrev pub attempts_with : Text → List (Recorded json) → List ℕ
  attempts_with f runs = map (λ (run : Recorded json). run.attempt.attempt) (keep (has json f) runs)

  attempts_with-step :
      (f : Text) (run : Recorded json) (runs : List (Recorded json))
      → attempts_with f (run ∷ []) ++ attempts_with f runs ≡ attempts_with f (run ∷ runs)
  attempts_with-step f run runs = elim (Bool-cases (has json f run)) [
    | inl here ↦ rw here refl
    | inr other ↦ rw other refl
  ]

  -- What a group of the repeated run says of the findings of the attempts.
  pub record Counts (runs : List (Recorded json)) (g : RepeatIssueGroup) : Type 0 where
    pub findings : g.occurrence_count ≡ findings_with json g.fingerprint runs
    pub attempts : g.attempt_count ≡ distinct (λ _. false) (attempts_with g.fingerprint runs)

module _ {V : Type 0} (json : Json V) (exists : Text → Bool)
    (read_report : Text → Result IssueGroupReport) where
  -- The inputs of attempts, one after the other, as the loop over the attempts collects them.
  unfoldable pub load_all : List (Recorded json) → Result (List RepeatIssueGroupInput)
  load_all [] = ok []
  load_all (run ∷ runs) =
      load_repeat_issue_group_inputs exists read_report run.attempt >>= λ inputs.
      load_all runs >>= λ later. ok (inputs ++ later)

  append-Agree :
      (run : Recorded json) (runs : List (Recorded json)) (xs ys : List RepeatIssueGroupInput)
      → Agree json exists read_report xs (run ∷ [])
      → Agree json exists read_report ys runs
      → Agree json exists read_report (xs ++ ys) (run ∷ runs)
  append-Agree run runs xs ys a b = record {
    ascii = All-append xs ys a.ascii b.ascii;
    counts = λ f.
        ap findings_of (inputs_of-append f xs ys)
        ∙ findings_of-append (inputs_of f xs) (inputs_of f ys)
        ∙ omega (arith, a.counts f, b.counts f);
    numbers = λ f.
        ap attempt_numbers (inputs_of-append f xs ys)
        ∙ map-append (λ (i : RepeatIssueGroupInput). i.occurrence.attempt) (inputs_of f xs)
            (inputs_of f ys)
        ∙ (λ i. a.numbers f i ++ b.numbers f i)
        ∙ attempts_with-step json f run runs;
    known =
        λ f. any-append (λ i. same f i.fingerprint) xs ys ∙ ground (arith, a.known f, b.known f);
  }

  -- The inputs of all attempts are read, and agree with the findings.
  runs_loaded :
      (runs : List (Recorded json))
      → All (IsStored json exists read_report) runs
      → (inputs : List RepeatIssueGroupInput) × (load_all runs ≡ ok inputs)
        × Agree json exists read_report inputs runs
  unfolding load_all
  runs_loaded [] h =
      ([], refl, record { ascii = tt; counts = λ f. refl; numbers = λ f. refl; known = λ f. refl })
  runs_loaded (run ∷ runs) h =
      let (later, e, agree) = runs_loaded runs h.1 in
      let mine = stored_inputs json exists read_report run h.0 in
      (
        mine ++ later,
        rw (load_all, loaded json exists read_report run h.0, e) refl,
        append-Agree run runs mine later (stored-Agree json exists read_report run h.0) agree,
      )

  -- Where every attempt of a repeated run has stored the report of the issue groups of its findings,
  -- the reports are read and the groups of the run computed without a panic. If no fingerprint has
  -- 2^64 findings or more, each group counts the findings with its fingerprint over all attempts, and
  -- the attempts that have one; each fingerprint of a finding has one group, any other text none.
  pub repeat_groups_count :
      (runs : List (Recorded json))
      → All (IsStored json exists read_report) runs
      → ((f : Text) → findings_with json f runs < u64_mod)
      → (inputs : List RepeatIssueGroupInput) × (groups : List RepeatIssueGroup) × (load_all runs
          ≡ ok inputs)
        × (aggregate_repeat_issue_groups inputs ≡ some groups)
        × All (Counts json runs) groups
        × ((f : Text)
            → count (λ g. same f g.fingerprint) groups ≡ (if any (has json f) runs then 1 else 0))
  repeat_groups_count runs stored small =
      let (inputs, read, agree) = runs_loaded runs stored in
      elim (Option-cases (aggregate_repeat_issue_groups inputs)) [
        | inl missing ↦ absurd (ground (arith, missing, aggregate_total inputs agree.ascii))
        | inr (groups, made) ↦
            let (of, once) = aggregate_groups inputs groups made in
            (
              inputs,
              groups,
              read,
              made,
              All-map {Q = Counts json runs}
                  (λ g is. record {
                    findings =
                        is.occurrence_count (
                          subst (λ n. n < u64_mod) (sym (agree.counts g.fingerprint))
                            (small g.fingerprint))
                        ∙ agree.counts g.fingerprint;
                    attempts =
                        is.attempt_count ∙ ap (distinct (λ _. false)) (agree.numbers g.fingerprint);
                  })
                  groups of,
              λ f. once f ∙ ap (λ (b : Bool). if b then 1 else 0) (agree.known f),
            )
      ]
