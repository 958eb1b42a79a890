-- ===== src/Observation/Repeat/Totals.antt =====
-- The totals over the attempts of a repeated run.
use recompile.Base.{
  ◌%◌, ℕ, sum_of, Text, add64, ◌<◌, ◌≡◌, false, List, [], ◌∷◌, map, arith, length, count, u64_mod,
  count-le-length,
}
use recompile.Base.Order.{text_ord, nat_ord, text_cmp}
use recompile.Base.Dict.{Dict, same, get}
use recompile.Base.Sets.{distinct, length-insert_all}
use recompile.Base.Tally.{counter, share, counter-tally}
use recompile.Observation.Status.{
  RepeatAttemptOutcome, outcome_str, pass, finding, failure, timed_out, inconclusive,
}
use recompile.Observation.Attempt.{RepeatAttemptSummary}
use recompile.Observation.Repeat.{
  repeat_outcome_totals, repeat_completed_attempts, repeat_finding_totals_by_class, add_attempts,
}
use recompile.Observation.Run.{add_classes}
use recompile.Observation.Run.Classes.{reported}
use recompile.Base.{Bool, true}

abbrev pub outcome_eq : RepeatAttemptOutcome → RepeatAttemptOutcome → Bool
outcome_eq pass pass = true
outcome_eq finding finding = true
outcome_eq failure failure = true
outcome_eq timed_out timed_out = true
outcome_eq inconclusive inconclusive = true
outcome_eq _ _ = false

same-outcome_str :
    (s t : RepeatAttemptOutcome) → same (outcome_str s) (outcome_str t) ≡ outcome_eq s t
unfolding outcome_str text_cmp
same-outcome_str s t = ground arith

share-count :
    (s : RepeatAttemptOutcome) (attempts : List RepeatAttemptSummary)
    → share (λ attempt. outcome_str attempt.outcome) (λ _. 1) (outcome_str s) attempts
      ≡ count (λ attempt. outcome_eq s attempt.outcome) attempts
share-count s [] = omega arith
share-count s (t ∷ ts) = ground (arith, same-outcome_str s t.outcome, share-count s ts)

-- The entry of `outcome_totals` at the name of an outcome is the number of attempts with that
-- outcome (an absent entry reads as 0), for fewer than 2^64 attempts.
pub outcome_totals_count :
    (attempts : List RepeatAttemptSummary) (s : RepeatAttemptOutcome)
    → length attempts < u64_mod
    → counter (outcome_str s) (repeat_outcome_totals attempts)
      ≡ count (λ attempt. outcome_eq s attempt.outcome) attempts
unfolding repeat_outcome_totals get
outcome_totals_count attempts s h = omega (
  arith,
  counter-tally (λ attempt. outcome_str attempt.outcome) (λ _. 1) (outcome_str s) [] attempts
      (omega arith),
  share-count s attempts,
  count-le-length (λ attempt. outcome_eq s attempt.outcome) attempts,
)

-- `completed_attempts` is the number of entries whose attempt number differs from all earlier ones.
pub completed_attempts_distinct :
    (attempts : List RepeatAttemptSummary)
    → repeat_completed_attempts attempts ≡ distinct (λ _. false) (map (λ a. a.attempt) attempts)
unfolding repeat_completed_attempts get
completed_attempts_distinct attempts = omega (
  arith,
  length-insert_all (map (λ (a : RepeatAttemptSummary). a.attempt) attempts) [] (λ _. false)
      (λ j. ground arith),
)

add_attempts-reported :
    (class : Text) (m : Dict Text ℕ) (rest : List RepeatAttemptSummary)
    → counter class m < u64_mod
    → counter class (add_attempts m rest)
      ≡ add64 (counter class m) (sum_of (λ a. reported class a.findings_by_class) rest)
unfolding add_attempts add_classes
add_attempts-reported class m [] h = omega arith
add_attempts-reported class m (a ∷ rest) h =
    let one = counter-tally (λ (e : Text × ℕ). e.0) (λ e. e.1) class m a.findings_by_class h in
    omega (
      arith,
      one,
      add_attempts-reported class (add_classes m a.findings_by_class) rest (omega (arith, one)),
    )

-- The entry of the repeat summary's `finding_totals_by_class` at a class is the sum of what the
-- attempts report of that class, modulo 2^64 (an absent entry reads as 0).
pub repeat_finding_totals_sum :
    (class : Text) (attempts : List RepeatAttemptSummary)
    → counter class (repeat_finding_totals_by_class attempts)
      ≡ sum_of (λ a. reported class a.findings_by_class) attempts % u64_mod
unfolding repeat_finding_totals_by_class get
repeat_finding_totals_sum class attempts =
    omega (arith, add_attempts-reported class [] attempts (omega arith))
