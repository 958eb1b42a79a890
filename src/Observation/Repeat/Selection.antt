-- ===== src/Observation/Repeat/Selection.antt =====
-- Which attempts a repeated run singles out.
use recompile.Base.{
  ℕ, ◌≡◌, ◌⊎◌, refl, Bool, true, false, Option, none, some, List, [], ◌∷◌, Text, codes, arith, find,
  all, All, not, ltb, ◌==◌, opt_map, or_else, inl, inr,
}
use recompile.Base.Search.{IsFirst, Finds, missed, hit, find-Finds, find-congr}
use recompile.Observation.Status.{
  TargetStatus, findings, failed, timeout, skipped, RepeatAttemptOutcome, from_status,
  is_failure_like,
}
use recompile.Observation.Attempt.{
  RepeatAttemptSummary, RepeatAttemptSelection, select, from_target,
}
use recompile.Observation.Repeat.{first_failure, best_evidence_attempt, is_timeout, is_failure}

-- The outcome of an attempt is that of its status, as `from_target` makes it.
abbrev pub IsConsistent : RepeatAttemptSummary → Type 0
IsConsistent a = a.outcome ≡ from_status a.status

-- A target that ended neither clean nor for want of a tool.
abbrev pub goes_wrong : TargetStatus → Bool
goes_wrong findings = true
goes_wrong failed = true
goes_wrong timeout = true
goes_wrong skipped = true
goes_wrong _ = false

abbrev pub ran_out : TargetStatus → Bool
ran_out timeout = true
ran_out _ = false

abbrev pub broke : TargetStatus → Bool
broke failed = true
broke skipped = true
broke _ = false

abbrev pub has_findings : RepeatAttemptSummary → Bool
has_findings a = not (a.findings_count == 0)

-- The selection is made from the first attempt that passes the test, if there is one.
abbrev pub Selects :
    Text
    → (RepeatAttemptSummary → Bool)
    → List RepeatAttemptSummary
    → Option RepeatAttemptSelection
    → Type 0
Selects reason p attempts r =
    ((all (λ a. not (p a)) attempts ≡ true) × (r ≡ none))
    ⊎ ((a : RepeatAttemptSummary) × IsFirst p attempts a × (r ≡ some (select a reason)))

Finds-Selects :
    (reason : Text) (p : RepeatAttemptSummary → Bool) (xs : List RepeatAttemptSummary)
    {r : Option RepeatAttemptSummary}
    → Finds p xs r
    → Selects reason p xs (opt_map (λ a. select a reason) r)
Finds-Selects reason p xs (missed h) = inl (h, refl)
Finds-Selects reason p xs (hit a f) = inr (a, f, refl)

module _ (p : RepeatAttemptOutcome → Bool) (q : TargetStatus → Bool)
    (h : (s : TargetStatus) → p (from_status s) ≡ q s) where
  tests_agree :
      (xs : List RepeatAttemptSummary)
      → All IsConsistent xs
      → All (λ a. p a.outcome ≡ q a.status) xs
  tests_agree [] c = tt
  tests_agree (x ∷ xs) c = (rw c.0 (h x.status), tests_agree xs c.1)

  pub find_by_status :
      (xs : List RepeatAttemptSummary)
      → All IsConsistent xs
      → Finds (λ a. q a.status) xs (find (λ a. p a.outcome) xs)
  find_by_status xs c =
      rw (find-congr (λ a. p a.outcome) (λ a. q a.status) xs (tests_agree xs c))
        (find-Finds (λ a. q a.status) xs)

failure_like-goes_wrong : (s : TargetStatus) → is_failure_like (from_status s) ≡ goes_wrong s
unfolding is_failure_like from_status
failure_like-goes_wrong s = ground arith

timeout-ran_out : (s : TargetStatus) → is_timeout (from_status s) ≡ ran_out s
unfolding is_timeout from_status
timeout-ran_out s = ground arith

failure-broke : (s : TargetStatus) → is_failure (from_status s) ≡ broke s
unfolding is_failure from_status
failure-broke s = ground arith

-- For attempts whose outcome is that of their status, `first_failure` is made from the first
-- attempt with status findings, failed, timeout or skipped, under the reason `first_non_pass`, and
-- is `none` exactly when there is no such attempt. Attempts for which a tool was unavailable or not
-- applicable, whose outcome is inconclusive, are passed over like clean ones.
pub first_failure-Selects :
    (attempts : List RepeatAttemptSummary)
    → All IsConsistent attempts
    → Selects (codes "first_non_pass") (λ a. goes_wrong a.status) attempts (first_failure attempts)
unfolding first_failure
first_failure-Selects attempts c =
    Finds-Selects (codes "first_non_pass") (λ a. goes_wrong a.status) attempts
      (find_by_status is_failure_like goes_wrong failure_like-goes_wrong attempts c)

-- The three grades of evidence, the best first.
pub data BestEvidence (xs : List RepeatAttemptSummary) : Option RepeatAttemptSummary → Type 0 where
  by_findings : (a : RepeatAttemptSummary) → IsFirst has_findings xs a → BestEvidence xs (some a)
  by_timeout :
      (a : RepeatAttemptSummary)
      → all (λ x. not (has_findings x)) xs ≡ true
      → IsFirst (λ x. ran_out x.status) xs a
      → BestEvidence xs (some a)
  by_failure :
      (a : RepeatAttemptSummary)
      → all (λ x. not (has_findings x)) xs ≡ true
      → all (λ x. not (ran_out x.status)) xs ≡ true
      → IsFirst (λ x. broke x.status) xs a
      → BestEvidence xs (some a)
  no_evidence :
      all (λ x. not (has_findings x)) xs ≡ true
      → all (λ x. not (ran_out x.status)) xs ≡ true
      → all (λ x. not (broke x.status)) xs ≡ true
      → BestEvidence xs none

rank :
    (xs : List RepeatAttemptSummary) {r s t : Option RepeatAttemptSummary}
    → Finds has_findings xs r
    → Finds (λ x. ran_out x.status) xs s
    → Finds (λ x. broke x.status) xs t
    → BestEvidence xs (or_else (or_else r s) t)
rank xs (hit a f) g k = by_findings a f
rank xs (missed f) (hit a g) k = by_timeout a f g
rank xs (missed f) (missed g) (hit a k) = by_failure a f g k
rank xs (missed f) (missed g) (missed k) = no_evidence f g k

counts_agree :
    (xs : List RepeatAttemptSummary) → All (λ a. ltb 0 a.findings_count ≡ has_findings a) xs
counts_agree [] = tt
counts_agree (x ∷ xs) = (ground arith, counts_agree xs)

found_by_count :
    (xs : List RepeatAttemptSummary) → Finds has_findings xs (find (λ a. ltb 0 a.findings_count) xs)
found_by_count xs =
    rw (find-congr (λ a. ltb 0 a.findings_count) has_findings xs (counts_agree xs))
      (find-Finds has_findings xs)

-- For attempts whose outcome is that of their status, `best_evidence_attempt` is made, under the
-- reason `best_available_evidence`, from the first attempt with findings; without one, from the
-- first that timed out; without one, from the first that failed or was skipped; else it is `none`.
pub best_evidence_ranks :
    (attempts : List RepeatAttemptSummary)
    → All IsConsistent attempts
    → (r : Option RepeatAttemptSummary) × BestEvidence attempts r
      × (best_evidence_attempt attempts
          ≡ opt_map (λ a. select a (codes "best_available_evidence")) r)
unfolding best_evidence_attempt
best_evidence_ranks attempts c = (
  _,
  rank attempts (found_by_count attempts)
      (find_by_status is_timeout ran_out timeout-ran_out attempts c)
      (find_by_status is_failure broke failure-broke attempts c),
  refl,
)

-- `from_target` makes consistent attempts.
pub from_target-IsConsistent :
    (n : ℕ) (name root summary : Text) (target : _)
    → IsConsistent (from_target n name root summary target)
unfolding from_target
from_target-IsConsistent n name root summary target = refl
