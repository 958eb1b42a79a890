-- ===== src/Cli/Select/Budget.antt =====
-- What a policy of escalation has left to give.
use recompile.Base.{ℕ, suc, ◌+◌, ◌≤◌, Bool, Option, Text, arith, if◌then◌else◌, is_some}
use recompile.Observation.Run.{ObservationRunSummary}
use recompile.Cli.Policy.{Policy, never, first_failure, sampled, always}
use recompile.Cli.Select.{
  RepeatEscalationState, choose, select_attempt, has_candidate, has_failure_candidate,
}

-- How many escalations a policy still has to give, with `k` attempts to come.
abbrev pub left : Policy → RepeatEscalationState → ℕ → ℕ
left never state k = 0
left first_failure state k = if state.first_failure_selected then 0 else 1
left sampled state k =
    (if state.sampled_first_attempt_selected then 0 else 1)
    + (if state.sampled_failure_selected then 0 else 1)
left always state k = k

abbrev pub spent : Option Text → ℕ
spent reason = if is_some reason then 1 else 0

choose-left :
    (state : RepeatEscalationState) (policy : Policy) (n : ℕ) (candidate failing deep : Bool)
    (k : ℕ)
    → spent (choose state policy n candidate failing deep).1
        + left policy (choose state policy n candidate failing deep).0 k
      ≤ left policy state (suc k)
unfolding choose
choose-left state never n candidate failing deep k = ground arith
choose-left state first_failure n candidate failing deep k = ground arith
choose-left state sampled n candidate failing deep k = ground arith
choose-left state always n candidate failing deep k = ground arith

pub select_attempt-left :
    (state : RepeatEscalationState) (policy : Policy) (n : ℕ) (summary : ObservationRunSummary)
    (deep : Bool) (k : ℕ)
    → spent (select_attempt state policy n summary deep).1
        + left policy (select_attempt state policy n summary deep).0 k
      ≤ left policy state (suc k)
unfolding select_attempt
select_attempt-left state policy n summary deep k =
    choose-left state policy n (has_candidate summary deep) (has_failure_candidate summary deep)
      deep k
