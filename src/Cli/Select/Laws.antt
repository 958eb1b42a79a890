-- ===== src/Cli/Select/Laws.antt =====
-- What a sequence of attempts has escalated under each policy.
use recompile.Base.{ℕ, ◌≡◌, Bool, true, ◌&&◌, some, Text, arith, any, inl, inr, any-congr, ◌⊎◌, ◌∙◌}
use recompile.Observation.Target.{ObservationTargetSummary}
use recompile.Observation.Run.{ObservationRunSummary}
use recompile.Cli.Policy.{
  Policy, never, first_failure, sampled, always, repeat_target_can_run_escalation,
  repeat_target_is_failure_like, repeat_reason_selects_target, first_escalatable_failure,
  sampled_first_failure, sampled_first_attempt, policy_always,
}
use recompile.Cli.Select.{
  RepeatEscalationState, choose, select_attempt, has_candidate, has_failure_candidate,
}

selects_failure :
    (target : ObservationTargetSummary) (deep : Bool)
    → (repeat_reason_selects_target first_escalatable_failure target deep
        ≡ (repeat_target_can_run_escalation target deep && repeat_target_is_failure_like target))
      × (repeat_reason_selects_target sampled_first_failure target deep
          ≡ (repeat_target_can_run_escalation target deep && repeat_target_is_failure_like target))
unfolding repeat_reason_selects_target
selects_failure target deep = ground arith

selects_any :
    (target : ObservationTargetSummary) (deep : Bool)
    → (repeat_reason_selects_target sampled_first_attempt target deep
        ≡ repeat_target_can_run_escalation target deep)
      × (repeat_reason_selects_target policy_always target deep
          ≡ repeat_target_can_run_escalation target deep)
unfolding repeat_reason_selects_target
selects_any target deep = ground arith

-- A reason that stands for one of the two tests, which passed.
abbrev Because : Bool → Bool → Text → Type 0
Because candidate failing reason =
    ((failing ≡ true) × ((reason ≡ first_escalatable_failure) ⊎ (reason ≡ sampled_first_failure)))
    ⊎ ((candidate ≡ true) × ((reason ≡ sampled_first_attempt) ⊎ (reason ≡ policy_always)))

choose-Because :
    (state : RepeatEscalationState) (policy : Policy) (attempt : ℕ) (candidate failing deep : Bool)
    (reason : Text)
    → (choose state policy attempt candidate failing deep).1 ≡ some reason
    → Because candidate failing reason
unfolding choose
choose-Because state never attempt candidate failing deep reason h = cc
choose-Because state always attempt candidate failing deep reason h = ground arith
choose-Because state first_failure attempt candidate failing deep reason h = ground arith
choose-Because state sampled attempt candidate failing deep reason h = ground arith

-- A reason is given only for an attempt in which it selects a target.
pub select_attempt_selects :
    (state : RepeatEscalationState) (policy : Policy) (attempt : ℕ)
    (summary : ObservationRunSummary) (deep : Bool) (reason : Text)
    → (select_attempt state policy attempt summary deep).1 ≡ some reason
    → any (λ target. repeat_reason_selects_target reason target deep) summary.targets ≡ true
unfolding select_attempt has_candidate has_failure_candidate
select_attempt_selects state policy attempt summary deep reason h =
    elim (choose-Because state policy attempt (has_candidate summary deep)
      (has_failure_candidate summary deep) deep reason h) [
        | inl (failing, inl e) ↦
            rw e (any-congr _ _ summary.targets (λ t. (selects_failure t deep).0) ∙ failing)
        | inl (failing, inr e) ↦
            rw e (any-congr _ _ summary.targets (λ t. (selects_failure t deep).1) ∙ failing)
        | inr (candidate, inl e) ↦
            rw e (any-congr _ _ summary.targets (λ t. (selects_any t deep).0) ∙ candidate)
        | inr (candidate, inr e) ↦
            rw e (any-congr _ _ summary.targets (λ t. (selects_any t deep).1) ∙ candidate)
      ]
