-- ===== src/Cli/Select/Flags.antt =====
-- Which attempts of a run are escalated under each policy, in the order of the attempts.
use recompile.Base.{
  ℕ, suc, ◌<◌, ◌≡◌, refl, ap, Bool, true, false, ◌&&◌, Option, List, [], ◌∷◌, map, Text, arith,
  is_some, if◌then◌else◌,
}
use recompile.Observation.Run.{ObservationRunSummary}
use recompile.Cli.Policy.{Policy, never, first_failure, sampled, always}
use recompile.Cli.Select.{
  RepeatEscalationState, fresh_state, choose, selections, has_candidate, has_failure_candidate,
}

-- Only the first mark stays.
abbrev pub first_only : List Bool → List Bool
first_only [] = []
first_only (true ∷ marks) = true ∷ map (λ _. false) marks
first_only (false ∷ marks) = false ∷ first_only marks

abbrev pub no_marks : List Bool → List Bool
no_marks marks = map (λ _. false) marks

abbrev pub escalated_flags : List (Option Text) → List Bool
escalated_flags reasons = map (λ r. is_some r) reasons

abbrev pub failing : Bool → List ObservationRunSummary → List Bool
failing deep summaries = map (λ s. has_failure_candidate s deep) summaries

module _ (deep : Bool) where
  never_flags :
      (state : RepeatEscalationState) (n : ℕ) (ss : List ObservationRunSummary)
      → escalated_flags (selections state never deep n ss) ≡ no_marks (failing deep ss)
  unfolding selections choose
  never_flags state n [] = refl
  never_flags state n (s ∷ ss) = ap (λ t. false ∷ t) (never_flags state (suc n) ss)

  always_flags :
      (state : RepeatEscalationState) (n : ℕ) (ss : List ObservationRunSummary)
      → escalated_flags (selections state always deep n ss) ≡ map (λ s. has_candidate s deep) ss
  unfolding selections choose
  always_flags state n [] = refl
  always_flags state n (s ∷ ss) = ground (arith, always_flags state (suc n) ss)

  spent_first :
      (state : RepeatEscalationState) (n : ℕ) (ss : List ObservationRunSummary)
      → state.first_failure_selected ≡ true
      → escalated_flags (selections state first_failure deep n ss) ≡ no_marks (failing deep ss)
  unfolding selections choose
  spent_first state n [] h = refl
  spent_first state n (s ∷ ss) h = ground (arith, spent_first state (suc n) ss h)

  open_first :
      (state : RepeatEscalationState) (n : ℕ) (ss : List ObservationRunSummary)
      → state.first_failure_selected ≡ false
      → escalated_flags (selections state first_failure deep n ss) ≡ first_only (failing deep ss)
  unfolding selections choose
  open_first state n [] h = refl
  open_first state n (s ∷ ss) h = ground (
    arith,
    open_first state (suc n) ss h,
    spent_first (record state { first_failure_selected = true }) (suc n) ss refl,
  )

  spent_sampled :
      (state : RepeatEscalationState) (n : ℕ) (ss : List ObservationRunSummary)
      → 1 < n
      → state.sampled_failure_selected ≡ true
      → escalated_flags (selections state sampled deep n ss) ≡ no_marks (failing deep ss)
  unfolding selections choose
  spent_sampled state n [] k h = refl
  spent_sampled state n (s ∷ ss) k h =
      ground (arith, spent_sampled state (suc n) ss (omega arith) h)

  open_sampled :
      (state : RepeatEscalationState) (n : ℕ) (ss : List ObservationRunSummary)
      → 1 < n
      → state.sampled_failure_selected ≡ false
      → escalated_flags (selections state sampled deep n ss) ≡ first_only (failing deep ss)
  unfolding selections choose
  open_sampled state n [] k h = refl
  open_sampled state n (s ∷ ss) k h = ground (
    arith,
    open_sampled state (suc n) ss (omega arith) h,
    spent_sampled (record state { sampled_failure_selected = true }) (suc n) ss (omega arith) refl,
  )

  -- The marks of the sampled policy.
  abbrev pub sampled_marks : List ObservationRunSummary → List Bool
  sampled_marks [] = []
  sampled_marks (s ∷ ss) =
      if deep && has_candidate s deep
      then true
        ∷ (if has_failure_candidate s deep
            then no_marks (failing deep ss)
            else first_only (failing deep ss))
      else first_only (failing deep (s ∷ ss))

  abbrev pub policy_marks : Policy → List ObservationRunSummary → List Bool
  policy_marks never ss = no_marks (failing deep ss)
  policy_marks always ss = map (λ s. has_candidate s deep) ss
  policy_marks first_failure ss = first_only (failing deep ss)
  policy_marks sampled ss = sampled_marks ss

  sampled_flags :
      (ss : List ObservationRunSummary)
      → escalated_flags (selections fresh_state sampled deep 1 ss) ≡ sampled_marks ss
  unfolding selections choose
  sampled_flags [] = refl
  sampled_flags (s ∷ ss) = ground (
    arith,
    open_sampled fresh_state 2 ss (omega arith) refl,
    spent_sampled (record fresh_state { sampled_failure_selected = true }) 2 ss (omega arith) refl,
    open_sampled (record fresh_state { sampled_first_attempt_selected = true }) 2 ss (omega arith)
        refl,
    spent_sampled
        (record fresh_state {
          sampled_first_attempt_selected = true;
          sampled_failure_selected = true;
        })
        2 ss (omega arith) refl,
  )

  -- Over a whole repeated run, from attempt 1 and the initial state, an attempt is escalated
  -- under `never`: not at all; under `always`: exactly if it has a target that can be escalated;
  -- under `first-failure`: exactly if it is the first with a failing target that can be
  -- escalated; under `sampled`: the first attempt, if the run is deep and the attempt has a
  -- target that can be escalated, and the first attempt with a failing one, once.
  pub policy_flags :
      (policy : Policy) (ss : List ObservationRunSummary)
      → escalated_flags (selections fresh_state policy deep 1 ss) ≡ policy_marks policy ss
  policy_flags never ss = never_flags fresh_state 1 ss
  policy_flags always ss = always_flags fresh_state 1 ss
  policy_flags first_failure ss = open_first fresh_state 1 ss refl
  policy_flags sampled ss = sampled_flags ss
