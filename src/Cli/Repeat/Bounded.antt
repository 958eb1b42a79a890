-- ===== src/Cli/Repeat/Bounded.antt =====
-- How many attempts a repeated run escalates at most.
use recompile.Base.{
  ℕ, zero, suc, ◌+◌, ◌≤◌, ◌≡◌, refl, ap, ◌∙◌, false, Option, none, some, List, [], ◌∷◌, Text, codes,
  length, length-append, arith,
}
use recompile.Base.Sets.{Set}
use recompile.Base.Paths.{path_join}
use recompile.Observation.Target.{ObservationTargetSummary}
use recompile.Observation.Run.{new_run}
use recompile.Observation.Attempt.{RepeatAttemptSummary, from_target, new_escalation}
use recompile.Observation.Repeat.{RepeatRunSummary, new_repeat}
use recompile.Cli.Policy.{Policy, never, first_failure, sampled, always, ok}
use recompile.Cli.Select.{select_attempt, fresh_state}
use recompile.Cli.Select.Budget.{left, spent, select_attempt-left}
use recompile.Cli.Ensures.{Ensures, after, after_known, ensured, weaken}
use recompile.Cli.Effects.{Effects, World, ObserveRequest}
use recompile.Cli.Observe.{run_observe_once, repeat_attempt_dir, repeat_target_name}
use recompile.Cli.Repeat.{
  Progress, Outcome, escalation_entry, escalate_attempt, absorb, attempt_step, attempts, start,
  summarize_repeat, run_observe_repeated,
}
use recompile.Cli.Repeat.Steps.{OneTarget, Targets, once-single, escalate_attempt-length}

abbrev attempt_of : ℕ → Text → ObservationTargetSummary → RepeatAttemptSummary
attempt_of n dir t =
    from_target n (repeat_target_name n t.name) dir (path_join dir (codes "run-summary.json")) t

entry-spent :
    (reason : Option Text) (names : Set Text) (name : Text) (a : RepeatAttemptSummary)
    → length (escalation_entry reason names name a) ≤ spent reason
unfolding escalation_entry
entry-spent none names name a = omega arith
entry-spent (some reason) names name a = ground arith

module _ {E : Type 0} (eff : Effects E) (request : ObserveRequest) where
  abbrev Spends : Option Text → Progress → Progress → Type 0
  Spends reason p p' =
      (length p'.escalations ≤ length p.escalations + spent reason) × (p'.state ≡ p.state)

  absorb-Spends :
      (n : ℕ) (dir : Text) (reason : Option Text) (names : Set Text)
      (ts : List ObservationTargetSummary) (p : Progress)
      → length ts ≡ 1
      → Ensures (Spends reason p) (absorb eff request n dir reason names ts p)
  unfolding absorb Ensures
  absorb-Spends n dir reason names [] p h = absurd (omega (arith, h))
  absorb-Spends n dir reason names (t ∷ []) p h =
      after _ (eff.issue_group_inputs (attempt_of n dir t)) _ (λ r. (
        omega (
          arith,
          length-append p.escalations (escalation_entry reason names t.name (attempt_of n dir t)),
          entry-spent reason names t.name (attempt_of n dir t),
        ),
        refl,
      ))
  absorb-Spends n dir reason names (t ∷ u ∷ ts) p h = absurd (omega (arith, h))

  abbrev Draws : ℕ → Progress → Progress → Type 0
  Draws k p p' =
      length p'.escalations + left request.repeat_escalation_policy p'.state k
      ≤ length p.escalations + left request.repeat_escalation_policy p.state (suc k)

  attempt_step-Draws : (k n : ℕ) (p : Progress) → Ensures (Draws k p) (attempt_step eff request n p)
  unfolding attempt_step Ensures
  attempt_step-Draws k n p =
      let dir = repeat_attempt_dir request.output_root n in
      let r = record request { output_root = dir; escalation_enabled = false } in
      let policy = request.repeat_escalation_policy in
      after_known _ OneTarget (run_observe_once eff r) _ (once-single eff request r) (λ summary one.
        let selected = select_attempt p.state policy n summary request.deep in
        after_known _ (Targets (length summary.targets))
          (escalate_attempt eff request selected.1 summary dir) _
          (escalate_attempt-length eff request selected.1 summary dir)
          (λ result same.
            after_known _ (Spends selected.1 (record p { state = selected.0 }))
              (absorb eff request n dir selected.1 result.1 result.0
                (record p { state = selected.0 }))
              _
              (absorb-Spends n dir selected.1 result.1 result.0 (record p { state = selected.0 })
                (same ∙ one))
              (λ absorbed (spends, kept). omega (
                arith,
                spends,
                ap (λ s. left policy s k) kept,
                select_attempt-left p.state policy n summary request.deep k,
              ))))

abbrev escalation_limit : Policy → ℕ → ℕ
escalation_limit never repeat = 0
escalation_limit first_failure repeat = 1
escalation_limit sampled repeat = 2
escalation_limit always repeat = repeat

module _ {E : Type 0} (world : World E) (request : ObserveRequest) where
  attempts-Draws :
      (k n : ℕ) (p : Progress)
      → Ensures
          (λ p'.
            length p'.escalations
            ≤ length p.escalations + left request.repeat_escalation_policy p.state k)
          (attempts world request k n p)
  unfolding attempts Ensures
  attempts-Draws zero n p = omega arith
  attempts-Draws (suc k) n p =
      after_known _ (Draws (world.during n) request k p) (attempt_step (world.during n) request n p)
        _ (attempt_step-Draws (world.during n) request k n p)
        (λ p' here.
          weaken _ _ (attempts world request k (suc n) p') (attempts-Draws k (suc n) p')
            (λ p'' later. omega (arith, here, later)))

  left-fresh :
      (policy : Policy) (repeat : ℕ)
      → left policy fresh_state repeat ≡ escalation_limit policy repeat
  left-fresh never repeat = refl
  left-fresh first_failure repeat = refl
  left-fresh sampled repeat = refl
  left-fresh always repeat = refl

  abbrev Limited : ℕ → Outcome → Type 0
  Limited repeat o =
      length o.repeat_summary.escalation_policy.selected_attempts
      ≤ escalation_limit request.repeat_escalation_policy repeat

  abbrev Selected : Progress → RepeatRunSummary → Type 0
  Selected p s = s.escalation_policy.selected_attempts ≡ p.escalations

  summarize_repeat-Selected :
      (repeat : ℕ) (p : Progress) → Ensures (Selected p) (summarize_repeat world request repeat p)
  unfolding summarize_repeat Ensures new_repeat new_escalation
  summarize_repeat-Selected repeat p = ground arith

  repeated_run-Limited :
      (repeat : ℕ) → Ensures (Limited repeat) (run_observe_repeated world request repeat)
  unfolding run_observe_repeated Ensures
  repeated_run-Limited repeat =
      let root = request.output_root in
      let p0 = start world request in
      after _ (world.clear_attempts (path_join root (codes "attempts"))) _ (λ _.
        after_known _
          (λ p. length p.escalations ≤ 0 + left request.repeat_escalation_policy fresh_state repeat)
          (attempts world request repeat 1 p0) _ (attempts-Draws repeat 1 p0)
          (λ p drawn.
            after_known _ (Selected p) (summarize_repeat world request repeat p) _
              (summarize_repeat-Selected repeat p)
              (λ s selected. after _ (world.write_repeat root s) _ (λ _.
                after _ (world.write_run root (new_run root p.aggregate_targets p.next_commands)) _
                  (λ _. omega (
                    arith,
                    drawn,
                    ap (λ es. length es) selected,
                    left-fresh request.repeat_escalation_policy repeat,
                  ))))))

  -- A repeated run that completes has escalated no attempt under `never`, at most one under
  -- `first-failure`, at most two under `sampled`, and no more than the requested number of
  -- attempts under `always`.
  pub repeated_run_limited :
      (repeat : ℕ) (outcome : Outcome)
      → run_observe_repeated world request repeat ≡ ok outcome
      → length outcome.repeat_summary.escalation_policy.selected_attempts
        ≤ escalation_limit request.repeat_escalation_policy repeat
  repeated_run_limited repeat outcome h =
      ensured (Limited repeat) (run_observe_repeated world request repeat) outcome
        (repeated_run-Limited repeat) h
