-- ===== src/Cli/Repeat/Steps.antt =====
-- What a completed repeated run has recorded.
use recompile.Base.{
  ℕ, zero, suc, ◌+◌, ◌≤◌, ◌≡◌, refl, ap, ◌∙◌, sym, Bool, false, ◌||◌, ◌++◌, Option, none, some,
  List, [], ◌∷◌, map, Text, codes, length, span, map-append, length-map, append_assoc, append-nil,
  length-append, arith, if◌then◌else◌,
}
use recompile.Base.Sets.{Set, distinct}
use recompile.Base.Order.{nat_ord}
use recompile.Base.Dict.{same}
use recompile.Observation.Target.{ObservationTargetSummary}
use recompile.Observation.Run.{ObservationRunSummary, new_run}
use recompile.Observation.Attempt.{RepeatAttemptSummary, from_target}
use recompile.Observation.Repeat.{RepeatRunSummary, new_repeat, repeat_completed_attempts}
use recompile.Observation.Repeat.Totals.{completed_attempts_distinct}
use recompile.Cli.Policy.{ok, repeat_reason_selects_target}
use recompile.Cli.Ensures.{Ensures, after, after_known, branch, ensured, weaken}
use recompile.Escalate.Result.{is_empty}
use recompile.Cli.Effects.{Effects, World, ObserveRequest}
use recompile.Cli.Escalation.{apply_observe_escalation_to_target}
use recompile.Base.Paths.{path_join}
use recompile.Cli.Select.{select_attempt}
use recompile.Cli.Observe.{run_observe_once, repeat_attempt_dir, repeat_target_name}
use recompile.Cli.Repeat.{
  Progress, Outcome, escalate_targets, escalate_attempt, absorb, attempt_step, attempts, start,
  summarize_repeat, run_observe_repeated,
}

abbrev pub OneTarget : ObservationRunSummary → Type 0
OneTarget s = length s.targets ≡ 1

abbrev pub Targets : ℕ → List ObservationTargetSummary × Set Text → Type 0
Targets n (ts, names) = length ts ≡ n

abbrev numbers : Progress → List ℕ
numbers p = map (λ (a : RepeatAttemptSummary). a.attempt) p.repeat_attempts

abbrev Adds : ℕ → Progress → Progress → Type 0
Adds n p p' =
    (numbers p' ≡ numbers p ++ n ∷ [])
    × (length p'.aggregate_targets ≡ suc (length p.aggregate_targets))

abbrev Absorbs : ℕ → Progress → Progress → Type 0
Absorbs n p p' = (numbers p' ≡ numbers p ++ n ∷ []) × (p'.aggregate_targets ≡ p.aggregate_targets)

module _ {E : Type 0} (eff : Effects E) (request : ObserveRequest) where
  pub once-single : (r : ObserveRequest) → Ensures OneTarget (run_observe_once eff r)
  unfolding run_observe_once new_run Ensures
  once-single r = ground arith

  escalate_targets-length :
      (reason : Text) (ts : List ObservationTargetSummary) (names : Set Text)
      → Ensures (Targets (length ts)) (escalate_targets eff request reason ts names)
  unfolding escalate_targets Ensures
  escalate_targets-length reason [] names = refl
  escalate_targets-length reason (t ∷ ts) names =
      branch (Targets (suc (length ts))) (repeat_reason_selects_target reason t request.deep) _ _
        (after _ (apply_observe_escalation_to_target eff t request t.artifacts.crashpack) _ (λ r.
          after_known _ (Targets (length ts)) (escalate_targets eff request reason ts _) _
            (escalate_targets-length reason ts _) (λ _ h. ap suc h)))
        (after_known _ (Targets (length ts)) (escalate_targets eff request reason ts names) _
          (escalate_targets-length reason ts names) (λ _ h. ap suc h))

  pub escalate_attempt-length :
      (reason : Option Text) (summary : ObservationRunSummary) (dir : Text)
      → Ensures (Targets (length summary.targets)) (escalate_attempt eff request reason summary dir)
  unfolding escalate_attempt Ensures
  escalate_attempt-length none summary dir = refl
  escalate_attempt-length (some reason) summary dir =
      after_known _ (Targets (length summary.targets))
        (escalate_targets eff request reason summary.targets []) _
        (escalate_targets-length reason summary.targets [])
        (λ r h.
          after _
            (if is_empty r.1
              then ok tt
              else eff.write_summary dir (record summary { targets = r.0 }))
            _ (λ _. h))

  absorb-adds :
      (n : ℕ) (dir : Text) (reason : Option Text) (names : Set Text)
      (ts : List ObservationTargetSummary) (p : Progress)
      → length ts ≡ 1
      → Ensures (Absorbs n p) (absorb eff request n dir reason names ts p)
  unfolding absorb Ensures from_target
  absorb-adds n dir reason names [] p h = absurd (omega (arith, h))
  absorb-adds n dir reason names (t ∷ []) p h =
      after _
        (eff.issue_group_inputs (
          from_target n (repeat_target_name n t.name) dir (path_join dir (codes "run-summary.json"))
            t))
        _ (λ r. (map-append (λ (a : RepeatAttemptSummary). a.attempt) p.repeat_attempts _, refl))
  absorb-adds n dir reason names (t ∷ u ∷ ts) p h = absurd (omega (arith, h))

  attempt_step-Adds : (n : ℕ) (p : Progress) → Ensures (Adds n p) (attempt_step eff request n p)
  unfolding attempt_step Ensures
  attempt_step-Adds n p =
      let dir = repeat_attempt_dir request.output_root n in
      let r = record request { output_root = dir; escalation_enabled = false } in
      after_known _ OneTarget (run_observe_once eff r) _ (once-single r) (λ summary one.
        let selected =
          select_attempt p.state request.repeat_escalation_policy n summary request.deep in
        after_known _ (Targets (length summary.targets))
          (escalate_attempt eff request selected.1 summary dir) _
          (escalate_attempt-length selected.1 summary dir)
          (λ result same.
            after_known _ (Absorbs n p)
              (absorb eff request n dir selected.1 result.1 result.0
                (record p { state = selected.0 }))
              _
              (absorb-adds n dir selected.1 result.1 result.0 (record p { state = selected.0 })
                (same ∙ one))
              (λ absorbed adds. (
                adds.0,
                omega (
                  arith,
                  same,
                  one,
                  length-append p.aggregate_targets (
                      map
                        (λ (t : ObservationTargetSummary). record t {
                          name = repeat_target_name n t.name;
                        })
                        result.0),
                  length-map
                      (λ (t : ObservationTargetSummary). record t {
                        name = repeat_target_name n t.name;
                      })
                      result.0,
                ),
              ))))

abbrev AddsAll : ℕ → ℕ → Progress → Progress → Type 0
AddsAll k n p p' =
    (numbers p' ≡ numbers p ++ span k n)
    × (length p'.aggregate_targets ≡ length p.aggregate_targets + k)

distinct-span :
    (k n : ℕ) (seen : ℕ → Bool) → ((j : ℕ) → n ≤ j → seen j ≡ false) → distinct seen (span k n) ≡ k
distinct-span zero n seen h = refl
distinct-span (suc k) n seen h =
    let fresh = h n (omega arith) in
    let rest =
      distinct-span k (suc n) (λ j. same j n || seen j)
        (λ j le. let old = h j (omega (arith, le)) in ground (arith, old, le)) in
    ground (arith, fresh, rest)

-- One attempt under each number, all of them counted.
abbrev pub Complete : ℕ → Outcome → Type 0
Complete repeat o =
    (map (λ (a : RepeatAttemptSummary). a.attempt) o.repeat_summary.attempts ≡ span repeat 1)
    × (o.repeat_summary.requested_attempts ≡ repeat)
    × (o.repeat_summary.completed_attempts ≡ repeat)
    × (o.run_summary.target_count ≡ repeat)

module _ {E : Type 0} (world : World E) (request : ObserveRequest) where
  attempts-adds : (k n : ℕ) (p : Progress) → Ensures (AddsAll k n p) (attempts world request k n p)
  unfolding attempts Ensures
  attempts-adds zero n p = (sym (append-nil (numbers p)), omega arith)
  attempts-adds (suc k) n p =
      after_known _ (Adds n p) (attempt_step (world.during n) request n p) _
        (attempt_step-Adds (world.during n) request n p)
        (λ p' (here, more).
          weaken _ (AddsAll k (suc n) p') (attempts world request k (suc n) p')
            (attempts-adds k (suc n) p')
            (λ p'' (later, total). (
              later
                  ∙ ap (λ l. l ++ span k (suc n)) here
                  ∙ append_assoc (numbers p) (n ∷ []) (span k (suc n)),
              omega (arith, total, more),
            )))

  abbrev Reports : ℕ → Progress → RepeatRunSummary → Type 0
  Reports repeat p s =
      (map (λ (a : RepeatAttemptSummary). a.attempt) s.attempts ≡ numbers p)
      × (s.requested_attempts ≡ repeat)
      × (s.completed_attempts ≡ repeat_completed_attempts p.repeat_attempts)

  summarize_repeat-Reports :
      (repeat : ℕ) (p : Progress)
      → Ensures (Reports repeat p) (summarize_repeat world request repeat p)
  unfolding summarize_repeat Ensures new_repeat
  summarize_repeat-Reports repeat p = ground arith

  repeated_run-Ensures :
      (repeat : ℕ) → Ensures (Complete repeat) (run_observe_repeated world request repeat)
  unfolding run_observe_repeated Ensures new_run
  repeated_run-Ensures repeat =
      let root = request.output_root in
      let p0 = start world request in
      after _ (world.clear_attempts (path_join root (codes "attempts"))) _ (λ _.
        after_known _ (AddsAll repeat 1 p0) (attempts world request repeat 1 p0) _
          (attempts-adds repeat 1 p0)
          (λ p (nums, total).
            after_known _ (Reports repeat p) (summarize_repeat world request repeat p) _
              (summarize_repeat-Reports repeat p)
              (λ s (same_nums, requested, completed). after _ (world.write_repeat root s) _ (λ _.
                after _ (world.write_run root (new_run root p.aggregate_targets p.next_commands)) _
                  (λ _. (
                    same_nums ∙ nums,
                    requested,
                    completed
                        ∙ completed_attempts_distinct p.repeat_attempts
                        ∙ ap (λ l. distinct (λ _. false) l) nums
                        ∙ distinct-span repeat 1 (λ _. false) (λ j le. refl),
                    omega (arith, total),
                  ))))))

  -- A repeated run that completes has recorded exactly one attempt under each number from 1 to
  -- the requested one, in order; it counts as many completed attempts and as many targets.
  pub repeated_run-Complete :
      (repeat : ℕ) (outcome : Outcome)
      → run_observe_repeated world request repeat ≡ ok outcome
      → Complete repeat outcome
  repeated_run-Complete repeat outcome h =
      ensured (Complete repeat) (run_observe_repeated world request repeat) outcome
        (repeated_run-Ensures repeat) h
