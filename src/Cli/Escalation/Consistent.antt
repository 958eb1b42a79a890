-- ===== src/Cli/Escalation/Consistent.antt =====
-- The results that the observer gathers for a target, when the runner starts the tools.
use recompile.Base.{
  ℕ, ◌≡◌, refl, ◌∷◌, [], ◌++◌, ◌&&◌, ◌||◌, not, Bool, true, false, Option, none, some, List, All,
  map, is_some, Text, codes, text_eq, ltb, arith, if◌then◌else◌,
}
use recompile.Observation.Status.{clean, findings, status_eq}
use recompile.Observation.Target.{ObservationTargetSummary, ObservationEscalationSummary}
use recompile.Escalate.Result.{EscalationResult, is_empty}
use recompile.Escalate.Config.{EscalationConfig}
use recompile.Escalate.Finding.{Finding}
use recompile.Escalate.Process.Consistent.{Consistent, with_report, without_report}
use recompile.Cli.Policy.{Result, ok, err, panicked, ◌>>=◌, had_observation_error}
use recompile.Cli.Timeouts.{EscalationTimeoutOverrides}
use recompile.Cli.Ensures.{Ensures, gives, after, after_known, branch}
use recompile.Cli.Fallback.{
  observation_escalation_summary, escalation_status, observe_escalation_failure,
  observe_escalation_skipped, fallback_target_status,
}
use recompile.Cli.Effects.{Effects, ObserveRequest, CrashpackFindingSnapshot}
use recompile.Cli.Escalation.{
  skip_reason, each, or_failure, check, scan, escalate_finding, first_results,
  run_observe_escalation, run_observe_binary_scans, with_snapshot, record_scans, fallback_target,
  run_observe_tool_only_fallback, needs_fallback, promoted, apply_observe_escalation_to_target,
}

-- What the summary of a result tells: the status is findings exactly if the result is confirmed,
-- which is exactly if it has classes; there is an error exactly if it is neither that nor clean.
pub record IsTold (s : ObservationEscalationSummary) : Type 0 where
  pub confirmed : s.confirmed ≡ not (is_empty s.findings_detected)
  pub status : status_eq s.status findings ≡ s.confirmed
  pub error : is_some s.error ≡ not (s.confirmed || status_eq s.status clean)

Consistent-IsTold :
    (r : EscalationResult) → Consistent r → IsTold (observation_escalation_summary r)
unfolding observation_escalation_summary escalation_status
Consistent-IsTold r (with_report ran status classes none_wrong report) = record {
  confirmed = classes;
  status = ground arith;
  error = ground arith;
}
Consistent-IsTold r (without_report ran status unconfirmed no_classes wrong no_report) = record {
  confirmed = ground arith;
  status = ground arith;
  error = ground arith;
}

failure-Consistent :
    (finding_id tool error : Text) (now : ℕ)
    → Consistent (observe_escalation_failure finding_id tool error now)
unfolding observe_escalation_failure
failure-Consistent finding_id tool error now = without_report refl refl refl refl refl refl

skipped-Consistent :
    (finding_id tool reason : Text) (now : ℕ)
    → Consistent (observe_escalation_skipped finding_id tool reason now)
unfolding observe_escalation_skipped
skipped-Consistent finding_id tool reason now = without_report refl refl refl refl refl refl

or_failure-Consistent :
    (finding_id tool : Text) (now : ℕ) (m : Result EscalationResult)
    → Ensures Consistent m
    → Ensures Consistent (or_failure finding_id tool now m)
unfolding or_failure Ensures
or_failure-Consistent finding_id tool now (ok r) h = h
or_failure-Consistent finding_id tool now (err e) h = failure-Consistent finding_id tool e now
or_failure-Consistent finding_id tool now panicked h = tt

each-All :
    {A : Type 0} (f : A → Result EscalationResult) (xs : List A)
    → ((x : A) → Ensures Consistent (f x))
    → Ensures (All Consistent) (each f xs)
unfolding each
each-All f [] h = gives (All Consistent) [] tt
each-All f (x ∷ xs) h =
    after_known (All Consistent) Consistent (f x) (λ r. each f xs >>= λ rs. ok (r ∷ rs)) (h x)
      (λ r c.
        after_known (All Consistent) (All Consistent) (each f xs) (λ rs. ok (r ∷ rs))
          (each-All f xs h) (λ rs cs. gives (All Consistent) (r ∷ rs) (c, cs)))

append-All :
    (xs ys : List EscalationResult)
    → All Consistent xs
    → All Consistent ys
    → All Consistent (xs ++ ys)
append-All [] ys a b = b
append-All (x ∷ xs) ys a b = (a.0, append-All xs ys a.1 b)

summaries-IsTold :
    (rs : List EscalationResult)
    → All Consistent rs
    → All IsTold (map observation_escalation_summary rs)
summaries-IsTold [] h = tt
summaries-IsTold (r ∷ rs) h = (Consistent-IsTold r h.0, summaries-IsTold rs h.1)

-- The summaries in a target.
abbrev pub AreTold : ObservationTargetSummary → Type 0
AreTold target = All IsTold target.escalation

abbrev pub FirstAreTold : ObservationTargetSummary × Bool → Type 0
FirstAreTold r = AreTold r.0

module _ {E : Type 0} (eff : Effects E)
    (sound : (c : EscalationConfig) (f : Finding E) → Ensures Consistent (eff.escalate c f))
    (sound_clean : (c : EscalationConfig) (tool : Text)
      → Ensures Consistent (eff.check_clean_binary c tool)) where
  check-Consistent :
      (c : EscalationConfig) (finding_id tool : Text)
      → Ensures Consistent (check eff c finding_id tool)
  unfolding check
  check-Consistent c finding_id tool =
      or_failure-Consistent finding_id tool eff.now (eff.check_clean_binary c tool)
        (sound_clean c tool)

  scan-Consistent :
      (c : EscalationConfig) (skip_valgrind : Bool) (tool : Text)
      → Ensures Consistent (scan eff c skip_valgrind tool)
  unfolding scan
  scan-Consistent c skip_valgrind tool =
      branch Consistent (skip_valgrind && text_eq tool (codes "valgrind")) _ _
        (gives Consistent _
          (skipped-Consistent (codes "tool-only-fallback") (codes "valgrind") skip_reason eff.now))
        (check-Consistent c (codes "tool-only-fallback") tool)

  scans-Consistent :
      (dir : Text) (tools : List Text) (timeouts : EscalationTimeoutOverrides)
      → Ensures (All Consistent) (run_observe_binary_scans eff dir tools timeouts)
  unfolding run_observe_binary_scans
  scans-Consistent dir tools timeouts =
      after (All Consistent) (eff.analysis dir) _
        (λ analysis. each-All (scan eff _ _) tools (scan-Consistent _ _))

  finding-Consistent :
      (c : EscalationConfig) (f : Finding E) → Ensures Consistent (escalate_finding eff c f)
  unfolding escalate_finding
  finding-Consistent c f = or_failure-Consistent f.id _ eff.now _ (sound c _)

  first-Consistent :
      (target : ObservationTargetSummary) (dir : Text) (c : EscalationConfig) (path : Text)
      → Ensures (All Consistent) (first_results eff target dir c path)
  unfolding first_results
  first-Consistent target dir c path =
      branch (All Consistent) (ltb 0 target.findings_count) _ _
        (after (All Consistent) (eff.findings _) _
          (λ found. each-All (escalate_finding eff c) found (finding-Consistent c)))
        (branch (All Consistent) (eff.sanitizer_runtime path) _ _
          (gives (All Consistent) (_ ∷ [])
            (skipped-Consistent (codes "clean-run") (codes "valgrind") skip_reason eff.now, tt))
          (after_known (All Consistent) Consistent _ (λ r. ok (r ∷ []))
            (check-Consistent c (codes "clean-run") (codes "valgrind"))
            (λ r h. gives (All Consistent) (r ∷ []) (h, tt))))

  escalation-Consistent :
      (target : ObservationTargetSummary) (deep : Bool) (timeouts : EscalationTimeoutOverrides)
      → Ensures (All Consistent) (run_observe_escalation eff target deep timeouts)
  unfolding run_observe_escalation
  escalation-Consistent target deep timeouts =
      branch (All Consistent) (not (ltb 0 target.findings_count) && not deep) _ _
        (gives (All Consistent) [] tt)
        (after (All Consistent) (eff.analysis _) _ (λ analysis.
          after_known (All Consistent) (All Consistent) _ _ (first-Consistent target _ _ _) (λ rs h.
            after_known (All Consistent) (All Consistent) _ (λ more. ok (rs ++ more))
              (each-All _ _ (check-Consistent _ (codes "clean-run")))
              (λ more k. gives (All Consistent) (rs ++ more) (append-All rs more h k)))))

  with_snapshot-AreTold :
      (target : ObservationTargetSummary) (snapshot : Option CrashpackFindingSnapshot)
      → AreTold target
      → AreTold (with_snapshot eff target snapshot)
  unfolding with_snapshot
  with_snapshot-AreTold target none h = h
  with_snapshot-AreTold target (some snapshot) h = h

  record_scans-AreTold :
      (target : ObservationTargetSummary) (dir : Text) (rs : List EscalationResult)
      → AreTold target
      → All Consistent rs
      → Ensures AreTold (record_scans eff target dir rs)
  unfolding record_scans
  record_scans-AreTold target dir rs h c =
      branch AreTold (is_empty rs) _ _ (gives AreTold target h) (
        after AreTold (eff.write_results dir rs) _ (λ u.
          after AreTold (eff.promote dir rs)
            (λ snapshot. ok (
              with_snapshot eff
                (record target { escalation = map observation_escalation_summary rs }) snapshot))
            (λ snapshot.
              gives AreTold _ (with_snapshot-AreTold _ snapshot (summaries-IsTold rs c)))))

  fallback-AreTold :
      (target : ObservationTargetSummary) (request : ObserveRequest) (dir : Text)
      → AreTold target
      → Ensures AreTold (run_observe_tool_only_fallback eff target request dir)
  unfolding run_observe_tool_only_fallback
  fallback-AreTold target request dir h =
      let prepared = fallback_target eff target request dir in
      let tools =
        map codes
          (if request.deep then "valgrind" ∷ "asan" ∷ "lsan" ∷ "ubsan" ∷ [] else "valgrind" ∷ []) in
      let finished = λ (scanned : ObservationTargetSummary) (rs : List EscalationResult).
        record scanned { status = fallback_target_status scanned rs } in
      after AreTold (eff.prepare_tool_only dir) _ (λ u.
        after_known AreTold (All Consistent)
          (run_observe_binary_scans eff dir tools request.tool_timeouts)
          (λ rs. record_scans eff prepared dir rs >>= λ scanned. ok (finished scanned rs))
          (scans-Consistent dir tools request.tool_timeouts)
          (λ rs c.
            after_known AreTold AreTold (record_scans eff prepared dir rs)
              (λ scanned. ok (finished scanned rs))
              (record_scans-AreTold prepared dir rs (unfold fallback_target in h) c)
              (λ scanned k. gives AreTold (finished scanned rs) k)))

  promoted-AreTold :
      (target : ObservationTargetSummary) (rs : List EscalationResult)
      → All Consistent rs
      → Ensures FirstAreTold (promoted eff target rs)
  unfolding promoted
  promoted-AreTold target rs c = after FirstAreTold (eff.write_results _ rs) _ (λ u.
      after FirstAreTold (eff.promote _ rs) _ (λ snapshot.
        gives FirstAreTold (_, true) (with_snapshot-AreTold _ snapshot (summaries-IsTold rs c))))

  pub apply-AreTold :
      (target : ObservationTargetSummary) (request : ObserveRequest) (dir : Text)
      → AreTold target
      → Ensures FirstAreTold (apply_observe_escalation_to_target eff target request dir)
  unfolding apply_observe_escalation_to_target
  apply-AreTold target request dir h =
      branch FirstAreTold request.native_only _ _ (gives FirstAreTold (target, false) h) (
        branch FirstAreTold (needs_fallback eff target) _ _
          (after_known FirstAreTold AreTold _ _ (fallback-AreTold target request dir h)
            (λ t k. gives FirstAreTold (t, not (is_empty t.escalation)) k))
          (branch FirstAreTold (had_observation_error target.status) _ _
            (gives FirstAreTold (target, false) h)
            (after_known FirstAreTold (All Consistent) _ _
              (escalation-Consistent target request.deep request.tool_timeouts)
              (λ rs c.
                branch FirstAreTold (is_empty rs) _ _ (gives FirstAreTold (target, false) h)
                  (promoted-AreTold target rs c)))))
