-- ===== src/Cli/Repeat/Completes.antt =====
-- What a repeated run needs in order to complete.
use recompile.Base.{
  ℕ, zero, suc, ◌≡◌, refl, Bool, true, false, ◌++◌, Option, none, some, List, [], ◌∷◌, Text, codes,
  All, IsAscii, arith, if◌then◌else◌,
}
use recompile.Base.Sets.{Set, insert}
use recompile.Base.Order.{text_ord}
use recompile.Base.Paths.{path_join}
use recompile.Observation.Target.{ObservationTargetSummary}
use recompile.Observation.Run.{ObservationRunSummary, new_run}
use recompile.Observation.Attempt.{RepeatAttemptSummary, from_target}
use recompile.Observation.Groups.{RepeatIssueGroupInput}
use recompile.Observation.Groups.Total.{aggregate_total}
use recompile.Observation.Repeat.{RepeatRunSummary, new_repeat}
use recompile.Cli.Policy.{Result, ok, err, panicked, ◌>>=◌}
use recompile.Cli.Select.{select_attempt}
use recompile.Cli.Effects.{Effects, World, ObserveRequest}
use recompile.Cli.Escalation.{apply_observe_escalation_to_target}
use recompile.Cli.Observe.{
  run_observe_once, traced, escalate_if, observation_target_name, jq_of, repeat_attempt_dir,
  repeat_target_name,
}
use recompile.Escalate.Result.{is_empty}
use recompile.Cli.Repeat.{
  Progress, Outcome, escalate_targets, escalate_attempt, absorb, attempt_step, attempts, start,
  summarize_repeat, run_observe_repeated,
}

-- The result is a value, which has the property.
unfoldable pub Gives {ℓ} : {A : Type ℓ} → (A → Type 0) → Result A → Type 0
Gives P (ok a) = P a
Gives P _ = ⊥

abbrev Whatever {ℓ} : {A : Type ℓ} → A → Type 0
Whatever a = Unit

abbrev pub is_ok {ℓ} : {A : Type ℓ} → Result A → Bool
is_ok (ok a) = true
is_ok (err e) = false
is_ok panicked = false

abbrev pub is_panic {ℓ} : {A : Type ℓ} → Result A → Bool
is_panic (ok a) = false
is_panic (err e) = false
is_panic panicked = true

after_value {ℓ κ} :
    {A : Type ℓ} {B : Type κ} (P : B → Type 0) (Q : A → Type 0) (m : Result A) (f : A → Result B)
    → Gives Q m
    → ((a : A) → Q a → Gives P (f a))
    → Gives P (m >>= f)
unfolding Gives
after_value P Q (ok a) f q h = h a q
after_value P Q (err e) f q h = absurd q
after_value P Q panicked f q h = absurd q

after_ok {ℓ κ} :
    {A : Type ℓ} {B : Type κ} (P : B → Type 0) (m : Result A) (f : A → Result B)
    → is_ok m ≡ true
    → ((a : A) → Gives P (f a))
    → Gives P (m >>= f)
unfolding Gives
after_ok P (ok a) f e h = h a
after_ok P (err x) f e h = cc
after_ok P panicked f e h = cc

-- Every input has an ASCII fingerprint, and reading them succeeded.
abbrev pub AsciiInputs : List RepeatIssueGroupInput → Type 0
AsciiInputs inputs = All (λ (i : RepeatIssueGroupInput). IsAscii i.fingerprint) inputs

-- Files can be written and read, and the tracer does not panic.
pub record IsReliable {E : Type 0} (eff : Effects E) : Type 0 where
  pub create_dir : (dir : Text) → is_ok (eff.create_dir dir) ≡ true
  pub native_run : (dir : Text) → is_panic (eff.native_run dir) ≡ false
  pub write_summary :
      (root : Text) (s : ObservationRunSummary) → is_ok (eff.write_summary root s) ≡ true
  pub inputs : (a : RepeatAttemptSummary) → Gives AsciiInputs (eff.issue_group_inputs a)

given {ℓ} : {A : Type ℓ} (m : Result A) → Gives Whatever m → (a : A) × (m ≡ ok a)
unfolding Gives
given (ok a) h = (a, refl)
given (err e) h = absurd h
given panicked h = absurd h

All-append {ℓ} :
    {A : Type ℓ} (P : A → Type 0) (xs ys : List A) → All P xs → All P ys → All P (xs ++ ys)
All-append P [] ys h k = k
All-append P (x ∷ xs) ys h k = (h.0, All-append P xs ys h.1 k)

module _ {E : Type 0} (eff : Effects E) (reliable : IsReliable eff) (request : ObserveRequest) where
  traced_ok : (r : ObserveRequest) (name dir : Text) → is_ok (traced eff r name dir) ≡ true
  unfolding traced
  traced_ok r name dir = ground (arith, reliable.native_run dir)

  once_ok :
      (r : ObserveRequest) → r.escalation_enabled ≡ false → Gives Whatever (run_observe_once eff r)
  unfolding run_observe_once escalate_if Gives
  once_ok r off =
      let name = observation_target_name r.binary_path in
      let dir = path_join (path_join r.output_root (codes "targets")) name in
      after_ok _ (eff.create_dir dir) _ (reliable.create_dir dir) (λ _.
        after_ok _ (traced eff r name dir) _ (traced_ok r name dir) (λ t.
          let d = record t { diagnostics = eff.diagnostics } in
          after_ok _ (escalate_if eff r d dir) _ (rw off refl) (λ t'.
            let summary =
              new_run r.output_root (t' ∷ [])
                (jq_of r.output_root (codes "run-summary.json") ∷ []) in
            after_ok _ (eff.write_summary r.output_root summary) _
              (reliable.write_summary r.output_root summary) (λ _. tt))))

  targets_ok :
      (reason : Text) (ts : List ObservationTargetSummary) (names : Set Text)
      → request.native_only ≡ true
      → Gives Whatever (escalate_targets eff request reason ts names)
  unfolding escalate_targets apply_observe_escalation_to_target Gives
  targets_ok reason [] names native = tt
  targets_ok reason (t ∷ ts) names native =
      let rest = targets_ok reason ts in
      ground (arith, native, rest (insert t.name names) native, rest names native)

  attempt_ok :
      (reason : Option Text) (summary : ObservationRunSummary) (dir : Text)
      → request.native_only ≡ true
      → Gives Whatever (escalate_attempt eff request reason summary dir)
  unfolding escalate_attempt Gives
  attempt_ok none summary dir native = tt
  attempt_ok (some reason) summary dir native =
      after_value _ Whatever (escalate_targets eff request reason summary.targets []) _
        (targets_ok reason summary.targets [] native)
        (λ r _.
          let s = record summary { targets = r.0 } in
          after_ok _ (if is_empty r.1 then ok tt else eff.write_summary dir s) _
            (ground (arith, reliable.write_summary dir s)) (λ _. tt))

  abbrev IsReady : Progress → Type 0
  IsReady p = AsciiInputs p.inputs

  absorb_ok :
      (n : ℕ) (dir : Text) (reason : Option Text) (names : Set Text)
      (ts : List ObservationTargetSummary) (p : Progress)
      → IsReady p
      → Gives IsReady (absorb eff request n dir reason names ts p)
  unfolding absorb Gives
  absorb_ok n dir reason names [] p h = h
  absorb_ok n dir reason names (t ∷ ts) p h =
      let a =
        from_target n (repeat_target_name n t.name) dir (path_join dir (codes "run-summary.json"))
          t in
      after_value _ AsciiInputs (eff.issue_group_inputs a) _ (reliable.inputs a) (λ read ascii.
        absorb_ok n dir reason names ts _
          (All-append (λ (i : RepeatIssueGroupInput). IsAscii i.fingerprint) p.inputs read h ascii))

  step_ok :
      (n : ℕ) (p : Progress)
      → request.native_only ≡ true
      → IsReady p
      → Gives IsReady (attempt_step eff request n p)
  unfolding attempt_step Gives
  step_ok n p native h =
      let dir = repeat_attempt_dir request.output_root n in
      let r = record request { output_root = dir; escalation_enabled = false } in
      after_value _ Whatever (run_observe_once eff r) _ (once_ok r refl) (λ summary _.
        let selected =
          select_attempt p.state request.repeat_escalation_policy n summary request.deep in
        after_value _ Whatever (escalate_attempt eff request selected.1 summary dir) _
          (attempt_ok selected.1 summary dir native)
          (λ result _.
            after_value _ IsReady
              (absorb eff request n dir selected.1 result.1 result.0
                (record p { state = selected.0 }))
              _ (absorb_ok n dir selected.1 result.1 result.0 (record p { state = selected.0 }) h)
              (λ absorbed ready. ready)))

-- The surroundings of every attempt are reliable, and so are the writes before and after.
pub record IsReliableWorld {E : Type 0} (world : World E) : Type 0 where
  pub clear_attempts : (dir : Text) → is_ok (world.clear_attempts dir) ≡ true
  pub during : (n : ℕ) → IsReliable (world.during n)
  pub write_repeat : (root : Text) (s : RepeatRunSummary) → is_ok (world.write_repeat root s) ≡ true
  pub write_run : (root : Text) (s : ObservationRunSummary) → is_ok (world.write_run root s) ≡ true

module _ {E : Type 0} (world : World E) (reliable : IsReliableWorld world)
    (request : ObserveRequest) where
  attempts_ok :
      (k n : ℕ) (p : Progress)
      → request.native_only ≡ true
      → AsciiInputs p.inputs
      → Gives (λ (q : Progress). AsciiInputs q.inputs) (attempts world request k n p)
  unfolding attempts Gives
  attempts_ok zero n p native h = h
  attempts_ok (suc k) n p native h =
      after_value _ (λ (q : Progress). AsciiInputs q.inputs)
        (attempt_step (world.during n) request n p) _
        (step_ok (world.during n) (reliable.during n) request n p native h)
        (λ q ready. attempts_ok k (suc n) q native ready)

  summary_ok :
      (repeat : ℕ) (p : Progress)
      → AsciiInputs p.inputs
      → is_ok (summarize_repeat world request repeat p) ≡ true
  unfolding summarize_repeat new_repeat
  summary_ok repeat p h = ground (arith, aggregate_total p.inputs h)

  run_ok :
      (repeat : ℕ)
      → request.native_only ≡ true
      → Gives Whatever (run_observe_repeated world request repeat)
  unfolding run_observe_repeated Gives
  run_ok repeat native =
      let root = request.output_root in
      let p0 = start world request in
      after_ok _ (world.clear_attempts (path_join root (codes "attempts"))) _
        (reliable.clear_attempts _)
        (λ _.
          after_value _ (λ (q : Progress). AsciiInputs q.inputs)
            (attempts world request repeat 1 p0) _ (attempts_ok repeat 1 p0 native tt)
            (λ p ready.
              after_ok _ (summarize_repeat world request repeat p) _ (summary_ok repeat p ready)
                (λ s. after_ok _ (world.write_repeat root s) _ (reliable.write_repeat root s) (λ _.
                  after_ok _
                    (world.write_run root (new_run root p.aggregate_targets p.next_commands)) _
                    (reliable.write_run root _) (λ _. tt)))))

  -- A native-only repeated run completes, whatever its policy and number of attempts, if
  -- directories and summaries can be written, the issue groups of every attempt are read and have
  -- ASCII fingerprints, and the tracer does not panic; it may fail to trace the target.
  pub repeated_run_completes :
      (repeat : ℕ)
      → request.native_only ≡ true
      → (outcome : Outcome) × (run_observe_repeated world request repeat ≡ ok outcome)
  repeated_run_completes repeat native =
      given (run_observe_repeated world request repeat) (run_ok repeat native)
