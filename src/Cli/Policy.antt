-- ===== src/Cli/Policy.antt =====
-- recompile/rerun/src/cli.rs: `RepeatEscalationPolicy`, and which targets it may escalate.
pub mod Resolve
use recompile.Base.{
  ℕ, ◌≡◌, refl, Bool, true, false, ◌&&◌, ◌||◌, not, Option, none, some, List, [], ◌∷◌, ◌++◌, map,
  Text, codes, text_eq, arith, any, ltb, ◌==◌, if◌then◌else◌, is_some, unwrap_or,
}
use recompile.Base.Scan.{contains}
use recompile.Observation.Status.{
  TargetStatus, clean, findings, failed, timeout, skipped, tool_unavailable, not_applicable,
  status_eq,
}
use recompile.Observation.Target.{ObservationTargetSummary}

pub data Policy : Type 0 where
  never first_failure sampled always : Policy

-- An `anyhow` error is its message; a panic is a result of its own.
pub data Result {ℓ} (A : Type ℓ) : Type ℓ where
  ok : A → Result A
  err : Text → Result A
  panicked : Result A

infixl 5 ◌>>=◌ ◌>>◌
-- `m?` followed by the rest of the function, for a value and for none.
abbrev pub ◌>>=◌ {κ ℓ} : {B : Type κ} {A : Type ℓ} → Result B → (B → Result A) → Result A
ok value >>= rest = rest value
err message >>= rest = err message
panicked >>= rest = panicked

abbrev pub ◌>>◌ {ℓ} : {A : Type ℓ} → Result (Unit {0}) → Result A → Result A
m >> rest = m >>= λ _. rest

unfoldable pub parse : Text → Result Policy
unfolding text_eq
parse value =
    if text_eq value (codes "never")
    then ok never
    else if text_eq value (codes "first-failure")
    then ok first_failure
    else if text_eq value (codes "sampled")
    then ok sampled
    else if text_eq value (codes "always")
    then ok always
    else err (codes "unsupported repeat escalation policy: " ++ value)

unfoldable pub policy_str : Policy → Text
policy_str never = codes "never"
policy_str first_failure = codes "first-failure"
policy_str sampled = codes "sampled"
policy_str always = codes "always"

abbrev pub is_never : Policy → Bool
is_never never = true
is_never _ = false

-- `repeat` and `explicit_policy` of the command line; a repeat of 0 and of 1 come first.
native_only_policy : Option Policy → Result Policy
native_only_policy none = ok never
native_only_policy (some policy) =
    if not (is_never policy)
    then err (codes "--native-only repeat runs can only use --repeat-escalation never")
    else ok never

unfoldable pub resolve_repeat_escalation_policy : ℕ → Bool → Option Policy → Result Policy
unfolding native_only_policy
resolve_repeat_escalation_policy repeat native_only explicit =
    if repeat == 0
    then err (codes "--repeat must be at least 1")
    else if repeat == 1
    then (if is_some explicit
        then err (codes "--repeat-escalation requires --repeat greater than 1")
        else ok always)
    else if native_only
    then native_only_policy explicit
    else ok (unwrap_or explicit first_failure)

unfoldable pub had_observation_error : TargetStatus → Bool
had_observation_error failed = true
had_observation_error timeout = true
had_observation_error skipped = true
had_observation_error _ = false

known_setup_failures : List Text
known_setup_failures = map codes (
    "Native mode is only supported on Linux" ∷ "Native mode requires CAP_BPF"
    ∷ "without a shared host PID namespace" ∷ "Could not find re-mini agent"
    ∷ "Could not find heap_tracker.bpf.o" ∷ "Could not find copy_checker.bpf.o"
    ∷ "Could not detect libc path" ∷ "Failed to start agent" ∷ "Agent exited prematurely"
    ∷ "Failed to resume target" ∷ "Target exited before post-exec stop" ∷ [])

unfoldable pub native_error_allows_tool_only_fallback : Text → Bool
unfolding known_setup_failures contains
native_error_allows_tool_only_fallback error =
    any (λ needle. contains needle error) known_setup_failures

unfoldable pub repeat_target_is_failure_like : ObservationTargetSummary → Bool
repeat_target_is_failure_like target =
    ltb 0 target.findings_count
    || status_eq target.status findings
    || status_eq target.status failed
    || status_eq target.status skipped

-- `target.error.as_deref().is_some_and(…)`
fallback_allowed : Option Text → Bool
fallback_allowed none = false
fallback_allowed (some error) = native_error_allows_tool_only_fallback error

unfoldable pub repeat_target_can_run_escalation : ObservationTargetSummary → Bool → Bool
unfolding fallback_allowed had_observation_error
repeat_target_can_run_escalation target deep =
    if ltb 0 target.findings_count
    then true
    else if status_eq target.status failed
    then fallback_allowed target.error
    else deep && not (had_observation_error target.status)

-- The strings that `select_attempt` gives and `repeat_reason_selects_target` matches.
abbrev pub first_escalatable_failure : Text
first_escalatable_failure = codes "first_escalatable_failure"

abbrev pub sampled_first_failure : Text
sampled_first_failure = codes "sampled_first_failure"

abbrev pub sampled_first_attempt : Text
sampled_first_attempt = codes "sampled_first_attempt"

abbrev pub policy_always : Text
policy_always = codes "policy_always"

unfoldable pub repeat_reason_selects_target : Text → ObservationTargetSummary → Bool → Bool
unfolding text_eq
repeat_reason_selects_target reason target deep =
    if not (repeat_target_can_run_escalation target deep)
    then false
    else if text_eq reason first_escalatable_failure || text_eq reason sampled_first_failure
    then repeat_target_is_failure_like target
    else if text_eq reason sampled_first_attempt || text_eq reason policy_always
    then true
    else false

-- A policy's name is read back as the policy.
pub parse-policy_str : (p : Policy) → parse (policy_str p) ≡ ok p
unfolding parse policy_str
parse-policy_str never = refl
parse-policy_str first_failure = refl
parse-policy_str sampled = refl
parse-policy_str always = refl
