-- ===== src/Escalate/Runner/Cooldown.antt =====
-- How long a tool rests between two of its runs.
use recompile.Base.{
  ℕ, ◌+◌, ◌*◌, ◌≡◌, refl, ap, ◌∙◌, Bool, true, false, some, List, [], ◌∷◌, Text, arith, ltb, All,
  if◌then◌else◌,
}
use recompile.Base.Order.{text_ord}
use recompile.Base.Dict.{same, get-alter, get-alter_self}
use recompile.Escalate.Finding.{Finding, EscalationPlan}
use recompile.Escalate.Runner.{
  EscalationRunner, Tools, Moment, Answer, answered, refused, is_in_cooldown, effective_cooldown,
  update_cooldown, settle, escalate, escalate_planned, check_clean_binary, ask, ask_clean,
  in_cooldown,
}

-- A use of a runner: a finding with a plan, or a check of the binary.
pub data Call (E : Type 0) : Type 0 where
  of_finding : Finding E → EscalationPlan → Moment → Call E
  of_binary : Text → Moment → Call E

abbrev pub tool_of : {E : Type 0} → Call E → Text
tool_of (of_finding finding plan m) = plan.tool
tool_of (of_binary tool m) = tool

abbrev pub wait_of : {E : Type 0} → Call E → ℕ
wait_of (of_finding finding plan m) = plan.cooldown_ms
wait_of (of_binary tool m) = 0

abbrev pub moment_of : {E : Type 0} → Call E → Moment
moment_of (of_finding finding plan m) = m
moment_of (of_binary tool m) = m

abbrev pub is_answered : Answer → Bool
is_answered (answered result) = true
is_answered (refused error) = false

module _ {E : Type 0} (tools : Tools E) where
  unfoldable pub play : EscalationRunner → Call E → EscalationRunner × Answer
  play runner (of_finding finding plan m) =
      escalate tools runner (record finding { escalation = some plan }) m
  play runner (of_binary tool m) = check_clean_binary tools runner tool m

  abbrev pub play_all : EscalationRunner → List (Call E) → EscalationRunner
  play_all runner [] = runner
  play_all runner (c ∷ cs) = play_all (play runner c).0 cs

  -- What the call's tool answers, if it is not at rest.
  pub answer_of : EscalationRunner → Call E → Answer
  answer_of runner (of_finding finding plan m) =
      ask tools runner.config (record finding { escalation = some plan }) plan.tool m
  answer_of runner (of_binary tool m) = ask_clean tools runner.config tool m

  abbrev pub response : EscalationRunner → Call E → EscalationRunner × Answer
  response runner c = settle runner (tool_of c) (wait_of c) (moment_of c).ended (answer_of runner c)

  play_guard :
      (runner : EscalationRunner) (c : Call E)
      → play runner c ≡ (
          if is_in_cooldown runner (tool_of c) (moment_of c).asked
          then (runner, refused (in_cooldown (tool_of c)))
          else response runner c)
  unfolding play escalate escalate_planned check_clean_binary answer_of
  play_guard runner (of_finding finding plan m) = refl
  play_guard runner (of_binary tool m) = refl

  -- The end of the rest that a call gives its tool.
  abbrev pub rest_until : EscalationRunner → Call E → ℕ
  rest_until runner c =
      (moment_of c).ended + effective_cooldown runner (tool_of c) (wait_of c) * 1000000

  settle_rests :
      (runner : EscalationRunner) (tool : Text) (wait ended now : ℕ) (a : Answer)
      → is_answered a ≡ true
      → is_in_cooldown (settle runner tool wait ended a).0 tool now
        ≡ ltb now (ended + effective_cooldown runner tool wait * 1000000)
  unfolding settle update_cooldown is_in_cooldown
  settle_rests runner tool wait ended now (answered result) h =
      let until = ended + effective_cooldown runner tool wait * 1000000 in
      ground (arith, get-alter_self tool (λ _. until) runner.cooldowns)
  settle_rests runner tool wait ended now (refused error) h = cc

  settle_spares :
      (runner : EscalationRunner) (tool other : Text) (wait ended now : ℕ) (a : Answer)
      → same other tool ≡ false
      → is_in_cooldown (settle runner tool wait ended a).0 other now
        ≡ is_in_cooldown runner other now
  unfolding settle update_cooldown is_in_cooldown
  settle_spares runner tool other wait ended now (answered result) h =
      let until = ended + effective_cooldown runner tool wait * 1000000 in
      ground (arith, get-alter other tool (λ _. until) runner.cooldowns)
  settle_spares runner tool other wait ended now (refused error) h = refl

  play_spares :
      (runner : EscalationRunner) (c : Call E) (other : Text) (now : ℕ)
      → same other (tool_of c) ≡ false
      → is_in_cooldown (play runner c).0 other now ≡ is_in_cooldown runner other now
  play_spares runner c other now h = ground (
    arith,
    play_guard runner c,
    settle_spares runner (tool_of c) other (wait_of c) (moment_of c).ended now (answer_of runner c)
        h,
  )

  play_all_spares :
      (runner : EscalationRunner) (cs : List (Call E)) (other : Text) (now : ℕ)
      → All (λ c. same other (tool_of c) ≡ false) cs
      → is_in_cooldown (play_all runner cs) other now ≡ is_in_cooldown runner other now
  play_all_spares runner [] other now h = refl
  play_all_spares runner (c ∷ cs) other now h =
      play_all_spares (play runner c).0 cs other now h.1 ∙ play_spares runner c other now h.0

  play_rests :
      (runner : EscalationRunner) (c : Call E) (now : ℕ)
      → is_answered (play runner c).1 ≡ true
      → is_in_cooldown (play runner c).0 (tool_of c) now ≡ ltb now (rest_until runner c)
  unfolding settle
  play_rests runner c now h = ground (
    arith,
    play_guard runner c,
    settle_rests runner (tool_of c) (wait_of c) (moment_of c).ended now (answer_of runner c),
  )

  -- After a call that a tool answered, and any calls of other tools, the next call of that tool
  -- is refused, and changes nothing, exactly until the rest of the tool is over: the cooldown that
  -- the finding asks for, or the configured one where it asks for none, counted from the end of
  -- the first call. From then on the tool is asked.
  pub tool_rests :
      (runner : EscalationRunner) (c : Call E) (others : List (Call E)) (next : Call E)
      → is_answered (play runner c).1 ≡ true
      → All (λ o. same (tool_of c) (tool_of o) ≡ false) others
      → tool_of next ≡ tool_of c
      → let s = play_all (play runner c).0 others in
        play s next ≡ (
          if ltb (moment_of next).asked (rest_until runner c)
          then (s, refused (in_cooldown (tool_of next)))
          else response s next)
  tool_rests runner c others next h o e =
      let s = play_all (play runner c).0 others in
      let now = (moment_of next).asked in
      let resting =
        ap (λ t. is_in_cooldown s t now) e
        ∙ play_all_spares (play runner c).0 others (tool_of c) now o
        ∙ play_rests runner c now h in
      play_guard s next
      ∙ ap (λ b. if b then (s, refused (in_cooldown (tool_of next))) else response s next) resting
