-- ===== src/Cli/Policy/Resolve.antt =====
-- Which policy the command line gives a run.
use recompile.Base.{ℕ, ◌<◌, ◌≡◌, ◌↔◌, ◌⊎◌, Bool, true, false, Option, none, some, arith, unwrap_or}
use recompile.Cli.Policy.{
  Policy, never, first_failure, always, ok, resolve_repeat_escalation_policy, native_only_policy,
}

-- The arguments with which a run starts, and its policy: a single run takes no explicit policy
-- and always escalates; of a repeated one, only `never` agrees with `--native-only`, and
-- `first-failure` is the default.
abbrev pub Accepts : ℕ → Bool → Option Policy → Policy → Type 0
Accepts repeat native_only explicit p =
    ((repeat ≡ 1) × (explicit ≡ none) × (p ≡ always))
    ⊎ ((1 < repeat)
        × (((native_only ≡ true) × ((explicit ≡ none) ⊎ (explicit ≡ some never)) × (p ≡ never))
            ⊎ ((native_only ≡ false) × (p ≡ unwrap_or explicit first_failure))))

resolve_sound :
    (repeat : ℕ) (native_only : Bool) (explicit : Option Policy) (p : Policy)
    → resolve_repeat_escalation_policy repeat native_only explicit ≡ ok p
    → Accepts repeat native_only explicit p
unfolding resolve_repeat_escalation_policy native_only_policy
resolve_sound repeat native_only explicit p h = ground arith

resolve_complete :
    (repeat : ℕ) (native_only : Bool) (explicit : Option Policy) (p : Policy)
    → Accepts repeat native_only explicit p
    → resolve_repeat_escalation_policy repeat native_only explicit ≡ ok p
unfolding resolve_repeat_escalation_policy native_only_policy
resolve_complete repeat native_only explicit p h = ground arith

-- A run starts under a policy exactly for the arguments that allow it, and with an error for all
-- others.
pub resolve_iff :
    (repeat : ℕ) (native_only : Bool) (explicit : Option Policy) (p : Policy)
    → (resolve_repeat_escalation_policy repeat native_only explicit ≡ ok p)
      ↔ Accepts repeat native_only explicit p
resolve_iff repeat native_only explicit p =
    (resolve_sound repeat native_only explicit p, resolve_complete repeat native_only explicit p)
