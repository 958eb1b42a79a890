-- ===== src/Rules/Process/Rests.antt =====
-- How long a rule rests while events are processed.
use recompile.Base.{ℕ, ◌+◌, ◌<◌, ◌≡◌, none, some, Text, List, [], ◌∷◌, All, map}
use mathlib.Core.Path.{subst}
use recompile.Base.Order.{text_ord}
use recompile.Base.Dict.{get}
use recompile.Rules.Event.{SentinelEvent, Finding}
use recompile.Rules.Outside.{Outside}
use recompile.Rules.Config.{get_cooldown}
use recompile.Rules.Registry.{all_rules}
use recompile.Rules.Engine.{RuleEngine, ok, Moment, check_rule_by_id}
use recompile.Rules.Engine.Resting.{get-check_rule_by_id, check_rule_by_id_rests, deadline_set}
use recompile.Rules.Process.{Readings, check_each, buffered, process_event}
use recompile.Rules.Process.Total.{Ends, follow-Ends, updated-Ends, check_each-Ends, play}

module _ (out : Outside) where
  -- The rule is at rest until an instant.
  abbrev RestsUntil : Text → ℕ → RuleEngine out.F → Type 0
  RestsUntil id until engine = get id engine.cooldowns ≡ some until

  process_event-Ends :
      (id : Text) (until : ℕ) (event : SentinelEvent) (r : Readings) (engine : RuleEngine out.F)
      → (r.check id).asked < until
      → RestsUntil id until engine
      → Ends out (RestsUntil id until) (process_event out engine event r)
  unfolding process_event buffered
  process_event-Ends id until event r engine early h =
      let engine' = buffered out engine event in
      let ids = map (λ rule. rule.id) (all_rules out engine'.registry) in
      follow-Ends out (RestsUntil id until) (check_each out event r engine' ids []) _
        (check_each-Ends out (RestsUntil id until) (λ e manager w. w) event r
          (λ e i w.
            get-check_rule_by_id out e i id event (r.check i) until w
              (λ p. subst (λ k. (r.check k).asked < until) p early))
          engine' ids [] h)
        (λ last new w. updated-Ends out (RestsUntil id until) (λ e fs v. v) last new _ w)

  play-RestsUntil :
      (id : Text) (until : ℕ) (events : List (SentinelEvent × Readings)) (engine : RuleEngine out.F)
      → All (λ x. (x.1.check id).asked < until) events
      → RestsUntil id until engine
      → RestsUntil id until (play out engine events)
  play-RestsUntil id until [] engine a h = h
  play-RestsUntil id until ((event, r) ∷ events) engine a h =
      play-RestsUntil id until events (process_event out engine event r).0 a.1
        (process_event-Ends id until event r engine a.0 h)

  -- A rule that has made a finding rests: after any events, as long as the instants at which it is
  -- asked come before the end of its cooldown, counted from the end of the check that made the
  -- finding, a check of the rule finds nothing and changes nothing.
  pub rule_rests :
      (engine : RuleEngine out.F) (id : Text) (trigger : SentinelEvent) (m : Moment) (f : Finding)
      (events : List (SentinelEvent × Readings)) (trigger' : SentinelEvent) (m' : Moment)
      → (check_rule_by_id out engine id trigger m).1 ≡ ok (some f)
      → All (λ x. (x.1.check id).asked < m.ended + get_cooldown engine.config id) events
      → m'.asked < m.ended + get_cooldown engine.config id
      → let later = play out (check_rule_by_id out engine id trigger m).0 events in
        check_rule_by_id out later id trigger' m' ≡ (later, ok none)
  rule_rests engine id trigger m f events trigger' m' found before early =
      let until = m.ended + get_cooldown engine.config id in
      let engine' = (check_rule_by_id out engine id trigger m).0 in
      check_rule_by_id_rests out (play out engine' events) id trigger' m' until
        (play-RestsUntil id until events engine' before
          (deadline_set out engine id trigger m f found))
        early
