-- ===== src/Rules/Process/Windows.antt =====
-- The events that an engine keeps, and those that a check looks at.
use recompile.Base.{
  ℕ, ◌+◌, u64_mod, sub64, keep, leb, if◌then◌else◌, ◌<◌, ◌≤◌, ◌≡◌, refl, ◌++◌, false, none, Text,
  List, [], ◌∷◌, arith, ◌∙◌, ap, All, All-map, ltb, inl, inr, Bool-cases, Option-cases, map,
}
use recompile.Rules.Event.{SentinelEvent}
use recompile.Rules.Outside.{Outside}
use recompile.Rules.Checks.{
  RuleInfo, rule_info, since, drop_before, rule_matches, any_freed_again, any_never_allocated,
}
use recompile.Rules.Registry.{all_rules}
use recompile.Rules.Engine.{
  RuleEngine, ok, Moment, check_rule, check_rule_by_id, on_match, conclude, generated, window_start,
}
use recompile.Rules.Process.{Readings, check_each, buffered, cutoff_time, process_event}
use recompile.Rules.Process.Total.{follow-Ends, updated-Ends, check_each-Ends}

-- The events come in the order of their timestamps.
abbrev pub InOrder : List SentinelEvent → Type 0
InOrder [] = Unit
InOrder (e ∷ es) = All (λ d. e.ts_ns ≤ d.ts_ns) es × InOrder es

since_later :
    (start : ℕ) (es : List SentinelEvent) → All (λ d. start ≤ d.ts_ns) es → since start es ≡ es
unfolding since
since_later start [] h = refl
since_later start (e ∷ es) h = ground (arith, since_later start es h.1)

All-trans :
    (start next : ℕ) (es : List SentinelEvent)
    → start ≤ next
    → All (λ d. next ≤ d.ts_ns) es
    → All (λ d. start ≤ d.ts_ns) es
All-trans start next [] h a = tt
All-trans start next (e ∷ es) h a = (omega arith, All-trans start next es h a.1)

drop_before-since :
    (cutoff : ℕ) (es : List SentinelEvent) → InOrder es → drop_before cutoff es ≡ since cutoff es
unfolding drop_before since
drop_before-since cutoff [] h = refl
drop_before-since cutoff (e ∷ es) h = elim (Bool-cases (ltb e.ts_ns cutoff)) [
  | inl old ↦ ground (arith, old, drop_before-since cutoff es h.1)
  | inr kept ↦
      let all = All-trans cutoff e.ts_ns es (ground (arith, kept)) h.0 in
      ground (arith, kept, since_later cutoff es all)
]

since-none :
    (start : ℕ) (es : List SentinelEvent) → All (λ d. d.ts_ns < start) es → since start es ≡ []
unfolding since
since-none start [] h = refl
since-none start (e ∷ es) h = ground (arith, since-none start es h.1)

-- Without a wrap-around, the events that lie at most a window before an instant.
since-within :
    (now window : ℕ) (es : List SentinelEvent)
    → now < u64_mod
    → window ≤ now
    → since (sub64 now window) es ≡ keep (λ e. leb now (e.ts_ns + window)) es
unfolding since
since-within now window [] small h = refl
since-within now window (e ∷ es) small h = ground (arith, since-within now window es small h)

at_end :
    (P : SentinelEvent → Type 0) (es : List SentinelEvent) (event : SentinelEvent)
    → All P (es ++ event ∷ [])
    → P event
at_end P [] event h = h.0
at_end P (e ∷ es) event h = at_end P es event h.1

-- The last of ordered events has the greatest timestamp.
last_is_last :
    (es : List SentinelEvent) (event : SentinelEvent)
    → InOrder (es ++ event ∷ [])
    → All (λ e. e.ts_ns ≤ event.ts_ns) (es ++ event ∷ [])
last_is_last [] event h = (omega arith, tt)
last_is_last (e ∷ es) event h =
    (at_end (λ d. e.ts_ns ≤ d.ts_ns) es event h.0, last_is_last es event h.1)

rule_matches-nil : (rule_type : Text) → rule_matches rule_type [] ≡ false
unfolding rule_matches any_freed_again any_never_allocated
rule_matches-nil rule_type = ground arith

module _ (out : Outside) where
  -- The engine has these events in its buffer.
  abbrev Buffers : List SentinelEvent → RuleEngine out.F → Type 0
  Buffers es engine = engine.event_buffer ≡ es

  buffer-check_rule :
      (engine : RuleEngine out.F) (info : RuleInfo) (trigger : SentinelEvent) (m : Moment)
      → (check_rule out engine info trigger m).0.event_buffer ≡ engine.event_buffer
  unfolding check_rule on_match conclude generated
  buffer-check_rule engine info trigger m = ground arith

  buffer-check :
      (engine : RuleEngine out.F) (rule_id : Text) (trigger : SentinelEvent) (m : Moment)
      → (check_rule_by_id out engine rule_id trigger m).0.event_buffer ≡ engine.event_buffer
  unfolding check_rule_by_id
  buffer-check engine rule_id trigger m = elim (Option-cases (rule_info rule_id)) [
    | inl unknown ↦ rw (unknown, check_rule_by_id)
    | inr (info, known) ↦ rw (known, check_rule_by_id) (buffer-check_rule engine info trigger m)
  ]

  buffer-process_event :
      (engine : RuleEngine out.F) (event : SentinelEvent) (r : Readings)
      → InOrder (engine.event_buffer ++ event ∷ [])
      → (process_event out engine event r).0.event_buffer
        ≡ since (cutoff_time out engine event) (engine.event_buffer ++ event ∷ [])
  unfolding process_event buffered
  buffer-process_event engine event r ordered =
      let engine' = buffered out engine event in
      let ids = map (λ rule. rule.id) (all_rules out engine'.registry) in
      let kept =
        drop_before-since (cutoff_time out engine event) (engine.event_buffer ++ event ∷ [])
          ordered in
      follow-Ends out (Buffers _) (check_each out event r engine' ids []) _
        (check_each-Ends out (Buffers _) (λ e manager w. w) event r
          (λ e i w. buffer-check e i event (r.check i) ∙ w) engine' ids [] kept)
        (λ last new w. updated-Ends out (Buffers _) (λ e fs v. v) last new _ w)

  -- The window of the configuration in nanoseconds.
  abbrev pub window_ns : RuleEngine out.F → ℕ
  window_ns engine =
      out.to_u64 (out.mul engine.config.clustering.window_s (out.literal 10000000000 1))

  -- With timestamps in order, and whatever the rules find: if the new event does not come before the
  -- end of the first window of the clock of the events, the engine keeps of the events so far, the new
  -- one included, those that lie at most the window of its configuration before it. If it comes
  -- before, the engine keeps no event, not even the new one, since the cutoff wraps around.
  pub event_buffer-IsWindow :
      (engine : RuleEngine out.F) (event : SentinelEvent) (r : Readings)
      → InOrder (engine.event_buffer ++ event ∷ [])
      → event.ts_ns < u64_mod
      → window_ns engine < u64_mod
      → (process_event out engine event r).0.event_buffer ≡ (
          if leb (window_ns engine) event.ts_ns
          then keep
              (λ e. leb event.ts_ns (e.ts_ns + window_ns engine))
              (engine.event_buffer ++ event ∷ [])
          else [])
  unfolding cutoff_time
  event_buffer-IsWindow engine event r ordered small short =
      let es = engine.event_buffer ++ event ∷ [] in
      buffer-process_event engine event r ordered
      ∙ elim (Bool-cases (leb (window_ns engine) event.ts_ns)) [
        | inl late ↦
            rw late (since-within event.ts_ns (window_ns engine) es small (ground (arith, late)))
        | inr early ↦ rw early (
            since-none (cutoff_time out engine event) es (
              All-map (λ e h. ground (arith, early, h)) es
                (last_is_last engine.event_buffer event ordered)))
      ]

  check_rule_early :
      (engine : RuleEngine out.F) (info : RuleInfo) (trigger : SentinelEvent) (m : Moment)
      → since (window_start trigger) engine.event_buffer ≡ []
      → check_rule out engine info trigger m ≡ (engine, ok none)
  unfolding check_rule
  check_rule_early engine info trigger m e =
      ground (arith, ap (rule_matches info.rule_type) e, rule_matches-nil info.rule_type)

  -- In the first 1.5 s of the clock of the events the rules are blind: with a trigger before 1.5 s
  -- and a buffer that does not reach beyond it, every check finds nothing and counts no hit, since
  -- the start of its window wraps around to the far future.
  pub early_event_unseen :
      (engine : RuleEngine out.F) (id : Text) (trigger : SentinelEvent) (m : Moment)
      → trigger.ts_ns < 1500000000
      → All (λ e. e.ts_ns ≤ trigger.ts_ns) engine.event_buffer
      → check_rule_by_id out engine id trigger m ≡ (engine, ok none)
  unfolding check_rule_by_id
  early_event_unseen engine id trigger m early all =
      let none_left =
        since-none (window_start trigger) engine.event_buffer
          (All-map (λ e h. omega arith) engine.event_buffer all) in
      elim (Option-cases (rule_info id)) [
        | inl unknown ↦ rw (unknown, check_rule_by_id)
        | inr (info, known) ↦
            rw (known, check_rule_by_id) (check_rule_early engine info trigger m none_left)
      ]
