-- ===== src/Rules/Engine/Outcomes.antt =====
-- When a check of a rule makes a finding, and how the engine is left.
use recompile.Base.{
  ℕ, ◌≡◌, text_eq, codes, Bool, true, false, ◌&&◌, not, Option, none, some, Text, List, arith, leb,
  is_some, inl, inr, Option-cases, Bool-cases,
}
use recompile.Base.Order.{text_ord}
use recompile.Base.Dict.{get}
use recompile.Rules.Event.{SentinelEvent, Finding}
use recompile.Rules.Outside.{Outside}
use recompile.Rules.Config.{put}
use recompile.Rules.Checks.{
  RuleInfo, rule_info, since, rule_matches, cluster_key, count_hit, is_cooling, class_of_type,
}
use recompile.Rules.Engine.{
  RuleEngine, Result, ok, err, panicked, Moment, check_rule, check_rule_by_id, on_match,
  window_start, conclude, create_simple_finding, simple_finding, unwrap_clock,
}

-- The four types that the rules have.
pub type_known :
    (id : Text) (info : RuleInfo)
    → rule_info id ≡ some info
    → is_some (class_of_type info.rule_type) ≡ true
unfolding rule_info class_of_type
type_known id info h = elim (Bool-cases (text_eq id (codes "R-memcpy-oob"))) [
  | inl a ↦ ground (arith, a)
  | inr a ↦ elim (Bool-cases (text_eq id (codes "R-double-free"))) [
    | inl b ↦ ground (arith, a, b)
    | inr b ↦ elim (Bool-cases (text_eq id (codes "R-invalid-free"))) [
      | inl c ↦ ground (arith, a, b, c)
      | inr c ↦ ground (arith, a, b, c)
    ]
  ]
]

-- A finding if there should be one, no error, and no panic.
abbrev pub Yields : Bool → Result (Option Finding) → Type 0
Yields due (ok (some finding)) = due ≡ true
Yields due (ok none) = due ≡ false
Yields due (err e) = ⊥
Yields due panicked = ⊥

-- The clock of the system is not before 1970 when the check reads it.
abbrev pub IsDated : Moment → Type 0
IsDated m = (is_some m.timestamp ≡ true) × (is_some m.id_timestamp ≡ true)

module _ (out : Outside) where
  -- The hits of the cluster of an event, with this one.
  abbrev pub hits_with : RuleEngine out.F → RuleInfo → SentinelEvent → Moment → ℕ
  hits_with engine info trigger m =
      (count_hit (since (window_start trigger) engine.event_buffer) m.seen
        (get (cluster_key info.id trigger) engine.active_clusters)).hits

  -- The rule is not at rest, it matches the window, and the hits of its cluster suffice.
  abbrev pub is_due : RuleEngine out.F → RuleInfo → SentinelEvent → Moment → Bool
  is_due engine info trigger m =
      not (is_cooling engine.cooldowns info.id m.asked)
      && rule_matches info.rule_type (since (window_start trigger) engine.event_buffer)
      && leb info.min_hits (hits_with engine info trigger m)

  pub create_some :
      (engine : RuleEngine out.F) (rule_type : Text) (events : List SentinelEvent)
      (trigger : SentinelEvent) (m : Moment)
      → is_some (class_of_type rule_type) ≡ true
      → IsDated m
      → (f : Finding) × (create_simple_finding out engine rule_type events trigger m ≡ ok f)
  unfolding create_simple_finding unwrap_clock
  create_some engine rule_type events trigger m h dated =
      elim (Option-cases (class_of_type rule_type)) [
        | inl missing ↦ absurd (ground arith)
        | inr ((class, confidence, severity), found) ↦ elim (Option-cases m.timestamp) [
          | inl early ↦ absurd (ground (arith, dated.0, early))
          | inr (now, read) ↦ elim (Option-cases m.id_timestamp) [
            | inl early ↦ absurd (ground (arith, dated.1, early))
            | inr (id_now, read_again) ↦ (
              simple_finding out engine rule_type class confidence severity events trigger now
                  id_now,
              rw (found, read, read_again, create_simple_finding),
            )
          ]
        ]
      ]

  check_rule-Yields :
      (engine : RuleEngine out.F) (info : RuleInfo) (trigger : SentinelEvent) (m : Moment)
      → is_some (class_of_type info.rule_type) ≡ true
      → IsDated m
      → Yields (is_due engine info trigger m) (check_rule out engine info trigger m).1
  unfolding check_rule on_match conclude
  check_rule-Yields engine info trigger m h dated =
      let events = since (window_start trigger) engine.event_buffer in
      let key = cluster_key info.id trigger in
      let cluster = count_hit events m.seen (get key engine.active_clusters) in
      let engine' = record engine { active_clusters = put key cluster engine.active_clusters } in
      let (f, e) = create_some engine' info.rule_type events trigger m h dated in ground (arith, e)

  -- Checking a rule that the engine knows does not fail, and does not panic on a clock from 1970 on.
  -- It makes a finding exactly if the rule is not at rest, matches the events of the window, and has
  -- with this event as many hits in its cluster as it takes.
  pub check_rule_by_id-Yields :
      (engine : RuleEngine out.F) (rule_id : Text) (info : RuleInfo) (trigger : SentinelEvent)
      (m : Moment)
      → rule_info rule_id ≡ some info
      → IsDated m
      → Yields (is_due engine info trigger m) (check_rule_by_id out engine rule_id trigger m).1
  unfolding check_rule_by_id
  check_rule_by_id-Yields engine rule_id info trigger m h dated =
      rw (h, check_rule_by_id)
        (check_rule-Yields engine info trigger m (type_known rule_id info h) dated)
