-- ===== src/Rules/Engine/Resting.antt =====
-- How long a rule rests behind its finding.
use recompile.Base.{
  refl, ℕ, ◌+◌, ◌<◌, ◌≡◌, sym, ◌∙◌, ap, true, false, none, some, Text, arith, leb, text_eq, codes,
  inl, inr, Option-cases, Bool-cases,
}
use mathlib.Core.Path.{subst}
use recompile.Base.Order.{text_ord}
use recompile.Base.Dict.{Dict, get, same, same→eq, get-alter, get-alter_self}
use recompile.Rules.Event.{SentinelEvent, Finding}
use recompile.Rules.Outside.{Outside}
use recompile.Rules.Config.{put, get_cooldown}
use recompile.Rules.Checks.{
  RuleInfo, rule_info, since, rule_matches, cluster_key, count_hit, is_cooling,
}
use recompile.Rules.Engine.{
  RuleEngine, Result, ok, err, panicked, create_simple_finding, Moment, check_rule,
  check_rule_by_id, on_match, window_start, conclude, generated,
}

pub rule_info-id : (id : Text) (info : RuleInfo) → rule_info id ≡ some info → info.id ≡ id
unfolding rule_info
rule_info-id id info h = elim (Bool-cases (text_eq id (codes "R-memcpy-oob"))) [
  | inl a ↦ ground (arith, a)
  | inr a ↦ elim (Bool-cases (text_eq id (codes "R-double-free"))) [
    | inl b ↦ ground (arith, a, b)
    | inr b ↦ elim (Bool-cases (text_eq id (codes "R-invalid-free"))) [
      | inl c ↦ ground (arith, a, b, c)
      | inr c ↦ ground (arith, a, b, c)
    ]
  ]
]

module _ (out : Outside) where
  -- A check leaves the cooldowns as they are, or sets that of its rule, which was not at rest.
  data Leaves (engine : RuleEngine out.F) (id : Text) (m : Moment) : Dict Text ℕ → Type 0 where
    same_as : Leaves engine id m engine.cooldowns
    rested :
        is_cooling engine.cooldowns id m.asked ≡ false
        → Leaves engine id m (put id (m.ended + get_cooldown engine.config id) engine.cooldowns)

  conclude-Leaves :
      (engine engine' : RuleEngine out.F) (id key : Text) (m : Moment) (r : Result Finding)
      → engine'.cooldowns ≡ engine.cooldowns
      → engine'.config ≡ engine.config
      → is_cooling engine.cooldowns id m.asked ≡ false
      → Leaves engine id m (conclude out engine' id key m r).0.cooldowns
  unfolding conclude generated
  conclude-Leaves engine engine' id key m (ok f) same_cooldowns same_config free =
      rw (same_cooldowns, same_config) (rested free)
  conclude-Leaves engine engine' id key m (err e) same_cooldowns same_config free =
      rw same_cooldowns same_as
  conclude-Leaves engine engine' id key m panicked same_cooldowns same_config free =
      rw same_cooldowns same_as

  check_rule-Leaves :
      (engine : RuleEngine out.F) (info : RuleInfo) (trigger : SentinelEvent) (m : Moment)
      → Leaves engine info.id m (check_rule out engine info trigger m).0.cooldowns
  unfolding check_rule on_match conclude
  check_rule-Leaves engine info trigger m =
      let events = since (window_start trigger) engine.event_buffer in
      let key = cluster_key info.id trigger in
      let cluster = count_hit events m.seen (get key engine.active_clusters) in
      let engine' = record engine { active_clusters = put key cluster engine.active_clusters } in
      let concluded =
        conclude-Leaves engine engine' info.id key m
          (create_simple_finding out engine' info.rule_type events trigger m) refl refl in
      elim (Bool-cases (is_cooling engine.cooldowns info.id m.asked)) [
        | inl cooling ↦ rw cooling same_as
        | inr free ↦ elim (Bool-cases (rule_matches info.rule_type events)) [
          | inl hit ↦ elim (Bool-cases (leb info.min_hits cluster.hits)) [
            | inl enough ↦ rw (free, hit, enough) (concluded free)
            | inr few ↦ rw (free, hit, few) same_as
          ]
          | inr miss ↦ rw (free, miss) same_as
        ]
      ]

  cooling_until :
      (cooldowns : Dict Text ℕ) (id : Text) (now until : ℕ)
      → get id cooldowns ≡ some until
      → now < until
      → is_cooling cooldowns id now ≡ true
  unfolding is_cooling
  cooling_until cooldowns id now until e h = ground arith

  Leaves-get :
      (engine : RuleEngine out.F) (id i : Text) (m : Moment) (until : ℕ) (d : Dict Text ℕ)
      → Leaves engine id m d
      → get i engine.cooldowns ≡ some until
      → (i ≡ id → m.asked < until)
      → get i d ≡ some until
  Leaves-get engine id i m until d same_as e h = e
  Leaves-get engine id i m until d (rested free) e h =
      let t = m.ended + get_cooldown engine.config id in
      elim (Bool-cases (same i id)) [
        | inl it ↦
            let i=id = same→eq i id it in
            absurd (
              ground (
                arith,
                free,
                cooling_until engine.cooldowns i m.asked until e (h i=id),
                ap (λ k. is_cooling engine.cooldowns k m.asked) i=id,
              ))
        | inr other ↦ ground (arith, get-alter i id (λ _. t) engine.cooldowns, other, e)
      ]

  check_known :
      (engine : RuleEngine out.F) (id : Text) (info : RuleInfo) (trigger : SentinelEvent)
      (m : Moment)
      → rule_info id ≡ some info
      → check_rule_by_id out engine id trigger m ≡ check_rule out engine info trigger m
  unfolding check_rule_by_id
  check_known engine id info trigger m known = rw (known, check_rule_by_id)

  -- The deadline of a rule stays while checks, of whichever rules, come before it.
  pub get-check_rule_by_id :
      (engine : RuleEngine out.F) (rule_id i : Text) (trigger : SentinelEvent) (m : Moment)
      (until : ℕ)
      → get i engine.cooldowns ≡ some until
      → (i ≡ rule_id → m.asked < until)
      → get i (check_rule_by_id out engine rule_id trigger m).0.cooldowns ≡ some until
  unfolding check_rule_by_id
  get-check_rule_by_id engine rule_id i trigger m until e h =
      elim (Option-cases (rule_info rule_id)) [
        | inl unknown ↦ rw (unknown, check_rule_by_id) e
        | inr (info, known) ↦
            let named = rule_info-id rule_id info known in
            rw (known, check_rule_by_id)
              (Leaves-get engine info.id i m until _ (check_rule-Leaves engine info trigger m) e
                (λ p. h (p ∙ named)))
      ]

  -- Before its deadline a rule does nothing.
  pub check_rule_by_id_rests :
      (engine : RuleEngine out.F) (id : Text) (trigger : SentinelEvent) (m : Moment) (until : ℕ)
      → get id engine.cooldowns ≡ some until
      → m.asked < until
      → check_rule_by_id out engine id trigger m ≡ (engine, ok none)
  unfolding check_rule_by_id check_rule
  check_rule_by_id_rests engine id trigger m until e h = elim (Option-cases (rule_info id)) [
    | inl unknown ↦ rw (unknown, check_rule_by_id)
    | inr (info, known) ↦
        let named = rule_info-id id info known in
        let cooling =
          ap (λ k. is_cooling engine.cooldowns k m.asked) named
          ∙ cooling_until engine.cooldowns id m.asked until e h in
        ground (arith, known, cooling)
  ]

  conclude_deadline :
      (engine : RuleEngine out.F) (id key : Text) (m : Moment) (r : Result Finding) (f : Finding)
      → (conclude out engine id key m r).1 ≡ ok (some f)
      → get id (conclude out engine id key m r).0.cooldowns
        ≡ some (m.ended + get_cooldown engine.config id)
  unfolding conclude generated
  conclude_deadline engine id key m (ok g) f h =
      get-alter_self id (λ _. m.ended + get_cooldown engine.config id) engine.cooldowns
  conclude_deadline engine id key m (err e) f h = cc
  conclude_deadline engine id key m panicked f h = cc

  check_rule_deadline :
      (engine : RuleEngine out.F) (info : RuleInfo) (trigger : SentinelEvent) (m : Moment)
      (f : Finding)
      → (check_rule out engine info trigger m).1 ≡ ok (some f)
      → get info.id (check_rule out engine info trigger m).0.cooldowns
        ≡ some (m.ended + get_cooldown engine.config info.id)
  unfolding check_rule on_match conclude generated
  check_rule_deadline engine info trigger m f h =
      let events = since (window_start trigger) engine.event_buffer in
      let key = cluster_key info.id trigger in
      let cluster = count_hit events m.seen (get key engine.active_clusters) in
      let engine' = record engine { active_clusters = put key cluster engine.active_clusters } in
      let t = m.ended + get_cooldown engine.config info.id in
      ground (
        arith,
        h,
        conclude_deadline engine' info.id key m
            (create_simple_finding out engine' info.rule_type events trigger m) f,
      )

  -- A finding sets the deadline of its rule.
  pub deadline_set :
      (engine : RuleEngine out.F) (id : Text) (trigger : SentinelEvent) (m : Moment) (f : Finding)
      → (check_rule_by_id out engine id trigger m).1 ≡ ok (some f)
      → get id (check_rule_by_id out engine id trigger m).0.cooldowns
        ≡ some (m.ended + get_cooldown engine.config id)
  deadline_set engine id trigger m f h = elim (Option-cases (rule_info id)) [
    | inl unknown ↦ unfold check_rule_by_id in absurd (ground (arith, unknown))
    | inr (info, known) ↦
        let checked = check_known engine id info trigger m known in
        let r = check_rule out engine info trigger m in
        let found = ap (λ x. x.1) (sym checked) ∙ h in
        let set = check_rule_deadline engine info trigger m f found in
        rw checked (
          subst (λ k. get k r.0.cooldowns ≡ some (m.ended + get_cooldown engine.config k))
            (rule_info-id id info known) set)
  ]
