-- ===== src/Rules/Process/Total.antt =====
-- What holds of every event that an engine processes, after any others.
use recompile.Base.{
  ℕ, ◌≡◌, sym, Bool, Option, none, some, Text, List, [], ◌∷◌, arith, map, is_some, true, All, inl,
  inr, Option-cases,
}
use mathlib.Core.Path.{subst}
use recompile.Base.Order.{text_ord}
use recompile.Rules.Event.{SentinelEvent, Finding}
use recompile.Rules.Outside.{Outside}
use recompile.Rules.Config.{Config}
use recompile.Rules.Registry.{all_rules}
use recompile.Rules.Checks.{RuleInfo, rule_info, get_relevant_events}
use recompile.Rules.Clusters.{ClusterManager, new_manager}
use recompile.Rules.Clusters.Limits.{Iterates}
use recompile.Rules.Clusters.Valid.{IsValid, Keeps, add_finding-IsValid}
use recompile.Rules.Engine.{
  RuleEngine, Result, ok, err, panicked, Moment, check_rule, check_rule_by_id, on_match, conclude,
  generated, new_engine,
}
use recompile.Rules.Engine.Outcomes.{Yields, IsDated, is_due, check_rule_by_id-Yields}
use recompile.Rules.Process.{
  Readings, Processed, follow, absorb, clustered_in, check_each, buffered, process_event, updated,
}
use recompile.Rules.Report.{by_score, get_all_findings}

module _ (out : Outside) where
  -- What an outcome ensures of the engine that it leaves.
  abbrev pub Ends {κ} : (RuleEngine out.F → Type κ) → Processed out → Type κ
  Ends P o = P o.0

  -- The event was processed, and the clusters are as they should be.
  abbrev pub Completes : Processed out → Type 0
  Completes (engine, ok new) = IsValid engine.cluster_manager
  Completes (engine, err e) = ⊥
  Completes (engine, panicked) = ⊥

  pub follow-Ends {κ} :
      (P : RuleEngine out.F → Type κ) (o : Processed out)
      (rest : RuleEngine out.F → List Finding → Processed out)
      → Ends P o
      → ((engine : RuleEngine out.F) (new : List Finding) → P engine → Ends P (rest engine new))
      → Ends P (follow out o rest)
  unfolding follow
  follow-Ends P (engine, ok new) rest h k = k engine new h
  follow-Ends P (engine, err e) rest h k = h
  follow-Ends P (engine, panicked) rest h k = h

  pub updated-Ends {κ} :
      (P : RuleEngine out.F → Type κ)
      → ((engine : RuleEngine out.F) (findings : List Finding)
          → P engine
          → P (record engine { findings = findings }))
      → (engine : RuleEngine out.F) (new : List Finding) (o : Option (List Finding)) → P engine
      → Ends P (updated out engine new o)
  unfolding updated
  updated-Ends P keep engine new none h = h
  updated-Ends P keep engine new (some findings) h = keep engine findings h

  follow-Completes :
      (o : Processed out) (rest : RuleEngine out.F → List Finding → Processed out)
      → Completes o
      → ((engine : RuleEngine out.F) (new : List Finding)
          → IsValid engine.cluster_manager
          → Completes (rest engine new))
      → Completes (follow out o rest)
  unfolding follow
  follow-Completes (engine, ok new) rest h k = k engine new h
  follow-Completes (engine, err e) rest h k = absurd h
  follow-Completes (engine, panicked) rest h k = absurd h

  -- No error and no panic.
  abbrev Answers : Result (Option Finding) → Type 0
  Answers (ok finding) = Unit
  Answers (err e) = ⊥
  Answers panicked = ⊥

  Yields-Answers : (due : Bool) (r : Result (Option Finding)) → Yields due r → Answers r
  Yields-Answers due (ok (some f)) h = tt
  Yields-Answers due (ok none) h = tt
  Yields-Answers due (err e) h = h
  Yields-Answers due panicked h = h

  check-Answers :
      (engine : RuleEngine out.F) (rule_id : Text) (trigger : SentinelEvent) (m : Moment)
      → IsDated m
      → Answers (check_rule_by_id out engine rule_id trigger m).1
  check-Answers engine rule_id trigger m dated = elim (Option-cases (rule_info rule_id)) [
    | inl unknown ↦ unfold check_rule_by_id in rw (unknown, check_rule_by_id) tt
    | inr (info, known) ↦
        Yields-Answers (is_due out engine info trigger m) _
          (check_rule_by_id-Yields out engine rule_id info trigger m known dated)
  ]

  manager-check_rule :
      (engine : RuleEngine out.F) (info : RuleInfo) (trigger : SentinelEvent) (m : Moment)
      → (check_rule out engine info trigger m).0.cluster_manager ≡ engine.cluster_manager
  unfolding check_rule on_match conclude generated
  manager-check_rule engine info trigger m = ground arith

  manager-check :
      (engine : RuleEngine out.F) (rule_id : Text) (trigger : SentinelEvent) (m : Moment)
      → (check_rule_by_id out engine rule_id trigger m).0.cluster_manager ≡ engine.cluster_manager
  unfolding check_rule_by_id
  manager-check engine rule_id trigger m = elim (Option-cases (rule_info rule_id)) [
    | inl unknown ↦ rw (unknown, check_rule_by_id)
    | inr (info, known) ↦ rw (known, check_rule_by_id) (manager-check_rule engine info trigger m)
  ]

  clustered_in-Completes :
      (engine : RuleEngine out.F) (new : List Finding)
      (o : Option (ClusterManager out.F × Option Finding))
      → Keeps out o
      → Completes (clustered_in out engine new o)
  unfolding clustered_in
  clustered_in-Completes engine new none h = h
  clustered_in-Completes engine new (some (manager, merged)) h = h

  -- The clock of the system is not before 1970 when it is read for the checks and the clusters, and
  -- sorting findings with the comparisons that read it does not panic.
  pub record IsUsable (r : Readings) : Type 0 where
    pub check : (id : Text) → IsDated (r.check id)
    pub clustered : (id : Text) → is_some (r.clustered id) ≡ true
    pub sorted :
        (xs : List Finding)
        → is_some (out.sort_by Finding (λ n. by_score out (r.sorted n)) xs) ≡ true

  updated-Completes :
      (engine : RuleEngine out.F) (new : List Finding) (o : Option (List Finding))
      → is_some o ≡ true
      → IsValid engine.cluster_manager
      → Completes (updated out engine new o)
  unfolding updated
  updated-Completes engine new none h v = cc
  updated-Completes engine new (some findings) h v = v

  absorb-Completes :
      Iterates out
      → (event : SentinelEvent) (clock : Option ℕ) (new : List Finding) (engine : RuleEngine out.F)
        (r : Result (Option Finding))
      → is_some clock ≡ true
      → Answers r
      → IsValid engine.cluster_manager
      → Completes (absorb out event clock new (engine, r))
  unfolding absorb
  absorb-Completes iterates event clock new engine (ok none) dated a v = v
  absorb-Completes iterates event none new engine (ok (some finding)) dated a v = cc
  absorb-Completes iterates event (some now) new engine (ok (some finding)) dated a v =
      clustered_in-Completes engine new _ (
        add_finding-IsValid out iterates engine.cluster_manager finding
          (get_relevant_events engine.event_buffer event) now v)
  absorb-Completes iterates event clock new engine (err e) dated a v = absurd a
  absorb-Completes iterates event clock new engine panicked dated a v = absurd a

  check_each-Completes :
      Iterates out
      → (event : SentinelEvent) (r : Readings) (engine : RuleEngine out.F) (ids : List Text)
        (new : List Finding)
      → IsUsable r
      → IsValid engine.cluster_manager
      → Completes (check_each out event r engine ids new)
  unfolding check_each
  check_each-Completes iterates event r engine [] new usable v = v
  check_each-Completes iterates event r engine (id ∷ ids) new usable v =
      let checked = check_rule_by_id out engine id event (r.check id) in
      follow-Completes (absorb out event (r.clustered id) new checked) _
        (absorb-Completes iterates event (r.clustered id) new checked.0 checked.1
          (usable.clustered id) (check-Answers engine id event (r.check id) (usable.check id))
          (subst (λ m. IsValid m) (sym (manager-check engine id event (r.check id))) v))
        (λ engine' new' v'. check_each-Completes iterates event r engine' ids new' usable v')

  process_event-Completes :
      Iterates out
      → (engine : RuleEngine out.F) (event : SentinelEvent) (r : Readings) → IsUsable r
      → IsValid engine.cluster_manager
      → Completes (process_event out engine event r)
  unfolding process_event buffered get_all_findings
  process_event-Completes iterates engine event r usable v =
      let engine' = buffered out engine event in
      follow-Completes
        (check_each out event r engine' (map (λ rule. rule.id) (all_rules out engine'.registry)) [])
        _
        (check_each-Completes iterates event r engine'
          (map (λ rule. rule.id) (all_rules out engine'.registry)) [] usable v)
        (λ last new w. updated-Completes last new _ (usable.sorted _) w)

  -- The engine behind a sequence of events, each with what is read from the clocks.
  abbrev pub play : RuleEngine out.F → List (SentinelEvent × Readings) → RuleEngine out.F
  play engine [] = engine
  play engine ((event, r) ∷ events) = play (process_event out engine event r).0 events

  Completes-IsValid : (o : Processed out) → Completes o → IsValid o.0.cluster_manager
  Completes-IsValid (engine, ok new) h = h
  Completes-IsValid (engine, err e) h = absurd h
  Completes-IsValid (engine, panicked) h = absurd h

  play-IsValid :
      Iterates out
      → (events : List (SentinelEvent × Readings)) (engine : RuleEngine out.F)
      → All (λ x. IsUsable x.1) events
      → IsValid engine.cluster_manager
      → IsValid (play engine events).cluster_manager
  play-IsValid iterates [] engine usable v = v
  play-IsValid iterates ((event, r) ∷ events) engine usable v =
      let o = process_event out engine event r in
      play-IsValid iterates events o.0 usable.1
        (Completes-IsValid o (process_event-Completes iterates engine event r usable.0 v))

  -- From a new engine on, with any configuration and any events, every event is processed with
  -- neither an error nor a panic, and leaves clusters with one finding each, no more clusters and no
  -- more ranked scores than the configuration allows, provided that iterating over a map visits each
  -- of its entries once, that no clock is before 1970, and that sorting findings by their scores,
  -- which reads the clock in each comparison, does not panic.
  pub events_complete :
      Iterates out
      → (config : Config out.F) (before : List (SentinelEvent × Readings)) (event : SentinelEvent)
        (r : Readings)
      → All (λ x. IsUsable x.1) before
      → IsUsable r
      → Completes (process_event out (play (new_engine config) before) event r)
  unfolding new_engine new_manager
  events_complete iterates config before event r usable usable_now =
      process_event-Completes iterates (play (new_engine config) before) event r usable_now (
        play-IsValid iterates before (new_engine config) usable
          (record { sorted = tt; single = tt; bounded = omega arith; ranked = omega arith }))

  -- What neither a change of the clusters nor a check of a rule destroys holds behind the loop.
  module _ {κ} (P : RuleEngine out.F → Type κ)
      (frame : (engine : RuleEngine out.F) (manager : ClusterManager out.F)
        → P engine
        → P (record engine { cluster_manager = manager })) where
    clustered_in-Ends :
        (engine : RuleEngine out.F) (new : List Finding)
        (o : Option (ClusterManager out.F × Option Finding))
        → P engine
        → Ends P (clustered_in out engine new o)
    unfolding clustered_in
    clustered_in-Ends engine new none h = h
    clustered_in-Ends engine new (some (manager, merged)) h = frame engine manager h

    absorb-Ends :
        (event : SentinelEvent) (clock : Option ℕ) (new : List Finding) (engine : RuleEngine out.F)
        (r : Result (Option Finding))
        → P engine
        → Ends P (absorb out event clock new (engine, r))
    unfolding absorb
    absorb-Ends event clock new engine (ok none) h = h
    absorb-Ends event clock new engine (ok (some finding)) h = clustered_in-Ends engine new _ h
    absorb-Ends event clock new engine (err e) h = h
    absorb-Ends event clock new engine panicked h = h

    pub check_each-Ends :
        (event : SentinelEvent) (r : Readings)
        → ((engine : RuleEngine out.F) (i : Text)
            → P engine
            → P (check_rule_by_id out engine i event (r.check i)).0)
        → (engine : RuleEngine out.F) (ids : List Text) (new : List Finding) → P engine
        → Ends P (check_each out event r engine ids new)
    unfolding check_each
    check_each-Ends event r step engine [] new h = h
    check_each-Ends event r step engine (i ∷ ids) new h =
        let checked = check_rule_by_id out engine i event (r.check i) in
        follow-Ends P (absorb out event (r.clustered i) new checked) _
          (absorb-Ends event (r.clustered i) new checked.0 checked.1 (step engine i h))
          (λ engine' new' h'. check_each-Ends event r step engine' ids new' h')
