-- ===== src/Rules/Process.antt =====
-- recompile/re-rules/src/engine.rs: the events that a `RuleEngine` processes, and what it tells of
-- itself. `process_event` also computes the best findings, and drops them.
pub mod Windows
pub mod Total
pub mod Rests
use recompile.Base.{ℕ, ◌++◌, Option, none, some, List, [], ◌∷◌, Text, map, length, sub64}
use recompile.Base.Order.{nat_ord}
use recompile.Base.Dict.{Dict}
use recompile.Base.Tally.{tally}
use recompile.Rules.Event.{SentinelEvent, Finding}
use recompile.Rules.Outside.{Outside}
use recompile.Rules.Registry.{all_rules, class_number}
use recompile.Rules.Clusters.{ClusterManager, add_finding}
use recompile.Rules.Report.{get_all_findings}
use recompile.Rules.Checks.{drop_before, get_relevant_events}
use recompile.Rules.Engine.{RuleEngine, Result, ok, err, panicked, Moment, check_rule_by_id}

-- What the processing of one event reads from the clocks: for the check of each rule, for adding
-- its finding, and for ranking the findings.
pub record Readings : Type 0 where
  pub check : Text → Moment
  pub clustered : Text → Option ℕ
  pub sorted : ℕ → Option ℕ × Option ℕ

pub record RuleEngineStats : Type 0 where
  pub total_events : ℕ
  pub active_clusters : ℕ
  pub total_findings : ℕ
  pub findings_by_class : Dict ℕ ℕ

abbrev pub to_list : Option Finding → List Finding
to_list none = []
to_list (some finding) = finding ∷ []

module _ (out : Outside) where
  abbrev pub Processed : Type 0
  Processed = RuleEngine out.F × Result (List Finding)

  -- `?` behind a step that changed the engine.
  unfoldable pub follow : Processed → (RuleEngine out.F → List Finding → Processed) → Processed
  follow (engine, ok new) rest = rest engine new
  follow (engine, err e) rest = (engine, err e)
  follow (engine, panicked) rest = (engine, panicked)

  unfoldable pub clustered_in :
      RuleEngine out.F → List Finding → Option (ClusterManager out.F × Option Finding) → Processed
  clustered_in engine new none = (engine, panicked)
  clustered_in engine new (some (manager, merged)) =
      (record engine { cluster_manager = manager }, ok (new ++ to_list merged))

  -- Adds the finding of a rule, if there is one, to the clusters.
  unfoldable pub absorb :
      SentinelEvent
      → Option ℕ
      → List Finding
      → RuleEngine out.F × Result (Option Finding)
      → Processed
  unfolding clustered_in
  absorb event clock new (engine, err e) = (engine, err e)
  absorb event clock new (engine, panicked) = (engine, panicked)
  absorb event clock new (engine, ok none) = (engine, ok new)
  absorb event clock new (engine, ok (some finding)) = clustered_in engine new (
      add_finding out engine.cluster_manager finding (get_relevant_events engine.event_buffer event)
        clock)

  -- The loop over the ids of the rules.
  unfoldable pub check_each :
      SentinelEvent → Readings → RuleEngine out.F → List Text → List Finding → Processed
  unfolding follow absorb
  check_each event r engine [] new = (engine, ok new)
  check_each event r engine (rule_id ∷ rule_ids) new =
      follow
        (absorb event (r.clustered rule_id) new
          (check_rule_by_id out engine rule_id event (r.check rule_id)))
        (λ engine' new'. check_each event r engine' rule_ids new')

  -- The instant before which events leave the buffer.
  unfoldable pub cutoff_time : RuleEngine out.F → SentinelEvent → ℕ
  cutoff_time engine event =
      sub64 event.ts_ns
        (out.to_u64 (out.mul engine.config.clustering.window_s (out.literal 10000000000 1)))

  unfoldable pub buffered : RuleEngine out.F → SentinelEvent → RuleEngine out.F
  unfolding cutoff_time
  buffered engine event = record engine {
    event_buffer = drop_before (cutoff_time engine event) (engine.event_buffer ++ event ∷ []);
  }

  -- Replaces the findings of the engine by all those of its clusters.
  unfoldable pub updated : RuleEngine out.F → List Finding → Option (List Finding) → Processed
  updated engine new none = (engine, panicked)
  updated engine new (some findings) = (record engine { findings = findings }, ok new)

  unfoldable pub process_event : RuleEngine out.F → SentinelEvent → Readings → Processed
  unfolding buffered check_each follow updated
  process_event engine event r =
      let engine' = buffered engine event in
      let rule_ids = map (λ rule. rule.id) (all_rules out engine'.registry) in
      follow (check_each event r engine' rule_ids [])
        (λ last new. updated last new (get_all_findings out last.cluster_manager r.sorted))

unfoldable pub clear_findings : {F : Type 0} → RuleEngine F → RuleEngine F
clear_findings engine = record engine { findings = []; active_clusters = []; cooldowns = [] }

unfoldable pub get_findings_by_class : {F : Type 0} → RuleEngine F → Dict ℕ ℕ
get_findings_by_class engine =
    tally (λ (f : Finding). class_number f.class) (λ f. 1) [] engine.findings

unfoldable pub get_stats : {F : Type 0} → RuleEngine F → RuleEngineStats
unfolding get_findings_by_class
get_stats engine = record {
  total_events = length engine.event_buffer;
  active_clusters = length engine.active_clusters;
  total_findings = length engine.findings;
  findings_by_class = get_findings_by_class engine;
}
