-- ===== src/Rules/Engine.antt =====
-- recompile/re-rules/src/engine.rs: `RuleEngine`, which keeps a window of events and lets the rules look
-- at it. Instants count nanoseconds. What is read from the clock of the system is the time
-- since 1970 in seconds, if it is not before. Timestamps
-- are 64-bit numbers, and their differences wrap.
pub mod Agreement
pub mod Outcomes
pub mod Resting
pub mod Registered
use recompile.Base.{
  ℕ, ◌+◌, ◌-◌, ◌*◌, ◌/◌, ◌%◌, ◌^◌, ◌++◌, ◌&&◌, ◌||◌, not, Bool, true, false, Option, none, some,
  List, [], ◌∷◌, Text, codes, text_eq, unwrap_or, opt_map, any, keep, map, leb, ltb, ◌==◌,
  if◌then◌else◌, length, head?, sub64, u64_mod, min,
}
use recompile.Base.Order.{nat_ord, text_ord}
use recompile.Base.Dict.{Dict, get, alter}
use recompile.Base.Removal.{remove}
use recompile.Base.Sets.{Set, insert, member}
use recompile.Base.Tally.{tally}
use recompile.Base.Decimal.{decimal}
use recompile.Base.Hex.{lower_hex}
use recompile.Rules.Event.{
  SentinelEvent, Finding, Evidence, MemoryEvidence, EscalationPlan, AnomalyClass, Confidence,
  Severity, is_copy, is_free, allocates, releases,
}
use recompile.Rules.Outside.{Outside}
use recompile.Rules.Config.{Config, get_cooldown, put}
use recompile.Rules.Checks.{
  ClusterState, since, drop_before, get_relevant_events, RuleInfo, rule_info, rule_matches,
  cluster_key, count_hit, is_cooling, class_of_type, class_str,
}
use recompile.Rules.Registry
use recompile.Rules.Registry.{RuleRegistry, Rule, all_rules, class_number}
use recompile.Rules.Ranking.{as_f64}
use recompile.Rules.Clusters.{ClusterManager, new_manager, add_finding}
use recompile.Rules.Report.{get_all_findings}

pub data RuleEngineError : Type 0 where
  config rule_evaluation event_processing io : Text → RuleEngineError

-- `panicked` is a panic, of the cluster manager or on a clock before 1970.
pub data Result {ℓ} (A : Type ℓ) : Type ℓ where
  ok : A → Result A
  err : RuleEngineError → Result A
  panicked : Result A

pub record RuleEngine (F : Type 0) : Type 0 where
  pub config : Config F
  pub registry : RuleRegistry
  pub event_buffer : List SentinelEvent
  pub active_clusters : Dict Text ClusterState
  pub cooldowns : Dict Text ℕ
  pub findings : List Finding
  pub cluster_manager : ClusterManager F

unfoldable pub new_engine : {F : Type 0} → Config F → RuleEngine F
new_engine c = record {
  registry = Registry.new;
  event_buffer = [];
  active_clusters = [];
  cooldowns = [];
  findings = [];
  cluster_manager = new_manager (record {
    window_s = c.clustering.window_s;
    max_clusters = c.clustering.max_clusters;
    top_k = c.clustering.top_k;
    confidence_merge_threshold = c.clustering.confidence_merge_threshold;
    similarity_threshold = c.clustering.similarity_threshold;
  });
  config = c;
}

-- What one check of a rule reads from the clocks: the instants at which it looks at the cooldown,
-- marks the cluster and sets the cooldown, and the times of day for the finding and for its id.
pub record Moment : Type 0 where
  pub asked : ℕ
  pub seen : ℕ
  pub ended : ℕ
  pub timestamp : Option ℕ
  pub id_timestamp : Option ℕ

-- `duration_since(UNIX_EPOCH).unwrap()`, and what follows it.
unfoldable pub unwrap_clock {ℓ} : {A : Type ℓ} → Option ℕ → (ℕ → Result A) → Result A
unwrap_clock none rest = panicked
unwrap_clock (some seconds) rest = rest seconds

-- The start of the window of 1.5 s that a check looks at.
abbrev pub window_start : SentinelEvent → ℕ
window_start trigger = sub64 trigger.ts_ns 1500000000

module _ (out : Outside) where
  unfoldable pub generate_finding_id : AnomalyClass → List SentinelEvent → ℕ → Text
  generate_finding_id class events now =
      let hash =
        unwrap_or (opt_map (λ e. out.hash_of e.addr e.stack_fp e.ts_ns) (head? events)) 0 in
      codes "F-" ++ class_str class ++ codes "-" ++ lower_hex 8 hash ++ codes "-" ++ decimal now

  simple_plan : RuleEngine out.F → Text → Confidence → Option EscalationPlan
  simple_plan engine rule_type confidence =
      if out.at_least (as_f64 out confidence) engine.config.rules.confidence_lo
      then some (record {
        tool = codes "asan";
        reason = rule_type ++ codes "_detected";
        estimated_cost = codes "low";
        cooldown_ms = 5000;
      })
      else none

  unfoldable pub simple_finding :
      RuleEngine out.F
      → Text
      → AnomalyClass
      → Confidence
      → Severity
      → List SentinelEvent
      → SentinelEvent
      → ℕ
      → ℕ
      → Finding
  unfolding simple_plan generate_finding_id
  simple_finding engine rule_type class confidence severity events trigger now id_now = record {
    id = generate_finding_id class events id_now;
    schema_version = codes "1.0";
    class = class;
    confidence = confidence;
    severity = severity;
    timestamp = now;
    pid = trigger.pid;
    evidence = record {
      memory = some (record {
        ptr = trigger.addr;
        size = trigger.len;
        alloc_size = trigger.alloc_size;
        operation = rule_type;
      });
      stacks = none;
      alloc_site = none;
      event_sequence = events;
    };
    escalation = simple_plan engine rule_type confidence;
    related = [];
  }

  unfoldable pub create_simple_finding :
      RuleEngine out.F → Text → List SentinelEvent → SentinelEvent → Moment → Result Finding
  unfolding unwrap_clock
  create_simple_finding engine rule_type events trigger m = elim (class_of_type rule_type) [
    | none ↦ err (RuleEngineError.rule_evaluation (codes "Unknown rule type: " ++ rule_type))
    | some (class, confidence, severity) ↦ unwrap_clock m.timestamp (λ now.
        unwrap_clock m.id_timestamp (λ id_now.
          ok (simple_finding engine rule_type class confidence severity events trigger now id_now)))
  ]

  -- A finding was made: the rule rests, and its cluster is forgotten.
  unfoldable pub generated : RuleEngine out.F → Text → Text → Moment → RuleEngine out.F
  generated engine id key m = record engine {
    cooldowns = put id (m.ended + get_cooldown engine.config id) engine.cooldowns;
    active_clusters = remove key engine.active_clusters;
  }

  unfoldable pub conclude :
      RuleEngine out.F
      → Text
      → Text
      → Moment
      → Result Finding
      → RuleEngine out.F × Result (Option Finding)
  unfolding generated
  conclude engine id key m (ok finding) = (generated engine id key m, ok (some finding))
  conclude engine id key m (err e) = (engine, err e)
  conclude engine id key m panicked = (engine, panicked)

  -- The rule matches: its cluster has one more hit, which may be enough.
  unfoldable pub on_match :
      RuleEngine out.F
      → RuleInfo
      → List SentinelEvent
      → SentinelEvent
      → Moment
      → RuleEngine out.F × Result (Option Finding)
  unfolding conclude create_simple_finding
  on_match engine info events trigger m =
      let key = cluster_key info.id trigger in
      let cluster = count_hit events m.seen (get key engine.active_clusters) in
      let engine' = record engine { active_clusters = put key cluster engine.active_clusters } in
      if leb info.min_hits cluster.hits
      then conclude engine' info.id key m
          (create_simple_finding engine' info.rule_type events trigger m)
      else (engine', ok none)

  unfoldable pub check_rule :
      RuleEngine out.F
      → RuleInfo
      → SentinelEvent
      → Moment
      → RuleEngine out.F × Result (Option Finding)
  unfolding on_match
  check_rule engine info trigger m =
      let events = since (window_start trigger) engine.event_buffer in
      if is_cooling engine.cooldowns info.id m.asked
      then (engine, ok none)
      else if rule_matches info.rule_type events
      then on_match engine info events trigger m
      else (engine, ok none)

  unfoldable pub check_rule_by_id :
      RuleEngine out.F → Text → SentinelEvent → Moment → RuleEngine out.F × Result (Option Finding)
  unfolding check_rule
  check_rule_by_id engine rule_id trigger m = elim (rule_info rule_id) [
    | none ↦ (engine, ok none)
    | some info ↦ check_rule engine info trigger m
  ]
