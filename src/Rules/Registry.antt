-- ===== src/Rules/Registry.antt =====
-- recompile/re-rules/src/rules.rs: the rules, and the registry that holds them by their id.
pub mod Shown
use recompile.Base.{ℕ, ◌==◌, Option, List, [], ◌∷◌, Text, codes, map, keep}
use recompile.Base.Order.{text_ord}
use recompile.Base.Dict.{Dict, get}
use recompile.Rules.Event.{AnomalyClass, Confidence, Severity}
use recompile.Rules.Outside.{Outside}
use recompile.Rules.Config.{put}
use recompile.Rules.Matchers.{RuleMatcher, memcpy_oob, double_free, invalid_free, uaf_hint}

pub record DebounceConfig : Type 0 where
  pub min_hits : ℕ
  pub window_ms : ℕ

pub record EscalationConfig : Type 0 where
  pub tool : Text
  pub reason : Text
  pub estimated_cost : Text
  pub cooldown_ms : ℕ

pub record Rule : Type 0 where
  pub id : Text
  pub name : Text
  pub class : AnomalyClass
  pub confidence : Confidence
  pub severity : Severity
  pub debounce : DebounceConfig
  pub escalation : EscalationConfig
  pub matcher : RuleMatcher

pub record RuleRegistry : Type 0 where
  pub rules : Dict Text Rule

abbrev pub memcpy_oob_rule : Rule
memcpy_oob_rule = record {
  id = codes "R-memcpy-oob";
  name = codes "Heap Overflow via memcpy";
  class = AnomalyClass.heap_overflow;
  confidence = Confidence.high;
  severity = Severity.high;
  debounce = record { min_hits = 2; window_ms = 1500 };
  escalation = record {
    tool = codes "asan";
    reason = codes "len>alloc_size";
    estimated_cost = codes "low";
    cooldown_ms = 10000;
  };
  matcher = memcpy_oob;
}

abbrev pub double_free_rule : Rule
double_free_rule = record {
  id = codes "R-double-free";
  name = codes "Double Free";
  class = AnomalyClass.double_free;
  confidence = Confidence.certain;
  severity = Severity.critical;
  debounce = record { min_hits = 1; window_ms = 0 };
  escalation = record {
    tool = codes "asan";
    reason = codes "double_free_detected";
    estimated_cost = codes "low";
    cooldown_ms = 0;
  };
  matcher = double_free;
}

abbrev pub invalid_free_rule : Rule
invalid_free_rule = record {
  id = codes "R-invalid-free";
  name = codes "Invalid Free";
  class = AnomalyClass.invalid_free;
  confidence = Confidence.high;
  severity = Severity.high;
  debounce = record { min_hits = 1; window_ms = 0 };
  escalation = record {
    tool = codes "asan";
    reason = codes "invalid_free_detected";
    estimated_cost = codes "low";
    cooldown_ms = 5000;
  };
  matcher = invalid_free;
}

abbrev pub uaf_hint_rule : Rule
uaf_hint_rule = record {
  id = codes "R-uaf-hint";
  name = codes "Use After Free Hint";
  class = AnomalyClass.use_after_free;
  confidence = Confidence.medium;
  severity = Severity.high;
  debounce = record { min_hits = 2; window_ms = 2000 };
  escalation = record {
    tool = codes "asan";
    reason = codes "memcpy_to_freed_ptr";
    estimated_cost = codes "medium";
    cooldown_ms = 5000;
  };
  matcher = uaf_hint;
}

abbrev pub add_rule : Rule → RuleRegistry → RuleRegistry
add_rule rule registry = record registry { rules = put rule.id rule registry.rules }

unfoldable pub new : RuleRegistry
new = add_rule uaf_hint_rule (
    add_rule invalid_free_rule
      (add_rule double_free_rule (add_rule memcpy_oob_rule (record { rules = [] }))))

unfoldable pub get_rule : RuleRegistry → Text → Option Rule
get_rule registry id = get id registry.rules

-- The rules in the order in which the map is iterated.
unfoldable pub all_rules : Outside → RuleRegistry → List Rule
all_rules out registry = map (λ e. e.1) (out.iterate Rule registry.rules)

-- `==` of the classes, each of which has a number of its own.
abbrev pub class_number : AnomalyClass → ℕ
class_number AnomalyClass.heap_overflow = 0
class_number AnomalyClass.double_free = 1
class_number AnomalyClass.invalid_free = 2
class_number AnomalyClass.use_after_free = 3
class_number AnomalyClass.uninit_to_io = 4
class_number AnomalyClass.lock_cycle = 5
class_number AnomalyClass.undefined_behavior = 6
class_number AnomalyClass.memory_leak = 7

unfoldable pub rules_for_class : Outside → RuleRegistry → AnomalyClass → List Rule
unfolding all_rules
rules_for_class out registry class =
    keep (λ rule. class_number rule.class == class_number class) (all_rules out registry)
