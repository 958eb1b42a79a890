-- ===== src/Rules/Engine/Registered.antt =====
-- What the checks of the engine find, told by the rules of the registry, which they do not read.
use recompile.Base.{
  ◌+◌, ◌%◌, ◌^◌, ◌≡◌, text_eq, codes, Bool, true, false, ◌&&◌, Option, none, some, Text, List, leb,
}
use recompile.Base.Order.{text_ord}
use recompile.Base.Dict.{Dict, get}
use recompile.Rules.Event.{SentinelEvent, Finding}
use recompile.Rules.Outside.{Outside}
use recompile.Rules.Checks.{RuleInfo, rule_info, since, rule_matches, cluster_key, class_of_type}
use recompile.Rules.Registry
use recompile.Rules.Registry.{Rule}
use recompile.Rules.Engine.{RuleEngine, Result, ok, err, panicked, Moment, window_start}

-- A finding of the kind that the rule names, exactly if it is due; no error, and no panic.
abbrev pub Follows : Rule → Bool → Result (Option Finding) → Type 0
Follows rule due (ok (some f)) =
    (due ≡ true)
    × (f.class ≡ rule.class)
    × (f.confidence ≡ rule.confidence)
    × (f.severity ≡ rule.severity)
Follows rule due (ok none) = due ≡ false
Follows rule due (err e) = ⊥
Follows rule due panicked = ⊥

-- The check that the engine has for the id of a rule.
record Checked (id : Text) (rule : Rule) : Type 0 where
  info : RuleInfo
  known : rule_info id ≡ some info
  min_hits : info.min_hits ≡ rule.debounce.min_hits
  kind : class_of_type info.rule_type ≡ some (rule.class, rule.confidence, rule.severity)
  matches :
      text_eq id (codes "R-invalid-free") ≡ false
      → (es : List SentinelEvent) → rule_matches info.rule_type es ≡ rule.matcher.matches es

module _ (out : Outside) where
  -- The rule is not at rest, matches the events of the window of 1.5 s, and this hit of its cluster
  -- is one that suffices.
  abbrev pub is_due_for : Rule → Text → RuleEngine out.F → SentinelEvent → Moment → Bool
  is_due_for rule id engine trigger m =
      (elim (get id engine.cooldowns) [ none ↦ true | some until ↦ leb until m.asked ])
      && rule.matcher.matches (since (window_start trigger) engine.event_buffer)
      && leb rule.debounce.min_hits (elim (get (cluster_key id trigger) engine.active_clusters) [
        | none ↦ 1
        | some cluster ↦ (cluster.hits + 1) % 2 ^ 32
      ])
