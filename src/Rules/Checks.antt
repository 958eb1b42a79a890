-- ===== src/Rules/Checks.antt =====
-- recompile/re-rules/src/engine.rs: what `RuleEngine` computes from a window of events for one rule.
-- Timestamps are 64-bit numbers.
use recompile.Base.{
  ℕ, ◌+◌, ◌-◌, ◌/◌, ◌%◌, ◌^◌, ◌++◌, ◌&&◌, ◌||◌, not, Bool, false, Option, none, some, List, [], ◌∷◌,
  Text, codes, text_eq, any, keep, leb, ltb, if◌then◌else◌, u64_mod, min,
}
use recompile.Base.Order.{nat_ord, text_ord}
use recompile.Base.Dict.{Dict, get}
use recompile.Base.Sets.{Set, insert, member}
use recompile.Base.Hex.{lower_hex}
use recompile.Rules.Event.{
  SentinelEvent, AnomalyClass, Confidence, Severity, is_copy, is_free, allocates, releases,
}

pub record ClusterState : Type 0 where
  pub events : List SentinelEvent
  pub hits : ℕ
  pub last_seen : ℕ

-- The events of a list that do not lie before an instant.
unfoldable pub since : ℕ → List SentinelEvent → List SentinelEvent
since start events = keep (λ e. leb start e.ts_ns) events

-- Drops events from the front while they lie before an instant.
unfoldable pub drop_before : ℕ → List SentinelEvent → List SentinelEvent
drop_before cutoff [] = []
drop_before cutoff (e ∷ es) =
    let rest = drop_before cutoff es in if ltb e.ts_ns cutoff then rest else e ∷ es

-- Events within a second of the trigger.
unfoldable pub get_relevant_events : List SentinelEvent → SentinelEvent → List SentinelEvent
get_relevant_events buffer trigger =
    let window_start = trigger.ts_ns - 1000000000 in
    let window_end = min (trigger.ts_ns + 1000000000) (u64_mod - 1) in
    keep (λ e. leb window_start e.ts_ns && leb e.ts_ns window_end) buffer

-- The type of a rule and how many hits it takes.
pub record RuleInfo : Type 0 where
  pub id : Text
  pub rule_type : Text
  pub min_hits : ℕ
  pub window_ms : ℕ

unfoldable pub rule_info : Text → Option RuleInfo
unfolding text_eq
rule_info id =
    if text_eq id (codes "R-memcpy-oob")
    then some (record { id = id; rule_type = codes "memcpy"; min_hits = 2; window_ms = 1500 })
    else if text_eq id (codes "R-double-free")
    then some (record { id = id; rule_type = codes "double_free"; min_hits = 1; window_ms = 0 })
    else if text_eq id (codes "R-invalid-free")
    then some (record { id = id; rule_type = codes "invalid_free"; min_hits = 1; window_ms = 0 })
    else if text_eq id (codes "R-uaf-hint")
    then some (record { id = id; rule_type = codes "uaf"; min_hits = 2; window_ms = 2000 })
    else none

-- The loops of `check_rule_by_id` over the events: an address that is freed again, and one that is
-- released without an allocation before it.
unfoldable pub any_freed_again : Set ℕ → List SentinelEvent → Bool
any_freed_again freed_ptrs [] = false
any_freed_again freed_ptrs (e ∷ es) =
    let freed' = if is_free e.event_type then insert e.addr freed_ptrs else freed_ptrs in
    (if is_free e.event_type then member e.addr freed_ptrs else false) || any_freed_again freed' es

unfoldable pub any_never_allocated : Set ℕ → List SentinelEvent → Bool
any_never_allocated allocated_ptrs [] = false
any_never_allocated allocated_ptrs (e ∷ es) =
    let allocated' =
      if allocates e.event_type then insert e.addr allocated_ptrs else allocated_ptrs in
    (if allocates e.event_type
      then false
      else if releases e.event_type
      then not (member e.addr allocated_ptrs)
      else false)
    || any_never_allocated allocated' es

-- A copy of more bytes than were allocated.
unfoldable pub copies_too_much : SentinelEvent → Bool
copies_too_much e = is_copy e.event_type && ltb 0 e.alloc_size && ltb e.alloc_size e.len

-- The addresses that the events free.
unfoldable pub freed_among : Set ℕ → List SentinelEvent → Set ℕ
freed_among freed_ptrs [] = freed_ptrs
freed_among freed_ptrs (e ∷ es) =
    freed_among (if is_free e.event_type then insert e.addr freed_ptrs else freed_ptrs) es

unfoldable pub copies_from : Set ℕ → SentinelEvent → Bool
copies_from freed_ptrs e = is_copy e.event_type && member e.addr freed_ptrs

unfoldable pub rule_matches : Text → List SentinelEvent → Bool
unfolding text_eq any_freed_again any_never_allocated copies_too_much freed_among copies_from
rule_matches rule_type events =
    if text_eq rule_type (codes "memcpy")
    then any copies_too_much events
    else if text_eq rule_type (codes "double_free")
    then any_freed_again [] events
    else if text_eq rule_type (codes "invalid_free")
    then any_never_allocated [] events
    else if text_eq rule_type (codes "uaf")
    then any (copies_from (freed_among [] events)) events
    else false

-- The rule, the page of the address, and the stack.
unfoldable pub cluster_key : Text → SentinelEvent → Text
cluster_key id trigger =
    id
    ++ codes "-"
    ++ lower_hex 4 (trigger.addr / 2 ^ 12 % 2 ^ 16)
    ++ codes "-"
    ++ lower_hex 8 trigger.stack_fp

-- A further hit of a cluster, which is made if it is new.
unfoldable pub count_hit : List SentinelEvent → ℕ → Option ClusterState → ClusterState
count_hit events now none = record { events = events; hits = 1; last_seen = now }
count_hit events now (some cluster) = record {
  events = cluster.events ++ events;
  hits = (cluster.hits + 1) % 2 ^ 32;
  last_seen = now;
}

unfoldable pub is_cooling : Dict Text ℕ → Text → ℕ → Bool
is_cooling cooldowns id now = elim (get id cooldowns) [
  | none ↦ false
  | some cooldown_until ↦ ltb now cooldown_until
]

unfoldable pub class_of_type : Text → Option (AnomalyClass × Confidence × Severity)
unfolding text_eq
class_of_type rule_type =
    if text_eq rule_type (codes "memcpy")
    then some (AnomalyClass.heap_overflow, Confidence.high, Severity.high)
    else if text_eq rule_type (codes "double_free")
    then some (AnomalyClass.double_free, Confidence.certain, Severity.critical)
    else if text_eq rule_type (codes "invalid_free")
    then some (AnomalyClass.invalid_free, Confidence.high, Severity.high)
    else if text_eq rule_type (codes "uaf")
    then some (AnomalyClass.use_after_free, Confidence.medium, Severity.high)
    else none

unfoldable pub class_str : AnomalyClass → Text
class_str AnomalyClass.heap_overflow = codes "heap-overflow"
class_str AnomalyClass.double_free = codes "double-free"
class_str AnomalyClass.invalid_free = codes "invalid-free"
class_str AnomalyClass.use_after_free = codes "use-after-free"
class_str AnomalyClass.uninit_to_io = codes "uninit-to-io"
class_str AnomalyClass.lock_cycle = codes "lock-cycle"
class_str AnomalyClass.undefined_behavior = codes "undefined-behavior"
class_str AnomalyClass.memory_leak = codes "memory-leak"
