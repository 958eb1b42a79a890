-- ===== src/Rules/Matchers.antt =====
-- recompile/re-rules/src/rules.rs: the matchers. One that finds no event to show panics, which is
-- `none`.
pub mod History
pub mod Reference
use recompile.Base.{
  ℕ, ◌&&◌, ◌||◌, Bool, true, false, Option, none, some, List, [], ◌∷◌, Text, codes, not, ltb, any,
  find, opt_map, if◌then◌else◌,
}
use recompile.Base.Order.{nat_ord}
use recompile.Base.Sets.{Set, insert, member}
use recompile.Base.Removal.{remove}
use recompile.Rules.Event.{
  EventType, SentinelEvent, Evidence, is_copy, is_free, allocates, releases,
}

-- A closed `RuleMatcher`, as a rule holds it.
pub record RuleMatcher : Type 0 where
  pub matches : List SentinelEvent → Bool
  pub extract_evidence : List SentinelEvent → Option Evidence

-- The evidence that one event is, under an operation's name, with its sizes.
abbrev pub evidence_of : ℕ → ℕ → Text → SentinelEvent → Evidence
evidence_of size alloc_size operation event = record {
  memory =
      some
        (record { ptr = event.addr; size = size; alloc_size = alloc_size; operation = operation });
  stacks = none;
  alloc_site = none;
  event_sequence = event ∷ [];
}

abbrev pub sized_evidence : Text → SentinelEvent → Evidence
sized_evidence operation event = evidence_of event.len event.alloc_size operation event

-- `format!("{:?}", event_type)` of a copy.
abbrev copy_name : EventType → Text
copy_name EventType.memcpy = codes "Memcpy"
copy_name _ = codes "Memmove"

abbrev pub is_oob_copy : SentinelEvent → Bool
is_oob_copy e = is_copy e.event_type && ltb 0 e.alloc_size && ltb e.alloc_size e.len

unfoldable pub memcpy_oob : RuleMatcher
memcpy_oob = record {
  matches = λ events. any is_oob_copy events;
  extract_evidence = λ events.
      opt_map (λ e. sized_evidence (copy_name e.event_type) e)
        (find (λ e. is_copy e.event_type && ltb e.alloc_size e.len) events);
}

-- The loops over the events, with the addresses freed so far.
unfoldable pub frees_twice : Set ℕ → List SentinelEvent → Bool
frees_twice freed_ptrs [] = false
frees_twice freed_ptrs (event ∷ events) =
    let freed' = if is_free event.event_type then insert event.addr freed_ptrs else freed_ptrs in
    (is_free event.event_type && member event.addr freed_ptrs) || frees_twice freed' events

unfoldable pub double_free_event : Set ℕ → List SentinelEvent → Option SentinelEvent
double_free_event freed_ptrs [] = none
double_free_event freed_ptrs (event ∷ events) =
    let freed' = if is_free event.event_type then insert event.addr freed_ptrs else freed_ptrs in
    if is_free event.event_type && member event.addr freed_ptrs
    then some event
    else double_free_event freed' events

unfoldable pub double_free : RuleMatcher
double_free = record {
  matches = frees_twice [];
  extract_evidence =
      λ events. opt_map (evidence_of 0 0 (codes "double_free")) (double_free_event [] events);
}

-- The allocated addresses behind an event that is not reported.
abbrev pub track : SentinelEvent → Set ℕ → Set ℕ
track event allocated_ptrs =
    if allocates event.event_type
    then insert event.addr allocated_ptrs
    else if releases event.event_type
    then remove event.addr allocated_ptrs
    else allocated_ptrs

unfoldable pub frees_untracked : Set ℕ → List SentinelEvent → Bool
frees_untracked allocated_ptrs [] = false
frees_untracked allocated_ptrs (event ∷ events) =
    (releases event.event_type && not (member event.addr allocated_ptrs))
    || frees_untracked (track event allocated_ptrs) events

unfoldable pub invalid_free_event : Set ℕ → List SentinelEvent → Option SentinelEvent
invalid_free_event allocated_ptrs [] = none
invalid_free_event allocated_ptrs (event ∷ events) =
    if releases event.event_type && not (member event.addr allocated_ptrs)
    then some event
    else invalid_free_event (track event allocated_ptrs) events

unfoldable pub invalid_free : RuleMatcher
invalid_free = record {
  matches = frees_untracked [];
  extract_evidence =
      λ events. opt_map (evidence_of 0 0 (codes "invalid_free")) (invalid_free_event [] events);
}

-- The addresses that some event frees.
unfoldable pub freed_addresses : Set ℕ → List SentinelEvent → Set ℕ
freed_addresses freed_ptrs [] = freed_ptrs
freed_addresses freed_ptrs (event ∷ events) =
    freed_addresses (if is_free event.event_type then insert event.addr freed_ptrs else freed_ptrs)
      events

abbrev pub copies_freed : Set ℕ → SentinelEvent → Bool
copies_freed freed_ptrs e = is_copy e.event_type && member e.addr freed_ptrs

unfoldable pub uaf_hint : RuleMatcher
unfolding freed_addresses
uaf_hint = record {
  matches = λ events. any (copies_freed (freed_addresses [] events)) events;
  extract_evidence = λ events.
      opt_map (sized_evidence (codes "use_after_free"))
        (find (copies_freed (freed_addresses [] events)) events);
}
