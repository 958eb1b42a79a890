-- ===== src/Rules/Matchers/Reference.antt =====
-- What the matchers look for, written down from the whole history of each event and without a set.
use recompile.Base.{
  ℕ, ◌&&◌, ◌||◌, ◌++◌, Bool, false, Option, none, some, List, [], ◌∷◌, not, any, find_last, ◌==◌,
  if◌then◌else◌,
}
use recompile.Rules.Event.{SentinelEvent, is_free, allocates, releases}

-- The first event that has the property together with the events before it.
unfoldable pub first_where :
    (List SentinelEvent → SentinelEvent → Bool)
    → List SentinelEvent
    → List SentinelEvent
    → Option SentinelEvent
first_where p before [] = none
first_where p before (e ∷ es) = if p before e then some e else first_where p (before ++ e ∷ []) es

-- An event of the list frees the address.
abbrev pub was_freed : ℕ → List SentinelEvent → Bool
was_freed a events = any (λ d. is_free d.event_type && a == d.addr) events

-- A free of an address that has been freed.
abbrev pub repeats_free : List SentinelEvent → SentinelEvent → Bool
repeats_free before e = is_free e.event_type && was_freed e.addr before

abbrev pub concerns : ℕ → SentinelEvent → Bool
concerns a d = a == d.addr && (allocates d.event_type || releases d.event_type)

abbrev pub gives : Option SentinelEvent → Bool
gives none = false
gives (some d) = allocates d.event_type

-- The last event that allocates or releases the address allocates it.
abbrev pub is_live : ℕ → List SentinelEvent → Bool
is_live a events = gives (find_last (concerns a) events)

-- A release of an address that is not allocated at that moment.
abbrev pub releases_dead : List SentinelEvent → SentinelEvent → Bool
releases_dead before e = releases e.event_type && not (is_live e.addr before)
