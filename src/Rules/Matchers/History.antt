-- ===== src/Rules/Matchers/History.antt =====
-- The matchers against their reference.
use recompile.Base.{
  ℕ, ◌≡◌, refl, ap, codes, ◌∙◌, ◌&&◌, ◌++◌, Bool, some, List, [], ◌∷◌, arith, any-append, find_last,
  opt_map, is_some, ◌==◌, if◌then◌else◌,
}
use recompile.Base.Order.{nat_ord}
use recompile.Base.Dict.{get, IsSorted, alter-IsSorted}
use recompile.Base.Sets.{Set, insert, member, member-insert}
use recompile.Base.Removal.{get-remove, remove-IsSorted}
use recompile.Rules.Event.{SentinelEvent, is_free, allocates}
use recompile.Rules.Matchers.{
  double_free, invalid_free, double_free_event, frees_twice, invalid_free_event, frees_untracked,
  track, evidence_of,
}
use recompile.Rules.Matchers.Reference.{
  first_where, was_freed, repeats_free, concerns, is_live, releases_dead,
}

-- The set holds the addresses that the events before have freed.
abbrev Freed : Set ℕ → List SentinelEvent → Type 0
Freed s before = (a : ℕ) → member a s ≡ was_freed a before

note_free :
    (s : Set ℕ) (before : List SentinelEvent) (e : SentinelEvent)
    → Freed s before
    → Freed (if is_free e.event_type then insert e.addr s else s) (before ++ e ∷ [])
note_free s before e h a = ground (
  arith,
  h a,
  member-insert a e.addr s,
  any-append (λ d. is_free d.event_type && a == d.addr) before (e ∷ []),
)

double_free_event-first :
    (s : Set ℕ) (before es : List SentinelEvent)
    → Freed s before
    → double_free_event s es ≡ first_where repeats_free before es
unfolding double_free_event first_where
double_free_event-first s before [] h = refl
double_free_event-first s before (e ∷ es) h =
    let s' = if is_free e.event_type then insert e.addr s else s in
    ground
      (arith, h e.addr, double_free_event-first s' (before ++ e ∷ []) es (note_free s before e h))

frees_twice-some :
    (s : Set ℕ) (es : List SentinelEvent) → frees_twice s es ≡ is_some (double_free_event s es)
unfolding frees_twice double_free_event
frees_twice-some s [] = refl
frees_twice-some s (e ∷ es) =
    let s' = if is_free e.event_type then insert e.addr s else s in
    ground (arith, frees_twice-some s' es)

-- Double free: the matcher fires exactly if some event frees an address that an earlier event has
-- freed, and its evidence is the first such event.
pub double_free-Reported :
    (es : List SentinelEvent)
    → (double_free.matches es ≡ is_some (first_where repeats_free [] es))
      × (double_free.extract_evidence es
          ≡ opt_map (evidence_of 0 0 (codes "double_free")) (first_where repeats_free [] es))
unfolding double_free
double_free-Reported es =
    let e = double_free_event-first [] [] es (λ a. unfold get in refl) in
    (frees_twice-some [] es ∙ ap is_some e, rw e)

-- The set holds the addresses that are allocated behind the events before.
abbrev Live : Set ℕ → List SentinelEvent → Type 0
Live s before = IsSorted s × ((a : ℕ) → member a s ≡ is_live a before)

find_last-append :
    (p : SentinelEvent → Bool) (xs : List SentinelEvent) (e : SentinelEvent)
    → find_last p (xs ++ e ∷ []) ≡ (if p e then some e else find_last p xs)
find_last-append p [] e = refl
find_last-append p (x ∷ xs) e = ground (arith, find_last-append p xs e)

is_live-append :
    (a : ℕ) (before : List SentinelEvent) (e : SentinelEvent)
    → is_live a (before ++ e ∷ [])
      ≡ (if concerns a e then allocates e.event_type else is_live a before)
is_live-append a before e = ground (arith, find_last-append (concerns a) before e)

pub track-IsSorted : (s : Set ℕ) (e : SentinelEvent) → IsSorted s → IsSorted (track e s)
unfolding insert
track-IsSorted s e h =
    ground (arith, alter-IsSorted e.addr (λ _. tt) s h, remove-IsSorted e.addr s h)

member-track :
    (a : ℕ) (s : Set ℕ) (e : SentinelEvent)
    → IsSorted s
    → member a (track e s) ≡ (if concerns a e then allocates e.event_type else member a s)
member-track a s e h = ground (arith, member-insert a e.addr s, get-remove a e.addr s h)

track-Live :
    (s : Set ℕ) (before : List SentinelEvent) (e : SentinelEvent)
    → Live s before
    → Live (track e s) (before ++ e ∷ [])
track-Live s before e h = (
  track-IsSorted s e h.0,
  λ a. rw (member-track a s e h.0, is_live-append a before e, h.1 a) refl,
)

invalid_free_event-first :
    (s : Set ℕ) (before es : List SentinelEvent)
    → Live s before
    → invalid_free_event s es ≡ first_where releases_dead before es
unfolding invalid_free_event first_where
invalid_free_event-first s before [] h = refl
invalid_free_event-first s before (e ∷ es) h = ground (
  arith,
  h.1 e.addr,
  invalid_free_event-first (track e s) (before ++ e ∷ []) es (track-Live s before e h),
)

frees_untracked-some :
    (s : Set ℕ) (es : List SentinelEvent) → frees_untracked s es ≡ is_some (invalid_free_event s es)
unfolding frees_untracked invalid_free_event
frees_untracked-some s [] = refl
frees_untracked-some s (e ∷ es) = ground (arith, frees_untracked-some (track e s) es)

-- Invalid free: the matcher fires exactly if some event frees or unmaps an address whose last
-- allocation, mapping, release or unmapping before it is not an allocation or mapping, and its
-- evidence is the first such event.
pub invalid_free-Reported :
    (es : List SentinelEvent)
    → (invalid_free.matches es ≡ is_some (first_where releases_dead [] es))
      × (invalid_free.extract_evidence es
          ≡ opt_map (evidence_of 0 0 (codes "invalid_free")) (first_where releases_dead [] es))
unfolding invalid_free
invalid_free-Reported es =
    let e = invalid_free_event-first [] [] es (tt, λ a. unfold get in refl) in
    (frees_untracked-some [] es ∙ ap is_some e, rw e)
