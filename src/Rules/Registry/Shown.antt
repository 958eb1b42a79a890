-- ===== src/Rules/Registry/Shown.antt =====
-- The registered rules: what they can show for a match, and what the hint of a use after free sees.
use recompile.Base.{
  ℕ, ◌≡◌, refl, sym, ◌∙◌, ◌&&◌, ◌||◌, ◌++◌, Bool, true, false, Option, none, some, List, [], ◌∷◌,
  arith, not, any, find, All, any-append, any-congr, is_some, opt_map, ltb, ◌==◌, if◌then◌else◌,
}
use recompile.Base.Order.{nat_ord, text_ord, text_cmp}
use recompile.Base.Dict.{get, alter}
use recompile.Base.Sets.{Set, insert, member, member-insert}
use recompile.Rules.Event.{SentinelEvent, is_copy, is_free}
use recompile.Rules.Matchers.{
  RuleMatcher, memcpy_oob, double_free, invalid_free, uaf_hint, freed_addresses, copies_freed,
  is_oob_copy,
}
use recompile.Rules.Matchers.Reference.{was_freed}
use recompile.Rules.Matchers.History.{double_free-Reported, invalid_free-Reported}
use recompile.Rules.Registry.{new}

-- If the matcher fires, it has evidence to show.
abbrev pub shows : RuleMatcher → List SentinelEvent → Bool
shows matcher es = not (matcher.matches es) || is_some (matcher.extract_evidence es)

is_some-find : (p : SentinelEvent → Bool) (es : List SentinelEvent) → is_some (find p es) ≡ any p es
is_some-find p [] = refl
is_some-find p (e ∷ es) = ground (arith, is_some-find p es)

is_some-map {ℓ κ} :
    {A : Type ℓ} {B : Type κ} (f : A → B) (o : Option A) → is_some (opt_map f o) ≡ is_some o
is_some-map f none = refl
is_some-map f (some a) = refl

find_oob :
    (es : List SentinelEvent)
    → any is_oob_copy es ≡ true
    → any (λ e. is_copy e.event_type && ltb e.alloc_size e.len) es ≡ true
find_oob [] h = h
find_oob (e ∷ es) h = ground (arith, find_oob es)

memcpy_oob-shows : (es : List SentinelEvent) → shows memcpy_oob es ≡ true
unfolding memcpy_oob
memcpy_oob-shows es =
    let p = λ (e : SentinelEvent). is_copy e.event_type && ltb e.alloc_size e.len in
    ground (arith, find_oob es, is_some-find p es)

double_free-shows : (es : List SentinelEvent) → shows double_free es ≡ true
double_free-shows es = let (m, x) = double_free-Reported es in rw (m, x) (ground (arith))

invalid_free-shows : (es : List SentinelEvent) → shows invalid_free es ≡ true
invalid_free-shows es = let (m, x) = invalid_free-Reported es in rw (m, x) (ground (arith))

uaf_hint-shows : (es : List SentinelEvent) → shows uaf_hint es ≡ true
unfolding uaf_hint
uaf_hint-shows es = ground (arith, is_some-find (copies_freed (freed_addresses [] es)) es)

-- No registered rule panics for want of evidence: on any events, a matcher that fires has some to
-- extract.
pub extract_evidence_total :
    (es : List SentinelEvent) → All (λ e. shows e.1.matcher es ≡ true) new.rules
unfolding new alter text_cmp
extract_evidence_total es =
    (double_free-shows es, (invalid_free-shows es, (memcpy_oob-shows es, (uaf_hint-shows es, tt))))

member-freed_addresses :
    (a : ℕ) (s : Set ℕ) (es : List SentinelEvent)
    → member a (freed_addresses s es) ≡ (member a s || was_freed a es)
unfolding freed_addresses
member-freed_addresses a s [] = ground arith
member-freed_addresses a s (e ∷ es) = ground (
  arith,
  member-insert a e.addr s,
  member-freed_addresses a (if is_free e.event_type then insert e.addr s else s) es,
)

member_empty : (a : ℕ) → member a [] ≡ false
unfolding get
member_empty a = refl

-- A copy to an address that some event of the list frees.
abbrev copies_released : List SentinelEvent → SentinelEvent → Bool
copies_released es e = is_copy e.event_type && was_freed e.addr es

uaf_hint_lem : (es : List SentinelEvent) → uaf_hint.matches es ≡ any (copies_released es) es
unfolding uaf_hint
uaf_hint_lem es =
    any-congr (copies_freed (freed_addresses [] es)) (copies_released es) es
      λ e. ground (arith, member-freed_addresses e.addr [] es, member_empty e.addr)

swap_released :
    (xs ys : List SentinelEvent) (e : SentinelEvent)
    → copies_released (xs ++ ys) e ≡ copies_released (ys ++ xs) e
swap_released xs ys e =
    let freed = λ (d : SentinelEvent). is_free d.event_type && e.addr == d.addr in
    ground (arith, any-append freed xs ys, any-append freed ys xs)

-- Use after free: the hint does not look at the order of the events. It fires on some events
-- followed by others exactly if it fires on the others followed by the first ones, so also where
-- the only copy comes before the only free.
pub uaf_hint_unordered :
    (xs ys : List SentinelEvent) → uaf_hint.matches (xs ++ ys) ≡ uaf_hint.matches (ys ++ xs)
uaf_hint_unordered xs ys =
    let p = copies_released (ys ++ xs) in
    uaf_hint_lem (xs ++ ys)
    ∙ any-congr (copies_released (xs ++ ys)) p (xs ++ ys) (swap_released xs ys)
    ∙ ground (arith, any-append p xs ys, any-append p ys xs)
    ∙ sym (uaf_hint_lem (ys ++ xs))
