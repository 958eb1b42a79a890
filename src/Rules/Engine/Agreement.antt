-- ===== src/Rules/Engine/Agreement.antt =====
-- The tests of the engine against the matchers of the registered rules.
use recompile.Base.{
  ℕ, ◌≡◌, refl, true, false, ◌&&◌, not, List, [], ◌∷◌, codes, arith, if◌then◌else◌,
}
use recompile.Base.Order.{nat_ord, text_ord}
use recompile.Base.Dict.{IsSorted}
use recompile.Base.Sets.{Set, insert, member, member-insert}
use recompile.Base.Removal.{get-remove}
use recompile.Rules.Event.{SentinelEvent, is_free, allocates}
use recompile.Rules.Matchers.{
  memcpy_oob, double_free, invalid_free, uaf_hint, frees_twice, frees_untracked, track,
}
use recompile.Rules.Matchers.History.{track-IsSorted}
use recompile.Rules.Checks.{any_freed_again, any_never_allocated, rule_matches}

any_freed_again_lem :
    (s : Set ℕ) (es : List SentinelEvent) → any_freed_again s es ≡ frees_twice s es
unfolding any_freed_again frees_twice
any_freed_again_lem s [] = refl
any_freed_again_lem s (e ∷ es) =
    let s' = if is_free e.event_type then insert e.addr s else s in
    ground (arith, any_freed_again_lem s' es)

-- Whatever is in the set of the matcher is in that of the engine.
abbrev Within : Set ℕ → Set ℕ → Type 0
Within s t = (a : ℕ) → member a s ≡ true → member a t ≡ true

track-Within :
    (s t : Set ℕ) (e : SentinelEvent)
    → IsSorted s
    → Within s t
    → Within (track e s) (if allocates e.event_type then insert e.addr t else t)
track-Within s t e h w a m =
    ground
      (arith, w a, m, member-insert a e.addr s, member-insert a e.addr t, get-remove a e.addr s h)

any_never_allocated_le :
    (s t : Set ℕ) (es : List SentinelEvent)
    → IsSorted s
    → Within s t
    → any_never_allocated t es ≡ true
    → frees_untracked s es ≡ true
unfolding any_never_allocated frees_untracked
any_never_allocated_le s t [] h w e = e
any_never_allocated_le s t (x ∷ xs) h w e =
    let t' = if allocates x.event_type then insert x.addr t else t in
    let later =
      any_never_allocated_le (track x s) t' xs (track-IsSorted s x h) (track-Within s t x h w) in
    ground (arith, e, w x.addr, later)

-- The tests in the engine are those of the registered rules for a copy out of bounds, a double
-- free and a use after free. For an invalid free it fires only where the rule does.
pub rule_matches-Agrees :
    (es : List SentinelEvent)
    → (rule_matches (codes "memcpy") es ≡ memcpy_oob.matches es)
      × (rule_matches (codes "double_free") es ≡ double_free.matches es)
      × (rule_matches (codes "uaf") es ≡ uaf_hint.matches es)
      × ((rule_matches (codes "invalid_free") es && not (invalid_free.matches es)) ≡ false)
unfolding rule_matches memcpy_oob double_free invalid_free uaf_hint
rule_matches-Agrees es = (
  refl,
  any_freed_again_lem [] es,
  refl,
  ground (arith, any_never_allocated_le [] [] es tt (λ a m. m)),
)
