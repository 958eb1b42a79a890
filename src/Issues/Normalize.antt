-- ===== src/Issues/Normalize.antt =====
-- recompile/rerun/src/issue_groups.rs: making source locations, stack frames and messages
-- independent of addresses and process ids.
pub mod Panics
use recompile.Base.{
  ℕ, zero, suc, ◌+◌, ◌-◌, ◌≡◌, refl, ◌&&◌, ◌||◌, ◌==◌, ◌>>=◌, not, Bool, Option, none, some, List,
  [], ◌∷◌, ◌++◌, Text, codes, text_eq, text_len, all, length, take, drop, ltb, is_some, opt_map,
  rsplit_once, if◌then◌else◌,
}
use recompile.Base.Scan.{trim, starts_with, strip_prefix, contains, split_once, join}
use recompile.Base.Words.{ends_with, split_whitespace, trim_of, is_ascii_digit, is_ascii_hexdigit}
use recompile.Escalate.Result.{is_empty}

unfoldable pub stable_non_unknown : Text → Bool
unfolding text_eq
stable_non_unknown value =
    let value' = trim value in
    not (is_empty value')
    && not (text_eq value' (codes "unknown"))
    && not (text_eq value' (codes "??"))
    && not (starts_with (codes "??:") value')

unfoldable pub numeric_suffix : Text → Option (Text × Text)
unfolding rsplit_once
numeric_suffix value = rsplit_once b':' value >>= λ parts.
    if not (is_empty parts.1) && all is_ascii_digit parts.1 then some parts else none

unfoldable pub normalize_source_location : Text → Option Text
normalize_source_location location =
    let location' = trim location in
    if stable_non_unknown location'
    then (numeric_suffix location' >>= λ outer. elim (numeric_suffix outer.0) [
      | none ↦ some (outer.0 ++ b':' ∷ outer.1)
      | some (file, line) ↦ some (file ++ b':' ∷ line)
    ])
    else none

unfoldable pub normalize_pid_prefix : Text → Option Text
unfolding strip_prefix split_once
normalize_pid_prefix token = strip_prefix (codes "==") token >>= λ rest.
    split_once (codes "==") rest >>= λ parts.
    if is_empty parts.0 || not (all is_ascii_digit parts.0)
    then none
    else some (codes "==PID==" ++ parts.1)

-- `s.replace(pattern, with)` for a pattern that is not empty, with the number of characters that
-- belong to an occurrence already replaced.
replace_from : ℕ → Text → Text → Text → Text
replace_from skip pattern new [] = []
replace_from (suc skip) pattern new (c ∷ s) = replace_from skip pattern new s
replace_from zero pattern new (c ∷ s) =
    let behind = replace_from (length pattern - 1) pattern new s in
    let later = replace_from zero pattern new s in
    if starts_with pattern (c ∷ s) then new ++ behind else c ∷ later

unfoldable pub replace : Text → Text → Text → Text
unfolding replace_from
replace s pattern new = replace_from 0 pattern new s

-- `token.trim_matches(|ch| ch == ',' || ch == ';' || ch == ':')`
abbrev pub trim_marks : Text → Text
trim_marks token = trim_of (λ c. c == b',' || c == b';' || c == b':') token

-- `&s[2..s.len().saturating_sub(2)]`, for text with ASCII characters there; it panics for less
-- than 4 bytes.
unfoldable pub inner_slice : Text → Option Text
unfolding text_len
inner_slice s = if ltb (text_len s - 2) 2 then none else some (drop 2 (take (length s - 2) s))

unfoldable pub normalize_volatile_token : Text → Option Text
unfolding replace inner_slice
normalize_volatile_token token =
    let trimmed = trim_marks token in
    if starts_with (codes "0x") trimmed && all is_ascii_hexdigit (drop 2 trimmed)
    then some (replace token trimmed (codes "0xADDR"))
    else elim (normalize_pid_prefix trimmed) [
      | some normalized_pid ↦ some (replace token trimmed normalized_pid)
      | none ↦
          if starts_with (codes "==") trimmed && ends_with (codes "==") trimmed
          then opt_map
              (λ inner.
                if all is_ascii_digit inner then replace token trimmed (codes "==PID==") else token)
              (inner_slice trimmed)
          else some token
    ]

-- `.map(f).collect()`, for a function that may panic.
unfoldable pub map_all {ℓ κ} : {A : Type ℓ} {B : Type κ} → (A → Option B) → List A → Option (List B)
map_all f [] = some []
map_all f (x ∷ xs) = let rest = map_all f xs in do y ← f x; ys ← rest; some (y ∷ ys)

unfoldable pub normalize_volatile_tokens : Text → Option Text
unfolding split_whitespace join
normalize_volatile_tokens value =
    opt_map (join (b' ' ∷ [])) (map_all normalize_volatile_token (split_whitespace value))

-- `s.rfind(c)`, counted in characters.
unfoldable pub rfind : ℕ → Text → Option ℕ
rfind c [] = none
rfind c (x ∷ s) = elim (rfind c s) [
  | some n ↦ some (suc n)
  | none ↦ if x == c then some 0 else none
]

-- The location between the last parentheses.
unfoldable pub parenthesized_location : Text → Option Text
parenthesized_location frame = rfind b'(' frame >>= λ start. rfind b')' frame >>= λ end.
    if ltb start end then normalize_source_location (drop (start + 1) (take end frame)) else none

-- A panic, or the site if there is one.
unfoldable pub normalize_stack_site : Text → Option (Option Text)
unfolding contains
normalize_stack_site frame =
    let frame' = trim frame in
    if not (stable_non_unknown frame') || starts_with (codes "0x") frame'
    then some none
    else elim (parenthesized_location frame') [
      | some location ↦ some (some location)
      | none ↦
          if contains (codes "+0x") frame'
          then some none
          else elim (normalize_source_location frame') [
            | some location ↦ some (some location)
            | none ↦ opt_map some (normalize_volatile_tokens frame')
          ]
    ]

normalize_test :
    (normalize_volatile_tokens (codes "==12==ERROR:  at 0x1f, x")
      ≡ some (codes "==PID==ERROR: at 0xADDR, x"))
    × (normalize_stack_site (codes "main (a.c:10:5)") ≡ some (some (codes "a.c:10")))
    × (normalize_stack_site (codes "f+0x12") ≡ some none)
    × (normalize_stack_site (codes "a == b") ≡ none)
unfolding normalize_volatile_tokens normalize_stack_site map_all recompile.Base.Scan.is_whitespace
    normalize_volatile_token recompile.Base.Scan.trim_end_of recompile.Base.Scan.trim_start_of
    normalize_pid_prefix stable_non_unknown parenthesized_location rfind normalize_source_location
    numeric_suffix
normalize_test = (refl, refl, refl, refl)
