-- ===== src/Issues/Normalize/Panics.antt =====
-- Where making a message independent of process ids could panic.
use mathlib.Core.Path.{subst}
use recompile.Base.{
  ◌≤◌, sym, ap, ◌∙◌, text_eq_iff, ℕ, ◌≡◌, refl, ◌∷◌, [], ◌&&◌, ◌||◌, not, Bool, true, false, Option,
  none, List, Text, codes, text_eq, text_len, arith, all, is_some, Bool-cases, inl, inr, utf8_width,
}
use recompile.Base.Scan.{starts_with, strip_prefix, split_once}
use recompile.Base.Words.{ends_with, split_whitespace}
use recompile.Issues.Normalize.{
  trim_marks, inner_slice, normalize_pid_prefix, normalize_volatile_token,
  normalize_volatile_tokens, map_all,
}

-- Two or three equals signs.
abbrev pub is_bare : Text → Bool
is_bare s = text_eq s (codes "==") || text_eq s (codes "===")

slice_some : (s : Text) → 4 ≤ text_len s → is_some (inner_slice s) ≡ true
unfolding inner_slice
slice_some s h = ground arith

width-positive : (c : ℕ) → 1 ≤ utf8_width c
width-positive c = ground arith

four_long : (a b c d : ℕ) (s : Text) → 4 ≤ text_len (a ∷ b ∷ c ∷ d ∷ s)
unfolding text_len
four_long a b c d s =
    omega (arith, width-positive a, width-positive b, width-positive c, width-positive d)

four_plain : (a b c d : ℕ) (s : Text) → is_bare (a ∷ b ∷ c ∷ d ∷ s) ≡ false
unfolding text_eq
four_plain a b c d s = ground arith

-- Between two pairs of equals signs there is a slice, unless they overlap.
inner_slice-bare :
    (s : Text)
    → (starts_with (codes "==") s && ends_with (codes "==") s) ≡ true
    → is_some (inner_slice s) ≡ not (is_bare s)
unfolding inner_slice text_len text_eq strip_prefix
inner_slice-bare [] h = ground arith
inner_slice-bare (a ∷ []) h = ground arith
inner_slice-bare (a ∷ b ∷ []) h = ground arith
inner_slice-bare (a ∷ b ∷ c ∷ []) h = ground arith
inner_slice-bare (a ∷ b ∷ c ∷ d ∷ s) h =
    slice_some (a ∷ b ∷ c ∷ d ∷ s) (four_long a b c d s) ∙ sym (ap not (four_plain a b c d s))

-- What is tried before the slice.
abbrev Plain : Text → Type 0
Plain s =
    (starts_with (codes "0x") s ≡ false)
    × (normalize_pid_prefix s ≡ none)
    × ((starts_with (codes "==") s && ends_with (codes "==") s) ≡ true)

two-Plain : Plain (codes "==")
unfolding text_eq normalize_pid_prefix strip_prefix split_once
two-Plain = (refl, refl, refl)

three-Plain : Plain (codes "===")
unfolding text_eq normalize_pid_prefix strip_prefix split_once
three-Plain = (refl, refl, refl)

bare-Plain : (s : Text) → is_bare s ≡ true → Plain s
bare-Plain s h = elim (Bool-cases (text_eq s (codes "=="))) [
  | inl two ↦ subst Plain (sym ((text_eq_iff s (codes "==")).0 two)) two-Plain
  | inr other ↦ subst Plain (sym ((text_eq_iff s (codes "===")).0 (ground arith))) three-Plain
]

token_some :
    (token : Text) → is_some (normalize_volatile_token token) ≡ not (is_bare (trim_marks token))
unfolding normalize_volatile_token
token_some token =
    ground (arith, bare-Plain (trim_marks token), inner_slice-bare (trim_marks token))

map_all-some {ℓ κ} :
    {A : Type ℓ} {B : Type κ} (f : A → Option B) (xs : List A)
    → is_some (map_all f xs) ≡ all (λ x. is_some (f x)) xs
unfolding map_all
map_all-some f [] = refl
map_all-some f (x ∷ xs) = ground (arith, map_all-some f xs)

all-congr {ℓ} :
    {A : Type ℓ} (p q : A → Bool) (xs : List A) → ((x : A) → p x ≡ q x) → all p xs ≡ all q xs
all-congr p q [] h = refl
all-congr p q (x ∷ xs) h = rw (h x, all-congr p q xs h) refl

-- A message is normalized without a panic exactly if none of its words is two or three equals
-- signs, apart from commas, semicolons and colons around them.
pub normalize_tokens_panic :
    (value : Text)
    → is_some (normalize_volatile_tokens value)
      ≡ all (λ token. not (is_bare (trim_marks token))) (split_whitespace value)
unfolding normalize_volatile_tokens
normalize_tokens_panic value =
    let words = split_whitespace value in
    ground (
      arith,
      map_all-some normalize_volatile_token words,
      all-congr (λ token. is_some (normalize_volatile_token token))
          (λ token. not (is_bare (trim_marks token))) words token_some,
    )
