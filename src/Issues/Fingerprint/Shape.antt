-- ===== src/Issues/Fingerprint/Shape.antt =====
-- The form of fingerprints and of the ids of groups.
use Prim.Native.Nat.{bit_xor}
use recompile.Base.{
  all-append, utf8_width, ◌-◌, ℕ, zero, suc, ◌*◌, ◌/◌, ◌%◌, ◌<◌, ◌≤◌, ◌≡◌, refl, ap, ◌∙◌, ◌∷◌, [],
  ◌++◌, ◌&&◌, ◌||◌, Bool, true, none, some, List, Text, codes, IsAscii, all, arith, min, take,
  length, length-append, leb, opt_map, u64_mod, text_len, slice_to, rsplit_once,
}
use recompile.Base.Scan.{join}
use recompile.Issues.Inputs.{IssueFingerprintInputs}
use recompile.Base.Hex.{hex_digit, hex}
use recompile.Issues.Fingerprint.{
  as_bytes, hash_bytes, fnv1a64, fields, issue_fingerprint, fingerprint_suffix, issue_group_id,
}

hash_bytes-lt : (bytes : List ℕ) (hash : ℕ) → hash < u64_mod → hash_bytes hash bytes < u64_mod
unfolding hash_bytes
hash_bytes-lt [] hash h = h
hash_bytes-lt (byte ∷ bytes) hash h =
    hash_bytes-lt bytes (bit_xor hash byte * 0x100000001b3 % u64_mod) (omega arith)

fnv1a64-lt : (value : Text) → fnv1a64 value < u64_mod
unfolding fnv1a64
fnv1a64-lt value = hash_bytes-lt (as_bytes value) 0xcbf29ce484222325 (omega arith)

-- A digit as `{:x}` prints it.
abbrev pub is_hex_digit : ℕ → Bool
is_hex_digit c = (leb b'0' c && leb c b'9') || (leb b'a' c && leb c b'f')

hex_digit-digit : (n : ℕ) → n < 16 → is_hex_digit (hex_digit n) ≡ true
unfolding hex_digit
hex_digit-digit n h = ground arith

hex-digits : (k n : ℕ) → all is_hex_digit (hex k n) ≡ true
unfolding hex
hex-digits zero n = refl
hex-digits (suc k) n = ground (
  arith,
  all-append is_hex_digit (hex k (n / 16)) (hex_digit (n % 16) ∷ []),
  hex-digits k (n / 16),
  hex_digit-digit (n % 16) (omega arith),
)

length-hex : (k n : ℕ) → length (hex k n) ≡ k
unfolding hex
length-hex zero n = refl
length-hex (suc k) n =
    omega (arith, length-append (hex k (n / 16)) (hex_digit (n % 16) ∷ []), length-hex k (n / 16))

digits-IsAscii : (s : Text) → all is_hex_digit s ≡ true → IsAscii s
digits-IsAscii [] h = tt
digits-IsAscii (c ∷ s) h = (ground arith, digits-IsAscii s (ground arith))

rsplit_once-digits : (s : Text) → all is_hex_digit s ≡ true → rsplit_once b'-' s ≡ none
unfolding rsplit_once
rsplit_once-digits [] h = refl
rsplit_once-digits (c ∷ s) h = ground (arith, rsplit_once-digits s (ground arith))

slice_to-take : (n : ℕ) (s : Text) → IsAscii s → n ≤ length s → slice_to n s ≡ some (take n s)
unfolding slice_to
slice_to-take zero [] a h = refl
slice_to-take (suc n) [] a h = absurd (omega arith)
slice_to-take zero (c ∷ s) a h = ground arith
slice_to-take (suc n) (c ∷ s) a h =
    let one : suc n - utf8_width c ≡ n = ground (arith, a.0) in
    let rest = ap (λ m. slice_to m s) one ∙ slice_to-take n s a.1 (omega arith) in
    ground (arith, a.0, rest)

text_len_ascii : (s : Text) → IsAscii s → text_len s ≡ length s
unfolding text_len
text_len_ascii [] a = refl
text_len_ascii (c ∷ s) a = ground (arith, text_len_ascii s a.1)

-- What stands behind the dash of the prefix.
suffix_of_prefixed :
    (digits : Text)
    → all is_hex_digit digits ≡ true
    → fingerprint_suffix (codes "re-issue-v1-" ++ digits) ≡ digits
unfolding fingerprint_suffix rsplit_once
suffix_of_prefixed digits h = rw (rsplit_once-digits digits h) refl

append-IsAscii : (s t : Text) → IsAscii s → IsAscii t → IsAscii (s ++ t)
append-IsAscii [] t a b = b
append-IsAscii (c ∷ s) t a b = (a.0, append-IsAscii s t a.1 b)

prefixed-IsAscii : (digits : Text) → IsAscii digits → IsAscii (codes "re-issue-v1-" ++ digits)
prefixed-IsAscii digits a = append-IsAscii (codes "re-issue-v1-") digits (ground arith) a

prefixed-id :
    (digits : Text)
    → all is_hex_digit digits ≡ true
    → length digits ≡ 16
    → issue_group_id (codes "re-issue-v1-" ++ digits) ≡ some (codes "IG-" ++ take 12 digits)
unfolding issue_group_id
prefixed-id digits h long =
    let ascii = digits-IsAscii digits h in
    let short : min (text_len digits) 12 ≡ 12 = omega (arith, text_len_ascii digits ascii, long) in
    ap (λ suffix. opt_map (λ s. codes "IG-" ++ s) (slice_to (min (text_len suffix) 12) suffix))
      (suffix_of_prefixed digits h)
    ∙ ap (λ n. opt_map (λ s. codes "IG-" ++ s) (slice_to n digits)) short
    ∙ ap (opt_map (λ s. codes "IG-" ++ s)) (slice_to-take 12 digits ascii (omega (arith, long)))

-- The digits of a fingerprint.
abbrev pub hash_of : IssueFingerprintInputs → ℕ
hash_of inputs = fnv1a64 (join (0x1f ∷ []) (fields inputs))

-- A fingerprint is ASCII: the prefix and the sixteen hexadecimal digits of a number below 2^64.
-- The id of its group is made without a panic, of the first twelve of the digits.
pub fingerprint-Shape :
    (inputs : IssueFingerprintInputs)
    → let digits = hex 16 (hash_of inputs) in
      (issue_fingerprint inputs ≡ codes "re-issue-v1-" ++ digits)
      × (length digits ≡ 16)
      × (all is_hex_digit digits ≡ true)
      × (hash_of inputs < u64_mod)
      × IsAscii (issue_fingerprint inputs)
      × (issue_group_id (issue_fingerprint inputs) ≡ some (codes "IG-" ++ take 12 digits))
unfolding issue_fingerprint
fingerprint-Shape inputs =
    let digits = hex 16 (hash_of inputs) in
    let ok = hex-digits 16 (hash_of inputs) in
    let ascii = digits-IsAscii digits ok in
    let enough = length-hex 16 (hash_of inputs) in
    (
      refl,
      enough,
      ok,
      fnv1a64-lt (join (0x1f ∷ []) (fields inputs)),
      prefixed-IsAscii digits ascii,
      prefixed-id digits ok enough,
    )
