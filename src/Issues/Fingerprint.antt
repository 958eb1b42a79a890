-- ===== src/Issues/Fingerprint.antt =====
-- recompile/rerun/src/issue_groups.rs: the fingerprint of the inputs, and the id of a group.
pub mod Shape
pub mod Native
use Prim.Native.Nat.{bit_xor}
use recompile.Base.{
  ℕ, zero, suc, ◌≡◌, refl, ◌-◌, ◌+◌, ◌*◌, ◌/◌, ◌%◌, ◌>>=◌, ◌∷◌, [], ◌++◌, Bool, Option, none, some,
  List, Text, codes, is_some, min, ltb, opt_map, unwrap_or, if◌then◌else◌, u64_mod, text_len,
  slice_to, rsplit_once,
}
use recompile.Base.Scan.{join}
use recompile.Base.Decimal.{decimal}
use recompile.Base.Hex.{hex}
use recompile.Issues.Inputs.{IssueFingerprintInputs, uses_stable_native_memory_identity}

-- The UTF-8 bytes of a code point.
unfoldable pub utf8 : ℕ → List ℕ
utf8 c =
    if ltb c 0x80
    then c ∷ []
    else if ltb c 0x800
    then (0xc0 + c / 0x40) ∷ (0x80 + c % 0x40) ∷ []
    else if ltb c 0x10000
    then (0xe0 + c / 0x1000) ∷ (0x80 + c / 0x40 % 0x40) ∷ (0x80 + c % 0x40) ∷ []
    else (0xf0 + c / 0x40000)
      ∷ (0x80 + c / 0x1000 % 0x40)
      ∷ (0x80 + c / 0x40 % 0x40)
      ∷ (0x80 + c % 0x40)
      ∷ []

-- `s.as_bytes()`
unfoldable pub as_bytes : Text → List ℕ
unfolding utf8
as_bytes [] = []
as_bytes (c ∷ s) = utf8 c ++ as_bytes s

-- The loop over the bytes.
unfoldable pub hash_bytes : ℕ → List ℕ → ℕ
hash_bytes hash [] = hash
hash_bytes hash (byte ∷ bytes) = hash_bytes (bit_xor hash byte * 0x100000001b3 % u64_mod) bytes

unfoldable pub fnv1a64 : Text → ℕ
unfolding as_bytes hash_bytes
fnv1a64 value = hash_bytes 0xcbf29ce484222325 (as_bytes value)

-- `value.map(|v| v.to_string()).unwrap_or_default()`
abbrev pub size_text : Option ℕ → Text
size_text none = []
size_text (some n) = decimal n

-- `""` for a native memory identity, else the text if there is one.
abbrev pub unless : Bool → Option Text → Text
unless native value = if native then [] else unwrap_or value []

unfoldable pub fields : IssueFingerprintInputs → List Text
unfolding uses_stable_native_memory_identity
fields inputs =
    let native_memory_identity = uses_stable_native_memory_identity inputs in
    (inputs.class
      ∷ inputs.operation
      ∷ unless native_memory_identity inputs.source_path
      ∷ unless native_memory_identity inputs.call_site
      ∷ unless native_memory_identity inputs.alloc_site
      ∷ unless native_memory_identity inputs.free_site
      ∷ size_text inputs.access_size
      ∷ size_text inputs.alloc_size
      ∷ size_text inputs.alloc_offset
      ∷ [])
    ++ (if native_memory_identity
        then codes "native_memory_identity" ∷ unwrap_or inputs.binary_identity [] ∷ []
        else [])
    ++ (if is_some inputs.tool
        then unwrap_or inputs.tool []
          ∷ unwrap_or inputs.tool_summary []
          ∷ unwrap_or inputs.binary_identity []
          ∷ []
        else [])

unfoldable pub issue_fingerprint : IssueFingerprintInputs → Text
unfolding join fields fnv1a64 hex
issue_fingerprint inputs =
    codes "re-issue-v1-" ++ hex 16 (fnv1a64 (join (0x1f ∷ []) (fields inputs)))

-- What stands behind the last dash, or all.
fingerprint_suffix : Text → Text
fingerprint_suffix fingerprint = elim (rsplit_once b'-' fingerprint) [
  | some (head, value) ↦ value
  | none ↦ fingerprint
]

unfoldable pub issue_group_id : Text → Option Text
unfolding fingerprint_suffix
issue_group_id fingerprint =
    let suffix = fingerprint_suffix fingerprint in
    opt_map (λ s. codes "IG-" ++ s) (slice_to (min (text_len suffix) 12) suffix)

fnv1a64_test : (fnv1a64 [] ≡ 0xcbf29ce484222325) × (fnv1a64 (codes "a") ≡ 0xaf63dc4c8601ec8c)
unfolding fnv1a64
fnv1a64_test = (refl, refl)
