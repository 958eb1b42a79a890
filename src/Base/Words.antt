-- ===== src/Base/Words.antt =====
-- Words, characters and case: further `str` methods that the program calls.
use Prim.Native.Nat.{ℕ, ◌+◌, ◌-◌}
use mathlib.Core.Path.{◌≡◌, refl}
use mathlib.Core.Bool.{Bool, ◌&&◌, ◌||◌, not}
use mathlib.Core.Option.{Option, none, some}
use mathlib.Core.List.{List, [], ◌∷◌, map}
use recompile.Base.Tests.{leb, ltb, if◌then◌else◌, opt_map}
use recompile.Base.Strings.{Text, codes, text_eq}
use recompile.Base.Lists.{length, drop}
use recompile.Base.Scan.{is_whitespace, trim_start_of, trim_end_of}

-- `s.ends_with(p)`
abbrev pub ends_with : Text → Text → Bool
ends_with p s = text_eq (drop (length s - length p) s) p && not (ltb (length s) (length p))

-- A word in front of the words behind it, unless it is empty.
add_word : Text → List Text → List Text
add_word [] ws = ws
add_word (c ∷ w) ws = (c ∷ w) ∷ ws

-- The text up to the first whitespace, and the words behind that.
cut_word : Text → Text × List Text
unfolding add_word
cut_word [] = ([], [])
cut_word (c ∷ s) =
    let (w, ws) = cut_word s in if is_whitespace c then ([], add_word w ws) else (c ∷ w, ws)

-- `s.split_whitespace()`
unfoldable pub split_whitespace : Text → List Text
unfolding add_word cut_word
split_whitespace s = let (w, ws) = cut_word s in add_word w ws

-- `s.split_once(test)`
unfoldable pub split_once_at : (ℕ → Bool) → Text → Option (Text × Text)
split_once_at test [] = none
split_once_at test (c ∷ s) =
    let later = split_once_at test s in
    if test c then some ([], s) else opt_map (λ parts. (c ∷ parts.0, parts.1)) later

-- `s.trim_matches(test)`
abbrev pub trim_of : (ℕ → Bool) → Text → Text
trim_of test s = trim_end_of test (trim_start_of test s)

abbrev pub is_ascii_digit : ℕ → Bool
is_ascii_digit c = leb b'0' c && leb c b'9'

abbrev pub is_ascii_hexdigit : ℕ → Bool
is_ascii_hexdigit c = is_ascii_digit c || (leb b'a' c && leb c b'f') || (leb b'A' c && leb c b'F')

-- `s.to_ascii_lowercase()`
abbrev pub to_ascii_lowercase : Text → Text
to_ascii_lowercase s = map (λ c. if leb b'A' c && leb c b'Z' then c + 32 else c) s

words_test :
    (split_whitespace (codes "  a bc\td ") ≡ codes "a" ∷ codes "bc" ∷ codes "d" ∷ [])
    × (split_once_at is_whitespace (codes "rip  0x1") ≡ some (codes "rip", codes " 0x1"))
    × (to_ascii_lowercase (codes "Null Pointer 7") ≡ codes "null pointer 7")
unfolding split_whitespace split_once_at is_whitespace
words_test = (refl, refl, refl)
