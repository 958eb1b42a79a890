-- ===== src/Base/Hex.antt =====
-- Numbers in hexadecimal.
use Prim.Native.Nat.{ℕ, zero, suc, ◌+◌, ◌-◌, ◌/◌, ◌%◌, max}
use mathlib.Core.Path.{◌≡◌, refl}
use mathlib.Core.List.{[], ◌∷◌, ◌++◌}
use recompile.Base.Tests.{ltb, if◌then◌else◌}
use recompile.Base.Strings.{Text, codes}

unfoldable pub hex_digit : ℕ → ℕ
hex_digit n = if ltb n 10 then b'0' + n else b'a' + n - 10

-- The last `k` digits of a number in hexadecimal; `{n:016x}` with `k = 16` for n < 2^64.
unfoldable pub hex : ℕ → ℕ → Text
unfolding hex_digit
hex zero n = []
hex (suc k) n = hex k (n / 16) ++ hex_digit (n % 16) ∷ []

-- How many digits a number below 16^fuel has, 1 for 0.
hex_width : ℕ → ℕ → ℕ
hex_width zero n = 1
hex_width (suc fuel) n = let more = 1 + hex_width fuel (n / 16) in if ltb n 16 then 1 else more

-- `{n:0kx}` of an unsigned 64-bit number: at least `k` digits, and no digit is lost.
unfoldable pub lower_hex : ℕ → ℕ → Text
unfolding hex hex_width
lower_hex k n = hex (max k (hex_width 16 n)) n

lower_hex_test :
    (lower_hex 4 0x2f ≡ codes "002f")
    × (lower_hex 4 0x12345 ≡ codes "12345")
    × (lower_hex 8 0xffffffffffffffff ≡ codes "ffffffffffffffff")
unfolding lower_hex
lower_hex_test = (refl, refl, refl)
