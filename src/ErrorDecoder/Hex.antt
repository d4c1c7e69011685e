-- ===== src/ErrorDecoder/Hex.antt =====
-- `hex.EncodeToString` and `hex.DecodeString`, which error_decoder.go calls.
use Prim.Native.Nat.{◌/◌}
use walletarmy.Common.{
  ℕ, ◌+◌, ◌-◌, ◌*◌, ◌%◌, ◌<◌, ◌≡◌, refl, ap, ◌&&◌, Option, none, some, [], ◌∷◌, All, ltb, leb,
  arith, if◌then◌else◌,
}
use walletarmy.Common.Text.{Text}

abbrev pub to_hex : ℕ → ℕ
to_hex n = if ltb n 10 then n + b'0' else n - 10 + b'a'

abbrev pub from_hex : ℕ → Option ℕ
from_hex c =
    if leb b'0' c && leb c b'9'
    then some (c - b'0')
    else if leb b'a' c && leb c b'f'
    then some (c - b'a' + 10)
    else if leb b'A' c && leb c b'F'
    then some (c - b'A' + 10)
    else none

unfoldable pub hex_encode : Text → Text
hex_encode [] = []
hex_encode (b ∷ bs) = to_hex (b / 16) ∷ to_hex (b % 16) ∷ hex_encode bs

abbrev pub byte_of : Option ℕ → Option ℕ → Option ℕ
byte_of (some high) (some low) = some (high * 16 + low)
byte_of (some high) none = none
byte_of none low = none

abbrev pub and_then : Option ℕ → Option Text → Option Text
and_then (some b) (some bs) = some (b ∷ bs)
and_then (some b) none = none
and_then none bs = none

-- `none`: a byte that is no digit, or an odd number of them.
unfoldable pub hex_decode : Text → Option Text
hex_decode [] = some []
hex_decode (c ∷ []) = none
hex_decode (c ∷ d ∷ cs) = and_then (byte_of (from_hex c) (from_hex d)) (hex_decode cs)

from-to_hex : (n : ℕ) → n < 16 → from_hex (to_hex n) ≡ some n
from-to_hex n h = ground arith

abbrev pub IsBytes : Text → Type 0
IsBytes = All (λ b. b < 256)

byte_parts : (b : ℕ) → b / 16 * 16 + b % 16 ≡ b
byte_parts b = omega arith

and_then-some :
    (x y : Option ℕ) (r : Option Text) (high low b : ℕ) (bs : Text)
    → x ≡ some high
    → y ≡ some low
    → high * 16 + low ≡ b
    → r ≡ some bs
    → and_then (byte_of x y) r ≡ some (b ∷ bs)
and_then-some x y r high low b bs hx hy hb hr = rw (hx, hy, hr) (ap (λ n. some (n ∷ bs)) hb)

pub hex_decode-hex_encode : (bs : Text) → IsBytes bs → hex_decode (hex_encode bs) ≡ some bs
unfolding hex_decode hex_encode
hex_decode-hex_encode [] h = refl
hex_decode-hex_encode (b ∷ bs) (hb, hs) =
    and_then-some (from_hex (to_hex (b / 16))) (from_hex (to_hex (b % 16)))
      (hex_decode (hex_encode bs)) (b / 16) (b % 16) b bs (from-to_hex (b / 16) (omega (arith, hb)))
      (from-to_hex (b % 16) (omega arith)) (byte_parts b) (hex_decode-hex_encode bs hs)
