-- ===== src/Remote/Hex.antt =====
-- Go's `encoding/hex`, as the two ends of the oracle's HTTP interface use it: two lower-case digits
-- for each byte on the way out, either case on the way in.
use hedge_arkade.Common.{
  ltb, leb, if◌then◌else◌, Bytes, ℕ, ◌+◌, ◌-◌, ◌*◌, ◌/◌, ◌%◌, ◌<◌, ◌≡◌, refl, ◌&&◌, Option, none,
  some, [], ◌∷◌, arith,
}

-- a digit's character
unfoldable pub hex_char : ℕ → ℕ
hex_char d = if ltb d 10 then d + 48 else d + 87

-- `reverseHexTable`
unfoldable pub hex_digit : ℕ → Option ℕ
hex_digit c =
    if leb 48 c && leb c 57
    then some (c - 48)
    else if leb 97 c && leb c 102
    then some (c - 87)
    else if leb 65 c && leb c 70
    then some (c - 55)
    else none

-- `hex.EncodeToString`
unfoldable pub encode_hex : Bytes → Bytes
encode_hex [] = []
encode_hex (b ∷ bs) = hex_char (b / 16) ∷ hex_char (b % 16) ∷ encode_hex bs

abbrev joined : Option ℕ → Option ℕ → Option Bytes → Option Bytes
joined (some high) (some low) (some bs) = some ((high * 16 + low) ∷ bs)
joined _ _ _ = none

-- `hex.DecodeString`: a character that is no digit, and a digit without its pair, are errors.
unfoldable pub decode_hex : Bytes → Option Bytes
decode_hex [] = some []
decode_hex (c ∷ []) = none
decode_hex (c ∷ d ∷ cs) = joined (hex_digit c) (hex_digit d) (decode_hex cs)

-- Every item is a byte.
abbrev pub IsBytes : Bytes → Type 0
IsBytes [] = Unit
IsBytes (b ∷ bs) = (b < 256) × IsBytes bs

hex_digit-hex_char : (d : ℕ) → d < 16 → hex_digit (hex_char d) ≡ some d
unfolding hex_digit hex_char
hex_digit-hex_char d h = ground arith

pub decode_hex-encode_hex : (bs : Bytes) → IsBytes bs → decode_hex (encode_hex bs) ≡ some bs
unfolding decode_hex encode_hex
decode_hex-encode_hex [] h = refl
decode_hex-encode_hex (b ∷ bs) (h, hs) = ground (
  arith,
  hex_digit-hex_char (b / 16) (omega arith),
  hex_digit-hex_char (b % 16) (omega arith),
  decode_hex-encode_hex bs hs,
)
