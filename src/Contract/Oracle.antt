-- ===== src/Contract/Oracle.antt =====
-- The oracle's 24-byte message (contract/oracle.go) and the reading of its price
-- (contract/arbitration.go, `PriceFrom`). `binary.LittleEndian` is written out byte by byte.
use hedge_arkade.Common.{
  ltb, ◌==◌, length, drop, Bytes, ◌>>◌, ℕ, zero, suc, ◌+◌, ◌*◌, ◌/◌, ◌%◌, ◌^◌, not, ◌||◌, [], ◌∷◌,
  ◌++◌, fail_if, ok,
}
use hedge_arkade.Common.Int.{ℤ, pos}
use hedge_arkade.Contract.Library.{Library}
use hedge_arkade.Contract.Errors

-- `binary.LittleEndian.PutUint64` for n = 8: the low n bytes, the lowest first.
unfoldable pub le_bytes : ℕ → ℕ → Bytes
le_bytes zero v = []
le_bytes (suc n) v = (v % 256) ∷ le_bytes n (v / 256)

-- `binary.LittleEndian.Uint64` reads the first 8 bytes.
unfoldable pub le_value : ℕ → Bytes → ℕ
le_value zero bs = 0
le_value (suc n) [] = 0
le_value (suc n) (b ∷ bs) = b + 256 * le_value n bs

abbrev pub oracle_timestamp_offset : ℕ
oracle_timestamp_offset = 0

abbrev pub oracle_sequence_offset : ℕ
oracle_sequence_offset = 8

abbrev pub oracle_price_offset : ℕ
oracle_price_offset = 16

abbrev pub oracle_field_size : ℕ
oracle_field_size = 8

abbrev pub oracle_message_length : ℕ
oracle_message_length = 24

-- `OracleMessage`: the three fields one behind the other.
unfoldable pub oracle_message : ℕ → ℕ → ℕ → Bytes
oracle_message timestamp sequence price =
    le_bytes 8 timestamp ++ (le_bytes 8 sequence ++ le_bytes 8 price)

-- One field of a message, as `PriceFrom` reads the price.
unfoldable pub field_at : ℕ → Bytes → ℕ
field_at offset message = le_value oracle_field_size (drop offset message)

-- `PriceFrom`, over the contract's oracle key.
unfoldable pub price_from : Library → Bytes → Bytes → Bytes → Errors.Outcome ℤ
price_from lib key message signature = do
  fail_if (not (length message == oracle_message_length)) Errors.message_length
  fail_if (not (lib.key_parses key)) Errors.bad_oracle_key
  fail_if (not (lib.sig_parses signature)) Errors.bad_signature
  fail_if (not (lib.verify key (lib.sha256 message) signature)) Errors.oracle_did_not_sign
  let price = field_at oracle_price_offset message
  fail_if (price == 0 || ltb (2 ^ 62) price) Errors.price_out_of_range
  ok (pos price)
