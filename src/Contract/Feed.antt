-- ===== src/Contract/Feed.antt =====
-- Reading back what the oracle wrote (contract/oracle.go) and when a price is accepted
-- (contract/arbitration.go, `PriceFrom`).
use hedge_arkade.Common.{
  length, drop, Bytes, ok, ℕ, zero, suc, ◌*◌, ◌/◌, ◌^◌, ◌≤◌, ◌<◌, ◌≡◌, refl, ◌↔◌, true, [], ◌++◌,
  arith,
}
use hedge_arkade.Common.Int.{ℤ, pos, uint64_mod}
use native.Mathlib.Nat.{pow-suc, mul_comm}
use hedge_arkade.Contract.Library.{Library}
use hedge_arkade.Contract.Oracle.{le_bytes, le_value, oracle_message, field_at, price_from}
use hedge_arkade.Contract.Fields.{length-oracle_message}

pow-suc_256 : (n : ℕ) → 256 ^ suc n ≡ 256 * 256 ^ n
pow-suc_256 n = rw (pow-suc 256 n) (mul_comm (256 ^ n) 256)

pub le_value-le_bytes :
    (n v : ℕ) (rest : Bytes) → v < 256 ^ n → le_value n (le_bytes n v ++ rest) ≡ v
unfolding le_value le_bytes
le_value-le_bytes zero v rest h = omega arith
le_value-le_bytes (suc n) v rest h =
    rw (le_value-le_bytes n (v / 256) rest (omega (arith, pow-suc_256 n))) (omega arith)

message_fields :
    (ts sq pr : ℕ)
    → (drop 8 (oracle_message ts sq pr) ≡ le_bytes 8 sq ++ le_bytes 8 pr)
      × (drop 16 (oracle_message ts sq pr) ≡ le_bytes 8 pr ++ [])
unfolding oracle_message le_bytes
message_fields ts sq pr = (refl, refl)

-- Every message has 24 bytes, and fields that fit in 64 bits read back as they were written.
pub oracle_message_round_trip :
    (ts sq pr : ℕ)
    → ts < uint64_mod
    → sq < uint64_mod
    → pr < uint64_mod
    → (length (oracle_message ts sq pr) ≡ 24)
      × (field_at 0 (oracle_message ts sq pr) ≡ ts)
      × (field_at 8 (oracle_message ts sq pr) ≡ sq)
      × (field_at 16 (oracle_message ts sq pr) ≡ pr)
unfolding field_at
oracle_message_round_trip ts sq pr hts hsq hpr =
    let (behind, last) = message_fields ts sq pr in
    (
      length-oracle_message ts sq pr,
      unfold oracle_message in le_value-le_bytes 8 ts (le_bytes 8 sq ++ le_bytes 8 pr) hts,
      rw behind (le_value-le_bytes 8 sq (le_bytes 8 pr) hsq),
      rw last (le_value-le_bytes 8 pr [] hpr),
    )

-- A price is read exactly from 24 bytes that the contract's oracle key signed and whose price field
-- is between 1 and 2 ^ 62, and it is that field.
price_from_iff :
    (lib : Library) (key message signature : Bytes) (price : ℤ)
    → (price_from lib key message signature ≡ ok price) ↔ (
        (length message ≡ 24)
        × (lib.key_parses key ≡ true)
        × (lib.sig_parses signature ≡ true)
        × (lib.verify key (lib.sha256 message) signature ≡ true)
        × (0 < field_at 16 message)
        × (field_at 16 message ≤ 2 ^ 62)
        × (price ≡ pos (field_at 16 message)))
unfolding price_from
price_from_iff lib key message signature price = (λ h. ground arith, λ h. ground arith)
