-- ===== src/Publisher/Sequence.antt =====
-- The oracle's publications (service/internal/oracle/oracle.go) and the table that numbers them
-- (service/internal/postgres/oracle.go). The signing key is schnorr's: a function from a message to
-- its signature, or to nothing where signing fails.
use hedge_arkade.Common.{
  ltb, ◌==◌, if◌then◌else◌, Bytes, Result, err, ◌>>=◌, ◌>>◌, ℕ, ◌+◌, ◌-◌, ◌%◌, Option, none, some,
  List, [], ◌∷◌, fail_if, ok,
}
use hedge_arkade.Common.Int.{ℤ, pos, negsuc, ltb_ℤ, uint64_mod}
use hedge_arkade.Contract.Oracle.{oracle_message}

pub record Publication : Type 0 where
  pub sequence : ℕ
  pub timestamp : ℤ
  pub price : ℤ
  pub message : Bytes
  pub signature : Bytes

pub data FeedError : Type 0 where
  no_publications price_not_positive signing_failed : FeedError

-- `uint64(x)` of an `int64`
unfoldable pub to_uint64 : ℤ → ℕ
to_uint64 (pos n) = n % uint64_mod
to_uint64 (negsuc n) = uint64_mod - 1 - n % uint64_mod

-- `SetPrice`: the price behind it, or the refusal.
unfoldable pub set_price : ℤ → Result FeedError ℤ
set_price price = do fail_if (ltb_ℤ price (pos 1)) price_not_positive; ok price

-- `COALESCE(MAX(sequence), 0)`
unfoldable pub max_sequence : List Publication → ℕ
max_sequence [] = 0
max_sequence (p ∷ ps) =
    let rest = max_sequence ps in if ltb p.sequence rest then rest else p.sequence

-- `Publisher.sign`
unfoldable pub sign : (Bytes → Option Bytes) → ℕ → ℤ → ℤ → Result FeedError (Bytes × Bytes)
sign key sequence timestamp price =
    let message = oracle_message (to_uint64 timestamp) sequence (to_uint64 price) in
    elim (key message) [ none ↦ err signing_failed | some signature ↦ ok (message, signature) ]

-- `Append`: the lock makes it one step. The new row comes back with the table.
unfoldable pub append_row :
    (ℕ → ℤ → ℤ → Result FeedError (Bytes × Bytes))
    → ℤ
    → ℤ
    → List Publication
    → Result FeedError (Publication × List Publication)
append_row signer timestamp price rows = do
  let sequence = max_sequence rows + 1
  signed ← signer sequence timestamp price
  let p : Publication = record {
    sequence = sequence;
    timestamp = timestamp;
    price = price;
    message = signed.0;
    signature = signed.1;
  }
  ok (p, p ∷ rows)

-- `Publish`, at the clock's time and the publisher's price
unfoldable pub publish :
    (Bytes → Option Bytes)
    → ℤ
    → ℤ
    → List Publication
    → Result FeedError (Publication × List Publication)
publish key now price rows = append_row (sign key) now price rows

-- `At`: `WHERE sequence = $1`
unfoldable pub at_sequence : ℕ → List Publication → Result FeedError Publication
at_sequence sequence [] = err no_publications
at_sequence sequence (p ∷ ps) = if p.sequence == sequence then ok p else at_sequence sequence ps

-- `Latest`: `ORDER BY sequence DESC LIMIT 1`
unfoldable pub latest : List Publication → Result FeedError Publication
latest [] = err no_publications
latest (p ∷ ps) = elim (latest ps) [
  | err _ ↦ ok p
  | ok q ↦ if ltb p.sequence q.sequence then ok q else ok p
]

pub record Pair : Type 0 where
  pub settlement : Publication
  pub previous : Publication

-- `PairAt`
unfoldable pub pair_at : ℕ → List Publication → Result FeedError Pair
pair_at sequence rows = do
  fail_if (ltb sequence 2) no_publications
  settlement ← at_sequence sequence rows
  previous ← at_sequence (sequence - 1) rows
  ok (record { settlement = settlement; previous = previous })

-- `LatestPair`
unfoldable pub latest_pair : List Publication → Result FeedError Pair
latest_pair rows = do newest ← latest rows; pair_at newest.sequence rows
