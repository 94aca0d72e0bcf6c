-- ===== src/Remote/Delivered.antt =====
-- What the service reads of the oracle over HTTP is what the publisher wrote
-- (service/internal/oracleclient/oracleclient.go against service/internal/oracleserver/handlers.go).
use hedge_arkade.Publisher.Sequence.{
  no_publications, Publication, Pair, latest, latest_pair, pair_at,
}
use hedge_arkade.Remote.OracleServer.{
  handle_latest_pair, newest_first, to_wire, insert_by_number, wire_pair, handle_history, history,
  history_limit, atoi, max_history, not_found_if_empty,
}
use hedge_arkade.Contract.Oracle.{le_bytes, oracle_message}
use hedge_arkade.Common.{
  ltb, if◌then◌else◌, Bool-cases, length, take, Bytes, ok, err, ℕ, zero, suc, ◌+◌, ◌/◌, ◌%◌, ◌<◌,
  ◌≡◌, refl, ◌≢◌, ◌⊎◌, inl, Option, some, List, [], ◌∷◌, ◌++◌, map, arith, inr,
}
use hedge_arkade.Common.Int.{pos, uint64_mod}
use hedge_arkade.Remote.Hex.{IsBytes, decode_hex-encode_hex}
use hedge_arkade.Arkade.Client.{SignedPrice}
use hedge_arkade.Domain.Records.{Price, AppError}
use hedge_arkade.Remote.OracleClient.{
  to_signed, client_pair, to_price, client_history, get_body, status_error, served,
}
use hedge_arkade.Publisher.Adjacent.{
  Dense, unpaired, Published, IsSigned, Published-Dense, latest-Dense, pair_at_iff,
}

le_bytes-IsBytes : (n v : ℕ) → IsBytes (le_bytes n v)
unfolding le_bytes
le_bytes-IsBytes zero v = tt
le_bytes-IsBytes (suc n) v = (omega arith, le_bytes-IsBytes n (v / 256))

append-IsBytes : (a b : Bytes) → IsBytes a → IsBytes b → IsBytes (a ++ b)
append-IsBytes [] b ha hb = hb
append-IsBytes (x ∷ a) b (h, ha) hb = (h, append-IsBytes a b ha hb)

oracle_message-IsBytes : (t s p : ℕ) → IsBytes (oracle_message t s p)
unfolding oracle_message
oracle_message-IsBytes t s p =
    append-IsBytes (le_bytes 8 t) (le_bytes 8 s ++ le_bytes 8 p) (le_bytes-IsBytes 8 t)
      (append-IsBytes (le_bytes 8 s) (le_bytes 8 p) (le_bytes-IsBytes 8 s) (le_bytes-IsBytes 8 p))

-- the message and the signature of a row, as a settlement takes them
abbrev pub signed_price : Publication → SignedPrice
signed_price p = record { message = p.message; signature = p.signature }

-- the number, the time and the price of a row
abbrev pub price_of : Publication → Price
price_of p = record { sequence = p.sequence; timestamp = p.timestamp; price = p.price }

-- A key's signatures are byte strings.
abbrev pub SignsBytes : (Bytes → Option Bytes) → Type 0
SignsBytes key = (m s : Bytes) → key m ≡ some s → IsBytes s

to_signed-to_wire :
    (key : Bytes → Option Bytes) (p : Publication)
    → SignsBytes key
    → IsSigned key p
    → to_signed (to_wire p) ≡ ok (signed_price p)
unfolding to_signed to_wire
to_signed-to_wire key p bytes (said, e) =
    let m : IsBytes p.message = rw said (oracle_message-IsBytes _ _ _) in
    rw (decode_hex-encode_hex p.message m, decode_hex-encode_hex p.signature (bytes _ _ e))

next_number : (n m : ℕ) → n ≡ m + 1 → n < uint64_mod → n ≡ (m + 1) % uint64_mod
next_number n m e h = omega arith

client_pair-wire_pair :
    (key : Bytes → Option Bytes) (other : ℕ) (pair : Pair)
    → SignsBytes key
    → IsSigned key pair.settlement
    → IsSigned key pair.previous
    → pair.settlement.sequence ≡ pair.previous.sequence + 1
    → pair.settlement.sequence < uint64_mod
    → client_pair (served other (ok (wire_pair pair)))
      ≡ ok (record {
        settlement = signed_price pair.settlement;
        previous = signed_price pair.previous;
      })
unfolding client_pair get_body status_error to_wire
client_pair-wire_pair key other pair bytes s p next small =
    rw (to_signed-to_wire key pair.settlement bytes s, to_signed-to_wire key pair.previous bytes p)
      (ground (arith, next_number pair.settlement.sequence pair.previous.sequence))

few_unpaired :
    (key : Bytes → Option Bytes) (rows : List Publication)
    → Dense key rows
    → length rows < 2
    → latest_pair rows ≡ err no_publications
unfolding latest_pair latest
few_unpaired key [] d h = refl
few_unpaired key (p ∷ []) (here, good, d) h =
    unpaired key p.sequence (p ∷ []) (here, good, d) (inl (omega arith))
few_unpaired key (p ∷ q ∷ rows) d h = absurd (omega arith)

found_pair :
    (rows : List Publication) {newest : Publication} {pair : Pair}
    → latest rows ≡ ok newest
    → pair_at newest.sequence rows ≡ ok pair
    → latest_pair rows ≡ ok pair
unfolding latest_pair
found_pair rows en ep = rw en ep

-- Over a table that the publisher has reached, and a key whose signatures are byte strings: with
-- fewer than two messages the service is told that there is none; with more, short of 2 ^ 64, it
-- gets the bytes and the signatures of the last two, adjacent and each signed by the oracle.
pub client_pair_delivered :
    (key : Bytes → Option Bytes) (other : ℕ) {rows : List Publication}
    → SignsBytes key
    → Published key rows
    → length rows < uint64_mod
    → ((length rows < 2)
        × (client_pair (served other (handle_latest_pair rows)) ≡ err AppError.not_found))
      ⊎ ((pair : Pair) × (client_pair (served other (handle_latest_pair rows))
            ≡ ok (record {
              settlement = signed_price pair.settlement;
              previous = signed_price pair.previous;
            }))
          × (pair.settlement.sequence ≡ length rows)
          × (pair.settlement.sequence ≡ pair.previous.sequence + 1)
          × IsSigned key pair.settlement
          × IsSigned key pair.previous)
unfolding handle_latest_pair client_pair get_body status_error not_found_if_empty
client_pair_delivered key other {rows} bytes published small =
    let d = Published-Dense key published in
    elim (Bool-cases (ltb (length rows) 2)) [
      | inl few ↦ inl (ground arith, rw (few_unpaired key rows d (ground arith)) refl)
      | inr many ↦
          let (newest, en, nn) = latest-Dense key rows d (ground arith) in
          let (pair, ep, ns, np, s, p) =
            (pair_at_iff key newest.sequence published).1 (ground arith, ground arith) in
          inr (
            pair,
            rw (found_pair rows en ep)
                (client_pair-wire_pair key other pair bytes s p np (omega arith)),
            omega arith,
            np,
            s,
            p,
          )
    ]

newest_first-Dense :
    (key : Bytes → Option Bytes) (rows : List Publication)
    → Dense key rows
    → newest_first rows ≡ rows
unfolding newest_first insert_by_number
newest_first-Dense key [] d = refl
newest_first-Dense key (p ∷ []) d = refl
newest_first-Dense key (p ∷ q ∷ rows) (np, sp, d) =
    ground (arith, newest_first-Dense key (q ∷ rows) d, d.0)

map_prices : (rows : List Publication) → map to_price (map to_wire rows) ≡ map price_of rows
unfolding to_price to_wire
map_prices [] = refl
map_prices (p ∷ ps) = ground (arith, map_prices ps)

abbrev served_limit : ℕ → ℕ
served_limit n = if ltb max_history n then max_history else n

empty_limit : (n : ℕ) → atoi [] ≢ some (pos (suc n))
unfolding atoi
empty_limit n e = cc

limit_of :
    (raw : Bytes) (n : ℕ)
    → atoi raw ≡ some (pos (suc n))
    → history_limit raw ≡ ok (served_limit (suc n))
unfolding history_limit
limit_of [] n e = absurd (empty_limit n e)
limit_of (c ∷ cs) n e = ground (arith, e)

newest :
    (key : Bytes → Option Bytes) (n : ℕ) (rows : List Publication)
    → Dense key rows
    → history n rows ≡ take n rows
unfolding history
newest key n rows d = rw (newest_first-Dense key rows d)

-- Over a table that the publisher has reached, a limit that is a positive number brings the service
-- the newest prices, the newest first: as many as it asked for, at most a thousand.
client_history_delivered :
    (key : Bytes → Option Bytes) (other n : ℕ) (raw : Bytes) {rows : List Publication}
    → Published key rows
    → atoi raw ≡ some (pos (suc n))
    → client_history (served other (handle_history raw rows))
      ≡ ok (map price_of (take (served_limit (suc n)) rows))
unfolding client_history get_body status_error handle_history
client_history_delivered key other n raw {rows} published e = rw (
  limit_of raw n e,
  newest key (served_limit (suc n)) rows (Published-Dense key published),
  map_prices (take (served_limit (suc n)) rows),
)
