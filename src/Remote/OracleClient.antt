-- ===== src/Remote/OracleClient.antt =====
-- The service's client of the oracle (service/internal/oracleclient/oracleclient.go). `Do` and the JSON
-- decoder are `Answer`: what came back, with the body as far as it decoded.
use hedge_arkade.Common.{err, ok, fail_if}
use hedge_arkade.Common.{
  ◌>>=◌, ◌>>◌, leb, ◌==◌, if◌then◌else◌, length, Bytes, err, ℕ, ◌+◌, ◌%◌, not, Option, none, some,
  List, map,
}
use hedge_arkade.Common.Int.{uint64_mod}
use hedge_arkade.Remote.OracleServer.{
  http_error, other_error, Handled, WirePublication, InfoResponse, PairResponse, http_error,
}
use hedge_arkade.Domain.Records.{Reply, not_found, failed_call, Price}
use hedge_arkade.Arkade.Client.{SignedPrice}
use hedge_arkade.UseCases.Action.{answer}
use hedge_arkade.UseCases.Ports.{FeedPair}
use hedge_arkade.Remote.Hex.{decode_hex}

pub data Answer (A : Type 0) : Type 0 where
  unreachable : Answer A
  answered : (status : ℕ) (body : Option A) → Answer A

-- What the oracle's server answers: 200 with the body, the code of an `HTTPError`, or the framework's
-- own code for any other error.
abbrev pub served : {A : Type 0} → ℕ → Handled A → Answer A
served other_status (ok body) = answered 200 (some body)
served other_status (err (http_error code)) = answered code none
served other_status (err other_error) = answered other_status none

-- `statusError`
unfoldable pub status_error : ℕ → Reply (Unit {0})
status_error status =
    if status == 404 then err not_found else if leb 400 status then err failed_call else ok tt

-- `get`
unfoldable pub get_body : {A : Type 0} → Answer A → Reply A
get_body unreachable = err failed_call
get_body (answered status body) = do status_error status; answer body

-- `publication.price`
unfoldable pub to_price : WirePublication → Price
to_price p = record { sequence = p.sequence; timestamp = p.timestamp; price = p.price }

-- `publication.signed`
unfoldable pub to_signed : WirePublication → Reply SignedPrice
to_signed p = do
  message ← answer (decode_hex p.message)
  signature ← answer (decode_hex p.signature)
  ok (record { message = message; signature = signature })

-- `PubKey`
unfoldable pub client_pub_key : Answer InfoResponse → Reply Bytes
client_pub_key reply = do
  body ← get_body reply
  key ← answer (decode_hex body.pub_key)
  fail_if (not (length key == 32)) failed_call
  ok key

-- `Latest`
unfoldable pub client_latest : Answer WirePublication → Reply Price
client_latest reply = do body ← get_body reply; ok (to_price body)

-- `Pair`: the sum is a `uint64`'s.
unfoldable pub client_pair : Answer PairResponse → Reply FeedPair
client_pair reply = do
  body ← get_body reply
  settlement ← to_signed body.settlement
  previous ← to_signed body.previous
  fail_if (not (body.settlement.sequence == (body.previous.sequence + 1) % uint64_mod)) failed_call
  ok (record { settlement = settlement; previous = previous })

-- `History`
unfoldable pub client_history : Answer (List WirePublication) → Reply (List Price)
client_history reply = do body ← get_body reply; ok (map to_price body)

-- `SetPrice` reads the status alone.
unfoldable pub client_set_price : {A : Type 0} → Answer A → Reply (Unit {0})
client_set_price unreachable = err failed_call
client_set_price (answered status body) = status_error status
