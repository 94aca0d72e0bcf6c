-- ===== src/Remote/OracleServer.antt =====
-- The oracle's HTTP handlers (service/internal/oracleserver/handlers.go) and the history that they read
-- (service/internal/postgres/oracle.go, `History`). A JSON body is the Go value that it is decoded to.
use hedge_arkade.Publisher.Sequence.{
  publish, no_publications, Publication, FeedError, latest, Pair, latest_pair, pair_at, set_price,
}
use hedge_arkade.Common.{
  ◌>>=◌, ltb, leb, ◌==◌, if◌then◌else◌, take, Bytes, Result, err, map_err, ℕ, ◌+◌, ◌-◌, ◌*◌, Bool,
  true, false, ◌&&◌, Option, none, some, List, [], ◌∷◌, map, ok,
}
use hedge_arkade.Common.Int.{ℤ, pos, pos_part, sub_ℕ, ◌/ℤ◌, ltb_ℤ, min_ℤ, int64_min_abs, uint64_mod}
use hedge_arkade.Remote.Hex.{encode_hex}

-- `publication`: the bytes are hex.
pub record WirePublication : Type 0 where
  pub sequence : ℕ
  pub timestamp : ℤ
  pub price : ℤ
  pub message : Bytes
  pub signature : Bytes

-- `wire`
unfoldable pub to_wire : Publication → WirePublication
to_wire p = record {
  sequence = p.sequence;
  timestamp = p.timestamp;
  price = p.price;
  message = encode_hex p.message;
  signature = encode_hex p.signature;
}

-- What a handler returns in place of a body: `echo.NewHTTPError` with its code, or any other error.
pub data HandlerError : Type 0 where
  http_error : ℕ → HandlerError
  other_error : HandlerError

abbrev pub Handled {ℓ} : Type ℓ → Type ℓ
Handled A = Result HandlerError A

-- `notFoundIfEmpty`
unfoldable pub not_found_if_empty : FeedError → HandlerError
not_found_if_empty no_publications = http_error 404
not_found_if_empty _ = other_error

pub record InfoResponse : Type 0 where
  pub pub_key : Bytes
  pub cadence_seconds : ℤ
  pub latest_sequence : ℕ
  pub allows_manual : Bool

-- the number of the latest publication, 0 where there is none
unfoldable pub latest_number : Result FeedError Publication → Handled ℕ
latest_number (ok p) = ok p.sequence
latest_number (err no_publications) = ok 0
latest_number (err _) = err other_error

-- `info`, of the publisher's x-only key, the interval in nanoseconds and `allowManual`
unfoldable pub handle_info : Bytes → ℤ → Bool → List Publication → Handled InfoResponse
handle_info public_key interval allow_manual rows = do
  number ← latest_number (latest rows)
  ok (record {
    pub_key = encode_hex public_key;
    cadence_seconds = interval /ℤ pos 1_000_000_000;
    latest_sequence = number;
    allows_manual = allow_manual;
  })

-- `latest`
unfoldable pub handle_latest : List Publication → Handled WirePublication
handle_latest rows = do p ← map_err not_found_if_empty (latest rows); ok (to_wire p)

pub record PairResponse : Type 0 where
  pub settlement : WirePublication
  pub previous : WirePublication

abbrev pub wire_pair : Pair → PairResponse
wire_pair pair = record { settlement = to_wire pair.settlement; previous = to_wire pair.previous }

-- `latestPair`
unfoldable pub handle_latest_pair : List Publication → Handled PairResponse
handle_latest_pair rows = do
  pair ← map_err not_found_if_empty (latest_pair rows)
  ok (wire_pair pair)

-- the digits of a number in base 10, behind those that were read
unfoldable pub read_digits : ℕ → Bytes → Option ℕ
read_digits n [] = some n
read_digits n (c ∷ cs) = elim (leb 48 c && leb c 57) [
  | true ↦ read_digits (n * 10 + (c - 48)) cs
  | false ↦ none
]

abbrev pub digits : Bytes → Option ℕ
digits [] = none
digits (c ∷ cs) = read_digits 0 (c ∷ cs)

abbrev within : ℕ → Option ℕ → Option ℕ
within bound none = none
within bound (some n) = if ltb n bound then some n else none

abbrev mapped : (ℕ → ℤ) → Option ℕ → Option ℤ
mapped f none = none
mapped f (some n) = some (f n)

-- `strconv.ParseUint(s, 10, 64)`
unfoldable pub parse_uint : Bytes → Option ℕ
parse_uint s = within uint64_mod (digits s)

-- `strconv.Atoi`, with the signs that it takes
unfoldable pub atoi : Bytes → Option ℤ
atoi [] = none
atoi (c ∷ cs) =
    if c == 45
    then mapped (λ n. sub_ℕ 0 n) (within (int64_min_abs + 1) (digits cs))
    else if c == 43
    then mapped pos (within int64_min_abs (digits cs))
    else mapped pos (within int64_min_abs (digits (c ∷ cs)))

-- `pairAt`, of the path's parameter
unfoldable pub handle_pair_at : Bytes → List Publication → Handled PairResponse
handle_pair_at raw rows = elim (parse_uint raw) [
  | none ↦ err (http_error 400)
  | some sequence ↦ elim (pair_at sequence rows) [
    | err e ↦ err (not_found_if_empty e)
    | ok pair ↦ ok (wire_pair pair)
  ]
]

abbrev default_history : ℕ
default_history = 100

abbrev pub max_history : ℕ
max_history = 1000

-- `ORDER BY sequence DESC`
unfoldable pub insert_by_number : Publication → List Publication → List Publication
insert_by_number p [] = p ∷ []
insert_by_number p (q ∷ qs) =
    if ltb p.sequence q.sequence then q ∷ insert_by_number p qs else p ∷ q ∷ qs

unfoldable pub newest_first : List Publication → List Publication
newest_first [] = []
newest_first (p ∷ ps) = insert_by_number p (newest_first ps)

-- `History`: with `LIMIT`
unfoldable pub history : ℕ → List Publication → List Publication
history limit rows = take limit (newest_first rows)

-- the limit that `history` works with, of the query's parameter
unfoldable pub history_limit : Bytes → Handled ℕ
history_limit [] = ok default_history
history_limit (c ∷ cs) = elim (atoi (c ∷ cs)) [
  | none ↦ err (http_error 400)
  | some parsed ↦
      if ltb_ℤ parsed (pos 1)
      then err (http_error 400)
      else ok (pos_part (min_ℤ parsed (pos max_history)))
]

-- the handler `history`
unfoldable pub handle_history : Bytes → List Publication → Handled (List WirePublication)
handle_history raw rows = do limit ← history_limit raw; ok (map to_wire (history limit rows))

-- the publisher's price and its table
abbrev pub Oracle : Type 0
Oracle = ℤ × List Publication

abbrev published :
    Oracle → Result FeedError (Publication × List Publication) → Handled WirePublication × Oracle
published (price, rows) (err e) = (err other_error, (price, rows))
published (price, rows) (ok (p, rows')) = (ok (to_wire p), (price, rows'))

abbrev priced :
    (Bytes → Option Bytes) → ℤ → Oracle → Result FeedError ℤ → Handled WirePublication × Oracle
priced key now before (err e) = (err (http_error 400), before)
priced key now before (ok price) = published (price, before.1) (publish key now price before.1)

-- `setPrice`, of a body that may not decode. The price is kept also where publishing it fails.
unfoldable pub handle_set_price :
    (Bytes → Option Bytes) → ℤ → Bool → Option ℤ → Oracle → Handled WirePublication × Oracle
handle_set_price key now false body before = (err (http_error 403), before)
handle_set_price key now true none before = (err (http_error 400), before)
handle_set_price key now true (some price) before = priced key now before (set_price price)
