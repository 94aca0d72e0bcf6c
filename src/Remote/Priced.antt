-- ===== src/Remote/Priced.antt =====
-- Setting the price through the service's client and the oracle's server
-- (service/internal/oracleclient/oracleclient.go, service/internal/oracleserver/handlers.go).
use hedge_arkade.Publisher.Sequence.{Publication, latest, set_price, to_uint64, max_sequence}
use hedge_arkade.Remote.OracleServer.{Oracle, handle_set_price, handle_latest, to_wire}
use hedge_arkade.Contract.Oracle.{oracle_message}
use hedge_arkade.Common.{
  Bool-cases, Option-cases, length, Bytes, ℕ, ◌+◌, ◌≤◌, ◌≡◌, refl, ◌≢◌, ◌↔◌, ◌⊎◌, inl, inr, Bool,
  true, false, Option, none, some, List, [], ◌∷◌, arith, ok, ap,
}
use hedge_arkade.Common.Int.{ℤ, pos, ◌≤ℤ◌, ltb_ℤ}
use hedge_arkade.Remote.OracleClient.{
  client_latest, client_set_price, served, status_error, get_body, to_price,
}
use hedge_arkade.Publisher.Adjacent.{
  Dense, Published, latest-Dense, publish-refused, Published-Dense, next_row, signing,
  publish-signed, max_sequence-Dense,
}
use hedge_arkade.Domain.Records.{Reply}

module _ (key : Bytes → Option Bytes) (other : ℕ) (now price : ℤ) where
  -- the price is signed at the next number
  abbrev pub Signs : List Publication → Type 0
  Signs rows =
      (signature : Bytes) × (key
          (oracle_message (to_uint64 now) (max_sequence rows + 1) (to_uint64 price))
        ≡ some signature)

  -- the client's reply, and the oracle behind it
  abbrev pub reply_of : Bool → Oracle → Reply (Unit {0})
  reply_of manual before =
      client_set_price (served other (handle_set_price key now manual (some price) before).0)

  abbrev pub oracle_after : Bool → Oracle → Oracle
  oracle_after manual before = (handle_set_price key now manual (some price) before).1

  -- What is read back: the price itself, at the next number.
  abbrev pub ReadsBack : Bool → ℤ → List Publication → Type 0
  ReadsBack manual old rows =
      ((oracle_after manual (old, rows)).0 ≡ price)
      × (client_latest (served other (handle_latest (oracle_after manual (old, rows)).1))
          ≡ ok (record { sequence = length rows + 1; timestamp = now; price = price }))

  latest-next_row :
      (rows : List Publication) (p : Publication)
      → Dense key rows
      → p.sequence ≡ length rows + 1
      → latest (p ∷ rows) ≡ ok p
  unfolding latest
  latest-next_row [] p d n = refl
  latest-next_row (q ∷ rows) p d n =
      let (r, er, nr) = latest-Dense key (q ∷ rows) d (omega arith) in ground arith

  forbidden : (old : ℤ) (rows : List Publication) → reply_of false (old, rows) ≢ ok tt
  unfolding handle_set_price client_set_price status_error
  forbidden old rows h = ground arith

  refused_price :
      (old : ℤ) (rows : List Publication)
      → ltb_ℤ price (pos 1) ≡ true
      → reply_of true (old, rows) ≢ ok tt
  unfolding handle_set_price client_set_price status_error set_price
  refused_price old rows low h = ground arith

  unsigned :
      (old : ℤ) (rows : List Publication)
      → 400 ≤ other
      → key (oracle_message (to_uint64 now) (max_sequence rows + 1) (to_uint64 price)) ≡ none
      → reply_of true (old, rows) ≢ ok tt
  unfolding handle_set_price client_set_price status_error set_price
  unsigned old rows fails e h = elim (Bool-cases (ltb_ℤ price (pos 1))) [
    | inl low ↦ refused_price old rows low h
    | inr good ↦ ground (arith, good, publish-refused key now price rows e)
  ]

  written :
      (old : ℤ) (rows : List Publication) (signature : Bytes)
      → ltb_ℤ price (pos 1) ≡ false
      → key (oracle_message (to_uint64 now) (max_sequence rows + 1) (to_uint64 price))
        ≡ some signature
      → (handle_set_price key now true (some price) (old, rows) ≡ (
        ok (to_wire (next_row now price rows signature)),
        (price, next_row now price rows signature ∷ rows),
      ))
  unfolding handle_set_price set_price
  written old rows signature good e = rw (good, publish-signed key now price rows signature e)

  latest_read :
      (rows rows' : List Publication) (signature : Bytes)
      → Dense key rows
      → rows' ≡ next_row now price rows signature ∷ rows
      → client_latest (served other (handle_latest rows'))
        ≡ ok (record { sequence = length rows + 1; timestamp = now; price = price })
  unfolding client_latest get_body status_error handle_latest to_wire to_price
  latest_read rows rows' signature d e =
      let n = max_sequence-Dense key rows d in
      let newest = latest-next_row rows (next_row now price rows signature) d (omega (arith, n)) in
      rw e (ground (arith, newest, n))

  read_back :
      (old : ℤ) (rows : List Publication) (signature : Bytes)
      → Dense key rows
      → ltb_ℤ price (pos 1) ≡ false
      → key (oracle_message (to_uint64 now) (max_sequence rows + 1) (to_uint64 price))
        ≡ some signature
      → (reply_of true (old, rows) ≡ ok tt) × ReadsBack true old rows
  unfolding client_set_price status_error
  read_back old rows signature d good e =
      let w = written old rows signature good e in
      (
        rw w refl,
        (
          ap (λ r. r.1.0) w,
          latest_read rows (oracle_after true (old, rows)).1 signature d (ap (λ r. r.1.1) w),
        ),
      )

  -- Where the framework answers an error that is no `HTTPError` with a code of 400 or more: over a
  -- table that the publisher has reached, the service sets the price exactly when the oracle takes
  -- prices by hand, the price is positive and its message is signed. It fails, or the oracle keeps the
  -- price, and the latest price that the service reads is that one, at the next number.
  pub client_set_price_iff :
      (manual : Bool) (old : ℤ) {rows : List Publication}
      → 400 ≤ other
      → Published key rows
      → ((reply_of manual (old, rows) ≡ ok tt) ↔ ((manual ≡ true) × (pos 1 ≤ℤ price) × Signs rows))
        × ((reply_of manual (old, rows) ≢ ok tt) ⊎ ReadsBack manual old rows)
  client_set_price_iff false old {rows} fails published =
      ((λ h. absurd (forbidden old rows h), λ (manual, _, _). cc), inl (forbidden old rows))
  client_set_price_iff true old {rows} fails published =
      let d = Published-Dense key published in
      elim (Bool-cases (ltb_ℤ price (pos 1))) [
        | inl low ↦ (
          (λ h. absurd (refused_price old rows low h), λ (_, positive, _). absurd (ground arith)),
          inl (refused_price old rows low),
        )
        | inr good ↦ elim (Option-cases (signing key now price rows)) [
          | inl none_made ↦ (
            (
              λ h. absurd (unsigned old rows fails none_made h),
              λ (_, _, made). absurd (cc (none_made, made.1)),
            ),
            inl (unsigned old rows fails none_made),
          )
          | inr (signature, e) ↦
              let (done, back) = read_back old rows signature d good e in
              ((λ h. (refl, ground arith, (signature, e)), λ _. done), inr back)
        ]
      ]
