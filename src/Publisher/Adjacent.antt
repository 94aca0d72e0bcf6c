-- ===== src/Publisher/Adjacent.antt =====
-- What the numbering of the publications promises a settlement: every message has its predecessor
-- (service/internal/oracle/oracle.go, service/internal/postgres/oracle.go).
use std.Path.{subst}
use hedge_arkade.Common.{
  ltb, ◌==◌, ==_iff, Bool-cases, Option-cases, length, Bytes, ok, err, ℕ, ◌+◌, ◌-◌, ◌≤◌, ◌<◌, ◌≡◌,
  refl, ap, ◌⊎◌, inl, inr, Option, none, some, List, [], ◌∷◌, arith, ◌↔◌,
}
use hedge_arkade.Common.Int.{ℤ}
use hedge_arkade.Contract.Oracle.{oracle_message}
use hedge_arkade.Publisher.Sequence.{
  Publication, no_publications, signing_failed, Pair, to_uint64, max_sequence, sign, append_row,
  publish, at_sequence, latest, pair_at, latest_pair,
}

-- A row holds the message of its own fields, signed.
abbrev pub IsSigned : (Bytes → Option Bytes) → Publication → Type 0
IsSigned key p =
    (p.message ≡ oracle_message (to_uint64 p.timestamp) p.sequence (to_uint64 p.price))
    × (key p.message ≡ some p.signature)

-- The rows are numbered down to 1 without a gap, the latest first, and signed.
abbrev pub Dense : (Bytes → Option Bytes) → List Publication → Type 0
Dense key [] = Unit
Dense key (p ∷ ps) = (p.sequence ≡ length ps + 1) × IsSigned key p × Dense key ps

pub max_sequence-Dense :
    (key : Bytes → Option Bytes) (rows : List Publication)
    → Dense key rows
    → max_sequence rows ≡ length rows
unfolding max_sequence
max_sequence-Dense key [] d = refl
max_sequence-Dense key (p ∷ ps) (here, _, d) = ground (arith, max_sequence-Dense key ps d)

-- the row that a publication writes
abbrev pub next_row : ℤ → ℤ → List Publication → Bytes → Publication
next_row now price rows signature = record {
  sequence = max_sequence rows + 1;
  timestamp = now;
  price = price;
  message = oracle_message (to_uint64 now) (max_sequence rows + 1) (to_uint64 price);
  signature = signature;
}

module _ (key : Bytes → Option Bytes) (now price : ℤ) (rows : List Publication) where
  abbrev pub signing : Option Bytes
  signing = key (oracle_message (to_uint64 now) (max_sequence rows + 1) (to_uint64 price))

  pub publish-signed :
      (signature : Bytes)
      → signing ≡ some signature
      → publish key now price rows
        ≡ ok (next_row now price rows signature, next_row now price rows signature ∷ rows)
  unfolding publish append_row sign
  publish-signed signature e = ground (arith, e)

  pub publish-refused : signing ≡ none → publish key now price rows ≡ err signing_failed
  unfolding publish append_row sign
  publish-refused e = ground (arith, e)

  pub publish-Dense :
      {p : Publication} {rows' : List Publication}
      → Dense key rows
      → publish key now price rows ≡ ok (p, rows')
      → Dense key rows'
  publish-Dense {rows' = rows'} d h = elim (Option-cases signing) [
    | inl refused ↦ absurd (cc (h, publish-refused refused))
    | inr (signature, e) ↦
        let written : next_row now price rows signature ∷ rows ≡ rows' =
          cc (h, publish-signed signature e) in
        subst (Dense key) written (ap (λ n. n + 1) (max_sequence-Dense key rows d), (refl, e), d)
  ]

-- the tables that the publisher reaches from the empty one
pub data Published (key : Bytes → Option Bytes) : List Publication → Type 0 where
  none_yet : Published key []
  one_more :
      (now price : ℤ) {rows rows' : List Publication} {p : Publication}
      → Published key rows
      → publish key now price rows ≡ ok (p, rows')
      → Published key rows'

pub Published-Dense :
    (key : Bytes → Option Bytes) {rows : List Publication} → Published key rows → Dense key rows
Published-Dense key none_yet = tt
Published-Dense key (one_more now price before h) =
    publish-Dense key now price _ (Published-Dense key before) h

found :
    (key : Bytes → Option Bytes) (n : ℕ) (rows : List Publication)
    → Dense key rows
    → 0 < n
    → n ≤ length rows
    → (p : Publication) × (at_sequence n rows ≡ ok p) × (p.sequence ≡ n) × IsSigned key p
unfolding at_sequence
found key n [] d h le = absurd (omega arith)
found key n (p ∷ ps) (here, good, d) h le = elim (Bool-cases (p.sequence == n)) [
  | inl same ↦ (p, rw same, (==_iff p.sequence n).0 same, good)
  | inr other ↦ rw other (found key n ps d h (ground arith))
]

missing :
    (key : Bytes → Option Bytes) (n : ℕ) (rows : List Publication)
    → Dense key rows
    → length rows < n
    → at_sequence n rows ≡ err no_publications
unfolding at_sequence
missing key n [] d h = refl
missing key n (p ∷ ps) (here, good, d) h = ground (arith, missing key n ps d)

pub unpaired :
    (key : Bytes → Option Bytes) (n : ℕ) (rows : List Publication)
    → Dense key rows
    → (n < 2) ⊎ (length rows < n)
    → pair_at n rows ≡ err no_publications
unfolding pair_at
unpaired key n rows d out = elim (Bool-cases (ltb n 2)) [
  | inl low ↦ rw low
  | inr high ↦ ground (arith, missing key n rows d)
]

paired :
    (key : Bytes → Option Bytes) (n : ℕ) (rows : List Publication)
    → Dense key rows
    → 2 ≤ n
    → n ≤ length rows
    → (pair : Pair) × (pair_at n rows ≡ ok pair)
      × (pair.settlement.sequence ≡ n)
      × (pair.settlement.sequence ≡ pair.previous.sequence + 1)
      × IsSigned key pair.settlement
      × IsSigned key pair.previous
unfolding pair_at
paired key n rows d low high =
    let (s, es, ns, gs) = found key n rows d (omega arith) high in
    let (p, ep, np, gp) = found key (n - 1) rows d (omega arith) (omega arith) in
    (record { settlement = s; previous = p }, ground arith, ns, omega arith, gs, gp)

in_range : (n k : ℕ) → ((n < 2) ⊎ (k < n)) ⊎ ((2 ≤ n) × (n ≤ k))
in_range n k = omega arith

-- In every table that the publisher has reached, there is a pair at a number exactly from the
-- second number to the latest. It is then the row of that number and the one before it, each the
-- signed message of its own fields.
pub pair_at_iff :
    (key : Bytes → Option Bytes) (n : ℕ) {rows : List Publication}
    → Published key rows
    → ((pair : Pair) × (pair_at n rows ≡ ok pair)
        × (pair.settlement.sequence ≡ n)
        × (pair.settlement.sequence ≡ pair.previous.sequence + 1)
        × IsSigned key pair.settlement
        × IsSigned key pair.previous)
      ↔ ((2 ≤ n) × (n ≤ length rows))
pair_at_iff key n {rows} published =
    let d = Published-Dense key published in
    (
      λ (pair, e, _, _, _, _). elim (in_range n (length rows)) [
        | inl out ↦ absurd (cc (e, unpaired key n rows d out))
        | inr bounds ↦ bounds
      ],
      λ (low, high). paired key n rows d low high,
    )

pub latest-Dense :
    (key : Bytes → Option Bytes) (rows : List Publication)
    → Dense key rows
    → 0 < length rows
    → (p : Publication) × (latest rows ≡ ok p) × (p.sequence ≡ length rows)
unfolding latest
latest-Dense key [] d h = absurd (omega arith)
latest-Dense key (p ∷ []) (here, _, d) h = (p, refl, here)
latest-Dense key (p ∷ q ∷ ps) (here, _, d) h =
    let (r, er, nr) = latest-Dense key (q ∷ ps) d (omega arith) in (p, ground arith, omega arith)

-- In every table that the publisher has reached with two messages or more there is a latest pair,
-- and its numbers are the last two.
latest_pair_found :
    (key : Bytes → Option Bytes) {rows : List Publication}
    → Published key rows
    → 2 ≤ length rows
    → (pair : Pair) × (latest_pair rows ≡ ok pair)
      × (pair.settlement.sequence ≡ length rows)
      × (pair.previous.sequence + 1 ≡ length rows)
unfolding latest_pair
latest_pair_found key {rows} published two =
    let (newest, en, nn) = latest-Dense key rows (Published-Dense key published) (omega arith) in
    let (pair, ep, ns, np, _, _) =
      (pair_at_iff key newest.sequence published).1 (omega arith, omega arith) in
    (pair, rw en ep, omega arith, omega arith)
