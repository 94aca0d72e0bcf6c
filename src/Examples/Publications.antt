-- ===== src/Examples/Publications.antt =====
-- Examples for the oracle's publications.
use hedge_arkade.Common.{Bytes, ok, ◌+◌, ◌≡◌, refl, Option, some, [], ◌∷◌, arith}
use hedge_arkade.Common.Int.{pos}
use hedge_arkade.Contract.Oracle.{oracle_message}
use hedge_arkade.Publisher.Sequence.{
  Publication, Pair, to_uint64, max_sequence, sign, append_row, publish, pair_at,
}
use hedge_arkade.Publisher.Adjacent.{IsSigned, Published, none_yet, one_more, pair_at_iff}

abbrev pub a_signer : Bytes → Option Bytes
a_signer message = some (7 ∷ [])

abbrev pub first_row : Publication
first_row = record {
  sequence = 1;
  timestamp = pos 1400;
  price = pos 70;
  message = oracle_message 1400 1 70;
  signature = 7 ∷ [];
}

abbrev pub second_row : Publication
second_row = record {
  sequence = 2;
  timestamp = pos 1500;
  price = pos 50;
  message = oracle_message 1500 2 50;
  signature = 7 ∷ [];
}

first_published : publish a_signer (pos 1400) (pos 70) [] ≡ ok (first_row, first_row ∷ [])
unfolding publish append_row sign max_sequence to_uint64
first_published = refl

second_published :
    publish a_signer (pos 1500) (pos 50) (first_row ∷ [])
    ≡ ok (second_row, second_row ∷ first_row ∷ [])
unfolding publish append_row sign max_sequence to_uint64
second_published = refl

pub two_rows-Published : Published a_signer (second_row ∷ first_row ∷ [])
two_rows-Published =
    one_more (pos 1500) (pos 50) (one_more (pos 1400) (pos 70) none_yet first_published)
      second_published

pair_at_example :
    (pair : Pair) × (pair_at 2 (second_row ∷ first_row ∷ []) ≡ ok pair)
    × (pair.settlement.sequence ≡ 2)
    × (pair.settlement.sequence ≡ pair.previous.sequence + 1)
    × IsSigned a_signer pair.settlement
    × IsSigned a_signer pair.previous
pair_at_example = (pair_at_iff a_signer 2 two_rows-Published).1 (omega arith, omega arith)
