-- ===== src/Examples/RemoteOracle.antt =====
-- Examples for the oracle over HTTP.
use std.Path.{subst}
use hedge_arkade.Publisher.Sequence.{Pair, Publication, latest_pair, latest, pair_at, at_sequence}
use hedge_arkade.Common.{
  ◌⊎◌, ◌≢◌, length, ok, err, ◌+◌, ◌<◌, ◌≡◌, refl, ◌↔◌, ◌⊎◌, true, List, [], ◌∷◌, arith,
}
use hedge_arkade.Common.Int.{pos, ◌≤ℤ◌}
use hedge_arkade.Remote.Delivered.{SignsBytes, signed_price, client_pair_delivered}
use hedge_arkade.Remote.OracleClient.{client_pair, served, get_body, status_error, to_signed}
use hedge_arkade.Remote.Priced.{reply_of, Signs, ReadsBack, client_set_price_iff}
use hedge_arkade.Examples.Publications.{a_signer, second_row, first_row, two_rows-Published}
use hedge_arkade.Remote.Hex.{IsBytes, decode_hex, encode_hex, hex_digit, hex_char}
use hedge_arkade.Remote.OracleServer.{handle_latest_pair, to_wire}
use hedge_arkade.Domain.Records.{not_found}
use hedge_arkade.Publisher.Adjacent.{IsSigned}
use hedge_arkade.Contract.Oracle.{oracle_message, le_bytes}

a_signer-SignsBytes : SignsBytes a_signer
a_signer-SignsBytes m s e =
    let same : (7 ∷ []) ≡ s = cc in
    let small : IsBytes (7 ∷ []) = (omega arith, tt) in subst IsBytes same small

abbrev two_rows : List Publication
two_rows = second_row ∷ first_row ∷ []

client_pair_example :
    ((length two_rows < 2)
      × (client_pair (served 500 (handle_latest_pair two_rows)) ≡ err not_found))
    ⊎ ((pair : Pair) × (client_pair (served 500 (handle_latest_pair two_rows))
          ≡ ok (record {
            settlement = signed_price pair.settlement;
            previous = signed_price pair.previous;
          }))
        × (pair.settlement.sequence ≡ length two_rows)
        × (pair.settlement.sequence ≡ pair.previous.sequence + 1)
        × IsSigned a_signer pair.settlement
        × IsSigned a_signer pair.previous)
client_pair_example =
    client_pair_delivered a_signer 500 a_signer-SignsBytes two_rows-Published (omega arith)

-- the same pair, by evaluation
two_rows_delivered :
    client_pair (served 500 (handle_latest_pair two_rows))
    ≡ ok (record { settlement = signed_price second_row; previous = signed_price first_row })
unfolding client_pair get_body handle_latest_pair latest_pair latest pair_at at_sequence
    status_error to_signed decode_hex to_wire encode_hex oracle_message le_bytes hex_digit hex_char
two_rows_delivered = refl

client_set_price_example :
    ((reply_of a_signer 500 (pos 1600) (pos 80) true (pos 50, two_rows) ≡ ok tt)
      ↔ ((true ≡ true) × (pos 1 ≤ℤ pos 80) × Signs a_signer 500 (pos 1600) (pos 80) two_rows))
    × ((reply_of a_signer 500 (pos 1600) (pos 80) true (pos 50, two_rows) ≢ ok tt)
        ⊎ ReadsBack a_signer 500 (pos 1600) (pos 80) true (pos 50) two_rows)
client_set_price_example =
    client_set_price_iff a_signer 500 (pos 1600) (pos 80) true (pos 50) (omega arith)
      two_rows-Published
