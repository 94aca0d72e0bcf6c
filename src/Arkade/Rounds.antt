-- ===== src/Arkade/Rounds.antt =====
-- The order in which the client collects signatures (arkade/submit.go).
use hedge_arkade.Common.{
  Option-cases, Bytes, ◌≡◌, refl, sym, inl, inr, Option, none, some, List, [], ◌∷◌, arith,
}
use hedge_arkade.Arkade.Client.{sign_round, sign_each, sign_one}

-- each packet by itself, through all the signers
abbrev pub sign_separately : List (Bytes → Option Bytes) → List Bytes → Option (List Bytes)
sign_separately signers [] = some []
sign_separately signers (packet ∷ packets) =
    let rest = sign_separately signers packets in
    elim (sign_one signers packet) [
      | none ↦ none
      | some done ↦ elim rest [ none ↦ none | some others ↦ some (done ∷ others) ]
    ]

unsigned : (packets : List Bytes) → sign_separately [] packets ≡ some packets
unfolding sign_one
unsigned [] = refl
unsigned (packet ∷ packets) = ground (arith, unsigned packets)

round_first :
    (sign : Bytes → Option Bytes) (signers : List (Bytes → Option Bytes)) (packets : List Bytes)
    → sign_separately (sign ∷ signers) packets ≡ elim (sign_round sign packets) [
      | none ↦ none
      | some signed ↦ sign_separately signers signed
    ]
unfolding sign_round sign_one
round_first sign signers [] = refl
round_first sign signers (packet ∷ packets) = elim (Option-cases (sign packet)) [
  | inl failed ↦ ground (arith, failed)
  | inr (done, e) ↦ elim (Option-cases (sign_round sign packets)) [
    | inl failed ↦ ground (arith, e, failed, round_first sign signers packets)
    | inr (others, e') ↦ ground (arith, e, e', round_first sign signers packets)
  ]
]

-- Walking the packets round signer by signer gives what each packet gives that walks the signers by
-- itself, and fails exactly where one of those fails.
pub sign_each-eq-sign_separately :
    (signers : List (Bytes → Option Bytes)) (packets : List Bytes)
    → sign_each signers packets ≡ sign_separately signers packets
unfolding sign_each
sign_each-eq-sign_separately [] packets = sym (unsigned packets)
sign_each-eq-sign_separately (sign ∷ signers) packets =
    elim (Option-cases (sign_round sign packets)) [
      | inl failed ↦ ground (arith, failed, round_first sign signers packets)
      | inr (signed, e) ↦
          ground (
            arith,
            e,
            round_first sign signers packets,
            sign_each-eq-sign_separately signers signed,
          )
    ]
