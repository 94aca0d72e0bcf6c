-- ===== src/Examples/Arkade.antt =====
-- Examples for the operator's client.
use hedge_arkade.Common.{length, Bytes, ok, ℕ, ◌≡◌, refl, Option, some, List, [], ◌∷◌}
use hedge_arkade.Common.Int.{ℤ, pos, ◌+ℤ◌, ◌-ℤ◌, ◌<ℤ◌, add64, sub64}
use hedge_arkade.Contract.Tx.{TxOut}
use hedge_arkade.Arkade.Client.{Collateral, build_bilateral_funding, change_output}
use hedge_arkade.Arkade.Outputs.{build_bilateral_funding_pays}

abbrev pay : ℤ → Bytes → TxOut
pay value script = record { value = value; pk_script = script }

-- a packet is its number of inputs
abbrev count_inputs : List ℕ → List TxOut → Option ℕ
count_inputs inputs outs = some (length inputs)

abbrev a_vtxo : Bytes → ℤ → Option (Collateral ℕ)
a_vtxo script sats = some (record { input = 1; amount = pos 30_000; change_script = script })

abbrev funding_outputs : List TxOut
funding_outputs =
    pay (pos 20_000) (7 ∷ []) ∷ pay (pos 13_334) (1 ∷ []) ∷ pay (pos 26_666) (2 ∷ []) ∷ []

funding_built :
    build_bilateral_funding count_inputs
      (a_vtxo (1 ∷ []))
      (a_vtxo (2 ∷ []))
      (pos 1332)
      (pos 20_000)
      (some (7 ∷ []))
      (pos 16_666)
      (pos 3334)
    ≡ ok (2, funding_outputs)
unfolding build_bilateral_funding add64 ◌+ℤ◌ change_output sub64 ◌-ℤ◌
funding_built = refl

build_bilateral_funding_example :
    (script : Bytes) × (short : Collateral ℕ) × (long : Collateral ℕ) × (some (7 ∷ [])
      ≡ some script)
    × (a_vtxo (1 ∷ []) (pos 16_666) ≡ some short)
    × (a_vtxo (2 ∷ []) (pos 3334) ≡ some long)
    × (count_inputs (short.input ∷ long.input ∷ []) funding_outputs ≡ some 2)
    × (add64 (pos 16_666) (pos 3334) ≡ pos 20_000)
    × (pos 1332 <ℤ sub64 short.amount (pos 16_666))
    × (pos 1332 <ℤ sub64 long.amount (pos 3334))
    × (funding_outputs
        ≡ pay (pos 20_000) script
          ∷ pay (sub64 short.amount (pos 16_666)) short.change_script
          ∷ pay (sub64 long.amount (pos 3334)) long.change_script
          ∷ [])
build_bilateral_funding_example =
    build_bilateral_funding_pays count_inputs (a_vtxo (1 ∷ [])) (a_vtxo (2 ∷ [])) (pos 1332)
      (pos 20_000) (some (7 ∷ [])) (pos 16_666) (pos 3334) 2 funding_outputs funding_built

abbrev two_signers : List (Bytes → Option Bytes)
two_signers = (λ packet. some (1 ∷ packet)) ∷ (λ packet. some (2 ∷ packet)) ∷ []
