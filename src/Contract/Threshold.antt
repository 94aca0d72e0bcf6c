-- ===== src/Contract/Threshold.antt =====
-- The witness of the 2-of-3 and the exit transaction (contract/exit.go): how many signatures go
-- in, and that the exit loses nothing but its fee.
use hedge_arkade.Common.{
  ltb, ◌==◌, if◌then◌else◌, Bool-cases, Option-cases, length, Bytes, ok, err, ℕ, zero, suc, ◌+◌,
  ◌≤◌, ◌<◌, ◌≡◌, refl, ◌⊎◌, inl, inr, false, some, List, [], ◌∷◌, ◌++◌, reverse, arith,
  past_fail_if,
}
use hedge_arkade.Common.Int.{
  ℤ, pos, ◌-ℤ◌, ◌≤ℤ◌, ltb_ℤ, leb_ℤ, int_laws, IsInt64, sub64, sub64_exact,
}
use hedge_arkade.Contract.Errors
use hedge_arkade.Contract.Library.{ArkLib}
use hedge_arkade.Contract.Terms.{dust}
use hedge_arkade.Contract.Tx.{OutPoint, MsgTx}
use hedge_arkade.Contract.Vtxo.{Contract}
use hedge_arkade.Contract.Exit.{Sweep, SigMap, sig_of, choose_sigs, count_sigs, witness, exit_tx}

-- How many of the keys have a signature in the map.
unfoldable pub signers : ArkLib → SigMap → List Bytes → ℕ
signers ark sigs [] = 0
signers ark sigs (key ∷ keys) =
    (if length (sig_of (ark.x_only key) sigs) == 0 then 0 else 1) + signers ark sigs keys

-- Each element is empty or the signature of the key at its place.
abbrev pub Aligned : ArkLib → SigMap → List Bytes → List Bytes → Type 0
Aligned ark sigs [] [] = Unit
Aligned ark sigs [] (x ∷ xs) = ⊥
Aligned ark sigs (key ∷ keys) [] = ⊥
Aligned ark sigs (key ∷ keys) (x ∷ xs) =
    ((x ≡ []) ⊎ (x ≡ sig_of (ark.x_only key) sigs)) × Aligned ark sigs keys xs

pub choose_sigs-Aligned :
    (ark : ArkLib) (sigs : SigMap) (keys : List Bytes) (room : ℕ)
    → Aligned ark sigs keys (choose_sigs ark sigs keys room)
unfolding choose_sigs
choose_sigs-Aligned ark sigs [] room = tt
choose_sigs-Aligned ark sigs (key ∷ keys) zero = (inl refl, choose_sigs-Aligned ark sigs keys zero)
choose_sigs-Aligned ark sigs (key ∷ keys) (suc room) = (
  inr refl,
  choose_sigs-Aligned ark sigs keys
      (if length (sig_of (ark.x_only key) sigs) == 0 then suc room else room),
)

count_sigs-nil : count_sigs [] ≡ 0
unfolding count_sigs
count_sigs-nil = refl

count_sigs-cons :
    (x : Bytes) (xs : List Bytes)
    → count_sigs (x ∷ xs) ≡ (if length x == 0 then 0 else 1) + count_sigs xs
unfolding count_sigs
count_sigs-cons [] xs = omega arith
count_sigs-cons (b ∷ bs) xs = ground arith

count_sigs-choose :
    (ark : ArkLib) (sigs : SigMap) (keys : List Bytes) (room : ℕ)
    → count_sigs (choose_sigs ark sigs keys room)
      ≡ (if ltb room (signers ark sigs keys) then room else signers ark sigs keys)
unfolding choose_sigs signers
count_sigs-choose ark sigs [] room = ground (arith, count_sigs-nil)
count_sigs-choose ark sigs (key ∷ keys) zero =
    ground
      (arith, count_sigs-cons [] (choose_sigs ark sigs keys 0), count_sigs-choose ark sigs keys 0)
count_sigs-choose ark sigs (key ∷ keys) (suc room) =
    elim (Bool-cases (length (sig_of (ark.x_only key) sigs) == 0)) [
      | inl absent ↦ rw absent (
          ground (
            arith,
            count_sigs-cons (sig_of (ark.x_only key) sigs) (choose_sigs ark sigs keys (suc room)),
            count_sigs-choose ark sigs keys (suc room),
          ))
      | inr present ↦ rw present (
          ground (
            arith,
            count_sigs-cons (sig_of (ark.x_only key) sigs) (choose_sigs ark sigs keys room),
            count_sigs-choose ark sigs keys room,
          ))
    ]

-- With fewer than two of its keys' signatures there is no witness; with two or more there is one,
-- which holds exactly two, each at its key's place, the last key first, before the leaf and the
-- control block.
pub witness_threshold :
    (ark : ArkLib) (sweep : Sweep) (sigs : SigMap)
    → (signers ark sigs sweep.keys < 2 → witness ark sweep sigs ≡ err Errors.too_few_signatures)
      × (2 ≤ signers ark sigs sweep.keys
          → (chosen : List Bytes) × (witness ark sweep sigs
              ≡ ok (reverse chosen ++ (sweep.leaf ∷ sweep.control_block ∷ [])))
            × (count_sigs chosen ≡ 2)
            × Aligned ark sigs sweep.keys chosen)
unfolding witness
witness_threshold ark sweep sigs =
    let count = count_sigs-choose ark sigs sweep.keys 2 in
    (
      λ few. ground arith,
      λ enough. (
        choose_sigs ark sigs sweep.keys 2,
        ground arith,
        ground arith,
        choose_sigs-Aligned ark sigs sweep.keys 2,
      ),
    )

IsInt64-sub_pos : (a b : ℤ) → IsInt64 a → IsInt64 b → pos 0 ≤ℤ a → pos 0 ≤ℤ b → IsInt64 (a -ℤ b)
unfolding ◌-ℤ◌
IsInt64-sub_pos a b fa fb ha hb = ground arith

nonneg_of : (a : ℤ) → ltb_ℤ a (pos 0) ≡ false → pos 0 ≤ℤ a
nonneg_of a h = ground arith

-- With the amount and the fee in `int64`, an exit that is built spends the contract with the delay
-- of its leaf and pays the sweep all but the fee, never less than dust.
exit_tx_pays :
    (ark : ArkLib) (c : Contract) (outpoint : OutPoint) (amount fee : ℤ) (script : Bytes)
    {tx : MsgTx}
    → IsInt64 amount
    → IsInt64 fee
    → exit_tx ark c outpoint amount fee script ≡ ok tx
    → (sequence : ℕ) × (ark.bip68_sequence c.exit_delay ≡ some sequence)
      × (tx.tx_in
          ≡ record { previous_out_point = outpoint; sequence = sequence; witness = [] } ∷ [])
      × (tx.tx_out ≡ record { value = amount -ℤ fee; pk_script = script } ∷ [])
      × (pos dust ≤ℤ amount -ℤ fee)
      × (amount -ℤ fee ≤ℤ amount)
unfolding exit_tx
exit_tx_pays ark c outpoint amount fee script fa ff e =
    let (positive, e1) = past_fail_if (leb_ℤ amount (pos 0)) Errors.amount_not_positive _ e in
    let (nonneg, e2) = past_fail_if (ltb_ℤ fee (pos 0)) Errors.fee_negative _ e1 in
    let (covered, e3) =
      past_fail_if (ltb_ℤ (sub64 amount fee) (pos dust)) Errors.leaves_less_than_dust _ e2 in
    let (_, e4) = past_fail_if (length script == 0) Errors.sweep_script_empty _ e3 in
    let exact =
      sub64_exact amount fee (IsInt64-sub_pos amount fee fa ff (ground arith) (ground arith)) in
    elim (Option-cases (ark.bip68_sequence c.exit_delay)) [
      | inl eb ↦ absurd (ground arith)
      | inr (sequence, eb) ↦ (
        sequence,
        eb,
        ground arith,
        ground (arith, exact),
        ground (arith, exact),
        omega (int_laws, nonneg_of fee nonneg),
      )
    ]
