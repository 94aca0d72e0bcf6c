-- ===== src/Contract/Presigned.antt =====
-- What a pre-signed exit is worth (contract/exit.go, `PreSignExit`, `VerifyExitSignature`,
-- `Finalize`) and what an arbitration's signatures may change (contract/arbitration.go,
-- `FinalizeArbitration`).
use hedge_arkade.Common.{
  Option-cases, Bytes, bytes_equal_iff, ok, err, >>=-eq-ok, ◌≡◌, refl, ◌⊎◌, inl, inr, true, Option,
  none, some, List, [], ◌∷◌, arith,
}
use hedge_arkade.Common.Int.{ℤ}
use hedge_arkade.Contract.Errors
use hedge_arkade.Contract.Library.{Library, ArkLib}
use hedge_arkade.Contract.Tx.{OutPoint, TxIn, MsgTx}
use hedge_arkade.Contract.Vtxo.{Contract}
use hedge_arkade.Contract.Exit.{Sweep, SigMap, exit_tx, signer_matches, witness}
use hedge_arkade.Contract.Arbitration.{Arbitration}
use hedge_arkade.Contract.Signing.{
  SigLib, ExitPackage, sign_with, with_witness, finalize_arbitration, exit_sighash, sign_exit,
  verify_exit_signature, pre_sign_exit,
}

-- What schnorr promises of a signature that it makes: it parses, its key's x-only form parses, and
-- it verifies under that form.
abbrev pub Schnorr : Library → ArkLib → SigLib → Type 0
Schnorr lib ark sigs =
    (key digest sig : Bytes)
    → sigs.sign_digest key digest ≡ some sig
    → (lib.sig_parses sig ≡ true)
      × (lib.key_parses (ark.x_only key) ≡ true)
      × (lib.verify (ark.x_only key) digest sig ≡ true)

pub sign_with-eq-ok :
    (sigs : SigLib) (key : Option Bytes) (digest : Errors.Outcome Bytes) {sig : Bytes}
    → sign_with sigs key digest ≡ ok sig
    → (k : Bytes) × (d : Bytes) × (key ≡ some k)
      × (digest ≡ ok d)
      × (sigs.sign_digest k d ≡ some sig)
unfolding sign_with
sign_with-eq-ok sigs none digest h = absurd (ground arith)
sign_with-eq-ok sigs (some k) (err e) h = absurd (ground arith)
sign_with-eq-ok sigs (some k) (ok d) h = elim (Option-cases (sigs.sign_digest k d)) [
  | inl failed ↦ absurd (ground arith)
  | inr (s, e) ↦ (k, d, refl, refl, ground arith)
]

signer_matches-eq-ok :
    (ark : ArkLib) (mine theirs : Option Bytes)
    → signer_matches ark mine theirs ≡ ok tt
    → (k : Bytes) × (x : Bytes) × (mine ≡ some k)
      × (theirs ≡ some x)
      × (ark.x_only k ≡ ark.x_only x)
unfolding signer_matches
signer_matches-eq-ok ark none theirs h = absurd (ground arith)
signer_matches-eq-ok ark (some k) none h = absurd (ground arith)
signer_matches-eq-ok ark (some k) (some x) h =
    (k, x, refl, refl, ground (arith, bytes_equal_iff (ark.x_only k) (ark.x_only x)))

module _ (lib : Library) (ark : ArkLib) (num : ℤ → Bytes) (sigs : SigLib) (c : Contract)
    (schnorr : Schnorr lib ark sigs) where
  pub signed_verifies :
      (mine theirs : Option Bytes) (tx : MsgTx) (amount : ℤ) {sig : Bytes}
      → signer_matches ark mine theirs ≡ ok tt
      → sign_exit lib ark num sigs c mine tx amount ≡ ok sig
      → verify_exit_signature lib ark num sigs c theirs sig tx amount ≡ ok tt
  unfolding sign_exit verify_exit_signature
  signed_verifies mine theirs tx amount {sig} same h =
      let (k, x, em, et, ex) = signer_matches-eq-ok ark mine theirs same in
      let (k', d, em', ed, es) =
        sign_with-eq-ok sigs mine (exit_sighash lib ark num sigs c tx amount) h in
      let laws = schnorr k' d sig es in let kk : k' ≡ k = cc in ground (arith, laws, kk, ex, ed, et)

  -- Where schnorr keeps its promise, a package that is pre-signed holds the exit transaction of the
  -- amount and the fee, and each of its two signatures passes the check under the contract's own key
  -- of that side.
  pub pre_sign_exit-verifies :
      (short long : Option Bytes) (outpoint : OutPoint) (amount fee : ℤ) (script : Bytes)
      {pkg : ExitPackage}
      → pre_sign_exit lib ark num sigs c short long outpoint amount fee script ≡ ok pkg
      → (exit_tx ark c outpoint amount fee script ≡ ok pkg.tx)
        × (verify_exit_signature lib ark num sigs c c.keys.short pkg.short_sig pkg.tx pkg.amount
            ≡ ok tt)
        × (verify_exit_signature lib ark num sigs c c.keys.long pkg.long_sig pkg.tx pkg.amount
            ≡ ok tt)
  unfolding pre_sign_exit
  pre_sign_exit-verifies short long outpoint amount fee script h =
      let (tx, et, h1) = >>=-eq-ok (exit_tx ark c outpoint amount fee script) _ h in
      let (_, ms, h2) = >>=-eq-ok (signer_matches ark short c.keys.short) _ h1 in
      let (_, ml, h3) = >>=-eq-ok (signer_matches ark long c.keys.long) _ h2 in
      let (s, es, h4) = >>=-eq-ok (sign_exit lib ark num sigs c short tx amount) _ h3 in
      let (l, el, h5) = >>=-eq-ok (sign_exit lib ark num sigs c long tx amount) _ h4 in
      let vs = signed_verifies short c.keys.short tx amount ms es in
      let vl = signed_verifies long c.keys.long tx amount ml el in (cc, cc, cc)

-- Putting a witness in changes nothing else of the transaction.
abbrev pub SameButWitness : MsgTx → MsgTx → List Bytes → Type 0
SameButWitness tx signed stack =
    (i : TxIn) × (rest : List TxIn) × (tx.tx_in ≡ i ∷ rest)
    × (signed.tx_in ≡ record i { witness = stack } ∷ rest)
    × (signed.tx_out ≡ tx.tx_out)
    × (signed.version ≡ tx.version)

first_of : (l : List TxIn) → (l ≡ []) ⊎ ((i : TxIn) × (rest : List TxIn) × (l ≡ i ∷ rest))
first_of [] = inl refl
first_of (i ∷ rest) = inr (i, rest, refl)

with_witness-eq-ok :
    (tx : MsgTx) (stack : List Bytes) {signed : MsgTx}
    → with_witness tx stack ≡ ok signed
    → SameButWitness tx signed stack
unfolding with_witness
with_witness-eq-ok tx stack h = elim (first_of tx.tx_in) [
  | inl e ↦ absurd (ground arith)
  | inr (i, rest, e) ↦ (i, rest, e, ground arith, ground arith, ground arith)
]

-- An arbitration that is finalized has the witness of the 2-of-3 over the signatures, and is the
-- proposal's transaction otherwise.
pub finalize_arbitration_same :
    (ark : ArkLib) (a : Arbitration) (sweep : Sweep) (m : SigMap) {signed : MsgTx}
    → finalize_arbitration ark (some a) sweep m ≡ ok signed
    → (stack : List Bytes) × (witness ark sweep m ≡ ok stack) × SameButWitness a.tx signed stack
unfolding finalize_arbitration
finalize_arbitration_same ark a sweep m h =
    let (stack, e, h1) = >>=-eq-ok (witness ark sweep m) _ h in
    (stack, e, with_witness-eq-ok a.tx stack h1)
