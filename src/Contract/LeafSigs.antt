-- ===== src/Contract/LeafSigs.antt =====
-- What signing the revealed leaves of a packet adds to it (contract/redemption.go, `SignTapscript`).
use hedge_arkade.Contract.Errors
use std.Path.{subst}
use hedge_arkade.Contract.Tapscript.{
  TapLib, TapSig, PInput, make_sig, sign_inputs, sign_tapscript, signed_inputs, Packet, prev_outs,
}
use hedge_arkade.Contract.OwnLeaves.{Own, named, signing_leaves, leaves_signed}
use mathlib.Core.List.{append-nil}
use hedge_arkade.Common.{
  ◌>>=◌, ◌==◌, length, Bytes, ok, err, fail_if, >>=-eq-ok, Result-cases, ℕ, suc, ◌+◌, ◌<◌, ◌≡◌,
  refl, sym, ap, inl, inr, some, List, [], ◌∷◌, ◌++◌, map, arith,
}
use hedge_arkade.Contract.Tx.{OutPoint, TxOut, MsgTx}

module _ (tap : TapLib) (key : Bytes) where
  -- An input is as it was, but for signatures of the key behind the others.
  abbrev Appended : PInput → PInput → Type 0
  Appended p p' = (new : List TapSig) × (p' ≡ record p { sigs = p.sigs ++ new }) × Own tap key new

  abbrev pub OnlyAppended : List PInput → List PInput → Type 0
  OnlyAppended [] [] = Unit
  OnlyAppended (p ∷ ps) (p' ∷ ps') = Appended p p' × OnlyAppended ps ps'
  OnlyAppended _ _ = ⊥

  abbrev named_of : List PInput → ℕ
  named_of [] = 0
  named_of (p ∷ ps) = length (named tap key p.leaf_scripts) + named_of ps

  OnlyAppended-refl : (ps : List PInput) → OnlyAppended ps ps
  OnlyAppended-refl [] = tt
  OnlyAppended-refl (p ∷ ps) =
      (([], ap (λ s. record p { sigs = s }) (sym (append-nil p.sigs)), tt), OnlyAppended-refl ps)

  module _ (spent : List (OutPoint × TxOut)) (tx : MsgTx) where
    abbrev Signed : ℕ → PInput → PInput → Type 0
    Signed index p p' =
        (new : List TapSig) × (p' ≡ record p { sigs = p.sigs ++ new })
        × (map ok new
            ≡ map (make_sig tap key spent tx index p.input_sighash) (named tap key p.leaf_scripts))

    -- Every input has one signature more for each of its leaves that names the key, made for that leaf
    -- and that input, and nothing else.
    abbrev pub AllSigned : ℕ → List PInput → List PInput → Type 0
    AllSigned index [] [] = Unit
    AllSigned index (p ∷ ps) (p' ∷ ps') = Signed index p p' × AllSigned (suc index) ps ps'
    AllSigned _ _ _ = ⊥

    abbrev InputsSigned : ℕ → List PInput → List PInput × Errors.Outcome ℕ → Type 0
    InputsSigned index ps r =
        OnlyAppended ps r.0 × ((n : ℕ) → r.1 ≡ ok n → (n ≡ named_of ps) × AllSigned index ps r.0)

    module _ (index : ℕ) (p : PInput) (ps : List PInput) where
      abbrev here : List TapSig × Errors.Outcome ℕ
      here = signing_leaves tap key spent tx index p.input_sighash p.leaf_scripts p.sigs

      abbrev after : PInput
      after = record p { sigs = here.0 }

      input_failed :
          {e : Errors.Error}
          → here.1 ≡ err e
          → sign_inputs tap key spent tx index (p ∷ ps) ≡ (after ∷ ps, err e)
      unfolding sign_inputs
      input_failed h = ground (arith, h)

      input_done :
          {n : ℕ}
          → here.1 ≡ ok n
          → sign_inputs tap key spent tx index (p ∷ ps) ≡ (
            after ∷ (sign_inputs tap key spent tx (suc index) ps).0,
            (sign_inputs tap key spent tx (suc index) ps).1 >>= λ m. ok (n + m),
          )
      unfolding sign_inputs
      input_done h = ground (arith, h)

    inputs_signed :
        (index : ℕ) (ps : List PInput)
        → InputsSigned index ps (sign_inputs tap key spent tx index ps)
    unfolding sign_inputs
    inputs_signed index [] = (tt, λ n h. (ground arith, tt))
    inputs_signed index (p ∷ ps) =
        let (new, e, own, done) =
          leaves_signed tap key spent tx index p.input_sighash p.leaf_scripts p.sigs in
        let here_same : after index p ps ≡ record p { sigs = p.sigs ++ new } =
          ap (λ s. record p { sigs = s }) e in
        elim (Result-cases (here index p ps).1) [
          | inl (e', failed) ↦
              subst (InputsSigned index (p ∷ ps)) (sym (input_failed index p ps failed))
                (((new, here_same, own), OnlyAppended-refl ps), λ n h. absurd (cc))
          | inr (n, signed) ↦
              let (kept, rest) = inputs_signed (suc index) ps in
              subst (InputsSigned index (p ∷ ps)) (sym (input_done index p ps signed)) (
                ((new, here_same, own), kept),
                λ m h.
                    let (k, ek, em) =
                      >>=-eq-ok (sign_inputs tap key spent tx (suc index) ps).1 (λ k. ok (n + k))
                        h in
                    let (count, all) = rest k ek in
                    let (here_count, here_all) = done n signed in
                    (ground (arith, em, count, here_count), ((new, here_same, here_all), all)),
              )
        ]

  -- what a success adds
  abbrev Added : Packet → Packet → Errors.Outcome (Unit {0}) → Type 0
  Added packet packet' (err _) = Unit
  Added packet packet' (ok _) =
      (spent : List (OutPoint × TxOut)) × (prev_outs packet.inputs packet.unsigned_tx.tx_in
        ≡ ok spent)
      × AllSigned spent packet.unsigned_tx 0 packet.inputs packet'.inputs
      × (0 < named_of packet.inputs)

  -- what is kept whatever the outcome, and what a success adds
  abbrev pub SignedOwn : Packet → Packet × Errors.Outcome (Unit {0}) → Type 0
  SignedOwn packet r =
      (r.0.unsigned_tx ≡ packet.unsigned_tx)
      × OnlyAppended packet.inputs r.0.inputs
      × Added packet r.0 r.1

  when_signed :
      (packet packet' : Packet) (r : Errors.Outcome (Unit {0}))
      → (r ≡ ok tt → Added packet packet' (ok tt))
      → Added packet packet' r
  when_signed packet packet' (err e) h = tt
  when_signed packet packet' (ok tt) h = h refl

  tapscript_failed :
      (packet : Packet) {e : Errors.Error}
      → prev_outs packet.inputs packet.unsigned_tx.tx_in ≡ err e
      → sign_tapscript tap (some key) packet ≡ (packet, err e)
  unfolding sign_tapscript
  tapscript_failed packet h = ground (arith, h)

  tapscript_run :
      (packet : Packet) {spent : List (OutPoint × TxOut)}
      → prev_outs packet.inputs packet.unsigned_tx.tx_in ≡ ok spent
      → sign_tapscript tap (some key) packet
        ≡ signed_inputs packet (sign_inputs tap key spent packet.unsigned_tx 0 packet.inputs)
  unfolding sign_tapscript
  tapscript_run packet h = ground (arith, h)

  some_signed : (n : ℕ) → fail_if (n == 0) Errors.signs_nothing ≡ ok tt → 0 < n
  some_signed n h = ground arith

  run_SignedOwn :
      (packet : Packet) (spent : List (OutPoint × TxOut)) (r : List PInput × Errors.Outcome ℕ)
      → prev_outs packet.inputs packet.unsigned_tx.tx_in ≡ ok spent
      → InputsSigned spent packet.unsigned_tx 0 packet.inputs r
      → SignedOwn packet (signed_inputs packet r)
  unfolding signed_inputs
  run_SignedOwn packet spent (inputs, signed) e (kept, done) = (
    refl,
    kept,
    when_signed packet (record packet { inputs = inputs })
        (signed >>= λ n. fail_if (n == 0) Errors.signs_nothing)
        (λ h.
          let (n, en, some') =
            >>=-eq-ok signed (λ n. fail_if (n == 0) Errors.signs_nothing) {result = tt} h in
          let (count, all) = done n en in (spent, e, all, rw (← count) (some_signed n some'))),
  )

  -- Whatever the outcome, the packet that is left has the same transaction and the same inputs, but for
  -- signatures of the key's own behind those that stood there. Where it succeeds, the inputs have
  -- exactly one such signature for each revealed leaf that names the key, made for that leaf of that
  -- input, and there is at least one.
  pub sign_tapscript_own :
      (packet : Packet) → SignedOwn packet (sign_tapscript tap (some key) packet)
  sign_tapscript_own packet =
      elim (Result-cases (prev_outs packet.inputs packet.unsigned_tx.tx_in)) [
        | inl (e, failed) ↦
            subst (SignedOwn packet) (sym (tapscript_failed packet failed))
              (refl, OnlyAppended-refl packet.inputs, tt)
        | inr (spent, e) ↦ subst (SignedOwn packet) (sym (tapscript_run packet e)) (
            run_SignedOwn packet spent
              (sign_inputs tap key spent packet.unsigned_tx 0 packet.inputs) e
              (inputs_signed spent packet.unsigned_tx 0 packet.inputs))
      ]
