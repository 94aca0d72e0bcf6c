-- ===== src/Adapters/Signatures.antt =====
-- What the signer's signatures are worth to the use cases that ask for them
-- (service/internal/signer/signer.go behind service/internal/app/funding.go).
use hedge_arkade.Contract.Errors
use hedge_arkade.Contract.Tx.{MsgTx, OutPoint, TxOut}
use hedge_arkade.Contract.Vtxo.{Contract as Covenant, or_library_error}
use hedge_arkade.Contract.Exit.{Sweep, signer_matches, exit_tx, new_sweep}
use hedge_arkade.Contract.Presigned.{Schnorr, signed_verifies}
use hedge_arkade.Domain.Records.{Contract, ExitPackage, covenant, complete, from_contract, Outpoint}
use hedge_arkade.Common.{
  length, Bytes, bytes_equal_iff, ok, map_err, >>=-eq-ok, ok-inj, ℕ, ◌<◌, ◌≡◌, refl, ap, ◌∙◌, true,
  Option, none, some, [], arith, ◌==◌, past_fail_if, not,
}
use hedge_arkade.Common.Int.{ℤ, pos}
use hedge_arkade.UseCases.Ports.{Ports}
use hedge_arkade.Adapters.Signer.{
  KeyStore, with_signer, user_key, signer_sign_exit, sign_stored_exit,
}
use hedge_arkade.UseCases.Packages.{exit_signature, sweep_of, exit_package, outpoint_of}
use hedge_arkade.Contract.Signing.{
  sign_exit, sign_with, exit_sighash, verify_exit_signature, exit_leaf, contract_pk_script,
}

-- A hash that is signed has 32 bytes, as `CalcTapscriptSignaturehash` makes it.
abbrev pub HashesTo32 : Ports → Type 0
HashesTo32 ports =
    (tx : MsgTx) (spent : TxOut) (leaf digest : Bytes)
    → ports.sig_lib.tapscript_sighash tx spent leaf ≡ some digest
    → length digest ≡ 32

-- A private key that can sign: every hash of 32 bytes, as 64 bytes.
abbrev pub CanSign : Ports → Bytes → Type 0
CanSign ports key =
    (digest : Bytes)
    → length digest ≡ 32
    → (sig : Bytes) × (ports.sig_lib.sign_digest key digest ≡ some sig) × (length sig ≡ 64)

library_answer : {A : Type 0} (r : Option A) {a : A} → or_library_error r ≡ ok a → r ≡ some a
library_answer none h = absurd (cc)
library_answer (some a) h = cc

module _ (ks : KeyStore) (ports : Ports) (schnorr : Schnorr ports.library ports.ark ports.sig_lib)
    (hashes : HashesTo32 ports) where
  abbrev pub own_ports : Ports
  own_ports = with_signer ks ports

  -- the user holds the key that the covenant has for the side, and it can sign
  abbrev pub Holds : Option ℕ → Option Bytes → Type 0
  Holds user key =
      (u : ℕ) × (mine : Bytes) × (theirs : Bytes) × (user ≡ some u)
      × (user_key ks u ≡ some mine)
      × (key ≡ some theirs)
      × (ports.ark.x_only mine ≡ ports.ark.x_only theirs)
      × CanSign ports mine

  digest_whole :
      (cov : Covenant) (tx : MsgTx) (amount : ℤ) {digest : Bytes}
      → exit_sighash ports.library ports.ark ports.num ports.sig_lib cov tx amount ≡ ok digest
      → length digest ≡ 32
  unfolding exit_sighash
  digest_whole cov tx amount h =
      let (_, h1) = past_fail_if (not (length tx.tx_in == 1)) Errors.not_one_input _ h in
      let (proof, _, h2) =
        >>=-eq-ok (exit_leaf ports.library ports.ark ports.num ports.sig_lib cov) _ h1 in
      let (pk_script, _, h3) =
        >>=-eq-ok (contract_pk_script ports.library ports.ark ports.num ports.sig_lib cov) _ h2 in
      hashes tx (record { value = amount; pk_script = pk_script }) proof.0 _ (library_answer _ h3)

  exit_signed :
      (cov : Covenant) (tx : MsgTx) (amount : ℤ) (mine digest sig : Bytes)
      → exit_sighash ports.library ports.ark ports.num ports.sig_lib cov tx amount ≡ ok digest
      → ports.sig_lib.sign_digest mine digest ≡ some sig
      → sign_exit ports.library ports.ark ports.num ports.sig_lib cov (some mine) tx amount ≡ ok sig
  unfolding sign_exit sign_with
  exit_signed cov tx amount mine digest sig ed es = ground (arith, ed, es)

  matching :
      (mine theirs : Bytes) {key : Option Bytes}
      → key ≡ some theirs
      → ports.ark.x_only mine ≡ ports.ark.x_only theirs
      → signer_matches ports.ark (some mine) key ≡ ok tt
  unfolding signer_matches
  matching mine theirs ek same =
      ground (arith, ek, same, bytes_equal_iff (ports.ark.x_only mine) (ports.ark.x_only theirs))

  signer_answers :
      (c : Contract) (cov : Covenant) (tx : MsgTx) (pkg : ExitPackage) (u : ℕ) (mine sig : Bytes)
      → covenant ports.parse_pub_key c ≡ ok cov
      → ports.decode_tx pkg.raw_tx ≡ some tx
      → user_key ks u ≡ some mine
      → sign_exit ports.library ports.ark ports.num ports.sig_lib cov (some mine) tx pkg.amount
        ≡ ok sig
      → signer_sign_exit ks ports u c pkg ≡ some sig
  unfolding signer_sign_exit sign_stored_exit
  signer_answers c cov tx pkg u mine sig ec et em made = ground (arith, ec, et, em, made)

  checked :
      (c : Contract) (cov : Covenant) (tx : MsgTx) (pkg : ExitPackage) (user : Option ℕ) (u : ℕ)
      (key : Option Bytes) (sig : Bytes)
      → user ≡ some u
      → signer_sign_exit ks ports u c pkg ≡ some sig
      → verify_exit_signature ports.library ports.ark ports.num ports.sig_lib cov key sig tx
          pkg.amount
        ≡ ok tt
      → exit_signature own_ports c cov tx pkg user key ≡ ok sig
  unfolding exit_signature
  checked c cov tx pkg user u key sig eu answered verified = ground (arith, eu, answered, verified)

  -- a signature of the exit, by the key that a user holds
  signed_side :
      (c : Contract) (cov : Covenant) (tx : MsgTx) (pkg : ExitPackage) (digest : Bytes)
      (user : Option ℕ) (key : Option Bytes)
      → covenant ports.parse_pub_key c ≡ ok cov
      → ports.decode_tx pkg.raw_tx ≡ some tx
      → exit_sighash ports.library ports.ark ports.num ports.sig_lib cov tx pkg.amount ≡ ok digest
      → Holds user key
      → (sig : Bytes) × (exit_signature own_ports c cov tx pkg user key ≡ ok sig) × (0 < length sig)
  signed_side c cov tx pkg digest user key ec et ed (u, mine, theirs, eu, em, ek, same, can) =
      let (sig, es, long) = can digest (digest_whole cov tx pkg.amount ed) in
      let made = exit_signed cov tx pkg.amount mine digest sig ed es in
      let verified =
        signed_verifies ports.library ports.ark ports.num ports.sig_lib cov schnorr (some mine) key
          tx pkg.amount (matching mine theirs ek same) made in
      (
        sig,
        checked c cov tx pkg user u key sig eu
            (signer_answers c cov tx pkg u mine sig ec et em made) verified,
        omega (arith, long),
      )

  -- what of the exit follows from the contract and its funding, without a key: the 2-of-3, the
  -- transaction, whose bytes decode to it, and what is signed of it
  pub record Determined (c : Contract) : Type 0 where
    pub cov : Covenant
    pub sweep : Sweep
    pub is_sweep : sweep_of ports c ≡ ok (cov, sweep)
    pub outpoint : OutPoint
    pub is_outpoint : outpoint_of ports c.funding ≡ ok outpoint
    pub tx : MsgTx
    pub is_tx :
        exit_tx ports.ark cov outpoint c.terms.payout_sats ports.exit_fee_sats sweep.pk_script
        ≡ ok tx
    pub raw : Bytes
    pub is_raw : ports.encode_tx tx ≡ some raw
    pub decodes : ports.decode_tx raw ≡ some tx
    pub digest : Bytes
    pub is_digest :
        exit_sighash ports.library ports.ark ports.num ports.sig_lib cov tx c.terms.payout_sats
        ≡ ok digest

  sweep_of-covenant :
      (c : Contract) {cov : Covenant} {sweep : Sweep}
      → sweep_of ports c ≡ ok (cov, sweep)
      → covenant ports.parse_pub_key c ≡ ok cov
  unfolding sweep_of
  sweep_of-covenant c h =
      let (cov', e, h1) = >>=-eq-ok (covenant ports.parse_pub_key c) _ h in
      let (sweep', e', h2) =
        >>=-eq-ok
          (map_err from_contract (
            new_sweep ports.ark ports.sweep_lib cov'.keys.short cov'.keys.long
              (some ports.service_key)))
          _ h1 in
      e ∙ ap ok (ap (λ p. p.0) (ok-inj h2))

  same_sweep : (c : Contract) → sweep_of own_ports c ≡ sweep_of ports c
  unfolding sweep_of
  same_sweep c = refl

  same_outpoint : (o : Option Outpoint) → outpoint_of own_ports o ≡ outpoint_of ports o
  unfolding outpoint_of
  same_outpoint none = refl
  same_outpoint (some o) = refl

  -- the package before its signatures
  abbrev unsigned : Contract → Sweep → Bytes → ExitPackage
  unsigned c sweep raw = record {
    raw_tx = raw;
    amount = c.terms.payout_sats;
    sweep = record {
      pk_script = sweep.pk_script;
      leaf = sweep.leaf;
      control_block = sweep.control_block;
    };
    short_sig = [];
    long_sig = [];
    swept = none;
    swept_sats = pos 0;
  }

  assembled :
      (c : Contract) (d : Determined c) (short long : Bytes)
      → exit_signature own_ports c d.cov d.tx
          (unsigned c d.sweep d.raw)
          c.short_user
          d.cov.keys.short
        ≡ ok short
      → exit_signature own_ports c d.cov d.tx (unsigned c d.sweep d.raw) c.long_user d.cov.keys.long
        ≡ ok long
      → 0 < length short
      → 0 < length long
      → exit_package own_ports c
        ≡ ok (record (unsigned c d.sweep d.raw) { short_sig = short; long_sig = long })
  unfolding exit_package complete
  assembled c d short long es el ls ll =
      rw
        (
          same_sweep c ∙ d.is_sweep,
          same_outpoint c.funding ∙ d.is_outpoint,
          d.is_tx,
          d.is_raw,
          es,
          el,
        )
        (ground (arith, ls, ll))

  -- Where a schnorr signature that is made verifies, the hash that is signed has 32 bytes, and each party
  -- holds the key that the covenant has for its side, one that signs every such hash with 64 bytes:
  -- whatever exit follows from the contract and its funding, the service's own signer brings the package
  -- to completion, over that transaction.
  pub exit_package_completes :
      (c : Contract) (d : Determined c)
      → Holds c.short_user d.cov.keys.short
      → Holds c.long_user d.cov.keys.long
      → (pkg : ExitPackage) × (exit_package own_ports c ≡ ok pkg)
        × (complete pkg ≡ true)
        × (pkg.raw_tx ≡ d.raw)
  unfolding complete
  exit_package_completes c d short long =
      let ec = sweep_of-covenant c d.is_sweep in
      let (s, es, ls) =
        signed_side c d.cov d.tx (unsigned c d.sweep d.raw) d.digest c.short_user d.cov.keys.short
          ec d.decodes d.is_digest short in
      let (l, el, ll) =
        signed_side c d.cov d.tx (unsigned c d.sweep d.raw) d.digest c.long_user d.cov.keys.long ec
          d.decodes d.is_digest long in
      (
        record (unsigned c d.sweep d.raw) { short_sig = s; long_sig = l },
        assembled c d s l es el ls ll,
        ground (arith, ls, ll),
        refl,
      )
