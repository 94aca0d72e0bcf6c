-- ===== src/Contract/OwnLeaves.antt =====
-- The signatures of one input's leaves (contract/redemption.go, the inner loop of `SignTapscript`).
use hedge_arkade.Contract.Errors
use hedge_arkade.Contract.Tapscript.{TapLib, TapSig, TapLeaf, leaf_names_key, make_sig, sign_leaves}
use mathlib.Core.List.{append-nil, append_assoc}
use hedge_arkade.Common.{
  if◌then◌else◌, Bool-cases, length, Bytes, ok, err, >>=-eq-ok, Result-cases, ℕ, suc, ◌≡◌, refl,
  sym, inl, inr, true, false, List, [], ◌∷◌, ◌++◌, map, arith,
}
use hedge_arkade.Contract.Tx.{OutPoint, TxOut, MsgTx}

module _ (tap : TapLib) (key : Bytes) where
  -- Every signature is under the key.
  abbrev pub Own : List TapSig → Type 0
  Own [] = Unit
  Own (s ∷ sigs) = (s.x_only_pub_key ≡ tap.serialize key) × Own sigs

  -- the leaves that name the key
  abbrev pub named : List TapLeaf → List TapLeaf
  named [] = []
  named (leaf ∷ leaves) =
      if leaf_names_key tap leaf.script (tap.serialize key)
      then leaf ∷ named leaves
      else named leaves

  module _ (spent : List (OutPoint × TxOut)) (tx : MsgTx) where
    make_sig-own :
        (index hash_type : ℕ) (leaf : TapLeaf) {sig : TapSig}
        → make_sig tap key spent tx index hash_type leaf ≡ ok sig
        → sig.x_only_pub_key ≡ tap.serialize key
    unfolding make_sig
    make_sig-own index hash_type leaf h = ground arith

    abbrev pub signing_leaves : ℕ → ℕ → List TapLeaf → List TapSig → List TapSig × Errors.Outcome ℕ
    signing_leaves index hash_type leaves sigs =
        sign_leaves tap key spent tx index hash_type leaves sigs

    -- What was added to the signatures of an input, and that each leaf that names the key has its own
    -- where nothing failed.
    abbrev pub LeavesSigned :
        ℕ → ℕ → List TapLeaf → List TapSig → List TapSig × Errors.Outcome ℕ → Type 0
    LeavesSigned index hash_type leaves sigs r =
        (new : List TapSig) × (r.0 ≡ sigs ++ new)
        × Own new
        × ((n : ℕ)
            → r.1 ≡ ok n
            → (n ≡ length (named leaves))
              × (map ok new ≡ map (make_sig tap key spent tx index hash_type) (named leaves)))

    module _ (index hash_type : ℕ) (leaf : TapLeaf) (leaves : List TapLeaf)
        (sigs : List TapSig) where
      leaf_skipped :
          leaf_names_key tap leaf.script (tap.serialize key) ≡ false
          → LeavesSigned index hash_type leaves sigs (signing_leaves index hash_type leaves sigs)
          → LeavesSigned index hash_type
              (leaf ∷ leaves)
              sigs
              (signing_leaves index hash_type (leaf ∷ leaves) sigs)
      unfolding sign_leaves
      leaf_skipped other (new, e, own, done) =
          (new, ground (arith, other, e), own, λ n h. rw other (done n (ground (arith, other, h))))

      leaf_failed :
          {e : Errors.Error}
          → leaf_names_key tap leaf.script (tap.serialize key) ≡ true
          → make_sig tap key spent tx index hash_type leaf ≡ err e
          → LeavesSigned index hash_type
              (leaf ∷ leaves)
              sigs
              (signing_leaves index hash_type (leaf ∷ leaves) sigs)
      unfolding sign_leaves
      leaf_failed mine failed = (
        [],
        ground (arith, mine, failed, append-nil sigs),
        tt,
        λ n h. absurd (ground (arith, mine, failed)),
      )

      leaf_added :
          {sig : TapSig}
          → leaf_names_key tap leaf.script (tap.serialize key) ≡ true
          → make_sig tap key spent tx index hash_type leaf ≡ ok sig
          → LeavesSigned index hash_type leaves
              (sigs ++ sig ∷ [])
              (signing_leaves index hash_type leaves (sigs ++ sig ∷ []))
          → LeavesSigned index hash_type
              (leaf ∷ leaves)
              sigs
              (signing_leaves index hash_type (leaf ∷ leaves) sigs)
      unfolding sign_leaves
      leaf_added {sig} mine made (new, e, own, done) = (
        sig ∷ new,
        ground (arith, mine, made, e, append_assoc sigs (sig ∷ []) new),
        (make_sig-own index hash_type leaf made, own),
        λ n h.
            let (m, em, en) =
              >>=-eq-ok (signing_leaves index hash_type leaves (sigs ++ sig ∷ [])).1
                (λ m. ok (suc m)) {result = n} (ground (arith, mine, made, h)) in
            let (count, all) = done m em in
            rw mine (ground (arith, en, count), ground (arith, made, all)),
      )

    pub leaves_signed :
        (index hash_type : ℕ) (leaves : List TapLeaf) (sigs : List TapSig)
        → LeavesSigned index hash_type leaves sigs (signing_leaves index hash_type leaves sigs)
    unfolding sign_leaves
    leaves_signed index hash_type [] sigs =
        ([], sym (append-nil sigs), tt, λ n h. (ground arith, refl))
    leaves_signed index hash_type (leaf ∷ leaves) sigs =
        elim (Bool-cases (leaf_names_key tap leaf.script (tap.serialize key))) [
          | inl mine ↦ elim (Result-cases (make_sig tap key spent tx index hash_type leaf)) [
            | inl (e, failed) ↦ leaf_failed index hash_type leaf leaves sigs mine failed
            | inr (sig, made) ↦
                leaf_added index hash_type leaf leaves sigs mine made
                  (leaves_signed index hash_type leaves (sigs ++ sig ∷ []))
          ]
          | inr other ↦
              leaf_skipped index hash_type leaf leaves sigs other
                (leaves_signed index hash_type leaves sigs)
        ]
