-- ===== src/Contract/Leaves.antt =====
-- Which closure each leaf of the tree is (contract/vtxo.go, `Closures` with `leafIndex`).
use hedge_arkade.Common.{
  if◌then◌else◌, Option-cases, ok, err, Result-cases, ◌≡◌, ap, ◌∙◌, inl, inr, none, List, [], ◌∷◌,
  arith, Bytes,
}
use hedge_arkade.Common.Int.{ℤ}
use hedge_arkade.Contract.Errors
use hedge_arkade.Contract.Library.{Library, ArkLib}
use hedge_arkade.Contract.Terms.{validate}
use hedge_arkade.Contract.Vtxo.{
  Contract, Closure, Leaf, closures, leaf_closure, leaf_index, settlement_key, validate_keys,
}

abbrev pub closures_of : Bytes × Bytes × Bytes × Bytes → Bytes → Contract → List Closure
closures_of keys tweaked c =
    let leave = Closure.csv_multisig (keys.0 ∷ keys.1 ∷ []) c.exit_delay in
    Closure.multisig (keys.2 ∷ tweaked ∷ [])
    ∷ (if c.enable_mutual_redemption
        then Closure.multisig (keys.0 ∷ keys.1 ∷ keys.2 ∷ []) ∷ leave ∷ []
        else leave ∷ [])

module _ (lib : Library) (ark : ArkLib) (num : ℤ → Bytes) where
  -- A tree is built only with all four keys and valid terms, over the tweaked emulator key.
  pub closures-eq-ok :
      (c : Contract) {tree : List Closure}
      → closures lib ark num c ≡ ok tree
      → (keys : Bytes × Bytes × Bytes × Bytes) × (tweaked : Bytes) × (validate_keys c.keys
          ≡ ok keys)
        × (validate c.terms ≡ none)
        × (settlement_key lib ark num c.terms keys.3 ≡ ok tweaked)
        × (tree ≡ closures_of keys tweaked c)
  unfolding closures
  closures-eq-ok c e = elim (Result-cases (validate_keys c.keys)) [
    | inl (x, ek) ↦ absurd (ground arith)
    | inr (keys, ek) ↦ elim (Option-cases (validate c.terms)) [
      | inr (x, ev) ↦ absurd (ground arith)
      | inl ev ↦ elim (Option-cases (ark.bip68_sequence c.exit_delay)) [
        | inl eb ↦ absurd (ground arith)
        | inr (q, eb) ↦ elim (Result-cases (settlement_key lib ark num c.terms keys.3)) [
          | inl (x, es) ↦ absurd (ground arith)
          | inr (tweaked, es) ↦ (keys, tweaked, ek, ev, es, ground arith)
        ]
      ]
    ]
  ]

  module _ (c : Contract) (keys : Bytes × Bytes × Bytes × Bytes) (tweaked : Bytes)
      (built : closures lib ark num c ≡ ok (closures_of keys tweaked c)) where
    settlement_role :
        leaf_closure lib ark num c Leaf.settlement ≡ ok (Closure.multisig (keys.2 ∷ tweaked ∷ []))
    unfolding leaf_closure leaf_index
    settlement_role = rw built

    redemption_role : leaf_closure lib ark num c Leaf.mutual_redemption ≡ (
        if c.enable_mutual_redemption
        then ok (Closure.multisig (keys.0 ∷ keys.1 ∷ keys.2 ∷ []))
        else err Errors.redemption_disabled)
    unfolding leaf_closure leaf_index
    redemption_role = ground (arith, built)

    exit_role :
        leaf_closure lib ark num c Leaf.exit
        ≡ ok (Closure.csv_multisig (keys.0 ∷ keys.1 ∷ []) c.exit_delay)
    unfolding leaf_closure leaf_index
    exit_role = ground (arith, built)

  -- In a tree that is built, the settlement leaf is the operator with the tweaked emulator key and
  -- no party; the redemption leaf, where it is enabled, both parties with the operator; the exit
  -- leaf both parties alone behind the delay, at whichever index it stands.
  pub leaf_closure_roles :
      (c : Contract) {tree : List Closure}
      → closures lib ark num c ≡ ok tree
      → (keys : Bytes × Bytes × Bytes × Bytes) × (tweaked : Bytes) × (validate_keys c.keys
          ≡ ok keys)
        × (settlement_key lib ark num c.terms keys.3 ≡ ok tweaked)
        × (leaf_closure lib ark num c Leaf.settlement
            ≡ ok (Closure.multisig (keys.2 ∷ tweaked ∷ [])))
        × (leaf_closure lib ark num c Leaf.mutual_redemption ≡ (
            if c.enable_mutual_redemption
            then ok (Closure.multisig (keys.0 ∷ keys.1 ∷ keys.2 ∷ []))
            else err Errors.redemption_disabled))
        × (leaf_closure lib ark num c Leaf.exit
            ≡ ok (Closure.csv_multisig (keys.0 ∷ keys.1 ∷ []) c.exit_delay))
  leaf_closure_roles c e =
      let (keys, tweaked, ek, _, es, et) = closures-eq-ok c e in
      let built = e ∙ ap ok et in
      (
        keys,
        tweaked,
        ek,
        es,
        settlement_role c keys tweaked built,
        redemption_role c keys tweaked built,
        exit_role c keys tweaked built,
      )
