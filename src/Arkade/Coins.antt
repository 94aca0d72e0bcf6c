-- ===== src/Arkade/Coins.antt =====
-- What a wallet's balance counts, which coin it funds with, and that a user keeps one wallet
-- (arkade/wallet.go, service/internal/wallets/wallets.go).
use hedge_arkade.Common.{
  ◌==◌, if◌then◌else◌, ==_iff, Bool-cases, Option-cases, Bytes, ℕ, ◌+◌, ◌<◌, ◌≡◌, refl, sym, ap,
  ◌∙◌, ◌⊎◌, inl, true, false, Option, none, some, List, [], ◌∷◌, ◌++◌, arith, inr,
}
use hedge_arkade.Common.Int.{ℤ, pos, ◌+ℤ◌, ◌<ℤ◌, ltb_ℤ_iff, int64_min_abs, add64}
use hedge_arkade.Arkade.Wallet.{
  Vtxo, balance_from, first_usable, spendable_vtxo, get_wallet, built_wallet, wallet_balance,
  coin_usable, WalletLib,
}
use hedge_arkade.Adapters.Chain.{to_int64}
use hedge_arkade.Remote.Hex.{encode_hex}

-- the sats of the coins that can be spent, and of those that need a batch first
abbrev pub spendable_sum : List Vtxo → ℕ
spendable_sum [] = 0
spendable_sum (v ∷ vs) = (if v.recoverable then 0 else v.amount) + spendable_sum vs

abbrev pub recoverable_sum : List Vtxo → ℕ
recoverable_sum [] = 0
recoverable_sum (v ∷ vs) = (if v.recoverable then v.amount else 0) + recoverable_sum vs

add_exact : (a b : ℕ) → a + b < int64_min_abs → add64 (pos a) (to_int64 b) ≡ pos (a + b)
unfolding add64 ◌+ℤ◌ to_int64
add_exact a b h = ground arith

balance_from-sums :
    (a b : ℕ) (vs : List Vtxo)
    → (a + b) + (spendable_sum vs + recoverable_sum vs) < int64_min_abs
    → balance_from (pos a, pos b) vs ≡ (pos (a + spendable_sum vs), pos (b + recoverable_sum vs))
unfolding balance_from
balance_from-sums a b [] h = ground arith
balance_from-sums a b (v ∷ vs) h = elim (Bool-cases v.recoverable) [
  | inl e ↦
      rw (e, add_exact b v.amount (ground (arith, h, e)))
        (balance_from-sums a (b + v.amount) vs (ground (arith, h, e)) ∙ ground arith)
  | inr e ↦
      rw (e, add_exact a v.amount (ground (arith, h, e)))
        (balance_from-sums (a + v.amount) b vs (ground (arith, h, e)) ∙ ground arith)
]

-- Where all the coins together fit in `int64`, the balance is their sum, with those that need a batch
-- first counted apart.
pub balance_sums :
    (vs : List Vtxo)
    → spendable_sum vs + recoverable_sum vs < int64_min_abs
    → wallet_balance vs ≡ (pos (spendable_sum vs), pos (recoverable_sum vs))
unfolding wallet_balance
balance_sums vs h = balance_from-sums 0 0 vs (omega arith) ∙ ground arith

-- None of the coins will do.
abbrev pub NoneUsable : Bytes → ℤ → List Vtxo → Type 0
NoneUsable wanted least [] = Unit
NoneUsable wanted least (v ∷ vs) = (coin_usable wanted least v ≡ false) × NoneUsable wanted least vs

-- The coin is the first that will do.
abbrev pub IsFirst : Bytes → ℤ → List Vtxo → Vtxo → Type 0
IsFirst wanted least vs v =
    (before : List Vtxo) × (after : List Vtxo) × (vs ≡ before ++ v ∷ after)
    × NoneUsable wanted least before
    × (coin_usable wanted least v ≡ true)

pub first_usable-IsFirst :
    (wanted : Bytes) (least : ℤ) (vs : List Vtxo)
    → ((first_usable wanted least vs ≡ none) × NoneUsable wanted least vs)
      ⊎ ((v : Vtxo) × (first_usable wanted least vs ≡ some v) × IsFirst wanted least vs v)
unfolding first_usable
first_usable-IsFirst wanted least [] = inl (refl, tt)
first_usable-IsFirst wanted least (v ∷ vs) = elim (Bool-cases (coin_usable wanted least v)) [
  | inl good ↦ inr (v, ground (arith, good), ([], vs, refl, tt, good))
  | inr bad ↦ elim (first_usable-IsFirst wanted least vs) [
    | inl (e, rest) ↦ inl (ground (arith, bad, e), (bad, rest))
    | inr (w, e, (before, after, es, rest, good)) ↦
        inr (w, ground (arith, bad, e), (v ∷ before, after, ap (λ l. v ∷ l) es, (bad, rest), good))
  ]
]

-- Every coin is below the stake.
abbrev pub AllBelow : ℤ → List Vtxo → Type 0
AllBelow stake [] = Unit
AllBelow stake (v ∷ vs) = (to_int64 v.amount <ℤ stake) × AllBelow stake vs

below_unusable :
    (wanted : Bytes) (stake : ℤ) (vs : List Vtxo)
    → AllBelow stake vs
    → first_usable wanted stake vs ≡ none
unfolding first_usable coin_usable
below_unusable wanted stake [] h = refl
below_unusable wanted stake (v ∷ vs) (low, h) =
    ground (arith, low, below_unusable wanted stake vs h, ltb_ℤ_iff (to_int64 v.amount) stake)

pub no_collateral :
    (lib : WalletLib) (vs : List Vtxo) (stake : ℤ)
    → AllBelow stake vs
    → spendable_vtxo lib (some vs) stake ≡ none
unfolding spendable_vtxo
no_collateral lib vs stake h = elim (Option-cases lib.pk_script) [
  | inl e ↦ ground (arith, e)
  | inr (script, e) ↦ ground (arith, e, below_unusable (encode_hex script) stake vs h)
]

module _ {W : Type 0} (key_of : ℕ → Option Bytes) (new_wallet : Bytes → Option W) where
  -- the registry behind a sequence of calls
  abbrev get_wallets : List ℕ → List (ℕ × W) → List (ℕ × W)
  get_wallets [] built = built
  get_wallets (u ∷ us) built = get_wallets us (get_wallet key_of new_wallet u built).1

  -- What a call leaves: the map as it was, or a new wallet in front for a user who had none.
  abbrev GotNew : ℕ → List (ℕ × W) → Type 0
  GotNew u built =
      (w : W) × (built_wallet key_of new_wallet u built ≡ none)
      × (get_wallet key_of new_wallet u built ≡ (some w, (u, w) ∷ built))

  got_wallet :
      (u : ℕ) (built : List (ℕ × W))
      → ((get_wallet key_of new_wallet u built) ≡ (built_wallet key_of new_wallet u built, built))
        ⊎ GotNew u built
  unfolding get_wallet
  got_wallet u built = elim (Option-cases (built_wallet key_of new_wallet u built)) [
    | inr (w, e) ↦ inl (ground (arith, e))
    | inl e ↦ elim (Option-cases (key_of u)) [
      | inl no_key ↦ inl (ground (arith, e, no_key))
      | inr (key, ek) ↦ elim (Option-cases (new_wallet key)) [
        | inl failed ↦ inl (ground (arith, e, ek, failed))
        | inr (w, ew) ↦ inr (w, e, ground (arith, e, ek, ew))
      ]
    ]
  ]

  in_front :
      (user u : ℕ) (w w' : W) (built : List (ℕ × W))
      → built_wallet key_of new_wallet user built ≡ some w
      → built_wallet key_of new_wallet u built ≡ none
      → built_wallet key_of new_wallet user ((u, w') ∷ built) ≡ some w
  unfolding built_wallet
  in_front user u w w' built h e = elim (Bool-cases (u == user)) [
    | inl same ↦ absurd (cc ((==_iff u user).0 same, h, e))
    | inr other ↦ rw other h
  ]

  kept_by_one :
      (user u : ℕ) (w : W) (built : List (ℕ × W))
      → built_wallet key_of new_wallet user built ≡ some w
      → built_wallet key_of new_wallet user (get_wallet key_of new_wallet u built).1 ≡ some w
  kept_by_one user u w built h = elim (got_wallet u built) [
    | inl e ↦ rw e h
    | inr (w', e, made) ↦ rw made (in_front user u w w' built h e)
  ]

  newly_built :
      (user : ℕ) (w : W) (built : List (ℕ × W))
      → built_wallet key_of new_wallet user ((user, w) ∷ built) ≡ some w
  unfolding built_wallet
  newly_built user w built = ground (arith, ==_iff user user)

  given-built :
      (user : ℕ) (w : W) (built : List (ℕ × W))
      → (get_wallet key_of new_wallet user built).0 ≡ some w
      → built_wallet key_of new_wallet user (get_wallet key_of new_wallet user built).1 ≡ some w
  given-built user w built h = elim (got_wallet user built) [
    | inl e ↦ rw e (sym (ap (λ r. r.0) e) ∙ h)
    | inr (w', e, made) ↦ rw made (newly_built user w' built ∙ (sym (ap (λ r. r.0) made) ∙ h))
  ]

  built-given :
      (user : ℕ) (w : W) (built : List (ℕ × W))
      → built_wallet key_of new_wallet user built ≡ some w
      → (get_wallet key_of new_wallet user built).0 ≡ some w
  unfolding get_wallet
  built-given user w built h = ground (arith, h)

  kept_by_all :
      (user : ℕ) (w : W) (us : List ℕ) (built : List (ℕ × W))
      → built_wallet key_of new_wallet user built ≡ some w
      → built_wallet key_of new_wallet user (get_wallets us built) ≡ some w
  kept_by_all user w [] built h = h
  kept_by_all user w (u ∷ us) built h = kept_by_all user w us _ (kept_by_one user u w built h)

  -- Whoever else asks meanwhile, a user who was given a wallet is given the same one again.
  get_wallet_same :
      (user : ℕ) (w : W) (us : List ℕ) (built : List (ℕ × W))
      → (get_wallet key_of new_wallet user built).0 ≡ some w
      → (get_wallet key_of new_wallet user
          (get_wallets us (get_wallet key_of new_wallet user built).1)).0
        ≡ some w
  get_wallet_same user w us built h = built-given user w _ (
      kept_by_all user w us (get_wallet key_of new_wallet user built).1
        (given-built user w built h))
