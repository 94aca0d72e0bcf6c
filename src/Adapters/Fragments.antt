-- ===== src/Adapters/Fragments.antt =====
-- A wallet that holds enough, in coins that are too small (service/internal/app/funding.go, `affordable` and
-- `finishFunding`, over arkade/wallet.go).
use hedge_arkade.Adapters.Funding.{
  Purse, FundingLib, adapter_balance, adapter_fund, fund_from, with_wallets, purse_of, coins_of,
}
use hedge_arkade.Adapters.Leaving.{value_of}
use hedge_arkade.Contract.Signing.{contract_pk_script}
use hedge_arkade.Arkade.Client.{Collateral, FundingError, build_bilateral_funding, fund_bilaterally}
use hedge_arkade.Arkade.Coins.{
  AllBelow, balance_sums, no_collateral, spendable_sum, recoverable_sum,
}
use hedge_arkade.Arkade.Wallet.{Vtxo, wallet_balance}
use hedge_arkade.Contract.Tx.{TxOut}
use hedge_arkade.Contract.Vtxo.{Contract as Covenant}
use hedge_arkade.Domain.Records.{Contract, Side, side_of, covenant, failed_call}
use hedge_arkade.Store.Rows.{Store, find_contract, get_contract}
use hedge_arkade.UseCases.Funding.{
  can_pay, needed_sats, finish_funding, record_funding, fund, affordable,
}
use hedge_arkade.UseCases.Ports.{Ports}
use hedge_arkade.UseCases.Action.{◌>>=◌, ◌>>◌, and_then, lift, get, ask, move_to, attempt, party}
use std.Path.{subst}
use hedge_arkade.Domain.State.{State}
use hedge_arkade.Domain.Lifecycle.{◌⟶◌, state_eq_iff}
use hedge_arkade.Store.Advance.{Keyed, advance_iff, after_move}
use hedge_arkade.Store.History.{find-same_id}
use hedge_arkade.Common.{
  Bool-cases, Option-cases, Bytes, ok, err, Result-cases, ℕ, ◌+◌, ◌≤◌, ◌<◌, ◌≡◌, refl, sym, ◌∙◌,
  inl, inr, Option, none, some, List, arith, ap,
}
use hedge_arkade.Common.Int.{ℤ, pos, ◌+ℤ◌, ◌==ℤ◌, ltb_ℤ_iff, int64_min_abs, add64}

-- Without the short's coin there is no transaction.
unbuilt :
    {Input Packet : Type 0} (build_txs : List Input → List TxOut → Option Packet)
    (short_vtxo long_vtxo : ℤ → Option (Collateral Input)) (dust payout : ℤ) (script : Option Bytes)
    (short_sats long_sats : ℤ)
    → short_vtxo short_sats ≡ none
    → (e : FundingError) × (build_bilateral_funding build_txs short_vtxo long_vtxo dust payout
          script short_sats long_sats
        ≡ err e)
unfolding build_bilateral_funding
unbuilt build_txs short_vtxo long_vtxo dust payout script short_sats long_sats h =
    elim (Bool-cases (add64 short_sats long_sats ==ℤ payout)) [
      | inr wrong ↦ (FundingError.wrong_stakes, ground (arith, wrong))
      | inl right ↦ (FundingError.call_failed, ground (arith, right, h))
    ]

needed_exact :
    (ports : Ports) (stake dust : ℕ)
    → ports.stack_dust ≡ pos dust
    → (stake + dust) + 1 < int64_min_abs
    → needed_sats ports (pos stake) ≡ pos ((stake + dust) + 1)
unfolding add64 ◌+ℤ◌
needed_exact ports stake dust e h = rw e (ground arith)

-- A funding that the operator's side refuses leaves the store alone.
refused_funding :
    (ports : Ports) (c : Contract) (st : Store)
    → c.funding ≡ none
    → ports.fund_contract c ≡ none
    → finish_funding ports c st ≡ (err failed_call, st)
unfolding finish_funding record_funding ◌>>=◌ and_then lift
refused_funding ports c st fresh refused = ground (arith, fresh, refused)

covered :
    (ports : Ports) (user stake n : ℕ) {a b : ℕ}
    → ports.balance user ≡ some (pos a, pos b)
    → needed_sats ports (pos stake) ≡ pos n
    → n ≤ a
    → can_pay ports (some user) (pos stake) ≡ ok tt
unfolding can_pay
covered ports user stake n {a} held needed h =
    ground (arith, held, needed, h, ltb_ℤ_iff (pos a) (pos n))

both_pay :
    (ports : Ports) (c : Contract)
    → can_pay ports c.short_user c.short_stake ≡ ok tt
    → can_pay ports c.long_user c.long_stake ≡ ok tt
    → affordable ports c ≡ ok tt
unfolding affordable
both_pay ports c short long = ground (arith, short, long)

-- `Fund` of an accepted contract that the check lets through
funded_now :
    (ports : Ports) (id who : ℕ) (st : Store) (c : Contract) (side : Side)
    → Keyed st.contracts
    → find_contract id st.contracts ≡ some c
    → c.state ≡ State.accepted
    → side_of c who ≡ some side
    → affordable ports c ≡ ok tt
    → fund ports id who st
      ≡ (ok (record c { state = State.funding }), after_move ports.db_now c State.funding st)
unfolding fund get ask ◌>>=◌ ◌>>◌ and_then lift get_contract move_to attempt party
funded_now ports id who st c side k found accepted seated pays =
    let held =
      (advance_iff ports.db_now c State.funding st (record c { state = State.funding })
          (after_move ports.db_now c State.funding st) k).1
        (
          subst (λ s. s ⟶ State.funding) (sym accepted) ◌⟶◌.fund,
          (
            c,
            ap (λ n. find_contract n st.contracts) (find-same_id id st.contracts c found) ∙ found,
            refl,
          ),
          refl,
          refl,
        ) in
    ground (arith, found, accepted, seated, pays, held, state_eq_iff c.state State.accepted)

module _ (ports : Ports) (funding : FundingLib) (purse : ℕ → Option Purse) where
  unfunded :
      (cov : Covenant) (c : Contract) (short long : Purse)
      → coins_of short c.short_stake ≡ none
      → fund_from ports funding purse cov c short long ≡ none
  unfolding fund_from fund_bilaterally
  unfunded cov c short long h =
      let (e, failed) =
        unbuilt funding.build_txs (coins_of short) (coins_of long) ports.stack_dust
          cov.terms.payout_sats
          (value_of (contract_pk_script ports.library ports.ark ports.num ports.sig_lib cov))
          c.short_stake c.long_stake h in
      rw failed refl

  -- the short's wallet, whose coins are all below the stake
  module _ (c : Contract) (user : ℕ) (p : Purse) (vs : List Vtxo)
      (is_short : c.short_user ≡ some user) (has_purse : purse user ≡ some p)
      (lists : p.listed ≡ some vs) (low : AllBelow c.short_stake vs) where
    no_coin : coins_of p c.short_stake ≡ none
    no_coin = rw lists (no_collateral p.lib vs c.short_stake low)

    never_funded : adapter_fund ports funding purse c ≡ none
    unfolding adapter_fund
    never_funded = elim (Option-cases (purse_of purse c.long_user)) [
      | inl e ↦ ground (arith, is_short, has_purse, e)
      | inr (long, e) ↦ elim (Result-cases (covenant ports.parse_pub_key c)) [
        | inl (e', bad) ↦ ground (arith, is_short, has_purse, e, bad)
        | inr (cov, good) ↦
            ground (arith, is_short, has_purse, e, good, unfunded cov c p long no_coin)
      ]
    ]

  balance_of :
      (user : ℕ) (p : Purse) (vs : List Vtxo)
      → purse user ≡ some p
      → p.listed ≡ some vs
      → adapter_balance ports funding purse user ≡ some (wallet_balance vs)
  unfolding adapter_balance
  balance_of user p vs has_purse lists = ground (arith, has_purse, lists)

  -- Where the short's coins sum to its stake with change above the operator's dust, each of them alone is
  -- below the stake, and the long can pay: `Fund`, which looks at the wallets' own balances, moves the
  -- accepted contract into funding, and every attempt to fund it from then on fails and leaves the store as
  -- it was, whatever coins the long has and whatever the operator answers.
  pub fragments_never_fund :
      (c : Contract) (id who : ℕ) (side : Side) (st later : Store) (user stake dust : ℕ) (p : Purse)
      (vs : List Vtxo)
      → Keyed st.contracts
      → find_contract id st.contracts ≡ some c
      → c.state ≡ State.accepted
      → side_of c who ≡ some side
      → c.short_user ≡ some user
      → c.short_stake ≡ pos stake
      → c.funding ≡ none
      → ports.stack_dust ≡ pos dust
      → purse user ≡ some p
      → p.listed ≡ some vs
      → AllBelow (pos stake) vs
      → (stake + dust) + 1 ≤ spendable_sum vs
      → spendable_sum vs + recoverable_sum vs < int64_min_abs
      → can_pay (with_wallets ports funding purse) c.long_user c.long_stake ≡ ok tt
      → (fund (with_wallets ports funding purse) id who st
          ≡ (ok (record c { state = State.funding }), after_move ports.db_now c State.funding st))
        × (finish_funding
              (with_wallets ports funding purse)
              (record c { state = State.funding })
              later
            ≡ (err failed_call, later))
  fragments_never_fund c id who side st later user stake dust p vs k found accepted seated is_short
        staked fresh dusty has_purse lists low enough fits long_pays =
      let held = balance_of user p vs has_purse lists ∙ ap some (balance_sums vs fits) in
      let short_pays : can_pay (with_wallets ports funding purse) c.short_user c.short_stake
          ≡ ok tt =
        rw (is_short, staked)
          (covered (with_wallets ports funding purse) user stake ((stake + dust) + 1) held
            (needed_exact (with_wallets ports funding purse) stake dust dusty (omega arith))
            enough) in
      (
        funded_now (with_wallets ports funding purse) id who st c side k found accepted seated
            (both_pay (with_wallets ports funding purse) c short_pays long_pays),
        refused_funding (with_wallets ports funding purse) (record c { state = State.funding })
            later fresh
            (never_funded (record c { state = State.funding }) user p vs is_short has_purse lists
              (rw staked low)),
      )
