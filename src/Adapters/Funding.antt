-- ===== src/Adapters/Funding.antt =====
-- The wallets behind the use cases (service/internal/arkadeadapter/arkadeadapter.go: `Balance`,
-- `VtxoPkScript`, `Fund`): what a wallet lists is a parameter, and its balance, its choice of a coin and the
-- funding are the client's.
use hedge_arkade.Arkade.Client.{Collateral, Operator, fund_bilaterally}
use hedge_arkade.Arkade.Wallet.{Vtxo, WalletInput, WalletLib, spendable_vtxo, wallet_balance}
use hedge_arkade.Contract.Signing.{contract_pk_script}
use hedge_arkade.Contract.Tx.{OutPoint, TxOut}
use hedge_arkade.Contract.Vtxo.{Contract as Covenant}
use hedge_arkade.Domain.Records.{Contract, Outpoint, covenant}
use hedge_arkade.UseCases.Ports.{Ports}
use hedge_arkade.Adapters.Leaving.{value_of}
use hedge_arkade.Common.{Bytes, ok, err, ℕ, Bool, Option, none, some, List}
use hedge_arkade.Common.Int.{ℤ}

-- A user's wallet: what the SDK lists, and how it signs; the operator's client, and whether the operator
-- reports a transaction's outputs in time (`WaitForVtxo`).
pub record Purse : Type 0 where
  pub lib : WalletLib
  pub listed : Option (List Vtxo)
  pub signer : Bytes → Option Bytes
  pub arkd : Operator
  pub registered : Bytes → Bool

-- What ark-lib and btcd do for a funding: a parameter.
pub record FundingLib : Type 1 where
  pub Packets : Type 0
  -- `offchain.BuildTxs`, and the packets in base64
  pub build_txs : List WalletInput → List TxOut → Option Packets
  pub encode : Packets → Option (Bytes × List Bytes)
  -- `chainhash.Hash.String`
  pub hash_string : Bytes → Bytes

abbrev pub purse_of : (ℕ → Option Purse) → Option ℕ → Option Purse
purse_of purse none = none
purse_of purse (some user) = purse user

abbrev pub coins_of : Purse → ℤ → Option (Collateral WalletInput)
coins_of p least = spendable_vtxo p.lib p.listed least

abbrev stored_outpoint : (Bytes → Bytes) → Option OutPoint → Option Outpoint
stored_outpoint to_string none = none
stored_outpoint to_string (some o) = some (record { txid = to_string o.hash; vout = o.index })

module _ (ports : Ports) (funding : FundingLib) (purse : ℕ → Option Purse) where
  -- `FundBilaterally` of the contract's stakes
  unfoldable pub fund_from : Covenant → Contract → Purse → Purse → Option OutPoint
  fund_from cov c short long = value_of (
      fund_bilaterally funding.build_txs (coins_of short) (coins_of long) ports.stack_dust
        funding.encode short.arkd short.registered ports.chain_hash short.signer long.signer
        cov.terms.payout_sats
        (value_of (contract_pk_script ports.library ports.ark ports.num ports.sig_lib cov))
        c.short_stake c.long_stake)

  -- `Adapter.Fund`
  unfoldable pub adapter_fund : Contract → Option Outpoint
  adapter_fund c = elim (purse_of purse c.short_user) [
    | none ↦ none
    | some short ↦ elim (purse_of purse c.long_user) [
      | none ↦ none
      | some long ↦ elim (covenant ports.parse_pub_key c) [
        | err _ ↦ none
        | ok cov ↦ stored_outpoint funding.hash_string (fund_from cov c short long)
      ]
    ]
  ]

  -- `Adapter.Balance`
  unfoldable pub adapter_balance : ℕ → Option (ℤ × ℤ)
  adapter_balance user = elim (purse user) [
    | none ↦ none
    | some p ↦ elim p.listed [ none ↦ none | some vs ↦ some (wallet_balance vs) ]
  ]

  -- `Adapter.VtxoPkScript`
  unfoldable pub adapter_pk_script : ℕ → Option Bytes
  adapter_pk_script user = elim (purse user) [ none ↦ none | some p ↦ p.lib.pk_script ]

  -- the use cases' ports with these wallets behind them
  abbrev pub with_wallets : Ports
  with_wallets = record ports {
    balance = adapter_balance;
    vtxo_pk_script = adapter_pk_script;
    fund_contract = adapter_fund;
  }
