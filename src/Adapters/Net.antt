-- ===== src/Adapters/Net.antt =====
-- Calls to the chain as a log: what was done so far, the last at the end. Every answer of the network may
-- depend on all of it, so the answers are functions of the log, and a parameter. `none` is an error.
use mathlib.Core.List.{append-nil, append_assoc}
use hedge_arkade.Contract.Tx.{OutPoint}
use hedge_arkade.Common.{
  Option-cases, Bytes, ℕ, zero, suc, ◌≤◌, ◌≡◌, refl, ◌∙◌, inl, inr, Bool, true, false, Option, none,
  some, List, [], ◌∷◌, ◌++◌, arith,
}

pub data Effect : Type 0 where
  -- blocks that were produced on demand
  mined : (blocks : ℕ) → Effect
  -- a transaction that was put in a block, in hex
  mined_tx : (raw : Bytes) → Effect
  -- a transaction that was offered to the network, in hex
  sent : (raw : Bytes) → Effect
  -- a question for the outputs of an address
  looked : (address : Bytes) → Effect
  slept : Effect

abbrev pub Log : Type 0
Log = List Effect

-- What `NextRedeemTx` says: a transaction, "already redeemed", `ErrPendingConfirmation`, or an error.
pub data NextTx : Type 0 where
  next_tx : Bytes → NextTx
  already_redeemed pending failed_branch : NextTx

-- `explorer.Utxo`; the amount is a `uint64`.
pub record Utxo : Type 0 where
  pub txid : Bytes
  pub vout : ℕ
  pub amount : ℕ

pub record Network : Type 0 where
  -- whether there is a `Chain`, and whether it is a `txMiner`
  pub has_chain : Bool
  pub can_mine_tx : Bool
  pub mine : Log → ℕ → Bool
  pub mine_tx : Log → Bytes → Bool
  -- `NewRedeemBranch`, and what the branch says next
  pub new_branch : Log → OutPoint → Bool
  pub next_redeem : Log → NextTx
  pub broadcast : Log → Bytes → Option Bytes
  pub utxos : Log → Bytes → Option (List Utxo)
  -- the context is done
  pub cancelled : Log → Bool
  -- how many ticks of `Poll` come before the context is done
  pub patience : ℕ

abbrev pub Net : Type 0 → Type 0
Net A = Log → Option A × Log

unfoldable pub then_run : {A B : Type 0} → Option A × Log → (A → Net B) → Option B × Log
then_run (none, log) next = (none, log)
then_run (some a, log) next = next a log

infixl 5 ◌>>=◌ ◌>>◌
unfoldable pub ◌>>=◌ : {A B : Type 0} → Net A → (A → Net B) → Net B
◌>>=◌ m next log = then_run (m log) next

unfoldable pub ◌>>◌ : {B : Type 0} → Net (Unit {0}) → Net B → Net B
first >> second = first >>= λ _. second

unfoldable pub return : {A : Type 0} → A → Net A
return a log = (some a, log)

-- what takes no call
unfoldable pub pure : {A : Type 0} → Option A → Net A
pure a log = (a, log)

-- an answer, and the call in the log
unfoldable pub chain_call : {A : Type 0} → Effect → (Log → Option A) → Net A
chain_call e answer log = (answer log, log ++ e ∷ [])

abbrev pub when_true : Bool → Option (Unit {0})
when_true true = some tt
when_true false = none

-- `Poll`: once, and again at each tick until it succeeds
unfoldable pub poll : {A : Type 0} → ℕ → Net A → Net A
poll zero attempt log = attempt log
poll (suc ticks) attempt log =
    let first = attempt log in
    let again = poll ticks attempt first.1 in
    elim first.0 [ some a ↦ (some a, first.1) | none ↦ again ]

-- A success of the whole is one of each part.
pub then_run-eq-some :
    {A B : Type 0} (r : Option A × Log) (next : A → Net B) {b : B} {log' : Log}
    → then_run r next ≡ (some b, log')
    → (a : A) × (between : Log) × (r ≡ (some a, between)) × (next a between ≡ (some b, log'))
unfolding then_run
then_run-eq-some (none, log) next h = absurd (cc)
then_run-eq-some (some a, log) next h = (a, log, refl, h)

pub >>=-eq-some :
    {A B : Type 0} (m : Net A) (next : A → Net B) (log : Log) {b : B} {log' : Log}
    → (m >>= next) log ≡ (some b, log')
    → (a : A) × (between : Log) × (m log ≡ (some a, between)) × (next a between ≡ (some b, log'))
unfolding ◌>>=◌
>>=-eq-some m next log h = then_run-eq-some (m log) next h

-- the same call, so many times
abbrev pub repeated : ℕ → Effect → Log
repeated zero e = []
repeated (suc n) e = e ∷ repeated n e

poll-again :
    {A : Type 0} (ticks : ℕ) (e : Effect) (answer : Log → Option A) (log : Log) {a : A} {log' : Log}
    → answer log ≡ none
    → poll (suc ticks) (chain_call e answer) log ≡ (some a, log')
    → poll ticks (chain_call e answer) (log ++ e ∷ []) ≡ (some a, log')
unfolding poll chain_call
poll-again ticks e answer log failed h = ground (arith, h, failed)

-- A call that is repeated until it succeeds stands in the log once more than it failed, and its last
-- answer is the result.
pub poll-chain_call :
    {A : Type 0} (ticks : ℕ) (e : Effect) (answer : Log → Option A) (log : Log) {a : A} {log' : Log}
    → poll ticks (chain_call e answer) log ≡ (some a, log')
    → (failures : ℕ) × (failures ≤ ticks)
      × (log' ≡ log ++ repeated (suc failures) e)
      × (answer (log ++ repeated failures e) ≡ some a)
unfolding poll chain_call
poll-chain_call zero e answer log h =
    (0, omega arith, ground (arith, h), ground (arith, h, append-nil log))
poll-chain_call (suc ticks) e answer log h = elim (Option-cases (answer log)) [
  | inl failed ↦
      let (n, le, el, ea) =
        poll-chain_call ticks e answer (log ++ e ∷ []) (poll-again ticks e answer log failed h) in
      (
        suc n,
        omega arith,
        el ∙ append_assoc log (e ∷ []) (repeated (suc n) e),
        rw (← append_assoc log (e ∷ []) (repeated n e)) ea,
      )
  | inr (b, e') ↦ (0, omega arith, ground (arith, h, e'), ground (arith, h, e', append-nil log))
]
