-- ===== src/UseCases/Closing.antt =====
-- The early close, its rejection, cancelling, and the worker's write-off
-- (service/internal/app/redemption.go, contracts.go, worker.go). A use case returns its reply and the
-- store that it leaves, also where it fails half-way.
use hedge_arkade.Common.{
  if◌then◌else◌, Bytes, err, map_err, ◌>>=◌, ◌>>◌, ℕ, not, ◌||◌, Option, none, some, List, [], ◌∷◌,
  ok, fail_if,
}
use hedge_arkade.Common.Int.{ℤ, ltb_ℤ, ◌==ℤ◌, add64}
use hedge_arkade.Contract.Arbitration.{contract_price}
use hedge_arkade.Domain.State.{State, state_eq}
use hedge_arkade.Domain.Records.{
  Contract, Redemption, Reply, Side, not_found, invalid, from_contract, failed_call, split,
  covenant, from_oracle, has_signed, signed, signed_by,
}
use hedge_arkade.UseCases.Ports.{Ports, wrong_state}
use hedge_arkade.UseCases.Action.{party}
use hedge_arkade.Store.Rows.{Store, get_contract, advance, for_contract, put, drop_row}

-- `App.checkSplit`
unfoldable pub check_proposed_split : Ports → Contract → Redemption → Reply (Unit {0})
check_proposed_split ports c r = do
  fail_if (not (add64 r.short_sats r.long_sats ==ℤ c.terms.payout_sats)) invalid
  fail_if (ltb_ℤ r.short_sats ports.stack_dust || ltb_ℤ r.long_sats ports.stack_dust) invalid

-- the second half of `App.verifyRedemption`: the split from the proposal's own message
unfoldable pub check_evidence : Ports → Contract → Redemption → Reply (Unit {0})
check_evidence ports c r = do
  cov ← covenant ports.parse_pub_key c
  price ← map_err from_contract (contract_price ports.library cov r.message r.signature)
  fail_if (not (price ==ℤ r.price)) invalid
  owed ← split c price
  fail_if (not (owed.0 ==ℤ r.short_sats) || not (owed.1 ==ℤ r.long_sats)) invalid

-- `App.verifyRedemption`
unfoldable pub verify_proposal : Ports → Contract → Redemption → Reply (Unit {0})
verify_proposal ports c r = do
  check_proposed_split ports c r
  (if from_oracle r then check_evidence ports c r else ok tt)

-- `SignLeaf` of one packet
abbrev pub signed_packet : (Bytes → Option Bytes) → Bytes → Reply Bytes
signed_packet sign packet = elim (sign packet) [ none ↦ err failed_call | some done ↦ ok done ]

-- the loop over the checkpoints
unfoldable pub sign_all : (Bytes → Option Bytes) → List Bytes → Reply (List Bytes)
sign_all sign [] = ok []
sign_all sign (packet ∷ packets) =
    let rest = sign_all sign packets in
    signed_packet sign packet >>= λ done. rest >>= λ others. ok (done ∷ others)

-- `App.signRedemption`
unfoldable pub sign_packets : Ports → ℕ → Side → Redemption → Reply Redemption
sign_packets ports who side r = do
  ark ← signed_packet (ports.sign_leaf who) r.ark_tx
  checkpoints ← sign_all (ports.sign_leaf who) r.checkpoints
  ok (signed_by side (record r { ark_tx = ark; checkpoints = checkpoints }))

-- The store with a proposal written, or dropped.
abbrev pub with_proposal : ℕ → Redemption → Store → Store
with_proposal id r st = record st { redemptions = put id r st.redemptions }

abbrev pub without_proposal : ℕ → Store → Store
without_proposal id st = record st { redemptions = drop_row id st.redemptions }

-- A reply with the store as it was.
abbrev pub moved_or_kept {ℓ} : {A : Type ℓ} → Reply (Contract × Store) → A → Store → Reply A × Store
moved_or_kept (ok (_, st')) a st = (ok a, st')
moved_or_kept (err e) a st = (err e, st)

-- The reading half of `SignRedemption`: its guards, in order.
unfoldable pub open_proposal : ℕ → ℕ → Store → Reply (Contract × Side × Redemption)
open_proposal id who st = do
  c ← get_contract id st
  side ← party c who
  fail_if (not (state_eq c.state State.redemption_proposed)) wrong_state
  r ← elim (for_contract id st.redemptions) [ none ↦ err not_found | some r ↦ ok r ]
  ok (c, side, r)

-- what a party that has not signed adds: the checks first, then the signatures
unfoldable pub countersign : Ports → ℕ → Contract → Side → Redemption → Reply Redemption
countersign ports who c side r = do verify_proposal ports c r; sign_packets ports who side r

-- The writing half: the proposal is stored, and the contract moves once both have signed.
unfoldable pub store_signed : ℤ → ℕ → Contract → Redemption → Store → Reply Redemption × Store
store_signed now id c r st =
    let st' = with_proposal id r st in
    if signed r then moved_or_kept (advance now c State.redeeming st') r st' else (ok r, st')

-- `SignRedemption`
unfoldable pub sign_redemption : Ports → ℤ → ℕ → ℕ → Store → Reply Redemption × Store
sign_redemption ports now id who st = elim (open_proposal id who st) [
  | err e ↦ (err e, st)
  | ok (c, side, r) ↦
      if has_signed side r then (ok r, st) else elim (countersign ports who c side r) [
        | err e ↦ (err e, st)
        | ok r' ↦ store_signed now id c r' st
      ]
]

-- the contract, to one of its parties
unfoldable pub own_contract : ℕ → ℕ → Store → Reply Contract
own_contract id who st = do c ← get_contract id st; _ ← party c who; ok c

-- `RejectRedemption`
unfoldable pub reject_redemption : ℤ → ℕ → ℕ → Store → Reply Contract × Store
reject_redemption now id who st = elim (own_contract id who st) [
  | err e ↦ (err e, st)
  | ok c ↦
      let st' = without_proposal id st in
      moved_or_kept (advance now c State.active st') (record c { state = State.active }) st'
]

-- `Cancel`
unfoldable pub cancel : ℤ → ℕ → ℕ → Store → Reply Contract × Store
cancel now id who st = elim (own_contract id who st) [
  | err e ↦ (err e, st)
  | ok c ↦
      moved_or_kept (advance now c State.cancelled st) (record c { state = State.cancelled }) st
]

-- the proposal that `finishRedeeming` submits
unfoldable pub submitted : Ports → Contract → Store → Reply Redemption
submitted ports c st = do
  r ← elim (for_contract c.id st.redemptions) [ none ↦ err not_found | some r ↦ ok r ]
  fail_if (not (signed r)) failed_call
  fail_if (not (ports.submit_redemption c r)) failed_call
  ok r

-- `finishRedeeming`
unfoldable pub finish_redeeming : Ports → ℤ → Contract → Store → Reply Redemption × Store
finish_redeeming ports now c st = elim (submitted ports c st) [
  | err e ↦ (err e, st)
  | ok r ↦
      let st' = without_proposal c.id st in moved_or_kept (advance now c State.redeemed st') r st'
]

-- `transient`: where a contract goes that is stuck mid-step
unfoldable pub transient : State → Option State
transient State.funding = some State.failed
transient State.settling = some State.active
transient State.redeeming = some State.active
transient State.exiting = some State.active
transient State.arbitrating = some State.exited
transient _ = none

-- `giveUp`: the store behind it
unfoldable pub give_up : ℤ → Contract → Store → Store
give_up now c st = elim (transient c.state) [
  | none ↦ st
  | some to ↦ elim (advance now c to st) [ err _ ↦ st | ok (_, st') ↦ st' ]
]
