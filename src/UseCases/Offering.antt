-- ===== src/UseCases/Offering.antt =====
-- Offering an early close (service/internal/app/redemption.go, `ProposeRedemption`).
use hedge_arkade.Common.{if◌then◌else◌, ok, ℕ, false, ◌&&◌, []}
use hedge_arkade.Common.Int.{ℤ, pos, ◌==ℤ◌}
use hedge_arkade.Domain.State.{State}
use hedge_arkade.Domain.Records.{Contract, Redemption, Reply}
use hedge_arkade.UseCases.Ports.{Ports}
use hedge_arkade.UseCases.Packages.{oracle_close}
use hedge_arkade.UseCases.Closing.{check_proposed_split, sign_packets, with_proposal}
use hedge_arkade.UseCases.Action.{
  Action, ◌>>=◌, ◌>>◌, return, lift, change, answer, get, move_to, in_state, party,
}

-- the proposal before its packets are built: the split that was asked for, or the oracle's for an
-- empty one
unfoldable pub draft_close : Ports → Contract → ℕ → ℤ × ℤ → Reply Redemption
draft_close ports c who wanted =
    let draft : Redemption = record {
      proposed_by = who;
      short_sats = wanted.0;
      long_sats = wanted.1;
      price = pos 0;
      message = [];
      signature = [];
      ark_tx = [];
      checkpoints = [];
      short_signed = false;
      long_signed = false;
    } in
    if wanted.0 ==ℤ pos 0 && wanted.1 ==ℤ pos 0 then oracle_close ports c draft else ok draft

-- `ProposeRedemption`
unfoldable pub offer_close : Ports → ℕ → ℕ → ℤ × ℤ → Action Redemption
offer_close ports id who wanted = do
  c ← get id
  side ← lift (party c who)
  lift (in_state State.active c)
  draft ← lift (draft_close ports c who wanted)
  lift (check_proposed_split ports c draft)
  packets ← lift (answer (ports.build_redemption c draft.short_sats draft.long_sats))
  proposal ←
      lift
        (sign_packets ports who side (record draft { ark_tx = packets.0; checkpoints = packets.1 }))
  change (with_proposal id proposal)
  moved ← move_to ports.db_now c State.redemption_proposed
  return proposal
