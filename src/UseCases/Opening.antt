-- ===== src/UseCases/Opening.antt =====
-- Opening a position and taking its other side (service/internal/app/contracts.go: `Proposal`,
-- `Propose`, `Accept`).
use hedge_arkade.Common.{
  if◌then◌else◌, Bytes, ok, err, fail_if, ℕ, ◌*◌, Bool, ◌||◌, Option, none, some, [], map_err,
}
use hedge_arkade.Common.Int.{ℤ, pos, ◌+ℤ◌, ◌/ℤ◌, ltb_ℤ, leb_ℤ}
use hedge_arkade.Contract.Terms.{dust}
use hedge_arkade.Contract.Vtxo.{Contract as Covenant}
use hedge_arkade.Contract.Signing.{contract_pk_script}
use hedge_arkade.Domain.State.{State}
use hedge_arkade.Domain.Records.{
  Contract, Side, short, long, other, Reply, invalid, not_yet, not_allowed, from_contract,
  nominal_units, side_of, is_nil, split, covenant,
}
use hedge_arkade.Store.Rows.{Store, create}
use hedge_arkade.UseCases.Ports.{Ports}
use hedge_arkade.UseCases.Action.{
  Action, ◌>>=◌, ◌>>◌, lift, attempt, answer, require, get, move_to, in_state,
}

-- A side that is neither string is `none`. The time to maturity is a `time.Duration`.
pub record Proposal : Type 0 where
  pub creator : ℕ
  pub side : Option Side
  pub hedge_value_cents : ℤ
  pub payout_sats : ℤ
  pub low_liquidation_cents : ℤ
  pub high_liquidation_cents : ℤ
  pub maturity_in : ℤ
  pub enable_mutual_redemption : Bool

abbrev valid_side : Option Side → Reply Side
valid_side none = err invalid
valid_side (some s) = ok s

-- `Proposal.validate`; the side comes back as it is used behind it.
unfoldable pub validate_proposal : Proposal → Reply Side
validate_proposal p =
    let side = valid_side p.side in
    if is_nil p.side
    then err invalid
    else if leb_ℤ p.hedge_value_cents (pos 0)
    then err invalid
    else if ltb_ℤ p.payout_sats (pos (2 * dust))
    then err invalid
    else if leb_ℤ p.low_liquidation_cents (pos 0)
    then err invalid
    else if leb_ℤ p.high_liquidation_cents p.low_liquidation_cents
    then err invalid
    else if leb_ℤ p.maturity_in (pos 0)
    then err invalid
    else side

-- nanoseconds in a second
abbrev pub second_ns : ℕ
second_ns = 1_000_000_000

-- `c.ShortUser, c.ShortKey = …` and the lock script, or the long's
unfoldable pub seat : Side → ℕ → Bytes → Bytes → Contract → Contract
seat short user key script c = record c {
  short_user = some user;
  short_key = key;
  terms = record c.terms { short_lock_script = script };
}
seat long user key script c = record c {
  long_user = some user;
  long_key = key;
  terms = record c.terms { long_lock_script = script };
}

-- the contract that `Propose` writes, with the creator on its side
unfoldable pub proposed_contract : Ports → Proposal → Side → Bytes → Bytes → Bytes → Contract
proposed_contract ports p side oracle_pub_key key script = seat side p.creator key script (record {
  id = ports.fresh_id;
  state = State.proposed;
  creator = side;
  short_user = none;
  long_user = none;
  terms = record {
    nominal = nominal_units p.hedge_value_cents;
    leverage = pos 0;
    payout_sats = p.payout_sats;
    low_price = p.low_liquidation_cents;
    high_price = p.high_liquidation_cents;
    short_lock_script = [];
    long_lock_script = [];
    oracle_pub_key = oracle_pub_key;
    start_timestamp = ports.clock /ℤ pos second_ns;
    maturity_timestamp = (ports.clock +ℤ p.maturity_in) /ℤ pos second_ns;
  };
  short_key = [];
  long_key = [];
  arkd_signer = ports.stack_arkd_signer;
  emulator_signer = ports.stack_emulator_signer;
  exit_delay = ports.stack_exit_delay;
  enable_mutual_redemption = p.enable_mutual_redemption;
  pk_script = [];
  short_stake = p.payout_sats;
  long_stake = pos 0;
  funding = none;
  updated_at = ports.db_now;
})

abbrev pub created_row : Contract → Store → Reply (Contract × Store)
created_row c st = elim (create c st) [ err e ↦ err e | ok st' ↦ ok (c, st') ]

-- `Propose`
unfoldable pub propose : Ports → Proposal → Action Contract
propose ports p = do
  side ← lift (validate_proposal p)
  oracle_pub_key ← lift (answer ports.feed_pub_key)
  price ← lift (answer ports.feed_latest)
  lift (
      fail_if
        (leb_ℤ price.price p.low_liquidation_cents || leb_ℤ p.high_liquidation_cents price.price)
        not_yet)
  key ← lift (answer (ports.public_key p.creator))
  script ← lift (answer (ports.vtxo_pk_script p.creator))
  attempt (created_row (proposed_contract ports p side oracle_pub_key key script))

-- the stakes of a contract at a price
unfoldable pub staked : Contract → ℤ × ℤ → Contract
staked c owed = record c { short_stake = owed.0; long_stake = owed.1 }

-- `PkScript` of a covenant
unfoldable pub address_of : Ports → Covenant → Reply Bytes
address_of ports cov =
    map_err from_contract (contract_pk_script ports.library ports.ark ports.num ports.sig_lib cov)

-- `Accept`
unfoldable pub accept : Ports → ℕ → ℕ → Action Contract
accept ports id acceptor = do
  c ← get id
  lift (in_state State.proposed c)
  lift (require (is_nil (side_of c acceptor)) not_allowed)
  price ← lift (answer ports.feed_latest)
  key ← lift (answer (ports.public_key acceptor))
  script ← lift (answer (ports.vtxo_pk_script acceptor))
  owed ← lift (split (seat (other c.creator) acceptor key script c) price.price)
  cov ←
      lift
        (covenant ports.parse_pub_key (staked (seat (other c.creator) acceptor key script c) owed))
  lift (
      require (ports.operator_accepts cov ports.stack_exit_delay ports.stack_allows_block_timelocks)
        invalid)
  pk_script ← lift (address_of ports cov)
  move_to ports.db_now
      (record (staked (seat (other c.creator) acceptor key script c) owed) {
        pk_script = pk_script;
      })
      State.accepted
