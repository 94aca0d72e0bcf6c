-- ===== src/Examples/Service.antt =====
-- A position from its proposal to its payout behind an arbitration.
use hedge_arkade.Common.{refl, true, some, List, [], ◌∷◌, map}
use hedge_arkade.Common.Int.{pos}
use hedge_arkade.Domain.Records.{short}
use hedge_arkade.Store.Rows.{Store, find_contract}
use hedge_arkade.UseCases.Ports.{Ports}
use hedge_arkade.UseCases.Opening.{Proposal}
use hedge_arkade.UseCases.Service.{Request, serve_all}
use hedge_arkade.UseCases.Backed.{IsSound}
use hedge_arkade.UseCases.Invariant.{serve_all-IsSound}
use hedge_arkade.Examples.Adapters.{plain_ports}

abbrev empty_store : Store
empty_store = record {
  contracts = [];
  events = [];
  redemptions = [];
  exits = [];
  arbitrations = [];
}

empty_store-IsSound : IsSound empty_store
unfolding find_contract
empty_store-IsSound = record {
  valid = record { keyed = tt; walks = tt; current = λ id. refl };
  ready = λ id. refl;
}

abbrev a_position : Proposal
a_position = record {
  creator = 1;
  side = some short;
  hedge_value_cents = pos 1;
  payout_sats = pos 20_000_000;
  low_liquidation_cents = pos 10;
  high_liquidation_cents = pos 100;
  maturity_in = pos 1_000_000_000_000;
  enable_mutual_redemption = true;
}

abbrev some_requests : List (Ports × Request)
some_requests =
    map (λ r. (plain_ports, r))
      (Request.open_position a_position
        ∷ Request.take_side 5 2
        ∷ Request.fund_it 5 1
        ∷ Request.work_through (λ id. plain_ports) (pos 600_000_000_000)
        ∷ Request.leave_it 5 2
        ∷ Request.work_through (λ id. plain_ports) (pos 600_000_000_000)
        ∷ Request.arbitrate_it 5
        ∷ [])

serve_all_example : IsSound (serve_all some_requests empty_store)
serve_all_example = serve_all-IsSound some_requests empty_store empty_store-IsSound
