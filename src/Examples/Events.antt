-- ===== src/Examples/Events.antt =====
-- Examples for the broker and the status codes.
use hedge_arkade.Common.{refl}
use hedge_arkade.Common.{take, ◌≡◌, refl, some, [], ◌∷◌, arith}
use hedge_arkade.Domain.State.{State}
use hedge_arkade.Domain.Records.{Contract}
use hedge_arkade.Store.Rows.{for_contract, Store}
use hedge_arkade.Examples.Tables.{a_row}
use hedge_arkade.Events.Broker.{Event, Broker, backlog}
use hedge_arkade.Events.Delivery.{publish_each, publish_each-delivers}

abbrev an_event : Event
an_event = record { contract = 5; state = State.settling }

abbrev another_event : Event
another_event = record { contract = 5; state = State.settled }

abbrev a_broker : Broker
a_broker = record { next = 3; feeds = (2, []) ∷ (1, an_event ∷ []) ∷ [] }

publish_each_example :
    for_contract 1 (publish_each (another_event ∷ an_event ∷ []) a_broker).feeds
    ≡ some (take backlog (an_event ∷ another_event ∷ an_event ∷ []))
unfolding for_contract
publish_each_example =
    publish_each-delivers (another_event ∷ an_event ∷ []) a_broker 1 (an_event ∷ []) refl
      (omega arith)

-- the caller's copy is behind the row
abbrev a_stale_row : Contract
a_stale_row = record a_row { state = State.funding }

abbrev a_table : Store
a_table = record {
  contracts = a_row ∷ [];
  events = [];
  redemptions = [];
  exits = [];
  arbitrations = [];
}
