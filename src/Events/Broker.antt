-- ===== src/Events/Broker.antt =====
-- The broker that fans transitions out to its subscribers (service/internal/events/events.go). A feed
-- is a channel's buffer, and an event is kept without its text; the map of the feeds is a list, the
-- latest first, and each operation runs under the broker's lock.
use hedge_arkade.Common.{
  ltb, ◌==◌, if◌then◌else◌, length, ok, err, ℕ, ◌+◌, Option, none, some, List, [], ◌∷◌, ◌++◌,
}
use hedge_arkade.Common.Int.{ℤ}
use hedge_arkade.Domain.State.{State}
use hedge_arkade.Domain.Records.{Contract, Reply}
use hedge_arkade.Store.Rows.{Store, advance}

pub record Event : Type 0 where
  pub contract : ℕ
  pub state : State

pub record Broker : Type 0 where
  pub next : ℕ
  pub feeds : List (ℕ × List Event)

-- `NewBroker`
abbrev pub new_broker : Broker
new_broker = record { next = 0; feeds = [] }

-- `backlog`
abbrev pub backlog : ℕ
backlog = 16

-- `Subscribe`: the number of the new feed
unfoldable pub subscribe : Broker → ℕ × Broker
subscribe b = (b.next, record { next = b.next + 1; feeds = (b.next, []) ∷ b.feeds })

-- `delete(b.feeds, id)`
unfoldable pub remove : ℕ → List (ℕ × List Event) → List (ℕ × List Event)
remove id [] = []
remove id ((k, feed) ∷ feeds) = if k == id then remove id feeds else (k, feed) ∷ remove id feeds

-- what `Subscribe` returns to stop
unfoldable pub unsubscribe : ℕ → Broker → Broker
unsubscribe id b = record b { feeds = remove id b.feeds }

-- `select { case feed <- e: default: }`
unfoldable pub offer : Event → List Event → List Event
offer e feed = if ltb (length feed) backlog then feed ++ e ∷ [] else feed

-- `Publish`
unfoldable pub publish_all : Event → List (ℕ × List Event) → List (ℕ × List Event)
publish_all e [] = []
publish_all e ((k, feed) ∷ feeds) = (k, offer e feed) ∷ publish_all e feeds

unfoldable pub publish : Event → Broker → Broker
publish e b = record b { feeds = publish_all e b.feeds }

-- `Subscribers`
unfoldable pub subscribers : Broker → ℕ
subscribers b = length b.feeds

-- a subscriber reads the next event of its channel
unfoldable pub receive : ℕ → List (ℕ × List Event) → Option Event × List (ℕ × List Event)
receive id [] = (none, [])
receive id ((k, []) ∷ feeds) =
    let rest = receive id feeds in
    if k == id then (none, (k, []) ∷ feeds) else (rest.0, (k, []) ∷ rest.1)
receive id ((k, e ∷ feed) ∷ feeds) =
    let rest = receive id feeds in
    if k == id then (some e, (k, feed) ∷ feeds) else (rest.0, (k, e ∷ feed) ∷ rest.1)

-- `Publishing.Advance`: only a step that was made is announced.
unfoldable pub announced_advance :
    ℤ → Contract → State → Store × Broker → Reply (Contract × Store × Broker)
announced_advance now c to (st, b) = elim (advance now c to st) [
  | err e ↦ err e
  | ok (moved, st') ↦ ok (moved, st', publish (record { contract = c.id; state = to }) b)
]
