-- ===== src/Events/Delivery.antt =====
-- What the broker delivers (service/internal/events/events.go), and the bounds that hold in every state
-- that it can reach.
use hedge_arkade.Common.{
  ltb, ◌==◌, if◌then◌else◌, Bool-cases, length, take, length-append, ok, Result-cases, ℕ, zero, suc,
  ◌+◌, ◌≤◌, ◌<◌, ◌≡◌, refl, sym, ap, ◌∙◌, ◌↔◌, inl, inr, none, some, List, [], ◌∷◌, ◌++◌, arith,
}
use hedge_arkade.Common.Int.{ℤ}
use mathlib.Core.List.{append-nil, append_assoc}
use hedge_arkade.Domain.Records.{Contract}
use hedge_arkade.Store.Rows.{Store, for_contract, advance}
use hedge_arkade.Events.Broker.{
  Event, Broker, backlog, subscribe, remove, unsubscribe, offer, publish_all, publish, receive,
  announced_advance,
}
use hedge_arkade.Domain.State.{State}

-- Every feed is within the backlog, and has a number that was given out, each number once.
abbrev pub Within : ℕ → List (ℕ × List Event) → Type 0
Within next [] = Unit
Within next ((k, feed) ∷ feeds) =
    (k < next) × (length feed ≤ backlog) × (for_contract k feeds ≡ none) × Within next feeds

offer_bound :
    (e : Event) (feed : List Event) → length feed ≤ backlog → length (offer e feed) ≤ backlog
unfolding offer
offer_bound e feed h = ground (arith, length-append feed (e ∷ []))

for_contract-remove :
    (id k : ℕ) (feeds : List (ℕ × List Event))
    → for_contract k (remove id feeds) ≡ (if id == k then none else for_contract k feeds)
unfolding for_contract remove
for_contract-remove id k [] = ground arith
for_contract-remove id k ((j, feed) ∷ feeds) = ground (arith, for_contract-remove id k feeds)

for_contract-publish :
    (e : Event) (k : ℕ) (feeds : List (ℕ × List Event))
    → for_contract k (publish_all e feeds)
      ≡ elim (for_contract k feeds) [ none ↦ none | some feed ↦ some (offer e feed) ]
unfolding for_contract publish_all
for_contract-publish e k [] = refl
for_contract-publish e k ((j, feed) ∷ feeds) = ground (arith, for_contract-publish e k feeds)

remove-Within :
    (id next : ℕ) (feeds : List (ℕ × List Event))
    → Within next feeds
    → Within next (remove id feeds)
unfolding remove
remove-Within id next [] w = tt
remove-Within id next ((k, feed) ∷ feeds) (lt, le, fresh, w) = elim (Bool-cases (k == id)) [
  | inl same ↦ rw same (remove-Within id next feeds w)
  | inr other ↦
      rw other (
        lt,
        le,
        ground (arith, for_contract-remove id k feeds, fresh),
        remove-Within id next feeds w,
      )
]

publish-Within :
    (e : Event) (next : ℕ) (feeds : List (ℕ × List Event))
    → Within next feeds
    → Within next (publish_all e feeds)
unfolding publish_all
publish-Within e next [] w = tt
publish-Within e next ((k, feed) ∷ feeds) (lt, le, fresh, w) = (
  lt,
  offer_bound e feed le,
  ground (arith, for_contract-publish e k feeds, fresh),
  publish-Within e next feeds w,
)

unused :
    (next k : ℕ) (feeds : List (ℕ × List Event))
    → Within next feeds
    → next ≤ k
    → for_contract k feeds ≡ none
unfolding for_contract
unused next k [] w h = refl
unused next k ((j, feed) ∷ feeds) (lt, le, fresh, w) h = ground (arith, unused next k feeds w h)

Within-suc :
    (next : ℕ) (feeds : List (ℕ × List Event)) → Within next feeds → Within (next + 1) feeds
Within-suc next [] w = tt
Within-suc next ((k, feed) ∷ feeds) (lt, le, fresh, w) =
    (omega arith, le, fresh, Within-suc next feeds w)

-- A call of the broker.
pub data Call : Type 0 where
  join : Call
  stop : (id : ℕ) → Call
  tell : (e : Event) → Call
  read : (id : ℕ) → Call

unfoldable pub call : Call → Broker → Broker
call join b = (subscribe b).1
call (stop id) b = unsubscribe id b
call (tell e) b = publish e b
call (read id) b = record b { feeds = (receive id b.feeds).1 }

unfoldable pub call_all : List Call → Broker → Broker
call_all [] b = b
call_all (c ∷ cs) b = call_all cs (call c b)

receive-missing :
    (id k : ℕ) (feeds : List (ℕ × List Event))
    → for_contract k feeds ≡ none
    → for_contract k (receive id feeds).1 ≡ none
unfolding for_contract receive
receive-missing id k [] h = refl
receive-missing id k ((j, []) ∷ feeds) h = ground (arith, receive-missing id k feeds)
receive-missing id k ((j, e ∷ feed) ∷ feeds) h = ground (arith, receive-missing id k feeds)

receive-Within :
    (id next : ℕ) (feeds : List (ℕ × List Event))
    → Within next feeds
    → Within next (receive id feeds).1
unfolding receive
receive-Within id next [] w = tt
receive-Within id next ((k, []) ∷ feeds) (lt, le, fresh, w) = elim (Bool-cases (k == id)) [
  | inl same ↦ rw same (lt, le, fresh, w)
  | inr other ↦ rw other (lt, le, receive-missing id k feeds fresh, receive-Within id next feeds w)
]
receive-Within id next ((k, e ∷ feed) ∷ feeds) (lt, le, fresh, w) = elim (Bool-cases (k == id)) [
  | inl same ↦ rw same (lt, omega arith, fresh, w)
  | inr other ↦ rw other (lt, le, receive-missing id k feeds fresh, receive-Within id next feeds w)
]

call-Within :
    (c : Call) (b : Broker) → Within b.next b.feeds → Within (call c b).next (call c b).feeds
unfolding call subscribe unsubscribe publish
call-Within join b w = (
  omega arith,
  omega arith,
  unused b.next b.next b.feeds w (omega arith),
  Within-suc b.next b.feeds w,
)
call-Within (stop id) b w = remove-Within id b.next b.feeds w
call-Within (tell e) b w = publish-Within e b.next b.feeds w
call-Within (read id) b w = receive-Within id b.next b.feeds w

-- Whatever the calls, a broker none of whose feeds holds more than the backlog, and whose feeds have
-- different numbers that were given out, stays one.
call_all-Within :
    (cs : List Call) (b : Broker)
    → Within b.next b.feeds
    → Within (call_all cs b).next (call_all cs b).feeds
unfolding call_all
call_all-Within [] b w = w
call_all-Within (c ∷ cs) b w = call_all-Within cs (call c b) (call-Within c b w)

take_short {ℓ} : {A : Type ℓ} (n : ℕ) (xs : List A) → length xs ≤ n → take n xs ≡ xs
take_short zero [] h = refl
take_short zero (x ∷ xs) h = absurd (omega arith)
take_short (suc n) [] h = refl
take_short (suc n) (x ∷ xs) h = ap (λ ys. x ∷ ys) (take_short n xs (omega arith))

take_full {ℓ} : {A : Type ℓ} (n : ℕ) (xs ys : List A) → length xs ≡ n → take n (xs ++ ys) ≡ xs
take_full zero [] ys h = refl
take_full zero (x ∷ xs) ys h = absurd (omega arith)
take_full (suc n) [] ys h = absurd (omega arith)
take_full (suc n) (x ∷ xs) ys h = ap (λ zs. x ∷ zs) (take_full n xs ys (omega arith))

offered :
    (e : Event) (feed es : List Event)
    → length feed ≤ backlog
    → take backlog (offer e feed ++ es) ≡ take backlog (feed ++ e ∷ es)
unfolding offer
offered e feed es le = elim (Bool-cases (ltb (length feed) backlog)) [
  | inl room ↦ rw room (ap (take backlog) (append_assoc feed (e ∷ []) es))
  | inr full ↦ rw full (
      take_full backlog feed es (ground (arith, full, le))
      ∙ sym (take_full backlog feed (e ∷ es) (ground (arith, full, le))))
]

-- several publications
unfoldable pub publish_each : List Event → Broker → Broker
publish_each [] b = b
publish_each (e ∷ es) b = publish_each es (publish e b)

-- Of the events that are published, a subscriber that reads nothing meanwhile has the first ones that
-- fit behind what it already had, in their order: none is lost while there is room, and a full feed
-- changes nothing.
pub publish_each-delivers :
    (es : List Event) (b : Broker) (id : ℕ) (feed : List Event)
    → for_contract id b.feeds ≡ some feed
    → length feed ≤ backlog
    → for_contract id (publish_each es b).feeds ≡ some (take backlog (feed ++ es))
unfolding publish_each publish
publish_each-delivers [] b id feed found le =
    found ∙ ap some (sym (ap (take backlog) (append-nil feed) ∙ take_short backlog feed le))
publish_each-delivers (e ∷ es) b id feed found le =
    publish_each-delivers es (publish e b) id (offer e feed)
      (for_contract-publish e id b.feeds ∙ rw found refl) (offer_bound e feed le)
    ∙ ap some (offered e feed es le)

-- A step that the database refuses is not announced; one that it makes is announced once, behind it.
pub announced_advance_follows :
    (now : ℤ) (c : Contract) (to : State) (st : Store) (b : Broker) (moved : Contract) (st' : Store)
    (b' : Broker)
    → (announced_advance now c to (st, b) ≡ ok (moved, st', b')) ↔ (
        (advance now c to st ≡ ok (moved, st'))
        × (b' ≡ publish (record { contract = c.id; state = to }) b))
unfolding announced_advance
announced_advance_follows now c to st b moved st' b' = (
  λ h. elim (Result-cases (advance now c to st)) [
    | inl (e, refused) ↦ absurd (ground (arith, refused, h))
    | inr ((m, s), done) ↦ (ground (arith, done, h), ground (arith, done, h))
  ],
  λ (h, e). ground (arith, h, e),
)
