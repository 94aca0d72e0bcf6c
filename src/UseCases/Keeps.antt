-- ===== src/UseCases/Keeps.antt =====
-- Invariants of use cases, one rule for each way to build one.
use hedge_arkade.Common.{if◌then◌else◌, ok, err, ℕ, ◌≡◌, refl, Bool, true, false}
use hedge_arkade.Domain.Records.{AppError, Reply}
use hedge_arkade.Store.Rows.{Store}
use hedge_arkade.UseCases.Action.{
  Action, and_then, ◌>>=◌, ◌>>◌, return, lift, ask, change, attempt, settle_reply, get,
}

-- `m` keeps `P`, also where it fails half-way.
pub record Keeps (P : Store → Type 0) {A : Type 0} (m : Action A) : Type 0 where
  pub at : (st : Store) → P st → P (m st).1

module _ {P : Store → Type 0} {A : Type 0} where
  pub Keeps-return : (a : A) → Keeps P (return a)
  unfolding return
  Keeps-return a = record { at = λ st p. p }

  pub Keeps-lift : (r : Reply A) → Keeps P (lift r)
  unfolding lift
  Keeps-lift r = record { at = λ st p. p }

  pub Keeps-ask : (f : Store → Reply A) → Keeps P (ask f)
  unfolding ask
  Keeps-ask f = record { at = λ st p. p }

  -- either branch of a test
  pub Keeps-branch :
      (test : Bool) (first second : Action A)
      → Keeps P first
      → Keeps P second
      → Keeps P (if test then first else second)
  Keeps-branch true first second k l = k
  Keeps-branch false first second k l = l

settled :
    {P : Store → Type 0} {A : Type 0} (st : Store) (r : Reply (A × Store))
    → P st
    → ((a : A) (st' : Store) → r ≡ ok (a, st') → P st')
    → P (settle_reply st r).1
settled st (ok (a, st')) p h = h a st' refl
settled st (err e) p h = p

-- A statement that may fail keeps what each of its successes keeps.
pub Keeps-attempt :
    {P : Store → Type 0} {A : Type 0} (f : Store → Reply (A × Store))
    → ((st : Store) (a : A) (st' : Store) → P st → f st ≡ ok (a, st') → P st')
    → Keeps P (attempt f)
unfolding attempt
Keeps-attempt f h = record { at = λ st p. settled st (f st) p (λ a st' e. h st a st' p e) }

pub Keeps-get : {P : Store → Type 0} (id : ℕ) → Keeps P (get id)
unfolding get
Keeps-get id = Keeps-ask _

ran :
    {P : Store → Type 0} {A B : Type 0} (r : Reply A) (st : Store) (next : A → Action B)
    → P st
    → ((a : A) → r ≡ ok a → Keeps P (next a))
    → P (and_then (r, st) next).1
unfolding and_then
ran (ok a) st next p k = (k a refl).at st p
ran (err e) st next p k = p

module _ {P : Store → Type 0} {A B : Type 0} where
  pub Keeps-bind :
      (m : Action A) (next : A → Action B)
      → Keeps P m
      → ((a : A) → Keeps P (next a))
      → Keeps P (m >>= next)
  unfolding ◌>>=◌
  Keeps-bind m next km kn = record {
    at = λ st p. let (r, st') = m st in ran r st' next (km.at st p) (λ a _. kn a);
  }

pub Keeps-then :
    {P : Store → Type 0} {B : Type 0} (m : Action (Unit {0})) (next : Action B)
    → Keeps P m
    → Keeps P next
    → Keeps P (m >> next)
unfolding ◌>>◌
Keeps-then m next km kn = Keeps-bind m (λ _. next) km (λ _. kn)

-- the two shapes of a step that leaves the store alone
module _ {P : Store → Type 0} {A B : Type 0} where
  pub Keeps-each :
      (r : Reply A) (next : A → Action B) → ((a : A) → Keeps P (next a)) → Keeps P (lift r >>= next)
  Keeps-each r next k = Keeps-bind _ _ (Keeps-lift r) k

pub Keeps-past :
    {P : Store → Type 0} {B : Type 0} (r : Reply (Unit {0})) (next : Action B)
    → Keeps P next
    → Keeps P (lift r >> next)
Keeps-past r next k = Keeps-then _ _ (Keeps-lift _) k

-- From the store `st`, `m` leaves one with `P`: for blocks whose steps use what was read.
pub record Leaves (P : Store → Type 0) {A : Type 0} (st : Store) (m : Action A) : Type 0 where
  pub at : P (m st).1

ran_from :
    (P : Store → Type 0) {A B : Type 0} (r : Reply A) (st : Store) (next : A → Action B)
    → P st
    → ((a : A) → r ≡ ok a → Leaves P st (next a))
    → P (and_then (r, st) next).1
unfolding and_then
ran_from P (ok a) st next p k = (k a refl).at
ran_from P (err e) st next p k = p

module _ {P : Store → Type 0} {A B : Type 0} (st : Store) (p : P st) where
  pub Leaves-read :
      (q : Store → Reply A) (next : A → Action B)
      → ((a : A) → q st ≡ ok a → Leaves P st (next a))
      → Leaves P st (ask q >>= next)
  unfolding ◌>>=◌ ask
  Leaves-read q next k = record { at = ran_from P (q st) st next p k }

  pub Leaves-each :
      (r : Reply A) (next : A → Action B)
      → ((a : A) → r ≡ ok a → Leaves P st (next a))
      → Leaves P st (lift r >>= next)
  unfolding ◌>>=◌ lift
  Leaves-each r next k = record { at = ran_from P r st next p k }

-- behind a statement that may not fail
pub Leaves-change :
    {P : Store → Type 0} {B : Type 0} (st : Store) (f : Store → Store) (next : Action B)
    → Leaves P (f st) next
    → Leaves P st (change f >> next)
unfolding ◌>>=◌ ◌>>◌ change and_then
Leaves-change st f next k = record { at = k.at }

-- a step whose reply and store are known
pub Leaves-then :
    {P : Store → Type 0} {B : Type 0} (st st' : Store) (m : Action (Unit {0})) (next : Action B)
    → m st ≡ (ok tt, st')
    → Leaves P st' next
    → Leaves P st (m >> next)
unfolding ◌>>=◌ ◌>>◌ and_then
Leaves-then st st' m next e k = record { at = rw e k.at }

pub Leaves-stop :
    {P : Store → Type 0} {B : Type 0} (st : Store) (m : Action (Unit {0})) (next : Action B)
    (e : AppError)
    → m st ≡ (err e, st)
    → P st
    → Leaves P st (m >> next)
unfolding ◌>>=◌ ◌>>◌ and_then
Leaves-stop st m next e h p = record { at = rw h p }

-- a step, behind which only what keeps `P` runs
pub Leaves-last :
    {P : Store → Type 0} {A B : Type 0} (st : Store) (m : Action A) (next : A → Action B)
    → Leaves P st m
    → ((a : A) → Keeps P (next a))
    → Leaves P st (m >>= next)
unfolding ◌>>=◌
Leaves-last st m next km kn = record {
  at = let (r, st') = m st in ran r st' next km.at (λ a _. kn a);
}

pub ruleset keeps_rules =
    (Keeps-return, Keeps-lift, Keeps-ask, Keeps-get, Keeps-branch, Keeps-bind, Keeps-then)
