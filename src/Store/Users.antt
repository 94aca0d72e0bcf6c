-- ===== src/Store/Users.antt =====
-- The users and their wallets (service/internal/domain/user.go, service/internal/postgres/users.go,
-- service/internal/app/users.go, `CreateUser`). `strings.TrimSpace` and the key generator are
-- parameters.
use std.Path.{subst}
use hedge_arkade.Common.{
  ◌>>=◌, ◌>>◌, ltb, ◌==◌, if◌then◌else◌, length, Bytes, bytes_equal, err, >>=-eq-ok, past_fail_if,
  ℕ, ◌≤◌, ◌<◌, ◌≡◌, refl, sym, ap, ◌∙◌, Bool, true, false, Option, none, some, List, [], ◌∷◌, arith,
  ok, fail_if, ok-inj,
}
use hedge_arkade.Domain.Records.{Reply, name_taken, not_found, invalid, failed_call}
use hedge_arkade.Store.Rows.{for_contract}

pub record User : Type 0 where
  pub id : ℕ
  pub name : Bytes
  pub public_key : Bytes

-- the tables `users` and `wallets`, a wallet's seed by its user
pub record UserTables : Type 0 where
  pub users : List User
  pub wallets : List (ℕ × Bytes)

-- `maxUserName`
abbrev pub max_user_name : ℕ
max_user_name = 32

-- `ValidateName`: the length is in bytes.
unfoldable pub validate_name : (Bytes → Bytes) → Bytes → Option Bytes
validate_name trim name =
    if length (trim name) == 0
    then none
    else if ltb max_user_name (length (trim name))
    then none
    else some (trim name)

-- `Get` and `ByName`
unfoldable pub find_user : ℕ → List User → Option User
find_user id [] = none
find_user id (u ∷ us) = if u.id == id then some u else find_user id us

unfoldable pub find_by_name : Bytes → List User → Option User
find_by_name name [] = none
find_by_name name (u ∷ us) = if bytes_equal u.name name then some u else find_by_name name us

-- `Seed`
unfoldable pub seed_of : ℕ → UserTables → Reply Bytes
seed_of id t = elim (for_contract id t.wallets) [ none ↦ err not_found | some seed ↦ ok seed ]

abbrev taken {ℓ} : {A : Type ℓ} → Option A → Bool
taken none = false
taken (some _) = true

-- `UserRepo.Create`: both rows in one transaction. A unique violation of the first, of the name or the
-- id, is `ErrNameTaken`; one of the second undoes both.
unfoldable pub create_rows : User → Bytes → UserTables → Reply UserTables
create_rows u seed t = do
  fail_if (taken (find_user u.id t.users)) name_taken
  fail_if (taken (find_by_name u.name t.users)) name_taken
  fail_if (taken (for_contract u.id t.wallets)) failed_call
  ok (record { users = u ∷ t.users; wallets = (u.id, seed) ∷ t.wallets })

-- the trimmed name, or `ErrInvalid`
abbrev name_or_invalid : Option Bytes → Reply Bytes
name_or_invalid none = err invalid
name_or_invalid (some name) = ok name

-- `CreateUser`, of a fresh id and a fresh key: its public half and its seed
unfoldable pub create_user :
    (Bytes → Bytes) → ℕ → Option (Bytes × Bytes) → Bytes → UserTables → Reply (User × UserTables)
create_user trim id key name t = do
  clean ← name_or_invalid (validate_name trim name)
  pair ← elim key [ none ↦ err failed_call | some k ↦ ok k ]
  let u : User = record { id = id; name = clean; public_key = pair.0 }
  t' ← create_rows u pair.1 t
  ok (u, t')

-- Each user has a wallet, and a wallet its user; ids and names are taken once, and a name has between
-- one byte and the bound.
abbrev pub Paired : List User → List (ℕ × Bytes) → Type 0
Paired [] [] = Unit
Paired (u ∷ us) [] = ⊥
Paired [] (w ∷ ws) = ⊥
Paired (u ∷ us) ((k, seed) ∷ ws) =
    (k ≡ u.id)
    × (find_user u.id us ≡ none)
    × (find_by_name u.name us ≡ none)
    × (0 < length u.name)
    × (length u.name ≤ max_user_name)
    × Paired us ws

validate_name-eq-some :
    (trim : Bytes → Bytes) (name : Bytes) {clean : Bytes}
    → validate_name trim name ≡ some clean
    → (0 < length clean) × (length clean ≤ max_user_name)
unfolding validate_name
validate_name-eq-some trim name h = (ground arith, ground arith)

found_name : (o : Option Bytes) {name : Bytes} → name_or_invalid o ≡ ok name → o ≡ some name
found_name none h = absurd (cc)
found_name (some n) h = cc

untaken : {A : Type 0} (o : Option A) → taken o ≡ false → o ≡ none
untaken none h = refl
untaken (some a) h = absurd (cc)

key_answer :
    (key : Option (Bytes × Bytes)) {pair : Bytes × Bytes}
    → Path (Reply (Bytes × Bytes)) (elim key [ none ↦ err failed_call | some k ↦ ok k ]) (ok pair)
    → key ≡ some pair
key_answer none h = absurd (cc)
key_answer (some k) h = cc

validated :
    (trim : Bytes → Bytes) (name : Bytes) {clean : Bytes}
    → validate_name trim name ≡ some clean
    → clean ≡ trim name
unfolding validate_name
validated trim name h = ground arith

-- Whatever name is asked for: a user that is created has the id, the trimmed name and the fresh key that
-- were asked for, stands in front of the users that were there, with its seed in front of their wallets,
-- and leaves the tables paired, so that its name is within the bounds and no other user has it.
pub create_user-Paired :
    (trim : Bytes → Bytes) (id : ℕ) (key : Option (Bytes × Bytes)) (name : Bytes) (t : UserTables)
    (u : User) (t' : UserTables)
    → Paired t.users t.wallets
    → create_user trim id key name t ≡ ok (u, t')
    → (seed : Bytes) × (key ≡ some (u.public_key, seed))
      × (u.id ≡ id)
      × (u.name ≡ trim name)
      × (t'.users ≡ u ∷ t.users)
      × (t'.wallets ≡ (id, seed) ∷ t.wallets)
      × Paired t'.users t'.wallets
unfolding create_user create_rows
create_user-Paired trim id key name t u t' p h =
    let (clean, en, h1) = >>=-eq-ok (name_or_invalid (validate_name trim name)) _ h in
    let (pair, ek, h2) = >>=-eq-ok (elim key [ none ↦ err failed_call | some k ↦ ok k ]) _ h1 in
    let new : User = record { id = id; name = clean; public_key = pair.0 } in
    let (t2, et, h3) = >>=-eq-ok (create_rows new pair.1 t) _ h2 in
    let (fresh, h4) = past_fail_if (taken (find_user id t.users)) name_taken _ et in
    let (named, h5) = past_fail_if (taken (find_by_name clean t.users)) name_taken _ h4 in
    let (alone, h6) = past_fail_if (taken (for_contract id t.wallets)) failed_call _ h5 in
    let (low, high) = validate_name-eq-some trim name (found_name _ en) in
    let is_u : new ≡ u = ap (λ x. x.0) (ok-inj h3) in
    let tables = ok-inj h6 ∙ ap (λ x. x.1) (ok-inj h3) in
    (
      pair.1,
      key_answer key ek ∙ ap (λ x. some (x.public_key, pair.1)) is_u,
      sym (ap (λ x. x.id) is_u),
      sym (ap (λ x. x.name) is_u) ∙ validated trim name (found_name _ en),
      sym (ap (λ x. x.users) tables) ∙ ap (λ x. x ∷ t.users) is_u,
      sym (ap (λ x. x.wallets) tables),
      subst (λ x. Paired x.users x.wallets) tables
          (refl, untaken _ fresh, untaken _ named, low, high, p),
    )
