-- ===== src/Examples/Users.antt =====
-- Examples for the users.
use hedge_arkade.Common.{Bytes, Option, ok, ◌≡◌, refl, some, [], ◌∷◌}
use hedge_arkade.Store.Users.{
  User, UserTables, Paired, create_user, create_user-Paired, validate_name, create_rows, find_user,
  find_by_name,
}
use hedge_arkade.Store.Rows.{for_contract}

abbrev no_users : UserTables
no_users = record { users = []; wallets = [] }

abbrev a_user : User
a_user = record { id = 1; name = 65 ∷ 108 ∷ []; public_key = 2 ∷ [] }

abbrev one_user : UserTables
one_user = record { users = a_user ∷ []; wallets = (1, 3 ∷ []) ∷ [] }

user_made :
    create_user (λ name. name) 1 (some (2 ∷ [], 3 ∷ [])) (65 ∷ 108 ∷ []) no_users
    ≡ ok (a_user, one_user)
unfolding create_user validate_name create_rows find_user find_by_name for_contract
user_made = refl

create_user_example :
    (seed : Bytes) × Path (Option (Bytes × Bytes)) (some (2 ∷ [], 3 ∷ [])) (some (2 ∷ [], seed))
    × (a_user.id ≡ 1)
    × (a_user.name ≡ 65 ∷ 108 ∷ [])
    × (one_user.users ≡ a_user ∷ [])
    × (one_user.wallets ≡ (1, seed) ∷ [])
    × Paired one_user.users one_user.wallets
create_user_example =
    create_user-Paired (λ name. name) 1 (some (2 ∷ [], 3 ∷ [])) (65 ∷ 108 ∷ []) no_users a_user
      one_user tt user_made
