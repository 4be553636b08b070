-- ===== src/Databases/Users.antt =====
-- The users of a database: `createDatabaseUser`, `listDatabaseUsers` and `deleteDatabaseUser` of
-- services/control-plane/src/modules/databases/databases.service.ts.
pub mod Deletion
use absolo_cloud_services.Runtime.State.{State}
use absolo_cloud_services.Runtime.Laws.{>>=_frame, insert_frame, or_throw_frame}
use absolo_cloud_services.Base.{
  refl, ◌∙◌, filter, ◌+◌, head?, ◌≡◌, ℕ, String, ◌⧺◌, Bool, ◌&&◌, Option, none, some, ◌==◌, List,
  map,
}
use absolo_cloud_services.Result.{not_found}
use absolo_cloud_services.Runtime.Env.{Env}
use absolo_cloud_services.Runtime.Action.{
  in_table, Action, pure, ◌>>=◌, ◌>>◌, or_throw, now, new_id, select, select_first, insert, delete,
}
use absolo_cloud_services.Schema.Databases.{DatabaseUser}
use absolo_cloud_services.Runtime.Tables.Databases.{managed_databases, database_users}
use absolo_cloud_services.Databases.Instances.{
  database_not_found, get_database, new_password, encrypt_password,
}

-- The row and the password.
pub record CreatedUser : Type 0 where
  pub user : DatabaseUser
  pub password : String

-- What `listDatabaseUsers` selects of a row.
pub record UserView : Type 0 where
  pub id : String
  pub username : String
  pub scope : String
  pub bound_app_id : Option String
  pub created_at : ℕ

abbrev pub user_view : DatabaseUser → UserView
user_view r = record {
  id = r.id;
  username = r.username;
  scope = r.scope;
  bound_app_id = r.bound_app_id;
  created_at = r.created_at;
}

abbrev pub user_row : String → String → String → String → String → Option String → ℕ → DatabaseUser
user_row id database_id username password_enc scope bound_app_id at = record {
  id = id;
  database_id = database_id;
  username = username;
  password_enc = some password_enc;
  scope = scope;
  bound_app_id = bound_app_id;
  expires_at = none;
  created_at = at;
}

abbrev pub is_user : String → String → DatabaseUser → Bool
is_user database_id user_id r = r.id == user_id && r.database_id == database_id

module _ ⦃env : Env⦄ where
  pub store_user : String → String → String → Option String → Action CreatedUser
  store_user database_id username scope bound_app_id = do
    password ← new_password
    id ← new_id "dbu"
    at ← now
    let row = user_row id database_id username (encrypt_password password) scope bound_app_id at
    insert database_users row
    pure (record { user = row; password = password })

  unfoldable pub create_database_user :
      String → String → String → Option String → Action CreatedUser
  unfolding store_user
  create_database_user database_id username scope bound_app_id = do
    get_database database_id
    store_user database_id username scope bound_app_id

  abbrev pub list_database_users : String → Action (List UserView)
  list_database_users database_id = do
    rows ← select database_users (λ r. r.database_id == database_id)
    pure (map user_view rows)

  abbrev pub delete_database_user : String → String → Action (Unit {0})
  delete_database_user database_id user_id = do
    user ← select_first database_users (is_user database_id user_id)
    or_throw (not_found ("User " ⧺ user_id ⧺ " not found")) user
    delete database_users (λ r. r.id == user_id)

  -- What sees neither the clock nor the users of databases.
  module _ {A : Type 0} (f : State → A)
      (blind : (m : ℕ) (v : env.Table DatabaseUser) (u : State)
        → f (record u { tick = m; database_users = v }) ≡ f u) where
    store_user_frame :
        (database_id username scope : String) (app : Option String) (s : State)
        → f (store_user database_id username scope app s).1 ≡ f s
    unfolding store_user
    store_user_frame database_id username scope app s =
        let u : State = record s { tick = s.tick + 1 + 1 + 1 } in
        >>=_frame f (insert database_users _) (λ _. pure _) u
          (insert_frame database_users f _ u (λ v w. blind w.tick v w)) (λ _ _. refl)
        ∙ blind (s.tick + 1 + 1 + 1) s.database_users s

    pub create_database_user_frame :
        (database_id username scope : String) (app : Option String) (s : State)
        → f (create_database_user database_id username scope app s).1 ≡ f s
    unfolding create_database_user
    create_database_user_frame database_id username scope app s =
        >>=_frame f
          (or_throw (database_not_found database_id)
            (head? (filter (λ r. r.id == database_id) (in_table managed_databases s))))
          (λ _. store_user database_id username scope app) s (or_throw_frame f _ _ s)
          (λ _ u. store_user_frame database_id username scope app u)
