-- ===== src/Storage/AccessKeys.antt =====
-- Access keys: `createAccessKey`, `listAccessKeys` and `revokeAccessKey` of
-- services/control-plane/src/modules/storage/storage.service.ts.
use absolo_cloud_services.Runtime.State.{State}
use absolo_cloud_services.Runtime.Laws.{>>=_frame, insert_frame}
use absolo_cloud_services.Base.{
  refl, ◌∙◌, ◌+◌, ◌≡◌, ℕ, String, ◌⧺◌, Option, none, some_eq, ◌==◌, List, map,
}
use absolo_cloud_services.Runtime.Env.{Env}
use absolo_cloud_services.Runtime.Action.{
  Action, pure, ◌>>=◌, ◌>>◌, next, now, new_id, select, insert, delete,
}
use absolo_cloud_services.Schema.Storage.{AccessKey}
use absolo_cloud_services.Runtime.Tables.Storage.{access_keys}

pub record KeyOptions : Type 0 where
  pub owner_kind : String
  pub owner_id : String
  pub scope : String
  pub bucket_id : Option String

-- The row and the secret.
pub record CreatedKey : Type 0 where
  pub key : AccessKey
  pub secret_key : String

-- What `listAccessKeys` selects of a row.
pub record KeyView : Type 0 where
  pub id : String
  pub owner_kind : String
  pub owner_id : String
  pub scope : String
  pub access_key : String
  pub last_used_at : Option ℕ
  pub created_at : ℕ

abbrev pub key_view : AccessKey → KeyView
key_view r = record {
  id = r.id;
  owner_kind = r.owner_kind;
  owner_id = r.owner_id;
  scope = r.scope;
  access_key = r.access_key;
  last_used_at = r.last_used_at;
  created_at = r.created_at;
}

abbrev pub key_row : KeyOptions → String → String → String → ℕ → AccessKey
key_row opts id access_key secret_hash at = record {
  id = id;
  owner_kind = opts.owner_kind;
  owner_id = opts.owner_id;
  scope = opts.scope;
  bucket_id = opts.bucket_id;
  access_key = access_key;
  secret_hash = secret_hash;
  last_used_at = none;
  created_at = at;
}

module _ ⦃env : Env⦄ where
  unfoldable pub create_access_key : KeyOptions → Action CreatedKey
  create_access_key opts = do
    id ← new_id "key"
    value ← next (λ n. "ak_" ⧺ env.random_bytes n 16 "hex")
    secret ← next (λ n. env.random_bytes n 32 "base64url")
    at ← now
    insert access_keys (key_row opts id value (env.sha256_hex secret) at)
    pure (record { key = key_row opts id value (env.sha256_hex secret) at; secret_key = secret })

  abbrev pub list_access_keys : String → Action (List KeyView)
  list_access_keys bucket_id = do
    rows ← select access_keys (λ r. some_eq r.bucket_id bucket_id)
    pure (map key_view rows)

  abbrev pub revoke_access_key : String → Action (Unit {0})
  revoke_access_key key_id = delete access_keys (λ r. r.id == key_id)

  -- What sees neither the clock nor the access keys.
  module _ {A : Type 0} (f : State → A)
      (blind : (m : ℕ) (v : env.Table AccessKey) (u : State)
        → f (record u { tick = m; access_keys = v }) ≡ f u) where
    pub create_access_key_frame :
        (opts : KeyOptions) (s : State) → f (create_access_key opts s).1 ≡ f s
    unfolding create_access_key
    create_access_key_frame opts s =
        let u : State = record s { tick = s.tick + 1 + 1 + 1 + 1 } in
        >>=_frame f (insert access_keys _) (λ _. pure _) u
          (insert_frame access_keys f _ u (λ v w. blind w.tick v w)) (λ _ _. refl)
        ∙ blind (s.tick + 1 + 1 + 1 + 1) s.access_keys s
