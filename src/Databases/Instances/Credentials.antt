-- ===== src/Databases/Instances/Credentials.antt =====
-- Re-keying a database.
use absolo_cloud_services.Base.{
  ◌+◌, String, ◌≡◌, refl, sym, ap, ◌∙◌, inl, inr, ◌&&◌, not, some, or_default, ◌==◌, eq_refl, head?,
  filter, count, Option-cases,
}
use absolo_cloud_services.Result.{Result, ok, err}
use absolo_cloud_services.Runtime.Env.{Env}
use absolo_cloud_services.Runtime.State.{State}
use absolo_cloud_services.Runtime.Action.{Action, pure, ◌>>=◌, ◌>>◌, now, in_table, update}
use absolo_cloud_services.Runtime.Laws.{or_throw-none, or_throw-some, count-update_none}
use absolo_cloud_services.Runtime.Tables.Databases.{managed_databases}
use absolo_cloud_services.Databases.Instances.{
  new_password, encrypt_password, database_not_found, rotate_credentials, decrypt_password,
}

module _ ⦃env : Env⦄ where
  abbrev text_in : Result String → String
  text_in (ok t) = t
  text_in (err e) = ""

  -- The rest of the rotation.
  replace_password : String → Action String
  replace_password id = do
    password ← new_password
    at ← now
    update managed_databases (λ r. r.id == id)
        (λ r. record r { master_password_enc = some (encrypt_password password); updated_at = at })
    pure password

  -- After the credentials are rotated, every database with the id has the password that was
  -- returned, where decoding undoes encoding.
  pub rotate_credentials_round_trip :
      (id : String) (s : State) {password : String}
      → ((t : String) → env.base64_decode (env.base64_encode t) ≡ t)
      → (rotate_credentials id s).0 ≡ ok password
      → count
          (λ r.
            r.id == id && not (decrypt_password (or_default r.master_password_enc "") == password))
          (in_table managed_databases (rotate_credentials id s).1)
        ≡ 0
  unfolding rotate_credentials replace_password
  rotate_credentials_round_trip id s {password} inverse e =
      elim (Option-cases (head? (filter (λ r. r.id == id) (in_table managed_databases s)))) [
        | inl missing ↦ cc (
            sym (
              ap (λ o. o.0)
                (or_throw-none (database_not_found id)
                  (head? (filter (λ r. r.id == id) (in_table managed_databases s)))
                  (λ _. replace_password id) s missing))
            ∙ e)
        | inr (db, found) ↦
            let same =
              or_throw-some (database_not_found id)
                (head? (filter (λ r. r.id == id) (in_table managed_databases s)))
                (λ _. replace_password id) s found in
            let p = ap text_in (sym (ap (λ o. o.0) same) ∙ e) in
            ap
              (λ o.
                count
                  (λ r.
                    r.id == id
                    && not (decrypt_password (or_default r.master_password_enc "") == password))
                  (in_table managed_databases o.1))
              same
            ∙ count-update_none
                (λ r.
                  r.id == id
                  && not (decrypt_password (or_default r.master_password_enc "") == password))
                (λ r. r.id == id)
                (λ r. record r {
                  master_password_enc =
                      some (encrypt_password (env.random_bytes s.tick 24 "base64url"));
                  updated_at = env.clock (s.tick + 1);
                })
                s.managed_databases
                (λ r h.
                  rw (h, inverse (env.random_bytes s.tick 24 "base64url"), p, eq_refl password)
                    refl)
                (λ r h. rw h refl)
      ]
