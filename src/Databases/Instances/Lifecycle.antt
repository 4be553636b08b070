-- ===== src/Databases/Instances/Lifecycle.antt =====
-- Deleting and scaling a database.
use absolo_cloud_services.Base.{
  Bool, count_congr, count_pos_of_head?, ℕ, ◌+◌, ◌≤◌, String, ◌≡◌, refl, sym, ap, ◌∙◌, ◌⊎◌, inl,
  inr, ◌&&◌, not, Bool-cases, Option, none, some, is_some, ◌==◌, ltb, head?, filter, count,
  head?-filter-none, Option-cases, if◌then◌else◌, arith,
}
use absolo_cloud_services.Result.{Result, ok, err, Result-cases}
use absolo_cloud_services.Runtime.Env.{Env}
use absolo_cloud_services.Runtime.State.{State}
use absolo_cloud_services.Runtime.Action.{Action, ◌>>=◌, or_throw, now, in_table, update}
use absolo_cloud_services.Runtime.Laws.{>>=-ok, or_throw-none, or_throw-some, count-update_none}
use absolo_cloud_services.Schema.Databases.{ManagedDatabase}
use absolo_cloud_services.Runtime.Tables.Databases.{managed_databases}
use absolo_cloud_services.Databases.Instances.{
  database_not_found, get_database, grown, scaled, apply_scale, scale_database, drop_namespace,
  remove_database, delete_database,
}

module _ ⦃env : Env⦄ where
  drop_namespace-ok : (o : Option String) (s : State) → (drop_namespace o s).0 ≡ ok tt
  unfolding drop_namespace
  drop_namespace-ok none s = refl
  drop_namespace-ok (some namespace) s =
      elim (Bool-cases (env.has_cluster && not (namespace == ""))) [
        | inr off ↦ rw off refl
        | inl on ↦ elim (Result-cases (env.delete_namespace s.tick namespace)) [
          | inl (_, e) ↦ rw (on, e) refl
          | inr (_, e) ↦ rw (on, e) refl
        ]
      ]

  -- The last update of the deletion.
  finish_removal : String → Action (Unit {0})
  finish_removal id = do
    deleted ← now
    updated ← now
    update managed_databases (λ r. r.id == id)
        (λ r. record r { status = "deleted"; deleted_at = some deleted; updated_at = updated })

  remove_database-ok :
      (id : String) (db : ManagedDatabase) (s : State)
      → ((remove_database id db s).0 ≡ ok tt)
        × (count
              (λ r. r.id == id && not (is_some r.deleted_at && r.status == "deleted"))
              (in_table managed_databases (remove_database id db s).1)
            ≡ 0)
  unfolding remove_database finish_removal
  remove_database-ok id db s =
      let s1 : State = record s {
        tick = s.tick + 1;
        managed_databases =
            env.update_where (λ r. r.id == id)
              (λ r. record r { status = "deleting"; updated_at = env.clock s.tick })
              s.managed_databases;
      } in
      let step =
        >>=-ok (drop_namespace db.k8s_namespace) (λ _. finish_removal id) s1
          (drop_namespace-ok db.k8s_namespace s1) in
      let u = (drop_namespace db.k8s_namespace s1).1 in
      (
        ap (λ o. o.0) step,
        ap
              (λ o.
                count (λ r. r.id == id && not (is_some r.deleted_at && r.status == "deleted"))
                  (in_table managed_databases o.1))
              step
            ∙ count-update_none
                (λ r. r.id == id && not (is_some r.deleted_at && r.status == "deleted"))
                (λ r. r.id == id)
                (λ r. record r {
                  status = "deleted";
                  deleted_at = some (env.clock u.tick);
                  updated_at = env.clock (u.tick + 1);
                })
                u.managed_databases (λ r h. ground arith) (λ r h. rw h refl),
      )

  -- To delete a database that is not there throws and changes nothing. To delete one that is there
  -- returns, whatever the cluster answers, and every database with the id is deleted.
  pub delete_database_gone :
      (id : String) (s : State)
      → let (r, s') = delete_database id s in
        ((count (λ d. d.id == id) (in_table managed_databases s) ≡ 0)
          × (r ≡ err (database_not_found id))
          × (s' ≡ s))
        ⊎ ((1 ≤ count (λ d. d.id == id) (in_table managed_databases s))
            × (r ≡ ok tt)
            × (count
                  (λ d. d.id == id && not (is_some d.deleted_at && d.status == "deleted"))
                  (in_table managed_databases s')
                ≡ 0))
  unfolding delete_database
  delete_database_gone id s =
      elim (Option-cases (head? (filter (λ d. d.id == id) (in_table managed_databases s)))) [
        | inl e ↦
            let same =
              or_throw-none (database_not_found id)
                (head? (filter (λ d. d.id == id) (in_table managed_databases s)))
                (λ db. remove_database id db) s e in
            inl (
              head?-filter-none (λ d. d.id == id) (in_table managed_databases s) e,
              ap (λ o. o.0) same,
              ap (λ o. o.1) same,
            )
        | inr (db, e) ↦
            let same =
              or_throw-some (database_not_found id)
                (head? (filter (λ d. d.id == id) (in_table managed_databases s)))
                (λ db. remove_database id db) s e in
            let (done, gone) = remove_database-ok id db s in
            inr (
              count_pos_of_head? (λ d. d.id == id) (in_table managed_databases s) e,
              ap (λ o. o.0) same ∙ done,
              ap
                    (λ o.
                      count (λ d. d.id == id && not (is_some d.deleted_at && d.status == "deleted"))
                        (in_table managed_databases o.1))
                    same
                  ∙ gone,
            )
      ]

  abbrev database_in : ManagedDatabase → Result ManagedDatabase → ManagedDatabase
  database_in db (ok r) = r
  database_in db (err e) = db

  at_least : (n m : ℕ) → n ≤ (if ltb n m then m else n)
  at_least n m = ground arith

  stored_storage :
      (n g m : ℕ)
      → (if ltb n g then g else m)
        ≡ (if ltb n (if ltb n g then g else n) then (if ltb n g then g else n) else m)
  stored_storage n g m = ground arith

  -- A database that scales is one that was found, gets the size that was asked for and no less storage
  -- than before. Every row with the id is stored with the size and the status that were returned, and
  -- with the storage that was returned if that is more than before; other rows stay as they are.
  pub scale_database_grows :
      (id size : String) (gb : Option ℕ) (s : State) {db' : ManagedDatabase}
      → (scale_database id size gb s).0 ≡ ok db'
      → (db : ManagedDatabase) × (get_database id s ≡ (ok db, s))
        × (db'.size ≡ size)
        × (db'.status ≡ "scaling")
        × (db.storage_gb ≤ db'.storage_gb)
        × ((q : ManagedDatabase → Bool)
            → count q (in_table managed_databases (scale_database id size gb s).1)
              ≡ count
                  (λ r. q (
                    if r.id == id
                    then record r {
                      size = db'.size;
                      status = db'.status;
                      storage_gb =
                          if ltb db.storage_gb db'.storage_gb then db'.storage_gb else r.storage_gb;
                      updated_at = db'.updated_at;
                    }
                    else r))
                  (in_table managed_databases s))
  unfolding scale_database apply_scale
  scale_database_grows id size gb s {db'} e =
      elim (Option-cases (head? (filter (λ r. r.id == id) (in_table managed_databases s)))) [
        | inl missing ↦ cc (
            sym (
              ap (λ o. o.0)
                (or_throw-none (database_not_found id)
                  (head? (filter (λ r. r.id == id) (in_table managed_databases s)))
                  (apply_scale id size gb) s missing))
            ∙ e)
        | inr (db, found) ↦
            let e' =
              sym (
                ap (λ o. o.0)
                  (or_throw-some (database_not_found id)
                    (head? (filter (λ r. r.id == id) (in_table managed_databases s)))
                    (apply_scale id size gb) s found))
              ∙ e in
            (
              db,
              ap (λ o. or_throw (database_not_found id) o s) found,
              rw (sym (ap (database_in db) e')) refl,
              rw (sym (ap (database_in db) e')) refl,
              rw (sym (ap (database_in db) e')) (at_least db.storage_gb (grown gb db.storage_gb)),
              λ q.
                  ap (λ o. count q (in_table managed_databases o.1))
                    (or_throw-some (database_not_found id)
                      (head? (filter (λ r. r.id == id) (in_table managed_databases s)))
                      (apply_scale id size gb) s found)
                  ∙ env.count-update_where q (λ r. r.id == id)
                      (scaled db size gb (env.clock s.tick)) s.managed_databases
                  ∙ count_congr _ _ (in_table managed_databases s) (λ r. ap q (
                      rw (sym (ap (database_in db) e')) (
                        ap
                          (λ n.
                            if r.id == id
                            then record r {
                              size = size;
                              status = "scaling";
                              storage_gb = n;
                              updated_at = env.clock s.tick;
                            }
                            else r)
                          (stored_storage db.storage_gb (grown gb db.storage_gb) r.storage_gb)))),
            )
      ]
