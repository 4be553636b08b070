-- ===== src/Databases/Operator/Engines.antt =====
-- Which databases have a custom resource.
use absolo_cloud_services.Base.{
  ◌⧺◌, ℕ, ◌≡◌, refl, ◌⊎◌, inl, inr, true, false, ◌||◌, Bool-cases, ◌==◌, if◌then◌else◌,
}
use absolo_cloud_services.Result.{ok, err, Error}
use absolo_cloud_services.Texts.{decimal}
use absolo_cloud_services.Schema.Databases.{ManagedDatabase}
use absolo_cloud_services.Runtime.Cluster.{Specs, OperatorCr}
use absolo_cloud_services.Databases.Operator.{failure, replicas, some_text, build_operator_cr}

-- The replicas that a custom resource asks for.
abbrev pub replicas_of : OperatorCr → ℕ
replicas_of (OperatorCr.postgres_cluster _ _ n _ _ _ _) = n
replicas_of (OperatorCr.percona_cluster _ _ n _ _) = n
replicas_of (OperatorCr.redis_failover _ _ n _ _) = n

-- A database has a custom resource just where its engine is postgres, mysql or redis, and that
-- asks for three replicas where high availability is on, and for one otherwise.
pub build_operator_cr_engines :
    (db : ManagedDatabase) (specs : Specs)
    → ((e : Error) × (build_operator_cr db specs ≡ err e)
        × ((db.engine == "postgres" || db.engine == "mysql" || db.engine == "redis") ≡ false))
      ⊎ ((cr : OperatorCr) × (build_operator_cr db specs ≡ ok cr)
          × ((db.engine == "postgres" || db.engine == "mysql" || db.engine == "redis") ≡ true)
          × (replicas_of cr ≡ (if db.ha then 3 else 1)))
unfolding build_operator_cr
build_operator_cr_engines db specs = elim (Bool-cases (db.engine == "postgres")) [
  | inl p ↦ inr (
    OperatorCr.postgres_cluster (some_text db.k8s_cr_name) (some_text db.k8s_namespace)
        (replicas db) db.master_username (decimal db.storage_gb ⧺ "Gi") specs specs,
    rw p refl,
    rw p refl,
    refl,
  )
  | inr not_p ↦ elim (Bool-cases (db.engine == "mysql")) [
    | inl m ↦ inr (
      OperatorCr.percona_cluster (some_text db.k8s_cr_name) (some_text db.k8s_namespace)
          (replicas db) specs (decimal db.storage_gb ⧺ "Gi"),
      rw (not_p, m) refl,
      rw (not_p, m) refl,
      refl,
    )
    | inr not_m ↦ elim (Bool-cases (db.engine == "redis")) [
      | inl r ↦ inr (
        OperatorCr.redis_failover (some_text db.k8s_cr_name) (some_text db.k8s_namespace)
            (replicas db) specs (replicas db),
        rw (not_p, not_m, r) refl,
        rw (not_p, not_m, r) refl,
        refl,
      )
      | inr not_r ↦ inl (
        failure ("Unsupported engine: " ⧺ db.engine),
        rw (not_p, not_m, not_r) refl,
        rw (not_p, not_m, not_r) refl,
      )
    ]
  ]
]
