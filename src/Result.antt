-- ===== src/Result.antt =====
-- What a request handler throws, and results. The first constructors are the exceptions of
-- @nestjs/common that services/control-plane/src throws; the unique violation is Postgres' 23505.
use absolo_cloud_services.Base.{String, Bool, true, false, ◌≡◌, refl, ◌⊎◌, inl, inr}

pub data Error : Type 0 where
  not_found conflict unauthorized forbidden bad_request : String → Error
  unique_violation foreign_key_violation : Error
  -- `new Error(message)`, and what a third-party client throws
  failure : String → Error

pub data Result {ℓ} (A : Type ℓ) : Type ℓ where
  ok : A → Result A
  err : Error → Result A

abbrev pub is_ok {ℓ} : {A : Type ℓ} → Result A → Bool
is_ok (ok a) = true
is_ok (err e) = false

pub Result-cases {ℓ} :
    {A : Type ℓ} (r : Result A) → ((a : A) × (r ≡ ok a)) ⊎ ((e : Error) × (r ≡ err e))
Result-cases (ok a) = inl (a, refl)
Result-cases (err e) = inr (e, refl)
