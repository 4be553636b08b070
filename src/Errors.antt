-- ===== src/Errors.antt =====
-- The shape of error responses: services/control-plane/src/common/api-error.filter.ts and
-- the envelope of packages/contracts/src/errors.ts.
pub mod Replies
use absolo_cloud_services.Base.{
  ℕ, String, ◌⧺◌, Bool, ◌&&◌, Option, none, some, nat_eq, leb, List, [], ◌∷◌, if◌then◌else◌,
}
use absolo_cloud_services.Schema.Scalars.{Scalar}
use absolo_cloud_services.Result.{
  Error, not_found, conflict, unauthorized, forbidden, bad_request, unique_violation,
  foreign_key_violation, failure,
}

-- `ApiErrorIssueSchema`
pub record Issue : Type 0 where
  pub path : List Scalar
  pub code : String
  pub message : String

-- `ApiErrorSchema`
pub record ApiError : Type 0 where
  pub error_type : String
  pub title : String
  pub status : ℕ
  pub detail : Option String
  pub code : String
  pub request_id : Option String
  pub issues : Option (List Issue)

-- What is thrown: a failed validation, a framework's exception with its status and message, or
-- anything else.
pub data Exception : Type 0 where
  validation : List Issue → Exception
  http : (status : ℕ) → (detail : Option String) → Exception
  other : Exception

-- `ERROR_CODES`
abbrev pub error_codes : List String
error_codes =
    "VALIDATION_FAILED" ∷ "AUTHENTICATION_REQUIRED" ∷ "FORBIDDEN" ∷ "NOT_FOUND" ∷ "CONFLICT"
    ∷ "RATE_LIMITED" ∷ "PAYLOAD_TOO_LARGE" ∷ "PRECONDITION_FAILED" ∷ "QUOTA_EXCEEDED"
    ∷ "BILLING_REQUIRED" ∷ "INTERNAL_ERROR" ∷ "SERVICE_UNAVAILABLE" ∷ []

-- `switch (status)`: the first case with the status, else the default.
unfoldable pub switch {ℓ} : {A : Type ℓ} → ℕ → List (ℕ × A) → A → A
switch status [] default = default
switch status ((s, a) ∷ cases) default =
    let rest = switch status cases default in if nat_eq status s then a else rest

unfoldable pub slug_for_status : ℕ → String
unfolding switch
slug_for_status status =
    switch status
      ((400, "bad-request")
        ∷ (401, "unauthenticated")
        ∷ (403, "forbidden")
        ∷ (404, "not-found")
        ∷ (409, "conflict")
        ∷ (412, "precondition-failed")
        ∷ (413, "payload-too-large")
        ∷ (422, "validation")
        ∷ (429, "rate-limited")
        ∷ (503, "unavailable")
        ∷ [])
      "error"

unfoldable pub title_for_status : ℕ → String
unfolding switch
title_for_status status =
    switch status
      ((400, "Bad request")
        ∷ (401, "Authentication required")
        ∷ (403, "Forbidden")
        ∷ (404, "Not found")
        ∷ (409, "Conflict")
        ∷ (412, "Precondition failed")
        ∷ (413, "Payload too large")
        ∷ (422, "Validation failed")
        ∷ (429, "Rate limited")
        ∷ (503, "Service unavailable")
        ∷ [])
      "Request failed"

unfoldable pub code_for_status : ℕ → String
unfolding switch
code_for_status status =
    switch status
      ((401, "AUTHENTICATION_REQUIRED")
        ∷ (403, "FORBIDDEN")
        ∷ (404, "NOT_FOUND")
        ∷ (409, "CONFLICT")
        ∷ (412, "PRECONDITION_FAILED")
        ∷ (413, "PAYLOAD_TOO_LARGE")
        ∷ (422, "VALIDATION_FAILED")
        ∷ (429, "RATE_LIMITED")
        ∷ (503, "SERVICE_UNAVAILABLE")
        ∷ [])
      (if leb 500 status then "INTERNAL_ERROR" else "BAD_REQUEST")

unfoldable pub build_envelope : Exception → String → ApiError
unfolding slug_for_status title_for_status code_for_status
build_envelope (Exception.validation issues) request_id = record {
  error_type = "https://absolo.cloud/errors/validation";
  title = "Validation failed";
  status = 422;
  detail = none;
  code = "VALIDATION_FAILED";
  request_id = some request_id;
  issues = some issues;
}
build_envelope (Exception.http status detail) request_id = record {
  error_type = "https://absolo.cloud/errors/" ⧺ slug_for_status status;
  title = title_for_status status;
  status = status;
  detail = detail;
  code = code_for_status status;
  request_id = some request_id;
  issues = none;
}
build_envelope Exception.other request_id = record {
  error_type = "https://absolo.cloud/errors/internal";
  title = "Internal server error";
  status = 500;
  detail = none;
  code = "INTERNAL_ERROR";
  request_id = some request_id;
  issues = none;
}

-- `ApiErrorSchema` on an envelope whose fields have their types: the bounds of the status.
abbrev pub conforms : ApiError → Bool
conforms e = leb 400 e.status && leb e.status 599

-- What is sent: `parse` throws on an envelope that does not conform.
unfoldable pub reply_to : Exception → String → Option ApiError
unfolding build_envelope
reply_to exception request_id =
    let envelope = build_envelope exception request_id in
    if conforms envelope then some envelope else none

-- The framework's exceptions that the services throw, and the errors of the database and of third
-- parties, which are none of the framework's.
unfoldable pub exception_of : Error → Exception
exception_of (not_found m) = Exception.http 404 (some m)
exception_of (conflict m) = Exception.http 409 (some m)
exception_of (unauthorized m) = Exception.http 401 (some m)
exception_of (forbidden m) = Exception.http 403 (some m)
exception_of (bad_request m) = Exception.http 400 (some m)
exception_of unique_violation = Exception.other
exception_of foreign_key_violation = Exception.other
exception_of (failure m) = Exception.other
