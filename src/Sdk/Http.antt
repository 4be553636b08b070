-- ===== src/Sdk/Http.antt =====
-- A call of the client: packages/sdk-ts/src/http.ts and errors.ts. `fetch` is an argument, which
-- answers with a response or fails; a response's body is the value that its JSON stands for, if it is
-- JSON. The clock of `onResponse` and the signals are left out.
pub mod Errors
use native.Mathlib.Nat.{le_trans}
use absolo_cloud_services.Base.{
  ℕ, zero, suc, ◌+◌, ◌-◌, ◌*◌, ◌/◌, ◌%◌, ◌≤◌, ◌<◌, String, ◌⧺◌, ◌≡◌, ◌≢◌, refl, sym, ap, ◌∙◌, ◌⊎◌,
  inl, inr, ◌↔◌, Bool, true, false, ◌&&◌, ◌||◌, not, Bool-cases, Option, none, some, is_some,
  some_eq, or_default, given, ◌==◌, eq_refl, eq_iff, eq_comm, nat_eq, ltb, leb, List, [], ◌∷◌, ◌++◌,
  map, head?, find, filter, length, get_elem?, count, count_congr, count_mono, count-false,
  count_none, count_split, count_or_le, count_disjoint, count-append, count_pos_of_head?,
  head?-filter_unseen, head?-filter_seen, head?-filter_only, head?-filter-none, head?-filter-some,
  head?-filter-count, length-filter, and_left, and_right, and_intro, Option-cases, if◌then◌else◌,
  arith,
}
use absolo_cloud_services.Result.{
  Result, ok, err, is_ok, Error, not_found, conflict, unauthorized, forbidden, bad_request,
  unique_violation, foreign_key_violation, failure, Result-cases,
}
use absolo_cloud_services.Runtime.Env.{Env}
use absolo_cloud_services.Runtime.State.{State}
use absolo_cloud_services.Runtime.Action.{
  Action, pure, throw, ◌>>=◌, ◌>>◌, when, or_throw, catch, transaction, lift, next, respond, send,
  now, new_id, Relation, in_table, select, select_first, clash, update_returning, insert_all,
  insert, insert_or_ignore, upsert, update, delete,
}
use absolo_cloud_services.Errors.{ApiError}
use absolo_cloud_services.Contracts.JsonValues.{Value}
use absolo_cloud_services.Contracts.Envelopes.{safe_parse}

-- `ResolvedOptions`
pub record Options : Type 0 where
  pub base_url : String
  pub token : Option String
  pub user_agent : String
  pub timeout_ms : ℕ

-- `AbsoloClientOptions`
pub record ClientOptions : Type 0 where
  pub base_url : Option String
  pub token : Option String
  pub user_agent : Option String
  pub timeout_ms : Option ℕ

-- `{ ...DEFAULTS, ...options }`, where an option that is left out is not a key.
abbrev pub with_defaults : ClientOptions → Options
with_defaults options = record {
  base_url = or_default options.base_url "https://api.absolo.cloud";
  token = options.token;
  user_agent = or_default options.user_agent "@absolo/sdk/0.0.0";
  timeout_ms = or_default options.timeout_ms 30000;
}

-- What `JSON.stringify` is given: an object, or the text of one that was serialised before.
pub data Payload : Type 0 where
  as_object : Value → Payload
  as_text : Value → Payload

-- `RequestOptions`; the values of the query are texts already.
pub record RequestOptions : Type 0 where
  pub query : List (String × Option String)
  pub body : Option Payload
  pub headers : List (String × String)

pub record RequestInit : Type 0 where
  pub method : String
  pub path : String
  pub base_url : String
  pub query : List (String × String)
  pub headers : List (String × String)
  pub body : Option Payload

pub record Response : Type 0 where
  pub status : ℕ
  pub status_text : String
  -- the header `x-request-id`
  pub request_id : Option String
  pub body : Option Value

-- A promise's outcome: a value, an `AbsoloApiError` by its envelope, an `AbsoloNetworkError` by its
-- message, or the error of a body that is no JSON.
pub data Outcome : Type 0 where
  resolved : Value → Outcome
  no_content : Outcome
  api_error : ApiError → Outcome
  network_error : String → Outcome
  syntax_error : Outcome

-- `headers[name] = value`
unfoldable pub set_header : String → String → List (String × String) → List (String × String)
set_header name value [] = (name, value) ∷ []
set_header name value ((n, v) ∷ headers) =
    if n == name then (n, value) ∷ headers else (n, v) ∷ set_header name value headers

unfoldable pub set_headers :
    List (String × String) → List (String × String) → List (String × String)
unfolding set_header
set_headers [] headers = headers
set_headers ((n, v) ∷ extra) headers = set_headers extra (set_header n v headers)

-- `if (this.options.token)`
abbrev pub authorize : Option String → List (String × String) → List (String × String)
authorize none headers = headers
authorize (some token) headers =
    if token == "" then headers else set_header "authorization" ("Bearer " ⧺ token) headers

unfoldable pub build_headers : Options → List (String × String) → Bool → List (String × String)
unfolding set_headers set_header
build_headers options extra has_body =
    let headers =
      set_headers extra
        (("accept", "application/json") ∷ ("user-agent", options.user_agent) ∷ []) in
    authorize options.token
      (if has_body then set_header "content-type" "application/json" headers else headers)

-- The query's entries that are neither undefined nor null.
unfoldable pub kept_query : List (String × Option String) → List (String × String)
kept_query [] = []
kept_query ((k, none) ∷ query) = kept_query query
kept_query ((k, some v) ∷ query) = (k, v) ∷ kept_query query

unfoldable pub prepare : Options → String → String → RequestOptions → RequestInit
unfolding build_headers kept_query
prepare options method path opts = record {
  method = method;
  path = path;
  base_url = options.base_url;
  query = kept_query opts.query;
  headers = build_headers options opts.headers (is_some opts.body);
  body = opts.body;
}

abbrev pub title_or : String → String
title_or text = if text == "" then "Request failed" else text

-- The envelope in place of a body that is none.
abbrev pub synthetic : Response → ApiError
synthetic res = record {
  error_type = "about:blank";
  title = title_or res.status_text;
  status = res.status;
  detail = none;
  code = if nat_eq res.status 401 then "AUTHENTICATION_REQUIRED" else "INTERNAL_ERROR";
  request_id = res.request_id;
  issues = none;
}

abbrev pub parsed_body : Option Value → Option ApiError
parsed_body none = none
parsed_body (some body) = safe_parse body

unfoldable pub error_from_response : Response → ApiError
unfolding safe_parse
error_from_response res = or_default (parsed_body res.body) (synthetic res)

abbrev pub json_of : Option Value → Outcome
json_of none = Outcome.syntax_error
json_of (some v) = Outcome.resolved v

-- `res.ok`
abbrev pub is_success : ℕ → Bool
is_success status = leb 200 status && leb status 299

unfoldable pub outcome_of : String → String → Option Response → Outcome
unfolding error_from_response
outcome_of method path none = Outcome.network_error ("Network error during " ⧺ method ⧺ " " ⧺ path)
outcome_of method path (some res) =
    if not (is_success res.status)
    then Outcome.api_error (error_from_response res)
    else if nat_eq res.status 204
    then Outcome.no_content
    else json_of res.body

unfoldable pub request :
    Options → (RequestInit → Option Response) → String → String → RequestOptions → Outcome
unfolding prepare outcome_of
request options fetch method path opts =
    outcome_of method path (fetch (prepare options method path opts))

abbrev pub is_auth_required : ApiError → Bool
is_auth_required e = nat_eq e.status 401

abbrev pub is_forbidden : ApiError → Bool
is_forbidden e = nat_eq e.status 403

abbrev pub is_not_found : ApiError → Bool
is_not_found e = nat_eq e.status 404

abbrev pub is_rate_limited : ApiError → Bool
is_rate_limited e = nat_eq e.status 429

abbrev pub is_validation : ApiError → Bool
is_validation e = nat_eq e.status 422 || e.code == "VALIDATION_FAILED"
