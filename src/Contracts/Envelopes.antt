-- ===== src/Contracts/Envelopes.antt =====
-- `ApiErrorSchema.safeParse` of packages/contracts/src/errors.ts on any JSON value, and the JSON of an
-- envelope.
pub mod RoundTrip
use mathlib.Core.Option
use native.Mathlib.Nat.{le_trans}
use absolo_cloud_services.Base.{
  ℕ, zero, suc, ◌+◌, ◌-◌, ◌*◌, ◌/◌, ◌%◌, ◌≤◌, ◌<◌, String, ◌⧺◌, ◌≡◌, ◌≢◌, refl, sym, ap, ◌∙◌, ◌⊎◌,
  inl, inr, ◌↔◌, Bool, true, false, ◌&&◌, ◌||◌, not, Bool-cases, Option, none, some, is_some,
  some_eq, or_default, given, ◌==◌, eq_refl, eq_iff, eq_comm, nat_eq, ltb, leb, List, [], ◌∷◌, ◌++◌,
  map, head?, find, filter, length, get_elem?, count, count_congr, count_mono, count-false,
  count_none, count_split, count_or_le, count_disjoint, count-append, count_pos_of_head?,
  head?-filter_unseen, head?-filter_seen, head?-filter_only, head?-filter-none, head?-filter-some,
  head?-filter-count, length-filter, and_left, and_right, and_intro, Option-cases, if◌then◌else◌,
  arith,
}
use absolo_cloud_services.Result.{
  Result, ok, err, is_ok, Error, not_found, conflict, unauthorized, forbidden, bad_request,
  unique_violation, foreign_key_violation, failure, Result-cases,
}
use absolo_cloud_services.Schema.Scalars.{Scalar, number, string}
use absolo_cloud_services.Errors.{ApiError, Issue, conforms}
use absolo_cloud_services.Contracts.JsonValues.{
  Value, null, bool, num, str, arr, obj, Items, nil, cons, Fields, end, field, lookup, only_keys,
  maybe_field,
}

-- A failed step of the validation fails it.
infixl 5 ◌>>=◌
abbrev pub ◌>>=◌ {ℓ κ} : {A : Type ℓ} {B : Type κ} → Option A → (A → Option B) → Option B
none >>= f = none
some a >>= f = f a

-- `z.string()`
abbrev pub required_text : Option Value → Option String
required_text (some (str s)) = some s
required_text _ = none

-- `z.string().optional()`
abbrev pub optional_text : Option Value → Option (Option String)
optional_text none = some none
optional_text (some (str s)) = some (some s)
optional_text (some _) = none

-- `z.number().int().min(400).max(599)`
abbrev pub status_number : Option Value → Option ℕ
status_number (some (num n)) = if leb 400 n && leb n 599 then some n else none
status_number _ = none

-- `z.array(z.union([z.string(), z.number()]))`
unfoldable pub path_parts : Items → Option (List Scalar)
path_parts nil = some []
path_parts (cons (str s) items) = Option.map (λ l. string s ∷ l) (path_parts items)
path_parts (cons (num n) items) = Option.map (λ l. number n ∷ l) (path_parts items)
path_parts (cons _ items) = none

abbrev pub path_of : Option Value → Option (List Scalar)
path_of (some (arr items)) = path_parts items
path_of _ = none

-- `ApiErrorIssueSchema`
unfoldable pub parse_issue : Value → Option Issue
unfolding lookup only_keys path_parts
parse_issue (obj fs) =
    if only_keys ("path" ∷ "code" ∷ "message" ∷ []) fs
    then (path_of (lookup "path" fs) >>= λ path. required_text (lookup "code" fs) >>= λ code.
        required_text (lookup "message" fs) >>= λ message.
        some (record { path = path; code = code; message = message }))
    else none
parse_issue _ = none

unfoldable pub parse_issues : Items → Option (List Issue)
unfolding parse_issue
parse_issues nil = some []
parse_issues (cons v items) =
    parse_issue v >>= λ issue. Option.map (λ l. issue ∷ l) (parse_issues items)

abbrev pub optional_issues : Option Value → Option (Option (List Issue))
optional_issues none = some none
optional_issues (some (arr items)) = Option.map some (parse_issues items)
optional_issues (some _) = none

abbrev pub envelope_keys : List String
envelope_keys = "type" ∷ "title" ∷ "status" ∷ "detail" ∷ "code" ∷ "requestId" ∷ "errors" ∷ []

-- `ApiErrorSchema.safeParse(body)`
unfoldable pub safe_parse : Value → Option ApiError
unfolding lookup only_keys parse_issues
safe_parse (obj fs) =
    if only_keys envelope_keys fs
    then (required_text (lookup "type" fs) >>= λ error_type.
        required_text (lookup "title" fs) >>= λ title.
        status_number (lookup "status" fs) >>= λ status.
        optional_text (lookup "detail" fs) >>= λ detail.
        required_text (lookup "code" fs) >>= λ code.
        optional_text (lookup "requestId" fs) >>= λ request_id.
        optional_issues (lookup "errors" fs) >>= λ issues. some (record {
          error_type = error_type;
          title = title;
          status = status;
          detail = detail;
          code = code;
          request_id = request_id;
          issues = issues;
        }))
    else none
safe_parse _ = none

abbrev pub part_json : Scalar → Value
part_json (number n) = num n
part_json (string s) = str s

abbrev pub path_json : List Scalar → Items
path_json [] = nil
path_json (p ∷ path) = cons (part_json p) (path_json path)

abbrev pub issue_json : Issue → Value
issue_json issue = obj (
    field "path" (arr (path_json issue.path))
      (field "code" (str issue.code) (field "message" (str issue.message) end)))

abbrev pub issues_json : List Issue → Items
issues_json [] = nil
issues_json (issue ∷ issues) = cons (issue_json issue) (issues_json issues)

-- `reply.send(validated)`: fields that are undefined are left out.
abbrev pub envelope_json : ApiError → Value
envelope_json e = obj (
    field "type" (str e.error_type) (
      field "title" (str e.title) (
        field "status" (num e.status) (
          maybe_field "detail" (Option.map str e.detail) (
            field "code" (str e.code) (
              maybe_field "requestId" (Option.map str e.request_id)
                (maybe_field "errors" (Option.map (λ l. arr (issues_json l)) e.issues) end)))))))
