-- ===== src/Tests/Client.antt =====
-- The theorems on the client's calls at sample requests.
use absolo_cloud_services.Base.{◌≡◌, refl, Option, none, some, []}
use absolo_cloud_services.Errors.{ApiError, Exception, reply_to}
use absolo_cloud_services.Sdk.Http.{
  Options, RequestOptions, RequestInit, Response, Outcome, request,
}
use absolo_cloud_services.Sdk.Http.Errors.{response_of, request-reply_to}

abbrev options : Options
options = record {
  base_url = "https://api.absolo.cloud";
  token = some "t";
  user_agent = "sdk";
  timeout_ms = 30000;
}

abbrev envelope : ApiError
envelope = record {
  error_type = "https://absolo.cloud/errors/conflict";
  title = "Conflict";
  status = 409;
  detail = some "taken";
  code = "CONFLICT";
  request_id = some "req_1";
  issues = none;
}

abbrev answer : RequestInit → Option Response
answer init = some (response_of "Conflict" envelope)

abbrev plain : RequestOptions
plain = record { query = []; body = none; headers = [] }

answered : reply_to (Exception.http 409 (some "taken")) "req_1" ≡ some envelope
unfolding reply_to
answered = refl

request-reply_to_example :
    request options answer "GET" "/v1/projects/prj_1" plain ≡ Outcome.api_error envelope
request-reply_to_example =
    request-reply_to (Exception.http 409 (some "taken")) "req_1" "Conflict" options answer "GET"
      "/v1/projects/prj_1" plain {envelope = envelope} answered refl
