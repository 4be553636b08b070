-- ===== src/Sdk/Http/Errors.antt =====
-- What the client reports of the server's envelope.
use absolo_cloud_services.Base.{
  ℕ, String, ◌≡◌, sym, ap, ◌∙◌, inl, inr, Bool, true, false, ◌&&◌, not, Bool-cases, Option, some,
  or_default, nat_eq, leb, if◌then◌else◌, arith,
}
use absolo_cloud_services.Errors.{ApiError, Exception, build_envelope, conforms, reply_to}
use absolo_cloud_services.Contracts.Envelopes.{envelope_json}
use absolo_cloud_services.Contracts.Envelopes.RoundTrip.{safe_parse-envelope_json}
use absolo_cloud_services.Sdk.Http.{
  Options, RequestOptions, RequestInit, Response, Outcome, is_success, json_of, synthetic, prepare,
  error_from_response, outcome_of, request,
}

-- The response that carries an envelope.
abbrev pub response_of : String → ApiError → Response
response_of status_text envelope = record {
  status = envelope.status;
  status_text = status_text;
  request_id = envelope.request_id;
  body = some (envelope_json envelope);
}

reply_to-conforms :
    (ex : Exception) (id : String) {envelope : ApiError}
    → reply_to ex id ≡ some envelope
    → conforms envelope ≡ true
unfolding reply_to
reply_to-conforms ex id e = elim (Bool-cases (conforms (build_envelope ex id))) [
  | inl h ↦ ap (λ o. conforms (or_default o (build_envelope ex id))) (sym (rw h at e)) ∙ h
  | inr h ↦ cc (rw h at e)
]

not_success : (status : ℕ) → (leb 400 status && leb status 599) ≡ true → is_success status ≡ false
not_success status h = ground (arith, h)

refused :
    (b : Bool)
    → b ≡ false
    → (res : Response) (method path : String)
    → (if not b
        then Outcome.api_error (error_from_response res)
        else if nat_eq res.status 204
        then Outcome.no_content
        else json_of res.body)
      ≡ Outcome.api_error (error_from_response res)
refused b h res method path = rw h

-- Where the filter answers an exception with an envelope and the response with it reaches the
-- client, the call rejects with exactly this envelope.
pub request-reply_to :
    (ex : Exception) (id status_text : String) (options : Options)
    (fetch : RequestInit → Option Response) (method path : String) (opts : RequestOptions)
    {envelope : ApiError}
    → reply_to ex id ≡ some envelope
    → fetch (prepare options method path opts) ≡ some (response_of status_text envelope)
    → request options fetch method path opts ≡ Outcome.api_error envelope
unfolding request outcome_of error_from_response
request-reply_to ex id status_text options fetch method path opts {envelope} answered received =
    let conform = reply_to-conforms ex id {envelope = envelope} answered in
    ap (λ o. outcome_of method path o) received
    ∙ refused (is_success envelope.status) (not_success envelope.status conform)
        (response_of status_text envelope) method path
    ∙ ap (λ p. Outcome.api_error (or_default p (synthetic (response_of status_text envelope))))
        (safe_parse-envelope_json envelope conform)
