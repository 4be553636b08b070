-- ===== src/Contracts/Envelopes/RoundTrip.antt =====
-- The JSON of an envelope, read again.
use absolo_cloud_services.Base.{
  ℕ, String, ◌≡◌, refl, true, ◌&&◌, Option, none, some, leb, List, [], ◌∷◌,
}
use absolo_cloud_services.Schema.Scalars.{Scalar, number, string}
use absolo_cloud_services.Errors.{ApiError, Issue, conforms}
use absolo_cloud_services.Contracts.Envelopes.{
  path_parts, path_json, parse_issue, issue_json, parse_issues, issues_json, safe_parse,
  envelope_json,
}

path_parts-json : (path : List Scalar) → path_parts (path_json path) ≡ some path
unfolding path_parts
path_parts-json [] = refl
path_parts-json (number n ∷ path) = rw (path_parts-json path)
path_parts-json (string s ∷ path) = rw (path_parts-json path)

parse_issue-json : (issue : Issue) → parse_issue (issue_json issue) ≡ some issue
unfolding parse_issue
parse_issue-json issue = rw (path_parts-json issue.path)

parse_issues-json : (issues : List Issue) → parse_issues (issues_json issues) ≡ some issues
unfolding parse_issues
parse_issues-json [] = refl
parse_issues-json (issue ∷ issues) = rw (parse_issue-json issue, parse_issues-json issues)

abbrev of_parts :
    (error_type title code : String) (status : ℕ) (detail request_id : Option String)
    (issues : Option (List Issue))
    → ApiError
of_parts error_type title code status detail request_id issues = record {
  error_type = error_type;
  title = title;
  status = status;
  detail = detail;
  code = code;
  request_id = request_id;
  issues = issues;
}

parts_read :
    (error_type title code : String) (status : ℕ) (detail request_id : Option String)
    (issues : Option (List Issue))
    → (leb 400 status && leb status 599) ≡ true
    → safe_parse (envelope_json (of_parts error_type title code status detail request_id issues))
      ≡ some (of_parts error_type title code status detail request_id issues)
unfolding safe_parse
parts_read t u c n none none none h = rw h
parts_read t u c n none none (some l) h = rw (h, parse_issues-json l)
parts_read t u c n none (some r) none h = rw h
parts_read t u c n none (some r) (some l) h = rw (h, parse_issues-json l)
parts_read t u c n (some d) none none h = rw h
parts_read t u c n (some d) none (some l) h = rw (h, parse_issues-json l)
parts_read t u c n (some d) (some r) none h = rw h
parts_read t u c n (some d) (some r) (some l) h = rw (h, parse_issues-json l)

-- An envelope within the bounds of the contract is read as it was sent.
pub safe_parse-envelope_json :
    (e : ApiError) → conforms e ≡ true → safe_parse (envelope_json e) ≡ some e
safe_parse-envelope_json e h =
    parts_read e.error_type e.title e.code e.status e.detail e.request_id e.issues h
