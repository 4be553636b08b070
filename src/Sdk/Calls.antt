-- ===== src/Sdk/Calls.antt =====
-- What a method of a client passes to `http.request`. A path is the text of its template, whose parts
-- between the slashes are written as a list.
use absolo_cloud_services.Base.{String, ◌⧺◌, Option, none, some, List, [], ◌∷◌}
use absolo_cloud_services.Contracts.JsonValues.{Value}
use absolo_cloud_services.Sdk.Http.{Payload, RequestOptions}

pub record Sent : Type 0 where
  pub method : String
  pub path : String
  pub opts : RequestOptions

abbrev pub path : List String → String
path [] = ""
path (s ∷ l) = "/" ⧺ s ⧺ path l

abbrev pub send_to : String → String → RequestOptions → Sent
send_to method path opts = record { method = method; path = path; opts = opts }

abbrev pub plain : RequestOptions
plain = record { query = []; body = none; headers = [] }

-- `{ body }`
abbrev pub with_object : Value → RequestOptions
with_object body = record { query = []; body = some (Payload.as_object body); headers = [] }

-- `{ body: JSON.stringify(body) }`
abbrev pub with_text : Value → RequestOptions
with_text body = record { query = []; body = some (Payload.as_text body); headers = [] }

-- `{ query }`
abbrev pub with_query : List (String × Option String) → RequestOptions
with_query query = record { query = query; body = none; headers = [] }
