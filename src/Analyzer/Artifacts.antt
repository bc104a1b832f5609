-- ===== src/Analyzer/Artifacts.antt =====
-- `requestArtifacts`, `responseArtifacts` and the walk of JSON bodies.
use deconstruct.Base.{
  ℕ, ◌+◌, Text, codes, Assoc, Bool, true, false, ◌&&◌, ◌||◌, Option, none, some, List, [], ◌∷◌,
  ◌++◌, is_empty, contains, has_prefix, to_lower, trim_space, equal_fold, take, if◌then◌else◌,
}
use deconstruct.Base.Decimal.{decimal}
use deconstruct.Json.{Json, Items, Fields, bool, num, str, arr, obj, nil, item, end, field}
use deconstruct.Redact.{Header}
use deconstruct.Replay.Headers.{header_get}
use deconstruct.Analyzer.{ObservedArtifact, Readers}

unfoldable pub is_csrf_name : Text → Bool
is_csrf_name name =
    let lower = to_lower name in contains lower (codes "csrf") || contains lower (codes "xsrf")

-- an empty text where the name is of no token
unfoldable pub token_kind : Text → Text
token_kind name =
    let lower = to_lower name in
    if contains lower (codes "csrf") || contains lower (codes "xsrf")
    then codes "csrf_token"
    else if contains lower (codes "refresh")
    then codes "refresh_token"
    else if contains lower (codes "access") && contains lower (codes "token")
    then codes "access_token"
    else if contains lower (codes "id_token")
    then codes "id_token"
    else if contains lower (codes "session")
    then codes "session_token"
    else if contains lower (codes "token")
    then codes "token"
    else []

unfoldable pub scalar_string : Json → Option Text
scalar_string (str s) = some s
scalar_string (num n) = some n
scalar_string (bool true) = some (codes "true")
scalar_string (bool false) = some (codes "false")
scalar_string _ = none

-- the artifact of one field of an object, where there is one
unfoldable pub field_artifact : Text → Json → Text → List ObservedArtifact
field_artifact key child path =
    if is_empty (token_kind key) then [] else elim (scalar_string child) [
      | none ↦ []
      | some raw ↦
          if is_empty raw
          then []
          else record { kind = token_kind key; name = key; value = raw; location = path } ∷ []
    ]

mutual
  pub walk_json : Json → Text → List ObservedArtifact
  walk_json (obj fs) path = json_fields fs path
  walk_json (arr vs) path = json_items vs path 0
  walk_json _ path = []

  pub json_fields : Fields → Text → List ObservedArtifact
  json_fields end path = []
  json_fields (field key child fs) path =
      let child_path = path ++ (codes "." ++ key) in
      field_artifact key child child_path ++ (walk_json child child_path ++ json_fields fs path)

  pub json_items : Items → Text → ℕ → List ObservedArtifact
  json_items nil path i = []
  json_items (item v vs) path i =
      walk_json v (path ++ (codes "[" ++ (decimal i ++ codes "]"))) ++ json_items vs path (i + 1)

-- the value under a name that is alike but for the case
unfoldable pub folded_value : Text → Header → Text
folded_value name [] = []
folded_value name ((key, []) ∷ headers) = folded_value name headers
folded_value name ((key, v ∷ vs) ∷ headers) =
    let rest = folded_value name headers in if equal_fold key name then v else rest

unfoldable pub header_value : Header → Text → Text
header_value headers name =
    let value = header_get name headers in
    if is_empty value then folded_value name headers else value

unfoldable pub auth_header_type : Text → Text
auth_header_type value =
    if has_prefix (to_lower (trim_space value)) (codes "bearer ")
    then codes "bearer_token"
    else codes "authorization"

unfoldable pub cookie_artifacts : Text → Assoc Text → List ObservedArtifact
cookie_artifacts prefix [] = []
cookie_artifacts prefix ((name, value) ∷ cookies) =
    record { kind = codes "cookie"; name = name; value = value; location = prefix ++ name }
    ∷ cookie_artifacts prefix cookies

-- the loop over the three names of CSRF headers
unfoldable pub csrf_artifacts : Text → Header → List Text → List ObservedArtifact
csrf_artifacts prefix headers [] = []
csrf_artifacts prefix headers (name ∷ names) =
    let rest = csrf_artifacts prefix headers names in
    let value = header_value headers name in
    if is_empty value
    then rest
    else record { kind = codes "csrf_token"; name = name; value = value; location = prefix ++ name }
      ∷ rest

abbrev pub csrf_headers : List Text
csrf_headers = codes "X-CSRF-Token" ∷ codes "X-XSRF-Token" ∷ codes "X-CSRFToken" ∷ []

unfoldable pub authorization_artifact : Header → List ObservedArtifact
authorization_artifact headers =
    let value = header_value headers (codes "Authorization") in
    if is_empty value
    then []
    else record {
      kind = auth_header_type value;
      name = codes "Authorization";
      value = value;
      location = codes "request.header.Authorization";
    }
      ∷ []

module _ (readers : Readers) where
  unfoldable pub body_artifacts : Text → Text → List ObservedArtifact
  body_artifacts body prefix =
      if is_empty body
      then []
      else elim (readers.unmarshal body) [ none ↦ [] | some v ↦ walk_json v prefix ]

  unfoldable pub request_artifacts : Header → Text → List ObservedArtifact
  request_artifacts headers body =
      authorization_artifact headers
      ++ (cookie_artifacts (codes "request.cookie.") (readers.request_cookies headers)
          ++ (csrf_artifacts (codes "request.header.") headers csrf_headers
              ++ body_artifacts body (codes "request.body")))

  unfoldable pub response_artifacts : Header → Text → List ObservedArtifact
  response_artifacts headers body =
      cookie_artifacts (codes "response.set_cookie.") (readers.response_cookies headers)
      ++ (csrf_artifacts (codes "response.header.") headers csrf_headers
          ++ body_artifacts body (codes "response.body"))

  unfoldable pub fingerprint : Text → Text
  fingerprint value = take 24 (readers.digest value)
