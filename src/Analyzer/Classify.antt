-- ===== src/Analyzer/Classify.antt =====
-- `refreshEndpoint`, `interactiveCheckpoint` and `ClassifyFailure`.
use deconstruct.Base.{
  Text, codes, Bool, true, false, not, ◌&&◌, ◌||◌, Option, none, some, List, [], ◌∷◌, ◌++◌, ◌==◌,
  leb, ltb, contains, to_lower, text_eq, member, if◌then◌else◌,
}
use deconstruct.Redact.{Header}
use deconstruct.Store.{Flow}
use deconstruct.Analyzer.{
  ObservedArtifact, Readers, AuthRefreshEndpoint, AuthCheckpoint, AuthFailure,
}
use deconstruct.Analyzer.Artifacts.{header_value, response_artifacts}

-- a stable sort, by a test for `less`
unfoldable pub insert_sorted : {A : Type 0} → (A → A → Bool) → A → List A → List A
insert_sorted less x [] = x ∷ []
insert_sorted less x (y ∷ ys) =
    let rest = insert_sorted less x ys in if less y x then y ∷ rest else x ∷ (y ∷ ys)

unfoldable pub sort_by : {A : Type 0} → (A → A → Bool) → List A → List A
sort_by less [] = []
sort_by less (x ∷ xs) = insert_sorted less x (sort_by less xs)

-- the order of strings
unfoldable pub text_less : Text → Text → Bool
text_less s [] = false
text_less [] (d ∷ t) = true
text_less (c ∷ s) (d ∷ t) = ltb c d || ((c == d) && text_less s t)

unfoldable pub sort_strings : List Text → List Text
sort_strings = sort_by text_less

unfoldable pub unique_names : List Text → List Text → List Text
unique_names seen [] = []
unique_names seen (value ∷ values) = elim (member value seen) [
  | true ↦ unique_names seen values
  | false ↦ value ∷ unique_names (value ∷ seen) values
]

unfoldable pub is_token_kind : Text → Bool
is_token_kind kind =
    text_eq kind (codes "access_token")
    || (text_eq kind (codes "refresh_token")
        || (text_eq kind (codes "token") || text_eq kind (codes "id_token")))

unfoldable pub token_names : List ObservedArtifact → List Text
token_names [] = []
token_names (a ∷ artifacts) =
    let rest = token_names artifacts in if is_token_kind a.kind then a.name ∷ rest else rest

unfoldable pub confidence_of : Flow → Text
confidence_of flow =
    if leb 200 flow.status && (ltb flow.status 300 && not (text_eq flow.method (codes "GET")))
    then codes "high"
    else codes "medium"

unfoldable pub is_refresh_path : Text → Bool
is_refresh_path path =
    contains path (codes "refresh")
    || (contains path (codes "token") || contains path (codes "oauth"))

unfoldable pub refresh_endpoint : Readers → Flow → Header → Text → Option AuthRefreshEndpoint
refresh_endpoint readers flow headers body =
    let path = to_lower (elim (readers.url_path flow.url) [ none ↦ flow.url | some p ↦ p ]) in
    if is_refresh_path path
    then elim (token_names (response_artifacts readers headers body)) [
      | [] ↦ none
      | name ∷ names ↦ some (record {
        flow_id = flow.id;
        url = flow.url;
        method = flow.method;
        status = flow.status;
        artifacts = unique_names [] (sort_strings (name ∷ names));
        confidence = confidence_of flow;
      })
    ]
    else none

abbrev pub checkpoint : Flow → Text → Text → Option AuthCheckpoint
checkpoint flow kind reason = some (record { flow_id = flow.id; kind = kind; reason = reason })

unfoldable pub interactive_checkpoint : Flow → Header → Text → Option AuthCheckpoint
interactive_checkpoint flow headers body =
    let target = to_lower (
      flow.url
      ++ (codes " " ++ (header_value headers (codes "Location") ++ (codes " " ++ body)))) in
    if contains target (codes "mfa")
      || (contains target (codes "otp") || contains target (codes "two-factor"))
    then checkpoint flow (codes "mfa") (codes "MFA marker in URL, redirect, or body")
    else if contains target (codes "sso") || contains target (codes "saml")
    then checkpoint flow (codes "sso") (codes "SSO marker in URL, redirect, or body")
    else if contains target (codes "login")
        || (contains target (codes "signin") || contains target (codes "authorize"))
    then checkpoint flow (codes "interactive_login") (codes "login or authorization marker")
    else none

abbrev pub failure : Flow → Text → Text → Option AuthFailure
failure flow kind reason =
    some (record { flow_id = flow.id; kind = kind; status = flow.status; reason = reason })

unfoldable pub is_login_location : Text → Bool
is_login_location location =
    contains location (codes "login")
    || (contains location (codes "signin") || contains location (codes "authorize"))

unfoldable pub is_login_page : Text → Bool
is_login_page text =
    contains text (codes "<form")
    && (contains text (codes "password")
        || (contains text (codes "login") || contains text (codes "sign in")))

unfoldable pub classify_failure : Flow → Header → Text → Option AuthFailure
classify_failure flow headers body =
    let location = to_lower (header_value headers (codes "Location")) in
    if flow.status == 401
    then failure flow (codes "unauthenticated") (codes "HTTP 401")
    else if flow.status == 403
    then failure flow (codes "forbidden") (codes "HTTP 403")
    else if leb 300 flow.status && (ltb flow.status 400 && is_login_location location)
    then failure flow (codes "login_redirect") (codes "redirected to login")
    else if is_login_page (to_lower body)
    then failure flow (codes "login_page") (codes "response resembles login page")
    else none
