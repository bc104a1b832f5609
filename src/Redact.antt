-- ===== src/Redact.antt =====
-- daemon/internal/redact/redact.go: what is hidden from the inspector, the exports and the stored
-- captures. `encoding/json` is the parameter `unmarshal`, `marshal` of `body`.
pub mod Names
pub mod Headers
pub mod Values
mod Examples
use deconstruct.Base.{
  Text, codes, Assoc, Bool, true, false, ◌||◌, Option, none, some, List, [], ◌∷◌, to_lower, text_eq,
  contains, member, if◌then◌else◌,
}
use deconstruct.Json.{Json, Items, Fields, null, bool, num, str, arr, obj, nil, item, end, field}

abbrev pub placeholder : Text
placeholder = codes "[redacted]"

-- http.Header: the values of each header name
abbrev pub Header : Type 0
Header = Assoc (List Text)

abbrev pub sensitive_headers : List Text
sensitive_headers =
    codes "authorization"
    ∷ codes "cookie"
    ∷ codes "proxy-authorization"
    ∷ codes "set-cookie"
    ∷ codes "x-csrf-token"
    ∷ codes "x-xsrf-token"
    ∷ []

abbrev pub sensitive_fields : List Text
sensitive_fields =
    codes "access_token"
    ∷ codes "api_key"
    ∷ codes "auth"
    ∷ codes "authorization"
    ∷ codes "csrf"
    ∷ codes "id_token"
    ∷ codes "key"
    ∷ codes "mfa"
    ∷ codes "otp"
    ∷ codes "passcode"
    ∷ codes "password"
    ∷ codes "refresh_token"
    ∷ codes "secret"
    ∷ codes "session"
    ∷ codes "token"
    ∷ []

-- the test `sensitiveHeaders[strings.ToLower(key)]`
unfoldable pub sensitive_header : Text → Bool
unfolding member to_lower
sensitive_header key = member (to_lower key) sensitive_headers

-- the loop body of `Header`
unfoldable pub redact_values : Text → List Text → List Text
redact_values key values = if sensitive_header key then placeholder ∷ [] else values

unfoldable pub redact_header : Header → Header
unfolding redact_values
redact_header [] = []
redact_header ((key, values) ∷ headers) = (key, redact_values key values) ∷ redact_header headers

unfoldable pub header_has_sensitive : Header → Bool
header_has_sensitive [] = false
header_has_sensitive ((key, values) ∷ headers) =
    sensitive_header key || header_has_sensitive headers

-- the loop of `SensitiveName` over the field names
unfoldable pub matches_any : Text → List Text → Bool
matches_any lower [] = false
matches_any lower (name ∷ names) =
    (text_eq lower name || contains lower name) || matches_any lower names

unfoldable pub sensitive_name : Text → Bool
unfolding matches_any to_lower contains
sensitive_name name = matches_any (to_lower name) sensitive_fields

unfoldable mutual
  pub redact_json : Json → Json
  redact_json null = null
  redact_json (bool b) = bool b
  redact_json (num n) = num n
  redact_json (str s) = str s
  redact_json (arr xs) = arr (redact_items xs)
  redact_json (obj fs) = obj (redact_fields fs)

  pub redact_items : Items → Items
  redact_items nil = nil
  redact_items (item v vs) = item (redact_json v) (redact_items vs)

  pub redact_fields : Fields → Fields
  redact_fields end = end
  redact_fields (field key child fs) =
      field key (if sensitive_name key then str placeholder else redact_json child)
        (redact_fields fs)

-- `json.Marshal` of a decoded value gives no error.
unfoldable pub redact_body : (Text → Option Json) → (Json → Text) → Text → Text
redact_body unmarshal marshal body = elim (unmarshal body) [
  | none ↦ body
  | some parsed ↦ marshal (redact_json parsed)
]
