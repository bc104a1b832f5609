-- ===== src/BodyParse/Formats.antt =====
-- GraphQL and gRPC in daemon/internal/bodyparse/bodyparse.go.
use deconstruct.Base.{
  Text, codes, Assoc, Bool, Option, none, some, List, [], ◌∷◌, lookup, is_empty, has_prefix,
  trim_prefix, contains, to_lower, split_on, if◌then◌else◌,
}
use deconstruct.Json.{Json, Fields, str, obj, get_field}
use deconstruct.Redact.{Header}
use deconstruct.Replay.Headers.{header_get}

pub record GraphQl : Type 0 where
  pub operation_name : Text
  pub query : Text
  pub variables : Option Fields

pub record Grpc : Type 0 where
  pub service : Text
  pub method : Text
  pub web : Bool

-- `payload[key].(string)`, the empty text where it is none
unfoldable pub string_field : Text → Fields → Text
string_field key fs = elim (get_field key fs) [ some (str s) ↦ s | _ ↦ [] ]

-- `payload[key].(map[string]any)`
unfoldable pub object_field : Text → Fields → Option Fields
object_field key fs = elim (get_field key fs) [ some (obj o) ↦ some o | _ ↦ none ]

unfoldable pub graphql_from_json : Fields → Option GraphQl
graphql_from_json payload =
    let query = string_field (codes "query") payload in
    if is_empty query
    then none
    else some (record {
      operation_name = string_field (codes "operationName") payload;
      query = query;
      variables = object_field (codes "variables") payload;
    })

-- `url.Values.Get`
unfoldable pub form_get : Text → Assoc (List Text) → Text
form_get key values = elim (lookup key values) [ some (v ∷ vs) ↦ v | _ ↦ [] ]

-- the object that `json.Unmarshal` fills a map with, where the text is one
unfoldable pub decode_object : (Text → Option Json) → Text → Option Fields
decode_object unmarshal text = elim (unmarshal text) [ some (obj fs) ↦ some fs | _ ↦ none ]

unfoldable pub graphql_from_form : (Text → Option Json) → Assoc (List Text) → Option GraphQl
graphql_from_form unmarshal values =
    let query = form_get (codes "query") values in
    let raw = form_get (codes "variables") values in
    if is_empty query
    then none
    else some (record {
      operation_name = form_get (codes "operationName") values;
      query = query;
      variables = if is_empty raw then none else decode_object unmarshal raw;
    })

unfoldable pub grpc_path : Header → Text
grpc_path headers =
    let path = header_get (codes ":path") headers in
    if is_empty path then header_get (codes "X-Original-Path") headers else path

-- service and method: the first two parts of a path of two at least
unfoldable pub grpc_names : Text → Text × Text
grpc_names path =
    if has_prefix path (codes "/")
    then elim (split_on b'/' (trim_prefix path (codes "/"))) [
      | service ∷ method ∷ rest ↦ (service, method)
      | _ ↦ ([], [])
    ]
    else ([], [])

unfoldable pub grpc_from_headers : Header → Grpc
grpc_from_headers headers =
    let (service, method) = grpc_names (grpc_path headers) in
    record {
      service = service;
      method = method;
      web = contains (to_lower (header_get (codes "Content-Type") headers)) (codes "grpc-web");
    }
