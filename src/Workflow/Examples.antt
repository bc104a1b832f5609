-- ===== src/Workflow/Examples.antt =====
-- Tests and instances of the theorems on the compiler and the runner of workflows.
use deconstruct.Redact.{Header}
use deconstruct.Workflow.AuthMaterial.{
  put_all, secret, put_secret, put_cookie, put_cookies, put_custom, cookie_pairs,
  canonical_auth_header,
}
use deconstruct.Workflow.Precedence.{Wins, listed_cookies, put_all-precedence}
use deconstruct.Base.{
  Assoc, lookup, insert, join, to_lower, lower_byte, Text, codes, true, false, Option, none, some,
  [], ◌∷◌, ◌≡◌, refl, arith, All, has_prefix, has_suffix, split_on, trim_prefix, trim_suffix, cut,
}
use deconstruct.Base.Decimal.{atoi}
use deconstruct.Json.{Json, get_field, get_item, str, arr, obj, nil, item, end, field}
use deconstruct.Workflow.Paths.{
  resolve, json_path_value, follow, split_json_path, step_token, step_name, step_index, token_of,
}
use deconstruct.Workflow.Sources.{
  walk, json_primitive_sources, extraction_key, binding_value_useful, child_path, item_path,
  record_source, primitive_text,
}
use deconstruct.Workflow.Sources.Reach.{IsFound, IsPlain, json_primitive_sources-IsFound}
use deconstruct.Workflow.Sources.Lost.{array_response_lost, nested_array_lost}

-- {"data": [{"id": "abcd"}], "token": "t0ken"}
abbrev reply : Json
reply = obj (
    field (codes "data") (arr (item (obj (field (codes "id") (str (codes "abcd")) end)) nil))
      (field (codes "token") (str (codes "t0ken")) end))

-- a decoder for which every body is this reply
abbrev reply_of : Text → Option Json
reply_of body = some reply

reply_sources :
    json_primitive_sources reply_of (codes "step_01") []
    ≡ record {
      step_id = codes "step_01";
      key = codes "data_0_id";
      path = codes "$.data[0].id";
      value = codes "abcd";
    }
      ∷ record {
        step_id = codes "step_01";
        key = codes "value_5";
        path = codes "$.token";
        value = codes "t0ken";
      }
      ∷ []
unfolding json_primitive_sources walk extraction_key child_path item_path record_source
    primitive_text
reply_sources = refl

found_again : json_path_value reply_of [] (codes "$.data[0].id") ≡ some (str (codes "abcd"))
unfolding json_path_value resolve has_prefix follow split_json_path split_on trim_prefix step_token
    step_name get_field token_of cut has_suffix step_index atoi trim_suffix get_item
found_again = refl

useful : binding_value_useful (codes "abcd") ≡ true
unfolding binding_value_useful
useful = refl

too_short : binding_value_useful (codes "abc") ≡ false
unfolding binding_value_useful
too_short = refl

reply-IsPlain : IsPlain reply
unfolding get_field
reply-IsPlain = (
  (omega arith, omega arith),
  refl,
  (omega arith, (tt, ((omega arith, omega arith), refl, tt, tt), tt)),
  ((omega arith, omega arith), refl, tt, tt),
)

json_primitive_sources-IsFound_example :
    All (IsFound reply) (json_primitive_sources reply_of (codes "step_01") [])
json_primitive_sources-IsFound_example =
    json_primitive_sources-IsFound reply_of (codes "step_01") [] reply refl reply-IsPlain tt

-- ["abcd"]
abbrev list_of : Text → Option Json
list_of body = some (arr (item (str (codes "abcd")) nil))

array_response_lost_example :
    All
      (λ s. (root : Json) → resolve root s.path ≡ none)
      (json_primitive_sources list_of (codes "step_01") [])
array_response_lost_example =
    array_response_lost list_of (codes "step_01") [] (item (str (codes "abcd")) nil) refl

nested_array_lost_example :
    resolve reply (item_path (item_path (child_path (codes "$") (codes "data")) 0) 1)
    ≡ resolve reply (child_path (codes "$") (codes "data"))
nested_array_lost_example = nested_array_lost reply (codes "data") 0 1 (omega arith, omega arith)

abbrev material : Assoc Text
material =
    (codes "authorization", codes "Bearer low")
    ∷ (codes "cookie.a", codes "1")
    ∷ (codes "header.Authorization", codes "Bearer own")
    ∷ []

abbrev request_headers : Header
request_headers = (codes "Authorization", codes "Bearer old" ∷ []) ∷ []

own_header_wins :
    lookup (codes "Authorization") (put_all (λ ts. ts) material request_headers)
    ≡ some (codes "Bearer own" ∷ [])
unfolding put_all put_secret secret lookup insert put_cookie put_cookies put_custom cookie_pairs
    canonical_auth_header has_prefix trim_prefix join to_lower lower_byte
own_header_wins = refl

put_all-precedence_example :
    Wins
      (λ ts. ts)
      material
      (codes "Authorization")
      (secret (codes "Authorization") material ∷ secret (codes "authorization") material ∷ [])
      (λ before. before)
      request_headers
    × Wins
        (λ ts. ts)
        material
        (codes "Cookie")
        (secret (codes "cookie") material ∷ secret (codes "Cookie") material ∷ [])
        (listed_cookies (λ ts. ts) material)
        request_headers
    × Wins
        (λ ts. ts)
        material
        (codes "X-CSRF-Token")
        (secret (codes "X-CSRF-Token") material ∷ secret (codes "x-csrf-token") material ∷ [])
        (λ before. before)
        request_headers
    × Wins
        (λ ts. ts)
        material
        (codes "X-XSRF-Token")
        (secret (codes "X-XSRF-Token") material ∷ secret (codes "x-xsrf-token") material ∷ [])
        (λ before. before)
        request_headers
put_all-precedence_example = put_all-precedence (λ ts. ts) material request_headers
