-- ===== src/Workflow/Paths.antt =====
-- `splitJSONPath` and `jsonPathValue`: how the runner finds a value in a response.
use deconstruct.Base.{
  Text, codes, ◌&&◌, Option, none, some, List, [], ◌∷◌, map, text_eq, cut, split_on, has_prefix,
  has_suffix, trim_prefix, trim_suffix, ◌>>=◌, if◌then◌else◌,
}
use deconstruct.Base.Decimal.{ℤ, pos, atoi}
use deconstruct.Json.{Json, arr, obj, get_field, get_item}

pub record JsonPathToken : Type 0 where
  pub name : Text
  pub index : Option ℤ

-- one round of the loop of `splitJSONPath`
unfoldable pub token_of : Text → JsonPathToken
token_of part =
    let (before, after, found) = cut b'[' part in
    if found && has_suffix part (codes "]")
    then record { name = before; index = atoi (trim_suffix after (codes "]")) }
    else record { name = part; index = none }

unfoldable pub split_json_path : Text → List JsonPathToken
split_json_path path = map token_of (split_on b'.' path)

-- the switch on the type of `current`
unfoldable pub step_name : Json → Text → Option Json
step_name (obj fs) name = get_field name fs
step_name _ name = none

unfoldable pub step_index : Json → Option ℤ → Option Json
step_index v none = some v
step_index (arr items) (some (pos i)) = get_item items i
step_index v (some i) = none

-- one round of the loop of `jsonPathValue`
unfoldable pub step_token : Json → JsonPathToken → Option Json
step_token current token = do next ← step_name current token.name; step_index next token.index

-- the loop over the tokens
unfoldable pub follow : Json → List JsonPathToken → Option Json
follow current [] = some current
follow current (token ∷ tokens) = do next ← step_token current token; follow next tokens

unfoldable pub resolve : Json → Text → Option Json
resolve root path =
    if text_eq path (codes "$")
    then some root
    else if has_prefix path (codes "$.")
    then follow root (split_json_path (trim_prefix path (codes "$.")))
    else none

unfoldable pub json_path_value : (Text → Option Json) → Text → Text → Option Json
json_path_value unmarshal body path = do root ← unmarshal body; resolve root path
