-- ===== src/Workflow/Sources.antt =====
-- `jsonPrimitiveSources`, `extractionKey`, `sensitiveField` and `bindingValueUseful`: the values of a
-- response that later requests may repeat.
pub mod Address
pub mod Reach
pub mod Lost
use deconstruct.Base.{
  ℕ, suc, ◌+◌, Text, codes, Bool, true, false, not, ◌&&◌, ◌||◌, Option, none, some, List, [], ◌∷◌,
  ◌++◌, text_eq, is_empty, contains, to_lower, trim_prefix, trim_left, trim_right, replace_all, ltb,
  leb, ◌==◌, if◌then◌else◌, length,
}
use deconstruct.Base.Decimal.{decimal}
use deconstruct.Json.{Json, Items, Fields, null, bool, num, str, arr, obj, nil, item, end, field}

pub record SourceValue : Type 0 where
  pub step_id : Text
  pub key : Text
  pub path : Text
  pub value : Text

abbrev pub max_sources_per_response : ℕ
max_sources_per_response = 80

abbrev pub min_binding_value_length : ℕ
min_binding_value_length = 4

abbrev pub max_binding_value_length : ℕ
max_binding_value_length = 512

-- the words of `sensitivePattern`
abbrev pub sensitive_words : List Text
sensitive_words =
    codes "token"
    ∷ codes "secret"
    ∷ codes "password"
    ∷ codes "auth"
    ∷ codes "csrf"
    ∷ codes "session"
    ∷ codes "key"
    ∷ []

contains_any : Text → List Text → Bool
contains_any s [] = false
contains_any s (w ∷ ws) = contains s w || contains_any s ws

unfoldable pub sensitive_field : Text → Bool
unfolding contains_any to_lower contains
sensitive_field name = contains_any (to_lower name) sensitive_words

-- `strings.Trim(path, "_")`
trim_underscores : Text → Text
unfolding trim_left trim_right
trim_underscores s = trim_right (λ c. c == b'_') (trim_left (λ c. c == b'_') s)

-- the path with its punctuation gone
unfoldable pub flat_path : Text → Text
unfolding trim_underscores replace_all trim_prefix
flat_path path = trim_underscores (
    replace_all
      (replace_all (replace_all (trim_prefix path (codes "$.")) (codes "[") (codes "_")) (codes "]")
        [])
      (codes ".") (codes "_"))

unfoldable pub extraction_key : Text → Text
unfolding flat_path sensitive_field decimal
extraction_key path =
    let flat = flat_path path in
    if is_empty flat
    then codes "value"
    else if sensitive_field flat
    then codes "value_" ++ decimal (length flat)
    else flat

unfoldable pub binding_value_useful : Text → Bool
unfolding contains
binding_value_useful value =
    if ltb (length value) min_binding_value_length || ltb max_binding_value_length (length value)
    then false
    else if contains value (codes "\n") || contains value (0 ∷ [])
    then false
    else true

abbrev pub bool_text : Bool → Text
bool_text true = codes "true"
bool_text false = codes "false"

-- the text of a value that is no container, `none` where the walk records nothing
unfoldable pub primitive_text : Json → Option Text
primitive_text (str s) = if is_empty s then none else some s
primitive_text (num n) = some n
primitive_text (bool b) = some (bool_text b)
primitive_text _ = none

unfoldable pub child_path : Text → Text → Text
child_path path key =
    if text_eq path (codes "$") then codes "$." ++ key else path ++ (codes "." ++ key)

unfoldable pub item_path : Text → ℕ → Text
item_path path i = path ++ (codes "[" ++ (decimal i ++ codes "]"))

module _ (step_id : Text) where
  unfoldable pub record_source : Text → Option Text → List SourceValue → List SourceValue
  record_source path none sources = sources
  record_source path (some value) sources =
      sources
      ++ record { step_id = step_id; key = extraction_key path; path = path; value = value } ∷ []

-- The closure `walk`; the last argument is the variable `sources` that it appends to.
unfoldable mutual
  pub walk : Text → Text → Json → List SourceValue → List SourceValue
  walk step_id path (arr xs) sources =
      if leb max_sources_per_response (length sources)
      then sources
      else walk_items step_id path 0 xs sources
  walk step_id path (obj fs) sources =
      if leb max_sources_per_response (length sources)
      then sources
      else walk_fields step_id path fs sources
  walk step_id path v sources =
      if leb max_sources_per_response (length sources)
      then sources
      else record_source step_id path (primitive_text v) sources

  pub walk_items : Text → Text → ℕ → Items → List SourceValue → List SourceValue
  walk_items step_id path i nil sources = sources
  walk_items step_id path i (item v vs) sources =
      walk_items step_id path (i + 1) vs (walk step_id (item_path path i) v sources)

  pub walk_fields : Text → Text → Fields → List SourceValue → List SourceValue
  walk_fields step_id path end sources = sources
  walk_fields step_id path (field key v fs) sources =
      walk_fields step_id path fs (walk step_id (child_path path key) v sources)

-- Go walks the entries of an object in no fixed order; the model takes the order of the list.
unfoldable pub json_primitive_sources : (Text → Option Json) → Text → Text → List SourceValue
json_primitive_sources unmarshal step_id body = elim (unmarshal body) [
  | none ↦ []
  | some root ↦ walk step_id (codes "$") root []
]
