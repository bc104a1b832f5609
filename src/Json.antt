-- ===== src/Json.antt =====
-- The values that `encoding/json` decodes into `any`: nil, bool, float64, string, []any and
-- map[string]any. A float64 is kept as the text that `fmt.Sprint` prints for it, which is the only
-- thing that the modelled code asks of it. An object is the list of its entries.
use deconstruct.Base.{ℕ, zero, suc, Text, Bool, Option, none, some, text_eq, if◌then◌else◌}

mutual
  pub data Json : Type 0 where
    null : Json
    bool : Bool → Json
    num : Text → Json
    str : Text → Json
    arr : Items → Json
    obj : Fields → Json

  pub data Items : Type 0 where
    nil : Items
    item : Json → Items → Items

  pub data Fields : Type 0 where
    end : Fields
    field : Text → Json → Fields → Fields

-- `object[key]` with its second result
unfoldable pub get_field : Text → Fields → Option Json
get_field k end = none
get_field k (field j v fs) = if text_eq j k then some v else get_field k fs

-- `items[index]`, none out of range
unfoldable pub get_item : Items → ℕ → Option Json
get_item nil n = none
get_item (item v vs) zero = some v
get_item (item v vs) (suc n) = get_item vs n
