-- ===== src/Workflow/Templates.antt =====
-- `replaceBindings` and `stepOverrides` of daemon/internal/workflow/modeler.go. An input is kept as
-- the text that `fmt.Sprint` prints for it. Go visits the entries of a map in no fixed order; the
-- model takes the order of the list.
use deconstruct.Base.{Text, codes, Assoc, Option, none, some, [], ◌∷◌, ◌++◌, map, replace_all}
use deconstruct.Redact.{Header}
use deconstruct.Store.{Overrides, StoredOverrides, absent, stored, malformed, Result, done, failed}

unfoldable pub input_reference : Text → Text
input_reference key = codes "${input." ++ (key ++ codes "}")

unfoldable pub step_reference : Text → Text → Text
step_reference step_id key = codes "${steps." ++ (step_id ++ (codes "." ++ (key ++ codes "}")))

unfoldable pub replace_inputs : Text → Assoc Text → Text
unfolding input_reference replace_all
replace_inputs value [] = value
replace_inputs value ((key, input) ∷ inputs) =
    replace_inputs (replace_all value (input_reference key) input) inputs

unfoldable pub replace_outputs : Text → Text → Assoc Text → Text
unfolding step_reference replace_all
replace_outputs step_id value [] = value
replace_outputs step_id value ((key, output) ∷ outputs) =
    replace_outputs step_id (replace_all value (step_reference step_id key) output) outputs

unfoldable pub replace_steps : Text → Assoc (Assoc Text) → Text
unfolding replace_outputs
replace_steps value [] = value
replace_steps value ((step_id, outputs) ∷ rest) =
    replace_steps (replace_outputs step_id value outputs) rest

unfoldable pub replace_bindings : Text → Assoc Text → Assoc (Assoc Text) → Text
unfolding replace_inputs replace_steps
replace_bindings value inputs step_outputs =
    replace_steps (replace_inputs value inputs) step_outputs

replace_query : (Text → Text) → Assoc Text → Assoc Text
replace_query f [] = []
replace_query f ((key, value) ∷ query) = (key, f value) ∷ replace_query f query

replace_headers : (Text → Text) → Header → Header
replace_headers f [] = []
replace_headers f ((key, values) ∷ headers) = (key, map f values) ∷ replace_headers f headers

replace_body : (Text → Text) → Option Text → Option Text
replace_body f none = none
replace_body f (some body) = some (f body)

abbrev pub no_overrides : Overrides
no_overrides = record {
  method = [];
  url = [];
  headers = [];
  remove_headers = [];
  query = [];
  body = none;
}

unfoldable pub step_overrides : StoredOverrides → Assoc Text → Assoc (Assoc Text) → Result Overrides
unfolding replace_query replace_headers replace_body
step_overrides absent inputs step_outputs = done no_overrides
step_overrides malformed inputs step_outputs = failed (codes "decode overrides")
step_overrides (stored overrides) inputs step_outputs =
    let f = λ (value : Text). replace_bindings value inputs step_outputs in
    done (record overrides {
      body = replace_body f overrides.body;
      query = replace_query f overrides.query;
      headers = replace_headers f overrides.headers;
    })
