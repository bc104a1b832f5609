-- ===== src/Workflow/Compiler/Builder.antt =====
-- `Suggest` and `Save` of daemon/internal/workflow/modeler.go: the operations on the store.
use deconstruct.Base.{
  Text, codes, Assoc, Option, List, [], ◌∷◌, ◌++◌, insert, is_empty, if◌then◌else◌,
}
use deconstruct.Action.{Action, ◌>>=◌, fail, yield, look}
use deconstruct.Json.{Json, Items, Fields, null, str, arr, obj, nil, item, end, field}
use deconstruct.Store.{Flow, Workflow, WorkflowStep}
use deconstruct.Replay.Engine.{Backend}
use deconstruct.Workflow.Compiler.{Library, infer_input_defaults, unique}
use deconstruct.Workflow.Compiler.Suggest.{suggest_steps}

-- the inputs of all flows, the later ones in place of the earlier
unfoldable pub put_defaults : Assoc Text → Assoc Text → Assoc Text
put_defaults [] inputs = inputs
put_defaults ((key, value) ∷ defaults) inputs = put_defaults defaults (insert key value inputs)

unfoldable pub all_inputs : Library → List Flow → Assoc Text → Assoc Text
all_inputs library [] inputs = inputs
all_inputs library (flow ∷ flows) inputs =
    all_inputs library flows (put_defaults (infer_input_defaults library flow) inputs)

keys_of : Assoc Text → List Text
keys_of [] = []
keys_of ((key, value) ∷ inputs) = key ∷ keys_of inputs

-- every field of every flow, as often as it is there
unfoldable pub all_required : Library → List Flow → List Text
unfolding keys_of
all_required library [] = []
all_required library (flow ∷ flows) =
    keys_of (infer_input_defaults library flow) ++ all_required library flows

unfoldable pub schema_properties : Assoc Text → Fields
schema_properties [] = end
schema_properties ((key, value) ∷ inputs) =
    field key
      (obj (field (codes "type") (str (codes "string")) (field (codes "default") (str value) end)))
      (schema_properties inputs)

unfoldable pub schema_required : List Text → Items
schema_required [] = nil
schema_required (key ∷ required) = item (str key) (schema_required required)

-- the slice that `unique` leaves nil where there is no input is encoded as null
unfoldable pub required_value : List Text → Json
required_value [] = null
required_value (key ∷ required) = arr (schema_required (key ∷ required))

unfoldable pub input_schema : Assoc Text → List Text → Json
input_schema inputs required = obj (
    field (codes "type") (str (codes "object")) (
      field (codes "properties") (obj (schema_properties inputs))
        (field (codes "required") (required_value required) end)))

-- `url_path` is the path of a URL, `sort` is `sort.Strings`.
module _ {W : Type 0} (back : Backend W) (url_path : Text → Option Text)
    (sort : List Text → List Text) where
  unfoldable pub library_at : W → Library
  library_at w = record {
    blob_get = λ hash. back.blob_get hash w;
    unmarshal = back.unmarshal;
    marshal = back.marshal;
  }

  unfoldable pub load_flows : List Text → Action W (List Flow)
  load_flows [] = yield []
  load_flows (id ∷ ids) = do
    flow ← look (back.get_flow id)
    flows ← load_flows ids
    yield (flow ∷ flows)

  unfoldable pub proposal : Text → Text → List Flow → List WorkflowStep → W → Workflow
  proposal id name flows steps w =
      let library = library_at w in
      record {
        id = id;
        name = if is_empty name then codes "Captured workflow" else name;
        input_schema = back.marshal (
            input_schema (all_inputs library flows [])
              (unique (sort (all_required library flows))));
        output_schema = codes "{\"type\":\"object\",\"properties\":{}}";
        steps = steps;
      }

  unfoldable pub suggest : Text → List Text → Action W Workflow
  suggest name [] = fail (codes "at least one flow id is required")
  suggest name (id ∷ ids) = do
    workflow_id ← back.new_id (codes "workflow")
    flows ← load_flows (id ∷ ids)
    steps ← look (λ w. suggest_steps (library_at w) url_path flows)
    λ w. yield (proposal workflow_id name flows steps w) w

  -- a workflow without an identifier gets one
  unfoldable pub identified : Workflow → Action W Workflow
  identified workflow =
      if is_empty workflow.id
      then (do fresh ← back.new_id (codes "workflow"); yield (record workflow { id = fresh }))
      else yield workflow

  unfoldable pub save : (Workflow → Action W Unit) → Workflow → Action W Workflow
  save save_workflow workflow = do named ← identified workflow; _ ← save_workflow named; yield named
