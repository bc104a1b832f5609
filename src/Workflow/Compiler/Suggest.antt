-- ===== src/Workflow/Compiler/Suggest.antt =====
-- `inferCrossStepBindings`, `Suggest` and `Save` of daemon/internal/workflow/modeler.go.
use deconstruct.Base.{
  ℕ, zero, suc, ◌+◌, Text, codes, Assoc, Bool, false, not, ◌&&◌, ◌||◌, Option, none, some, List, [],
  ◌∷◌, ◌++◌, leb, ltb, is_empty, lookup, insert, length, if◌then◌else◌,
}
use deconstruct.Base.Decimal.{decimal_two}
use deconstruct.Store.{Result, done, failed, Overrides, absent, stored, WorkflowStep, Flow}
use deconstruct.Workflow.Sources.{SourceValue, binding_value_useful, json_primitive_sources}
use deconstruct.Workflow.Templates.{no_overrides, step_overrides}
use deconstruct.Workflow.Compiler.{
  Library, Binding, bind_headers, bind_body, classify, expected_statuses, infer_body_template,
  max_binding_sources, max_binding_body_bytes,
}

-- the sources of the steps so far, in their order and by value
pub record Known : Type 0 where
  pub previous : List SourceValue
  pub by_value : Assoc SourceValue

-- the loop over the sources of one response
unfoldable pub learn : List SourceValue → Known → Known
learn [] known = known
learn (source ∷ sources) known =
    if leb max_binding_sources (length known.previous)
    then known
    else if not (binding_value_useful source.value)
    then learn sources known
    else elim (lookup source.value known.by_value) [
      | some s ↦ learn sources known
      | none ↦ learn sources (record {
        previous = known.previous ++ (source ∷ []);
        by_value = insert source.value source known.by_value;
      })
    ]

-- `steps[index] = ...`
unfoldable pub set_overrides : ℕ → Overrides → List WorkflowStep → List WorkflowStep
set_overrides i overrides [] = []
set_overrides zero overrides (step ∷ steps) = record step { overrides = stored overrides } ∷ steps
set_overrides (suc i) overrides (step ∷ steps) = step ∷ set_overrides i overrides steps

-- the text that the sources are looked for in: the body of the overrides, if there is one
unfoldable pub body_text : Option Text → Text → Text
body_text none body = body
body_text (some text) body = text

module _ (library : Library) where
  -- the references in the body of a request
  unfoldable pub bind_request : Flow → List SourceValue → Binding → Binding
  bind_request flow previous b =
      if is_empty flow.request_blob then b else elim (library.blob_get flow.request_blob) [
        | failed e ↦ b
        | done body ↦
            if is_empty body || ltb max_binding_body_bytes (length body)
            then b
            else (let (text, bound) = bind_body previous (body_text b.overrides.body body) b in
                if bound.changed
                then record bound { overrides = record bound.overrides { body = some text } }
                else bound)
      ]

  -- the references of the step at a position to values of earlier responses
  unfoldable pub bind_step :
      ℕ → WorkflowStep → Flow → Known → List WorkflowStep → Result (List WorkflowStep)
  bind_step index step flow known steps = elim (step_overrides step.overrides [] []) [
    | failed e ↦ failed e
    | done overrides ↦
        let start : Binding = record { overrides = overrides; changed = false; steps = steps } in
        let bound =
          bind_request flow known.previous
            (bind_headers known.by_value flow.request_headers start) in
        done
          (if bound.changed then set_overrides index bound.overrides bound.steps else bound.steps)
  ]

  -- the sources of the step's own response
  unfoldable pub learn_step : WorkflowStep → Flow → Known → Known
  learn_step step flow known =
      if not step.included || is_empty flow.response_blob
      then known
      else elim (library.blob_get flow.response_blob) [
        | failed e ↦ known
        | done body ↦
            if ltb max_binding_body_bytes (length body)
            then known
            else learn (json_primitive_sources library.unmarshal step.id body) known
      ]

  abbrev pub has_sources : Known → Bool
  has_sources known = not (leb (length known.previous) 0)

  unfoldable pub bind_if_known :
      ℕ → WorkflowStep → Flow → Known → List WorkflowStep → Result (List WorkflowStep)
  bind_if_known index step flow known steps =
      if step.included && has_sources known
      then bind_step index step flow known steps
      else done steps

  -- the loop over the steps with their flows, from a position on
  unfoldable pub bind_from :
      ℕ → List (WorkflowStep × Flow) → Known → List WorkflowStep → Result (List WorkflowStep)
  bind_from index [] known steps = done steps
  bind_from index ((step, flow) ∷ rest) known steps =
      elim (bind_if_known index step flow known steps) [
        | failed e ↦ failed e
        | done bound ↦ bind_from (index + 1) rest (learn_step step flow known) bound
      ]

  -- The step of a flow at a position, counted from 0.
  unfoldable pub step_of : (Text → Option Text) → ℕ → Flow → WorkflowStep
  step_of url_path index flow =
      let (class, included, reason) = classify url_path flow in
      let template = infer_body_template library flow in
      record {
        id = codes "step_" ++ decimal_two (index + 1);
        flow_id = flow.id;
        name = flow.method ++ (codes " " ++ flow.url);
        class = class;
        included = included;
        reason = reason;
        overrides =
            if included && not (is_empty template)
            then stored (record no_overrides { body = some template })
            else absent;
        extract = [];
        assertions = record {
          status = expected_statuses flow.status;
          json_path = [];
          header = [];
          body_contains = [];
        };
        replay_profile = [];
        profile_options = [];
      }

  unfoldable pub steps_from : (Text → Option Text) → ℕ → List Flow → List WorkflowStep
  steps_from url_path index [] = []
  steps_from url_path index (flow ∷ flows) =
      step_of url_path index flow ∷ steps_from url_path (index + 1) flows

  abbrev pub with_flows : List WorkflowStep → List Flow → List (WorkflowStep × Flow)
  with_flows [] flows = []
  with_flows (step ∷ steps) [] = []
  with_flows (step ∷ steps) (flow ∷ flows) = (step, flow) ∷ with_flows steps flows

  -- the steps that `Suggest` proposes for flows that the store has given
  unfoldable pub suggest_steps : (Text → Option Text) → List Flow → Result (List WorkflowStep)
  suggest_steps url_path flows =
      let steps = steps_from url_path 0 flows in
      bind_from 0 (with_flows steps flows) (record { previous = []; by_value = [] }) steps
