-- ===== src/Workflow/Compiler.antt =====
-- `classify`, `expectedStatuses`, `inferInputDefaults`, `inferBodyTemplate`, `unique`,
-- `ensureExtraction` and `inferCrossStepBindings` of daemon/internal/workflow/modeler.go: how captured
-- flows become the steps of a workflow. Maps are walked in the order of their lists.
pub mod Extraction
pub mod Suggest
pub mod Builder
pub mod Known
mod Examples
use deconstruct.Base.{
  ℕ, zero, suc, ◌+◌, ◌*◌, Text, codes, Assoc, Bool, true, false, not, ◌&&◌, ◌||◌, Option, none,
  some, List, [], ◌∷◌, ◌++◌, leb, ltb, ◌==◌, text_eq, is_empty, to_lower, to_upper, contains,
  split_on, member, replace_all, lookup, insert, length, get_elem?, if◌then◌else◌,
}
use deconstruct.Json.{Json, Fields, str, obj, end, field}
use deconstruct.Redact.{Header}
use deconstruct.Store.{Result, done, failed, Overrides, StoredOverrides, stored, WorkflowStep, Flow}
use deconstruct.Workflow.Sources.{
  SourceValue, sensitive_field, binding_value_useful, json_primitive_sources,
}
use deconstruct.Workflow.Templates.{input_reference, step_reference, step_overrides}

abbrev pub max_binding_sources : ℕ
max_binding_sources = 1000

abbrev pub max_binding_body_bytes : ℕ
max_binding_body_bytes = 256 * 1024

last_dot : Text → Option Text
last_dot [] = none
last_dot (c ∷ s) = elim (last_dot s) [
  | some t ↦ some t
  | none ↦ if c == b'.' then some (c ∷ s) else none
]

last_part : List Text → Text
last_part [] = []
last_part (p ∷ []) = p
last_part (p ∷ q ∷ ps) = last_part (q ∷ ps)

-- `filepath.Ext`
unfoldable pub file_ext : Text → Text
unfolding last_dot last_part split_on
file_ext path = elim (last_dot (last_part (split_on b'/' path))) [ none ↦ [] | some t ↦ t ]

abbrev pub mutating_methods : List Text
mutating_methods = codes "POST" ∷ codes "PUT" ∷ codes "PATCH" ∷ codes "DELETE" ∷ []

abbrev pub static_extensions : List Text
static_extensions =
    codes ".css"
    ∷ codes ".js"
    ∷ codes ".map"
    ∷ codes ".png"
    ∷ codes ".jpg"
    ∷ codes ".jpeg"
    ∷ codes ".gif"
    ∷ codes ".svg"
    ∷ codes ".ico"
    ∷ codes ".woff"
    ∷ codes ".woff2"
    ∷ []

-- the path of a URL is the library's; where it does not parse, the whole text serves
unfoldable pub classify : (Text → Option Text) → Flow → Text × Bool × Text
classify url_path flow =
    let path : Text = elim (url_path flow.url) [ none ↦ flow.url | some p ↦ p ] in
    let lower = to_lower path in
    if member (to_upper flow.method) mutating_methods
    then (codes "primary_action", true, codes "mutating method")
    else if member (to_lower (file_ext path)) static_extensions
    then (codes "static_asset", false, codes "static asset extension")
    else if contains lower (codes "csrf")
        || (contains lower (codes "token") || contains lower (codes "auth"))
    then (codes "auth_session", true, codes "auth/token path")
    else (codes "unknown", false, codes "no deterministic action signal")

unfoldable pub expected_statuses : ℕ → List ℕ
expected_statuses status =
    if leb 200 status && ltb status 400 then status ∷ [] else 200 ∷ 201 ∷ 202 ∷ 204 ∷ []

-- the loop of `unique`; `seen` are the values that are already there
unfoldable pub unique_from : List Text → List Text → List Text
unique_from seen [] = []
unique_from seen (value ∷ values) =
    let fresh = unique_from (value ∷ seen) values in
    let same = unique_from seen values in if member value seen then same else value ∷ fresh

unfoldable pub unique : List Text → List Text
unique values = unique_from [] values

-- the string fields of a request that are no secrets
unfoldable pub input_defaults : Fields → Assoc Text
input_defaults end = []
input_defaults (field key (str text) fs) =
    let rest = input_defaults fs in if sensitive_field key then rest else (key, text) ∷ rest
input_defaults (field key v fs) = input_defaults fs

-- the same fields as references to inputs, and whether there is one
unfoldable pub templated : Fields → Fields × Bool
templated end = (end, false)
templated (field key (str text) fs) =
    let (rest, changed) = templated fs in
    if sensitive_field key
    then (field key (str text) rest, changed)
    else (field key (str (input_reference key)) rest, true)
templated (field key v fs) = let (rest, changed) = templated fs in (field key v rest, changed)

-- the blob store of the builder, where it has one, and the library for JSON
pub record Library : Type 0 where
  pub blob_get : Text → Result Text
  pub unmarshal : Text → Option Json
  pub marshal : Json → Text

module _ (library : Library) where
  -- the object of a request body
  unfoldable pub request_object : Flow → Option Fields
  request_object flow =
      if is_empty flow.request_blob then none else elim (library.blob_get flow.request_blob) [
        | failed e ↦ none
        | done body ↦ elim (library.unmarshal body) [ some (obj fs) ↦ some fs | _ ↦ none ]
      ]

  unfoldable pub infer_input_defaults : Flow → Assoc Text
  infer_input_defaults flow = elim (request_object flow) [ none ↦ [] | some fs ↦ input_defaults fs ]

  unfoldable pub infer_body_template : Flow → Text
  infer_body_template flow = elim (request_object flow) [
    | none ↦ []
    | some fs ↦
        let (object, changed) = templated fs in if changed then library.marshal (obj object) else []
  ]

-- one source of a step, written into the first step with its identifier
unfoldable pub ensure_extraction : SourceValue → List WorkflowStep → List WorkflowStep
ensure_extraction source [] = []
ensure_extraction source (step ∷ steps) =
    let rest = ensure_extraction source steps in
    if text_eq step.id source.step_id
    then record step { extract = insert source.key source.path step.extract } ∷ steps
    else step ∷ rest

unfoldable pub reference_to : SourceValue → Text
reference_to source = step_reference source.step_id source.key

-- The variables of the loop for one step: the overrides, whether they changed, and all steps.
pub record Binding : Type 0 where
  pub overrides : Overrides
  pub changed : Bool
  pub steps : List WorkflowStep

unfoldable pub bind_value : Assoc SourceValue → Text → Text → Binding → Binding
bind_value by_value name value b = elim (lookup value by_value) [
  | none ↦ b
  | some source ↦ record {
    overrides = record b.overrides {
      headers = insert name (reference_to source ∷ []) b.overrides.headers;
    };
    changed = true;
    steps = ensure_extraction source b.steps;
  }
]

unfoldable pub bind_values : Assoc SourceValue → Text → List Text → Binding → Binding
bind_values by_value name [] b = b
bind_values by_value name (value ∷ values) b =
    bind_values by_value name values (bind_value by_value name value b)

unfoldable pub bind_headers : Assoc SourceValue → Header → Binding → Binding
bind_headers by_value [] b = b
bind_headers by_value ((name, values) ∷ headers) b =
    bind_headers by_value headers (bind_values by_value name values b)

-- the loop over the sources for a body: its text, and the variables above
unfoldable pub bind_body : List SourceValue → Text → Binding → Text × Binding
bind_body [] text b = (text, b)
bind_body (source ∷ sources) text b =
    if is_empty source.value || not (contains text source.value)
    then bind_body sources text b
    else bind_body sources (replace_all text source.value (reference_to source))
        (record b { changed = true; steps = ensure_extraction source b.steps })
