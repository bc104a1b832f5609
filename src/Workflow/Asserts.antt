-- ===== src/Workflow/Asserts.antt =====
-- `assertStatus`, `assertStep`, `responseForReplay`, `extractStepOutputs` and `replayRun` of
-- daemon/internal/workflow/modeler.go: what a step's answer is checked for, and what is taken from it.
use deconstruct.Base.{
  ℕ, Text, codes, Assoc, Bool, true, false, not, ◌&&◌, ◌||◌, Option, none, some, List, [], ◌∷◌,
  ◌++◌, leb, ltb, ◌==◌, is_empty, contains, insert, join, map, if◌then◌else◌,
}
use deconstruct.Base.Decimal.{decimal}
use deconstruct.Json.{Json}
use deconstruct.Redact.{Header}
use deconstruct.Store.{Result, done, failed, ReplayRun, WorkflowStep, WorkflowStepRun, WorkflowRun}
use deconstruct.Action.{Action}
use deconstruct.Replay.Headers.{header_get}
use deconstruct.Replay.Engine.{Backend}
use deconstruct.Workflow.Paths.{json_path_value}

-- What the runner asks of its surroundings beside what the replay engine does. `blobs` tells whether
-- the builder has a blob store; `print_value` is `fmt.Sprint` and `quote` is the verb `%q`.
pub record Services (W : Type 0) : Type 1 where
  pub replay : Backend W
  pub blobs : Bool
  pub get_replay_run : Text → W → Result ReplayRun
  pub insert_workflow_run : WorkflowRun → Action W Unit
  pub print_value : Json → Text
  pub quote : Text → Text
  pub sort : List Text → List Text

unfoldable pub holds_status : ℕ → List ℕ → Bool
holds_status status [] = false
holds_status status (allowed ∷ rest) = (status == allowed) || holds_status status rest

unfoldable pub assert_status : ℕ → List ℕ → Bool → Bool
assert_status status allowed true = true
assert_status status [] false = leb 200 status && ltb status 400
assert_status status (a ∷ allowed) false = holds_status status (a ∷ allowed)

-- `%v` of a slice of ints
abbrev status_list : List ℕ → Text
status_list statuses = codes "[" ++ (join (codes " ") (map decimal statuses) ++ codes "]")

-- the three loops over the assertions on a response: the first failure, if there is one
unfoldable pub missing_header : List Text → Header → Option Text
missing_header [] headers = none
missing_header (name ∷ names) headers =
    if is_empty (header_get name headers)
    then some (codes "missing response header " ++ name)
    else missing_header names headers

-- whether a step asserts anything of the response itself
unfoldable pub asserts_response : WorkflowStep → Bool
asserts_response step =
    elim (step.assertions.json_path ++ (step.assertions.header ++ step.assertions.body_contains)) [
      | [] ↦ false
      | x ∷ xs ↦ true
    ]

module _ {W : Type 0} (services : Services W) where
  unfoldable pub missing_text : List Text → Text → Option Text
  missing_text [] body = none
  missing_text (needle ∷ needles) body =
      if contains body needle
      then missing_text needles body
      else some (codes "response body missing " ++ services.quote needle)

  unfoldable pub missing_path : List Text → Text → Option Text
  missing_path [] body = none
  missing_path (path ∷ paths) body =
      let rest = missing_path paths body in
      elim (json_path_value services.replay.unmarshal body path) [
        | none ↦ some (codes "missing response json path " ++ path)
        | some v ↦ rest
      ]

  unfoldable pub response_for_replay : ReplayRun → W → Result (Text × Header)
  response_for_replay run w =
      if is_empty run.replay_flow_id
      then failed (codes "replay flow is unavailable")
      else elim (services.replay.get_flow run.replay_flow_id w) [
        | failed e ↦ failed e
        | done flow ↦
            if not services.blobs || is_empty flow.response_blob
            then done ([], flow.response_headers)
            else elim (services.replay.blob_get flow.response_blob w) [
              | failed e ↦ failed e
              | done body ↦ done (body, flow.response_headers)
            ]
      ]

  -- the first failed assertion on a response
  unfoldable pub first_missing : WorkflowStep → Text → Header → Option Text
  first_missing step body headers = elim (missing_header step.assertions.header headers) [
    | some e ↦ some e
    | none ↦ elim (missing_text step.assertions.body_contains body) [
      | some e ↦ some e
      | none ↦ missing_path step.assertions.json_path body
    ]
  ]

  unfoldable pub assert_response : ReplayRun → WorkflowStep → W → Bool × Text
  assert_response run step w = elim (response_for_replay run w) [
    | failed e ↦ (false, e)
    | done (body, headers) ↦ elim (first_missing step body headers) [
      | some e ↦ (false, e)
      | none ↦ (run.ok, run.error)
    ]
  ]

  unfoldable pub assert_step : ReplayRun → WorkflowStep → Bool → W → Bool × Text
  assert_step run step dry_run w =
      if not (assert_status run.status step.assertions.status dry_run)
      then (
        false,
        codes "status "
            ++ (decimal run.status ++ (codes " not in " ++ status_list step.assertions.status)),
      )
      else if dry_run
      then (true, [])
      else if asserts_response step
      then assert_response run step w
      else (run.ok, run.error)

  unfoldable pub replay_run : Text → W → Result ReplayRun
  replay_run id w =
      if is_empty id
      then failed (codes "replay run is unavailable")
      else services.get_replay_run id w

  -- the loop over the entries of `Extract`
  unfoldable pub extract_all : Assoc Text → Text → Assoc Text → Result (Assoc Text)
  extract_all [] body out = done out
  extract_all ((key, path) ∷ extract) body out =
      elim (json_path_value services.replay.unmarshal body path) [
        | none ↦ failed (codes "missing extraction path " ++ path)
        | some value ↦ extract_all extract body (insert key (services.print_value value) out)
      ]

  unfoldable pub extract_from : Assoc Text → WorkflowStepRun → W → Result (Assoc Text)
  extract_from extract step_run w = elim (replay_run step_run.replay_run_id w) [
    | failed e ↦ failed e
    | done run ↦ elim (response_for_replay run w) [
      | failed e ↦ failed e
      | done (body, headers) ↦ extract_all extract body []
    ]
  ]

  unfoldable pub extract_step_outputs : WorkflowStep → WorkflowStepRun → W → Result (Assoc Text)
  extract_step_outputs step step_run w = elim step.extract [
    | [] ↦ done []
    | entry ∷ extract ↦ extract_from (entry ∷ extract) step_run w
  ]
