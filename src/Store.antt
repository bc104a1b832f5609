-- ===== src/Store.antt =====
-- The records that the workflow compiler and runner share with the store and the replay engine
-- (daemon/internal/store/store.go, daemon/internal/replay/replay.go). Headers are kept decoded. The
-- times that a record was created at and how long an exchange took are left out: no modelled code
-- decides on them.
use deconstruct.Base.{ℕ, Text, Assoc, Bool, Option, List}
use deconstruct.Redact.{Header}

pub record Overrides : Type 0 where
  pub method : Text
  pub url : Text
  pub headers : Header
  pub remove_headers : List Text
  pub query : Assoc Text
  pub body : Option Text

-- The raw JSON of a step's overrides: none, a value, or bytes that do not decode.
pub data StoredOverrides : Type 0 where
  absent : StoredOverrides
  stored : Overrides → StoredOverrides
  malformed : StoredOverrides

pub record WorkflowAssertions : Type 0 where
  pub status : List ℕ
  pub json_path : List Text
  pub header : List Text
  pub body_contains : List Text

pub record WorkflowStep : Type 0 where
  pub id : Text
  pub flow_id : Text
  pub name : Text
  pub class : Text
  pub included : Bool
  pub reason : Text
  pub overrides : StoredOverrides
  pub extract : Assoc Text
  pub assertions : WorkflowAssertions
  pub replay_profile : Text
  pub profile_options : Assoc Text

pub record Workflow : Type 0 where
  pub id : Text
  pub name : Text
  pub input_schema : Text
  pub output_schema : Text
  pub steps : List WorkflowStep

pub record WorkflowStepRun : Type 0 where
  pub step_id : Text
  pub flow_id : Text
  pub replay_run_id : Text
  pub ok : Bool
  pub status : ℕ
  pub error : Text

pub record WorkflowRun : Type 0 where
  pub id : Text
  pub workflow_id : Text
  pub ok : Bool
  pub error : Text
  pub step_runs : List WorkflowStepRun

pub record ReplayRun : Type 0 where
  pub id : Text
  pub original_flow_id : Text
  pub replay_flow_id : Text
  pub ok : Bool
  pub status : ℕ
  pub attempts : ℕ
  pub error : Text

pub record Flow : Type 0 where
  pub id : Text
  pub session_id : Text
  pub method : Text
  pub app_name : Text
  pub source : Text
  pub url : Text
  pub host : Text
  pub status : ℕ
  pub request_headers : Header
  pub response_headers : Header
  pub request_blob : Text
  pub response_blob : Text

-- A value, or an error by its message.
pub data Result (A : Type 0) : Type 0 where
  done : A → Result A
  failed : Text → Result A
