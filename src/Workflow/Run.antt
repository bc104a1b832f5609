-- ===== src/Workflow/Run.antt =====
-- `Builder.Run`, `runStep` and `tryAuthRefresh` of daemon/internal/workflow/modeler.go: the runner.
-- A builder over another store than the daemon's is refused at once, and is not modelled.
use deconstruct.Base.{
  ℕ, Text, codes, Assoc, Bool, true, false, not, ◌||◌, Option, none, some, List, [], ◌∷◌, ◌++◌,
  ◌==◌, is_empty, insert, if◌then◌else◌,
}
use deconstruct.Base.Decimal.{pos}
use deconstruct.Action.{Action, ◌>>=◌, yield}
use deconstruct.Store.{
  Result, done, failed, Overrides, ReplayRun, WorkflowStep, WorkflowStepRun, WorkflowRun,
}
use deconstruct.Replay.Engine.{Params, RunResult}
use deconstruct.Replay.Run
use deconstruct.Workflow.Templates.{no_overrides, step_overrides}
use deconstruct.Workflow.AuthMaterial.{apply_auth_material}
use deconstruct.Workflow.Asserts.{Services, assert_step, extract_step_outputs}

pub record RunParams : Type 0 where
  pub inputs : Assoc Text
  pub dry_run : Bool
  pub auth_refresh_flow_id : Text
  pub replay_profile : Text
  pub profile_options : Assoc Text
  pub auth_material : Assoc Text

unfoldable pub auth_failure_status : ℕ → Bool
auth_failure_status status =
    (status == 401) || ((status == 403) || ((status == 419) || (status == 440)))

-- the row of a step that came to no answer
abbrev pub failed_step_run : Text → Text → Text → WorkflowStepRun
failed_step_run step_id flow_id error = record {
  step_id = step_id;
  flow_id = flow_id;
  replay_run_id = [];
  ok = false;
  status = 0;
  error = error;
}

abbrev pub auth_refresh : Text
auth_refresh = codes "auth_refresh"

-- the parameters of a step's replay
unfoldable pub step_params : RunParams → WorkflowStep → Overrides → Params
step_params params step overrides =
    let own = not (is_empty step.replay_profile) in
    record {
      flow_id = step.flow_id;
      overrides = overrides;
      dry_run = params.dry_run;
      retries = pos 0;
      profile = if own then step.replay_profile else params.replay_profile;
      profile_options = if own then step.profile_options else params.profile_options;
    }

-- the error of a step: that of the assertion, or that of the replay
abbrev pub step_error : Text → Text → Text
step_error assertion replay = if is_empty assertion then replay else assertion

-- A round of the loop over the steps ends the run with an error, or goes on with the outputs so far.
pub data StepEnd (W : Type 0) : Type 0 where
  stop_with : List WorkflowStepRun → Text → W → StepEnd W
  go_on_with : List WorkflowStepRun → Assoc (Assoc Text) → W → StepEnd W

-- the fields of a run that the loop sets
pub record Progress : Type 0 where
  pub ok : Bool
  pub error : Text
  pub step_runs : List WorkflowStepRun

abbrev pub workflow_run : Text → Text → Progress → WorkflowRun
workflow_run run_id workflow_id progress = record {
  id = run_id;
  workflow_id = workflow_id;
  ok = progress.ok;
  error = progress.error;
  step_runs = progress.step_runs;
}

module _ {W : Type 0} (services : Services W) (params : RunParams) where
  -- the row of a step whose replay has come to an end
  unfoldable pub answered_step_run : WorkflowStep → ReplayRun → W → WorkflowStepRun
  answered_step_run step run w =
      let (ok, error) = assert_step services run step params.dry_run w in
      record {
        step_id = step.id;
        flow_id = step.flow_id;
        replay_run_id = run.id;
        ok = ok;
        status = run.status;
        error = step_error error run.error;
      }

  -- the error of the second component is the result's
  unfoldable pub run_step :
      WorkflowStep → Assoc (Assoc Text) → W → WorkflowStepRun × Option Text × W
  run_step step outputs w = elim (step_overrides step.overrides params.inputs outputs) [
    | failed e ↦ (failed_step_run step.id step.flow_id e, some e, w)
    | done overrides ↦
        let with_auth = apply_auth_material services.sort overrides params.auth_material in
        let (ran, w1) = Run.run services.replay (step_params params step with_auth) w in
        elim ran [
          | failed e ↦ (failed_step_run step.id step.flow_id e, some e, w1)
          | done result ↦ (answered_step_run step result.run w1, none, w1)
        ]
  ]

  unfoldable pub refresh_params : Params
  refresh_params = record {
    flow_id = params.auth_refresh_flow_id;
    overrides = apply_auth_material services.sort no_overrides params.auth_material;
    dry_run = false;
    retries = pos 0;
    profile = params.replay_profile;
    profile_options = params.profile_options;
  }

  unfoldable pub may_refresh : WorkflowStepRun → Bool
  may_refresh failure = not (
      params.dry_run
      || (is_empty params.auth_refresh_flow_id || not (auth_failure_status failure.status)))

  unfoldable pub refresh_step_run : ReplayRun → WorkflowStepRun
  refresh_step_run run = record {
    step_id = auth_refresh;
    flow_id = params.auth_refresh_flow_id;
    replay_run_id = run.id;
    ok = run.ok;
    status = run.status;
    error = run.error;
  }

  unfoldable pub refresh_result : Result RunResult → WorkflowStepRun
  refresh_result (failed e) = failed_step_run auth_refresh params.auth_refresh_flow_id e
  refresh_result (done result) = refresh_step_run result.run

  unfoldable pub try_auth_refresh : WorkflowStepRun → W → Option WorkflowStepRun × W
  try_auth_refresh failure w =
      if may_refresh failure
      then (let (ran, w1) = Run.run services.replay refresh_params w in
          (some (refresh_result ran), w1))
      else (none, w)

  -- the end of a round: `before` are the rows of this round ahead of the last one
  unfoldable pub settle :
      WorkflowStep → List WorkflowStepRun → WorkflowStepRun → Assoc (Assoc Text) → W → StepEnd W
  settle step before step_run outputs w =
      let rows = before ++ (step_run ∷ []) in
      if step_run.ok
      then elim (extract_step_outputs services step step_run w) [
        | failed e ↦
            stop_with rows (codes "step " ++ (step.id ++ (codes " extraction failed: " ++ e))) w
        | done [] ↦ go_on_with rows outputs w
        | done (entry ∷ extracted) ↦ go_on_with rows (insert step.id (entry ∷ extracted) outputs) w
      ]
      else stop_with rows
          (codes "step " ++ (step.id ++ (codes " assertion failed: " ++ step_run.error))) w

  unfoldable pub retry : WorkflowStep → List WorkflowStepRun → Assoc (Assoc Text) → W → StepEnd W
  retry step before outputs w =
      let (again, err, w1) = run_step step outputs w in
      elim err [
        | some e ↦ stop_with (before ++ (again ∷ [])) e w1
        | none ↦ settle step before again outputs w1
      ]

  -- what follows on a refresh
  unfoldable pub resume :
      WorkflowStep → WorkflowStepRun → WorkflowStepRun → Assoc (Assoc Text) → W → StepEnd W
  resume step failure refresh outputs w =
      if refresh.ok
      then retry step (failure ∷ refresh ∷ []) outputs w
      else stop_with (failure ∷ refresh ∷ []) (codes "auth refresh failed: " ++ refresh.error) w

  -- what follows on a step that failed
  unfoldable pub recover : WorkflowStep → WorkflowStepRun → Assoc (Assoc Text) → W → StepEnd W
  recover step failure outputs w =
      let (refresh, w1) = try_auth_refresh failure w in
      elim refresh [
        | none ↦ settle step [] failure outputs w1
        | some row ↦ resume step failure row outputs w1
      ]

  -- one round of the loop over the steps
  unfoldable pub one_step : WorkflowStep → Assoc (Assoc Text) → W → StepEnd W
  one_step step outputs w =
      let (step_run, err, w1) = run_step step outputs w in
      elim err [
        | some e ↦ stop_with (step_run ∷ []) e w1
        | none ↦
            if step_run.ok
            then settle step [] step_run outputs w1
            else recover step step_run outputs w1
      ]

  unfoldable pub run_loop :
      List WorkflowStep → List WorkflowStepRun → Assoc (Assoc Text) → W → Progress × W
  run_loop [] rows outputs w = (record { ok = true; error = []; step_runs = rows }, w)
  run_loop (step ∷ steps) rows outputs w = elim step.included [
    | false ↦ run_loop steps rows outputs w
    | true ↦ elim (one_step step outputs w) [
      | stop_with more error v ↦ (record { ok = false; error = error; step_runs = rows ++ more }, v)
      | go_on_with more next v ↦ run_loop steps (rows ++ more) next v
    ]
  ]

  unfoldable pub progress_of : List WorkflowStep → Action W Progress
  progress_of steps w = let (progress, v) = run_loop steps [] [] w in (done progress, v)

  unfoldable pub run : Text → List WorkflowStep → Action W WorkflowRun
  run workflow_id steps = do
    run_id ← services.replay.new_id (codes "workflow_run")
    progress ← progress_of steps
    let row = workflow_run run_id workflow_id progress
    _ ← services.insert_workflow_run row
    yield row
