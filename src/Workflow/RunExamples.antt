-- ===== src/Workflow/RunExamples.antt =====
-- A run of a workflow in the small world of Replay/Lab, as a test and as an instance.
use deconstruct.Base.{
  remove, to_lower, lower_byte, upper_byte, join, ℕ, zero, suc, Text, codes, Bool, true, false, [],
  ◌∷◌, ◌≡◌, refl,
}
use deconstruct.Store.{done, failed, absent, WorkflowStep, WorkflowStepRun, WorkflowRun}
use deconstruct.Replay.Engine.{
  AdapterResult, prepare, stored_body, target_url, assemble, replay_profile, prepare_headers,
  record_replay_flow, replay_flow, set_headers, tag_all, tag_replay,
}
use deconstruct.Replay.Run
use deconstruct.Replay.Headers.{
  remove_hop_by_hop_headers, del_all, header_del, canonical_key, is_token, is_token_byte, capitals,
}
use deconstruct.Redact.{redact_header, redact_body, redact_values, sensitive_header}
use deconstruct.Base.Decimal.{decimal}
use deconstruct.Action.{◌>>=◌, look, yield}
use deconstruct.Workflow.Templates.{step_overrides}
use deconstruct.Workflow.AuthMaterial.{apply_auth_material}
use deconstruct.Replay.Lab.{lab}
use deconstruct.Workflow.Asserts.{
  Services, assert_step, assert_status, holds_status, asserts_response, extract_step_outputs,
}
use deconstruct.Workflow.Run.{
  RunParams, run, run_loop, one_step, run_step, step_params, answered_step_run, may_refresh,
  auth_failure_status, refresh_params, refresh_step_run, refresh_result, try_auth_refresh, settle,
  retry, resume, recover, progress_of,
}
use deconstruct.Workflow.Order.{Trace, run-Trace}

-- a server that wants a refresh first
abbrev locked : ℕ → AdapterResult
locked zero = record { status = 401; headers = []; body = [] }
locked (suc n) = record { status = 200; headers = []; body = codes "ok" }

abbrev services : Services ℕ
services = record {
  replay = lab locked;
  blobs = true;
  get_replay_run = λ id w. failed (codes "replay run not found");
  insert_workflow_run = λ row w. (done tt, w);
  print_value = λ v. [];
  quote = λ t. t;
  sort = λ ts. ts;
}

abbrev params : RunParams
params = record {
  inputs = [];
  dry_run = false;
  auth_refresh_flow_id = codes "flow_9";
  replay_profile = [];
  profile_options = [];
  auth_material = [];
}

abbrev step : Bool → WorkflowStep
step included = record {
  id = codes "step_01";
  flow_id = codes "flow_1";
  name = [];
  class = [];
  included = included;
  reason = [];
  overrides = absent;
  extract = [];
  assertions = record { status = 200 ∷ []; json_path = []; header = []; body_contains = [] };
  replay_profile = [];
  profile_options = [];
}

abbrev step_row : ℕ → Bool → Text → WorkflowStepRun
step_row status ok error = record {
  step_id = codes "step_01";
  flow_id = codes "flow_1";
  replay_run_id = codes "replay";
  ok = ok;
  status = status;
  error = error;
}

abbrev stored_run : WorkflowRun
stored_run = record {
  id = codes "workflow_run";
  workflow_id = codes "w";
  ok = true;
  error = [];
  step_runs =
      step_row 401 false (codes "status 401 not in [200]")
      ∷ record {
        step_id = codes "auth_refresh";
        flow_id = codes "flow_9";
        replay_run_id = codes "replay";
        ok = true;
        status = 200;
        error = [];
      }
      ∷ step_row 200 true []
      ∷ [];
}

refreshed_run :
    run services params (codes "w") (step false ∷ step true ∷ []) 0 ≡ (done stored_run, 3)
unfolding run run_loop one_step run_step step_params answered_step_run may_refresh
    auth_failure_status refresh_params refresh_step_run refresh_result try_auth_refresh settle retry
    resume recover progress_of Run.run Run.run_prepared Run.send Run.attempts Run.finish
    Run.attempt_loop Run.attempts_of Run.attempt_once prepare stored_body target_url assemble
    replay_profile prepare_headers record_replay_flow replay_flow set_headers tag_all tag_replay
    remove_hop_by_hop_headers del_all header_del canonical_key is_token is_token_byte capitals
    redact_header redact_body redact_values sensitive_header remove to_lower lower_byte upper_byte
    join assert_step assert_status holds_status asserts_response extract_step_outputs step_overrides
    apply_auth_material decimal ◌>>=◌ look yield
refreshed_run = refl

run-Trace_example :
    (u : ℕ) × Trace services params
      (step false ∷ step true ∷ [])
      stored_run.step_runs
      stored_run.ok
      stored_run.error
      u
    × (services.insert_workflow_run stored_run u ≡ (done tt, 3))
run-Trace_example =
    run-Trace services params (codes "w") (step false ∷ step true ∷ []) 0 3 stored_run refreshed_run
