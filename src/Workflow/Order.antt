-- ===== src/Workflow/Order.antt =====
-- In which order the runner works through the steps, and what makes a run ok.
use mathlib.Core.Path.{subst}
use deconstruct.Base.{
  Text, Assoc, append-nil, Bool, true, false, List, [], ◌∷◌, ◌++◌, append_assoc, ◌≡◌, refl, sym, ap,
  ◌∙◌, arith,
}
use deconstruct.Action.{bind-done, yield}
use deconstruct.Store.{done, WorkflowStep, WorkflowStepRun, WorkflowRun}
use deconstruct.Workflow.Asserts.{Services}
use deconstruct.Workflow.Rounds.{Rows, GoesOn, Stops, Ends, one_step-Ends}
use deconstruct.Workflow.Run.{
  RunParams, Progress, StepEnd, stop_with, go_on_with, one_step, run_loop, progress_of, run,
  workflow_run,
}

-- The rows of a run: the included steps in their order, each with a last row behind which the run goes
-- on, up to the end or to the step at which it stops. The last indices are whether the run is ok, its
-- error, and the state in which it ends.
pub data Trace {W : Type 0} (services : Services W) (params : RunParams)
    : List WorkflowStep → List WorkflowStepRun → Bool → Text → W → Type 0 where
  finished : {w : W} → Trace services params [] [] true [] w
  skipped :
      {step : WorkflowStep} {steps : List WorkflowStep} {rows : List WorkflowStepRun} {ok : Bool}
      {error : Text} {w : W}
      → step.included ≡ false
      → Trace services params steps rows ok error w
      → Trace services params (step ∷ steps) rows ok error w
  passed :
      {step : WorkflowStep} {steps : List WorkflowStep} {first rows : List WorkflowStepRun}
      {last : WorkflowStepRun} {ok : Bool} {error : Text} {w : W}
      → step.included ≡ true
      → Rows params step first last
      → GoesOn services step last
      → Trace services params steps rows ok error w
      → Trace services params (step ∷ steps) (first ++ rows) ok error w
  stopped :
      {step : WorkflowStep} {steps : List WorkflowStep} {first : List WorkflowStepRun}
      {last : WorkflowStepRun} {error : Text} {w : W}
      → step.included ≡ true
      → Rows params step first last
      → Stops services step last error w
      → Trace services params (step ∷ steps) first false error w

module _ {W : Type 0} (services : Services W) (params : RunParams) where
  -- what the loop is to end with, from the steps that are left and the rows so far
  abbrev Traced : List WorkflowStep → List WorkflowStepRun → Progress × W → Type 0
  Traced steps before p =
      (rows : List WorkflowStepRun) × (p.0.step_runs ≡ before ++ rows)
      × Trace services params steps rows p.0.ok p.0.error p.1

  skipped-Traced :
      (step : WorkflowStep) (steps : List WorkflowStep) (before : List WorkflowStepRun)
      (p : Progress × W)
      → step.included ≡ false
      → Traced steps before p
      → Traced (step ∷ steps) before p
  skipped-Traced step steps before p out (rows, e, trace) = (rows, e, skipped out trace)

  passed-Traced :
      (step : WorkflowStep) (steps : List WorkflowStep) (before first : List WorkflowStepRun)
      (last : WorkflowStepRun) (p : Progress × W)
      → step.included ≡ true
      → Rows params step first last
      → GoesOn services step last
      → Traced steps (before ++ first) p
      → Traced (step ∷ steps) before p
  passed-Traced step steps before first last p on h goes (rows, e, trace) =
      (first ++ rows, e ∙ append_assoc before first rows, passed on h goes trace)

  -- one round of the loop, given what the rest of the loop ends with
  round-Traced :
      (step : WorkflowStep) (steps : List WorkflowStep) (before : List WorkflowStepRun)
      (e : StepEnd W)
      → ((rows : List WorkflowStepRun) (next : Assoc (Assoc Text)) (v : W)
          → Traced steps rows (run_loop services params steps rows next v))
      → step.included ≡ true
      → Ends services params step e
      → Traced (step ∷ steps) before (elim e as (λ _. Progress × W) [
        | stop_with more error v ↦
            (record { ok = false; error = error; step_runs = before ++ more }, v)
        | go_on_with more next v ↦ run_loop services params steps (before ++ more) next v
      ])
  round-Traced step steps before (stop_with more error v) rest on (last, ended, stops) =
      (more, refl, stopped on ended stops)
  round-Traced step steps before (go_on_with more next v) rest on (last, ended, goes) =
      passed-Traced step steps before more last
        (run_loop services params steps (before ++ more) next v) on ended goes
        (rest (before ++ more) next v)

  choice-Traced :
      (step : WorkflowStep) (steps : List WorkflowStep) (before : List WorkflowStepRun)
      (outputs : Assoc (Assoc Text)) (w : W) (included : Bool)
      → ((rows : List WorkflowStepRun) (next : Assoc (Assoc Text)) (v : W)
          → Traced steps rows (run_loop services params steps rows next v))
      → step.included ≡ included
      → Traced (step ∷ steps) before (elim included as (λ _. Progress × W) [
        | false ↦ run_loop services params steps before outputs w
        | true ↦ elim (one_step services params step outputs w) as (λ _. Progress × W) [
          | stop_with more error v ↦
              (record { ok = false; error = error; step_runs = before ++ more }, v)
          | go_on_with more next v ↦ run_loop services params steps (before ++ more) next v
        ]
      ])
  choice-Traced step steps before outputs w false rest off =
      skipped-Traced step steps before (run_loop services params steps before outputs w) off
        (rest before outputs w)
  choice-Traced step steps before outputs w true rest on =
      round-Traced step steps before (one_step services params step outputs w) rest on
        (one_step-Ends services params step outputs w)

  run_loop-Traced :
      (steps : List WorkflowStep) (before : List WorkflowStepRun) (outputs : Assoc (Assoc Text))
      (w : W)
      → Traced steps before (run_loop services params steps before outputs w)
  unfolding run_loop
  run_loop-Traced [] before outputs w = ([], sym (append-nil before), finished)
  run_loop-Traced (step ∷ steps) before outputs w =
      choice-Traced step steps before outputs w step.included
        (λ rows next v. run_loop-Traced steps rows next v) refl

  run_loop-Trace :
      (steps : List WorkflowStep) (w : W)
      → Trace services params steps
          (run_loop services params steps [] [] w).0.step_runs
          (run_loop services params steps [] [] w).0.ok
          (run_loop services params steps [] [] w).0.error
          (run_loop services params steps [] [] w).1
  run_loop-Trace steps w =
      let (rows, same, trace) = run_loop-Traced steps [] [] w in
      subst
        (λ rs.
          Trace services params steps rs (run_loop services params steps [] [] w).0.ok
            (run_loop services params steps [] [] w).0.error
            (run_loop services params steps [] [] w).1)
        (sym same) trace

  -- A run that is stored has worked through the included steps in their order. Each has one row, or a
  -- failed row, a row of the refresh and a second row, where the refresh is allowed only behind a step
  -- that failed with status 401, 403, 419 or 440 in a run that is no dry run. A run that is ok has come to
  -- the end, with a last row that is ok and outputs that were extracted for every included step. A run
  -- that is not ok has gone on in this way up to one step, and has stopped there behind a last row that is
  -- not ok, or that is ok but whose outputs were not extracted, which its error then says. The row is
  -- inserted in the state in which the steps have ended.
  pub run-Trace :
      (workflow_id : Text) (steps : List WorkflowStep) (w v : W) (row : WorkflowRun)
      → run services params workflow_id steps w ≡ (done row, v)
      → (u : W) × Trace services params steps row.step_runs row.ok row.error u
        × (services.insert_workflow_run row u ≡ (done tt, v))
  unfolding run progress_of yield
  run-Trace workflow_id steps w v row e =
      let (run_id, w1, fresh, e1) = bind-done _ _ w v row e in
      let (progress, w2, looped, e2) = bind-done _ _ w1 v row e1 in
      let (_, w3, inserted, e3) = bind-done _ _ w2 v row e2 in
      let whole : run_loop services params steps [] [] w1 ≡ (progress, w2) =
        ground (arith, looped) in
      let stored : workflow_run run_id workflow_id progress ≡ row = ground (arith, e3) in
      let ends : w3 ≡ v = ground (arith, e3) in
      (
        w2,
        subst (λ r. Trace services params steps r.step_runs r.ok r.error w2) stored
            (subst (λ p. Trace services params steps p.0.step_runs p.0.ok p.0.error p.1) whole
              (run_loop-Trace steps w1)),
        ap (λ r. services.insert_workflow_run r w2) (sym stored)
            ∙ inserted
            ∙ ap (λ x. (done tt, x)) ends,
      )
