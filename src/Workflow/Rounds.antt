-- ===== src/Workflow/Rounds.antt =====
-- Which rows the runner writes for one step of a workflow.
use deconstruct.Base.{
  Text, codes, Assoc, Bool, true, false, none, some, List, [], ◌∷◌, ◌++◌, ◌≡◌, ◌≢◌, refl, ap, ◌⊎◌,
  inl, inr, Bool-cases, Option-cases, arith, insert, if◌then◌else◌,
}
use deconstruct.Action.{Result-cases}
use deconstruct.Store.{Result, done, failed, WorkflowStep, WorkflowStepRun}
use deconstruct.Workflow.Asserts.{Services, extract_step_outputs}
use deconstruct.Replay.Engine.{RunResult}
use deconstruct.Replay.Run
use deconstruct.Workflow.Templates.{step_overrides}
use deconstruct.Workflow.AuthMaterial.{apply_auth_material}
use deconstruct.Workflow.Run.{
  step_params, refresh_params, RunParams, StepEnd, stop_with, go_on_with, run_step, may_refresh,
  auth_failure_status, auth_refresh, refresh_step_run, refresh_result, try_auth_refresh, settle,
  retry, resume, recover, one_step, answered_step_run,
}

-- rows that belong to a step, and to the refresh of the authentication
abbrev pub RowOf : WorkflowStep → WorkflowStepRun → Type 0
RowOf step row = (row.step_id ≡ step.id) × (row.flow_id ≡ step.flow_id)

abbrev pub RefreshRow : RunParams → WorkflowStepRun → Type 0
RefreshRow params row = (row.step_id ≡ auth_refresh) × (row.flow_id ≡ params.auth_refresh_flow_id)

-- The authentication is refreshed behind a step that failed with one of the four statuses, if the run
-- is no dry run and has a flow for it.
abbrev pub Refreshable : RunParams → WorkflowStepRun → Type 0
Refreshable params failure =
    (params.dry_run ≡ false)
    × (params.auth_refresh_flow_id ≢ [])
    × (auth_failure_status failure.status ≡ true)
    × (failure.ok ≡ false)

-- The rows of one step and the last of them: its run, or its failure with a refresh, or both with a
-- second run.
pub data Rows (params : RunParams) (step : WorkflowStep)
    : List WorkflowStepRun → WorkflowStepRun → Type 0 where
  once : (row : WorkflowStepRun) → RowOf step row → Rows params step (row ∷ []) row
  stranded :
      (failure refresh : WorkflowStepRun)
      → RowOf step failure
      → RefreshRow params refresh
      → Refreshable params failure
      → refresh.ok ≡ false
      → Rows params step (failure ∷ refresh ∷ []) refresh
  twice :
      (failure refresh row : WorkflowStepRun)
      → RowOf step failure
      → RefreshRow params refresh
      → Refreshable params failure
      → refresh.ok ≡ true
      → RowOf step row
      → Rows params step (failure ∷ refresh ∷ row ∷ []) row

abbrev pub extraction_error : WorkflowStep → Text → Text
extraction_error step e = codes "step " ++ (step.id ++ (codes " extraction failed: " ++ e))

-- A run goes on behind a last row that is ok and whose outputs are extracted, in some state.
abbrev pub GoesOn : {W : Type 0} → Services W → WorkflowStep → WorkflowStepRun → Type 0
GoesOn {W} services step last =
    (last.ok ≡ true)
    × (w : W) × (outputs : Assoc Text) × (extract_step_outputs services step last w ≡ done outputs)

-- A run stops behind a last row that is not ok, or is ok and has outputs that are not extracted in the
-- state in which the run stops.
abbrev pub Stops : {W : Type 0} → Services W → WorkflowStep → WorkflowStepRun → Text → W → Type 0
Stops services step last error w =
    (last.ok ≡ false)
    ⊎ ((last.ok ≡ true)
        × (e : Text) × (extract_step_outputs services step last w ≡ failed e)
        × (error ≡ extraction_error step e))

module _ {W : Type 0} (services : Services W) (params : RunParams) where
  -- what the end of a round is to say
  abbrev pub Ends : WorkflowStep → StepEnd W → Type 0
  Ends step (stop_with rows error w) =
      (last : WorkflowStepRun) × Rows params step rows last × Stops services step last error w
  Ends step (go_on_with rows outputs w) =
      (last : WorkflowStepRun) × Rows params step rows last × GoesOn services step last

  run_step-RowOf :
      (step : WorkflowStep) (outputs : Assoc (Assoc Text)) (w : W)
      → RowOf step (run_step services params step outputs w).0
  unfolding run_step answered_step_run
  run_step-RowOf step outputs w =
      elim (Result-cases (step_overrides step.overrides params.inputs outputs)) [
        | inr (e, h) ↦ rw (h, run_step) (refl, refl)
        | inl (overrides, h) ↦
            elim (Result-cases
              (Run.run services.replay
                (step_params params step
                  (apply_auth_material services.sort overrides params.auth_material))
                w).0) [
                  | inr (e, h2) ↦ rw (h, h2, run_step) (refl, refl)
                  | inl (result, h2) ↦ rw (h, h2, run_step) (refl, refl)
                ]
      ]

  -- a run of a step that came to no answer is not ok
  run_step-unanswered :
      (step : WorkflowStep) (outputs : Assoc (Assoc Text)) (w : W) (message : Text)
      → (run_step services params step outputs w).1 ≡ some message
      → (run_step services params step outputs w).0.ok ≡ false
  unfolding run_step
  run_step-unanswered step outputs w message g =
      elim (Result-cases (step_overrides step.overrides params.inputs outputs)) [
        | inr (e, h) ↦ rw (h, run_step) refl
        | inl (overrides, h) ↦
            elim (Result-cases
              (Run.run services.replay
                (step_params params step
                  (apply_auth_material services.sort overrides params.auth_material))
                w).0) [
                  | inr (e, h2) ↦ rw (h, h2, run_step) refl
                  | inl (result, h2) ↦ absurd (ground (arith, rw (h, h2, run_step) at g))
                ]
      ]

  extracted-Ends :
      (step : WorkflowStep) (rows : List WorkflowStepRun) (last : WorkflowStepRun)
      (outputs : Assoc (Assoc Text)) (w : W) (r : Result (Assoc Text))
      → extract_step_outputs services step last w ≡ r
      → last.ok ≡ true
      → Rows params step rows last
      → Ends step (elim r [
        | failed e ↦ stop_with rows (extraction_error step e) w
        | done [] ↦ go_on_with rows outputs w
        | done (entry ∷ extracted) ↦ go_on_with rows (insert step.id (entry ∷ extracted) outputs) w
      ])
  extracted-Ends step rows last outputs w (failed e) x t h = (last, h, inr (t, e, x, refl))
  extracted-Ends step rows last outputs w (done []) x t h = (last, h, (t, w, [], x))
  extracted-Ends step rows last outputs w (done (entry ∷ extracted)) x t h =
      (last, h, (t, w, entry ∷ extracted, x))

  settle-Ends :
      (step : WorkflowStep) (before : List WorkflowStepRun) (row : WorkflowStepRun)
      (outputs : Assoc (Assoc Text)) (w : W)
      → Rows params step (before ++ (row ∷ [])) row
      → Ends step (settle services params step before row outputs w)
  unfolding settle
  settle-Ends step before row outputs w h = ends row.ok refl
    where
      ends :
          (ok : Bool)
          → row.ok ≡ ok
          → Ends step (
              if ok
              then elim (extract_step_outputs services step row w) [
                | failed e ↦
                    stop_with
                      (before ++ (row ∷ []))
                      (codes "step " ++ (step.id ++ (codes " extraction failed: " ++ e)))
                      w
                | done [] ↦ go_on_with (before ++ (row ∷ [])) outputs w
                | done (entry ∷ extracted) ↦
                    go_on_with (before ++ (row ∷ [])) (insert step.id (entry ∷ extracted) outputs) w
              ]
              else stop_with
                  (before ++ (row ∷ []))
                  (codes "step " ++ (step.id ++ (codes " assertion failed: " ++ row.error)))
                  w)
      ends true t =
          extracted-Ends step (before ++ (row ∷ [])) row outputs w
            (extract_step_outputs services step row w) refl t h
      ends false f = (row, h, inl f)

  retry-Ends :
      (step : WorkflowStep) (before : List WorkflowStepRun) (outputs : Assoc (Assoc Text)) (w : W)
      → ((row : WorkflowStepRun) → RowOf step row → Rows params step (before ++ (row ∷ [])) row)
      → Ends step (retry services params step before outputs w)
  unfolding retry
  retry-Ends step before outputs w h =
      let ran = run_step services params step outputs w in
      let rows = h ran.0 (run_step-RowOf step outputs w) in
      elim (Option-cases ran.1) [
        | inl e ↦ rw (e, retry, Ends) (settle-Ends step before ran.0 outputs ran.2 rows)
        | inr (message, e) ↦
            let f = run_step-unanswered step outputs w message e in
            rw (e, retry, Ends) (ran.0, rows, inl f)
      ]

  may_refresh-Refreshable :
      (failure : WorkflowStepRun)
      → failure.ok ≡ false
      → may_refresh services params failure ≡ true
      → Refreshable params failure
  unfolding may_refresh
  may_refresh-Refreshable failure f m = ground arith

  refresh_result-RefreshRow :
      (r : Result RunResult) → RefreshRow params (refresh_result services params r)
  unfolding refresh_result refresh_step_run
  refresh_result-RefreshRow (failed e) = (refl, refl)
  refresh_result-RefreshRow (done r) = (refl, refl)

  resume-Ends :
      (step : WorkflowStep) (failure refresh : WorkflowStepRun) (outputs : Assoc (Assoc Text))
      (w : W)
      → RowOf step failure
      → RefreshRow params refresh
      → Refreshable params failure
      → Ends step (resume services params step failure refresh outputs w)
  unfolding resume
  resume-Ends step failure refresh outputs w row owned allowed = ends refresh.ok refl
    where
      ends :
          (ok : Bool)
          → refresh.ok ≡ ok
          → Ends step (
              if ok
              then retry services params step (failure ∷ refresh ∷ []) outputs w
              else stop_with
                  (failure ∷ refresh ∷ [])
                  (codes "auth refresh failed: " ++ refresh.error)
                  w)
      ends true e =
          retry-Ends step (failure ∷ refresh ∷ []) outputs w
            (λ again own. twice failure refresh again row owned allowed e own)
      ends false e = (refresh, stranded failure refresh row owned allowed e, inl e)

  try_auth_refresh-refused :
      (failure : WorkflowStepRun) (w : W)
      → may_refresh services params failure ≡ false
      → try_auth_refresh services params failure w ≡ (none, w)
  unfolding try_auth_refresh
  try_auth_refresh-refused failure w m = ground (arith, m)

  try_auth_refresh-tried :
      (failure : WorkflowStepRun) (w : W)
      → may_refresh services params failure ≡ true
      → (r : Result RunResult) × (v : W) × (try_auth_refresh services params failure w
          ≡ (some (refresh_result services params r), v))
  unfolding try_auth_refresh
  try_auth_refresh-tried failure w m =
      let ran = Run.run services.replay (refresh_params services params) w in
      (ran.0, ran.1, ground (arith, m))

  recover-Ends :
      (step : WorkflowStep) (failure : WorkflowStepRun) (outputs : Assoc (Assoc Text)) (w : W)
      → RowOf step failure
      → failure.ok ≡ false
      → Ends step (recover services params step failure outputs w)
  unfolding recover
  recover-Ends step failure outputs w row f =
      elim (Bool-cases (may_refresh services params failure)) [
        | inr m ↦
            let e = try_auth_refresh-refused failure w m in
            rw (ap (λ p. p.0) e, ap (λ p. p.1) e, recover, Ends)
              (settle-Ends step [] failure outputs w (once failure row))
        | inl m ↦
            let (r, v, e) = try_auth_refresh-tried failure w m in
            rw (ap (λ p. p.0) e, ap (λ p. p.1) e, recover, Ends)
              (resume-Ends step failure (refresh_result services params r) outputs v row
                (refresh_result-RefreshRow r) (may_refresh-Refreshable failure f m))
      ]

  pub one_step-Ends :
      (step : WorkflowStep) (outputs : Assoc (Assoc Text)) (w : W)
      → Ends step (one_step services params step outputs w)
  unfolding one_step
  one_step-Ends step outputs w =
      let ran = run_step services params step outputs w in
      let row = run_step-RowOf step outputs w in
      elim (Option-cases ran.1) [
        | inr (message, e) ↦
            let f = run_step-unanswered step outputs w message e in
            rw (e, one_step, Ends) (ran.0, once ran.0 row, inl f)
        | inl e ↦ elim (Bool-cases ran.0.ok) [
          | inl t ↦
              rw (e, t, one_step, Ends) (settle-Ends step [] ran.0 outputs ran.2 (once ran.0 row))
          | inr f ↦ rw (e, f, one_step, Ends) (recover-Ends step ran.0 outputs ran.2 row f)
        ]
      ]
