-- ===== src/Replay/Reports.antt =====
-- What a run of the engine says of itself, in terms of the calls of its adapter.
use deconstruct.Base.{
  ◌≤◌, ◌<◌, Text, Assoc, codes, true, false, Option, none, some, List, [], ◌∷◌, ◌≡◌, ◌≢◌, ◌↔◌,
  length,
}
use deconstruct.Action.{Action}
use deconstruct.Redact.{Header}
use deconstruct.Store.{done, ReplayRun, Flow}
use deconstruct.Replay.Engine.{
  Backend, AdapterResult, Params, PreparedRequest, prepare, record_replay_flow, replay_profile,
}
use deconstruct.Replay.Run.{attempts_of}
use deconstruct.Replay.Attempts.{Outcome, Tries, latest_status, latest_flow, latest_error}

-- a run holds an error only where the last answer was not recorded
abbrev pub told_error : Text → Option Text → Text
told_error [] none = []
told_error [] (some e) = e
told_error (c ∷ flow) error = []

module _ {W : Type 0} (back : Backend W) where
  -- The row `q` tells what came of the calls `os`.
  abbrev pub Told : ReplayRun → List Outcome → Type 0
  Told q os =
      (q.attempts ≡ length os)
      × (q.status ≡ latest_status 0 os)
      × (q.replay_flow_id ≡ latest_flow [] os)
      × (q.error ≡ told_error (latest_flow [] os) (latest_error none os))

  -- the calls of a run that is no dry run, from one state to another
  abbrev pub Live :
      Params → Flow → PreparedRequest → Header → Text → ReplayRun → List Outcome → W → W → Type 0
  Live params flow prepared headers body q os w u =
      (f : PreparedRequest → Header → Text → Assoc Text → Action W AdapterResult) × (back.execute
          (replay_profile params.profile)
        ≡ some f)
      × Tries (f prepared headers body params.profile_options)
          (λ answer.
            record_replay_flow back flow prepared headers body answer
              (replay_profile params.profile))
          w os u
      × (1 ≤ q.attempts)
      × (q.attempts ≤ attempts_of params.retries)
      × (q.attempts < attempts_of params.retries → q.status < 500)
      × ((q.ok ≡ true) ↔ ((q.replay_flow_id ≢ []) × (200 ≤ q.status) × (q.status < 400)))

  -- what a run does once the request is prepared and has an identifier
  abbrev pub Sends : Params → Flow → PreparedRequest → Header → Text → ReplayRun → W → W → Type 0
  Sends params flow prepared headers body q w v =
      (os : List Outcome) × (u : W) × Told q os
      × (back.insert_replay_run q u ≡ (done tt, v))
      × (params.dry_run ≡ true → (os ≡ []) × (u ≡ w) × (q.ok ≡ true))
      × (params.dry_run ≡ false → Live params flow prepared headers body q os w u)

  -- what `Run` does between two states
  abbrev pub Reports : Params → ReplayRun → W → W → Type 0
  Reports params q w v =
      (flow : Flow) × (request : PreparedRequest × Header × Text) × (run_id : Text) × (w1 : W)
      × (back.get_flow params.flow_id w ≡ done flow)
      × (prepare back flow params.overrides w ≡ done request)
      × (back.new_id (codes "replay") w ≡ (done run_id, w1))
      × (q.id ≡ run_id)
      × (q.original_flow_id ≡ flow.id)
      × Sends params flow request.0 request.1 request.2 q w1 v

  -- the row that a run holds, and what it has done
  abbrev pub Done :
      Params → Flow → PreparedRequest → Header → Text → Text → ReplayRun → W → W → Type 0
  Done params flow prepared headers body run_id q w v =
      (q.id ≡ run_id)
      × (q.original_flow_id ≡ flow.id)
      × Sends params flow prepared headers body q w v
