-- ===== src/Replay/Run.antt =====
-- `Engine.Run`, `RunVariations` and `adapter` of daemon/internal/replay/replay.go. An adapter's
-- `Name` is the profile that it is registered for.
use deconstruct.Base.{
  ℕ, zero, suc, ◌+◌, ◌-◌, ◌^◌, Text, codes, Assoc, Bool, true, false, not, ◌&&◌, Option, none, some,
  List, [], ◌∷◌, ◌++◌, leb, ltb, ◌==◌, is_empty, if◌then◌else◌,
}
use deconstruct.Base.Decimal.{ℤ, pos, negsuc, decimal}
use deconstruct.Action.{Action, ◌>>=◌, fail, yield, look}
use deconstruct.Redact.{Header}
use deconstruct.Store.{Overrides, ReplayRun, Flow, done, failed}
use deconstruct.Replay.Engine.{
  PreparedRequest, AdapterResult, Params, RunResult, Backend, replay_profile, prepare,
  record_replay_flow,
}

-- `retries + 1` as an int, at least 1
unfoldable pub attempts_of : ℤ → ℕ
attempts_of (pos n) = if n == 2 ^ 63 - 1 then 1 else suc n
attempts_of (negsuc n) = 1

-- the variables of the loop over the attempts
pub record Attempt : Type 0 where
  pub last_err : Option Text
  pub response_status : ℕ
  pub replay_flow_id : Text
  pub attempts_used : ℕ

abbrev pub no_attempt : Attempt
no_attempt = record { last_err = none; response_status = 0; replay_flow_id = []; attempts_used = 0 }

-- one round of the loop ends with `break` or goes on
pub data Round (W : Type 0) : Type 0 where
  break_with : Attempt → W → Round W
  continue_with : Attempt → W → Round W

pub record Variation : Type 0 where
  pub name : Text
  pub overrides : Overrides
  pub profile : Text
  pub profile_options : Assoc Text

pub record VariationResult : Type 0 where
  pub name : Text
  pub result : RunResult

abbrev pub ok_of : Attempt → Bool
ok_of a =
    not (is_empty a.replay_flow_id) && (leb 200 a.response_status && ltb a.response_status 400)

abbrev pub error_of : Attempt → Text
error_of a = elim a.last_err [ none ↦ [] | some e ↦ if is_empty a.replay_flow_id then e else [] ]

-- the row of a run that is no dry run
abbrev pub replay_run : Text → Text → Attempt → ReplayRun
replay_run run_id flow_id a = record {
  id = run_id;
  original_flow_id = flow_id;
  replay_flow_id = a.replay_flow_id;
  ok = ok_of a;
  status = a.response_status;
  attempts = a.attempts_used;
  error = error_of a;
}

abbrev pub dry_replay_run : Text → Text → ReplayRun
dry_replay_run run_id flow_id = record {
  id = run_id;
  original_flow_id = flow_id;
  replay_flow_id = [];
  ok = true;
  status = 0;
  attempts = 0;
  error = [];
}

-- the variables after a round without an answer, with one that was not recorded, and with a recorded one
abbrev pub unanswered : Attempt → Text → Attempt
unanswered a e = record a { last_err = some e; attempts_used = suc a.attempts_used }

abbrev pub unrecorded : Attempt → Text → ℕ → Attempt
unrecorded a e status = record {
  last_err = some e;
  response_status = status;
  replay_flow_id = [];
  attempts_used = suc a.attempts_used;
}

abbrev pub recorded : Attempt → Text → ℕ → Attempt
recorded a flow_id status = record a {
  response_status = status;
  replay_flow_id = flow_id;
  attempts_used = suc a.attempts_used;
}

module _ {W : Type 0} (execute : Action W AdapterResult)
    (record_answer : AdapterResult → Action W Text) where
  -- one round of the loop
  unfoldable pub attempt_once : Attempt → W → Round W
  attempt_once a w0 =
      let (answer, w1) = execute w0 in
      elim answer [
        | failed e ↦ continue_with (unanswered a e) w1
        | done result ↦
            let (flow, w2) = record_answer result w1 in
            elim flow [
              | failed e ↦ continue_with (unrecorded a e result.status) w2
              | done flow_id ↦
                  let next = recorded a flow_id result.status in
                  if ltb result.status 500 then break_with next w2 else continue_with next w2
            ]
      ]

  -- the first argument counts the attempts that are left
  unfoldable pub attempt_loop : ℕ → Attempt → W → Attempt × W
  attempt_loop zero a w = (a, w)
  attempt_loop (suc n) a w = elim (attempt_once a w) [
    | break_with b v ↦ (b, v)
    | continue_with b v ↦ attempt_loop n b v
  ]

module _ {W : Type 0} (back : Backend W) where
  unfoldable pub finish : PreparedRequest → Text → ReplayRun → Action W RunResult
  finish prepared profile run = do
    _ ← back.insert_replay_run run
    yield (record { run = run; prepared_request = prepared; profile = profile })

  -- the attempts with an adapter at work
  unfoldable pub attempts :
      Params → Flow → PreparedRequest → Header → Text → Action W AdapterResult → Action W Attempt
  attempts params flow prepared headers body execute w =
      let (last, v) =
        attempt_loop execute
          (λ answer.
            record_replay_flow back flow prepared headers body answer
              (replay_profile params.profile))
          (attempts_of params.retries) no_attempt w in
      (done last, v)

  -- a run that is no dry run, from the choice of the adapter on
  unfoldable pub send : Params → Flow → PreparedRequest → Header → Text → Text → Action W RunResult
  send params flow prepared headers body run_id =
      elim (back.execute (replay_profile params.profile)) [
        | none ↦ fail (codes "unsupported replay profile: " ++ params.profile)
        | some execute ↦ do
          last ←
              attempts params flow prepared headers body
                (execute prepared headers body params.profile_options)
          finish prepared (replay_profile params.profile) (replay_run run_id flow.id last)
      ]

  -- a run once the request is prepared and has an identifier
  unfoldable pub run_prepared :
      Params → Flow → PreparedRequest → Header → Text → Text → Action W RunResult
  run_prepared params flow prepared headers body run_id =
      if params.dry_run
      then finish prepared (replay_profile params.profile) (dry_replay_run run_id flow.id)
      else send params flow prepared headers body run_id

  unfoldable pub run : Params → Action W RunResult
  run params = if is_empty params.flow_id then fail (codes "flow_id is required") else do
    flow ← look (back.get_flow params.flow_id)
    request ← look (prepare back flow params.overrides)
    run_id ← back.new_id (codes "replay")
    run_prepared params flow request.0 request.1 request.2 run_id

  unfoldable pub variation_name : ℕ → Variation → Text
  variation_name i variation =
      if is_empty variation.name then codes "variation_" ++ decimal (i + 1) else variation.name

  unfoldable pub variation_params : Text → ℤ → Variation → Params
  variation_params flow_id retries variation = record {
    flow_id = flow_id;
    overrides = variation.overrides;
    dry_run = false;
    retries = retries;
    profile = variation.profile;
    profile_options = variation.profile_options;
  }

  -- the loop over the variations, from the position `i`; `results` are those so far
  unfoldable pub variations_loop :
      Text → ℤ → ℕ → List Variation → List VariationResult → Action W (List VariationResult)
  variations_loop flow_id retries i [] results = yield results
  variations_loop flow_id retries i (variation ∷ variations) results = do
    result ← run (variation_params flow_id retries variation)
    variations_loop flow_id retries (i + 1) variations
        (results ++ (record { name = variation_name i variation; result = result } ∷ []))

  unfoldable pub run_variations : Text → List Variation → ℤ → Action W (List VariationResult)
  run_variations flow_id [] retries =
      if is_empty flow_id
      then fail (codes "flow_id is required")
      else fail (codes "at least one variation is required")
  run_variations flow_id (v ∷ vs) retries =
      if is_empty flow_id
      then fail (codes "flow_id is required")
      else variations_loop flow_id retries 0 (v ∷ vs) []
