-- ===== src/Warming.antt =====
-- daemon/internal/auth/warming.go: workflows that run at intervals to keep a session alive. Times are
-- nanoseconds; a difference below zero counts as zero, which is below every interval.
pub mod Intervals
mod Examples
use deconstruct.Base.{
  ℕ, suc, ◌+◌, ◌-◌, ◌*◌, ◌%◌, ◌^◌, Text, codes, Assoc, Bool, true, false, not, ◌&&◌, ◌||◌, Option,
  none, some, List, [], ◌∷◌, ◌++◌, leb, ltb, ◌==◌, is_empty, lookup, insert, if◌then◌else◌,
}
use deconstruct.Base.Decimal.{ℤ, pos, negsuc}
use deconstruct.Store.{Result, done, failed, Workflow, WorkflowRun}
use deconstruct.Workflow.Asserts.{Services}
use deconstruct.Workflow.Run.{RunParams, run}

pub record CookieWarmingSchedule : Type 0 where
  pub enabled : Bool
  pub workflow_id : Text
  pub interval_seconds : ℤ

pub record AuthProfile : Type 0 where
  pub id : Text
  pub secret_bundle_id : Text
  pub interactive_login_required : Bool
  pub cookie_warming : Option CookieWarmingSchedule

pub record WarmingResult : Type 0 where
  pub profile_id : Text
  pub workflow_id : Text
  pub ran : Bool
  pub run : Option WorkflowRun
  pub error : Text

-- `time.Duration(seconds) * time.Second` as the 64 bits of its two's complement
unfoldable pub duration_bits : ℤ → ℕ
duration_bits (pos n) = (n * 10 ^ 9) % 2 ^ 64
duration_bits (negsuc n) = (2 ^ 64 - (suc n * 10 ^ 9) % 2 ^ 64) % 2 ^ 64

-- the interval, 15 minutes where the bits are no positive number
unfoldable pub interval_of : ℤ → ℕ
interval_of seconds =
    let bits = duration_bits seconds in
    if (bits == 0) || leb (2 ^ 63) bits then 15 * 60 * 10 ^ 9 else bits

unfoldable pub waited : Assoc ℕ → Text → ℕ → ℕ → Bool
waited last_runs id interval now = elim (lookup id last_runs) [
  | none ↦ true
  | some last ↦ leb interval (now - last)
]

unfoldable pub profile_due : Assoc ℕ → AuthProfile → ℕ → Bool
profile_due last_runs profile now = elim profile.cookie_warming [
  | none ↦ false
  | some warming ↦
      (warming.enabled && not (is_empty warming.workflow_id))
      && waited last_runs profile.id (interval_of warming.interval_seconds) now
]

unfoldable pub due_profiles : Assoc ℕ → List AuthProfile → ℕ → List AuthProfile
due_profiles last_runs [] now = []
due_profiles last_runs (profile ∷ profiles) now =
    let rest = due_profiles last_runs profiles now in
    if profile_due last_runs profile now then profile ∷ rest else rest

unfoldable pub mark_ran : Text → ℕ → Assoc ℕ → Result (Assoc ℕ)
mark_ran profile_id at last_runs =
    if is_empty profile_id
    then failed (codes "profile id is required")
    else done (insert profile_id at last_runs)

-- The surroundings: the vault, where it is configured, and the workflows of the store.
pub record Sources (W : Type 0) : Type 1 where
  pub services : Services W
  pub open_bundle : Option (Text → W → Result (Assoc Text))
  pub get_workflow : Text → W → Result Workflow

unfoldable pub refused : AuthProfile → Text → Text → WarmingResult
refused profile workflow_id error = record {
  profile_id = profile.id;
  workflow_id = workflow_id;
  ran = false;
  run = none;
  error = error;
}

unfoldable pub warmed : AuthProfile → Text → WorkflowRun → WarmingResult
warmed profile workflow_id row = record {
  profile_id = profile.id;
  workflow_id = workflow_id;
  ran = true;
  run = some row;
  error = if row.ok then [] else row.error;
}

unfoldable pub warming_params : Assoc Text → RunParams
warming_params material = record {
  inputs = [];
  dry_run = false;
  auth_refresh_flow_id = [];
  replay_profile = [];
  profile_options = [];
  auth_material = material;
}

-- what stands in the way of a run, or the identifier of the workflow and the secrets
unfoldable pub bundle_error : AuthProfile → Text
bundle_error profile =
    if profile.interactive_login_required
    then codes "interactive login required"
    else codes "auth profile has no secret bundle"

module _ {W : Type 0} (sources : Sources W) where
  unfoldable pub open_secrets : AuthProfile → W → Result (Assoc Text)
  open_secrets profile w =
      if is_empty profile.secret_bundle_id
      then failed (bundle_error profile)
      else elim sources.open_bundle [
        | none ↦ failed (codes "auth vault is not configured")
        | some open_bundle ↦ open_bundle profile.secret_bundle_id w
      ]

  unfoldable pub run_workflow :
      AuthProfile → Text → ℕ → Assoc Text → Workflow → Assoc ℕ → W → WarmingResult × Assoc ℕ × W
  run_workflow profile workflow_id now material workflow last_runs w =
      let (ran, w1) = run sources.services (warming_params material) workflow.id workflow.steps w in
      elim ran [
        | failed e ↦ (refused profile workflow_id e, last_runs, w1)
        | done row ↦ (warmed profile workflow_id row, insert profile.id now last_runs, w1)
      ]

  unfoldable pub run_configured : AuthProfile → Text → ℕ → Assoc ℕ → W → WarmingResult × Assoc ℕ × W
  run_configured profile workflow_id now last_runs w = elim (open_secrets profile w) [
    | failed e ↦ (refused profile workflow_id e, last_runs, w)
    | done material ↦ elim (sources.get_workflow workflow_id w) [
      | failed e ↦ (refused profile workflow_id e, last_runs, w)
      | done workflow ↦ run_workflow profile workflow_id now material workflow last_runs w
    ]
  ]

  unfoldable pub run_profile : AuthProfile → ℕ → Assoc ℕ → W → WarmingResult × Assoc ℕ × W
  run_profile profile now last_runs w = elim profile.cookie_warming [
    | none ↦ (refused profile [] (codes "cookie warming is disabled"), last_runs, w)
    | some warming ↦
        if not warming.enabled
        then (refused profile [] (codes "cookie warming is disabled"), last_runs, w)
        else if is_empty warming.workflow_id
        then (refused profile [] (codes "cookie warming workflow is not configured"), last_runs, w)
        else run_configured profile warming.workflow_id now last_runs w
  ]

  -- the loop of `RunDue` over the profiles that are due
  unfoldable pub run_all : List AuthProfile → ℕ → Assoc ℕ → W → List WarmingResult × Assoc ℕ × W
  run_all [] now last_runs w = ([], last_runs, w)
  run_all (profile ∷ profiles) now last_runs w =
      let (result, next, w1) = run_profile profile now last_runs w in
      let (results, last, w2) = run_all profiles now next w1 in (result ∷ results, last, w2)

  unfoldable pub run_due : List AuthProfile → ℕ → Assoc ℕ → W → List WarmingResult × Assoc ℕ × W
  run_due profiles now last_runs w = run_all (due_profiles last_runs profiles now) now last_runs w
