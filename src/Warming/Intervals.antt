-- ===== src/Warming/Intervals.antt =====
-- When a profile is due again.
use deconstruct.Base.{
  ℕ, ◌-◌, ◌<◌, ◌≤◌, Text, Assoc, true, false, some, lookup, insert, lookup-insert, text_eq_refl,
  is_empty, Bool-cases, Option-cases, inl, inr, ◌≡◌, ◌∙◌, arith, if◌then◌else◌,
}
use deconstruct.Base.Decimal.{ℤ}
use deconstruct.Action.{Result-cases}
use deconstruct.Store.{Workflow}
use deconstruct.Workflow.Run.{run}
use deconstruct.Warming.{
  AuthProfile, CookieWarmingSchedule, WarmingResult, Sources, interval_of, waited, profile_due,
  refused, warmed, warming_params, open_secrets, run_workflow, run_configured, run_profile,
}

pub interval_of-positive : (seconds : ℤ) → 0 < interval_of seconds
unfolding interval_of
interval_of-positive seconds = ground arith

module _ {W : Type 0} (sources : Sources W) (profile : AuthProfile) (now : ℕ) where
  -- a run is noted at its time, and nothing else changes the notes
  abbrev Noted : Assoc ℕ → WarmingResult × Assoc ℕ × W → Type 0
  Noted last_runs (result, next, w) =
      next ≡ (if result.ran then insert profile.id now last_runs else last_runs)

  run_workflow-Noted :
      (workflow_id : Text) (material : Assoc Text) (workflow : Workflow) (last_runs : Assoc ℕ)
      (w : W)
      → Noted last_runs (run_workflow sources profile workflow_id now material workflow last_runs w)
  unfolding run_workflow refused warmed
  run_workflow-Noted workflow_id material workflow last_runs w =
      elim (Result-cases
        (run sources.services (warming_params material) workflow.id workflow.steps w).0) [
          | inr (e, h) ↦ rw (h, run_workflow, Noted)
          | inl (row, h) ↦ rw (h, run_workflow, Noted)
        ]

  run_configured-Noted :
      (workflow_id : Text) (last_runs : Assoc ℕ) (w : W)
      → Noted last_runs (run_configured sources profile workflow_id now last_runs w)
  unfolding run_configured refused
  run_configured-Noted workflow_id last_runs w =
      elim (Result-cases (open_secrets sources profile w)) [
        | inr (e, h) ↦ rw (h, run_configured, Noted)
        | inl (material, h) ↦ elim (Result-cases (sources.get_workflow workflow_id w)) [
          | inr (e, h2) ↦ rw (h, h2, run_configured, Noted)
          | inl (workflow, h2) ↦
              rw (h, h2, run_configured, Noted)
                (run_workflow-Noted workflow_id material workflow last_runs w)
        ]
      ]

  run_profile-Noted :
      (last_runs : Assoc ℕ) (w : W) → Noted last_runs (run_profile sources profile now last_runs w)
  unfolding run_profile refused
  run_profile-Noted last_runs w = elim (Option-cases profile.cookie_warming) [
    | inl h ↦ rw (h, run_profile, Noted)
    | inr (warming, h) ↦ elim (Bool-cases warming.enabled) [
      | inr off ↦ rw (h, off, run_profile, Noted)
      | inl on ↦ elim (Bool-cases (is_empty warming.workflow_id)) [
        | inl e ↦ rw (h, on, e, run_profile, Noted)
        | inr f ↦
            rw (h, on, f, run_profile, Noted) (run_configured-Noted warming.workflow_id last_runs w)
      ]
    ]
  ]

  due-insert :
      (last_runs : Assoc ℕ) (t : ℕ) (warming : CookieWarmingSchedule)
      → profile.cookie_warming ≡ some warming
      → profile_due (insert profile.id now last_runs) profile t ≡ true
      → interval_of warming.interval_seconds ≤ t - now
  unfolding profile_due waited
  due-insert last_runs t warming h due =
      let found : lookup profile.id (insert profile.id now last_runs) ≡ some now =
        lookup-insert profile.id profile.id now last_runs ∙ rw (text_eq_refl profile.id) in
      let due2 = rw (h, found, profile_due, waited) at due in ground (arith, due2)

  -- what the notes say after a run: as before if nothing has run, and else due only after an interval
  abbrev pub SpacedOut : Assoc ℕ → WarmingResult → Assoc ℕ → Type 0
  SpacedOut last_runs result next =
      (result.ran ≡ false → next ≡ last_runs)
      × ((t : ℕ) (warming : CookieWarmingSchedule)
          → result.ran ≡ true
          → profile.cookie_warming ≡ some warming
          → profile_due next profile t ≡ true
          → (interval_of warming.interval_seconds ≤ t - now) × (now < t))

  Noted-SpacedOut :
      (last_runs next : Assoc ℕ) (result : WarmingResult)
      → next ≡ (if result.ran then insert profile.id now last_runs else last_runs)
      → SpacedOut last_runs result next
  Noted-SpacedOut last_runs next result noted = (
    (λ f. ground (arith, noted, f)),
    λ t warming ran h d.
        let same : next ≡ insert profile.id now last_runs = ground (arith, noted, ran) in
        let over = due-insert last_runs t warming h (rw same at d) in
        (over, omega (arith, over, interval_of-positive warming.interval_seconds)),
  )

  -- A profile whose workflow has run is due again only at a later time, when its interval is over;
  -- where no workflow has run, the notes on all profiles are as before.
  pub run_profile-SpacedOut :
      (last_runs : Assoc ℕ) (w : W)
      → SpacedOut last_runs
          (run_profile sources profile now last_runs w).0
          (run_profile sources profile now last_runs w).1
  run_profile-SpacedOut last_runs w =
      Noted-SpacedOut last_runs (run_profile sources profile now last_runs w).1
        (run_profile sources profile now last_runs w).0 (run_profile-Noted last_runs w)
