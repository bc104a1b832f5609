-- ===== src/Replay/Sends.antt =====
-- `Engine.Run` as a whole: what a run that succeeded has done and says.
use mathlib.Core.Path.{subst}
use deconstruct.Base.{
  ◌≤◌, ◌<◌, Text, Assoc, codes, true, false, Option, none, some, [], ◌∷◌, ◌≡◌, ◌≢◌, refl, sym, ap,
  ◌∙◌, inl, inr, ◌↔◌, Bool-cases, Option-cases, arith, is_empty, length, List, if◌then◌else◌,
}
use deconstruct.Action.{Action, look, yield, fail, bind-done}
use deconstruct.Redact.{Header}
use deconstruct.Store.{done, ReplayRun, Flow}
use deconstruct.Replay.Engine.{
  Backend, AdapterResult, Params, RunResult, PreparedRequest, prepare, record_replay_flow,
  replay_profile,
}
use deconstruct.Base.Decimal.{ℤ, pos, negsuc}
use deconstruct.Replay.Run.{
  send, attempts, run_prepared, Attempt, no_attempt, attempt_loop, attempts_of, run, finish, ok_of,
  error_of, replay_run, dry_replay_run,
}
use deconstruct.Replay.Reports.{told_error, Told, Live, Done, Reports}
use deconstruct.Replay.Attempts.{Outcome, Tells, latest_flow, attempt_loop-Tries}

module _ {W : Type 0} (back : Backend W) where
  finish-done :
      (prepared : PreparedRequest) (profile : Text) (q : ReplayRun) (r : RunResult) (w v : W)
      → finish back prepared profile q w ≡ (done r, v)
      → (r.run ≡ q) × (back.insert_replay_run q w ≡ (done tt, v))
  unfolding finish yield
  finish-done prepared profile q r w v e =
      let (_, u, stored, e2) = bind-done _ _ w v r e in
      let ends : u ≡ v = ground (arith, e2) in
      (ground (arith, e2), stored ∙ ap (λ x. (done tt, x)) ends)

  attempts_of-positive : (n : ℤ) → 1 ≤ attempts_of n
  unfolding attempts_of
  attempts_of-positive (pos n) = ground arith
  attempts_of-positive (negsuc n) = omega arith

  ok_of_iff :
      (a : Attempt)
      → (ok_of a ≡ true)
        ↔ ((a.replay_flow_id ≢ []) × (200 ≤ a.response_status) × (a.response_status < 400))
  ok_of_iff a = ground arith

  error_of_lem : (a : Attempt) → error_of a ≡ told_error a.replay_flow_id a.last_err
  error_of_lem a = told a.replay_flow_id a.last_err
    where
      told :
          (t : Text) (o : Option Text)
          → (elim o [ none ↦ [] | some e ↦ if is_empty t then e else [] ]) ≡ told_error t o
      told [] none = refl
      told [] (some e) = refl
      told (c ∷ t) none = refl
      told (c ∷ t) (some e) = refl

  replay_run-Told :
      (run_id flow_id : Text) (os : List Outcome) (last : Attempt)
      → Tells no_attempt os last
      → Told back (replay_run run_id flow_id last) os
  replay_run-Told run_id flow_id os last (n, s, f, l) = (
    omega (arith, n),
    s,
    f,
    error_of_lem last
        ∙ ap (λ t. told_error t last.last_err) f
        ∙ ap (told_error (latest_flow [] os)) l,
  )

  send-some :
      (params : Params) (flow : Flow) (prepared : PreparedRequest) (headers : Header)
      (body run_id : Text) (r : RunResult) (w v : W)
      → send back params flow prepared headers body run_id w ≡ (done r, v)
      → (f : PreparedRequest → Header → Text → Assoc Text → Action W AdapterResult)
        × (last : Attempt) × (u : W) × (back.execute (replay_profile params.profile) ≡ some f)
        × (attempt_loop
              (f prepared headers body params.profile_options)
              (λ answer.
                record_replay_flow back flow prepared headers body answer
                  (replay_profile params.profile))
              (attempts_of params.retries)
              no_attempt
              w
            ≡ (last, u))
        × (finish back prepared (replay_profile params.profile) (replay_run run_id flow.id last) u
            ≡ (done r, v))
  unfolding send fail attempts
  send-some params flow prepared headers body run_id r w v e =
      elim (Option-cases (back.execute (replay_profile params.profile))) [
        | inl h ↦ absurd (ground (arith, h, e))
        | inr (f, h) ↦
            let (last, u, looped, finished) = bind-done _ _ w v r (rw (h, send) at e) in
            (f, last, u, h, ground (arith, looped), finished)
      ]

  send-Done :
      (params : Params) (flow : Flow) (prepared : PreparedRequest) (headers : Header)
      (body run_id : Text) (r : RunResult) (w v : W)
      → params.dry_run ≡ false
      → send back params flow prepared headers body run_id w ≡ (done r, v)
      → Done back params flow prepared headers body run_id r.run w v
  send-Done params flow prepared headers body run_id r w v live e =
      let (f, last, u, h, looped, finished) =
        send-some params flow prepared headers body run_id r w v e in
      let (same, stored) = finish-done _ _ _ r u v finished in
      let (os, tries, tells, most, least, low) =
        attempt_loop-Tries _ _ (attempts_of params.retries) no_attempt last w u looped in
      let some_attempt = least (attempts_of-positive params.retries) in
      let q : ReplayRun = replay_run run_id flow.id last in
      let used : last.attempts_used ≡ length os = omega (arith, tells.0) in
      let calls : Live back params flow prepared headers body q os w u = (
        f,
        h,
        tries,
        omega (arith, used, some_attempt),
        omega (arith, used, most),
        (λ l. low some_attempt (omega (arith, used, l))),
        ok_of_iff last,
      ) in
      subst (λ x. Done back params flow prepared headers body run_id x w v) (sym same)
        (
          refl,
          refl,
          (
            os,
            u,
            replay_run-Told run_id flow.id os last tells,
            stored,
            (λ dry. absurd (ground (arith, live, dry))),
            (λ _. calls),
          ),
        )

  dry-Done :
      (params : Params) (flow : Flow) (prepared : PreparedRequest) (headers : Header)
      (body run_id : Text) (r : RunResult) (w v : W)
      → params.dry_run ≡ true
      → finish back prepared (replay_profile params.profile) (dry_replay_run run_id flow.id) w
        ≡ (done r, v)
      → Done back params flow prepared headers body run_id r.run w v
  dry-Done params flow prepared headers body run_id r w v dry e =
      let (same, stored) = finish-done prepared _ _ r w v e in
      subst (λ x. Done back params flow prepared headers body run_id x w v) (sym same)
        (
          refl,
          refl,
          (
            [],
            w,
            (refl, refl, refl, refl),
            stored,
            (λ _. (refl, refl, refl)),
            (λ live. absurd (ground (arith, live, dry))),
          ),
        )

  run_prepared-Done :
      (params : Params) (flow : Flow) (prepared : PreparedRequest) (headers : Header)
      (body run_id : Text) (r : RunResult) (w v : W)
      → run_prepared back params flow prepared headers body run_id w ≡ (done r, v)
      → Done back params flow prepared headers body run_id r.run w v
  unfolding run_prepared send attempts
  run_prepared-Done params flow prepared headers body run_id r w v e =
      elim (Bool-cases params.dry_run) [
        | inl t ↦
            dry-Done params flow prepared headers body run_id r w v t (rw (t, run_prepared) at e)
        | inr f ↦
            send-Done params flow prepared headers body run_id r w v f (rw (f, run_prepared) at e)
      ]

  -- A run that succeeds has read the flow and prepared the request in the state in which it began, and
  -- has then done nothing but take an identifier, call the adapter of its profile and record the answers,
  -- and insert the row of the run, in this order. The row counts the calls, and holds the status of the
  -- last answer (0 if none came), the flow that the last answer was recorded as (none if that failed), and
  -- the last error if there is no such flow. A dry run makes no call and is ok. Any other run makes at least
  -- one call and no more than allowed, gives up early only with a status below 500, and is ok exactly if
  -- its row holds a flow and a status from 200 to 399.
  pub run-Reports :
      (params : Params) (r : RunResult) (w v : W)
      → run back params w ≡ (done r, v)
      → Reports back params r.run w v
  unfolding fail look run
  run-Reports params r w v e = elim (Bool-cases (is_empty params.flow_id)) [
    | inl t ↦ absurd (ground (arith, rw (t, run) at e))
    | inr f ↦
        let (flow, w1, got, e1) = bind-done _ _ w v r (rw (f, run) at e) in
        let (request, w2, prepared, e2) = bind-done _ _ w1 v r e1 in
        let (run_id, w3, fresh, e3) = bind-done _ _ w2 v r e2 in
        let first : w ≡ w1 = ground (arith, got) in
        let second : w1 ≡ w2 = ground (arith, prepared) in
        let flow_got : back.get_flow params.flow_id w ≡ done flow = ground (arith, got) in
        let ready : prepare back flow params.overrides w1 ≡ done request =
          ground (arith, prepared) in
        let (own, original, sends) = run_prepared-Done params flow _ _ _ run_id r w3 v e3 in
        (
          flow,
          request,
          run_id,
          w3,
          flow_got,
          ap (prepare back flow params.overrides) first ∙ ready,
          ap (back.new_id (codes "replay")) (first ∙ second) ∙ fresh,
          own,
          original,
          sends,
        )
  ]
