-- ===== src/Capture/Secrets.antt =====
-- What a redacting capture hands to the stores.
use deconstruct.Base.{
  Text, codes, Bool, true, false, ◌||◌, List, [], ◌∷◌, ◌≡◌, refl, sym, ◌∙◌, inl, inr, Bool-cases,
  Option-cases, is_empty, text_eq, lookup, if◌then◌else◌,
}
use mathlib.Core.Path.{subst}
use deconstruct.Action.{fail, yield}
use deconstruct.Json.{Fields}
use deconstruct.Redact.{Header, redact_header, redact_body}
use deconstruct.Store.{Result, done, failed}
use deconstruct.Replay.Secrets.{IsShown, IsShownBody, KeepsSecrets, bind-Safe, tag_all-Safe}
use deconstruct.Capture.{
  Browser, RunState, PendingFlow, Capturing, string_in, object_in, flag_in, decoded_body,
  response_body, captured_flow, shown_headers, shown_body, store_flow, persist, note_finished,
  note_failed, with_body, answer, finish, abort, on_pending, handle_method, handle_event,
  capture_events,
}

module _ {W : Type 0} (browser : Browser W) (Safe : W → Type 0)
    (keeps : KeepsSecrets browser.back Safe)
    (calls : (method id : Text) (w : W) → Safe w → Safe (browser.call method id w).1) where
  store_flow-Safe :
      (session_id : Text) (pending : PendingFlow) (qh ph : Header) (qb pb : Text) (w : W)
      → IsShown qh
      → IsShown ph
      → IsShownBody browser.back.unmarshal browser.back.marshal qb
      → IsShownBody browser.back.unmarshal browser.back.marshal pb
      → Safe w
      → Safe (store_flow browser session_id pending qh ph qb pb w).1
  unfolding store_flow captured_flow
  store_flow-Safe session_id pending qh ph qb pb w q p b c h =
      bind-Safe Safe _ _ w (keeps.put qb w b h) (λ request_blob u1 h1.
        bind-Safe Safe _ _ u1 (keeps.put pb u1 c h1) (λ response_blob u2 h2.
          bind-Safe Safe _ _ u2 (keeps.new_id (codes "flow") u2 h2) (λ flow_id u3 h3.
            bind-Safe Safe _ _ u3 (keeps.insert_flow _ u3 q p h3)
              (λ x u4 h4. tag_all-Safe browser.back Safe keeps flow_id _ u4 h4))))

  persist-Safe :
      (session_id : Text) (pending : PendingFlow) (w : W)
      → Safe w
      → Safe (persist browser session_id true pending w).1
  unfolding persist yield shown_headers shown_body
  persist-Safe session_id pending w h =
      elim (Bool-cases (is_empty pending.method || is_empty pending.url)) [
        | inl e ↦ rw (e, persist) h
        | inr e ↦
            rw (e, persist)
              (store_flow-Safe session_id pending (redact_header pending.headers)
                (redact_header pending.response_header)
                (redact_body browser.back.unmarshal browser.back.marshal pending.post_data)
                (redact_body browser.back.unmarshal browser.back.marshal pending.response_body) w
                (pending.headers, refl) (pending.response_header, refl) (pending.post_data, refl)
                (pending.response_body, refl) h)
      ]

  decoded_body-Safe : (result : Fields) (w : W) → Safe w → Safe (decoded_body browser result w).1
  unfolding decoded_body yield fail
  decoded_body-Safe result w h = elim (Bool-cases (flag_in (codes "base64Encoded") result)) [
    | inr e ↦ rw (e, decoded_body) h
    | inl e ↦ elim (Option-cases (browser.base64 (string_in (codes "body") result))) [
      | inl n ↦ rw (e, n, decoded_body) h
      | inr (t, n) ↦ rw (e, n, decoded_body) h
    ]
  ]

  response_body-Safe : (id : Text) (w : W) → Safe w → Safe (response_body browser id w).1
  unfolding response_body
  response_body-Safe id w h =
      bind-Safe Safe _ _ w (calls (codes "Network.getResponseBody") id w h)
        (λ response u g. decoded_body-Safe (object_in (codes "result") response) u g)

  -- the stores are safe, and the run still redacts
  abbrev Good : Capturing × W → Type 0
  Good x = (x.0.0.redact ≡ true) × Safe x.1

  note_finished-redact :
      (r : Result Unit) (run : RunState) → (note_finished r run).redact ≡ run.redact
  unfolding note_finished
  note_finished-redact (done u) run = refl
  note_finished-redact (failed e) run = refl

  note_failed-redact : (r : Result Unit) (run : RunState) → (note_failed r run).redact ≡ run.redact
  unfolding note_failed
  note_failed-redact (done u) run = refl
  note_failed-redact (failed e) run = refl

  persist_run-Safe :
      (run : RunState) (flow : PendingFlow) (w : W)
      → run.redact ≡ true
      → Safe w
      → Safe (persist browser run.session_id run.redact flow w).1
  persist_run-Safe run flow w t h =
      subst (λ b. Safe (persist browser run.session_id b flow w).1) (sym t)
        (persist-Safe run.session_id flow w h)

  finish-Good :
      (id : Text) (flow : PendingFlow) (c : Capturing) (w : W)
      → Good (c, w)
      → Good (finish browser id flow c w)
  unfolding finish
  finish-Good id flow (run, pending) w (t, h) =
      let got = response_body browser id w in
      let whole = with_body got.0 flow in
      (
        note_finished-redact (persist browser run.session_id run.redact whole got.1).0 run ∙ t,
        persist_run-Safe run whole got.1 t (response_body-Safe id w h),
      )

  abort-Good :
      (id : Text) (flow : PendingFlow) (c : Capturing) (w : W)
      → Good (c, w)
      → Good (abort browser id flow c w)
  unfolding abort
  abort-Good id flow (run, pending) w (t, h) =
      let whole = record flow { status = 0 } in
      (
        note_failed-redact (persist browser run.session_id run.redact whole w).0 run ∙ t,
        persist_run-Safe run whole w t h,
      )

  answer-Good :
      (id : Text) (params : Fields) (flow : PendingFlow) (c : Capturing) (w : W)
      → Good (c, w)
      → Good (answer browser id params flow c w)
  unfolding answer
  answer-Good id params flow (run, pending) w h = h

  on_pending-Good :
      (id : Text) (step : PendingFlow → Capturing → W → Capturing × W) (c : Capturing) (w : W)
      → ((flow : PendingFlow) → Good (step flow c w))
      → Good (c, w)
      → Good (on_pending browser id step c w)
  unfolding on_pending
  on_pending-Good id step (run, pending) w g h = elim (Option-cases (lookup id pending)) [
    | inl e ↦ rw (e, on_pending) h
    | inr (flow, e) ↦ rw (e, on_pending) (g flow)
  ]

  if-Good : (b : Bool) (x y : Capturing × W) → Good x → Good y → Good (if b then x else y)
  if-Good true x y h g = h
  if-Good false x y h g = g

  handle_method-Good :
      (method id : Text) (params : Fields) (c : Capturing) (w : W)
      → Good (c, w)
      → Good (handle_method browser method id params c w)
  unfolding handle_method
  handle_method-Good method id params (run, pending) w h =
      if-Good (text_eq method (codes "Network.requestWillBeSent")) _ _ h (
        if-Good (text_eq method (codes "Network.responseReceived")) _ _
          (on_pending-Good id (answer browser id params) (run, pending) w
            (λ flow. answer-Good id params flow (run, pending) w h) h)
          (if-Good (text_eq method (codes "Network.loadingFinished")) _ _
            (on_pending-Good id (finish browser id) (run, pending) w
              (λ flow. finish-Good id flow (run, pending) w h) h)
            (if-Good (text_eq method (codes "Network.loadingFailed")) _ _
              (on_pending-Good id (abort browser id) (run, pending) w
                (λ flow. abort-Good id flow (run, pending) w h) h)
              h)))

  handle_event-Good :
      (event : Fields) (c : Capturing) (w : W) → Good (c, w) → Good (handle_event browser event c w)
  unfolding handle_event
  handle_event-Good event c w h =
      let params = object_in (codes "params") event in
      let id = string_in (codes "requestId") params in
      if-Good (is_empty id) (c, w)
        (handle_method browser (string_in (codes "method") event) id params c w) h
        (handle_method-Good (string_in (codes "method") event) id params c w h)

  -- A capture that redacts gives the stores redacted headers and bodies only, whatever the browser
  -- reports: what they keep while they are given no others, they keep through every run.
  pub capture_events-KeepsSecrets :
      (events : List Fields) (c : Capturing) (w : W)
      → c.0.redact ≡ true
      → Safe w
      → ((capture_events browser events c w).0.0.redact ≡ true)
        × Safe (capture_events browser events c w).1
  unfolding capture_events
  capture_events-KeepsSecrets [] c w t h = (t, h)
  capture_events-KeepsSecrets (event ∷ events) c w t h =
      let (s, g) = handle_event-Good event c w (t, h) in capture_events-KeepsSecrets events _ _ s g
