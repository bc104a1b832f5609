-- ===== src/Capture/Pending.antt =====
-- Which requests are pending: a state machine for each request.
use deconstruct.Base.{
  Text, codes, Assoc, Bool, true, false, Option, none, some, List, [], ◌∷◌, ◌≡◌, refl, sym, ap, ◌∙◌,
  arith, inl, inr, Bool-cases, Option-cases, is_empty, text_eq, text_eq_sound, lookup, insert,
  remove, lookup-insert, lookup-remove, if◌then◌else◌,
}
use mathlib.Core.Path.{subst}
use deconstruct.Json.{Fields}
use deconstruct.Capture.{
  Browser, RunState, PendingFlow, Capturing, string_in, object_in, answer, finish, abort, answered,
  on_pending, handle_method, handle_event, capture_events,
}

-- whether an event is for a request
abbrev request_of : Fields → Text
request_of event = string_in (codes "requestId") (object_in (codes "params") event)

-- a request is open from its beginning until it has finished or failed
abbrev pub open_step : Text → Text → Text → Bool → Bool
open_step id request_id method b =
    if text_eq request_id id
    then (if text_eq method (codes "Network.requestWillBeSent")
        then true
        else if text_eq method (codes "Network.responseReceived")
        then b
        else if text_eq method (codes "Network.loadingFinished")
        then false
        else if text_eq method (codes "Network.loadingFailed")
        then false
        else b)
    else b

unfoldable pub open_after : Text → List Fields → Bool → Bool
open_after id [] b = b
open_after id (event ∷ events) b =
    open_after id events (open_step id (request_of event) (string_in (codes "method") event) b)

abbrev pub is_some : {A : Type 0} → Option A → Bool
is_some none = false
is_some (some a) = true

abbrev pub is_open : Text → Assoc PendingFlow → Bool
is_open id pending = is_some (lookup id pending)

is_open-insert :
    (id r : Text) (flow : PendingFlow) (pending : Assoc PendingFlow)
    → is_open id (insert r flow pending) ≡ (if text_eq r id then true else is_open id pending)
is_open-insert id r flow pending = elim (Bool-cases (text_eq r id)) [
  | inl e ↦ rw (lookup-insert r id flow pending, e) refl
  | inr e ↦ rw (lookup-insert r id flow pending, e) refl
]

is_open-remove :
    (id r : Text) (pending : Assoc PendingFlow)
    → is_open id (remove r pending) ≡ (if text_eq r id then false else is_open id pending)
is_open-remove id r pending = elim (Bool-cases (text_eq r id)) [
  | inl e ↦ rw (lookup-remove r id pending, e) refl
  | inr e ↦ rw (lookup-remove r id pending, e) refl
]

-- an entry that is there is written again
is_open-again :
    (id r : Text) (old flow : PendingFlow) (pending : Assoc PendingFlow)
    → lookup r pending ≡ some old
    → is_open id (insert r flow pending) ≡ is_open id pending
is_open-again id r old flow pending h = elim (Bool-cases (text_eq r id)) [
  | inl e ↦
      is_open-insert id r flow pending
      ∙ rw (e)
          (sym (ap is_some (subst (λ x. lookup x pending ≡ some old) (text_eq_sound r id e) h)))
  | inr e ↦ is_open-insert id r flow pending ∙ rw (e) refl
]

-- an entry that is not there
is_open-absent :
    (id r : Text) (pending : Assoc PendingFlow)
    → lookup r pending ≡ none
    → is_open id pending ≡ (if text_eq r id then false else is_open id pending)
is_open-absent id r pending h = elim (Bool-cases (text_eq r id)) [
  | inl e ↦ rw (e) (ap is_some (subst (λ x. lookup x pending ≡ none) (text_eq_sound r id e) h))
  | inr e ↦ rw (e) refl
]

unnamed : (r id : Text) → is_empty r ≡ true → is_empty id ≡ false → text_eq r id ≡ false
unnamed [] [] h n = n
unnamed [] (c ∷ id) h n = refl
unnamed (c ∷ r) id h n = absurd (ground (arith, h))

module _ {W : Type 0} (browser : Browser W) (id : Text) where
  on_pending-open :
      (r : Text) (step : PendingFlow → Capturing → W → Capturing × W) (run : RunState)
      (pending : Assoc PendingFlow) (w : W) (target : Bool)
      → ((flow : PendingFlow)
          → lookup r pending ≡ some flow
          → is_open id (step flow (run, pending) w).0.1 ≡ target)
      → (lookup r pending ≡ none → is_open id pending ≡ target)
      → is_open id (on_pending browser r step (run, pending) w).0.1 ≡ target
  unfolding on_pending
  on_pending-open r step run pending w target h g = elim (Option-cases (lookup r pending)) [
    | inl e ↦ rw (e, on_pending) (g e)
    | inr (flow, e) ↦ rw (e, on_pending) (h flow e)
  ]

  either_way : (a b : Bool) → (if a then b else b) ≡ b
  either_way true b = refl
  either_way false b = refl

  handle_method-open :
      (method r : Text) (params : Fields) (run : RunState) (pending : Assoc PendingFlow) (w : W)
      → is_open id (handle_method browser method r params (run, pending) w).0.1
        ≡ open_step id r method (is_open id pending)
  unfolding handle_method on_pending answer finish abort
  handle_method-open method r params run pending w =
      elim (Bool-cases (text_eq method (codes "Network.requestWillBeSent"))) [
        | inl e ↦ rw (e, handle_method) (is_open-insert id r _ pending)
        | inr n1 ↦ elim (Bool-cases (text_eq method (codes "Network.responseReceived"))) [
          | inl e ↦
              rw (n1, e, handle_method)
                (on_pending-open r (answer browser r params) run pending w _
                  (λ flow there.
                    is_open-again id r flow (answered browser params flow) pending there
                    ∙ sym (either_way (text_eq r id) (is_open id pending)))
                  (λ there. sym (either_way (text_eq r id) (is_open id pending))))
          | inr n2 ↦ elim (Bool-cases (text_eq method (codes "Network.loadingFinished"))) [
            | inl e ↦
                rw (n1, n2, e, handle_method)
                  (on_pending-open r (finish browser r) run pending w _
                    (λ flow there. is_open-remove id r pending)
                    (λ there. is_open-absent id r pending there))
            | inr n3 ↦ elim (Bool-cases (text_eq method (codes "Network.loadingFailed"))) [
              | inl e ↦
                  rw (n1, n2, n3, e, handle_method)
                    (on_pending-open r (abort browser r) run pending w _
                      (λ flow there. is_open-remove id r pending)
                      (λ there. is_open-absent id r pending there))
              | inr n4 ↦
                  rw (n1, n2, n3, n4, handle_method)
                    (sym (either_way (text_eq r id) (is_open id pending)))
            ]
          ]
        ]
      ]

  handle_event-open :
      (event : Fields) (c : Capturing) (w : W)
      → is_empty id ≡ false
      → is_open id (handle_event browser event c w).0.1
        ≡ open_step id (request_of event) (string_in (codes "method") event) (is_open id c.1)
  unfolding handle_event
  handle_event-open event c w n = elim (Bool-cases (is_empty (request_of event))) [
    | inr e ↦
        rw (e, handle_event)
          (handle_method-open (string_in (codes "method") event) (request_of event)
            (object_in (codes "params") event) c.0 c.1 w)
    | inl e ↦
        let apart : text_eq (request_of event) id ≡ false = unnamed (request_of event) id e n in
        rw (e, apart, handle_event) refl
  ]

  -- A request with an identifier is pending after a run of the capture exactly when its own events left
  -- it open: begun or pending before, and since then neither finished nor failed.
  pub capture_events-open :
      (events : List Fields) (c : Capturing) (w : W)
      → is_empty id ≡ false
      → is_open id (capture_events browser events c w).0.1 ≡ open_after id events (is_open id c.1)
  unfolding capture_events open_after
  capture_events-open [] c w n = refl
  capture_events-open (event ∷ events) c w n =
      let step = handle_event browser event c w in
      capture_events-open events step.0 step.1 n
      ∙ ap (open_after id events) (handle_event-open event c w n)
