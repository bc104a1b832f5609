-- ===== src/Capture.antt =====
-- daemon/internal/browsercapture/manager.go: flows from the network events of a browser.
pub mod Pending
pub mod Secrets
mod Examples
use deconstruct.Base.{
  ℕ, ◌+◌, Text, codes, Assoc, Bool, true, false, ◌||◌, Option, none, some, List, [], ◌∷◌, ◌++◌,
  is_empty, text_eq, lookup, insert, remove, if◌then◌else◌,
}
use deconstruct.Action.{Action, ◌>>=◌, fail, yield}
use deconstruct.Json.{Json, Fields, null, bool, num, str, arr, obj, end, field, get_field}
use deconstruct.Redact.{Header, redact_header, redact_body}
use deconstruct.Store.{Flow, Result, done, failed}
use deconstruct.Replay.Headers.{header_add}
use deconstruct.Replay.Engine.{Backend, tag_all}

pub record StartParams : Type 0 where
  pub endpoint : Text
  pub session_name : Text
  pub redact : Option Bool

pub record Status : Type 0 where
  pub running : Bool
  pub endpoint : Text
  pub session_id : Text
  pub flows : ℕ
  pub error : Text

pub record RunState : Type 0 where
  pub endpoint : Text
  pub session_id : Text
  pub redact : Bool
  pub flows : ℕ
  pub error : Option Text

pub record PendingFlow : Type 0 where
  pub request_id : Text
  pub method : Text
  pub url : Text
  pub headers : Header
  pub post_data : Text
  pub status : ℕ
  pub response_header : Header
  pub response_body : Text

-- The stores as the replay engine has them, the sessions, and the connection to the browser: `call` is
-- a command with a request identifier. `sprint` is `fmt.Sprint`, `to_int` the conversion of a float64,
-- and `base64` the standard decoding.
pub record Browser (W : Type 0) : Type 1 where
  pub back : Backend W
  pub ensure_session : Text → Text → Text → Action W Unit
  pub call : Text → Text → Action W Fields
  pub sprint : Json → Text
  pub to_int : Text → ℕ
  pub base64 : Text → Option Text

unfoldable pub string_in : Text → Fields → Text
string_in key fs = elim (get_field key fs) [ some (str s) ↦ s | _ ↦ [] ]

unfoldable pub object_in : Text → Fields → Fields
object_in key fs = elim (get_field key fs) [ some (obj gs) ↦ gs | _ ↦ end ]

unfoldable pub flag_in : Text → Fields → Bool
flag_in key fs = elim (get_field key fs) [ some (bool b) ↦ b | _ ↦ false ]

-- the state of a run with the pending flows by their request identifiers
abbrev pub Capturing : Type 0
Capturing = RunState × Assoc PendingFlow

-- an error is kept, and a flow counted where there is none
unfoldable pub note_finished : Result Unit → RunState → RunState
note_finished (done u) run = record run { flows = run.flows + 1 }
note_finished (failed e) run = record run { error = some e }

unfoldable pub note_failed : Result Unit → RunState → RunState
note_failed (done u) run = run
note_failed (failed e) run = record run { error = some e }

-- the body stays empty where the browser gives none
unfoldable pub with_body : Result Text → PendingFlow → PendingFlow
with_body (done body) flow = record flow { response_body = body }
with_body (failed e) flow = flow

unfoldable pub status_of : Option RunState → Status
status_of none = record { running = false; endpoint = []; session_id = []; flows = 0; error = [] }
status_of (some run) = record {
  running = true;
  endpoint = run.endpoint;
  session_id = run.session_id;
  flows = run.flows;
  error = elim run.error [ none ↦ [] | some e ↦ e ];
}

abbrev pub default_endpoint : Text
default_endpoint = codes "http://127.0.0.1:9222"

unfoldable pub first_state : StartParams → Text → RunState
first_state params session_id = record {
  endpoint = if is_empty params.endpoint then default_endpoint else params.endpoint;
  session_id = session_id;
  redact = elim params.redact [ none ↦ true | some b ↦ b ];
  flows = 0;
  error = none;
}

module _ {W : Type 0} (browser : Browser W) where
  unfoldable pub headers_from : Fields → Header → Header
  headers_from end headers = headers
  headers_from (field key raw fs) headers =
      headers_from fs (header_add key (browser.sprint raw) headers)

  unfoldable pub string_value : Option Json → Text
  string_value none = []
  string_value (some null) = []
  string_value (some v) = browser.sprint v

  unfoldable pub float_value : Option Json → ℕ
  float_value (some (num n)) = browser.to_int n
  float_value _ = 0

  unfoldable pub decoded_body : Fields → Action W Text
  decoded_body result =
      let text = string_in (codes "body") result in
      if flag_in (codes "base64Encoded") result
      then elim (browser.base64 text) [
        | none ↦ fail (codes "illegal base64 data")
        | some decoded ↦ yield decoded
      ]
      else yield text

  unfoldable pub response_body : Text → Action W Text
  response_body request_id = do
    response ← browser.call (codes "Network.getResponseBody") request_id
    decoded_body (object_in (codes "result") response)

  -- the row of a flow
  unfoldable pub captured_flow : Text → Text → PendingFlow → Header → Header → Text → Text → Flow
  captured_flow session_id flow_id pending request_headers response_headers request_blob
        response_blob =
      record {
        id = flow_id;
        session_id = session_id;
        method = pending.method;
        app_name = codes "Browser";
        source = codes "browser_cdp";
        url = pending.url;
        host = browser.back.url_host pending.url;
        status = pending.status;
        request_headers = request_headers;
        response_headers = response_headers;
        request_blob = request_blob;
        response_blob = response_blob;
      }

  unfoldable pub shown_headers : Bool → Header → Header
  shown_headers redact headers = if redact then redact_header headers else headers

  unfoldable pub shown_body : Bool → Text → Text
  shown_body redact body =
      if redact then redact_body browser.back.unmarshal browser.back.marshal body else body

  -- `persist` once the headers and bodies are redacted
  unfoldable pub store_flow : Text → PendingFlow → Header → Header → Text → Text → Action W Unit
  store_flow session_id pending request_headers response_headers request_body response_body = do
    request_blob ← browser.back.blob_put request_body
    response_blob ← browser.back.blob_put response_body
    flow_id ← browser.back.new_id (codes "flow")
    _ ← browser.back.insert_flow (
        captured_flow session_id flow_id pending request_headers response_headers request_blob
          response_blob)
    λ w. (
      done tt,
      tag_all browser.back flow_id
          (codes "browser_fidelity"
            ∷ (browser.back.tags request_headers request_body
                ++ browser.back.tags response_headers response_body))
          w,
    )

  unfoldable pub persist : Text → Bool → PendingFlow → Action W Unit
  persist session_id redact pending =
      if is_empty pending.method || is_empty pending.url
      then yield tt
      else store_flow session_id pending (shown_headers redact pending.headers)
          (shown_headers redact pending.response_header) (shown_body redact pending.post_data)
          (shown_body redact pending.response_body)

  -- a request that begins
  unfoldable pub begun : Text → Fields → PendingFlow
  begun request_id params =
      let request = object_in (codes "request") params in
      record {
        request_id = request_id;
        method = string_value (get_field (codes "method") request);
        url = string_value (get_field (codes "url") request);
        headers = headers_from (object_in (codes "headers") request) [];
        post_data = string_in (codes "postData") request;
        status = 0;
        response_header = [];
        response_body = [];
      }

  -- a request that is answered
  unfoldable pub answered : Fields → PendingFlow → PendingFlow
  answered params flow =
      let response = object_in (codes "response") params in
      record flow {
        status = float_value (get_field (codes "status") response);
        response_header = headers_from (object_in (codes "headers") response) [];
      }

  unfoldable pub answer : Text → Fields → PendingFlow → Capturing → W → Capturing × W
  answer request_id params flow (run, pending) w =
      ((run, insert request_id (answered params flow) pending), w)

  unfoldable pub finish : Text → PendingFlow → Capturing → W → Capturing × W
  finish request_id flow (run, pending) w =
      let (body, v) = response_body request_id w in
      let (result, u) = persist run.session_id run.redact (with_body body flow) v in
      ((note_finished result run, remove request_id pending), u)

  unfoldable pub abort : Text → PendingFlow → Capturing → W → Capturing × W
  abort request_id flow (run, pending) w =
      let (result, u) = persist run.session_id run.redact (record flow { status = 0 }) w in
      ((note_failed result run, remove request_id pending), u)

  -- a step on the pending flow of an identifier, where there is one
  unfoldable pub on_pending :
      Text → (PendingFlow → Capturing → W → Capturing × W) → Capturing → W → Capturing × W
  on_pending request_id step (run, pending) w = elim (lookup request_id pending) [
    | none ↦ ((run, pending), w)
    | some flow ↦ step flow (run, pending) w
  ]

  -- the switch on the method of an event
  unfoldable pub handle_method : Text → Text → Fields → Capturing → W → Capturing × W
  handle_method method request_id params (run, pending) w =
      if text_eq method (codes "Network.requestWillBeSent")
      then ((run, insert request_id (begun request_id params) pending), w)
      else if text_eq method (codes "Network.responseReceived")
      then on_pending request_id (answer request_id params) (run, pending) w
      else if text_eq method (codes "Network.loadingFinished")
      then on_pending request_id (finish request_id) (run, pending) w
      else if text_eq method (codes "Network.loadingFailed")
      then on_pending request_id (abort request_id) (run, pending) w
      else ((run, pending), w)

  unfoldable pub handle_event : Fields → Capturing → W → Capturing × W
  handle_event event c w =
      let params = object_in (codes "params") event in
      let request_id = string_in (codes "requestId") params in
      if is_empty request_id
      then (c, w)
      else handle_method (string_in (codes "method") event) request_id params c w

  -- the loop of `capture`, over the events that come before it is stopped
  unfoldable pub capture_events : List Fields → Capturing → W → Capturing × W
  capture_events [] c w = (c, w)
  capture_events (event ∷ events) c w =
      let (d, v) = handle_event event c w in capture_events events d v

  -- the session of a run
  unfoldable pub open_session : StartParams → Action W Text
  open_session params = do
    session_id ← browser.back.new_id (codes "session")
    _ ←
        browser.ensure_session session_id
          (if is_empty params.session_name
            then codes "Browser fidelity capture"
            else params.session_name)
          (codes "browser_cdp")
    yield session_id

  -- the status, the error, and the run of the manager afterwards
  unfoldable pub start :
      StartParams → Option RunState → W → (Status × Option Text × Option RunState) × W
  start params (some run) w =
      ((status_of (some run), some (codes "browser capture already running"), some run), w)
  start params none w = elim (open_session params w).0 [
    | failed e ↦ ((status_of none, some e, none), (open_session params w).1)
    | done id ↦
        let run = first_state params id in
        ((status_of (some run), none, some run), (open_session params w).1)
  ]

  -- once the loop has ended
  unfoldable pub stop : Option RunState → Status × Option RunState
  stop run = (status_of run, none)
