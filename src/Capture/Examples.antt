-- ===== src/Capture/Examples.antt =====
-- A browser that reports one request with a secret, and stores that keep what they are given.
use deconstruct.Base.{
  Text, codes, true, false, none, [], ◌∷◌, ◌≡◌, refl, lookup, lower_byte, upper_byte, insert,
  remove,
}
use deconstruct.Json.{Json, Fields, str, obj, end, field, get_field}
use deconstruct.Action.{◌>>=◌, fail, yield}
use deconstruct.Redact.{redact_body}
use deconstruct.Store.{done}
use deconstruct.Replay.Headers.{
  header_add, header_values, canonical_key, is_token, is_token_byte, capitals,
}
use deconstruct.Replay.Engine.{tag_all}
use deconstruct.Capture.{
  Browser, Capturing, string_in, object_in, flag_in, decoded_body, response_body, captured_flow,
  shown_headers, shown_body, store_flow, persist, note_finished, with_body, finish, on_pending,
  headers_from, string_value, begun, handle_method, handle_event, capture_events,
}
use deconstruct.Capture.Pending.{open_after, is_open, capture_events-open}
use deconstruct.Replay.Lab.{Stored, stores, IsSafe, stores_keep}
use deconstruct.Capture.Secrets.{capture_events-KeepsSecrets}

abbrev sprint : Json → Text
sprint (str s) = s
sprint _ = []

abbrev chrome : Browser Stored
chrome = record {
  back = stores;
  ensure_session = λ id name kind w. (done tt, w);
  call = λ method id w.
      (done (field (codes "result") (obj (field (codes "body") (str (codes "ok")) end)) end), w);
  sprint = sprint;
  to_int = λ n. 0;
  base64 = λ s. none;
}

abbrev event_of : Text → Fields → Fields
event_of method params =
    field (codes "method") (str method) (field (codes "params") (obj params) end)

abbrev begins : Fields
begins = event_of (codes "Network.requestWillBeSent") (
    field (codes "requestId") (str (codes "1")) (
      field (codes "request")
        (obj (
          field (codes "method") (str (codes "GET")) (
            field (codes "url") (str (codes "u"))
              (field (codes "headers") (obj (field (codes "Cookie") (str (codes "c")) end)) end))))
        end))

abbrev ends : Fields
ends = event_of (codes "Network.loadingFinished") (field (codes "requestId") (str (codes "1")) end)

abbrev idle : Capturing
idle =
    (record { endpoint = []; session_id = codes "s"; redact = true; flows = 0; error = none }, [])

abbrev after : Capturing × Stored
after = capture_events chrome (begins ∷ ends ∷ []) idle ([], [])

stored_test : after.1.1 ≡ codes "ok" ∷ [] ∷ []
unfolding capture_events handle_event handle_method on_pending finish string_in object_in flag_in
    get_field begun string_value headers_from header_add header_values canonical_key is_token
    is_token_byte capitals lower_byte upper_byte lookup insert remove response_body decoded_body
    with_body persist store_flow captured_flow shown_headers shown_body redact_body tag_all
    note_finished yield fail ◌>>=◌
stored_test = refl

capture_events-KeepsSecrets_example : (after.0.0.redact ≡ true) × IsSafe after.1
capture_events-KeepsSecrets_example =
    capture_events-KeepsSecrets chrome IsSafe stores_keep (λ method id w safe. safe)
      (begins ∷ ends ∷ []) idle ([], []) refl (tt, tt)

capture_events-open_example :
    is_open (codes "1") after.0.1 ≡ open_after (codes "1") (begins ∷ ends ∷ []) false
unfolding lookup
capture_events-open_example =
    capture_events-open chrome (codes "1") (begins ∷ ends ∷ []) idle ([], []) refl

still_open : open_after (codes "1") (begins ∷ []) false ≡ true
unfolding open_after string_in object_in get_field
still_open = refl
