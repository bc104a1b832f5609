-- ===== src/Replay/Engine.antt =====
-- `prepare` and `recordReplayFlow` of daemon/internal/replay/replay.go, and the surroundings of the
-- engine.
use deconstruct.Base.{
  ℕ, Text, codes, Assoc, Bool, Option, none, some, List, [], ◌∷◌, ◌++◌, is_empty, to_upper,
  if◌then◌else◌,
}
use deconstruct.Base.Decimal.{ℤ}
use deconstruct.Action.{Action, ◌>>=◌}
use deconstruct.Json.{Json}
use deconstruct.Redact.{Header, redact_header, redact_body}
use deconstruct.Store.{Overrides, ReplayRun, Flow, Result, done, failed}
use deconstruct.Replay.Headers.{header_del, header_add, del_all, remove_hop_by_hop_headers}

pub record PreparedRequest : Type 0 where
  pub method : Text
  pub url : Text
  pub headers : Header
  pub body : Text

pub record AdapterResult : Type 0 where
  pub status : ℕ
  pub headers : Header
  pub body : Text

pub record Params : Type 0 where
  pub flow_id : Text
  pub overrides : Overrides
  pub dry_run : Bool
  pub retries : ℤ
  pub profile : Text
  pub profile_options : Assoc Text

pub record RunResult : Type 0 where
  pub run : ReplayRun
  pub prepared_request : PreparedRequest
  pub profile : Text

-- What the engine asks of its surroundings, each step from a state of type W to the next: the store
-- (its database), the blob store, random identifiers, the network, and the libraries for JSON and URLs.
pub record Backend (W : Type 0) : Type 1 where
  pub get_flow : Text → W → Result Flow
  pub insert_flow : Flow → Action W Unit
  pub insert_replay_run : ReplayRun → Action W Unit
  pub ensure_session : Text → Action W Unit
  pub tag_flow : Text → Text → W → W
  pub blob_get : Text → W → Result Text
  pub blob_put : Text → Action W Text
  pub new_id : Text → Action W Text
  -- `url.Parse`, `Query`, `Set` for each entry, `Encode` and `String`
  pub retarget : Text → Assoc Text → Result Text
  pub url_host : Text → Text
  pub unmarshal : Text → Option Json
  pub marshal : Json → Text
  pub tags : Header → Text → List Text
  -- the adapter of a name, where there is one
  pub execute :
      Text → Option (PreparedRequest → Header → Text → Assoc Text → Action W AdapterResult)

unfoldable pub replay_profile : Text → Text
replay_profile profile = if is_empty profile then codes "standard" else profile

abbrev pub replay_session_id : Text
replay_session_id = codes "session_replay"

-- the loop over the values of one header
unfoldable pub add_values : Text → List Text → Header → Header
add_values key [] headers = headers
add_values key (value ∷ values) headers = add_values key values (header_add key value headers)

-- the loop over the headers of the overrides
unfoldable pub set_headers : Assoc (List Text) → Header → Header
set_headers [] headers = headers
set_headers ((key, values) ∷ overrides) headers =
    set_headers overrides (add_values key values (header_del key headers))

-- the headers that `prepare` sends
unfoldable pub prepare_headers : Header → Overrides → Header
prepare_headers headers overrides =
    remove_hop_by_hop_headers
      (set_headers overrides.headers (del_all overrides.remove_headers headers))

unfoldable pub tag_all : {W : Type 0} → Backend W → Text → List Text → W → W
tag_all back flow_id [] w = w
tag_all back flow_id (tag ∷ tags) w = tag_all back flow_id tags (back.tag_flow flow_id tag w)

module _ {W : Type 0} (back : Backend W) where
  -- the stored body, empty where there is none
  unfoldable pub stored_body : Flow → W → Result Text
  stored_body flow w =
      if is_empty flow.request_blob then done [] else back.blob_get flow.request_blob w

  unfoldable pub target_url : Flow → Overrides → Result Text
  target_url flow overrides =
      back.retarget (if is_empty overrides.url then flow.url else overrides.url) overrides.query

  -- the request once its body and its URL are there
  unfoldable pub assemble : Flow → Overrides → Text → Text → PreparedRequest × Header × Text
  assemble flow overrides body url =
      let headers = prepare_headers flow.request_headers overrides in
      let sent : Text = elim overrides.body [ none ↦ body | some b ↦ b ] in
      (
        record {
          method = if is_empty overrides.method then flow.method else to_upper overrides.method;
          url = url;
          headers = redact_header headers;
          body = redact_body back.unmarshal back.marshal sent;
        },
        headers,
        sent,
      )

  unfoldable pub prepare : Flow → Overrides → W → Result (PreparedRequest × Header × Text)
  prepare flow overrides w = elim (stored_body flow w) [
    | failed e ↦ failed e
    | done body ↦ elim (target_url flow overrides) [
      | failed e ↦ failed e
      | done url ↦ done (assemble flow overrides body url)
    ]
  ]

  -- the row that `recordReplayFlow` inserts
  unfoldable pub replay_flow :
      Text → Text → Text → Text → PreparedRequest → Header → AdapterResult → Flow
  replay_flow flow_id request_blob response_blob profile prepared headers answer = record {
    id = flow_id;
    session_id = replay_session_id;
    method = prepared.method;
    app_name = codes "deconstruct";
    source = codes "replay:" ++ replay_profile profile;
    url = prepared.url;
    host = back.url_host prepared.url;
    status = answer.status;
    request_headers = headers;
    response_headers = answer.headers;
    request_blob = request_blob;
    response_blob = response_blob;
  }

  -- the tags of a recorded flow
  unfoldable pub tag_replay : Text → Text → Text → Header → Text → AdapterResult → W → W
  tag_replay flow_id original_id profile headers body answer w =
      tag_all back flow_id
        (codes "replay"
          ∷ (codes "replay_profile:" ++ replay_profile profile)
          ∷ (codes "replay_of:" ++ original_id)
          ∷ (back.tags headers body ++ back.tags answer.headers answer.body))
        w

  unfoldable pub record_replay_flow :
      Flow → PreparedRequest → Header → Text → AdapterResult → Text → Action W Text
  unfolding replay_flow tag_replay
  record_replay_flow original prepared headers body answer profile = do
    _ ← back.ensure_session replay_session_id
    request_blob ← back.blob_put body
    response_blob ← back.blob_put answer.body
    flow_id ← back.new_id (codes "flow")
    _ ←
        back.insert_flow
          (replay_flow flow_id request_blob response_blob profile prepared headers answer)
    λ w. (done flow_id, tag_replay flow_id original.id profile headers body answer w)
