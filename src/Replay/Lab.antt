-- ===== src/Replay/Lab.antt =====
-- A small world for tests: one flow, and a server that counts the requests.
use deconstruct.Base.{Text, List, All, ℕ, zero, suc, codes, none, some, [], ◌∷◌}
use deconstruct.Store.{done, failed, Flow}
use deconstruct.Replay.Engine.{Backend, AdapterResult}
use deconstruct.Replay.Secrets.{IsShown, IsShownBody, KeepsSecrets}

abbrev pub captured : Flow
captured = record {
  id = codes "flow_1";
  session_id = codes "s";
  method = codes "GET";
  app_name = [];
  source = [];
  url = codes "https://a/b";
  host = codes "a";
  status = 200;
  request_headers =
      (codes "Authorization", codes "Bearer x" ∷ [])
      ∷ (codes "Upgrade", codes "websocket" ∷ [])
      ∷ [];
  response_headers = [];
  request_blob = [];
  response_blob = [];
}

-- a server that answers with 503 at first and from the second request on with 200
abbrev pub flaky : ℕ → AdapterResult
flaky zero = record { status = 503; headers = []; body = [] }
flaky (suc n) = record { status = 200; headers = []; body = codes "ok" }

-- a state that counts the requests, with what the server answers to each
abbrev pub lab : (ℕ → AdapterResult) → Backend ℕ
lab answers = record {
  get_flow = λ id w. done captured;
  insert_flow = λ flow w. (done tt, w);
  insert_replay_run = λ r w. (done tt, w);
  ensure_session = λ id w. (done tt, w);
  tag_flow = λ id tag w. w;
  blob_get = λ hash w. failed (codes "open blob");
  blob_put = λ body w. (done [], w);
  new_id = λ prefix w. (done prefix, w);
  retarget = λ url query. done url;
  url_host = λ url. [];
  unmarshal = λ body. none;
  marshal = λ v. [];
  tags = λ headers body. [];
  execute = λ profile. some (λ prepared headers body options w. (done (answers w), suc w));
}

-- the flows and the bodies that were stored
abbrev pub Stored : Type 0
Stored = List Flow × List Text

abbrev pub stores : Backend Stored
stores = record {
  get_flow = λ id w. failed (codes "no flow");
  insert_flow = λ flow w. (done tt, (flow ∷ w.0, w.1));
  insert_replay_run = λ r w. (done tt, w);
  ensure_session = λ id w. (done tt, w);
  tag_flow = λ id tag w. w;
  blob_get = λ hash w. failed (codes "open blob");
  blob_put = λ body w. (done [], (w.0, body ∷ w.1));
  new_id = λ prefix w. (done prefix, w);
  retarget = λ url query. done url;
  url_host = λ url. [];
  unmarshal = λ body. none;
  marshal = λ v. [];
  tags = λ headers body. [];
  execute = λ profile. none;
}

abbrev pub IsSafe : Stored → Type 0
IsSafe w =
    All (λ flow. IsShown flow.request_headers × IsShown flow.response_headers) w.0
    × All (IsShownBody stores.unmarshal stores.marshal) w.1

abbrev pub stores_keep : KeepsSecrets stores IsSafe
stores_keep = record {
  put = λ body w shown safe. (safe.0, (shown, safe.1));
  insert_flow = λ flow w q p safe. (((q, p), safe.0), safe.1);
  new_id = λ prefix w safe. safe;
  tag_flow = λ id tag w safe. safe;
}
