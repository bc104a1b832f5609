-- ===== src/Analyzer/Trace/Examples.antt =====
-- A trace of two flows: the first answers with a CSRF token, which the second sends back.
use deconstruct.Base.{
  ℕ, suc, codes, none, some, List, [], ◌∷◌, ◌≡◌, ◌≢◌, refl, text_eq, map, if◌then◌else◌, contains,
  lookup, insert, upper_byte, lower_byte, equal_fold, has_prefix, is_space, to_lower, trim_left,
  trim_right, trim_space, member,
}
use deconstruct.Action.{fail, yield, ◌>>=◌}
use deconstruct.Replay.Headers.{
  header_get, header_values, canonical_key, is_token, is_token_byte, capitals,
}
use deconstruct.Store.{Result, done, failed}
use deconstruct.Analyzer.{Seen, AuthChain, Readers}
use deconstruct.Analyzer.Artifacts.{
  authorization_artifact, auth_header_type, body_artifacts, cookie_artifacts, csrf_artifacts,
  fingerprint, folded_value, header_value, is_csrf_name, request_artifacts, response_artifacts,
}
use deconstruct.Analyzer.Classify.{sort_by, insert_sorted, text_less, sort_strings, unique_names}
use deconstruct.Analyzer.Trace.{
  TraceParams, AuthStore, no_tracing, trace, load_flows, get_flows, before, trace_loaded,
  save_chain, saves, body, or_else, chain_of, unique_csrf_links, trace_flows, trace_flow,
}
use deconstruct.Analyzer.Indexing.{
  index_uses, index_sources, upserted, see_again, new_artifact, note_source, note_use, add_location,
  artifact_key, use_links, csrf_link, first_location, find_csrf_source, is_csrf_source,
}
use deconstruct.Analyzer.Trace.Chain.{IsChain, trace-IsChain}

abbrev readers : Readers
readers = record {
  request_cookies = λ headers. [];
  response_cookies = λ headers. [];
  unmarshal = λ body. none;
  url_path = λ url. some url;
  digest = λ value. value;
}

abbrev given : Seen
given = record {
  created_at = 5;
  flow = record {
    id = codes "a";
    session_id = codes "s";
    method = codes "GET";
    app_name = [];
    source = [];
    url = [];
    host = codes "h";
    status = 200;
    request_headers = [];
    response_headers = (codes "X-Csrf-Token", codes "t" ∷ []) ∷ [];
    request_blob = [];
    response_blob = [];
  };
}

abbrev sent : Seen
sent = record {
  created_at = 7;
  flow = record {
    id = codes "b";
    session_id = codes "s";
    method = codes "POST";
    app_name = [];
    source = [];
    url = [];
    host = codes "h";
    status = 403;
    request_headers = (codes "X-Csrf-Token", codes "t" ∷ []) ∷ [];
    response_headers = [];
    request_blob = [];
    response_blob = [];
  };
}

-- a store of the two flows that counts what is saved
abbrev two_flows : AuthStore ℕ
two_flows = record {
  get_flow = λ id w. if text_eq id (codes "a") then done given else done sent;
  query_flows = λ session_id host w. done (codes "a" ∷ codes "b" ∷ []);
  save_auth_chain = λ chain w. (done tt, suc w);
  blob_get = λ hash w. failed (codes "no blob");
  new_id = λ prefix w. (done prefix, w);
}

-- the flows are asked for in the wrong order
abbrev params : TraceParams
params = record { session_id = []; host = []; flow_ids = codes "b" ∷ codes "a" ∷ []; save = none }

abbrev or_empty : Result AuthChain → AuthChain
or_empty (done chain) = chain
or_empty (failed e) = chain_of [] [] [] no_tracing

abbrev chain : AuthChain
chain = or_empty (trace two_flows readers (λ key. key) params 0).0

trace_test : trace two_flows readers (λ key. key) params 0 ≡ (done chain, 1)
unfolding trace load_flows get_flows trace_loaded sort_by insert_sorted before ◌>>=◌ save_chain
    saves yield
trace_test = refl

chain_links :
    chain.csrf_links
    ≡ record {
      token_name = codes "X-CSRF-Token";
      source_flow_id = codes "a";
      used_by_flow_id = codes "b";
      source = codes "response.header.X-CSRF-Token";
      usage = codes "request.header.X-CSRF-Token";
    }
      ∷ []
unfolding trace load_flows get_flows before trace_loaded save_chain saves body or_else chain_of
    unique_csrf_links trace_flows trace_flow index_uses index_sources upserted see_again
    new_artifact note_source note_use add_location artifact_key use_links csrf_link first_location
    find_csrf_source is_csrf_source sort_by insert_sorted text_less sort_strings unique_names
    authorization_artifact auth_header_type body_artifacts cookie_artifacts csrf_artifacts
    fingerprint folded_value header_value is_csrf_name request_artifacts response_artifacts
    header_get header_values canonical_key is_token is_token_byte capitals fail yield ◌>>=◌ contains
    lookup insert upper_byte lower_byte equal_fold has_prefix is_space to_lower trim_left trim_right
    trim_space member
chain_links = refl

trace-IsChain_example :
    (flows : List Seen) × (load_flows two_flows params 0 ≡ done flows)
    × (flows ≢ [])
    × (chain.flow_ids ≡ map (λ s. s.flow.id) flows)
    × IsChain chain
trace-IsChain_example = trace-IsChain two_flows readers (λ key. key) params 0 1 chain trace_test
