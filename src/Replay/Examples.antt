-- ===== src/Replay/Examples.antt =====
-- Tests and instances of the theorems on the replay engine.
use deconstruct.Base.{
  remove, to_lower, lower_byte, upper_byte, codes, true, false, none, some, [], ◌∷◌, ◌≡◌, ◌≢◌, refl,
  lookup, member, if◌then◌else◌,
}
use deconstruct.Base.Decimal.{pos}
use deconstruct.Action.{◌>>=◌, look, yield}
use deconstruct.Redact.{Header, redact_header, redact_body, redact_values, sensitive_header}
use deconstruct.Store.{done, Overrides}
use deconstruct.Replay.Headers.{
  is_token, is_token_byte, capitals, del_all, header_del, canonical_key, hop_by_hop_headers,
  remove_hop_by_hop_headers,
}
use deconstruct.Replay.Engine.{
  Params, RunResult, prepare, stored_body, target_url, assemble, replay_profile, prepare_headers,
  record_replay_flow, replay_flow, set_headers, tag_all, tag_replay,
}
use deconstruct.Replay.Lab.{captured, flaky, lab}
use deconstruct.Replay.Order.{InOrder, run_variations-InOrder}
use deconstruct.Replay.Run.{
  Variation, VariationResult, run_variations, variations_loop, variation_params, variation_name,
  run, run_prepared, send, attempts, finish, attempt_loop, attempts_of, attempt_once,
}
use deconstruct.Replay.Reports.{Reports}
use deconstruct.Replay.Sends.{run-Reports}
use deconstruct.Replay.Prepared.{prepare-IsSafe, IsSafe, lookup-remove_hop_by_hop_headers}

canonical : canonical_key (codes "x-cSRF-token") ≡ codes "X-Csrf-Token"
unfolding canonical_key is_token is_token_byte capitals upper_byte lower_byte
canonical = refl

abbrev plain : Overrides
plain = record {
  method = [];
  url = [];
  headers = [];
  remove_headers = [];
  query = [];
  body = some (codes "hi");
}

abbrev params : Params
params = record {
  flow_id = codes "flow_1";
  overrides = plain;
  dry_run = false;
  retries = pos 2;
  profile = [];
  profile_options = [];
}

abbrev second : RunResult
second = record {
  run = record {
    id = codes "replay";
    original_flow_id = codes "flow_1";
    replay_flow_id = codes "flow";
    ok = true;
    status = 200;
    attempts = 2;
    error = [];
  };
  prepared_request = record {
    method = codes "GET";
    url = codes "https://a/b";
    headers = (codes "Authorization", codes "[redacted]" ∷ []) ∷ [];
    body = codes "hi";
  };
  profile = codes "standard";
}

second_try : run (lab flaky) params 0 ≡ (done second, 2)
unfolding run ◌>>=◌ look prepare stored_body target_url run_prepared send attempts finish yield
    attempt_loop assemble replay_profile attempts_of redact_header redact_body attempt_once
    prepare_headers record_replay_flow remove_hop_by_hop_headers del_all header_del remove to_lower
    lower_byte upper_byte redact_values sensitive_header replay_flow set_headers tag_all tag_replay
    canonical_key is_token is_token_byte capitals
second_try = refl

run-Reports_example : Reports (lab flaky) params second.run 0 2
run-Reports_example = run-Reports (lab flaky) params second 0 2 second_try

lookup-remove_hop_by_hop_headers_example :
    lookup (codes "Accept") (remove_hop_by_hop_headers captured.request_headers) ≡ (
      if member (codes "Accept") hop_by_hop_headers
      then none
      else lookup (codes "Accept") captured.request_headers)
lookup-remove_hop_by_hop_headers_example =
    lookup-remove_hop_by_hop_headers (codes "Accept") captured.request_headers

abbrev sent_headers : Header
sent_headers = (codes "Authorization", codes "Bearer x" ∷ []) ∷ []

prepared_once :
    prepare (lab flaky) captured plain 0 ≡ done (second.prepared_request, sent_headers, codes "hi")
unfolding prepare stored_body target_url assemble redact_header redact_body prepare_headers
    remove_hop_by_hop_headers del_all header_del remove to_lower lower_byte upper_byte redact_values
    sensitive_header set_headers canonical_key is_token is_token_byte capitals
prepared_once = refl

prepare-IsSafe_example : IsSafe (lab flaky) plain second.prepared_request sent_headers (codes "hi")
prepare-IsSafe_example =
    prepare-IsSafe (lab flaky) captured plain 0 second.prepared_request sent_headers (codes "hi")
      prepared_once

abbrev variation : Variation
variation = record { name = codes "again"; overrides = plain; profile = []; profile_options = [] }

abbrev single : VariationResult
single = record {
  name = codes "again";
  result = record second { run = record second.run { attempts = 1 } };
}

one_variation :
    run_variations (lab flaky) (codes "flow_1") (variation ∷ []) (pos 0) 1 ≡ (done (single ∷ []), 2)
unfolding run_variations variations_loop variation_params variation_name run ◌>>=◌ look prepare
    stored_body target_url run_prepared send attempts finish yield attempt_loop assemble
    replay_profile attempts_of redact_header redact_body attempt_once prepare_headers
    record_replay_flow remove_hop_by_hop_headers del_all header_del remove to_lower lower_byte
    upper_byte redact_values sensitive_header replay_flow set_headers tag_all tag_replay
    canonical_key is_token is_token_byte capitals
one_variation = refl

run_variations-InOrder_example :
    ((variation ∷ []) ≢ [])
    × InOrder (lab flaky) (codes "flow_1") (pos 0) 0 (variation ∷ []) 1 (single ∷ []) 2
run_variations-InOrder_example =
    run_variations-InOrder (lab flaky) (codes "flow_1") (pos 0) (variation ∷ []) (single ∷ []) 1 2
      one_variation
