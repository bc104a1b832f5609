-- ===== src/Fidelity.antt =====
-- `Diagnose` of daemon/internal/fidelity/fidelity.go: which replay profile suits a flow.
pub mod Advice
mod Examples
use deconstruct.Base.{
  Text, codes, Bool, true, false, ◌||◌, not, List, [], ◌∷◌, ◌++◌, contains, to_lower, is_empty,
  member, if◌then◌else◌,
}
use deconstruct.Redact.{Header}
use deconstruct.Store.{Flow, Result, done, failed}
use deconstruct.Replay.Headers.{header_get}

pub record Diagnostics : Type 0 where
  pub flow_id : Text
  pub recommended : Text
  pub warnings : List Text
  pub observed_tags : List Text
  pub visibility : Text
  pub fidelity_tradeoff : Text

pub record TagStore (W : Type 0) : Type 0 where
  pub get_flow : Text → W → Result Flow
  pub flow_tags : Text → W → Result (List Text)

-- the answer before the switch
unfoldable pub standard : Flow → List Text → Diagnostics
standard flow tags = record {
  flow_id = flow.id;
  recommended = codes "standard";
  warnings = [];
  observed_tags = tags;
  visibility = codes "request_response";
  fidelity_tradeoff =
      codes "standard replay is fast but does not preserve the original client TLS handshake";
}

unfoldable pub is_streaming : List Text → Bool
is_streaming tags = member (codes "websocket") tags || member (codes "sse") tags

unfoldable pub is_binary : List Text → Bool
is_binary tags = member (codes "grpc") tags || member (codes "protobuf") tags

unfoldable pub is_interactive : Text → Bool
is_interactive url =
    contains url (codes "login") || (contains url (codes "mfa") || contains url (codes "sso"))

unfoldable pub has_credentials : Header → Bool
has_credentials headers =
    not (is_empty (header_get (codes "Authorization") headers))
    || not (is_empty (header_get (codes "Cookie") headers))

-- the switch
unfoldable pub advise : Flow → List Text → Diagnostics
advise flow tags =
    let plain = standard flow tags in
    if is_streaming tags
    then record plain {
      recommended = codes "browser";
      fidelity_tradeoff =
          codes "browser replay preserves browser network behavior for streaming flows";
    }
    else if is_binary tags
    then record plain {
      warnings = codes "gRPC/protobuf replay may require proto schemas or reflection" ∷ [];
    }
    else if is_interactive (to_lower flow.url)
    then record plain {
      recommended = codes "passthrough";
      visibility = codes "metadata";
      warnings =
          codes "interactive auth endpoints should use checkpoints or passthrough validation" ∷ [];
    }
    else if has_credentials flow.request_headers
    then record plain {
      recommended = codes "utls";
      warnings = codes "auth-bearing replay should use a profile and secret vault material" ∷ [];
    }
    else plain

unfoldable pub tags_for_flow : {W : Type 0} → TagStore W → Text → W → List Text
tags_for_flow store flow_id w = elim (store.flow_tags flow_id w) [
  | failed e ↦ []
  | done tags ↦ tags
]

unfoldable pub diagnose : {W : Type 0} → TagStore W → Text → W → Result Diagnostics
diagnose store flow_id w = elim (store.get_flow flow_id w) [
  | failed e ↦ failed e
  | done flow ↦ done (advise flow (tags_for_flow store flow_id w))
]

pub record Profile : Type 0 where
  pub id : Text
  pub name : Text
  pub mode : Text
  pub description : Text
  pub visibility : Text
  pub fidelity : Text
  pub protocols : List Text

abbrev pub profiles : List Profile
profiles =
    record {
      id = codes "standard";
      name = codes "Standard replay";
      mode = codes "http_client";
      description = codes "Fast local replay through the Go HTTP client.";
      visibility = codes "request_response";
      fidelity = codes "normal";
      protocols = codes "http1" ∷ codes "http2" ∷ [];
    }
    ∷ record {
      id = codes "browser";
      name = codes "Browser replay";
      mode = codes "browser";
      description = codes "Replay through a browser-controlled network stack.";
      visibility = codes "browser_observed";
      fidelity = codes "highest";
      protocols = codes "http1" ∷ codes "http2" ∷ codes "websocket" ∷ codes "sse" ∷ [];
    }
    ∷ record {
      id = codes "utls";
      name = codes "uTLS replay";
      mode = codes "utls";
      description =
          codes
            "Executes HTTPS requests through uTLS with selectable browser ClientHello profiles.";
      visibility = codes "request_response";
      fidelity = codes "high";
      protocols = codes "http1" ∷ [];
    }
    ∷ record {
      id = codes "curl_impersonate";
      name = codes "curl-impersonate replay";
      mode = codes "external";
      description = codes "Executes requests through a curl-impersonate compatible binary.";
      visibility = codes "request_response";
      fidelity = codes "high";
      protocols = codes "http1" ∷ codes "http2" ∷ [];
    }
    ∷ record {
      id = codes "passthrough";
      name = codes "Passthrough validation";
      mode = codes "metadata_only";
      description =
          codes
            "Records a validation run without sending a replay request to sensitive or pinned endpoints.";
      visibility = codes "metadata";
      fidelity = codes "original_client";
      protocols = [];
    }
    ∷ []
