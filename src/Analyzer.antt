-- ===== src/Analyzer.antt =====
-- daemon/internal/auth/analyzer.go: what the captured flows of a session say of its authentication.
pub mod Artifacts
pub mod Classify
pub mod Sorting
pub mod Indexing
pub mod Trace
use deconstruct.Base.{ℕ, Text, Assoc, Option, List}
use deconstruct.Json.{Json}
use deconstruct.Redact.{Header}
use deconstruct.Store.{Flow}

-- a flow with the instant at which it was captured, 0 for the zero time
pub record Seen : Type 0 where
  pub flow : Flow
  pub created_at : ℕ

-- `kind` is the field Type
pub record AuthArtifact : Type 0 where
  pub id : Text
  pub kind : Text
  pub name : Text
  pub value_hash : Text
  pub source_flow_id : Text
  pub first_seen : ℕ
  pub last_seen : ℕ
  pub used_by_flow_ids : List Text
  pub locations : List Text
  pub storage : Text

pub record AuthCsrfLink : Type 0 where
  pub token_name : Text
  pub source_flow_id : Text
  pub used_by_flow_id : Text
  pub source : Text
  pub usage : Text

pub record AuthRefreshEndpoint : Type 0 where
  pub flow_id : Text
  pub url : Text
  pub method : Text
  pub status : ℕ
  pub artifacts : List Text
  pub confidence : Text

pub record AuthCheckpoint : Type 0 where
  pub flow_id : Text
  pub kind : Text
  pub reason : Text

pub record AuthFailure : Type 0 where
  pub flow_id : Text
  pub kind : Text
  pub status : ℕ
  pub reason : Text

pub record AuthChain : Type 0 where
  pub id : Text
  pub session_id : Text
  pub host : Text
  pub flow_ids : List Text
  pub artifacts : List AuthArtifact
  pub csrf_links : List AuthCsrfLink
  pub refresh_endpoints : List AuthRefreshEndpoint
  pub checkpoints : List AuthCheckpoint
  pub failures : List AuthFailure

pub record ObservedArtifact : Type 0 where
  pub kind : Text
  pub name : Text
  pub value : Text
  pub location : Text

-- The libraries: the cookies of a request and of a response in net/http, `encoding/json`, the path of
-- `url.Parse` where it succeeds, and SHA-256 in hexadecimal.
pub record Readers : Type 0 where
  pub request_cookies : Header → Assoc Text
  pub response_cookies : Header → Assoc Text
  pub unmarshal : Text → Option Json
  pub url_path : Text → Option Text
  pub digest : Text → Text
