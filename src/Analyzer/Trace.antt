-- ===== src/Analyzer/Trace.antt =====
-- `Trace`: the loop over the flows, and the chain that comes of it.
pub mod Index
pub mod Links
pub mod Chain
mod Examples
use deconstruct.Base.{
  ℕ, Text, codes, Assoc, Bool, true, false, not, ◌&&◌, ◌||◌, Option, none, some, List, [], ◌∷◌,
  ◌++◌, ◌==◌, ltb, is_empty, text_eq, member, lookup, insert, if◌then◌else◌,
}
use deconstruct.Action.{Action, ◌>>=◌, fail, yield, look}
use deconstruct.Store.{Flow, Result, done, failed}
use deconstruct.Analyzer.{
  Seen, AuthArtifact, AuthCsrfLink, AuthChain, AuthRefreshEndpoint, AuthCheckpoint, AuthFailure,
  ObservedArtifact, Readers,
}
use deconstruct.Analyzer.Artifacts.{
  is_csrf_name, request_artifacts, response_artifacts, fingerprint,
}
use deconstruct.Analyzer.Indexing.{ArtifactIndex, index_sources, index_uses}
use deconstruct.Analyzer.Classify.{
  sort_by, text_less, sort_strings, refresh_endpoint, interactive_checkpoint, classify_failure,
}

pub record TraceParams : Type 0 where
  pub session_id : Text
  pub host : Text
  pub flow_ids : List Text
  pub save : Option Bool

unfoldable pub some_of : {A : Type 0} → Option A → List A
some_of none = []
some_of (some a) = a ∷ []

abbrev pub link_key : AuthCsrfLink → Text
link_key link = link.token_name ++ (0 ∷ (link.source_flow_id ++ (0 ∷ link.used_by_flow_id)))

unfoldable pub unique_csrf_links : List Text → List AuthCsrfLink → List AuthCsrfLink
unique_csrf_links seen [] = []
unique_csrf_links seen (link ∷ links) = elim (member (link_key link) seen) [
  | true ↦ unique_csrf_links seen links
  | false ↦ link ∷ unique_csrf_links (link_key link ∷ seen) links
]

unfoldable pub artifact_less : AuthArtifact → AuthArtifact → Bool
artifact_less a b =
    if a.first_seen == b.first_seen then text_less a.name b.name else ltb a.first_seen b.first_seen

abbrev pub values_of : {V : Type 0} → Assoc V → List V
values_of [] = []
values_of ((k, v) ∷ m) = v ∷ values_of m

unfoldable pub tidy : List AuthArtifact → List AuthArtifact
tidy [] = []
tidy (a ∷ artifacts) =
    record a {
      used_by_flow_ids = sort_strings a.used_by_flow_ids;
      locations = sort_strings a.locations;
    }
    ∷ tidy artifacts

unfoldable pub sorted : ArtifactIndex → List AuthArtifact
sorted index = sort_by artifact_less (values_of index)

-- what the loop over the flows collects
pub record Tracing : Type 0 where
  pub index : ArtifactIndex
  pub flow_ids : List Text
  pub csrf_links : List AuthCsrfLink
  pub refresh_endpoints : List AuthRefreshEndpoint
  pub checkpoints : List AuthCheckpoint
  pub failures : List AuthFailure

abbrev pub no_tracing : Tracing
no_tracing = record {
  index = [];
  flow_ids = [];
  csrf_links = [];
  refresh_endpoints = [];
  checkpoints = [];
  failures = [];
}

module _ (readers : Readers) (fresh : Text → Text) (body_of : Text → Text) where
  unfoldable pub trace_flow : Seen → Tracing → Tracing
  trace_flow seen t =
      let flow = seen.flow in
      let request_body = body_of flow.request_blob in
      let response_body = body_of flow.response_blob in
      let sources =
        index_sources readers fresh seen
          (response_artifacts readers flow.response_headers response_body) t.index in
      let (index, links) =
        index_uses readers fresh seen (request_artifacts readers flow.request_headers request_body)
          (sources, t.csrf_links) in
      record {
        index = index;
        flow_ids = t.flow_ids ++ (flow.id ∷ []);
        csrf_links = links;
        refresh_endpoints =
            t.refresh_endpoints
            ++ some_of (refresh_endpoint readers flow flow.response_headers response_body);
        checkpoints =
            t.checkpoints
            ++ some_of (interactive_checkpoint flow flow.response_headers response_body);
        failures =
            t.failures ++ some_of (classify_failure flow flow.response_headers response_body);
      }

  unfoldable pub trace_flows : List Seen → Tracing → Tracing
  trace_flows [] t = t
  trace_flows (seen ∷ flows) t = trace_flows flows (trace_flow seen t)

-- the chain of a session, from what the loop collected
unfoldable pub chain_of : Text → Text → Text → Tracing → AuthChain
chain_of id session_id host t = record {
  id = id;
  session_id = session_id;
  host = host;
  flow_ids = t.flow_ids;
  artifacts = tidy (sorted t.index);
  csrf_links = unique_csrf_links [] t.csrf_links;
  refresh_endpoints = t.refresh_endpoints;
  checkpoints = t.checkpoints;
  failures = t.failures;
}

-- The store: `query_flows` gives the identifiers of at most 1000 flows of a session and a host, the
-- oldest first.
pub record AuthStore (W : Type 0) : Type 0 where
  pub get_flow : Text → W → Result Seen
  pub query_flows : Text → Text → W → Result (List Text)
  pub save_auth_chain : AuthChain → Action W Unit
  pub blob_get : Text → W → Result Text
  pub new_id : Text → Action W Text

unfoldable pub before : Seen → Seen → Bool
before a b = ltb a.created_at b.created_at

unfoldable pub saves : Option Bool → Bool
saves none = true
saves (some b) = b

unfoldable pub or_else : Text → Text → Text
or_else s t = if is_empty s then t else s

module _ {W : Type 0} (store : AuthStore W) where
  -- one flow after the other, up to the first error
  unfoldable pub get_flows : List Text → W → Result (List Seen)
  get_flows [] w = done []
  get_flows (id ∷ ids) w = elim (store.get_flow id w) [
    | failed e ↦ failed e
    | done seen ↦ elim (get_flows ids w) [ failed e ↦ failed e | done flows ↦ done (seen ∷ flows) ]
  ]

  unfoldable pub load_flows : TraceParams → W → Result (List Seen)
  load_flows params w = elim params.flow_ids [
    | id ∷ ids ↦ elim (get_flows (id ∷ ids) w) [
      | failed e ↦ failed e
      | done flows ↦ done (sort_by before flows)
    ]
    | [] ↦ elim (store.query_flows params.session_id params.host w) [
      | failed e ↦ failed e
      | done ids ↦ get_flows ids w
    ]
  ]

  unfoldable pub body : W → Text → Text
  body w hash =
      if is_empty hash then [] else elim (store.blob_get hash w) [ failed e ↦ [] | done b ↦ b ]

  unfoldable pub save_chain : TraceParams → AuthChain → Action W AuthChain
  save_chain params chain =
      if saves params.save then (do _ ← store.save_auth_chain chain; yield chain) else yield chain

  -- the rest of `Trace`, once the flows are there
  unfoldable pub trace_loaded :
      Readers → (Text → Text) → TraceParams → List Seen → Action W AuthChain
  trace_loaded readers fresh params [] = fail (codes "no flows matched auth trace")
  trace_loaded readers fresh params (seen ∷ flows) = do
    id ← store.new_id (codes "auth_chain")
    λ w.
        save_chain params
          (chain_of id (or_else params.session_id seen.flow.session_id)
            (or_else params.host seen.flow.host)
            (trace_flows readers fresh (body w) (seen ∷ flows) no_tracing))
          w

  unfoldable pub trace : Readers → (Text → Text) → TraceParams → Action W AuthChain
  trace readers fresh params w = elim (load_flows params w) [
    | failed e ↦ (failed e, w)
    | done flows ↦ trace_loaded readers fresh params flows w
  ]
