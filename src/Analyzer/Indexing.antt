-- ===== src/Analyzer/Indexing.antt =====
-- The index of artifacts and the links between CSRF tokens.
use deconstruct.Base.{
  Text, codes, Assoc, Bool, true, false, not, ◌&&◌, ◌||◌, Option, none, some, List, [], ◌∷◌, ◌++◌,
  ◌==◌, ltb, is_empty, text_eq, member, lookup, insert, if◌then◌else◌,
}
use deconstruct.Analyzer.{Seen, AuthArtifact, AuthCsrfLink, ObservedArtifact, Readers}
use deconstruct.Analyzer.Artifacts.{is_csrf_name, fingerprint}

-- the artifacts by their keys
abbrev pub ArtifactIndex : Type 0
ArtifactIndex = Assoc AuthArtifact

module _ (readers : Readers) where
  -- the parts of a key are separated by a zero byte
  unfoldable pub artifact_key : ObservedArtifact → Text
  artifact_key observed =
      observed.kind ++ (0 ∷ (observed.name ++ (0 ∷ fingerprint readers observed.value)))

  -- an artifact that is seen for the first time; its identifier is a random one for each key
  unfoldable pub new_artifact : (Text → Text) → ObservedArtifact → Seen → AuthArtifact
  new_artifact fresh observed seen = record {
    id = fresh (artifact_key observed);
    kind = observed.kind;
    name = observed.name;
    value_hash = fingerprint readers observed.value;
    source_flow_id = [];
    first_seen = seen.created_at;
    last_seen = seen.created_at;
    used_by_flow_ids = [];
    locations = [];
    storage = codes "vault_ref";
  }

unfoldable pub add_location : Text → List Text → List Text
add_location location locations =
    if is_empty location || member location locations
    then locations
    else locations ++ (location ∷ [])

unfoldable pub note_source : Text → AuthArtifact → AuthArtifact
note_source flow_id artifact =
    if is_empty artifact.source_flow_id
    then record artifact { source_flow_id = flow_id }
    else artifact

unfoldable pub note_use : Text → AuthArtifact → AuthArtifact
note_use flow_id artifact =
    if member flow_id artifact.used_by_flow_ids
    then artifact
    else record artifact { used_by_flow_ids = artifact.used_by_flow_ids ++ (flow_id ∷ []) }

-- `mode` is true for a source
unfoldable pub see_again : ObservedArtifact → Seen → Bool → AuthArtifact → AuthArtifact
see_again observed seen mode artifact =
    let at = seen.created_at in
    let first =
      if ltb at artifact.first_seen || (artifact.first_seen == 0)
      then at
      else artifact.first_seen in
    let last = if ltb artifact.last_seen at then at else artifact.last_seen in
    let source =
      if mode && is_empty artifact.source_flow_id then seen.flow.id else artifact.source_flow_id in
    record artifact {
      first_seen = first;
      last_seen = last;
      source_flow_id = source;
      locations = add_location observed.location artifact.locations;
    }

-- an artifact that can be the source of a token with the hash
unfoldable pub is_csrf_source : Text → AuthArtifact → Bool
is_csrf_source hash artifact =
    text_eq artifact.value_hash hash
    && (not (is_empty artifact.source_flow_id)
        && (text_eq artifact.kind (codes "csrf_token") || is_csrf_name artifact.name))

-- Go walks the map in no fixed order; the model takes the order of the list.
unfoldable pub find_csrf_source : Text → ArtifactIndex → Option AuthArtifact
find_csrf_source hash [] = none
find_csrf_source hash ((key, artifact) ∷ index) =
    let rest = find_csrf_source hash index in
    if is_csrf_source hash artifact then some artifact else rest

unfoldable pub first_location : List Text → Text
first_location [] = []
first_location (l ∷ ls) = l

unfoldable pub csrf_link : ObservedArtifact → Text → AuthArtifact → List AuthCsrfLink
csrf_link observed flow_id source =
    if is_empty source.source_flow_id || text_eq source.source_flow_id flow_id
    then []
    else record {
      token_name = observed.name;
      source_flow_id = source.source_flow_id;
      used_by_flow_id = flow_id;
      source = first_location source.locations;
      usage = observed.location;
    }
      ∷ []

module _ (readers : Readers) (fresh : Text → Text) where
  -- the artifact that an index has for an observation afterwards
  unfoldable pub upserted : ObservedArtifact → Seen → Bool → ArtifactIndex → AuthArtifact
  upserted observed seen mode index =
      see_again observed seen mode (elim (lookup (artifact_key readers observed) index) [
        | none ↦ new_artifact readers fresh observed seen
        | some artifact ↦ artifact
      ])

  -- the loop over the artifacts of a response
  unfoldable pub index_sources : Seen → List ObservedArtifact → ArtifactIndex → ArtifactIndex
  index_sources seen [] index = index
  index_sources seen (observed ∷ rest) index = index_sources seen rest (
      insert (artifact_key readers observed)
        (note_source seen.flow.id (upserted observed seen true index)) index)

  -- the links that one artifact of a request gives
  unfoldable pub use_links :
      Seen → ObservedArtifact → AuthArtifact → ArtifactIndex → List AuthCsrfLink
  use_links seen observed artifact index =
      if is_csrf_name observed.name
      then (if is_empty artifact.source_flow_id
          then elim (find_csrf_source (fingerprint readers observed.value) index) [
            | none ↦ []
            | some source ↦ csrf_link observed seen.flow.id source
          ]
          else csrf_link observed seen.flow.id artifact)
      else []

  -- the loop over the artifacts of a request
  unfoldable pub index_uses :
      Seen
      → List ObservedArtifact
      → ArtifactIndex × List AuthCsrfLink
      → ArtifactIndex × List AuthCsrfLink
  index_uses seen [] (index, links) = (index, links)
  index_uses seen (observed ∷ rest) (index, links) =
      let artifact = note_use seen.flow.id (upserted observed seen false index) in
      let later = insert (artifact_key readers observed) artifact index in
      index_uses seen rest (later, links ++ use_links seen observed artifact later)
