-- ===== src/BodyParse/Parse.antt =====
-- `Parse`, `Decode` and `Tags` of daemon/internal/bodyparse/bodyparse.go.
pub mod Settled
pub mod Tagging
use deconstruct.Base.{
  ℕ, Text, codes, Assoc, Bool, true, false, not, ◌&&◌, ◌||◌, Option, none, some, List, [], ◌∷◌,
  ◌++◌, lookup, is_empty, has_prefix, contains, to_lower, trim_space, equal_fold, text_eq,
  if◌then◌else◌,
}
use deconstruct.Json.{Json, Fields, null, obj}
use deconstruct.Redact.{Header}
use deconstruct.Replay.Headers.{header_get}
use deconstruct.BodyParse.Protobuf.{ProtobufField, parse_protobuf}
use deconstruct.BodyParse.Sse.{SseEvent, parse_sse}
use deconstruct.BodyParse.Formats.{
  GraphQl, Grpc, graphql_from_json, graphql_from_form, grpc_from_headers, decode_object,
}

pub record MultipartPart : Type 0 where
  pub name : Text
  pub file_name : Text
  pub content_type : Text
  pub size : ℕ

pub record Parsed : Type 0 where
  pub content_type : Text
  pub encoding : Text
  pub text : Text
  pub json : Option Json
  pub form : Option (Assoc (List Text))
  pub multipart : List MultipartPart
  pub graphql : Option GraphQl
  pub sse : List SseEvent
  pub grpc : Option Grpc
  pub protobuf : Option (List ProtobufField)

-- The libraries: `inflate` is the reader of a compression, where there is one for its name, and `none`
-- of it an error; `media_type` is `mime.ParseMediaType`; `parts` reads a multipart body up to the
-- first error.
pub record Formats : Type 0 where
  pub inflate : Text → Text → Option Text
  pub media_type : Text → Text × Assoc Text
  pub unmarshal : Text → Option Json
  pub parse_query : Text → Option (Assoc (List Text))
  pub parts : Text → Text → List MultipartPart

-- the three encodings that `Decode` knows
unfoldable pub is_compression : Text → Bool
is_compression encoding =
    text_eq encoding (codes "gzip")
    || (text_eq encoding (codes "br") || text_eq encoding (codes "zstd"))

unfoldable pub is_grpc_type : Text → Bool
is_grpc_type media =
    has_prefix media (codes "application/grpc") || contains media (codes "grpc-web")

unfoldable pub is_protobuf_type : Text → Bool
is_protobuf_type media = contains media (codes "protobuf") || is_grpc_type media

unfoldable pub is_json_type : Text → Bool
is_json_type media =
    text_eq media (codes "application/json")
    || text_eq media (codes "application/graphql-response+json")

-- a nil interface is no value
unfoldable pub non_null : Json → Option Json
non_null null = none
non_null v = some v

unfoldable pub set_json : Json → Parsed → Parsed
set_json (obj fs) p = record p { json = some (obj fs); graphql = graphql_from_json fs }
set_json v p = record p { json = non_null v }

abbrev pub is_some : {A : Type 0} → Option A → Bool
is_some none = false
is_some (some a) = true

abbrev pub is_cons : {A : Type 0} → List A → Bool
is_cons [] = false
is_cons (x ∷ xs) = true

abbrev pub is_web : Option Grpc → Bool
is_web none = false
is_web (some g) = g.web

abbrev pub has_fields : Option (List ProtobufField) → Bool
has_fields none = false
has_fields (some fields) = is_cons fields

-- each tag with its test
unfoldable pub tag_tests : Header → Parsed → Assoc Bool
tag_tests headers p =
    (codes "graphql", is_some p.graphql)
    ∷ (codes "multipart", is_cons p.multipart)
    ∷ (codes "form", is_some p.form)
    ∷ (codes "sse", is_cons p.sse || equal_fold p.content_type (codes "text/event-stream"))
    ∷ (codes "grpc", is_some p.grpc)
    ∷ (codes "grpc_web", is_web p.grpc)
    ∷ (codes "protobuf", has_fields p.protobuf)
    ∷ (codes "compressed", not (is_empty p.encoding))
    ∷ (codes "websocket", equal_fold (header_get (codes "Upgrade") headers) (codes "websocket"))
    ∷ []

-- the tags whose test holds: the keys of the map `tags`
unfoldable pub selected : Assoc Bool → List Text
selected [] = []
selected ((tag, test) ∷ tests) = let rest = selected tests in if test then tag ∷ rest else rest

unfoldable pub parse_grpc : Text → Header → Parsed → Parsed
parse_grpc media headers p =
    if is_grpc_type media then record p { grpc = some (grpc_from_headers headers) } else p

-- the fields of a protobuf message, `none` where the parser panics
unfoldable pub parse_fields_of : Text → Text → Option (Option (List ProtobufField))
parse_fields_of media decoded = if is_protobuf_type media then parse_protobuf decoded else some none

module _ (formats : Formats) where
  unfoldable pub decode_body : Header → Text → Text × Text
  decode_body headers body =
      let encoding = to_lower (trim_space (header_get (codes "Content-Encoding") headers)) in
      if is_compression encoding
      then (elim (formats.inflate encoding body) [ none ↦ body | some decoded ↦ decoded ], encoding)
      else (body, encoding)

  -- `parseJSON`
  unfoldable pub parse_json : Text → Parsed → Parsed
  parse_json body p = elim (formats.unmarshal body) [ none ↦ p | some v ↦ set_json v p ]

  unfoldable pub parse_form : Text → Parsed → Parsed
  parse_form body p = elim (formats.parse_query body) [
    | none ↦ p
    | some values ↦ record p {
      form = some values;
      graphql = graphql_from_form formats.unmarshal values;
    }
  ]

  unfoldable pub parse_multipart : Text → Text → List MultipartPart
  parse_multipart body boundary = if is_empty boundary then [] else formats.parts body boundary

  abbrev pub boundary_of : Assoc Text → Text
  boundary_of params = elim (lookup (codes "boundary") params) [ none ↦ [] | some b ↦ b ]

  -- the switch on the media type
  unfoldable pub parse_media : Text → Assoc Text → Text → Parsed → Parsed
  parse_media media params decoded p =
      if is_json_type media
      then parse_json decoded p
      else if text_eq media (codes "application/x-www-form-urlencoded")
      then parse_form decoded p
      else if text_eq media (codes "multipart/form-data")
      then record p { multipart = parse_multipart decoded (boundary_of params) }
      else if text_eq media (codes "text/event-stream")
      then record p { sse = parse_sse decoded }
      else p

  -- GraphQL in a body of another type, where there is none yet
  unfoldable pub guess_graphql : Text → Parsed → Parsed
  guess_graphql decoded p = elim p.graphql [
    | some g ↦ p
    | none ↦
        if contains (to_lower p.text) (codes "query")
        then elim (decode_object formats.unmarshal decoded) [
          | none ↦ p
          | some fs ↦ record p { graphql = graphql_from_json fs }
        ]
        else p
  ]

  unfoldable pub guess_json : Text → Parsed → Parsed
  guess_json decoded p = elim p.json [ some v ↦ p | none ↦ parse_json decoded p ]

  unfoldable pub start : Header → Text → Parsed
  start headers body =
      let (decoded, encoding) = decode_body headers body in
      record {
        content_type = (formats.media_type (header_get (codes "Content-Type") headers)).0;
        encoding = encoding;
        text = decoded;
        json = none;
        form = none;
        multipart = [];
        graphql = none;
        sse = [];
        grpc = none;
        protobuf = none;
      }

  -- `none` is a panic
  unfoldable pub parse : Header → Text → Option Parsed
  parse headers body =
      let (media, params) = formats.media_type (header_get (codes "Content-Type") headers) in
      let p = start headers body in
      let decoded = p.text in
      let q = parse_grpc media headers (parse_media media params decoded p) in
      elim (parse_fields_of media decoded) [
        | none ↦ none
        | some fields ↦
            some (guess_json decoded (guess_graphql decoded (record q { protobuf = fields })))
      ]

  -- Go gives the tags in no fixed order. `none` is a panic.
  unfoldable pub tags : Header → Text → Option (List Text)
  tags headers body = elim (parse headers body) [
    | none ↦ none
    | some p ↦ some (selected (tag_tests headers p))
  ]
