-- ===== src/BodyParse/Examples.antt =====
-- Tests and instances of the theorems on bodies.
use deconstruct.Base.{
  ℕ, suc, ◌+◌, ◌-◌, ◌*◌, ◌^◌, ◌≤◌, ◌<◌, Text, codes, none, some, List, [], ◌∷◌, ◌++◌, ◌≡◌, ◌≢◌,
  refl, arith, length, map, All, contains, lookup, upper_byte, lower_byte, equal_fold, has_prefix,
  is_space, to_lower, trim_left, trim_right, trim_space, join,
}
use deconstruct.Base.Decimal.{decimal}
use deconstruct.BodyParse.Varint.{read_varint}
use deconstruct.BodyParse.Varint.RoundTrip.{varint, read_varint-varint, read_varint_bounds}
use deconstruct.BodyParse.Protobuf.{
  ProtobufField, stuck, read_value, parse_fields, finish, parse_body, parse_protobuf,
}
use deconstruct.BodyParse.Protobuf.Bounds.{IsGood, parse_body-IsGood}
use deconstruct.BodyParse.Protobuf.Panics.{HugeLength, parse_body-HugeLength, parse_protobuf_panics}
use deconstruct.BodyParse.Protobuf.RoundTrip.{
  Wire, number, bytes, payload, encode, shown, framed, parse_protobuf-encode, parse_protobuf-framed,
}
use deconstruct.Redact.{Header}
use deconstruct.BodyParse.Sse.{parse_sse}
use deconstruct.Json.{get_field}
use deconstruct.Replay.Headers.{
  header_get, header_values, canonical_key, is_token, is_token_byte, capitals,
}
use deconstruct.BodyParse.Formats.{graphql_from_form, decode_object, form_get, string_field}
use deconstruct.BodyParse.Sse.Lines.{Message, print_sse, meant, kept, drop_empty, IsLine, IsMessage}
use deconstruct.BodyParse.Sse.RoundTrip.{parse_sse-print_sse}
use deconstruct.BodyParse.Parse.{
  Formats, parse, tags, parse_fields_of, is_protobuf_type, is_grpc_type, selected, tag_tests,
  guess_json, guess_graphql, decode_body, is_compression, is_json_type, parse_form, parse_grpc,
  parse_json, parse_media, start,
}
use deconstruct.BodyParse.Parse.Tagging.{IsTagged, tags-IsTagged}

varint_300 : varint 300 ≡ 172 ∷ 2 ∷ []
unfolding varint
varint_300 = refl

read_300 : read_varint (172 ∷ 2 ∷ 7 ∷ []) ≡ some (300, 2)
unfolding read_varint
read_300 = refl

read_varint-varint_example : read_varint (varint 300 ++ (7 ∷ [])) ≡ some (300, length (varint 300))
read_varint-varint_example = read_varint-varint 300 (7 ∷ []) (omega arith)

read_varint_bounds_example : (300 < 2 ^ 64) × (0 < 2) × (2 ≤ 10) × (2 ≤ 3)
read_varint_bounds_example = read_varint_bounds (172 ∷ 2 ∷ 7 ∷ []) 300 2 (omega arith) read_300

-- field 1 is 150, field 2 the text "testing"
abbrev message : List (ℕ × Wire)
message = (1, number 150) ∷ (2, bytes (codes "testing")) ∷ []

abbrev message_bytes : Text
message_bytes = 8 ∷ 150 ∷ 1 ∷ 18 ∷ 7 ∷ codes "testing"

encode-message : encode message ≡ message_bytes
unfolding encode payload varint
encode-message = refl

parse_message :
    parse_protobuf message_bytes
    ≡ some (
        some (
          record { number = 1; wire_type = 0; value = codes "150" }
          ∷ record { number = 2; wire_type = 2; value = codes "testing" }
          ∷ []))
unfolding parse_protobuf read_value read_varint decimal parse_fields
parse_message = refl

length-message : length (encode message) ≡ 12
unfolding encode payload varint
length-message = refl

parse_protobuf-encode_example : parse_protobuf (encode message) ≡ some (some (map shown message))
parse_protobuf-encode_example =
    parse_protobuf-encode (1, number 150) ((2, bytes (codes "testing")) ∷ []) (omega arith)
      (omega arith) (omega (arith, length-message))

parse_protobuf-framed_example : parse_protobuf (framed 0 message_bytes) ≡ parse_body message_bytes
parse_protobuf-framed_example =
    parse_protobuf-framed 0 message_bytes (omega arith) (omega arith) (omega arith)

parse_body-IsGood_example :
    (parse_fields (suc (length message_bytes)) message_bytes 0 [] ≢ stuck)
    × ((fs : List ProtobufField) → parse_body message_bytes ≡ some (some fs) → IsGood fs)
parse_body-IsGood_example = parse_body-IsGood message_bytes (omega arith)

-- key of field 1 with wire type 2, then the varint of 2^63 - 1
abbrev huge : Text
huge = 10 ∷ 255 ∷ 255 ∷ 255 ∷ 255 ∷ 255 ∷ 255 ∷ 255 ∷ 255 ∷ 127 ∷ []

parse_huge : parse_body huge ≡ none
unfolding parse_body parse_fields read_value read_varint finish
parse_huge = refl

parse_body-HugeLength_example : HugeLength huge
parse_body-HugeLength_example = parse_body-HugeLength huge (omega arith) parse_huge

parse_protobuf_panics_example :
    parse_protobuf (varint (1 * 8 + 2) ++ (varint (2 ^ 63 - 1) ++ [])) ≡ none
unfolding varint
parse_protobuf_panics_example =
    parse_protobuf_panics 1 (2 ^ 63 - 1) [] (omega arith) (omega arith) (omega arith)

-- one message with an empty line ahead of its data and one within, and one of empty lines alone
abbrev messages : List Message
messages =
    record { event = codes "t"; id = []; lines = [] ∷ codes "a" ∷ [] ∷ codes "b" ∷ [] }
    ∷ record { event = []; id = []; lines = [] ∷ [] ∷ [] }
    ∷ record { event = []; id = codes "7"; lines = codes "c" ∷ [] }
    ∷ []

letter : (c : ℕ) → c ≢ 10 → c ≢ 13 → IsLine (c ∷ [])
letter c h g = ((h, tt), (g, tt))

messages-IsMessage : All IsMessage messages
messages-IsMessage = (
  (
    letter b't' (omega arith) (omega arith),
    (tt, tt),
    (
      (tt, tt),
      (
        letter b'a' (omega arith) (omega arith),
        ((tt, tt), (letter b'b' (omega arith) (omega arith), tt)),
      ),
    ),
  ),
  (
    ((tt, tt), (tt, tt), ((tt, tt), ((tt, tt), tt))),
    (
      (
        (tt, tt),
        letter b'7' (omega arith) (omega arith),
        (letter b'c' (omega arith) (omega arith), tt),
      ),
      tt,
    ),
  ),
)

parse_sse-print_sse_example :
    parse_sse (print_sse messages)
    ≡ record { event = codes "t"; id = []; content = codes "a\n\nb" }
      ∷ record { event = []; id = codes "7"; content = codes "c" }
      ∷ []
unfolding meant join kept drop_empty
parse_sse-print_sse_example = parse_sse-print_sse messages messages-IsMessage

-- libraries that know one media type and one form, no compression and no JSON
abbrev plain : Formats
plain = record {
  inflate = λ encoding body. none;
  media_type = λ t. (codes "application/x-www-form-urlencoded", []);
  unmarshal = λ body. none;
  parse_query = λ body. some ((codes "a", codes "1" ∷ []) ∷ []);
  parts = λ body boundary. [];
}

abbrev form_headers : Header
form_headers =
    (codes "Content-Type", codes "F" ∷ []) ∷ (codes "Content-Encoding", codes "br" ∷ []) ∷ []

form_tags : tags plain form_headers (codes "a=1") ≡ some (codes "form" ∷ codes "compressed" ∷ [])
unfolding tags parse parse_fields_of is_protobuf_type is_grpc_type selected tag_tests guess_json
    guess_graphql decode_body is_compression is_json_type parse_form parse_grpc parse_json
    parse_media start contains header_get header_values lookup canonical_key is_token is_token_byte
    capitals upper_byte lower_byte equal_fold has_prefix is_space to_lower trim_left trim_right
    trim_space graphql_from_form decode_object form_get get_field string_field
form_tags = refl

tags-IsTagged_example :
    IsTagged plain form_headers (codes "a=1") (codes "form" ∷ codes "compressed" ∷ [])
tags-IsTagged_example = tags-IsTagged plain form_headers (codes "a=1") _ form_tags
