-- ===== src/BodyParse/Parse/Settled.antt =====
-- What the passes of `Parse` leave alone, and what its switch on the media type gives.
use deconstruct.Base.{
  Text, codes, Assoc, true, false, ◌&&◌, ◌||◌, Option, List, ◌≡◌, refl, sym, ap, inl, inr,
  Bool-cases, Option-cases, text_eq, text_eq_sound, to_lower, trim_space, contains,
}
use mathlib.Core.Path.{subst}
use deconstruct.Json.{Json, null, bool, num, str, arr, obj}
use deconstruct.Redact.{Header}
use deconstruct.Replay.Headers.{header_get}
use deconstruct.BodyParse.Protobuf.{ProtobufField}
use deconstruct.BodyParse.Sse.{SseEvent, parse_sse}
use deconstruct.BodyParse.Formats.{Grpc, decode_object}
use deconstruct.BodyParse.Parse.{
  Formats, Parsed, MultipartPart, is_compression, is_json_type, set_json, decode_body, parse_json,
  parse_form, parse_multipart, boundary_of, parse_media, guess_graphql, guess_json, start, is_some,
  is_cons,
}

-- what the guesses at the end of `Parse` leave alone
abbrev pub Settled : Type 0
Settled =
    Text
    × Text
    × Option (Assoc (List Text))
    × List MultipartPart
    × List SseEvent
    × Option Grpc
    × Option (List ProtobufField)

abbrev pub settled : Parsed → Settled
settled p = (p.content_type, p.encoding, p.form, p.multipart, p.sse, p.grpc, p.protobuf)

set_json-settled : (v : Json) (p : Parsed) → settled (set_json v p) ≡ settled p
unfolding set_json
set_json-settled null p = refl
set_json-settled (bool b) p = refl
set_json-settled (num n) p = refl
set_json-settled (str s) p = refl
set_json-settled (arr vs) p = refl
set_json-settled (obj fs) p = refl

module _ (formats : Formats) where
  parse_json-settled : (body : Text) (p : Parsed) → settled (parse_json formats body p) ≡ settled p
  unfolding parse_json
  parse_json-settled body p = elim (Option-cases (formats.unmarshal body)) [
    | inl e ↦ rw (e, parse_json) refl
    | inr (v, e) ↦ rw (e, parse_json) (set_json-settled v p)
  ]

  pub guess_json-settled :
      (body : Text) (p : Parsed) → settled (guess_json formats body p) ≡ settled p
  unfolding guess_json
  guess_json-settled body p = elim (Option-cases p.json) [
    | inl e ↦ rw (e, guess_json) (parse_json-settled body p)
    | inr (v, e) ↦ rw (e, guess_json) refl
  ]

  pub guess_graphql-settled :
      (body : Text) (p : Parsed) → settled (guess_graphql formats body p) ≡ settled p
  unfolding guess_graphql
  guess_graphql-settled body p = elim (Option-cases p.graphql) [
    | inr (g, e) ↦ rw (e, guess_graphql) refl
    | inl e ↦ elim (Bool-cases (contains (to_lower p.text) (codes "query"))) [
      | inr f ↦ rw (e, f, guess_graphql) refl
      | inl f ↦ elim (Option-cases (decode_object formats.unmarshal body)) [
        | inl d ↦ rw (e, f, d, guess_graphql) refl
        | inr (fs, d) ↦ rw (e, f, d, guess_graphql) refl
      ]
    ]
  ]

  module _ (headers : Header) (body : Text) (params : Assoc Text) (decoded : Text) where
    abbrev pub p0 : Parsed
    p0 = start formats headers body

    -- the form, the parts and the events that the media type gives
    abbrev pub MediaFields : Text → Type 0
    MediaFields media =
        (is_some (parse_media formats media params decoded p0).form ≡ (
          text_eq media (codes "application/x-www-form-urlencoded")
          && is_some (formats.parse_query decoded)))
        × (is_cons (parse_media formats media params decoded p0).multipart ≡ (
            text_eq media (codes "multipart/form-data")
            && is_cons (parse_multipart formats decoded (boundary_of formats params))))
        × (is_cons (parse_media formats media params decoded p0).sse
            ≡ (text_eq media (codes "text/event-stream") && is_cons (parse_sse decoded)))

    json_fields :
        (media : Text)
        → parse_media formats media params decoded p0 ≡ parse_json formats decoded p0
        → text_eq media (codes "application/x-www-form-urlencoded") ≡ false
        → text_eq media (codes "multipart/form-data") ≡ false
        → text_eq media (codes "text/event-stream") ≡ false
        → MediaFields media
    unfolding start
    json_fields media e f g h =
        let s = parse_json-settled decoded p0 in
        (
          rw (e, f) (ap (λ x. is_some (x.2)) s),
          rw (e, g) (ap (λ x. is_cons (x.3)) s),
          rw (e, h) (ap (λ x. is_cons (x.4)) s),
        )

    form_fields : MediaFields (codes "application/x-www-form-urlencoded")
    unfolding start parse_media parse_form is_json_type
    form_fields = elim (Option-cases (formats.parse_query decoded)) [
      | inl e ↦ rw (e, parse_media, parse_form, is_some, is_cons) (refl, refl, refl)
      | inr (v, e) ↦ rw (e, parse_media, parse_form, is_some, is_cons) (refl, refl, refl)
    ]

    multipart_fields : MediaFields (codes "multipart/form-data")
    unfolding start parse_media is_json_type
    multipart_fields = (refl, refl, refl)

    sse_fields : MediaFields (codes "text/event-stream")
    unfolding start parse_media is_json_type
    sse_fields = (refl, refl, refl)

    media_is : (media t : Text) → text_eq media t ≡ true → MediaFields t → MediaFields media
    media_is media t e h = subst MediaFields (sym (text_eq_sound media t e)) h

    pub parse_media-fields : (media : Text) → MediaFields media
    unfolding parse_media is_json_type start
    parse_media-fields media = elim (Bool-cases (text_eq media (codes "application/json"))) [
      | inl e ↦ media_is media _ e (json_fields (codes "application/json") refl refl refl refl)
      | inr j ↦ elim (Bool-cases (text_eq media (codes "application/graphql-response+json"))) [
        | inl e ↦
            media_is media _ e
              (json_fields (codes "application/graphql-response+json") refl refl refl refl)
        | inr k ↦ elim (Bool-cases (text_eq media (codes "application/x-www-form-urlencoded"))) [
          | inl e ↦ media_is media _ e form_fields
          | inr f ↦ elim (Bool-cases (text_eq media (codes "multipart/form-data"))) [
            | inl e ↦ media_is media _ e multipart_fields
            | inr g ↦ elim (Bool-cases (text_eq media (codes "text/event-stream"))) [
              | inl e ↦ media_is media _ e sse_fields
              | inr h ↦ rw (j, k, f, g, h, parse_media, is_json_type, ◌||◌) (refl, refl, refl)
            ]
          ]
        ]
      ]
    ]

  abbrev pub Kept : Type 0
  Kept = Text × Text × Option Grpc

  abbrev pub kept : Parsed → Kept
  kept p = (p.content_type, p.encoding, p.grpc)

  parse_form-kept : (body : Text) (p : Parsed) → kept (parse_form formats body p) ≡ kept p
  unfolding parse_form
  parse_form-kept body p = elim (Option-cases (formats.parse_query body)) [
    | inl e ↦ rw (e, parse_form) refl
    | inr (v, e) ↦ rw (e, parse_form) refl
  ]

  pub parse_media-kept :
      (media : Text) (params : Assoc Text) (decoded : Text) (p : Parsed)
      → kept (parse_media formats media params decoded p) ≡ kept p
  unfolding parse_media
  parse_media-kept media params decoded p = elim (Bool-cases (is_json_type media)) [
    | inl e ↦ rw (e, parse_media) (ap (λ x. (x.0, x.1, x.5)) (parse_json-settled decoded p))
    | inr n ↦ elim (Bool-cases (text_eq media (codes "application/x-www-form-urlencoded"))) [
      | inl e ↦ rw (n, e, parse_media) (parse_form-kept decoded p)
      | inr f ↦ elim (Bool-cases (text_eq media (codes "multipart/form-data"))) [
        | inl e ↦ rw (n, f, e, parse_media) refl
        | inr g ↦ elim (Bool-cases (text_eq media (codes "text/event-stream"))) [
          | inl e ↦ rw (n, f, g, e, parse_media) refl
          | inr h ↦ rw (n, f, g, h, parse_media) refl
        ]
      ]
    ]
  ]

  pub decode_body-encoding :
      (headers : Header) (body : Text)
      → (decode_body formats headers body).1
        ≡ to_lower (trim_space (header_get (codes "Content-Encoding") headers))
  unfolding decode_body
  decode_body-encoding headers body =
      let encoding = to_lower (trim_space (header_get (codes "Content-Encoding") headers)) in
      elim (Bool-cases (is_compression encoding)) [
        | inl e ↦ rw (e, decode_body) refl
        | inr e ↦ rw (e, decode_body) refl
      ]
