-- ===== src/BodyParse/Parse/Tagging.antt =====
-- Which tags `Tags` gives to a body, as a function of its headers and its decoded text.
use deconstruct.Base.{
  Distinct, Text, codes, Assoc, Bool, true, false, not, ◌&&◌, ◌||◌, Option, none, some, List, [],
  ◌∷◌, ◌≡◌, refl, sym, ◌∙◌, ap, inl, inr, arith, Bool-cases, Option-cases, lookup, keys, member,
  is_empty, equal_fold, text_eq, text_eq_sound, to_lower, trim_space, contains,
}
use mathlib.Core.Path.{subst}
use deconstruct.Redact.{Header}
use deconstruct.Replay.Headers.{header_get}
use deconstruct.BodyParse.Protobuf.{ProtobufField}
use deconstruct.BodyParse.Sse.{parse_sse}
use deconstruct.BodyParse.Formats.{grpc_from_headers}
use deconstruct.BodyParse.Parse.{
  Formats, Parsed, is_grpc_type, decode_body, parse_multipart, boundary_of, parse_media, parse_grpc,
  guess_graphql, guess_json, start, parse_fields_of, parse, is_some, is_cons, is_web, tag_tests,
  selected, tags,
}
use deconstruct.BodyParse.Parse.Settled.{
  settled, parse_media-fields, guess_json-settled, guess_graphql-settled, parse_media-kept,
  decode_body-encoding,
}

abbrev pub holds : Option Bool → Bool
holds none = false
holds (some b) = b

selected_absent :
    (t : Text) (tests : Assoc Bool)
    → member t (keys tests) ≡ false
    → member t (selected tests) ≡ false
unfolding member selected
selected_absent t [] h = refl
selected_absent t ((s, b) ∷ tests) h = ground (arith, selected_absent t tests, h)

member-selected :
    (t : Text) (tests : Assoc Bool)
    → Distinct (keys tests)
    → member t (selected tests) ≡ holds (lookup t tests)
unfolding member selected lookup
member-selected t [] d = refl
member-selected t ((s, b) ∷ tests) (n, d) = elim (Bool-cases (text_eq s t)) [
  | inl e ↦
      let absent : member t (selected tests) ≡ false =
        selected_absent t tests
          (subst (λ x. member x (keys tests) ≡ false) (text_eq_sound s t e) n) in
      ground (arith, e, absent)
  | inr e ↦ ground (arith, e, member-selected t tests d)
]

selected-Distinct : (tests : Assoc Bool) → Distinct (keys tests) → Distinct (selected tests)
unfolding selected
selected-Distinct [] d = tt
selected-Distinct ((s, true) ∷ tests) (n, d) =
    (selected_absent s tests n, selected-Distinct tests d)
selected-Distinct ((s, false) ∷ tests) (n, d) = selected-Distinct tests d

tag_tests-Distinct : (headers : Header) (p : Parsed) → Distinct (keys (tag_tests headers p))
unfolding tag_tests member
tag_tests-Distinct headers p =
    (refl, (refl, (refl, (refl, (refl, (refl, (refl, (refl, (refl, tt)))))))))

module _ (formats : Formats) where
  abbrev media_of : Header → Text
  media_of headers = (formats.media_type (header_get (codes "Content-Type") headers)).0

  abbrev params_of : Header → Assoc Text
  params_of headers = (formats.media_type (header_get (codes "Content-Type") headers)).1

  abbrev sse_type : Text
  sse_type = codes "text/event-stream"

  event_stream :
      (media : Text) (b : Bool)
      → ((text_eq media sse_type && b) || equal_fold media sse_type) ≡ equal_fold media sse_type
  unfolding equal_fold to_lower
  event_stream media b = elim (Bool-cases (text_eq media sse_type)) [
    | inr n ↦ rw (n) refl
    | inl e ↦
        let f : equal_fold media sse_type ≡ true =
          subst (λ x. equal_fold x sse_type ≡ true) (sym (text_eq_sound media sse_type e)) refl in
        rw (f) ground arith
  ]

  -- what a body has to be for each tag but `graphql`
  pub record IsTagged (headers : Header) (body : Text) (ts : List Text) : Type 0 where
    pub once : Distinct ts
    pub form : member (codes "form") ts ≡ (
        text_eq (media_of headers) (codes "application/x-www-form-urlencoded")
        && is_some (formats.parse_query (decode_body formats headers body).0))
    pub multipart : member (codes "multipart") ts ≡ (
        text_eq (media_of headers) (codes "multipart/form-data")
        && is_cons (
            parse_multipart formats
              (decode_body formats headers body).0
              (boundary_of formats (params_of headers))))
    pub sse : member (codes "sse") ts ≡ equal_fold (media_of headers) (codes "text/event-stream")
    pub grpc : member (codes "grpc") ts ≡ is_grpc_type (media_of headers)
    pub grpc_web : member (codes "grpc_web") ts ≡ (
        is_grpc_type (media_of headers)
        && contains (to_lower (header_get (codes "Content-Type") headers)) (codes "grpc-web"))
    pub compressed :
        member (codes "compressed") ts
        ≡ not (is_empty (to_lower (trim_space (header_get (codes "Content-Encoding") headers))))
    pub websocket :
        member (codes "websocket") ts
        ≡ equal_fold (header_get (codes "Upgrade") headers) (codes "websocket")

  module _ (headers : Header) (body : Text) where
    abbrev decoded_of : Text
    decoded_of = (start formats headers body).text

    -- what `Parse` has before the guesses
    abbrev typed : Option (List ProtobufField) → Parsed
    typed fields =
        record (parse_grpc (media_of headers) headers (
          parse_media formats (media_of headers) (params_of headers) decoded_of
            (start formats headers body))) { protobuf = fields }

    abbrev guessed : Option (List ProtobufField) → Parsed
    guessed fields = guess_json formats decoded_of (guess_graphql formats decoded_of (typed fields))

    guessed-settled :
        (fields : Option (List ProtobufField)) → settled (guessed fields) ≡ settled (typed fields)
    guessed-settled fields =
        guess_json-settled formats decoded_of (guess_graphql formats decoded_of (typed fields))
        ∙ guess_graphql-settled formats decoded_of (typed fields)

    tags-guessed :
        (ts : List Text)
        → tags formats headers body ≡ some ts
        → (fields : Option (List ProtobufField)) × (parse_fields_of (media_of headers) decoded_of
            ≡ some fields)
          × (ts ≡ selected (tag_tests headers (guessed fields)))
    unfolding tags parse
    tags-guessed ts h = elim (Option-cases (parse_fields_of (media_of headers) decoded_of)) [
      | inl e ↦ absurd (ground (arith, h, e))
      | inr (fields, e) ↦ (fields, e, ground (arith, h, e))
    ]

  module _ (headers : Header) (body : Text) (fields : Option (List ProtobufField)) where
    typed_kept :
        ((typed headers body fields).content_type ≡ media_of headers)
        × ((typed headers body fields).encoding ≡ (decode_body formats headers body).1)
        × (is_some (typed headers body fields).grpc ≡ is_grpc_type (media_of headers))
        × (is_web (typed headers body fields).grpc ≡ (
            is_grpc_type (media_of headers)
            && contains (to_lower (header_get (codes "Content-Type") headers)) (codes "grpc-web")))
    unfolding parse_grpc start grpc_from_headers
    typed_kept =
        let k =
          parse_media-kept formats (media_of headers) (params_of headers) (decoded_of headers body)
            (start formats headers body) in
        elim (Bool-cases (is_grpc_type (media_of headers))) [
          | inl e ↦ rw (e, parse_grpc) (ap (λ x. x.0) k, ap (λ x. x.1) k, refl, refl)
          | inr e ↦
              rw (e, parse_grpc)
                (
                  ap (λ x. x.0) k,
                  ap (λ x. x.1) k,
                  ap (λ x. is_some (x.2)) k,
                  ap (λ x. is_web (x.2)) k,
                )
        ]

    typed_media :
        ((typed headers body fields).form
          ≡ (parse_media formats
              (media_of headers)
              (params_of headers)
              (decoded_of headers body)
              (start formats headers body)).form)
        × ((typed headers body fields).multipart
            ≡ (parse_media formats
                (media_of headers)
                (params_of headers)
                (decoded_of headers body)
                (start formats headers body)).multipart)
        × ((typed headers body fields).sse
            ≡ (parse_media formats
                (media_of headers)
                (params_of headers)
                (decoded_of headers body)
                (start formats headers body)).sse)
    unfolding parse_grpc
    typed_media = elim (Bool-cases (is_grpc_type (media_of headers))) [
      | inl e ↦ rw (e, parse_grpc) (refl, refl, refl)
      | inr e ↦ rw (e, parse_grpc) (refl, refl, refl)
    ]

  module _ (headers : Header) (body : Text) (fields : Option (List ProtobufField)) where
    abbrev chosen : List Text
    chosen = selected (tag_tests headers (guessed headers body fields))

    holds_in :
        (t : Text) (b : Bool)
        → lookup t (tag_tests headers (guessed headers body fields)) ≡ some b
        → member t chosen ≡ b
    holds_in t b e =
        member-selected t (tag_tests headers (guessed headers body fields))
          (tag_tests-Distinct headers (guessed headers body fields))
        ∙ ap holds e

    chosen-IsTagged : IsTagged headers body chosen
    unfolding tag_tests lookup start
    chosen-IsTagged =
        let g = guessed-settled headers body fields in
        let k = typed_kept headers body fields in
        let m = typed_media headers body fields in
        let f =
          parse_media-fields formats headers body (params_of headers) (decoded_of headers body)
            (media_of headers) in
        record {
          once = selected-Distinct _ (tag_tests-Distinct headers (guessed headers body fields));
          form = holds_in (codes "form") _ refl ∙ ap (λ x. is_some (x.2)) g ∙ ap is_some m.0 ∙ f.0;
          multipart =
              holds_in (codes "multipart") _ refl
              ∙ ap (λ x. is_cons (x.3)) g
              ∙ ap is_cons m.1
              ∙ f.1;
          sse =
              holds_in (codes "sse") _ refl
              ∙ ap (λ x. is_cons (x.4) || equal_fold x.0 sse_type) g
              ∙ ap (λ x. is_cons x || equal_fold (typed headers body fields).content_type sse_type)
                  m.2
              ∙ ap (λ x. x || equal_fold (typed headers body fields).content_type sse_type) f.2
              ∙ ap
                  (λ x.
                    (text_eq (media_of headers) sse_type
                      && is_cons (parse_sse (decoded_of headers body)))
                    || equal_fold x sse_type)
                  k.0
              ∙ event_stream (media_of headers) (is_cons (parse_sse (decoded_of headers body)));
          grpc = holds_in (codes "grpc") _ refl ∙ ap (λ x. is_some (x.5)) g ∙ k.2;
          grpc_web = holds_in (codes "grpc_web") _ refl ∙ ap (λ x. is_web (x.5)) g ∙ k.3;
          compressed =
              holds_in (codes "compressed") _ refl
              ∙ ap (λ x. not (is_empty (x.1))) g
              ∙ ap (λ x. not (is_empty x)) (k.1 ∙ decode_body-encoding formats headers body);
          websocket = holds_in (codes "websocket") _ refl;
        }

  -- Where Tags gives tags, they are distinct, and: `form` is there exactly for a form that can be
  -- read, `multipart` for a multipart body with a part, `sse` for the type of event streams up to case,
  -- `grpc` for the types of gRPC and `grpc_web` for those under a header that names grpc-web,
  -- `compressed` where a content encoding is named, and `websocket` where the upgrade is one.
  pub tags-IsTagged :
      (headers : Header) (body : Text) (ts : List Text)
      → tags formats headers body ≡ some ts
      → IsTagged headers body ts
  tags-IsTagged headers body ts h =
      let (fields, _, e) = tags-guessed headers body ts h in
      subst (IsTagged headers body) (sym e) (chosen-IsTagged headers body fields)
