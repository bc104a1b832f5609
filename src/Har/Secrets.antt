-- ===== src/Har/Secrets.antt =====
-- What a redacting import hands to the stores, and how many flows it stores.
use deconstruct.Base.{ℕ, ◌+◌, Text, codes, true, List, [], ◌∷◌, ◌≡◌, refl, inl, inr}
use deconstruct.Action.{fail, yield, Result-cases}
use deconstruct.Redact.{Header}
use deconstruct.Replay.Secrets.{IsShown, IsShownBody, KeepsSecrets, bind-Safe, tag_all-Safe}
use deconstruct.Har.{
  HarEntry, Options, Archive, request_header, response_header, har_text, hidden_headers,
  hidden_body, imported_flow, store_entry, import_entry, import_entries, named, redacts,
  import_document, import,
}

module _ {W : Type 0} (archive : Archive W) (Safe : W → Type 0)
    (keeps : KeepsSecrets archive.back Safe)
    (sessions : (id name kind : Text) (w : W)
      → Safe w
      → Safe (archive.ensure_session id name kind w).1) where
  store_entry-Safe :
      (session_id app_name flow_id : Text) (entry : HarEntry) (qh ph : Header) (qb pb : Text)
      (w : W)
      → IsShown qh
      → IsShown ph
      → IsShownBody archive.back.unmarshal archive.back.marshal qb
      → IsShownBody archive.back.unmarshal archive.back.marshal pb
      → Safe w
      → Safe (store_entry archive session_id app_name flow_id entry qh ph qb pb w).1
  unfolding store_entry imported_flow
  store_entry-Safe session_id app_name flow_id entry qh ph qb pb w q p b c h =
      bind-Safe Safe _ _ w (keeps.put qb w b h) (λ request_blob u1 h1.
        bind-Safe Safe _ _ u1 (keeps.put pb u1 c h1) (λ response_blob u2 h2.
          bind-Safe Safe _ _ u2 (keeps.insert_flow _ u2 q p h2)
            (λ x u3 h3. tag_all-Safe archive.back Safe keeps flow_id _ u3 h3)))

  import_entry-Safe :
      (session_id app_name : Text) (entry : HarEntry) (w : W)
      → Safe w
      → Safe (import_entry archive session_id app_name true entry w).1
  unfolding import_entry hidden_headers hidden_body
  import_entry-Safe session_id app_name entry w h =
      bind-Safe Safe _ _ w (keeps.new_id (codes "flow") w h) (λ flow_id u g.
        store_entry-Safe session_id app_name flow_id entry _ _ _ _ u
          (request_header entry.request, refl) (response_header entry.response, refl)
          (har_text archive entry.request.post_data.text entry.request.post_data.encoding, refl)
          (har_text archive entry.response.content.text entry.response.content.encoding, refl) g)

  import_entries-Safe :
      (session_id app_name : Text) (entries : List HarEntry) (count : ℕ) (w : W)
      → Safe w
      → Safe (import_entries archive session_id app_name true entries count w).1
  unfolding import_entries yield
  import_entries-Safe session_id app_name [] count w h = h
  import_entries-Safe session_id app_name (entry ∷ entries) count w h =
      bind-Safe Safe _ _ w (import_entry-Safe session_id app_name entry w h)
        (λ x u g. import_entries-Safe session_id app_name entries (count + 1) u g)

  import_document-Safe :
      (entries : List HarEntry) (options : Options) (w : W)
      → redacts archive options.redact ≡ true
      → Safe w
      → Safe (import_document archive entries options w).1
  unfolding import_document yield
  import_document-Safe entries options w r h =
      bind-Safe Safe _ _ w (keeps.new_id (codes "session") w h) (λ session_id u1 h1.
        bind-Safe Safe _ _ u1 (sessions session_id _ _ u1 h1) (λ x u2 h2.
          bind-Safe Safe _ _ u2
            (rw (r) (
              import_entries-Safe session_id (named archive options.app_name (codes "HAR")) entries
                0 u2 h2))
            (λ count u3 h3. h3)))

  -- An import that is not told to keep secrets gives the stores redacted headers and bodies only,
  -- whether it succeeds or stops at an error: what they keep while they are given no others, they keep
  -- through every import.
  pub import-KeepsSecrets :
      (content : Text) (options : Options) (w : W)
      → redacts archive options.redact ≡ true
      → Safe w
      → Safe (import archive content options w).1
  unfolding import fail
  import-KeepsSecrets content options w r h = elim (Result-cases (archive.entries_of content)) [
    | inl (entries, e) ↦ rw (e, import) (import_document-Safe entries options w r h)
    | inr (t, e) ↦ rw (e, import) h
  ]
