-- ===== src/Har.antt =====
-- daemon/internal/harimport/harimport.go: captures that a browser has exported.
pub mod Secrets
pub mod Counts
mod Examples
use deconstruct.Base.{
  ℕ, ◌+◌, Text, codes, Bool, true, false, ◌||◌, Option, none, some, List, [], ◌∷◌, ◌++◌, is_empty,
  equal_fold, join, insert, if◌then◌else◌,
}
use deconstruct.Action.{Action, ◌>>=◌, fail, yield}
use deconstruct.Redact.{Header, redact_header, redact_body}
use deconstruct.Store.{Flow, Result, done, failed}
use deconstruct.Replay.Headers.{header_get, header_add, canonical_key}
use deconstruct.Replay.Engine.{Backend, tag_all}

pub record HarNameValue : Type 0 where
  pub name : Text
  pub value : Text

pub record HarCookie : Type 0 where
  pub name : Text
  pub value : Text

pub record HarPostData : Type 0 where
  pub mime_type : Text
  pub text : Text
  pub encoding : Text

pub record HarContent : Type 0 where
  pub mime_type : Text
  pub text : Text
  pub encoding : Text

pub record HarRequest : Type 0 where
  pub method : Text
  pub url : Text
  pub headers : List HarNameValue
  pub cookies : List HarCookie
  pub post_data : HarPostData

pub record HarResponse : Type 0 where
  pub status : ℕ
  pub headers : List HarNameValue
  pub cookies : List HarCookie
  pub content : HarContent

pub record HarEntry : Type 0 where
  pub request : HarRequest
  pub response : HarResponse

pub record Options : Type 0 where
  pub name : Text
  pub redact : Option Bool
  pub app_name : Text

pub record ImportResult : Type 0 where
  pub session_id : Text
  pub flows : ℕ

-- The stores as the replay engine has them, the sessions, files, the decoding of a document to its
-- entries, and base64.
pub record Archive (W : Type 0) : Type 1 where
  pub back : Backend W
  pub ensure_session : Text → Text → Text → Action W Unit
  pub read_file : Text → Action W Text
  pub entries_of : Text → Result (List HarEntry)
  pub base64 : Text → Option Text

unfoldable pub header_from_pairs : List HarNameValue → Header → Header
header_from_pairs [] headers = headers
header_from_pairs (pair ∷ pairs) headers =
    header_from_pairs pairs (header_add pair.name pair.value headers)

-- `http.Header.Set`
unfoldable pub header_set : Text → Text → Header → Header
header_set name value headers = insert (canonical_key name) (value ∷ []) headers

-- the content type of the body, where the headers name none
unfoldable pub with_type : Text → Header → Header
with_type mime_type headers =
    if is_empty (header_get (codes "Content-Type") headers)
    then (if is_empty mime_type
        then headers
        else header_set (codes "Content-Type") mime_type headers)
    else headers

unfoldable pub cookie_texts : List HarCookie → List Text
cookie_texts [] = []
cookie_texts (cookie ∷ cookies) =
    (cookie.name ++ (codes "=" ++ cookie.value)) ∷ cookie_texts cookies

unfoldable pub add_request_cookies : List HarCookie → Header → Header
add_request_cookies [] headers = headers
add_request_cookies (cookie ∷ cookies) headers =
    if is_empty (header_get (codes "Cookie") headers)
    then header_set (codes "Cookie") (join (codes "; ") (cookie_texts (cookie ∷ cookies))) headers
    else headers

unfoldable pub add_response_cookies : List HarCookie → Header → Header
add_response_cookies [] headers = headers
add_response_cookies (cookie ∷ cookies) headers =
    add_response_cookies cookies
      (header_add (codes "Set-Cookie") (cookie.name ++ (codes "=" ++ cookie.value)) headers)

unfoldable pub request_header : HarRequest → Header
request_header request =
    add_request_cookies request.cookies
      (with_type request.post_data.mime_type (header_from_pairs request.headers []))

unfoldable pub response_header : HarResponse → Header
response_header response =
    add_response_cookies response.cookies
      (with_type response.content.mime_type (header_from_pairs response.headers []))

module _ {W : Type 0} (archive : Archive W) where
  unfoldable pub har_text : Text → Text → Text
  har_text value encoding =
      if equal_fold encoding (codes "base64")
      then elim (archive.base64 value) [ none ↦ value | some decoded ↦ decoded ]
      else value

  unfoldable pub hidden_headers : Bool → Header → Header
  hidden_headers redact headers = if redact then redact_header headers else headers

  unfoldable pub hidden_body : Bool → Text → Text
  hidden_body redact body =
      if redact then redact_body archive.back.unmarshal archive.back.marshal body else body

  -- the row of an entry
  unfoldable pub imported_flow :
      Text → Text → Text → HarEntry → Header → Header → Text → Text → Flow
  imported_flow session_id app_name flow_id entry request_headers response_headers request_blob
        response_blob =
      record {
        id = flow_id;
        session_id = session_id;
        method = entry.request.method;
        app_name = app_name;
        source = codes "har";
        url = entry.request.url;
        host = archive.back.url_host entry.request.url;
        status = entry.response.status;
        request_headers = request_headers;
        response_headers = response_headers;
        request_blob = request_blob;
        response_blob = response_blob;
      }

  -- `importEntry` once the headers and bodies are redacted
  unfoldable pub store_entry :
      Text → Text → Text → HarEntry → Header → Header → Text → Text → Action W Unit
  store_entry session_id app_name flow_id entry request_headers response_headers request_body
        response_body =
      do
        request_blob ← archive.back.blob_put request_body
        response_blob ← archive.back.blob_put response_body
        _ ← archive.back.insert_flow (
            imported_flow session_id app_name flow_id entry request_headers response_headers
              request_blob response_blob)
        λ w. (
          done tt,
          tag_all archive.back flow_id
              (codes "imported_har"
                ∷ (archive.back.tags request_headers request_body
                    ++ archive.back.tags response_headers response_body))
              w,
        )

  unfoldable pub import_entry : Text → Text → Bool → HarEntry → Action W Unit
  import_entry session_id app_name redact entry = do
    flow_id ← archive.back.new_id (codes "flow")
    store_entry session_id app_name flow_id entry
        (hidden_headers redact (request_header entry.request))
        (hidden_headers redact (response_header entry.response))
        (hidden_body redact
          (har_text entry.request.post_data.text entry.request.post_data.encoding))
        (hidden_body redact (har_text entry.response.content.text entry.response.content.encoding))

  -- the loop over the entries, with the number of those that are stored
  unfoldable pub import_entries : Text → Text → Bool → List HarEntry → ℕ → Action W ℕ
  import_entries session_id app_name redact [] count = yield count
  import_entries session_id app_name redact (entry ∷ entries) count = do
    _ ← import_entry session_id app_name redact entry
    import_entries session_id app_name redact entries (count + 1)

  unfoldable pub named : Text → Text → Text
  named name default = if is_empty name then default else name

  unfoldable pub redacts : Option Bool → Bool
  redacts none = true
  redacts (some b) = b

  -- `Import` once the document is decoded
  unfoldable pub import_document : List HarEntry → Options → Action W ImportResult
  import_document entries options = do
    session_id ← archive.back.new_id (codes "session")
    _ ← archive.ensure_session session_id (named options.name (codes "Imported HAR")) (codes "har")
    count ←
        import_entries session_id (named options.app_name (codes "HAR")) (redacts options.redact)
          entries 0
    yield (record { session_id = session_id; flows = count })

  unfoldable pub import : Text → Options → Action W ImportResult
  import content options = elim (archive.entries_of content) [
    | failed e ↦ fail (codes "decode har: " ++ e)
    | done entries ↦ import_document entries options
  ]

  unfoldable pub import_file : Text → Options → Action W ImportResult
  import_file path options w = elim (archive.read_file path w).0 [
    | failed e ↦ (failed (codes "read har: " ++ e), (archive.read_file path w).1)
    | done content ↦ import content options (archive.read_file path w).1
  ]
