-- ===== src/Exporter.antt =====
-- daemon/internal/exporter/curl.go, and `exportInputs` of daemon/internal/exporter/script.go: a flow
-- as a command line for curl. The headers of a flow are kept decoded.
pub mod Shell
mod Examples
use deconstruct.Json.{Json}
use deconstruct.Store.{Flow}
use deconstruct.Redact.{Header, redact_header, redact_body}
use deconstruct.Replay.Headers.{header_values}
use deconstruct.Base.{
  Bool, true, false, Option, has_prefix, equal_fold, ◌||◌, map, Text, codes, List, [], ◌∷◌, ◌++◌,
  join, is_empty, replace_all, if◌then◌else◌,
}

-- the quoted form of a quote: close, an escaped quote, open
abbrev pub escaped_quote : Text
escaped_quote = b'\'' ∷ b'\\' ∷ b'\'' ∷ b'\'' ∷ []

unfoldable pub shell_quote : Text → Text
shell_quote value =
    if is_empty value
    then codes "''"
    else b'\'' ∷ (replace_all value (b'\'' ∷ []) escaped_quote ++ (b'\'' ∷ []))

-- the options for the headers, which come sorted by name
unfoldable pub header_parts : List (Text × Text) → List Text
header_parts [] = []
header_parts ((key, value) ∷ headers) =
    codes "-H" ∷ (shell_quote (key ++ (codes ": " ++ value)) ∷ header_parts headers)

unfoldable pub body_parts : Text → List Text
body_parts body = if is_empty body then [] else codes "--data-binary" ∷ (shell_quote body ∷ [])

-- the command line, once the headers and the body are redacted
unfoldable pub curl_parts : Text → Text → List (Text × Text) → Text → List Text
curl_parts method url headers body =
    codes "curl"
    ∷ (codes "-X"
        ∷ (shell_quote method
            ∷ (header_parts headers ++ (body_parts body ++ (shell_quote url ∷ [])))))

unfoldable pub curl : Text → Text → List (Text × Text) → Text → Text
curl method url headers body = join (codes " ") (curl_parts method url headers body)

-- the headers that are not exported
unfoldable pub skips_header : Text → Bool
skips_header key =
    has_prefix key (codes ":")
    || (equal_fold key (codes "Host")
        || (equal_fold key (codes "Proxy-Connection")
            || (equal_fold key (codes "Connection")
                || (equal_fold key (codes "Transfer-Encoding")
                    || equal_fold key (codes "Content-Length")))))

unfoldable pub exported_keys : Header → List Text
exported_keys [] = []
exported_keys ((key, values) ∷ headers) =
    let rest = exported_keys headers in if skips_header key then rest else key ∷ rest

-- `sort` is `sort.Strings`
module _ (sort : List Text → List Text) where
  unfoldable pub exported_headers : Header → List (Text × Text)
  exported_headers headers =
      map (λ (key : Text). (key, join (codes ", ") (header_values key headers)))
        (sort (exported_keys headers))

  -- `redactedExportInputs`
  unfoldable pub redacted_export_inputs :
      (Text → Option Json) → (Json → Text) → Header → Text → List (Text × Text) × Text
  redacted_export_inputs unmarshal marshal headers body =
      (exported_headers (redact_header headers), redact_body unmarshal marshal body)

  -- `Curl`
  unfoldable pub export_curl : (Text → Option Json) → (Json → Text) → Flow → Text → Text
  export_curl unmarshal marshal flow body =
      let (headers, sent) = redacted_export_inputs unmarshal marshal flow.request_headers body in
      curl flow.method flow.url headers sent
