-- ===== src/Workflow/AuthMaterial.antt =====
-- `applyAuthMaterial` and `canonicalAuthHeader` of daemon/internal/workflow/modeler.go: which secrets of
-- a profile go into which headers of a replayed request.
use deconstruct.Base.{
  Text, codes, Assoc, not, ◌&&◌, none, some, List, [], ◌∷◌, ◌++◌, lookup, insert, is_empty,
  has_prefix, trim_prefix, to_lower, text_eq, join, if◌then◌else◌,
}
use deconstruct.Redact.{Header}
use deconstruct.Store.{Overrides}

-- `material[key]`, the empty text where the key is missing
unfoldable pub secret : Text → Assoc Text → Text
unfolding lookup
secret key material = elim (lookup key material) [ none ↦ [] | some value ↦ value ]

-- `if value := material[key]; value != "" { headers[name] = []string{value} }`
unfoldable pub put_secret : Text → Text → Assoc Text → Header → Header
put_secret key name material headers =
    let value = secret key material in
    if is_empty value then headers else insert name (value ∷ []) headers

-- the pairs `name=value` of the entries `cookie.name`
unfoldable pub cookie_pairs : Assoc Text → List Text
unfolding has_prefix trim_prefix
cookie_pairs [] = []
cookie_pairs ((key, value) ∷ material) =
    let rest = cookie_pairs material in
    if has_prefix key (codes "cookie.") && not (is_empty value)
    then (trim_prefix key (codes "cookie.") ++ (codes "=" ++ value)) ∷ rest
    else rest

-- `canonicalAuthHeader`
unfoldable pub canonical_auth_header : Text → Text
unfolding to_lower
canonical_auth_header key =
    if text_eq (to_lower key) (codes "x-xsrf-token")
    then codes "X-XSRF-Token"
    else codes "X-CSRF-Token"

-- the loop over the entries `header.name`
unfoldable pub put_custom : Assoc Text → Header → Header
unfolding has_prefix trim_prefix
put_custom [] headers = headers
put_custom ((key, value) ∷ material) headers = put_custom material (
    if has_prefix key (codes "header.") && not (is_empty value)
    then insert (trim_prefix key (codes "header.")) (value ∷ []) headers
    else headers)

-- `sort.Strings` is the parameter `sort`.
module _ (sort : List Text → List Text) where
  unfoldable pub put_cookies : Assoc Text → Header → Header
  put_cookies material headers =
      let cookies = sort (cookie_pairs material) in
      elim cookies [
        | [] ↦ headers
        | c ∷ cs ↦ insert (codes "Cookie") (join (codes "; ") (c ∷ cs) ∷ []) headers
      ]

  -- one of `cookie`, `Cookie`, and the entries `cookie.name`, in this order of preference
  unfoldable pub put_cookie : Assoc Text → Header → Header
  put_cookie material headers =
      if not (is_empty (secret (codes "cookie") material))
      then put_secret (codes "cookie") (codes "Cookie") material headers
      else if not (is_empty (secret (codes "Cookie") material))
      then put_secret (codes "Cookie") (codes "Cookie") material headers
      else put_cookies material headers

  unfoldable pub put_all : Assoc Text → Header → Header
  put_all material headers =
      let h1 = put_secret (codes "authorization") (codes "Authorization") material headers in
      let h2 = put_secret (codes "Authorization") (codes "Authorization") material h1 in
      let h3 = put_cookie material h2 in
      let h4 =
        put_secret (codes "x-csrf-token") (canonical_auth_header (codes "x-csrf-token")) material
          h3 in
      let h5 =
        put_secret (codes "x-xsrf-token") (canonical_auth_header (codes "x-xsrf-token")) material
          h4 in
      let h6 =
        put_secret (codes "X-CSRF-Token") (canonical_auth_header (codes "X-CSRF-Token")) material
          h5 in
      let h7 =
        put_secret (codes "X-XSRF-Token") (canonical_auth_header (codes "X-XSRF-Token")) material
          h6 in
      put_custom material h7

  unfoldable pub apply_auth_material : Overrides → Assoc Text → Overrides
  apply_auth_material overrides [] = overrides
  apply_auth_material overrides (entry ∷ material) = record overrides {
    headers = put_all (entry ∷ material) overrides.headers;
  }
