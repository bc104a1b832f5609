-- ===== src/Redact/Examples.antt =====
-- Tests and instances of the theorems on redaction.
use mathlib.Core.Path.{subst}
use mathlib.Core.Option.{some-injective}
use deconstruct.Base.{
  Text, codes, Option, none, some, [], ◌∷◌, ◌≡◌, true, false, refl, lookup, if◌then◌else◌,
  equal_fold,
}
use deconstruct.Json.{Json, Fields, str, obj, end, field}
use deconstruct.Redact.{
  Header, placeholder, sensitive_name, sensitive_header, redact_header, redact_json, redact_body,
  header_has_sensitive,
}
use deconstruct.Redact.Names.{sensitive_name-equal_fold}
use deconstruct.Redact.Headers
use deconstruct.Redact.Headers.{
  lookup-redact_header, redact_header-SameButSecret, redact_header_idle,
}
use deconstruct.Redact.Values.{
  SameButSecret, same, objects, finished, shown, hidden, IsRedacted, redact_json-SameButSecret,
  redact_json-IsRedacted, redact_body-SameButSecret, redact_body_stable,
}

abbrev sent : Header
sent = (codes "Authorization", codes "Bearer abc" ∷ []) ∷ (codes "Accept", codes "*/*" ∷ []) ∷ []

redact_sent :
    redact_header sent
    ≡ (codes "Authorization", codes "[redacted]" ∷ []) ∷ (codes "Accept", codes "*/*" ∷ []) ∷ []
unfolding redact_header sensitive_header
redact_sent = refl

-- {"user": u, "Access_Token": t}
abbrev login : Text → Text → Json
login u t = obj (field (codes "user") (str u) (field (codes "Access_Token") (str t) end))

redact_login :
    redact_json (login (codes "ann") (codes "s3cret")) ≡ login (codes "ann") (codes "[redacted]")
unfolding redact_json sensitive_name
redact_login = refl

token_is_sensitive : sensitive_name (codes "Access_Token") ≡ true
unfolding sensitive_name
token_is_sensitive = refl

same_fold : equal_fold (codes "Cookie") (codes "COOKIE") ≡ true
unfolding equal_fold
same_fold = refl

sensitive_name-equal_fold_example :
    (sensitive_name (codes "Cookie") ≡ sensitive_name (codes "COOKIE"))
    × (sensitive_header (codes "Cookie") ≡ sensitive_header (codes "COOKIE"))
sensitive_name-equal_fold_example =
    sensitive_name-equal_fold (codes "Cookie") (codes "COOKIE") same_fold

lookup-redact_header_example : lookup (codes "Accept") (redact_header sent) ≡ (
    if sensitive_header (codes "Accept")
    then elim (lookup (codes "Accept") sent) [ none ↦ none | some vs ↦ some (placeholder ∷ []) ]
    else lookup (codes "Accept") sent)
lookup-redact_header_example = lookup-redact_header (codes "Accept") sent

abbrev other_sent : Header
other_sent =
    (codes "Authorization", codes "Bearer xyz" ∷ codes "more" ∷ [])
    ∷ (codes "Accept", codes "*/*" ∷ [])
    ∷ []

auth_is_sensitive : sensitive_header (codes "Authorization") ≡ true
unfolding sensitive_header
auth_is_sensitive = refl

sent_same : Headers.SameButSecret sent other_sent
sent_same = (refl, λ h. absurd (cc auth_is_sensitive), (refl, λ h. refl, tt))

redact_header-SameButSecret_example : redact_header sent ≡ redact_header other_sent
redact_header-SameButSecret_example = redact_header-SameButSecret sent other_sent sent_same

abbrev plain : Header
plain = (codes "Accept", codes "*/*" ∷ []) ∷ []

plain_idle : header_has_sensitive plain ≡ false
unfolding header_has_sensitive sensitive_header
plain_idle = refl

logins_same : SameButSecret (login (codes "ann") (codes "1")) (login (codes "ann") (codes "2"))
logins_same = objects (shown (same _) (hidden token_is_sensitive finished))

redact_json-SameButSecret_example :
    redact_json (login (codes "ann") (codes "1")) ≡ redact_json (login (codes "ann") (codes "2"))
redact_json-SameButSecret_example = redact_json-SameButSecret logins_same

redact_json-IsRedacted_example :
    IsRedacted (redact_json (login (codes "ann") (codes "1")))
    × (IsRedacted (login (codes "ann") (codes "1"))
        → redact_json (login (codes "ann") (codes "1")) ≡ login (codes "ann") (codes "1"))
redact_json-IsRedacted_example = redact_json-IsRedacted (login (codes "ann") (codes "1"))

-- A codec that knows the login objects of one user: the token is the text behind the first byte.
abbrev decode : Text → Option Json
decode [] = none
decode (c ∷ token) = some (login (codes "ann") token)

abbrev token_text : Fields → Text
token_text (field j u (field k (str t) fs)) = t
token_text _ = []

abbrev encode : Json → Text
encode (obj fs) = 123 ∷ token_text fs
encode _ = []

redact_body-SameButSecret_example :
    redact_body decode encode (codes "{1") ≡ redact_body decode encode (codes "{2")
redact_body-SameButSecret_example =
    redact_body-SameButSecret decode encode (codes "{1") (codes "{2") refl refl logins_same

decode-encode :
    (v : Json)
    → decode (codes "{1") ≡ some v
    → decode (encode (redact_json v)) ≡ some (redact_json v)
unfolding redact_json sensitive_name
decode-encode v e =
    subst (λ w. decode (encode (redact_json w)) ≡ some (redact_json w)) (some-injective _ _ e) refl

redact_body_stable_example :
    (decode (codes "{1") ≡ none → redact_body decode encode (codes "{1") ≡ codes "{1")
    × ((v : Json)
        → decode (codes "{1") ≡ some v
        → (w : Json) × (decode (redact_body decode encode (codes "{1")) ≡ some w) × IsRedacted w)
    × (redact_body decode encode (redact_body decode encode (codes "{1"))
        ≡ redact_body decode encode (codes "{1"))
redact_body_stable_example = redact_body_stable decode encode (codes "{1") decode-encode
