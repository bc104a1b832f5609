-- ===== src/Redact/Headers.antt =====
-- `Header` and `HeaderHasSensitive`.
use deconstruct.Base.{
  Text, false, none, some, [], ◌∷◌, ◌≡◌, arith, text_eq_iff, lookup, if◌then◌else◌,
}
use deconstruct.Redact.{
  Header, placeholder, sensitive_header, redact_values, redact_header, header_has_sensitive,
}

-- Every header keeps its name. A sensitive one holds the placeholder alone, any other its values.
pub lookup-redact_header :
    (k : Text) (headers : Header)
    → lookup k (redact_header headers) ≡ (
        if sensitive_header k
        then elim (lookup k headers) [ none ↦ none | some vs ↦ some (placeholder ∷ []) ]
        else lookup k headers)
unfolding lookup redact_header redact_values
lookup-redact_header k [] = ground arith
lookup-redact_header k ((j, vs) ∷ headers) =
    ground (arith, text_eq_iff j k, lookup-redact_header k headers)

-- two header maps with the same names in the same order, alike but for the sensitive values
abbrev pub SameButSecret : Header → Header → Type 0
SameButSecret [] [] = Unit
SameButSecret ((j, vs) ∷ a) ((k, ws) ∷ b) =
    (j ≡ k) × (sensitive_header j ≡ false → vs ≡ ws) × SameButSecret a b
SameButSecret _ _ = ⊥

-- The result does not depend on the values of sensitive headers.
pub redact_header-SameButSecret :
    (a b : Header) → SameButSecret a b → redact_header a ≡ redact_header b
unfolding redact_header redact_values
redact_header-SameButSecret [] [] h = ground arith
redact_header-SameButSecret [] (y ∷ b) h = elim h [ ]
redact_header-SameButSecret (x ∷ a) [] h = elim h [ ]
redact_header-SameButSecret ((j, vs) ∷ a) ((k, ws) ∷ b) (e, same, rest) =
    ground (arith, redact_header-SameButSecret a b rest)

-- `HeaderHasSensitive` says false exactly when `Header` has nothing to hide from any value.
pub redact_header_idle :
    (headers : Header) → header_has_sensitive headers ≡ false → redact_header headers ≡ headers
unfolding redact_header redact_values header_has_sensitive
redact_header_idle [] h = ground arith
redact_header_idle ((j, vs) ∷ headers) h = ground (arith, redact_header_idle headers)
