-- ===== src/Replay/Prepared.antt =====
-- What `prepare` sends and what it shows of it.
use mathlib.Core.Path.{subst}
use deconstruct.Base.{
  upper_byte, lower_byte, Text, true, none, some, List, [], ◌∷◌, ◌≡◌, refl, ◌∙◌, inl, inr, arith,
  lookup, lookup-remove, member, if◌then◌else◌, All,
}
use deconstruct.Action.{Result-cases}
use deconstruct.Store.{done, Flow, Overrides}
use deconstruct.Redact.{Header, placeholder, redact_header, redact_body, sensitive_header}
use deconstruct.Redact.Headers.{lookup-redact_header}
use deconstruct.Replay.Headers.{
  canonical_key, header_del, del_all, hop_by_hop_headers, remove_hop_by_hop_headers, is_token,
  is_token_byte, capitals,
}
use deconstruct.Replay.Engine.{
  Backend, PreparedRequest, prepare, prepare_headers, assemble, stored_body, target_url,
}

-- a name in canonical form
abbrev IsCanonical : Text → Type 0
IsCanonical name = canonical_key name ≡ name

lookup-del_all :
    (k : Text) (names : List Text) (headers : Header)
    → All IsCanonical names
    → lookup k (del_all names headers) ≡ (if member k names then none else lookup k headers)
unfolding del_all header_del member
lookup-del_all k [] headers h = refl
lookup-del_all k (name ∷ names) headers (e, h) =
    lookup-del_all k names (header_del name headers) h
    ∙ rw (e, header_del) (ground (arith, lookup-remove name k headers))

hop_by_hop-IsCanonical : All IsCanonical hop_by_hop_headers
unfolding canonical_key is_token is_token_byte capitals upper_byte lower_byte
hop_by_hop-IsCanonical = (refl, (refl, (refl, (refl, (refl, (refl, (refl, (refl, (refl, tt)))))))))

-- The nine hop-by-hop headers are gone, and every other header is as it was.
pub lookup-remove_hop_by_hop_headers :
    (k : Text) (headers : Header)
    → lookup k (remove_hop_by_hop_headers headers)
      ≡ (if member k hop_by_hop_headers then none else lookup k headers)
unfolding remove_hop_by_hop_headers
lookup-remove_hop_by_hop_headers k headers =
    lookup-del_all k hop_by_hop_headers headers hop_by_hop-IsCanonical

-- what is sent has no hop-by-hop header and the body of the overrides, if they have one; what is shown
-- of it has the placeholder for each sensitive header, and the body redacted
abbrev pub IsSafe : {W : Type 0} → Backend W → Overrides → PreparedRequest → Header → Text → Type 0
IsSafe back overrides prepared headers body =
    ((k : Text) → member k hop_by_hop_headers ≡ true → lookup k headers ≡ none)
    × ((b : Text) → overrides.body ≡ some b → body ≡ b)
    × ((k : Text) (vs : List Text)
        → sensitive_header k ≡ true
        → lookup k prepared.headers ≡ some vs
        → vs ≡ placeholder ∷ [])
    × (prepared.body ≡ redact_body back.unmarshal back.marshal body)

shown_header :
    (k : Text) (headers : Header) (vs : List Text)
    → sensitive_header k ≡ true
    → lookup k (redact_header headers) ≡ some vs
    → vs ≡ placeholder ∷ []
shown_header k headers vs s e = ground (arith, lookup-redact_header k headers)

sent_header :
    (k : Text) (headers : Header) (overrides : Overrides)
    → member k hop_by_hop_headers ≡ true
    → lookup k (prepare_headers headers overrides) ≡ none
unfolding prepare_headers
sent_header k headers overrides m = rw (lookup-remove_hop_by_hop_headers k _, m)

module _ {W : Type 0} (back : Backend W) where
  assemble-IsSafe :
      (flow : Flow) (overrides : Overrides) (body url : Text)
      → let (prepared, headers, sent) = assemble back flow overrides body url in
        IsSafe back overrides prepared headers sent
  unfolding assemble
  assemble-IsSafe flow overrides body url = (
    (λ k. sent_header k flow.request_headers overrides),
    (λ b e. ground (arith, e)),
    (λ k. shown_header k _),
    refl,
  )

  -- A prepared request is safe: no hop-by-hop header is sent, whatever the overrides say, the body is
  -- that of the overrides if they have one, and what is shown hides every sensitive header and is
  -- redacted.
  pub prepare-IsSafe :
      (flow : Flow) (overrides : Overrides) (w : W) (prepared : PreparedRequest) (headers : Header)
      (body : Text)
      → prepare back flow overrides w ≡ done (prepared, headers, body)
      → IsSafe back overrides prepared headers body
  unfolding prepare
  prepare-IsSafe flow overrides w prepared headers body e =
      elim (Result-cases (stored_body back flow w)) [
        | inr (t, h) ↦ absurd (ground (arith, rw (h, prepare) at e))
        | inl (stored, h) ↦ elim (Result-cases (target_url back flow overrides)) [
          | inr (t, h2) ↦ absurd (ground (arith, rw (h, h2, prepare) at e))
          | inl (url, h2) ↦
              let same : assemble back flow overrides stored url ≡ (prepared, headers, body) =
                ground (arith, rw (h, h2, prepare) at e) in
              subst (λ p. IsSafe back overrides p.0 p.1 p.2) same
                (assemble-IsSafe flow overrides stored url)
        ]
      ]
