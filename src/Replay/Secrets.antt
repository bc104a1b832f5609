-- ===== src/Replay/Secrets.antt =====
-- What a component that redacts hands to the stores.
use deconstruct.Base.{Text, Option, List, [], ◌∷◌, ◌≡◌, inl, inr}
use deconstruct.Action.{Action, ◌>>=◌, Result-cases}
use deconstruct.Json.{Json}
use deconstruct.Redact.{Header, redact_header, redact_body}
use deconstruct.Store.{Flow}
use deconstruct.Replay.Engine.{Backend, tag_all}

-- the headers that redaction can give, and the bodies
abbrev pub IsShown : Header → Type 0
IsShown headers = (original : Header) × (headers ≡ redact_header original)

abbrev pub IsShownBody : (Text → Option Json) → (Json → Text) → Text → Type 0
IsShownBody unmarshal marshal body =
    (original : Text) × (body ≡ redact_body unmarshal marshal original)

-- A property of the state of the stores that holds as long as they are given redacted flows and bodies
-- only.
pub record KeepsSecrets {W : Type 0} (back : Backend W) (Safe : W → Type 0) : Type 0 where
  pub put :
      (body : Text) (w : W)
      → IsShownBody back.unmarshal back.marshal body
      → Safe w
      → Safe (back.blob_put body w).1
  pub insert_flow :
      (flow : Flow) (w : W)
      → IsShown flow.request_headers
      → IsShown flow.response_headers
      → Safe w
      → Safe (back.insert_flow flow w).1
  pub new_id : (prefix : Text) (w : W) → Safe w → Safe (back.new_id prefix w).1
  pub tag_flow : (id tag : Text) (w : W) → Safe w → Safe (back.tag_flow id tag w)

pub bind-Safe :
    {W A B : Type 0} (Safe : W → Type 0) (m : Action W A) (f : A → Action W B) (w : W)
    → Safe (m w).1
    → ((a : A) (u : W) → Safe u → Safe (f a u).1)
    → Safe ((m >>= f) w).1
unfolding ◌>>=◌
bind-Safe Safe m f w h g = elim (Result-cases (m w).0) [
  | inl (a, r) ↦ rw (r, ◌>>=◌) (g a (m w).1 h)
  | inr (t, r) ↦ rw (r, ◌>>=◌) h
]

pub tag_all-Safe :
    {W : Type 0} (back : Backend W) (Safe : W → Type 0) (keeps : KeepsSecrets back Safe) (id : Text)
    (tags : List Text) (w : W)
    → Safe w
    → Safe (tag_all back id tags w)
unfolding tag_all
tag_all-Safe back Safe keeps id [] w h = h
tag_all-Safe back Safe keeps id (tag ∷ tags) w h =
    tag_all-Safe back Safe keeps id tags _ (keeps.tag_flow id tag w h)
