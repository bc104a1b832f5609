-- ===== src/Fidelity/Advice.antt =====
-- What is recommended, for every flow and all tags.
use deconstruct.Base.{
  Text, codes, true, false, ◌||◌, List, ◌≡◌, refl, sym, arith, inl, inr, Bool-cases, map, to_lower,
  text_eq, member, if◌then◌else◌,
}
use mathlib.Core.Path.{subst}
use deconstruct.Action.{Result-cases}
use deconstruct.Store.{Flow, done}
use deconstruct.Fidelity.{
  Diagnostics, TagStore, standard, is_streaming, is_binary, is_interactive, has_credentials, advise,
  tags_for_flow, diagnose, profiles,
}

-- advice that fits a flow and its tags
pub record IsAdvice (flow : Flow) (tags : List Text) (d : Diagnostics) : Type 0 where
  pub about : d.flow_id ≡ flow.id
  pub known : member d.recommended (map (λ p. p.id) profiles) ≡ true
  pub streams : text_eq d.recommended (codes "browser") ≡ is_streaming tags
  pub plain :
      text_eq d.recommended (codes "standard") ≡ true
      → (is_binary tags
          || (if is_interactive (to_lower flow.url) || has_credentials flow.request_headers
              then false
              else true))
        ≡ true
  pub visible : d.visibility ≡ (
      if text_eq d.recommended (codes "passthrough")
      then codes "metadata"
      else codes "request_response")

advise-IsAdvice : (flow : Flow) (tags : List Text) → IsAdvice flow tags (advise flow tags)
unfolding advise standard member
advise-IsAdvice flow tags = elim (Bool-cases (is_streaming tags)) [
  | inl e ↦
      rw (e, advise)
        (record {
          about = refl;
          known = refl;
          streams = sym e;
          plain = λ h. absurd (ground (arith, h));
          visible = refl;
        })
  | inr e ↦ elim (Bool-cases (is_binary tags)) [
    | inl b ↦
        rw (e, b, advise)
          (record {
            about = refl;
            known = refl;
            streams = sym e;
            plain = λ h. rw (b) refl;
            visible = refl;
          })
    | inr b ↦ elim (Bool-cases (is_interactive (to_lower flow.url))) [
      | inl i ↦
          rw (e, b, i, advise)
            (record {
              about = refl;
              known = refl;
              streams = sym e;
              plain = λ h. absurd (ground (arith, h));
              visible = refl;
            })
      | inr i ↦ elim (Bool-cases (has_credentials flow.request_headers)) [
        | inl c ↦
            rw (e, b, i, c, advise)
              (record {
                about = refl;
                known = refl;
                streams = sym e;
                plain = λ h. absurd (ground (arith, h));
                visible = refl;
              })
        | inr c ↦
            rw (e, b, i, c, advise)
              (record {
                about = refl;
                known = refl;
                streams = sym e;
                plain = λ h. rw (b, i, c) refl;
                visible = refl;
              })
      ]
    ]
  ]
]

-- A diagnosis that succeeds is about the flow that the store gives and fits its tags, none where the
-- store gives no tags: its profile is one of those there are, a streaming flow alone gets the browser,
-- the plain profile is for binary flows and for those that are neither interactive nor bear
-- credentials, and what is passed through, and nothing else, shows metadata only.
pub diagnose-IsAdvice :
    {W : Type 0} (store : TagStore W) (flow_id : Text) (w : W) (d : Diagnostics)
    → diagnose store flow_id w ≡ done d
    → (flow : Flow) × (store.get_flow flow_id w ≡ done flow)
      × IsAdvice flow (tags_for_flow store flow_id w) d
unfolding diagnose
diagnose-IsAdvice store flow_id w d h = elim (Result-cases (store.get_flow flow_id w)) [
  | inr (t, e) ↦ absurd (ground (arith, e, h))
  | inl (flow, e) ↦
      let same : advise flow (tags_for_flow store flow_id w) ≡ d =
        given _ d (rw (e, diagnose) at h) in
      (
        flow,
        e,
        subst (IsAdvice flow (tags_for_flow store flow_id w)) same
            (advise-IsAdvice flow (tags_for_flow store flow_id w)),
      )
]
  where
    given : (a b : Diagnostics) → done a ≡ done b → a ≡ b
    given a b e = ground (arith, e)
