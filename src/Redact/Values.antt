-- ===== src/Redact/Values.antt =====
-- `JSON` and `Body`: nothing that stands under a sensitive name gets through.
use deconstruct.Base.{
  Text, Option, none, some, ◌≡◌, true, arith, refl, ap, inl, inr, Bool-cases, Option-cases, ◌∙◌,
}
use deconstruct.Json.{Json, Items, Fields, null, bool, num, str, arr, obj, nil, item, end, field}
use deconstruct.Redact.{
  placeholder, sensitive_name, redact_json, redact_items, redact_fields, redact_body,
}

-- values that are alike but for what stands under sensitive names, at any depth
mutual
  pub data SameButSecret : Json → Json → Type 0 where
    same : (j : Json) → SameButSecret j j
    arrays : {xs ys : Items} → SameItems xs ys → SameButSecret (arr xs) (arr ys)
    objects : {fs gs : Fields} → SameFields fs gs → SameButSecret (obj fs) (obj gs)

  pub data SameItems : Items → Items → Type 0 where
    none_left : SameItems nil nil
    one_more :
        {v w : Json} {vs ws : Items}
        → SameButSecret v w
        → SameItems vs ws
        → SameItems (item v vs) (item w ws)

  pub data SameFields : Fields → Fields → Type 0 where
    finished : SameFields end end
    shown :
        {k : Text} {v w : Json} {fs gs : Fields}
        → SameButSecret v w
        → SameFields fs gs
        → SameFields (field k v fs) (field k w gs)
    hidden :
        {k : Text} {v w : Json} {fs gs : Fields}
        → sensitive_name k ≡ true
        → SameFields fs gs
        → SameFields (field k v fs) (field k w gs)

mutual
  unfolding redact_json

  agree : {v w : Json} → SameButSecret v w → redact_json v ≡ redact_json w
  agree (same j) = refl
  agree (arrays h) = ap arr (agree_items h)
  agree (objects h) = ap obj (agree_fields h)

  agree_items : {vs ws : Items} → SameItems vs ws → redact_items vs ≡ redact_items ws
  agree_items none_left = refl
  agree_items (one_more h r) = cc (agree h, agree_items r)

  agree_fields : {fs gs : Fields} → SameFields fs gs → redact_fields fs ≡ redact_fields gs
  agree_fields finished = refl
  agree_fields (shown h r) = ground (arith, agree h, agree_fields r)
  agree_fields (hidden e r) = ground (arith, agree_fields r)

-- The redacted value does not depend on what stands under sensitive names: two values that differ
-- there only, at any depth, are redacted to one value.
pub redact_json-SameButSecret : {v w : Json} → SameButSecret v w → redact_json v ≡ redact_json w
redact_json-SameButSecret h = agree h

-- every sensitive name holds the placeholder, at any depth
abbrev mutual
  pub IsRedacted : Json → Type 0
  IsRedacted (arr xs) = AreRedacted xs
  IsRedacted (obj fs) = FieldsRedacted fs
  IsRedacted _ = Unit

  pub AreRedacted : Items → Type 0
  AreRedacted nil = Unit
  AreRedacted (item v vs) = IsRedacted v × AreRedacted vs

  pub FieldsRedacted : Fields → Type 0
  FieldsRedacted end = Unit
  FieldsRedacted (field k v fs) =
      (sensitive_name k ≡ true → v ≡ str placeholder) × IsRedacted v × FieldsRedacted fs

mutual
  unfolding redact_json

  clean : (v : Json) → IsRedacted (redact_json v)
  clean null = tt
  clean (bool b) = tt
  clean (num n) = tt
  clean (str s) = tt
  clean (arr xs) = clean_items xs
  clean (obj fs) = clean_fields fs

  clean_items : (vs : Items) → AreRedacted (redact_items vs)
  clean_items nil = tt
  clean_items (item v vs) = (clean v, clean_items vs)

  clean_fields : (fs : Fields) → FieldsRedacted (redact_fields fs)
  clean_fields end = tt
  clean_fields (field k v fs) = elim (Bool-cases (sensitive_name k)) [
    | inl e ↦ rw e (λ _. refl, tt, clean_fields fs)
    | inr e ↦ rw e (λ t. cc, clean v, clean_fields fs)
  ]

mutual
  unfolding redact_json

  fixed : (v : Json) → IsRedacted v → redact_json v ≡ v
  fixed null h = refl
  fixed (bool b) h = refl
  fixed (num n) h = refl
  fixed (str s) h = refl
  fixed (arr xs) h = ap arr (fixed_items xs h)
  fixed (obj fs) h = ap obj (fixed_fields fs h)

  fixed_items : (vs : Items) → AreRedacted vs → redact_items vs ≡ vs
  fixed_items nil h = refl
  fixed_items (item v vs) (h, r) = cc (fixed v h, fixed_items vs r)

  fixed_fields : (fs : Fields) → FieldsRedacted fs → redact_fields fs ≡ fs
  fixed_fields end h = refl
  fixed_fields (field k v fs) (e, h, r) = ground (arith, fixed v h, fixed_fields fs r)

-- Every sensitive name in the result, at any depth, holds the placeholder, and a value in which that
-- is so already is returned unchanged.
pub redact_json-IsRedacted :
    (v : Json) → IsRedacted (redact_json v) × (IsRedacted v → redact_json v ≡ v)
redact_json-IsRedacted v = (clean v, fixed v)

-- `encoding/json` is given by its two functions.
module _ (unmarshal : Text → Option Json) (marshal : Json → Text) where
  redact_body-some :
      (b : Text) (v : Json)
      → unmarshal b ≡ some v
      → redact_body unmarshal marshal b ≡ marshal (redact_json v)
  unfolding redact_body
  redact_body-some b v e = rw (e, redact_body)

  redact_body-none : (b : Text) → unmarshal b ≡ none → redact_body unmarshal marshal b ≡ b
  unfolding redact_body
  redact_body-none b e = rw (e, redact_body)

  -- Two JSON bodies that differ only under sensitive names give the same bytes.
  pub redact_body-SameButSecret :
      (a b : Text) {v w : Json}
      → unmarshal a ≡ some v
      → unmarshal b ≡ some w
      → SameButSecret v w
      → redact_body unmarshal marshal a ≡ redact_body unmarshal marshal b
  redact_body-SameButSecret a b {v} {w} ea eb h =
      cc (redact_body-some a v ea, redact_body-some b w eb, agree h)

  -- A body that is not JSON is returned as it is. One that is JSON gives bytes that decode to a value
  -- with the placeholder under every sensitive name, if what was marshalled decodes to itself; to
  -- redact those bytes again changes nothing.
  pub redact_body_stable :
      (body : Text)
      → ((v : Json)
          → unmarshal body ≡ some v
          → unmarshal (marshal (redact_json v)) ≡ some (redact_json v))
      → (unmarshal body ≡ none → redact_body unmarshal marshal body ≡ body)
        × ((v : Json)
            → unmarshal body ≡ some v
            → (w : Json) × (unmarshal (redact_body unmarshal marshal body) ≡ some w) × IsRedacted w)
        × (redact_body unmarshal marshal (redact_body unmarshal marshal body)
            ≡ redact_body unmarshal marshal body)
  redact_body_stable body back = elim (Option-cases (unmarshal body)) [
    | inl e ↦ (
      redact_body-none body,
      λ v e'. absurd (cc),
      rw (redact_body-none body e) (redact_body-none body e),
    )
    | inr (v, e) ↦ (
      λ e'. absurd (cc),
      λ w e'. (redact_json w, rw (redact_body-some body w e') (back w e'), clean w),
      rw (redact_body-some body v e) (
          redact_body-some (marshal (redact_json v)) (redact_json v) (back v e)
          ∙ ap marshal (fixed (redact_json v) (clean v))),
    )
  ]
