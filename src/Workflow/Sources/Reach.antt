-- ===== src/Workflow/Sources/Reach.antt =====
-- What the walk records, the runner finds again: a recorded path leads to the recorded value.
use deconstruct.Base.{
  ℕ, suc, ◌+◌, ◌^◌, ◌≤◌, Text, codes, Option, none, some, List, [], ◌≡◌, refl, ap, ◌∙◌, inl, inr,
  Bool-cases, Option-cases, arith, All, All-append, text_eq_iff, text_eq_refl, leb, length,
  if◌then◌else◌,
}
use deconstruct.Json.{
  Json, Items, Fields, null, bool, num, str, arr, obj, nil, item, end, field, get_field, get_item,
}
use deconstruct.Workflow.Paths.{resolve, step_name, step_index}
use deconstruct.Workflow.Sources.{
  SourceValue, max_sources_per_response, primitive_text, record_source, walk, walk_items,
  walk_fields, json_primitive_sources,
}
use deconstruct.Workflow.Sources.Address.{
  Address, top, at_name, at_item, print, find, at_key, at_index, IsPlainKey, IsClean, resolve-print,
}

abbrev pub count_items : Items → ℕ
count_items nil = 0
count_items (item v vs) = suc (count_items vs)

abbrev pub NotArray : Json → Type 0
NotArray (arr xs) = ⊥
NotArray _ = Unit

-- A value in which every key is plain and stands once in its object, no array has an array for an
-- item, and the positions in arrays are ints.
abbrev mutual
  pub IsPlain : Json → Type 0
  IsPlain (arr xs) = (count_items xs ≤ 2 ^ 63) × ArePlain xs
  IsPlain (obj fs) = FieldsPlain fs
  IsPlain _ = Unit

  pub ArePlain : Items → Type 0
  ArePlain nil = Unit
  ArePlain (item v vs) = NotArray v × IsPlain v × ArePlain vs

  pub FieldsPlain : Fields → Type 0
  FieldsPlain end = Unit
  FieldsPlain (field k v fs) = IsPlainKey k × (get_field k fs ≡ none) × IsPlain v × FieldsPlain fs

-- the runner finds the value of a source at its path
abbrev pub IsFound : Json → SourceValue → Type 0
IsFound root s = (v : Json) × (resolve root s.path ≡ some v) × (primitive_text v ≡ some s.value)

-- an array may stand where a field leads
abbrev Holds : Address → Json → Type 0
Holds (at_name a k) v = Unit
Holds a v = NotArray v

module _ (step_id : Text) (root : Json) where
  record-IsFound :
      (a : Address) (v : Json) (sources : List SourceValue)
      → IsClean a
      → find root a ≡ some v
      → All (IsFound root) sources
      → All (IsFound root) (record_source step_id (print a) (primitive_text v) sources)
  unfolding record_source
  record-IsFound a v sources h e g = elim (Option-cases (primitive_text v)) [
    | inl e2 ↦ rw e2 g
    | inr (t, e2) ↦
        rw e2 (All-append (IsFound root) sources _ g ((v, resolve-print root a h ∙ e, e2), tt))
  ]

  -- a value that is no container
  leaf :
      (a : Address) (v : Json) (sources : List SourceValue)
      → IsClean a
      → find root a ≡ some v
      → All (IsFound root) sources
      → All (IsFound root) (
          if leb max_sources_per_response (length sources)
          then sources
          else record_source step_id (print a) (primitive_text v) sources)
  leaf a v sources h e g = elim (Bool-cases (leb max_sources_per_response (length sources))) [
    | inl t ↦ rw t g
    | inr f ↦ rw f (record-IsFound a v sources h e g)
  ]

-- the rest of an object's entries, looked up in the whole object
abbrev Within : Fields → Fields → Type 0
Within fs whole = (k : Text) (v : Json) → get_field k fs ≡ some v → get_field k whole ≡ some v

Within-head :
    (key : Text) (v : Json) (fs whole : Fields)
    → Within (field key v fs) whole
    → get_field key whole ≡ some v
Within-head key v fs whole h = h key v (unfold get_field in rw (text_eq_refl key))

Within-tail :
    (key : Text) (v : Json) (fs whole : Fields)
    → get_field key fs ≡ none
    → Within (field key v fs) whole
    → Within fs whole
unfolding get_field
Within-tail key v fs whole e h k w e2 = h k w (ground (arith, text_eq_iff key k))

-- the items from a position on, looked up in the whole array
abbrev From : ℕ → Items → Items → Type 0
From i xs whole = (j : ℕ) → get_item whole (i + j) ≡ get_item xs j

From-tail : (i : ℕ) (v : Json) (vs whole : Items) → From i (item v vs) whole → From (i + 1) vs whole
unfolding get_item
From-tail i v vs whole h j = let e : i + 1 + j ≡ i + suc j = omega arith in rw e (h (suc j))

From-head :
    (i : ℕ) (v : Json) (vs whole : Items) → From i (item v vs) whole → get_item whole i ≡ some v
unfolding get_item
From-head i v vs whole h = let e : i ≡ i + 0 = omega arith in rw e (h 0)

find_item :
    (root : Json) (a : Address) (k : Text) (i : ℕ) (v : Json) (vs whole : Items)
    → find root (at_name a k) ≡ some (arr whole)
    → From i (item v vs) whole
    → find root (at_item a k i) ≡ some v
unfolding find at_index step_index
find_item root a k i v vs whole e fr = ap (at_index i) e ∙ From-head i v vs whole fr

find_name :
    (root : Json) (a : Address) (k : Text) (v : Json) (fs whole : Fields)
    → find root a ≡ some (obj whole)
    → Within (field k v fs) whole
    → find root (at_name a k) ≡ some v
unfolding find at_key step_name
find_name root a k v fs whole e w = ap (at_key k) e ∙ Within-head k v fs whole w

mutual
  unfolding walk print

  reach :
      (step_id : Text) (root v : Json) (a : Address) (sources : List SourceValue)
      → IsClean a
      → IsPlain v
      → Holds a v
      → find root a ≡ some v
      → All (IsFound root) sources
      → All (IsFound root) (walk step_id (print a) v sources)
  reach step_id root null a sources h p n e g = leaf step_id root a null sources h e g
  reach step_id root (bool b) a sources h p n e g = leaf step_id root a (bool b) sources h e g
  reach step_id root (num t) a sources h p n e g = leaf step_id root a (num t) sources h e g
  reach step_id root (str t) a sources h p n e g = leaf step_id root a (str t) sources h e g
  reach step_id root (arr xs) top sources h p n e g = elim n [ ]
  reach step_id root (arr xs) (at_item a k i) sources h p n e g = elim n [ ]
  reach step_id root (arr xs) (at_name a k) sources h (small, p) n e g =
      elim (Bool-cases (leb max_sources_per_response (length sources))) [
        | inl t ↦ rw t g
        | inr f ↦ rw f (
            reach_items step_id root xs xs a k 0 sources h p (omega (arith, small))
              (λ j. ap (get_item xs) (omega arith)) e g)
      ]
  reach step_id root (obj fs) a sources h p n e g =
      elim (Bool-cases (leb max_sources_per_response (length sources))) [
        | inl t ↦ rw t g
        | inr f ↦ rw f (reach_fields step_id root fs fs a sources h p (λ k v q. q) e g)
      ]

  reach_items :
      (step_id : Text) (root : Json) (xs whole : Items) (a : Address) (k : Text) (i : ℕ)
      (sources : List SourceValue)
      → IsClean (at_name a k)
      → ArePlain xs
      → i + count_items xs ≤ 2 ^ 63
      → From i xs whole
      → find root (at_name a k) ≡ some (arr whole)
      → All (IsFound root) sources
      → All (IsFound root) (walk_items step_id (print (at_name a k)) i xs sources)
  reach_items step_id root nil whole a k i sources h p b fr e g = g
  reach_items step_id root (item v vs) whole a k i sources h (n, p, ps) b fr e g =
      reach_items step_id root vs whole a k (i + 1) _ h ps (omega (arith, b))
        (From-tail i v vs whole fr) e
        (reach step_id root v (at_item a k i) sources (h.0, h.1, omega (arith, b)) p n
          (find_item root a k i v vs whole e fr) g)

  reach_fields :
      (step_id : Text) (root : Json) (fs whole : Fields) (a : Address) (sources : List SourceValue)
      → IsClean a
      → FieldsPlain fs
      → Within fs whole
      → find root a ≡ some (obj whole)
      → All (IsFound root) sources
      → All (IsFound root) (walk_fields step_id (print a) fs sources)
  reach_fields step_id root end whole a sources h p w e g = g
  reach_fields step_id root (field k v fs) whole a sources h (key, once, p, ps) w e g =
      reach_fields step_id root fs whole a _ h ps (Within-tail k v fs whole once w) e (
        reach step_id root v (at_name a k) sources (h, key) p tt (find_name root a k v fs whole e w)
          g)

pub json_primitive_sources-some :
    (unmarshal : Text → Option Json) (step_id body : Text) (root : Json)
    → unmarshal body ≡ some root
    → json_primitive_sources unmarshal step_id body ≡ walk step_id (codes "$") root []
unfolding json_primitive_sources
json_primitive_sources-some unmarshal step_id body root e = rw (e, json_primitive_sources)

-- Every source that a response gives is found by the runner at its recorded path, with the recorded
-- value, if the response is no array, no array in it has an array for an item, and its keys hold
-- neither a dot nor an opening bracket.
pub json_primitive_sources-IsFound :
    (unmarshal : Text → Option Json) (step_id body : Text) (root : Json)
    → unmarshal body ≡ some root
    → IsPlain root
    → NotArray root
    → All (IsFound root) (json_primitive_sources unmarshal step_id body)
unfolding print find
json_primitive_sources-IsFound unmarshal step_id body root e p n =
    rw (json_primitive_sources-some unmarshal step_id body root e)
      (reach step_id root root top [] tt p n refl tt)
