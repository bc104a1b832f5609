-- ===== src/Redact/Names.antt =====
-- Which names count as sensitive.
use deconstruct.Base.{
  Text, List, [], ◌∷◌, ◌≡◌, true, false, inl, inr, Bool-cases, arith, refl, ap, equal_fold,
  to_lower, text_eq_sound, text_eq_iff, Any, contains, has_prefix, member, ◌↔◌,
}
use deconstruct.Redact.{
  sensitive_name, sensitive_header, sensitive_headers, sensitive_fields, matches_any,
}

-- Two names that differ in the case of letters only are both sensitive or both not, as field names
-- and as header names.
pub sensitive_name-equal_fold :
    (s t : Text)
    → equal_fold s t ≡ true
    → (sensitive_name s ≡ sensitive_name t) × (sensitive_header s ≡ sensitive_header t)
unfolding sensitive_name sensitive_header equal_fold
sensitive_name-equal_fold s t h =
    let e = text_eq_sound (to_lower s) (to_lower t) h in
    (ap (λ l. matches_any l sensitive_fields) e, ap (λ l. member l sensitive_headers) e)

has_prefix_refl : (s : Text) → has_prefix s s ≡ true
unfolding has_prefix
has_prefix_refl [] = refl
has_prefix_refl (c ∷ s) = ground (arith, has_prefix_refl s)

contains_refl : (s : Text) → contains s s ≡ true
unfolding contains
contains_refl [] = refl
contains_refl (c ∷ s) = ground (arith, has_prefix_refl (c ∷ s))

matches_any_sound :
    (s : Text) (names : List Text)
    → matches_any s names ≡ true
    → Any (λ name. contains s name ≡ true) names
unfolding matches_any
matches_any_sound s [] h = cc
matches_any_sound s (n ∷ names) h = elim (Bool-cases (contains s n)) [
  | inl found ↦ inl found
  | inr absent ↦ inr (matches_any_sound s names (rest absent))
]
  where
    rest : contains s n ≡ false → matches_any s names ≡ true
    rest absent = ground (arith, text_eq_iff s n, contains_refl s)

matches_any_complete :
    (s : Text) (names : List Text)
    → Any (λ name. contains s name ≡ true) names
    → matches_any s names ≡ true
unfolding matches_any
matches_any_complete s [] h = elim h [ ]
matches_any_complete s (n ∷ names) (inl found) = ground arith
matches_any_complete s (n ∷ names) (inr later) = ground (arith, matches_any_complete s names later)

-- A name is sensitive exactly when its lower-case form contains one of the listed words: the test
-- for equality that stands beside the substring test in the code decides nothing more.
pub sensitive_name_iff :
    (name : Text)
    → (sensitive_name name ≡ true)
      ↔ Any (λ word. contains (to_lower name) word ≡ true) sensitive_fields
unfolding sensitive_name
sensitive_name_iff name = (
  matches_any_sound (to_lower name) sensitive_fields,
  matches_any_complete (to_lower name) sensitive_fields,
)
