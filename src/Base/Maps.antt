-- ===== src/Base/Maps.antt =====
-- Go maps with string keys as association lists. Every map that the model builds goes through
-- `insert`, which keeps one entry for a key.
use mathlib.Core.Path.{◌≡◌, refl, ◌∙◌, subst}
use mathlib.Core.Logic.{inl, inr}
use mathlib.Core.Option.{some-injective}
use mathlib.Core.Bool.{Bool, false, ◌||◌}
use mathlib.Core.Option.{Option, none, some}
use mathlib.Core.List.{List, [], ◌∷◌, ◌++◌}
use native.Mathlib.Omega.{arith}
use deconstruct.Base.Tests.{Bool-cases, if◌then◌else◌}
use deconstruct.Base.Lists.{All}
use deconstruct.Base.Strings.{Text, text_eq, text_eq_iff, text_eq_sound}

abbrev pub Assoc {ℓ} : Type ℓ → Type ℓ
Assoc V = List (Text × V)

module _ {ℓ} {V : Type ℓ} where
  unfoldable pub lookup : Text → Assoc V → Option V
  lookup k [] = none
  lookup k ((j, v) ∷ m) = if text_eq j k then some v else lookup k m

  unfoldable pub insert : Text → V → Assoc V → Assoc V
  insert k v [] = (k, v) ∷ []
  insert k v ((j, w) ∷ m) = if text_eq j k then (k, v) ∷ m else (j, w) ∷ insert k v m

  unfoldable pub remove : Text → Assoc V → Assoc V
  remove k [] = []
  remove k ((j, w) ∷ m) = let rest = remove k m in if text_eq j k then rest else (j, w) ∷ rest

  pub lookup-insert :
      (k j : Text) (v : V) (m : Assoc V)
      → lookup j (insert k v m) ≡ (if text_eq k j then some v else lookup j m)
  unfolding lookup insert
  lookup-insert k j v [] = refl
  lookup-insert k j v ((i, w) ∷ m) =
      ground (arith, text_eq_iff k j, text_eq_iff i k, text_eq_iff i j, lookup-insert k j v m)

  pub lookup-remove :
      (k j : Text) (m : Assoc V)
      → lookup j (remove k m) ≡ (if text_eq k j then none else lookup j m)
  unfolding lookup remove
  lookup-remove k j [] = ground arith
  lookup-remove k j ((i, w) ∷ m) =
      ground (arith, text_eq_iff k j, text_eq_iff i k, text_eq_iff i j, lookup-remove k j m)

abbrev pub keys {ℓ} : {V : Type ℓ} → Assoc V → List Text
keys [] = []
keys ((k, v) ∷ m) = k ∷ keys m

-- whether a list of strings holds a string
unfoldable pub member : Text → List Text → Bool
member t [] = false
member t (x ∷ xs) = text_eq x t || member t xs

-- no text twice
abbrev pub Distinct : List Text → Type 0
Distinct [] = Unit
Distinct (t ∷ ts) = (member t ts ≡ false) × Distinct ts

pub member-append :
    (t : Text) (xs ys : List Text) → member t (xs ++ ys) ≡ (member t xs || member t ys)
unfolding member
member-append t [] ys = refl
member-append t (x ∷ xs) ys = ground (arith, member-append t xs ys)

pub append-Distinct :
    (t : Text) (xs : List Text) → member t xs ≡ false → Distinct xs → Distinct (xs ++ (t ∷ []))
unfolding member
append-Distinct t [] h d = (refl, tt)
append-Distinct t (x ∷ xs) h (n, d) = (
  member-append x xs (t ∷ []) ∙ ground (arith, n, h, text_eq_iff x t, text_eq_iff t x),
  append-Distinct t xs (ground (arith, h)) d,
)

module _ {V : Type 0} where
  pub member-keys-insert :
      (t k : Text) (v : V) (m : Assoc V)
      → member t (keys (insert k v m)) ≡ (text_eq k t || member t (keys m))
  unfolding member insert
  member-keys-insert t k v [] = refl
  member-keys-insert t k v ((j, w) ∷ m) =
      ground (arith, text_eq_iff j k, text_eq_iff k t, text_eq_iff j t, member-keys-insert t k v m)

  pub insert-Distinct :
      (k : Text) (v : V) (m : Assoc V) → Distinct (keys m) → Distinct (keys (insert k v m))
  unfolding member insert
  insert-Distinct k v [] d = (refl, tt)
  insert-Distinct k v ((j, w) ∷ m) (n, d) = elim (Bool-cases (text_eq j k)) [
    | inl e ↦ rw (e, insert) (subst (λ x. member x (keys m) ≡ false) (text_eq_sound j k e) n, d)
    | inr e ↦
        rw (e, insert)
          (
            member-keys-insert j k v m ∙ ground (arith, n, e, text_eq_iff j k, text_eq_iff k j),
            insert-Distinct k v m d,
          )
  ]

  module _ (P : Text × V → Type 0) where
    pub All-insert : (k : Text) (v : V) (m : Assoc V) → P (k, v) → All P m → All P (insert k v m)
    unfolding insert
    All-insert k v [] h hs = (h, tt)
    All-insert k v ((j, w) ∷ m) h (g, gs) = elim (Bool-cases (text_eq j k)) [
      | inl e ↦ rw (e, insert) (h, gs)
      | inr e ↦ rw (e, insert) (g, All-insert k v m h gs)
    ]

    pub All-lookup : (k : Text) (v : V) (m : Assoc V) → All P m → lookup k m ≡ some v → P (k, v)
    unfolding lookup
    All-lookup k v [] hs e = absurd (ground (arith, e))
    All-lookup k v ((j, w) ∷ m) (g, gs) e = elim (Bool-cases (text_eq j k)) [
      | inl t ↦
          let same : w ≡ v = some-injective w v (rw (t, lookup) at e) in
          subst (λ x. P (x, v)) (text_eq_sound j k t) (subst (λ x. P (j, x)) same g)
      | inr t ↦ All-lookup k v m gs (rw (t, lookup) at e)
    ]
