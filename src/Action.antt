-- ===== src/Action.antt =====
-- Go functions that return a value or an error and act on the outside: a step of a state with a
-- `Result`, chained by `do` the way `if err != nil { return err }` chains them.
use deconstruct.Base.{arith, Text, ◌≡◌, refl, ◌⊎◌, inl, inr}
use deconstruct.Store.{Result, done, failed}

abbrev pub Action : Type 0 → Type 0 → Type 0
Action W A = W → Result A × W

module _ {W A B : Type 0} where
  infixl 5 ◌>>=◌
  unfoldable pub ◌>>=◌ : Action W A → (A → Action W B) → Action W B
  (m >>= f) w = elim (m w).0 [ done a ↦ f a (m w).1 | failed e ↦ (failed e, (m w).1) ]

module _ {W A : Type 0} where
  unfoldable pub fail : Text → Action W A
  fail e w = (failed e, w)

  unfoldable pub yield : A → Action W A
  yield a w = (done a, w)

  -- a result that is read off the state
  unfoldable pub look : (W → Result A) → Action W A
  look f w = (f w, w)

pub Result-cases :
    {A : Type 0} (r : Result A) → ((a : A) × (r ≡ done a)) ⊎ ((e : Text) × (r ≡ failed e))
Result-cases (done a) = inl (a, refl)
Result-cases (failed e) = inr (e, refl)

module _ {W A B : Type 0} (m : Action W A) (f : A → Action W B) where
  -- a chain that succeeds is two actions that succeed
  pub bind-done :
      (w v : W) (b : B)
      → (m >>= f) w ≡ (done b, v)
      → (a : A) × (u : W) × (m w ≡ (done a, u)) × (f a u ≡ (done b, v))
  unfolding ◌>>=◌
  bind-done w v b e = elim (Result-cases (m w).0) [
    | inl (a, h) ↦ (a, (m w).1, ground (arith, h), ground (arith, h, e))
    | inr (t, h) ↦ absurd (ground (arith, h, e))
  ]
