-- ===== src/Replay/Order.antt =====
-- `RunVariations` runs the variations one after the other.
use mathlib.Core.Path.{subst}
use deconstruct.Base.{
  ℕ, ◌+◌, Text, List, [], ◌∷◌, ◌++◌, append_assoc, append-nil, is_empty, Bool-cases, inl, inr, ◌≡◌,
  ◌≢◌, refl, sym, ◌∙◌, arith,
}
use deconstruct.Base.Decimal.{ℤ}
use deconstruct.Action.{bind-done, yield, fail}
use deconstruct.Store.{done}
use deconstruct.Replay.Engine.{Backend}
use deconstruct.Replay.Run.{
  Variation, VariationResult, run, variation_name, variation_params, variations_loop,
  run_variations,
}

module _ {W : Type 0} (back : Backend W) (flow_id : Text) (retries : ℤ) where
  -- The results of a list of variations from a position on: one run each, in order, each from the
  -- state that the one before it left.
  pub data InOrder : ℕ → List Variation → W → List VariationResult → W → Type 0 where
    none_left : {i : ℕ} {w : W} → InOrder i [] w [] w
    one_more :
        {i : ℕ} {v : Variation} {vs : List Variation} {w u x : W} {r : VariationResult}
        {rs : List VariationResult}
        → r.name ≡ variation_name back i v
        → run back (variation_params back flow_id retries v) w ≡ (done r.result, u)
        → InOrder (i + 1) vs u rs x
        → InOrder i (v ∷ vs) w (r ∷ rs) x

  variations_loop-InOrder :
      (i : ℕ) (vs : List Variation) (before all : List VariationResult) (w x : W)
      → variations_loop back flow_id retries i vs before w ≡ (done all, x)
      → (rs : List VariationResult) × (all ≡ before ++ rs) × InOrder i vs w rs x
  unfolding variations_loop yield
  variations_loop-InOrder i [] before all w x e =
      let same : w ≡ x = ground (arith, e) in
      let whole : before ≡ all = ground (arith, e) in
      ([], sym whole ∙ sym (append-nil before), subst (λ u. InOrder i [] w [] u) same none_left)
  variations_loop-InOrder i (v ∷ vs) before all w x e =
      let (result, u, ran, e1) = bind-done _ _ w x all e in
      let row : VariationResult = record { name = variation_name back i v; result = result } in
      let (rs, whole, rest) =
        variations_loop-InOrder (i + 1) vs (before ++ (row ∷ [])) all u x e1 in
      (row ∷ rs, whole ∙ append_assoc before (row ∷ []) rs, one_more refl ran rest)

  -- Variations that all succeed are one run each, in their order, each from the state that the run
  -- before it left, and there is one variation at least.
  pub run_variations-InOrder :
      (vs : List Variation) (rs : List VariationResult) (w x : W)
      → run_variations back flow_id vs retries w ≡ (done rs, x)
      → (vs ≢ []) × InOrder 0 vs w rs x
  unfolding run_variations fail
  run_variations-InOrder [] rs w x e = absurd (ground (arith, e))
  run_variations-InOrder (v ∷ vs) rs w x e = elim (Bool-cases (is_empty flow_id)) [
    | inl t ↦ absurd (ground (arith, rw (t, run_variations) at e))
    | inr f ↦
        let (all, whole, order) =
          variations_loop-InOrder 0 (v ∷ vs) [] rs w x (rw (f, run_variations) at e) in
        (ground arith, subst (λ l. InOrder 0 (v ∷ vs) w l x) (sym whole) order)
  ]
