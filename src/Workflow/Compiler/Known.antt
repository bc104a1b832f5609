-- ===== src/Workflow/Compiler/Known.antt =====
-- The sources that the compiler keeps.
use deconstruct.Base.{
  ◌≤◌, true, none, some, List, [], ◌∷◌, length, length-append, lookup, insert, lookup-insert,
  text_eq_iff, text_eq_refl, All, All-append, All-imp, leb, inl, inr, Bool-cases, Option-cases, ◌≡◌,
  arith, Assoc,
}
use deconstruct.Workflow.Sources.{SourceValue, binding_value_useful}
use deconstruct.Workflow.Compiler.{max_binding_sources}
use deconstruct.Workflow.Compiler.Suggest.{Known, learn}

-- a source of use, which is the one that its value stands for
abbrev pub Stands : Assoc SourceValue → SourceValue → Type 0
Stands by_value s = (binding_value_useful s.value ≡ true) × (lookup s.value by_value ≡ some s)

abbrev pub IsGood : Known → Type 0
IsGood known =
    (length known.previous ≤ max_binding_sources) × All (Stands known.by_value) known.previous

Stands-insert :
    (source : SourceValue) (by_value : Assoc SourceValue) (s : SourceValue)
    → lookup source.value by_value ≡ none
    → Stands by_value s
    → Stands (insert source.value source by_value) s
Stands-insert source by_value s fresh (useful, e) = (
  useful,
  ground
      (arith, text_eq_iff source.value s.value, lookup-insert source.value s.value source by_value),
)

-- What the compiler keeps of the sources are at most 1000 of use, each the only one of its value.
pub learn-IsGood :
    (sources : List SourceValue) (known : Known) → IsGood known → IsGood (learn sources known)
unfolding learn
learn-IsGood [] known h = h
learn-IsGood (source ∷ sources) known (small, h) =
    elim (Bool-cases (leb max_binding_sources (length known.previous))) [
      | inl t ↦ rw t (small, h)
      | inr f ↦ elim (Bool-cases (binding_value_useful source.value)) [
        | inr u ↦ rw (f, u) (learn-IsGood sources known (small, h))
        | inl u ↦ elim (Option-cases (lookup source.value known.by_value)) [
          | inr (s, e) ↦ rw (f, u, e) (learn-IsGood sources known (small, h))
          | inl e ↦
              rw (f, u, e)
                (learn-IsGood sources _ (
                  ground (arith, f, length-append known.previous (source ∷ [])),
                  All-append _ known.previous _
                      (All-imp (λ s. Stands-insert source known.by_value s e) known.previous h)
                      (
                        (
                          u,
                          ground (
                            arith,
                            lookup-insert source.value source.value source known.by_value,
                            text_eq_refl source.value,
                          ),
                        ),
                        tt,
                      ),
                ))
        ]
      ]
    ]
