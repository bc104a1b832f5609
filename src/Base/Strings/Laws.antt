-- ===== src/Base/Strings/Laws.antt =====
-- Laws of splitting, cutting and trimming.
use Prim.Native.Nat.{ℕ, ◌-◌}
use mathlib.Core.Path.{◌≡◌, refl}
use mathlib.Core.Logic.{◌≢◌, inl, inr}
use mathlib.Core.Bool.{Bool, true, false}
use mathlib.Core.List.{List, [], ◌∷◌, ◌++◌, reverse-append}
use native.Mathlib.Omega.{arith}
use deconstruct.Base.Tests.{◌==◌, Bool-cases, if◌then◌else◌}
use deconstruct.Base.Lists.{length, All, length-append, take-append_length}
use deconstruct.Base.Strings.{Text, split_step, split_on, cut, has_suffix, trim_suffix}

abbrev pub Lacks : ℕ → Text → Type 0
Lacks b = All (λ c. c ≢ b)

abbrev pub is_lacking : ℕ → Text → Bool
is_lacking b [] = true
is_lacking b (c ∷ s) = if c == b then false else is_lacking b s

-- a text that can be looked through
pub is_lacking-Lacks : (b : ℕ) (s : Text) → is_lacking b s ≡ true → Lacks b s
is_lacking-Lacks b [] h = tt
is_lacking-Lacks b (c ∷ s) h = (ground (arith, h), is_lacking-Lacks b s (ground (arith, h)))

-- a split has a first part
pub split_on-cons : (sep : ℕ) (s : Text) → (p : Text) × (ps : List Text) × (split_on sep s ≡ p ∷ ps)
unfolding split_on
split_on-cons sep [] = ([], [], refl)
split_on-cons sep (c ∷ s) = from_step (split_on-cons sep s)
  where
    from_step :
        (p : Text) × (ps : List Text) × (split_on sep s ≡ p ∷ ps)
        → (p : Text) × (ps : List Text) × (split_step sep c (split_on sep s) ≡ p ∷ ps)
    from_step (p, ps, e) = elim (Bool-cases (c == sep)) [
      | inl t ↦ ([], p ∷ ps, ground arith)
      | inr t ↦ (c ∷ p, ps, ground arith)
    ]

pub split_on-Lacks : (sep : ℕ) (s : Text) → Lacks sep s → split_on sep s ≡ s ∷ []
unfolding split_on
split_on-Lacks sep [] h = refl
split_on-Lacks sep (c ∷ s) (hc, hs) = ground (arith, split_on-Lacks sep s hs)

-- The last separator cuts off the last part.
pub split_on-append :
    (sep : ℕ) (s last : Text)
    → Lacks sep last
    → split_on sep (s ++ (sep ∷ last)) ≡ split_on sep s ++ (last ∷ [])
unfolding split_on
split_on-append sep [] last h = ground (arith, split_on-Lacks sep last h)
split_on-append sep (c ∷ s) last h =
    let (p, ps, e) = split_on-cons sep s in ground (arith, split_on-append sep s last h, e)

pub cut-append :
    (sep : ℕ) (s rest : Text) → Lacks sep s → cut sep (s ++ (sep ∷ rest)) ≡ (s, rest, true)
unfolding cut
cut-append sep [] rest h = ground arith
cut-append sep (c ∷ s) rest (hc, hs) = ground (arith, cut-append sep s rest hs)

pub cut-Lacks : (sep : ℕ) (s : Text) → Lacks sep s → cut sep s ≡ (s, [], false)
unfolding cut
cut-Lacks sep [] h = refl
cut-Lacks sep (c ∷ s) (hc, hs) = ground (arith, cut-Lacks sep s hs)

pub has_suffix-append : (s : Text) (c : ℕ) → has_suffix (s ++ c ∷ []) (c ∷ []) ≡ true
unfolding has_suffix
has_suffix-append s c = rw (reverse-append s (c ∷ [])) (ground arith)

pub trim_suffix-append : (s : Text) (c : ℕ) → trim_suffix (s ++ c ∷ []) (c ∷ []) ≡ s
unfolding trim_suffix
trim_suffix-append s c = rw (has_suffix-append s c) (
    let e : length (s ++ c ∷ []) - 1 ≡ length s = omega (arith, length-append s (c ∷ [])) in
    rw e (take-append_length s (c ∷ [])))

-- The first separator cuts off the first part.
pub split_on_first :
    (sep : ℕ) (first rest : Text)
    → Lacks sep first
    → split_on sep (first ++ (sep ∷ rest)) ≡ first ∷ split_on sep rest
unfolding split_on
split_on_first sep [] rest h = let (p, ps, e) = split_on-cons sep rest in ground (arith, e)
split_on_first sep (c ∷ first) rest (hc, h) = ground (arith, split_on_first sep first rest h)
