-- ===== src/Workflow/Sources/Address.antt =====
-- Places in a JSON value: their print as a path of the walk, and what `jsonPathValue` makes of it.
use deconstruct.Base.{
  ℕ, ◌^◌, ◌<◌, Text, codes, true, Option, none, some, List, [], ◌∷◌, ◌++◌, map, append_assoc, ◌≡◌,
  ◌≢◌, refl, ap, ◌∙◌, inl, inr, Bool-cases, Option-cases, arith, All, All-append, text_eq,
  text_eq_sound, split_on, has_suffix, has_prefix, trim_prefix, ◌>>=◌,
}
use deconstruct.Base.Strings.Laws.{
  Lacks, split_on_first, split_on-append, cut-append, cut-Lacks, has_suffix-append,
  trim_suffix-append,
}
use deconstruct.Base.Decimal.{pos, decimal, atoi-decimal, decimal-IsDigit, IsDigit}
use deconstruct.Json.{Json}
use deconstruct.Workflow.Paths.{
  JsonPathToken, token_of, step_token, split_json_path, step_name, step_index, follow, resolve,
}
use deconstruct.Workflow.Sources.{child_path, item_path}

-- a place in a JSON value: the whole, a field, or an item of an array that is a field
pub data Address : Type 0 where
  top : Address
  at_name : Address → Text → Address
  at_item : Address → Text → ℕ → Address

unfoldable pub print : Address → Text
print top = codes "$"
print (at_name a k) = child_path (print a) k
print (at_item a k i) = item_path (child_path (print a) k) i

unfoldable pub at_key : Text → Option Json → Option Json
at_key k none = none
at_key k (some v) = step_name v k

unfoldable pub at_index : ℕ → Option Json → Option Json
at_index i none = none
at_index i (some v) = step_index v (some (pos i))

unfoldable pub find : Json → Address → Option Json
find root top = some root
find root (at_name a k) = at_key k (find root a)
find root (at_item a k i) = at_index i (at_key k (find root a))

-- a key that holds neither a dot nor an opening bracket
abbrev pub IsPlainKey : Text → Type 0
IsPlainKey k = Lacks b'.' k × Lacks b'[' k

abbrev pub IsClean : Address → Type 0
IsClean top = Unit
IsClean (at_name a k) = IsClean a × IsPlainKey k
IsClean (at_item a k i) = IsClean a × IsPlainKey k × (i < 2 ^ 63)

bracketed : Text → ℕ → Text
bracketed k i = k ++ (codes "[" ++ (decimal i ++ codes "]"))

parts : Address → List Text
parts top = []
parts (at_name a k) = parts a ++ (k ∷ [])
parts (at_item a k i) = parts a ++ (bracketed k i ∷ [])

pub child_path-append : (p k : Text) → child_path p k ≡ p ++ (b'.' ∷ k)
unfolding child_path
child_path-append p k = elim (Bool-cases (text_eq p (codes "$"))) [
  | inl e ↦ rw (e, text_eq_sound p (codes "$") e)
  | inr e ↦ rw e
]

pub token_of_name : (k : Text) → Lacks b'[' k → token_of k ≡ record { name = k; index = none }
unfolding token_of
token_of_name k h = ground (arith, cut-Lacks b'[' k h)

token_of_item :
    (k : Text) (i : ℕ)
    → Lacks b'[' k
    → i < 2 ^ 63
    → token_of (bracketed k i) ≡ record { name = k; index = some (pos i) }
unfolding token_of bracketed
token_of_item k i h hi =
    let inner = decimal i ++ codes "]" in
    let whole : (k ++ (codes "[" ++ decimal i)) ++ codes "]" ≡ bracketed k i =
      append_assoc k (codes "[" ++ decimal i) (codes "]") in
    let suffix : has_suffix (bracketed k i) (codes "]") ≡ true =
      rw (← whole) (has_suffix-append (k ++ (codes "[" ++ decimal i)) b']') in
    ground (
      arith,
      cut-append b'[' k inner h,
      suffix,
      trim_suffix-append (decimal i) b']',
      atoi-decimal i hi,
    )

pub All-digits : (s : Text) → All IsDigit s → Lacks b'.' s
All-digits [] h = tt
All-digits (c ∷ s) (h, hs) = (omega arith, All-digits s hs)

bracketed-Lacks : (k : Text) (i : ℕ) → Lacks b'.' k → Lacks b'.' (bracketed k i)
unfolding bracketed
bracketed-Lacks k i h =
    All-append (λ c. c ≢ b'.') k _ h
      (
        omega arith,
        All-append (λ c. c ≢ b'.') (decimal i) (codes "]")
            (All-digits (decimal i) (decimal-IsDigit i)) (omega arith),
      )

-- splitting the print of an address at its dots gives its parts behind the dollar
split-print : (a : Address) → IsClean a → split_on b'.' (print a) ≡ codes "$" ∷ parts a
unfolding print parts
split-print top h = unfold split_on in refl
split-print (at_name a k) (h, (dot, bracket)) =
    rw (child_path-append (print a) k, split_on-append b'.' (print a) k dot, split-print a h)
split-print (at_item a k i) (h, (dot, bracket), hi) =
    let e : print (at_item a k i) ≡ print a ++ (b'.' ∷ bracketed k i) =
      unfold item_path bracketed in
      rw (child_path-append (print a) k) (append_assoc (print a) (b'.' ∷ k) _) in
    rw
      (e, split_on-append b'.' (print a) (bracketed k i) (bracketed-Lacks k i dot), split-print a h)

follow-append :
    (root : Json) (ts : List JsonPathToken) (t : JsonPathToken)
    → follow root (ts ++ t ∷ []) ≡ (follow root ts >>= λ v. step_token v t)
unfolding follow
follow-append root [] t = elim (Option-cases (step_token root t)) [
  | inl e ↦ rw e
  | inr (v, e) ↦ rw e
]
follow-append root (s ∷ ts) t = elim (Option-cases (step_token root s)) [
  | inl e ↦ rw e
  | inr (v, e) ↦ rw e (follow-append v ts t)
]

map-last :
    (ps : List Text) (p : Text) → map token_of (ps ++ p ∷ []) ≡ map token_of ps ++ token_of p ∷ []
map-last [] p = refl
map-last (q ∷ ps) p = ap (λ l. token_of q ∷ l) (map-last ps p)

follow-last :
    (root : Json) (ps : List Text) (p : Text)
    → follow root (map token_of (ps ++ p ∷ []))
      ≡ (follow root (map token_of ps) >>= λ v. step_token v (token_of p))
follow-last root ps p = rw (map-last ps p) (follow-append root (map token_of ps) (token_of p))

then_name :
    (o : Option Json) (k : Text)
    → (o >>= λ v. step_token v (record { name = k; index = none })) ≡ at_key k o
unfolding step_token step_index at_key
then_name none k = refl
then_name (some v) k = ground arith

then_item :
    (o : Option Json) (k : Text) (i : ℕ)
    → (o >>= λ v. step_token v (record { name = k; index = some (pos i) }))
      ≡ at_index i (at_key k o)
unfolding step_token at_key at_index
then_item none k i = refl
then_item (some v) k i = ground arith

follow-parts :
    (root : Json) (a : Address) → IsClean a → follow root (map token_of (parts a)) ≡ find root a
unfolding parts find
follow-parts root top h = unfold follow in refl
follow-parts root (at_name a k) (h, (dot, bracket)) = rw (
  follow-last root (parts a) k,
  token_of_name k bracket,
  then_name (follow root (map token_of (parts a))) k,
  follow-parts root a h,
)
follow-parts root (at_item a k i) (h, (dot, bracket), hi) = rw (
  follow-last root (parts a) (bracketed k i),
  token_of_item k i bracket hi,
  then_item (follow root (map token_of (parts a))) k i,
  follow-parts root a h,
)

-- a print begins with the dollar, and a dot follows unless it is that of the whole
print_dot :
    (a : Address) (k : Text) → (rest : Text) × (child_path (print a) k ≡ b'$' ∷ (b'.' ∷ rest))
unfolding print item_path
print_dot top k = (k, child_path-append (codes "$") k)
print_dot (at_name a j) k =
    let (rest, e) = print_dot a j in
    (rest ++ (b'.' ∷ k), child_path-append (child_path (print a) j) k ∙ ap (λ t. t ++ (b'.' ∷ k)) e)
print_dot (at_item a j i) k =
    let (rest, e) = print_dot a j in
    let tail = rest ++ (codes "[" ++ (decimal i ++ codes "]")) in
    (
      tail ++ (b'.' ∷ k),
      child_path-append (item_path (child_path (print a) j) i) k
          ∙ ap (λ t. item_path t i ++ (b'.' ∷ k)) e,
    )

pub resolve_dot :
    (root : Json) (rest : Text) (ps : List Text)
    → split_on b'.' (b'$' ∷ (b'.' ∷ rest)) ≡ codes "$" ∷ ps
    → resolve root (b'$' ∷ (b'.' ∷ rest)) ≡ follow root (map token_of ps)
unfolding resolve split_json_path has_prefix trim_prefix
resolve_dot root rest ps h =
    let e : ps ≡ split_on b'.' rest =
      cc (h, split_on_first b'.' (codes "$") rest (omega arith, tt)) in
    rw e

resolve_under :
    (root : Json) (a : Address) (rest : Text)
    → print a ≡ b'$' ∷ (b'.' ∷ rest)
    → IsClean a
    → resolve root (print a) ≡ find root a
resolve_under root a rest e h =
    let split = split-print a h in
    rw e (resolve_dot root rest (parts a) (rw e at split)) ∙ follow-parts root a h

-- an address is resolved from its print
pub resolve-print : (root : Json) (a : Address) → IsClean a → resolve root (print a) ≡ find root a
unfolding print
resolve-print root top h = unfold resolve find in refl
resolve-print root (at_name a k) h =
    let (rest, e) = print_dot a k in resolve_under root (at_name a k) rest e h
resolve-print root (at_item a k i) h =
    let (rest, e) = print_dot a k in
    resolve_under root (at_item a k i) (rest ++ (codes "[" ++ (decimal i ++ codes "]")))
      (bracket_tail rest e) h
  where
    bracket_tail :
        (rest : Text)
        → child_path (print a) k ≡ b'$' ∷ (b'.' ∷ rest)
        → item_path (child_path (print a) k) i
          ≡ b'$' ∷ (b'.' ∷ (rest ++ (codes "[" ++ (decimal i ++ codes "]"))))
    bracket_tail rest e = ap (λ t. item_path t i) e ∙ unfold item_path in refl
