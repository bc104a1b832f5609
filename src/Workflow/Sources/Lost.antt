-- ===== src/Workflow/Sources/Lost.antt =====
-- Values that the walk records under a path at which the runner does not find them.
use deconstruct.Base.{
  ℕ, ◌+◌, Text, codes, true, Option, none, some, List, [], ◌∷◌, ◌++◌, ◌≡◌, ◌≢◌, refl, ap, ◌∙◌, inl,
  inr, Bool-cases, arith, All, All-append, All-imp, leb, length, if◌then◌else◌, has_prefix,
  has_suffix, trim_suffix, append_assoc,
}
use deconstruct.Base.Strings.Laws.{
  Lacks, split_on_first, split_on-Lacks, cut-append, has_suffix-append, trim_suffix-append,
}
use deconstruct.Base.Decimal.{decimal, atoi_junk, decimal-IsDigit}
use deconstruct.Workflow.Sources.Address.{
  IsPlainKey, resolve_dot, token_of_name, child_path-append, All-digits,
}
use deconstruct.Json.{Json, Items, Fields, null, bool, num, str, arr, obj, nil, item, end, field}
use deconstruct.Workflow.Paths.{token_of, follow, resolve}
use deconstruct.Workflow.Sources.{
  SourceValue, max_sources_per_response, primitive_text, child_path, item_path, record_source, walk,
  walk_items, walk_fields, json_primitive_sources,
}
use deconstruct.Workflow.Sources.Reach.{json_primitive_sources-some}

-- a path that leads into an array that is the whole response
abbrev pub IntoArray : Text → Type 0
IntoArray path = (rest : Text) × (path ≡ b'$' ∷ (b'[' ∷ rest))

abbrev HasPath : SourceValue → Type 0
HasPath s = IntoArray s.path

child-IntoArray : (path key : Text) → IntoArray path → IntoArray (child_path path key)
unfolding child_path
child-IntoArray path key (rest, e) = (rest ++ (codes "." ++ key), rw e)

item-IntoArray : (path : Text) (i : ℕ) → IntoArray path → IntoArray (item_path path i)
unfolding item_path
item-IntoArray path i (rest, e) = (rest ++ (codes "[" ++ (decimal i ++ codes "]")), rw e)

leaf :
    (step_id path : Text) (o : Option Text) (sources : List SourceValue)
    → IntoArray path
    → All HasPath sources
    → All HasPath (
        if leb max_sources_per_response (length sources)
        then sources
        else record_source step_id path o sources)
unfolding record_source
leaf step_id path o sources h g =
    elim (Bool-cases (leb max_sources_per_response (length sources))) [
      | inl t ↦ rw t g
      | inr f ↦ rw f (recorded o)
    ]
  where
    recorded : (o : Option Text) → All HasPath (record_source step_id path o sources)
    recorded none = g
    recorded (some t) = All-append HasPath sources _ g (h, tt)

mutual
  unfolding walk

  into :
      (step_id path : Text) (v : Json) (sources : List SourceValue)
      → IntoArray path
      → All HasPath sources
      → All HasPath (walk step_id path v sources)
  into step_id path null sources h g = leaf step_id path (primitive_text null) sources h g
  into step_id path (bool b) sources h g = leaf step_id path (primitive_text (bool b)) sources h g
  into step_id path (num t) sources h g = leaf step_id path (primitive_text (num t)) sources h g
  into step_id path (str t) sources h g = leaf step_id path (primitive_text (str t)) sources h g
  into step_id path (arr xs) sources h g =
      elim (Bool-cases (leb max_sources_per_response (length sources))) [
        | inl t ↦ rw t g
        | inr f ↦ rw f (into_items step_id path 0 xs sources h g)
      ]
  into step_id path (obj fs) sources h g =
      elim (Bool-cases (leb max_sources_per_response (length sources))) [
        | inl t ↦ rw t g
        | inr f ↦ rw f (into_fields step_id path fs sources h g)
      ]

  into_items :
      (step_id path : Text) (i : ℕ) (xs : Items) (sources : List SourceValue)
      → IntoArray path
      → All HasPath sources
      → All HasPath (walk_items step_id path i xs sources)
  into_items step_id path i nil sources h g = g
  into_items step_id path i (item v vs) sources h g =
      into_items step_id path (i + 1) vs _ h
        (into step_id (item_path path i) v sources (item-IntoArray path i h) g)

  into_fields :
      (step_id path : Text) (fs : Fields) (sources : List SourceValue)
      → IntoArray path
      → All HasPath sources
      → All HasPath (walk_fields step_id path fs sources)
  into_fields step_id path end sources h g = g
  into_fields step_id path (field k v fs) sources h g =
      into_fields step_id path fs _ h
        (into step_id (child_path path k) v sources (child-IntoArray path k h) g)

into_top :
    (step_id : Text) (i : ℕ) (xs : Items) (sources : List SourceValue)
    → All HasPath sources
    → All HasPath (walk_items step_id (codes "$") i xs sources)
unfolding walk
into_top step_id i nil sources g = g
into_top step_id i (item v vs) sources g =
    into_top step_id (i + 1) vs _
      (into step_id (item_path (codes "$") i) v sources (unfold item_path in (_, refl)) g)

IntoArray-resolve : (s : SourceValue) → HasPath s → (root : Json) → resolve root s.path ≡ none
unfolding resolve has_prefix
IntoArray-resolve s (rest, e) root = rw e

-- Of a response that is an array every source is lost: whatever value the runner looks into, it finds
-- nothing at the recorded path.
pub array_response_lost :
    (unmarshal : Text → Option Json) (step_id body : Text) (xs : Items)
    → unmarshal body ≡ some (arr xs)
    → All
        (λ s. (root : Json) → resolve root s.path ≡ none)
        (json_primitive_sources unmarshal step_id body)
array_response_lost unmarshal step_id body xs e =
    rw (json_primitive_sources-some unmarshal step_id body (arr xs) e)
      (All-imp IntoArray-resolve _ (unfold walk in into_top step_id 0 xs [] tt))

-- The item of an array that is itself an item: the runner drops both positions, and stops at the
-- outer array.
nested : Text → ℕ → ℕ → Text
nested k i j =
    k ++ (codes "[" ++ (decimal i ++ (codes "]" ++ (codes "[" ++ (decimal j ++ codes "]")))))

token_of-nested :
    (k : Text) (i j : ℕ)
    → Lacks b'[' k
    → token_of (nested k i j) ≡ record { name = k; index = none }
unfolding token_of nested
token_of-nested k i j h =
    let inner = decimal i ++ (codes "][" ++ decimal j) in
    let flat : inner ++ codes "]"
        ≡ decimal i ++ (codes "]" ++ (codes "[" ++ (decimal j ++ codes "]"))) =
      append_assoc (decimal i) (codes "][" ++ decimal j) (codes "]") in
    let whole : (k ++ (codes "[" ++ inner)) ++ codes "]" ≡ nested k i j =
      append_assoc k (codes "[" ++ inner) (codes "]") ∙ ap (λ t. k ++ (b'[' ∷ t)) flat in
    let suffix : has_suffix (nested k i j) (codes "]") ≡ true =
      rw (← whole) (has_suffix-append (k ++ (codes "[" ++ inner)) b']') in
    let trimmed : trim_suffix (decimal i ++ (codes "]" ++ (codes "[" ++ (decimal j ++ codes "]"))))
          (codes "]")
        ≡ inner =
      rw (← flat) (trim_suffix-append inner b']') in
    ground (
      arith,
      cut-append b'[' k (decimal i ++ (codes "]" ++ (codes "[" ++ (decimal j ++ codes "]")))) h,
      suffix,
      trimmed,
      atoi_junk i b']' (b'[' ∷ decimal j) (omega arith),
    )

nested-Lacks : (k : Text) (i j : ℕ) → Lacks b'.' k → Lacks b'.' (nested k i j)
unfolding nested
nested-Lacks k i j h =
    All-append (λ c. c ≢ b'.') k _ h
      (
        omega arith,
        All-append (λ c. c ≢ b'.') (decimal i) _ (All-digits (decimal i) (decimal-IsDigit i))
            (
              omega arith,
              (
                omega arith,
                All-append (λ c. c ≢ b'.') (decimal j) _
                    (All-digits (decimal j) (decimal-IsDigit j)) (omega arith),
              ),
            ),
      )

resolve_one :
    (root : Json) (part : Text)
    → Lacks b'.' part
    → resolve root (codes "$." ++ part) ≡ follow root (token_of part ∷ [])
resolve_one root part h = resolve_dot root part (part ∷ []) (
    split_on_first b'.' (codes "$") part (omega arith, tt)
    ∙ ap (λ l. codes "$" ∷ l) (split_on-Lacks b'.' part h))

-- A value in an array that is itself an item of an array is recorded under a path from which the
-- runner drops both positions: what it finds there is the outer array.
pub nested_array_lost :
    (root : Json) (k : Text) (i j : ℕ)
    → IsPlainKey k
    → resolve root (item_path (item_path (child_path (codes "$") k) i) j)
      ≡ resolve root (child_path (codes "$") k)
nested_array_lost root k i j (dot, bracket) =
    let e : item_path (item_path (child_path (codes "$") k) i) j ≡ codes "$." ++ nested k i j =
      unfold item_path child_path nested in
      ap (λ t. b'$' ∷ (b'.' ∷ t))
        (append_assoc k (codes "[" ++ (decimal i ++ codes "]"))
            (codes "[" ++ (decimal j ++ codes "]"))
          ∙ ap (λ t. k ++ (b'[' ∷ t))
              (append_assoc (decimal i) (codes "]") (codes "[" ++ (decimal j ++ codes "]")))) in
    rw (
      e,
      child_path-append (codes "$") k,
      resolve_one root (nested k i j) (nested-Lacks k i j dot),
      resolve_one root k dot,
      token_of-nested k i j bracket,
      token_of_name k bracket,
    )
