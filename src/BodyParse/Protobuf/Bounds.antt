-- ===== src/BodyParse/Protobuf/Bounds.antt =====
-- The loop of `parseProtobuf`: it ends, it stays within the body, and what it returns.
use mathlib.Core.Path.{subst}
use mathlib.Core.Option.{some-injective}
use deconstruct.Base.{
  ℕ, zero, suc, ◌+◌, ◌/◌, ◌%◌, ◌^◌, ◌≤◌, ◌<◌, Text, codes, some, List, [], ◌∷◌, ◌++◌, ◌≡◌, ◌≢◌, ◌⊎◌,
  inl, inr, Bool-cases, Option-cases, refl, arith, All, All-drop, All-append, length, length-append,
  length-drop, drop, ltb, ◌==◌, ◌&&◌,
}
use deconstruct.BodyParse.Varint.{IsByte, read_varint}
use deconstruct.BodyParse.Varint.RoundTrip.{read_varint_bounds}
use deconstruct.BodyParse.Protobuf.{
  ProtobufField, Step, read, malformed, panics, Outcome, ended, returned, panicked, stuck, slice,
  read_value, delimited, delimited_value, varint_value, fixed, parse_fields, parse_body, finish,
}

-- a varint at an offset within the body
pub varint_at :
    (body : Text) (offset v n : ℕ)
    → All IsByte body
    → offset ≤ length body
    → read_varint (drop offset body) ≡ some (v, n)
    → (v < 2 ^ 64) × (0 < n) × (offset + n ≤ length body)
varint_at body offset v n hb ho h = ground (
  arith,
  read_varint_bounds (drop offset body) v n (All-drop IsByte offset body hb) h,
  length-drop offset body,
)

fixed_bounds :
    (body : Text) (offset width : ℕ) (name value : Text) (to : ℕ)
    → fixed body offset name width ≡ read value to
    → (offset ≤ to) × (to ≤ length body)
unfolding fixed
fixed_bounds body offset width name value to h = ground arith

varint_value_bounds :
    (body : Text) (offset : ℕ) (value : Text) (to : ℕ)
    → All IsByte body
    → offset ≤ length body
    → varint_value body offset ≡ read value to
    → (offset ≤ to) × (to ≤ length body)
unfolding varint_value
varint_value_bounds body offset value to hb ho h =
    elim (Option-cases (read_varint (drop offset body))) [
      | inl e ↦ ground arith
      | inr ((v, n), e) ↦ ground (arith, varint_at body offset v n hb ho e)
    ]

delimited_value_bounds :
    (body : Text) (offset size : ℕ) (value : Text) (to : ℕ)
    → delimited_value body offset size ≡ read value to
    → (offset ≤ to) × (to ≤ length body)
unfolding delimited_value slice
delimited_value_bounds body offset size value to h = ground arith

delimited_bounds :
    (body : Text) (offset : ℕ) (value : Text) (to : ℕ)
    → All IsByte body
    → offset ≤ length body
    → delimited body offset ≡ read value to
    → (offset ≤ to) × (to ≤ length body)
unfolding delimited
delimited_bounds body offset value to hb ho h =
    elim (Option-cases (read_varint (drop offset body))) [
      | inl e ↦ ground arith
      | inr ((size, n), e) ↦ ground (
        arith,
        varint_at body offset size n hb ho e,
        delimited_value_bounds body (offset + n) size value to,
      )
    ]

-- The value of a field ends within the body, and not before the place where it starts.
pub read_value_bounds :
    (wire_type : ℕ) (body : Text) (offset : ℕ) (value : Text) (to : ℕ)
    → All IsByte body
    → offset ≤ length body
    → read_value wire_type body offset ≡ read value to
    → (offset ≤ to) × (to ≤ length body)
unfolding read_value
read_value_bounds wire_type body offset value to hb ho h = ground (
  arith,
  varint_value_bounds body offset value to hb ho,
  fixed_bounds body offset 8 (codes "fixed64:") value to,
  delimited_bounds body offset value to hb ho,
  fixed_bounds body offset 4 (codes "fixed32:") value to,
)

Step-cases :
    (s : Step)
    → ((value : Text) × (to : ℕ) × (s ≡ read value to)) ⊎ ((s ≡ malformed) ⊎ (s ≡ panics))
Step-cases (read value to) = inl (value, to, refl)
Step-cases malformed = inr (inl refl)
Step-cases panics = inr (inr refl)

-- the field that a key and a value make
abbrev pub made : ℕ → Text → ProtobufField
made key value = record { number = key / 8; wire_type = key % 8; value = value }

-- one round that reads a whole field
pub parse_fields_step :
    (fuel : ℕ) (body : Text) (offset : ℕ) (fields : List ProtobufField) (key used : ℕ)
    (value : Text) (to : ℕ)
    → offset < length body
    → length fields < 64
    → read_varint (drop offset body) ≡ some (key, used)
    → read_value (key % 8) body (offset + used) ≡ read value to
    → 8 ≤ key
    → parse_fields (suc fuel) body offset fields
      ≡ parse_fields fuel body to (fields ++ made key value ∷ [])
unfolding parse_fields
parse_fields_step fuel body offset fields key used value to ho hf ek ev hk = ground arith

-- The number of a field is one that the format allows, and its wire type one that the code reads.
abbrev pub IsWellFormed : ProtobufField → Type 0
IsWellFormed f =
    (0 < f.number)
    × (f.number < 2 ^ 61)
    × ((f.wire_type ≡ 0) ⊎ ((f.wire_type ≡ 1) ⊎ ((f.wire_type ≡ 2) ⊎ (f.wire_type ≡ 5))))

read_value_wire :
    (w : ℕ) (body : Text) (offset : ℕ) (value : Text) (to : ℕ)
    → read_value w body offset ≡ read value to
    → (w ≡ 0) ⊎ ((w ≡ 1) ⊎ ((w ≡ 2) ⊎ (w ≡ 5)))
unfolding read_value
read_value_wire w body offset value to h = ground arith

abbrev pub IsGood : List ProtobufField → Type 0
IsGood fs = (length fs ≤ 64) × All IsWellFormed fs

-- what the loop may end with
abbrev Ends : Text → Outcome → Type 0
Ends body (ended fs) = IsGood fs
Ends body (returned fs) = IsGood fs
Ends body panicked = Unit
Ends body stuck = ⊥

IsGood-made :
    (fields : List ProtobufField) (key : ℕ) (value : Text)
    → IsGood fields
    → length fields < 64
    → IsWellFormed (made key value)
    → IsGood (fields ++ made key value ∷ [])
IsGood-made fields key value (l, g) hl h = (
  omega (arith, length-append fields (made key value ∷ [])),
  All-append IsWellFormed fields (made key value ∷ []) g (h, tt),
)

-- what one round of the loop does
pub data Round (fuel : ℕ) (body : Text) (offset : ℕ) (fields : List ProtobufField) : Type 0 where
  over : parse_fields (suc fuel) body offset fields ≡ ended fields → Round fuel body offset fields
  cut_short :
      parse_fields (suc fuel) body offset fields ≡ returned fields → Round fuel body offset fields
  crash :
      (key used : ℕ)
      → read_varint (drop offset body) ≡ some (key, used)
      → read_value (key % 8) body (offset + used) ≡ panics
      → parse_fields (suc fuel) body offset fields ≡ panicked
      → Round fuel body offset fields
  goes_on :
      (key used : ℕ) (value : Text) (to : ℕ)
      → length fields < 64
      → 8 ≤ key
      → read_varint (drop offset body) ≡ some (key, used)
      → read_value (key % 8) body (offset + used) ≡ read value to
      → parse_fields (suc fuel) body offset fields
        ≡ parse_fields fuel body to (fields ++ made key value ∷ [])
      → Round fuel body offset fields

pub round :
    (fuel : ℕ) (body : Text) (offset : ℕ) (fields : List ProtobufField)
    → Round fuel body offset fields
unfolding parse_fields
round fuel body offset fields =
    elim (Bool-cases (ltb offset (length body) && ltb (length fields) 64)) [
      | inr e ↦ over (ground arith)
      | inl e ↦ elim (Option-cases (read_varint (drop offset body))) [
        | inl e2 ↦ over (ground arith)
        | inr ((key, used), e2) ↦ elim (Step-cases (read_value (key % 8) body (offset + used))) [
          | inr (inl e3) ↦ cut_short (ground arith)
          | inr (inr e3) ↦ crash key used e2 e3 (ground arith)
          | inl (value, to, e3) ↦ elim (Bool-cases (key / 8 == 0)) [
            | inl e4 ↦ over (ground arith)
            | inr e4 ↦ goes_on key used value to (ground arith) (ground arith) e2 e3 (ground arith)
          ]
        ]
      ]
    ]

parse_fields-Ends :
    (fuel : ℕ) (body : Text) (offset : ℕ) (fields : List ProtobufField)
    → All IsByte body
    → offset ≤ length body
    → length body < fuel + offset
    → IsGood fields
    → Ends body (parse_fields fuel body offset fields)
parse_fields-Ends zero body offset fields hb ho hf g = absurd (omega arith)
parse_fields-Ends (suc fuel) body offset fields hb ho hf g = elim (round fuel body offset fields) [
  | over e ↦ rw e g
  | cut_short e ↦ rw e g
  | crash key used ek ev e ↦ rw e tt
  | goes_on key used value to hl h8 ek ev e ↦
      let k = varint_at body offset key used hb ho ek in
      let b = read_value_bounds (key % 8) body (offset + used) value to hb k.2 ev in
      let w = read_value_wire (key % 8) body (offset + used) value to ev in
      rw e (
        parse_fields-Ends fuel body to (fields ++ made key value ∷ []) hb b.1 (omega (arith, k, b))
          (IsGood-made fields key value g hl (omega arith, omega (arith, k), w)))
]

Ends-ne-stuck : (body : Text) (o : Outcome) → Ends body o → o ≢ stuck
Ends-ne-stuck body (ended fs) h = λ e. cc e
Ends-ne-stuck body (returned fs) h = λ e. cc e
Ends-ne-stuck body panicked h = λ e. cc e
Ends-ne-stuck body stuck h = elim h [ ]

finish-IsGood :
    (body : Text) (o : Outcome) (fs : List ProtobufField)
    → Ends body o
    → finish o ≡ some (some fs)
    → IsGood fs
unfolding finish
finish-IsGood body (ended []) fs h e = absurd (cc)
finish-IsGood body (ended (g ∷ gs)) fs h e =
    subst IsGood (some-injective _ _ (some-injective _ _ e)) h
finish-IsGood body (returned gs) fs h e = subst IsGood (some-injective _ _ (some-injective _ _ e)) h
finish-IsGood body panicked fs h e = absurd (cc)
finish-IsGood body stuck fs h e = elim h [ ]

-- The loop ends within as many rounds as the body has bytes, and one more: the fuel never runs out.
-- A list of fields that is returned has at most 64 of them, each with a number from 1 to 2^61 - 1 and
-- one of the wire types 0, 1, 2 and 5.
pub parse_body-IsGood :
    (body : Text)
    → All IsByte body
    → (parse_fields (suc (length body)) body 0 [] ≢ stuck)
      × ((fs : List ProtobufField) → parse_body body ≡ some (some fs) → IsGood fs)
unfolding parse_body
parse_body-IsGood body hb =
    let h =
      parse_fields-Ends (suc (length body)) body 0 [] hb (omega arith) (omega arith)
        (omega arith) in
    (Ends-ne-stuck body _ h, λ fs e. finish-IsGood body _ fs h e)
