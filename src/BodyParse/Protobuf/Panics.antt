-- ===== src/BodyParse/Protobuf/Panics.antt =====
-- When the slice expression of the length-delimited case is out of range.
use native.Mathlib.Nat.{zero-add}
use deconstruct.Base.{
  ℕ, zero, suc, ◌+◌, ◌%◌, ◌^◌, ◌≤◌, ◌<◌, ◌*◌, Text, none, some, List, [], ◌∷◌, ◌++◌, ◌≡◌, ◌⊎◌, inl,
  inr, Option-cases, arith, All, refl, sym, ap, ◌∙◌, length, length-append, drop,
  drop-append_length,
}
use deconstruct.BodyParse.Varint.{IsByte, read_varint}
use deconstruct.BodyParse.Protobuf.{
  ProtobufField, panics, Outcome, ended, returned, panicked, stuck, exceeds, slice, read_value,
  delimited, delimited_value, varint_value, fixed, parse_fields, parse_body, parse_protobuf, finish,
}
use deconstruct.BodyParse.Protobuf.Bounds.{
  varint_at, over, cut_short, crash, goes_on, round, read_value_bounds, made, parse_body-IsGood,
}
use deconstruct.BodyParse.Varint.RoundTrip.{
  varint, read_varint-varint, length-varint-pos, varint-head,
}
use deconstruct.BodyParse.Protobuf.RoundTrip.{unframed}

-- A length that is an `int`, and whose end, counted from the start of the body, is none.
abbrev pub HugeLength : Text → Type 0
HugeLength body =
    (offset : ℕ) × (size : ℕ) × (used : ℕ) × (offset ≤ length body)
    × (read_varint (drop offset body) ≡ some (size, used))
    × (size < 2 ^ 63)
    × (2 ^ 63 ≤ offset + used + size)

delimited_value_panics :
    (body : Text) (offset size : ℕ)
    → delimited_value body offset size ≡ panics
    → (2 ^ 63 ≤ offset + size) ⊎ (length body < offset + size)
unfolding delimited_value slice
delimited_value_panics body offset size h = ground arith

delimited_panics :
    (body : Text) (offset : ℕ)
    → offset ≤ length body
    → delimited body offset ≡ panics
    → HugeLength body
unfolding delimited exceeds
delimited_panics body offset ho h = elim (Option-cases (read_varint (drop offset body))) [
  | inl e ↦ absurd (ground arith)
  | inr ((size, used), e) ↦ (
    offset,
    size,
    used,
    ho,
    e,
    ground arith,
    ground (arith, delimited_value_panics body (offset + used) size),
  )
]

read_value_panics :
    (w : ℕ) (body : Text) (offset : ℕ)
    → read_value w body offset ≡ panics
    → delimited body offset ≡ panics
unfolding read_value varint_value fixed
read_value_panics w body offset h = ground arith

panicked_cause :
    (fuel : ℕ) (body : Text) (offset : ℕ) (fields : List ProtobufField)
    → All IsByte body
    → offset ≤ length body
    → parse_fields fuel body offset fields ≡ panicked
    → HugeLength body
unfolding parse_fields
panicked_cause zero body offset fields hb ho h = absurd (cc)
panicked_cause (suc fuel) body offset fields hb ho h = elim (round fuel body offset fields) [
  | over e ↦ absurd (cc)
  | cut_short e ↦ absurd (cc)
  | crash key used ek ev e ↦
      delimited_panics body (offset + used) (varint_at body offset key used hb ho ek).2
        (read_value_panics (key % 8) body (offset + used) ev)
  | goes_on key used value to hl h8 ek ev e ↦
      let k = varint_at body offset key used hb ho ek in
      let b = read_value_bounds (key % 8) body (offset + used) value to hb k.2 ev in
      panicked_cause fuel body to (fields ++ made key value ∷ []) hb b.1 (sym e ∙ h)
]

finish-none : (o : Outcome) → finish o ≡ none → (o ≡ panicked) ⊎ (o ≡ stuck)
unfolding finish
finish-none (ended []) e = absurd (cc)
finish-none (ended (f ∷ fs)) e = absurd (cc)
finish-none (returned fs) e = absurd (cc)
finish-none panicked e = inl refl
finish-none stuck e = inr refl

-- The parser panics on no body but one that holds a huge length: a varint below 2^63 whose end,
-- counted from the start of the body, is 2^63 or more.
pub parse_body-HugeLength :
    (body : Text) → All IsByte body → parse_body body ≡ none → HugeLength body
unfolding parse_body
parse_body-HugeLength body hb e = elim (finish-none _ e) [
  | inl p ↦ panicked_cause (suc (length body)) body 0 [] hb (omega arith) p
  | inr s ↦ absurd ((parse_body-IsGood body hb).0 s)
]

delimited_huge :
    (body : Text) (offset size used : ℕ)
    → read_varint (drop offset body) ≡ some (size, used)
    → size < 2 ^ 63
    → 2 ^ 63 ≤ offset + used + size
    → delimited body offset ≡ panics
unfolding delimited delimited_value exceeds slice
delimited_huge body offset size used e h1 h2 = ground arith

parse_fields_crash :
    (fuel : ℕ) (body : Text) (offset : ℕ) (key used : ℕ)
    → offset < length body
    → read_varint (drop offset body) ≡ some (key, used)
    → key % 8 ≡ 2
    → delimited body (offset + used) ≡ panics
    → parse_fields (suc fuel) body offset [] ≡ panicked
unfolding parse_fields read_value
parse_fields_crash fuel body offset key used ho e ek ed = ground arith

parse_body_panics :
    (number size : ℕ) (rest : Text)
    → number < 2 ^ 61
    → size < 2 ^ 63
    → 2 ^ 63 ≤ length (varint (number * 8 + 2)) + length (varint size) + size
    → parse_body (varint (number * 8 + 2) ++ (varint size ++ rest)) ≡ none
unfolding parse_body finish
parse_body_panics number size rest hn hs huge =
    let key = number * 8 + 2 in
    let body = varint key ++ (varint size ++ rest) in
    let first = read_varint-varint key (varint size ++ rest) (omega arith) in
    let second : read_varint (drop (length (varint key)) body) ≡ some (size, length (varint size)) =
      rw (drop-append_length (varint key) (varint size ++ rest))
        (read_varint-varint size rest (omega arith)) in
    let crash =
      delimited_huge body (length (varint key)) size (length (varint size)) second hs huge in
    let crash' : delimited body (0 + length (varint key)) ≡ panics = rw zero-add crash in
    let e =
      parse_fields_crash (length body) body 0 key (length (varint key))
        (omega (arith, length-append (varint key) (varint size ++ rest), length-varint-pos key))
        first (omega arith) crash' in
    ap finish e

-- A length of the right size behind any field key of wire type 2 makes the parser panic, whatever
-- follows: the sum that the range test computes is negative as an `int`, so that the test passes, and
-- the slice expression fails.
pub parse_protobuf_panics :
    (number size : ℕ) (rest : Text)
    → number < 2 ^ 61
    → size < 2 ^ 63
    → 2 ^ 63 ≤ length (varint (number * 8 + 2)) + length (varint size) + size
    → parse_protobuf (varint (number * 8 + 2) ++ (varint size ++ rest)) ≡ none
parse_protobuf_panics number size rest hn hs huge =
    let (b, tail, e, h) = varint-head (number * 8 + 2) (omega arith) in
    let q = ap (λ k. k ++ (varint size ++ rest)) e in
    ap parse_protobuf q
    ∙ unframed b (tail ++ (varint size ++ rest)) h
    ∙ sym (ap parse_body q)
    ∙ parse_body_panics number size rest hn hs huge
