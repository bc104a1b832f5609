-- ===== src/BodyParse/Protobuf/RoundTrip.antt =====
-- `parseProtobuf` on messages that an encoder writes.
use deconstruct.Base.{
  ℕ, zero, suc, ◌+◌, ◌-◌, ◌*◌, ◌/◌, ◌%◌, ◌^◌, ◌≤◌, ◌<◌, Text, codes, some, List, [], ◌∷◌, ◌++◌,
  append_assoc, append-nil, map, ◌≡◌, refl, sym, ap, ◌∙◌, arith, All, length, length-append, drop,
  drop-append_length, take, take-append_length, take-length,
}
use deconstruct.Base.Decimal.{decimal, hex}
use deconstruct.BodyParse.Varint.{read_varint}
use deconstruct.BodyParse.Varint.RoundTrip.{
  varint, read_varint-varint, length-varint-pos, varint-head,
}
use deconstruct.BodyParse.Protobuf.{
  ProtobufField, read, slice, exceeds, show_bytes, read_value, delimited, delimited_value,
  varint_value, fixed, ended, parse_fields, finish, parse_body, strip_frame, parse_protobuf,
}
use deconstruct.BodyParse.Protobuf.Bounds.{parse_fields_step, made}

-- the value of a field as the format has it
pub data Wire : Type 0 where
  number : ℕ → Wire
  eight four : Text → Wire
  bytes : Text → Wire

abbrev pub wire_type : Wire → ℕ
wire_type (number v) = 0
wire_type (eight d) = 1
wire_type (bytes d) = 2
wire_type (four d) = 5

unfoldable pub payload : Wire → Text
payload (number v) = varint v
payload (eight d) = d
payload (bytes d) = varint (length d) ++ d
payload (four d) = d

unfoldable pub encode : List (ℕ × Wire) → Text
encode [] = []
encode ((n, w) ∷ ms) = varint (n * 8 + wire_type w) ++ (payload w ++ encode ms)

encode_nil : encode [] ≡ []
unfolding encode
encode_nil = refl

encode-cons :
    (n : ℕ) (w : Wire) (ms : List (ℕ × Wire))
    → encode ((n, w) ∷ ms) ≡ varint (n * 8 + wire_type w) ++ (payload w ++ encode ms)
unfolding encode
encode-cons n w ms = refl

-- the value that the inspector shows
abbrev pub shown_value : Wire → Text
shown_value (number v) = decimal v
shown_value (eight d) = codes "fixed64:" ++ hex d
shown_value (bytes d) = show_bytes d
shown_value (four d) = codes "fixed32:" ++ hex d

abbrev pub shown : ℕ × Wire → ProtobufField
shown (n, w) = record { number = n; wire_type = wire_type w; value = shown_value w }

abbrev pub WireFits : Wire → Type 0
WireFits (number v) = v < 2 ^ 64
WireFits (eight d) = length d ≡ 8
WireFits (bytes d) = Unit
WireFits (four d) = length d ≡ 4

-- a field number that the format allows, and a value that fits its wire type
abbrev pub Fits : ℕ × Wire → Type 0
Fits (n, w) = (0 < n) × (n < 2 ^ 61) × WireFits w

module _ (pre : Text) where
  fixed-append :
      (d name rest : Text) (width : ℕ)
      → length d ≡ width
      → fixed (pre ++ (d ++ rest)) (length pre) name width
        ≡ read (name ++ hex d) (length pre + width)
  unfolding fixed
  fixed-append d name rest width e =
      let l = length-append pre (d ++ rest) in
      let m = length-append d rest in
      let t : take width (drop (length pre) (pre ++ (d ++ rest))) ≡ d =
        rw (drop-append_length pre (d ++ rest), ← e) (take-append_length d rest) in
      ground (arith, t, l, m)

  varint-append :
      (v : ℕ) (rest : Text)
      → v < 2 ^ 64
      → read_varint (drop (length pre) (pre ++ (varint v ++ rest))) ≡ some (v, length (varint v))
  varint-append v rest h =
      rw (drop-append_length pre (varint v ++ rest)) (read_varint-varint v rest h)

  varint_value-append :
      (v : ℕ) (rest : Text)
      → v < 2 ^ 64
      → varint_value (pre ++ (varint v ++ rest)) (length pre)
        ≡ read (decimal v) (length pre + length (varint v))
  unfolding varint_value
  varint_value-append v rest h = ground (arith, varint-append v rest h)

  delimited_value-append :
      (d rest : Text)
      → length (pre ++ (d ++ rest)) < 2 ^ 63
      → delimited_value (pre ++ (d ++ rest)) (length pre) (length d)
        ≡ read (show_bytes d) (length pre + length d)
  unfolding delimited_value slice
  delimited_value-append d rest h =
      let l = length-append pre (d ++ rest) in
      let m = length-append d rest in
      let t : take (length pre + length d - length pre) (drop (length pre) (pre ++ (d ++ rest)))
          ≡ d =
        let n : length pre + length d - length pre ≡ length d = omega arith in
        rw (n, drop-append_length pre (d ++ rest)) (take-append_length d rest) in
      ground (arith, t, l, m)

delimited-append :
    (pre d rest : Text)
    → length (pre ++ (varint (length d) ++ (d ++ rest))) < 2 ^ 63
    → delimited (pre ++ (varint (length d) ++ (d ++ rest))) (length pre)
      ≡ read (show_bytes d) (length pre + length (varint (length d) ++ d))
unfolding delimited exceeds
delimited-append pre d rest h =
    let size = varint (length d) in
    let body = pre ++ (size ++ (d ++ rest)) in
    let l = length-append pre (size ++ (d ++ rest)) in
    let m = length-append size (d ++ rest) in
    let n = length-append d rest in
    let k = length-append pre size in
    let e : (pre ++ size) ++ (d ++ rest) ≡ body = append_assoc pre size (d ++ rest) in
    let at : delimited_value body (length pre + length size) (length d)
        ≡ read (show_bytes d) (length pre + length size + length d) =
      rw (← k, ← e) (delimited_value-append (pre ++ size) d rest (rw e h)) in
    ground (arith, varint-append pre (length d) (d ++ rest), at, l, m, n, length-append size d)

read_value-payload :
    (pre : Text) (w : Wire) (rest : Text)
    → WireFits w
    → length (pre ++ (payload w ++ rest)) < 2 ^ 63
    → read_value (wire_type w) (pre ++ (payload w ++ rest)) (length pre)
      ≡ read (shown_value w) (length pre + length (payload w))
unfolding read_value payload
read_value-payload pre (number v) rest h _ = varint_value-append pre v rest h
read_value-payload pre (eight d) rest h _ = rw h (fixed-append pre d (codes "fixed64:") rest 8 h)
read_value-payload pre (four d) rest h _ = rw h (fixed-append pre d (codes "fixed32:") rest 4 h)
read_value-payload pre (bytes d) rest _ h =
    let e = append_assoc (varint (length d)) d rest in
    rw e (delimited-append pre d rest (rw e at h))

wire_type-lt : (w : Wire) → wire_type w < 8
wire_type-lt (number v) = omega arith
wire_type-lt (eight d) = omega arith
wire_type-lt (bytes d) = omega arith
wire_type-lt (four d) = omega arith

abbrev key_of : ℕ → Wire → Text
key_of n w = varint (n * 8 + wire_type w)

regroup : (a b c d : Text) → a ++ (b ++ (c ++ d)) ≡ ((a ++ b) ++ c) ++ d
regroup a b c d = simp append_assoc

-- one round of the loop on an encoded field
encoded_step :
    (fuel : ℕ) (pre : Text) (fields : List ProtobufField) (n : ℕ) (w : Wire) (rest : Text)
    → Fits (n, w)
    → length fields < 64
    → length (pre ++ (key_of n w ++ (payload w ++ rest))) < 2 ^ 63
    → parse_fields (suc fuel) (pre ++ (key_of n w ++ (payload w ++ rest))) (length pre) fields
      ≡ parse_fields fuel
          (pre ++ (key_of n w ++ (payload w ++ rest)))
          (length ((pre ++ key_of n w) ++ payload w))
          (fields ++ shown (n, w) ∷ [])
encoded_step fuel pre fields n w rest (h0, h1, hw) hl hb =
    let key = n * 8 + wire_type w in
    let small = wire_type-lt w in
    let body = pre ++ (key_of n w ++ (payload w ++ rest)) in
    let l = length-append pre (key_of n w ++ (payload w ++ rest)) in
    let m = length-append (key_of n w) (payload w ++ rest) in
    let k = length-append pre (key_of n w) in
    let to = length (pre ++ key_of n w) + length (payload w) in
    let e : (pre ++ key_of n w) ++ (payload w ++ rest) ≡ body =
      append_assoc pre (key_of n w) (payload w ++ rest) in
    let kind : key % 8 ≡ wire_type w = omega (arith, small) in
    let value : read_value (key % 8) body (length pre + length (key_of n w))
        ≡ read (shown_value w) to =
      rw (kind, ← k, ← e) (read_value-payload (pre ++ key_of n w) w rest hw (rw e hb)) in
    let step =
      parse_fields_step fuel body (length pre) fields key (length (key_of n w)) (shown_value w) to
        (omega (arith, l, m, length-varint-pos key)) hl
        (varint-append pre key (payload w ++ rest) (omega (arith, small))) value
        (omega (arith, h0)) in
    let same : made key (shown_value w) ≡ shown (n, w) = ground (arith, small) in
    let there : length ((pre ++ key_of n w) ++ payload w) ≡ to =
      length-append (pre ++ key_of n w) (payload w) in
    step ∙ rw (there, same)

parse_fields-encode :
    (fuel : ℕ) (body pre : Text) (fields : List ProtobufField) (ms : List (ℕ × Wire))
    → body ≡ pre ++ encode ms
    → All Fits ms
    → length fields + length ms ≤ 64
    → length ms < fuel
    → length body < 2 ^ 63
    → parse_fields fuel body (length pre) fields ≡ ended (fields ++ map shown ms)
parse_fields-encode zero body pre fields ms e f hl hf hb = absurd (omega arith)
parse_fields-encode (suc fuel) body pre fields [] e f hl hf hb =
    let l : length body ≡ length pre = rw (e, encode_nil, append-nil) refl in
    rw append-nil (unfold parse_fields in ground (arith, l))
parse_fields-encode (suc fuel) body pre fields ((n, w) ∷ ms) e (h, f) hl hf hb =
    let e1 : body ≡ pre ++ (key_of n w ++ (payload w ++ encode ms)) = rw (← encode-cons n w ms) e in
    let m = length-append fields (shown (n, w) ∷ []) in
    let rest =
      parse_fields-encode fuel body ((pre ++ key_of n w) ++ payload w) (fields ++ shown (n, w) ∷ [])
        ms (e1 ∙ regroup pre (key_of n w) (payload w) (encode ms)) f (omega (arith, m))
        (omega arith) hb in
    let first = encoded_step fuel pre fields n w (encode ms) h (omega arith) (rw e1 at hb) in
    rw e1 first ∙ rw e1 at rest ∙ ap ended (append_assoc fields (shown (n, w) ∷ []) (map shown ms))

length-le-encode : (ms : List (ℕ × Wire)) → length ms ≤ length (encode ms)
unfolding encode
length-le-encode [] = omega arith
length-le-encode ((n, w) ∷ ms) =
    let key = key_of n w in
    omega (
      arith,
      length-le-encode ms,
      length-append key (payload w ++ encode ms),
      length-append (payload w) (encode ms),
      length-varint-pos (n * 8 + wire_type w),
    )

parse_body-encode :
    (m : ℕ × Wire) (ms : List (ℕ × Wire))
    → All Fits (m ∷ ms)
    → length (m ∷ ms) ≤ 64
    → length (encode (m ∷ ms)) < 2 ^ 63
    → parse_body (encode (m ∷ ms)) ≡ some (some (map shown (m ∷ ms)))
unfolding parse_body finish
parse_body-encode m ms f hl hb = ap finish (
    parse_fields-encode (suc (length (encode (m ∷ ms)))) (encode (m ∷ ms)) [] [] (m ∷ ms) refl f
      (omega arith) (omega (arith, length-le-encode (m ∷ ms))) hb)

pub unframed : (b : ℕ) (tail : Text) → 2 ≤ b → parse_protobuf (b ∷ tail) ≡ parse_body (b ∷ tail)
unfolding parse_protobuf strip_frame
unframed b tail h = let e : strip_frame (b ∷ tail) ≡ b ∷ tail = ground arith in ap parse_body e

-- A message of one to 64 fields is read back: every field with its number, its wire type and the text
-- that stands for its value.
pub parse_protobuf-encode :
    (m : ℕ × Wire) (ms : List (ℕ × Wire))
    → All Fits (m ∷ ms)
    → length (m ∷ ms) ≤ 64
    → length (encode (m ∷ ms)) < 2 ^ 63
    → parse_protobuf (encode (m ∷ ms)) ≡ some (some (map shown (m ∷ ms)))
parse_protobuf-encode (n, w) ms f hl hb =
    let (b, tail, e, h) = varint-head (n * 8 + wire_type w) (omega (arith, f.0)) in
    let rest = payload w ++ encode ms in
    let q : encode ((n, w) ∷ ms) ≡ b ∷ (tail ++ rest) =
      encode-cons n w ms ∙ ap (λ k. k ++ rest) e in
    ap parse_protobuf q
    ∙ unframed b (tail ++ rest) h
    ∙ sym (ap parse_body q)
    ∙ parse_body-encode (n, w) ms f hl hb

-- the gRPC prefix: a flag, and the length of the message in four bytes, big endian
pub framed : ℕ → Text → Text
framed flag message =
    let size = length message in
    flag ∷ (size / 2 ^ 24) ∷ (size / 2 ^ 16 % 256) ∷ (size / 2 ^ 8 % 256) ∷ (size % 256) ∷ message

strip_frame-framed :
    (flag : ℕ) (message : Text)
    → flag ≤ 1
    → 0 < length message
    → length message < 2 ^ 32
    → strip_frame (framed flag message) ≡ message
unfolding strip_frame framed
strip_frame-framed flag message hf h0 h1 =
    let size = length message in
    let e : ((size / 2 ^ 24 * 256 + size / 2 ^ 16 % 256) * 256 + size / 2 ^ 8 % 256) * 256
          + size % 256
        ≡ size =
      omega arith in
    rw e (ground (arith, take-length message))

-- A message is read in the same way behind the prefix that gRPC puts in front of it.
pub parse_protobuf-framed :
    (flag : ℕ) (message : Text)
    → flag ≤ 1
    → 0 < length message
    → length message < 2 ^ 32
    → parse_protobuf (framed flag message) ≡ parse_body message
unfolding parse_protobuf framed
parse_protobuf-framed flag message hf h0 h1 =
    ap parse_body (strip_frame-framed flag message hf h0 h1)
