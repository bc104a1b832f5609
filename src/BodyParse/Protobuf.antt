-- ===== src/BodyParse/Protobuf.antt =====
-- `parseProtobuf` and `isPrintable` of daemon/internal/bodyparse/bodyparse.go.
-- A slice expression out of range is a panic in Go, and so an outcome of its own here.
pub mod Bounds
pub mod Panics
pub mod RoundTrip
use deconstruct.Base.{
  ℕ, zero, suc, ◌+◌, ◌-◌, ◌*◌, ◌/◌, ◌%◌, ◌^◌, Text, codes, Bool, true, false, not, ◌&&◌, ◌||◌,
  Option, none, some, List, [], ◌∷◌, ◌++◌, ltb, leb, ◌==◌, if◌then◌else◌, length, take, drop,
}
use deconstruct.Base.Decimal.{decimal, hex}
use deconstruct.BodyParse.Varint.{read_varint}

pub record ProtobufField : Type 0 where
  pub number : ℕ
  pub wire_type : ℕ
  pub value : Text

-- the field by field tests of `isPrintable`
all_printable : Text → Bool
all_printable [] = true
all_printable (b ∷ data') = if ltb b 0x20 || ltb 0x7e b then false else all_printable data'

unfoldable pub is_printable : Text → Bool
unfolding all_printable
is_printable [] = false
is_printable (b ∷ data') = all_printable (b ∷ data')

-- An `int` holds 64 bits: a sum of 2^63 or more is a negative number, below every length.
unfoldable pub exceeds : ℕ → ℕ → Bool
exceeds sum len = if ltb sum (2 ^ 63) then ltb len sum else false

-- `body[lo:hi]`; `none` is the panic. The sum `hi` is negative from 2^63 on.
unfoldable pub slice : Text → ℕ → ℕ → Option Text
slice body lo hi =
    if ltb hi (2 ^ 63) && leb lo hi && leb hi (length body)
    then some (take (hi - lo) (drop lo body))
    else none

-- what one pass of the switch over the wire type leads to
pub data Step : Type 0 where
  -- the field's value and the offset behind it
  read : Text → ℕ → Step
  -- `return &Protobuf{Fields: fields}`
  malformed : Step
  panics : Step

fixed : Text → ℕ → Text → ℕ → Step
fixed body offset name width =
    if ltb (length body) (offset + width)
    then malformed
    else read (name ++ hex (take width (drop offset body))) (offset + width)

-- `string(value)` or a count of its bytes
unfoldable pub show_bytes : Text → Text
unfolding is_printable
show_bytes value = if is_printable value then value else codes "bytes:" ++ decimal (length value)

delimited_value : Text → ℕ → ℕ → Step
delimited_value body offset size = elim (slice body offset (offset + size)) [
  | none ↦ panics
  | some value ↦ read (show_bytes value) (offset + size)
]

delimited : Text → ℕ → Step
unfolding exceeds slice show_bytes delimited_value
delimited body offset = elim (read_varint (drop offset body)) [
  | none ↦ malformed
  | some (size, used) ↦
      if leb (2 ^ 63) size || exceeds (offset + used + size) (length body)
      then malformed
      else delimited_value body (offset + used) size
]

varint_value : Text → ℕ → Step
varint_value body offset = elim (read_varint (drop offset body)) [
  | none ↦ malformed
  | some (value, used) ↦ read (decimal value) (offset + used)
]

unfoldable pub read_value : ℕ → Text → ℕ → Step
unfolding varint_value fixed delimited
read_value wire_type body offset =
    if wire_type == 0
    then varint_value body offset
    else if wire_type == 1
    then fixed body offset (codes "fixed64:") 8
    else if wire_type == 2
    then delimited body offset
    else if wire_type == 5
    then fixed body offset (codes "fixed32:") 4
    else malformed

-- How the loop ends. `stuck` is no Go behaviour: the fuel ran out.
pub data Outcome : Type 0 where
  -- the loop ended, and `nil` is returned if it has no field
  ended : List ProtobufField → Outcome
  returned : List ProtobufField → Outcome
  panicked stuck : Outcome

unfoldable pub parse_fields : ℕ → Text → ℕ → List ProtobufField → Outcome
parse_fields zero body offset fields = stuck
parse_fields (suc fuel) body offset fields =
    elim (ltb offset (length body) && ltb (length fields) 64) [
      | false ↦ ended fields
      | true ↦ elim (read_varint (drop offset body)) [
        | none ↦ ended fields
        | some (key, used) ↦ elim (read_value (key % 8) body (offset + used)) [
          | malformed ↦ returned fields
          | panics ↦ panicked
          | read value offset' ↦ elim (key / 8 == 0) [
            | true ↦ ended fields
            | false ↦
                parse_fields fuel body offset'
                  (fields ++ record { number = key / 8; wire_type = key % 8; value = value } ∷ [])
          ]
        ]
      ]
    ]

-- the length prefix of a gRPC message, big endian
abbrev pub big_endian : Text → ℕ
big_endian (a ∷ b ∷ c ∷ d ∷ rest) = ((a * 256 + b) * 256 + c) * 256 + d
big_endian _ = 0

unfoldable pub strip_frame : Text → Text
strip_frame [] = []
strip_frame (flag ∷ rest) =
    let size = big_endian rest in
    if ltb 5 (length (flag ∷ rest)) && leb flag 1 && leb size (length (flag ∷ rest) - 5)
    then take size (drop 4 rest)
    else flag ∷ rest

-- `some none` is the result `nil`, and `none` a panic.
unfoldable pub finish : Outcome → Option (Option (List ProtobufField))
finish (ended []) = some none
finish (ended (f ∷ fs)) = some (some (f ∷ fs))
finish (returned fs) = some (some fs)
finish panicked = none
finish stuck = none

unfoldable pub parse_body : Text → Option (Option (List ProtobufField))
unfolding finish
parse_body body = finish (parse_fields (suc (length body)) body 0 [])

unfoldable pub parse_protobuf : Text → Option (Option (List ProtobufField))
unfolding parse_body strip_frame
parse_protobuf [] = some none
parse_protobuf (b ∷ body) = parse_body (strip_frame (b ∷ body))
