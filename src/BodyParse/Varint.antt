-- ===== src/BodyParse/Varint.antt =====
-- `readVarint` of daemon/internal/bodyparse/bodyparse.go.
pub mod RoundTrip
use Prim.Native.Nat.{bit_and, bit_or}
use deconstruct.Base.{
  ℕ, zero, suc, ◌+◌, ◌*◌, ◌/◌, ◌%◌, ◌^◌, ◌<◌, ◌≤◌, Text, Option, none, some, List, [], ◌∷◌, ◌≡◌,
  ltb, if◌then◌else◌, arith, length, All, Bool-cases, inl, inr,
}

abbrev pub IsByte : ℕ → Type 0
IsByte b = b < 256

-- `uint64(b & 0x7f) << (7 * i)`
abbrev pub group : ℕ → ℕ → ℕ
group b i = bit_and b 0x7f * 2 ^ (7 * i) % 2 ^ 64

-- The loop of `readVarint` on what it has not reached. The pair `(0, -1)` is `none`.
unfoldable pub read_from : Text → ℕ → ℕ → Option (ℕ × ℕ)
read_from [] i value = none
read_from (b ∷ body) i value =
    let value' = bit_or value (group b i) in
    let more = read_from body (i + 1) value' in
    if ltb i 10 then (if ltb b 0x80 then some (value', i + 1) else more) else none

unfoldable pub read_varint : Text → Option (ℕ × ℕ)
unfolding read_from
read_varint body = read_from body 0 0
