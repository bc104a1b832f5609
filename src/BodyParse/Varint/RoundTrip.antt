-- ===== src/BodyParse/Varint/RoundTrip.antt =====
-- `readVarint` against the format that protobuf defines, and what its results are bounded by.
use native.Mathlib.Nat.{pow-le-pow_right, div-add-mod}
use native.Mathlib.Decide.{dec_lt}
use native.Mathlib.Numerals.{towards_suc}
use Prim.Native.Nat.{bit_or}
use deconstruct.Base.{
  ℕ, zero, suc, ◌+◌, ◌*◌, ◌/◌, ◌%◌, ◌^◌, ◌<◌, ◌≤◌, Text, some, [], ◌∷◌, ◌++◌, ◌≡◌, ltb,
  if◌then◌else◌, arith, length, All, ap, Bool-cases, ◌∙◌, refl, inl, inr,
}
use deconstruct.Base.Bits.{bit_or_disjoint, low_seven}
use deconstruct.BodyParse.Varint.{IsByte, group, read_from, read_varint}

-- The base 128 varint of the protobuf format: seven bits to a byte, the lowest first, the top bit set
-- on all bytes but the last. The counter is the number of further bytes that may follow.
pub varint_from : ℕ → ℕ → Text
varint_from zero v = v ∷ []
varint_from (suc k) v =
    let longer = (v % 128 + 128) ∷ varint_from k (v / 128) in if ltb v 128 then v ∷ [] else longer

unfoldable pub varint : ℕ → Text
unfolding varint_from
varint v = varint_from 9 v

pow_seven : (i : ℕ) → 2 ^ (7 * (i + 1)) ≡ 128 * 2 ^ (7 * i)
pow_seven i =
    let e : 7 * (i + 1) ≡ 7 * i + 7 = omega arith in
    ap (λ (n : ℕ). 2 ^ n) e ∙ simp towards_suc (omega arith)

pow_seven-le : (i : ℕ) → i ≤ 8 → 2 ^ (7 * i) ≤ 2 ^ 56
pow_seven-le i h = pow-le-pow_right (omega arith) {j = 56} (omega arith)

-- one group that fits
or_group :
    (b i acc : ℕ)
    → b < 256
    → acc < 2 ^ (7 * i)
    → b % 128 * 2 ^ (7 * i) < 2 ^ 64
    → bit_or acc (group b i) ≡ acc + b % 128 * 2 ^ (7 * i)
or_group b i acc hb ha hf =
    let e : group b i ≡ b % 128 * 2 ^ (7 * i) = rw (low_seven b hb) (omega arith) in
    ap (bit_or acc) e ∙ bit_or_disjoint (7 * i) acc (b % 128) ha

group-le : (c p : ℕ) → c < 128 → c * p ≤ 127 * p
group-le c p h = grind arith

-- the next group keeps the value within the bits read so far
grow : (c acc i : ℕ) → c < 128 → acc < 2 ^ (7 * i) → acc + c * 2 ^ (7 * i) < 2 ^ (7 * (i + 1))
grow c acc i hc ha = omega (arith, pow_seven i, group-le c (2 ^ (7 * i)) hc)

last_byte :
    (w acc i : ℕ) (rest : Text)
    → w < 128
    → i < 10
    → acc < 2 ^ (7 * i)
    → acc + w * 2 ^ (7 * i) < 2 ^ 64
    → read_from (w ∷ rest) i acc ≡ some (acc + w * 2 ^ (7 * i), i + 1)
unfolding read_from
last_byte w acc i rest hw hi ha fits = ground (arith, or_group w i acc)

inner_byte :
    (c acc i : ℕ) (rest : Text)
    → c < 128
    → i < 10
    → acc < 2 ^ (7 * i)
    → acc + c * 2 ^ (7 * i) < 2 ^ 64
    → read_from ((c + 128) ∷ rest) i acc ≡ read_from rest (i + 1) (acc + c * 2 ^ (7 * i))
unfolding read_from
inner_byte c acc i rest hc hi ha fits =
    let e : (c + 128) % 128 ≡ c = omega arith in
    ground (arith, or_group (c + 128) i acc, ap (λ (t : ℕ). t * 2 ^ (7 * i)) e)

split_group : (w p q : ℕ) → q ≡ 128 * p → w * p ≡ w % 128 * p + w / 128 * q
split_group w p q e =
    omega (arith, ap (λ (t : ℕ). t * p) (div-add-mod w 128), ap (λ (t : ℕ). w / 128 * t) e)

read-varint_from :
    (k w acc i : ℕ) (rest : Text)
    → i + k ≡ 9
    → acc < 2 ^ (7 * i)
    → acc + w * 2 ^ (7 * i) < 2 ^ 64
    → read_from (varint_from k w ++ rest) i acc
      ≡ some (acc + w * 2 ^ (7 * i), i + length (varint_from k w))
unfolding varint_from
read-varint_from zero w acc i rest e ha fits =
    let top : i ≡ 9 = omega arith in
    let weight : w * 2 ^ (7 * i) ≡ w * 2 ^ 63 = ap (λ (n : ℕ). w * 2 ^ (7 * n)) top in
    last_byte w acc i rest (omega (arith, weight)) (omega arith) ha fits
read-varint_from (suc k) w acc i rest e ha fits = elim (Bool-cases (ltb w 128)) [
  | inl short ↦
      let small : w < 128 = ground arith in
      rw short (last_byte w acc i rest small (omega arith) ha fits)
  | inr long ↦
      let parts = split_group w (2 ^ (7 * i)) (2 ^ (7 * (i + 1))) (pow_seven i) in
      let next =
        read-varint_from k (w / 128) (acc + w % 128 * 2 ^ (7 * i)) (i + 1) rest (omega arith)
          (grow (w % 128) acc i (omega arith) ha) (omega (arith, parts)) in
      let first =
        inner_byte (w % 128) acc i (varint_from k (w / 128) ++ rest) (omega arith) (omega arith) ha
          (omega (arith, parts)) in
      ground (arith, first, next, parts)
]

-- Every uint64 is read back from its varint, whatever follows, with the number of its bytes.
pub read_varint-varint :
    (v : ℕ) (rest : Text)
    → v < 2 ^ 64
    → read_varint (varint v ++ rest) ≡ some (v, length (varint v))
unfolding read_varint varint
read_varint-varint v rest h = ground (arith, read-varint_from 9 v 0 0 rest refl)

-- What one round adds stays within a uint64, also in the tenth byte, whose upper bits are lost.
join_bound :
    (b i acc : ℕ)
    → b < 256
    → i < 10
    → acc < 2 ^ (7 * i)
    → (bit_or acc (group b i) < 2 ^ 64) × (i < 9 → bit_or acc (group b i) < 2 ^ (7 * (i + 1)))
join_bound b i acc hb hi ha = elim (dec_lt i 9) [
  | yes low ↦
      let p : 2 ^ (7 * i) ≤ 2 ^ 56 = pow_seven-le i (omega arith) in
      let c = group-le (b % 128) (2 ^ (7 * i)) (omega arith) in
      let e = or_group b i acc hb ha (omega (arith, p, c)) in
      (omega (arith, e, p, c), λ _. rw e (grow (b % 128) acc i (omega arith) ha))
  | no high ↦
      let nine : i ≡ 9 = omega arith in
      let weight : 2 ^ (7 * i) ≡ 2 ^ 63 = ap (λ (n : ℕ). 2 ^ (7 * n)) nine in
      let g : group b i ≡ b % 2 * 2 ^ 63 =
        (rw (low_seven b hb) (omega (arith, ap (λ (t : ℕ). b % 128 * t) weight))) in
      let e : bit_or acc (group b i) ≡ acc + b % 2 * 2 ^ 63 =
        ap (bit_or acc) g ∙ bit_or_disjoint 63 acc (b % 2) (omega (arith, weight)) in
      (omega (arith, e, weight), λ l. absurd (omega arith))
]

read_bound :
    (body : Text) (i acc v n : ℕ)
    → All IsByte body
    → (i < 10 → acc < 2 ^ (7 * i))
    → read_from body i acc ≡ some (v, n)
    → (v < 2 ^ 64) × (i < n) × (n ≤ 10) × (n ≤ i + length body)
unfolding read_from
read_bound [] i acc v n hb ha h = cc
read_bound (b ∷ body) i acc v n (hb, hbs) ha h = elim (dec_lt i 10) [
  | yes low ↦
      let j = join_bound b i acc hb low (ha low) in
      let later =
        read_bound body (i + 1) (bit_or acc (group b i)) v n hbs (λ q. j.1 (omega arith)) in
      ground (arith, j, later)
  | no high ↦ ground arith
]

-- What `readVarint` returns is a uint64, and it has read between one and ten bytes of the body.
pub read_varint_bounds :
    (body : Text) (v n : ℕ)
    → All IsByte body
    → read_varint body ≡ some (v, n)
    → (v < 2 ^ 64) × (0 < n) × (n ≤ 10) × (n ≤ length body)
unfolding read_varint
read_varint_bounds body v n hb h = ground (arith, read_bound body 0 0 v n hb (λ _. omega arith) h)

varint_from-head :
    (k v : ℕ) → 2 ≤ v → (b : ℕ) × (tail : Text) × (varint_from k v ≡ b ∷ tail) × (2 ≤ b)
unfolding varint_from
varint_from-head zero v h = (v, [], refl, h)
varint_from-head (suc k) v h = elim (Bool-cases (ltb v 128)) [
  | inl e ↦ (v, [], rw e, h)
  | inr e ↦ (v % 128 + 128, varint_from k (v / 128), rw e, omega arith)
]

-- the first byte of a varint of 2 or more is 2 or more
pub varint-head : (v : ℕ) → 2 ≤ v → (b : ℕ) × (tail : Text) × (varint v ≡ b ∷ tail) × (2 ≤ b)
unfolding varint
varint-head v = varint_from-head 9 v

varint_from-pos : (k v : ℕ) → 0 < length (varint_from k v)
unfolding varint_from
varint_from-pos zero v = omega arith
varint_from-pos (suc k) v = ground arith

pub length-varint-pos : (v : ℕ) → 0 < length (varint v)
unfolding varint
length-varint-pos v = varint_from-pos 9 v
