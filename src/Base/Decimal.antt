-- ===== src/Base/Decimal.antt =====
-- The prints of numbers (`fmt.Sprint`, `%d`, `%02d`, `%x` of bytes) and `strconv.Atoi`.
use Prim.Native.Nat.{ℕ, zero, suc, ◌+◌, ◌-◌, ◌*◌, ◌/◌, ◌%◌, ◌^◌, ◌≤◌, ◌<◌}
use mathlib.Core.Path.{◌≡◌, refl, sym, ap, ◌∙◌}
use mathlib.Core.Logic.{◌≢◌}
use mathlib.Core.Bool.{◌&&◌}
use mathlib.Core.Option.{Option, none, some}
use mathlib.Core.List.{[], ◌∷◌, ◌++◌}
use native.Mathlib.Omega.{arith}
use deconstruct.Base.Tests.{ltb, leb, ◌==◌, if◌then◌else◌}
use deconstruct.Base.Lists.{All}
use deconstruct.Base.Strings.{Text}

-- The first argument is fuel: `n` is more than enough, since a tenth of a number is smaller.
digits_from : ℕ → ℕ → Text → Text
digits_from zero n acc = (48 + n % 10) ∷ acc
digits_from (suc f) n acc =
    let more = digits_from f (n / 10) ((48 + n % 10) ∷ acc) in
    if ltb n 10 then (48 + n) ∷ acc else more

unfoldable pub decimal : ℕ → Text
unfolding digits_from
decimal n = digits_from n n []

-- `%02d`
unfoldable pub decimal_two : ℕ → Text
unfolding decimal
decimal_two n = if ltb n 10 then 48 ∷ decimal n else decimal n

-- a Go `int`; `negsuc n` is -(n + 1)
pub data ℤ : Type 0 where
  pos : ℕ → ℤ
  negsuc : ℕ → ℤ

unfoldable pub parse_digits : Text → ℕ → Option ℕ
parse_digits [] n = some n
parse_digits (c ∷ s) n =
    if leb b'0' c && leb c b'9' then parse_digits s (n * 10 + (c - b'0')) else none

-- the digits behind a sign: at least one
unfoldable pub parse_magnitude : Text → Option ℕ
unfolding parse_digits
parse_magnitude [] = none
parse_magnitude (c ∷ s) = parse_digits (c ∷ s) 0

positive : Option ℕ → Option ℤ
positive none = none
positive (some n) = if ltb n (2 ^ 63) then some (pos n) else none

negative : Option ℕ → Option ℤ
negative none = none
negative (some zero) = some (pos 0)
negative (some (suc n)) = if ltb n (2 ^ 63) then some (negsuc n) else none

-- `strconv.Atoi` on a 64-bit machine; `none` is an error
unfoldable pub atoi : Text → Option ℤ
unfolding parse_magnitude positive negative
atoi [] = none
atoi (c ∷ s) =
    if c == b'-'
    then negative (parse_magnitude s)
    else if c == b'+'
    then positive (parse_magnitude s)
    else positive (parse_magnitude (c ∷ s))

digits_from-parse :
    (f n : ℕ) (acc : Text) → n ≤ f → parse_digits (digits_from f n acc) 0 ≡ parse_digits acc n
unfolding digits_from parse_digits
digits_from-parse zero n acc h = ground arith
digits_from-parse (suc f) n acc h =
    ground (arith, digits_from-parse f (n / 10) ((48 + n % 10) ∷ acc))

-- a decimal digit
abbrev pub IsDigit : ℕ → Type 0
IsDigit c = (b'0' ≤ c) × (c ≤ b'9')

digits_from-IsDigit : (f n : ℕ) (acc : Text) → All IsDigit acc → All IsDigit (digits_from f n acc)
unfolding digits_from
digits_from-IsDigit zero n acc h = (omega arith, h)
digits_from-IsDigit (suc f) n acc h =
    ground (arith, digits_from-IsDigit f (n / 10) ((48 + n % 10) ∷ acc))

pub decimal-IsDigit : (n : ℕ) → All IsDigit (decimal n)
unfolding decimal
decimal-IsDigit n = digits_from-IsDigit n n [] tt

atoi_digit : (c : ℕ) (s : Text) → IsDigit c → atoi (c ∷ s) ≡ positive (parse_digits (c ∷ s) 0)
unfolding atoi
atoi_digit c s h = ground arith

digits_from-ne-nil : (f n : ℕ) (acc : Text) → digits_from f n acc ≢ []
unfolding digits_from
digits_from-ne-nil zero n acc = λ e. cc e
digits_from-ne-nil (suc f) n acc =
    ground (arith, digits_from-ne-nil f (n / 10) ((48 + n % 10) ∷ acc))

atoi_text : (s : Text) → s ≢ [] → All IsDigit s → atoi s ≡ positive (parse_digits s 0)
atoi_text [] h d = absurd (h refl)
atoi_text (c ∷ s) h (d, ds) = atoi_digit c s d

-- `strconv.Atoi` reads back what `%d` prints of an int that is not negative.
pub atoi-decimal : (n : ℕ) → n < 2 ^ 63 → atoi (decimal n) ≡ some (pos n)
unfolding decimal positive parse_digits
atoi-decimal n h =
    rw (atoi_text (digits_from n n []) (digits_from-ne-nil n n []) (digits_from-IsDigit n n [] tt))
      (rw (digits_from-parse n n [] (omega arith)) (ground arith))

positive-some : (n : ℕ) (p : ℤ) → positive (some n) ≡ some p → p ≡ pos n
unfolding positive
positive-some n p h = ground (arith, h)

-- what is read of the digits of a number, if anything, is the number
pub atoi-decimal-some : (n : ℕ) (p : ℤ) → atoi (decimal n) ≡ some p → p ≡ pos n
unfolding decimal parse_digits
atoi-decimal-some n p h = positive-some n p (
    sym (
      atoi_text (digits_from n n []) (digits_from-ne-nil n n []) (digits_from-IsDigit n n [] tt)
      ∙ ap positive (digits_from-parse n n [] (omega arith)))
    ∙ h)

pub decimal-ne-nil : (n : ℕ) → decimal n ≢ []
unfolding decimal
decimal-ne-nil n = digits_from-ne-nil n n []

parse_digits_stop : (s t : Text) (c n : ℕ) → b'9' < c → parse_digits (s ++ (c ∷ t)) n ≡ none
unfolding parse_digits
parse_digits_stop [] t c n h = ground arith
parse_digits_stop (d ∷ s) t c n h = ground (arith, parse_digits_stop s t c (n * 10 + (d - b'0')) h)

atoi_stop : (s t : Text) (c : ℕ) → s ≢ [] → All IsDigit s → b'9' < c → atoi (s ++ (c ∷ t)) ≡ none
unfolding positive
atoi_stop [] t c h d hc = absurd (h refl)
atoi_stop (x ∷ s) t c h (d, ds) hc =
    rw (atoi_digit x (s ++ (c ∷ t)) d, parse_digits_stop (x ∷ s) t c 0 hc)

-- a number with anything behind it that is no digit is no number
pub atoi_junk : (n c : ℕ) (t : Text) → b'9' < c → atoi (decimal n ++ (c ∷ t)) ≡ none
unfolding decimal
atoi_junk n c t h =
    atoi_stop (digits_from n n []) t c (digits_from-ne-nil n n []) (digits_from-IsDigit n n [] tt) h

hex_digit : ℕ → ℕ
hex_digit d = if ltb d 10 then b'0' + d else b'a' + (d - 10)

-- `%x` of a byte slice
unfoldable pub hex : Text → Text
unfolding hex_digit
hex [] = []
hex (b ∷ s) = hex_digit (b / 16) ∷ hex_digit (b % 16) ∷ hex s
