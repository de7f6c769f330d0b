-- ===== src/Base/Decimal.antt =====
-- Decimal numbers as bytes: strconv's printing and reading.
use phimtor.Base.Bytes.{Bytes, Lacks}
use phimtor.Base.Lists.{All, All-mono}
use phimtor.Base.Tests.{◌==◌, leb, if◌then◌else◌}
use Prim.Native.Nat.{ℕ, zero, suc, ◌+◌, ◌-◌, ◌*◌, ◌/◌, ◌%◌, ◌^◌, ◌≤◌, ◌<◌}
use mathlib.Core.Bool.{Bool, true, false, ◌&&◌}
use mathlib.Core.Logic.{◌≢◌, ◌⊎◌}
use mathlib.Core.List.{[], ◌∷◌}
use mathlib.Core.Option.{Option, none, some}
use mathlib.Core.Path.{◌≡◌, refl, ◌∙◌}
use native.Mathlib.Omega.{arith}

-- `fuel`: each round divides by ten, so the number itself is enough.
unfoldable pub decimal_loop : ℕ → ℕ → Bytes → Bytes
decimal_loop zero n out = out
decimal_loop (suc fuel) n out =
    let more = decimal_loop fuel (n / 10) ((b'0' + n % 10) ∷ out) in if n == 0 then out else more

unfoldable pub decimal : ℕ → Bytes
unfolding decimal_loop
decimal n = if n == 0 then b'0' ∷ [] else decimal_loop n n []

abbrev pub is_digit : ℕ → Bool
is_digit c = leb b'0' c && leb c b'9'

abbrev pub IsDigit : ℕ → Type 0
IsDigit c = (b'0' ≤ c) × (c ≤ b'9')

unfoldable pub read_digits : ℕ → Bytes → Option ℕ
read_digits acc [] = some acc
read_digits acc (c ∷ s) =
    let rest = read_digits (acc * 10 + (c - b'0')) s in if is_digit c then rest else none

-- The digits of a number without a sign; at least one.
unfoldable pub read_decimal : Bytes → Option ℕ
unfolding read_digits
read_decimal [] = none
read_decimal (c ∷ s) = read_digits 0 (c ∷ s)

abbrev pub max_int64 : ℕ
max_int64 = 2 ^ 63 - 1

abbrev pub at_most : ℕ → Option ℕ → Option ℕ
at_most bound none = none
at_most bound (some n) = if leb n bound then some n else none

abbrev pub signed : Bool → Option ℕ → Option (Bool × ℕ)
signed negative none = none
signed negative (some n) = some (negative, n)

-- strconv.ParseInt in base 10 for 64 bits: whether the number is negative, and its size.
unfoldable pub parse_int : Bytes → Option (Bool × ℕ)
parse_int [] = none
parse_int (c ∷ s) =
    if c == b'-'
    then signed true (at_most (2 ^ 63) (read_decimal s))
    else if c == b'+'
    then signed false (at_most max_int64 (read_decimal s))
    else signed false (at_most max_int64 (read_decimal (c ∷ s)))

read_digits-decimal_loop :
    (fuel n : ℕ) (out : Bytes)
    → n ≤ fuel
    → read_digits 0 (decimal_loop fuel n out) ≡ read_digits n out
unfolding decimal_loop read_digits
read_digits-decimal_loop zero zero out h = refl
read_digits-decimal_loop zero (suc n) out h = absurd (omega arith)
read_digits-decimal_loop (suc fuel) n out h =
    ground (arith, read_digits-decimal_loop fuel (n / 10) ((b'0' + n % 10) ∷ out))

decimal_loop-IsDigit :
    (fuel n : ℕ) (out : Bytes) → All IsDigit out → All IsDigit (decimal_loop fuel n out)
unfolding decimal_loop
decimal_loop-IsDigit zero n out h = h
decimal_loop-IsDigit (suc fuel) n out h =
    ground (arith, decimal_loop-IsDigit fuel (n / 10) ((b'0' + n % 10) ∷ out))

pub decimal-IsDigit : (n : ℕ) → All IsDigit (decimal n)
unfolding decimal
decimal-IsDigit n = ground (arith, decimal_loop-IsDigit n n [] tt)

pub decimal-Lacks : (b n : ℕ) → (b < b'0') ⊎ (b'9' < b) → Lacks b (decimal n)
decimal-Lacks b n h =
    All-mono IsDigit (λ c. c ≢ b) (decimal n) (λ c d e. ground arith) (decimal-IsDigit n)

decimal_loop-ne-nil : (fuel n : ℕ) (out : Bytes) → out ≢ [] → decimal_loop fuel n out ≢ []
unfolding decimal_loop
decimal_loop-ne-nil zero n out h = h
decimal_loop-ne-nil (suc fuel) n out h =
    ground (arith, decimal_loop-ne-nil fuel (n / 10) ((b'0' + n % 10) ∷ out))

pub decimal-ne-nil : (n : ℕ) → decimal n ≢ []
unfolding decimal decimal_loop
decimal-ne-nil zero = ground arith
decimal-ne-nil (suc k) =
    ground (arith, decimal_loop-ne-nil k (suc k / 10) ((b'0' + suc k % 10) ∷ []))

read_decimal-read_digits : (s : Bytes) → s ≢ [] → read_decimal s ≡ read_digits 0 s
read_decimal-read_digits [] h = absurd (h refl)
read_decimal-read_digits (c ∷ s) h = unfold read_decimal in refl

-- A number is read back from its print.
pub read_decimal-decimal : (n : ℕ) → read_decimal (decimal n) ≡ some n
unfolding read_digits
read_decimal-decimal n = read_decimal-read_digits (decimal n) (decimal-ne-nil n) ∙ digits n
  where
    digits : (n : ℕ) → read_digits 0 (decimal n) ≡ some n
    digits n = unfold decimal in ground (arith, read_digits-decimal_loop n n [] (omega arith))

parse_int-read_decimal :
    (s : Bytes)
    → All IsDigit s
    → s ≢ []
    → parse_int s ≡ signed false (at_most max_int64 (read_decimal s))
parse_int-read_decimal [] d h = absurd (h refl)
parse_int-read_decimal (c ∷ s) d h = unfold parse_int in ground arith

-- A number of 63 bits is read back from its print, as not negative.
pub parse_int-decimal : (n : ℕ) → n ≤ max_int64 → parse_int (decimal n) ≡ some (false, n)
parse_int-decimal n h =
    parse_int-read_decimal (decimal n) (decimal-IsDigit n) (decimal-ne-nil n)
    ∙ rw (read_decimal-decimal n) (ground arith)
