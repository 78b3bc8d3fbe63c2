-- ===== src/Base/Decimal.antt =====
-- `std::to_string` of an unsigned value and `std::from_chars` in base ten.
use Prim.Native.Nat.{ℕ, zero, suc, ◌+◌, ◌-◌, ◌*◌, ◌/◌, ◌%◌, ◌<◌, ◌≤◌}
use mathlib.Core.Path.{◌≡◌, refl, ◌∙◌}
use mathlib.Core.Bool.{Bool, true, false, ◌&&◌}
use mathlib.Core.Logic.{inl, inr}
use mathlib.Core.List.{[], ◌∷◌, ◌++◌}
use mathlib.Core.Option.{Option, none, some}
use native.Mathlib.Omega.{arith}
use a2a_cpp.Base.Tests.{◌==◌, ltb, leb, if◌then◌else◌, Bool-cases}
use a2a_cpp.Base.Lists.{is_empty, is_empty-snoc, All}
use a2a_cpp.Base.ByteStrings.{Bytes}
use a2a_cpp.Base.Int.{ℤ, pos, negsuc}

abbrev pub is_digit : ℕ → Bool
is_digit c = leb b'0' c && leb c b'9'

abbrev pub IsDigit : ℕ → Type 0
IsDigit c = (b'0' ≤ c) × (c ≤ b'9')

-- The digits of `n`; a fuel above `n` is enough.
decimal_from : ℕ → ℕ → Bytes
decimal_from zero n = []
decimal_from (suc fuel) n = elim (ltb n 10) [
  | true ↦ (b'0' + n) ∷ []
  | false ↦ decimal_from fuel (n / 10) ++ (b'0' + n % 10) ∷ []
]

-- `std::to_string`.
unfoldable pub to_decimal : ℕ → Bytes
unfolding decimal_from
to_decimal n = decimal_from (suc n) n

-- The longest prefix of digits, and the rest.
unfoldable pub span_digits : Bytes → Bytes × Bytes
span_digits [] = ([], [])
span_digits (c ∷ cs) =
    let (ds, rest) = span_digits cs in if is_digit c then (c ∷ ds, rest) else ([], c ∷ cs)

unfoldable pub digits_value : ℕ → Bytes → ℕ
digits_value acc [] = acc
digits_value acc (c ∷ cs) = digits_value (acc * 10 + (c - b'0')) cs

-- `from_chars` of an unsigned type with the given largest value: the value and the unread text,
-- or `none` where it sets an error code.
unfoldable pub from_chars_unsigned : ℕ → Bytes → Option (ℕ × Bytes)
unfolding span_digits digits_value
from_chars_unsigned largest text =
    let (ds, rest) = span_digits text in
    if is_empty ds
    then none
    else if leb (digits_value 0 ds) largest
    then some (digits_value 0 ds, rest)
    else none

abbrev negate : ℕ → ℤ
negate zero = pos 0
negate (suc n) = negsuc n

abbrev as_positive : Option (ℕ × Bytes) → Option (ℤ × Bytes)
as_positive none = none
as_positive (some (n, rest)) = some (pos n, rest)

abbrev as_negative : Option (ℕ × Bytes) → Option (ℤ × Bytes)
as_negative none = none
as_negative (some (n, rest)) = some (negate n, rest)

-- `from_chars` of a signed type: a minus sign may stand in front, and one more value fits below.
unfoldable pub from_chars_signed : ℕ → Bytes → Option (ℤ × Bytes)
from_chars_signed largest [] = none
from_chars_signed largest (c ∷ cs) =
    if c == b'-'
    then as_negative (from_chars_unsigned (suc largest) cs)
    else as_positive (from_chars_unsigned largest (c ∷ cs))

All-IsDigit-append : (xs ys : Bytes) → All IsDigit xs → All IsDigit ys → All IsDigit (xs ++ ys)
All-IsDigit-append [] ys h k = k
All-IsDigit-append (x ∷ xs) ys h k = (h.0, All-IsDigit-append xs ys h.1 k)

decimal_from-IsDigit : (fuel n : ℕ) → All IsDigit (decimal_from fuel n)
unfolding decimal_from
decimal_from-IsDigit zero n = tt
decimal_from-IsDigit (suc fuel) n = ground (
  arith,
  All-IsDigit-append (decimal_from fuel (n / 10)) ((b'0' + n % 10) ∷ []),
  decimal_from-IsDigit fuel (n / 10),
)

pub to_decimal-IsDigit : (n : ℕ) → All IsDigit (to_decimal n)
unfolding to_decimal
to_decimal-IsDigit n = decimal_from-IsDigit (suc n) n

digits_value-append :
    (acc : ℕ) (xs : Bytes) (c : ℕ)
    → digits_value acc (xs ++ c ∷ []) ≡ digits_value acc xs * 10 + (c - b'0')
unfolding digits_value
digits_value-append acc [] c = refl
digits_value-append acc (x ∷ xs) c = digits_value-append (acc * 10 + (x - b'0')) xs c

decimal_from-small : (fuel n : ℕ) → ltb n 10 ≡ true → decimal_from (suc fuel) n ≡ (b'0' + n) ∷ []
unfolding decimal_from
decimal_from-small fuel n h = rw (h, decimal_from)

decimal_from-large :
    (fuel n : ℕ)
    → ltb n 10 ≡ false
    → decimal_from (suc fuel) n ≡ decimal_from fuel (n / 10) ++ (b'0' + n % 10) ∷ []
unfolding decimal_from
decimal_from-large fuel n h = rw (h, decimal_from)

digits_value-decimal_from : (fuel n : ℕ) → n < fuel → digits_value 0 (decimal_from fuel n) ≡ n
digits_value-decimal_from zero n h = elim h [ ]
digits_value-decimal_from (suc fuel) n h = elim (Bool-cases (ltb n 10)) [
  | inl small ↦ rw (decimal_from-small fuel n small) (unfold digits_value in omega arith)
  | inr large ↦ rw (decimal_from-large fuel n large) (
      let ih = digits_value-decimal_from fuel (n / 10) (ground arith) in
      rw (digits_value-append 0 (decimal_from fuel (n / 10)) (b'0' + n % 10)) (omega arith))
]

span_digits-All : (ds : Bytes) → All IsDigit ds → span_digits ds ≡ (ds, [])
unfolding span_digits
span_digits-All [] h = refl
span_digits-All (d ∷ ds) h = ground (arith, span_digits-All ds)

decimal_from-is_empty : (fuel n : ℕ) → is_empty (decimal_from (suc fuel) n) ≡ false
decimal_from-is_empty fuel n = elim (Bool-cases (ltb n 10)) [
  | inl small ↦ rw (decimal_from-small fuel n small) refl
  | inr large ↦ rw (decimal_from-large fuel n large) (is_empty-snoc _ _)
]

pub to_decimal-is_empty : (n : ℕ) → is_empty (to_decimal n) ≡ false
unfolding to_decimal
to_decimal-is_empty n = decimal_from-is_empty n n

pub digits_value-to_decimal : (n : ℕ) → digits_value 0 (to_decimal n) ≡ n
unfolding to_decimal
digits_value-to_decimal n = digits_value-decimal_from (suc n) n (omega arith)

from_chars_unsigned-All :
    (largest : ℕ) (ds : Bytes)
    → All IsDigit ds
    → is_empty ds ≡ false
    → digits_value 0 ds ≤ largest
    → from_chars_unsigned largest ds ≡ some (digits_value 0 ds, [])
unfolding from_chars_unsigned
from_chars_unsigned-All largest ds h k l = ground (arith, span_digits-All ds h)

-- Reading back a printed value that fits the type gives the value and leaves nothing unread.
pub from_chars_unsigned-to_decimal :
    (largest n : ℕ) → n ≤ largest → from_chars_unsigned largest (to_decimal n) ≡ some (n, [])
from_chars_unsigned-to_decimal largest n h = cc (
  from_chars_unsigned-All largest (to_decimal n) (to_decimal-IsDigit n) (to_decimal-is_empty n)
      (rw (digits_value-to_decimal n) h),
  digits_value-to_decimal n,
)

from_chars_signed-digits :
    (largest : ℕ) (ds : Bytes)
    → All IsDigit ds
    → is_empty ds ≡ false
    → from_chars_signed largest ds ≡ as_positive (from_chars_unsigned largest ds)
unfolding from_chars_signed
from_chars_signed-digits largest [] h k = cc
from_chars_signed-digits largest (d ∷ ds) h k = ground arith

pub from_chars_signed-to_decimal :
    (largest n : ℕ) → n ≤ largest → from_chars_signed largest (to_decimal n) ≡ some (pos n, [])
from_chars_signed-to_decimal largest n h =
    from_chars_signed-digits largest (to_decimal n) (to_decimal-IsDigit n) (to_decimal-is_empty n)
    ∙ rw (from_chars_unsigned-to_decimal largest n h)

-- A value that is read fits the type.
pub from_chars_unsigned-le :
    (largest : ℕ) (text : Bytes) (n : ℕ) (rest : Bytes)
    → from_chars_unsigned largest text ≡ some (n, rest)
    → n ≤ largest
unfolding from_chars_unsigned
from_chars_unsigned-le largest text n rest h = ground arith

pub from_chars_signed-le :
    (largest : ℕ) (text : Bytes) (n : ℕ) (rest : Bytes)
    → from_chars_signed largest text ≡ some (pos n, rest)
    → n ≤ largest
unfolding from_chars_signed
from_chars_signed-le largest [] n rest h = cc
from_chars_signed-le largest (c ∷ cs) n rest h =
    ground (arith, from_chars_unsigned-le largest (c ∷ cs) n rest)
