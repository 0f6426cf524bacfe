-- ===== src/Amounts.antt =====
-- app/core/amounts.py: the guard of every amount. A `Decimal` is its sign, its coefficient and its
-- exponent; `none` is a text that `Decimal` refuses.
pub mod Capacity
use lending_bank_gateway.Prelude.{
  ℕ, zero, suc, ◌+◌, ◌-◌, ◌*◌, ◌/◌, ◌^◌, ◌==◌, ltb, leb, Bool, true, false, not, ◌&&◌, Option, none,
  some, if◌then◌else◌,
}
use lending_bank_gateway.Json.Value.{ℤ, pos, negsuc}

pub data Decimal : Type 0 where
  finite : Bool → ℕ → ℤ → Decimal
  infinite nan : Decimal

abbrev pub max_integer_digits : ℕ
max_integer_digits = 17

abbrev pub column_scale : ℕ
column_scale = 4

pub data Reason : Type 0 where
  unparseable non_finite over_capacity : Reason

-- the value, an `AmountGuardError`, or `InvalidOperation`
pub data Guarded : Type 0 where
  guarded : Decimal → Guarded
  guard_error : Reason → Guarded
  invalid_operation : Guarded

-- the exponent of the leading digit of a coefficient, on fuel
unfoldable pub order_within : ℕ → ℕ → ℕ
order_within zero n = 0
order_within (suc fuel) n = elim (ltb n 10) [ true ↦ 0 | false ↦ suc (order_within fuel (n / 10)) ]

-- the coefficient itself is enough
abbrev pub order : ℕ → ℕ
order n = order_within n n

-- `value.adjusted() >= m`
abbrev pub is_wide : ℕ → ℕ → ℤ → Bool
is_wide m c (pos e) = leb m (order c + e)
is_wide m c (negsuc k) = leb (m + suc k) (order c)

-- a quotient, rounded half up
abbrev pub half_up : ℕ → ℕ → ℕ
half_up c d = (c + d / 2) / d

-- the coefficient of `value.quantize(Decimal(1).scaleb(-s))`, rounded half up
abbrev pub quantized : ℕ → ℕ → ℤ → ℕ
quantized s c (pos e) = c * 10 ^ (e + s)
quantized s c (negsuc k) =
    if leb (suc k) s then c * 10 ^ (s - suc k) else half_up c (10 ^ (suc k - s))

-- the second test of the width, after `quantize` in a context of precision `m + s + 1`
abbrev pub check_quantized : ℕ → ℕ → Decimal → ℕ → Guarded
check_quantized m s value q =
    if ltb (m + s + 1) (order q + 1)
    then invalid_operation
    else if not (q == 0) && leb (m + s) (order q)
    then guard_error over_capacity
    else guarded value

abbrev pub guard_finite : ℕ → ℕ → Bool → ℕ → ℤ → Guarded
guard_finite m s sign c e =
    if c == 0
    then guarded (finite sign c e)
    else if is_wide m c e
    then guard_error over_capacity
    else check_quantized m s (finite sign c e) (quantized s c e)

unfoldable pub parse_guarded_decimal : ℕ → ℕ → Option Decimal → Guarded
unfolding order_within
parse_guarded_decimal m s none = guard_error unparseable
parse_guarded_decimal m s (some infinite) = guard_error non_finite
parse_guarded_decimal m s (some nan) = guard_error non_finite
parse_guarded_decimal m s (some (finite sign c e)) = guard_finite m s sign c e
