-- ===== src/Guards/Amount.antt =====
-- `parse_amount` of app/api/deps.py. An amount is what Python's `Decimal` makes of its text.
pub mod Exact
use lending_bank_gateway.Prelude.{
  ℕ, zero, suc, ◌+◌, ◌-◌, ◌*◌, ◌/◌, ◌%◌, ◌^◌, ◌==◌, ltb, leb, ◌⊎◌, inl, inr, Bool, true, false, not,
  ◌&&◌, ◌||◌, String, str_eq, Option, none, some, List, [], ◌∷◌, if◌then◌else◌,
}
use lending_bank_gateway.Prelude.Text.{strip, upper}
use lending_bank_gateway.Json.Value.{ℤ, pos, negsuc}
use lending_bank_gateway.Amounts.{
  Decimal, finite, infinite, nan, max_integer_digits, column_scale, Reason, Guarded, guarded,
  guard_error, invalid_operation, order_within, order, parse_guarded_decimal,
}

-- why an amount is refused with 400, or `InvalidOperation`
pub data AmountError : Type 0 where
  guard_failed : Reason → AmountError
  not_positive : AmountError
  scale_exceeded : ℕ → AmountError
  uncaught : AmountError

-- `_CURRENCY_SCALE`
abbrev pub currency_scale : List (String × ℕ)
currency_scale =
    ("BIF", 0)
    ∷ ("CLP", 0)
    ∷ ("DJF", 0)
    ∷ ("GNF", 0)
    ∷ ("ISK", 0)
    ∷ ("JPY", 0)
    ∷ ("KMF", 0)
    ∷ ("KRW", 0)
    ∷ ("PYG", 0)
    ∷ ("RWF", 0)
    ∷ ("UGX", 0)
    ∷ ("UYI", 0)
    ∷ ("VND", 0)
    ∷ ("VUV", 0)
    ∷ ("XAF", 0)
    ∷ ("XOF", 0)
    ∷ ("XPF", 0)
    ∷ ("BHD", 3)
    ∷ ("IQD", 3)
    ∷ ("JOD", 3)
    ∷ ("KWD", 3)
    ∷ ("LYD", 3)
    ∷ ("OMR", 3)
    ∷ ("TND", 3)
    ∷ ("CLF", 4)
    ∷ ("UYW", 4)
    ∷ []

unfoldable pub scale_of : List (String × ℕ) → String → ℕ
scale_of [] currency = 2
scale_of ((name, scale) ∷ more) currency =
    if str_eq name currency then scale else scale_of more currency

-- the decimal places of an exponent
abbrev pub places : ℤ → ℕ
places (pos e) = 0
places (negsuc k) = suc k

-- the precision of Python's default context
abbrev pub precision : ℕ
precision = 28

-- a quotient, rounded half to even
abbrev pub half_even : ℕ → ℕ → ℕ
half_even c d =
    if ltb (2 * (c % d)) d || (2 * (c % d) == d && (c / d) % 2 == 0) then c / d else c / d + 1

-- the digits that a coefficient has beyond the precision
abbrev pub excess : ℕ → ℕ
excess c = order c + 1 - precision

-- the most places of a number in that context, -Etiny: below, it underflows
abbrev pub max_places : ℕ
max_places = 1000026

abbrev pub larger : ℕ → ℕ → ℕ
larger a b = if leb a b then b else a

-- the digits that the context takes off a coefficient at so many places: for the precision, or
-- because of the underflow
abbrev pub cut : ℕ → ℕ → ℕ
cut p c = larger (excess c) (p - max_places)

-- a coefficient without so many digits
abbrev pub rounded : ℕ → ℕ → ℕ
rounded k c = if k == 0 then c else half_even c (10 ^ k)

-- the places that are left once trailing zeros are taken off
unfoldable pub strip_zeros : ℕ → ℕ → ℕ
strip_zeros zero c = zero
strip_zeros (suc p) c = let rest = strip_zeros p (c / 10) in if c % 10 == 0 then rest else suc p

-- `max(0, -value.normalize().exponent)`: `normalize` brings the value into the context first
abbrev pub normalized_places : ℕ → ℤ → ℕ
normalized_places c e = strip_zeros (places e - cut (places e) c) (rounded (cut (places e) c) c)

abbrev upper_stripped : Option String → String
upper_stripped none = ""
upper_stripped (some currency) = upper (strip currency)

abbrev pub check_scale : String → ℕ → ℤ → AmountError ⊎ Decimal
check_scale currency c e =
    if str_eq currency ""
    then (if ltb column_scale (places e)
        then inl (scale_exceeded column_scale)
        else inr (finite false c e))
    else if ltb (scale_of currency_scale currency) (normalized_places c e)
    then inl (scale_exceeded (scale_of currency_scale currency))
    else inr (finite false c e)

abbrev pub check_amount : String → Guarded → AmountError ⊎ Decimal
check_amount currency (guard_error reason) = inl (guard_failed reason)
check_amount currency invalid_operation = inl uncaught
check_amount currency (guarded infinite) = inl uncaught
check_amount currency (guarded nan) = inl uncaught
check_amount currency (guarded (finite true c e)) = inl not_positive
check_amount currency (guarded (finite false c e)) =
    if c == 0 then inl not_positive else check_scale currency c e

unfoldable pub parse_amount : Option Decimal → Option String → AmountError ⊎ Decimal
unfolding parse_guarded_decimal strip_zeros upper strip scale_of order_within
parse_amount value currency =
    check_amount (upper_stripped currency)
      (parse_guarded_decimal max_integer_digits column_scale value)
