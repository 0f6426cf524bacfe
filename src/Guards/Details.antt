-- ===== src/Guards/Details.antt =====
-- `validate_detail_consistency` of app/api/deps.py: the details of a request against its total.
pub mod Sums
pub mod Balance
use lending_bank_gateway.Prelude.{
  ℕ, zero, suc, ◌+◌, ◌-◌, ◌*◌, ◌^◌, ◌==◌, leb, ◌⊎◌, inl, inr, Bool, true, false, not, ◌&&◌, ◌||◌,
  String, str_eq, Option, none, some, List, [], ◌∷◌, if◌then◌else◌,
}
use lending_bank_gateway.Json.Value.{
  ℤ, pos, negsuc, Value, Items, Fields, null, boolean, integer, number, text, array, object, nil,
  cons, get, str_of, present, is_text,
}
use lending_bank_gateway.Amounts.{Decimal, finite, infinite, nan, order_within, order}
use lending_bank_gateway.Guards.Amount.{
  AmountError, uncaught, places, larger, cut, rounded, parse_amount,
}

-- why the details are refused, each with 400, or an exception that is not caught
pub data DetailError : Type 0 where
  missing : String → DetailError
  not_a_list : String → DetailError
  no_items : String → DetailError
  currency_mismatch : DetailError
  invalid_item : String → String → DetailError
  invalid_amount : String → String → DetailError
  sum_mismatch : DetailError
  raised : DetailError

-- an amount that `parse_amount` has accepted: the value of a coefficient at an exponent
pub record Amount : Type 0 where
  pub coefficient : ℕ
  pub exponent : ℤ

-- `Decimal("0")`
abbrev pub nothing : Amount
nothing = record { coefficient = 0; exponent = pos 0 }

-- the coefficient at so many places, where these are enough
abbrev pub at_places : ℕ → Amount → ℕ
at_places p a = elim (a.exponent) [
  | pos e ↦ a.coefficient * 10 ^ (e + p)
  | negsuc k ↦ a.coefficient * 10 ^ (p - suc k)
]

abbrev pub common_places : Amount → Amount → ℕ
common_places a b = larger (places a.exponent) (places b.exponent)

abbrev pub minus : ℕ → ℤ
minus zero = pos 0
minus (suc k) = negsuc k

-- the exponent once so many digits are rounded away
abbrev pub shifted : ℕ → ℕ → ℤ
shifted p x = if leb x p then minus (p - x) else pos (x - p)

-- a sum in Python's default context: within its precision, and not below its least exponent
abbrev pub in_context : ℕ → ℕ → Amount
in_context p c = record { coefficient = rounded (cut p c) c; exponent = shifted p (cut p c) }

unfoldable pub add : Amount → Amount → Amount
unfolding order_within
add a b =
    in_context (common_places a b)
      (at_places (common_places a b) a + at_places (common_places a b) b)

unfoldable pub equal : Amount → Amount → Bool
equal a b = at_places (common_places a b) a == at_places (common_places a b) b

-- `sum(…)`, from the left
unfoldable pub sum_from : Amount → List Amount → Amount
unfolding add
sum_from a [] = a
sum_from a (b ∷ bs) = sum_from (add a b) bs

-- the amounts of details; `none` where the sum is not to be checked
abbrev pub Collected : Type 0
Collected = DetailError ⊎ Option (List Amount)

abbrev pub prepend : Amount → Collected → Collected
prepend a (inl e) = inl e
prepend a (inr none) = inr none
prepend a (inr (some rest)) = inr (some (a ∷ rest))

-- an accepted amount is finite and positive
abbrev pub amount_of : Decimal → Amount
amount_of (finite sign c e) = record { coefficient = c; exponent = e }
amount_of infinite = nothing
amount_of nan = nothing

-- an item without an amount
abbrev pub no_amount : String → String → Bool → Collected
no_amount amount_field detail_key true = inl (invalid_item detail_key amount_field)
no_amount amount_field detail_key false = inr none

abbrev pub field_of : String → Value → Option Value
field_of key (object t d) = get key d
field_of key v = none

abbrev pub has_currency : String → Option Value → Bool
has_currency currency none = true
has_currency currency (some v) = is_text currency v

-- no item names another currency
unfoldable pub all_in_currency : String → Items → Bool
all_in_currency currency nil = true
all_in_currency currency (cons v items) =
    has_currency currency (present (field_of "currencyCode" v)) && all_in_currency currency items

-- the names of the main details, and of the details of the fees if there are any
pub record Shape : Type 0 where
  pub currency : String
  pub detail_key : String
  pub amount_field : String
  pub fees : Option (String × String)
  pub main_strict : Bool
  pub require_detail : Bool

-- `none`: they pass
abbrev pub check_sum : Amount → List Amount → List Amount → Option DetailError
check_sum total main fees =
    if equal (add (sum_from nothing main) (sum_from nothing fees)) total
    then none
    else some sum_mismatch

abbrev pub or_no_amounts : Option (List Amount) → List Amount
or_no_amounts none = []
or_no_amounts (some rest) = rest

-- `body.get(key)` where that is a list; a missing one, or null, is one without items
abbrev pub list_at : String → Option Value → DetailError ⊎ Items
list_at key none = inr nil
list_at key (some null) = inr nil
list_at key (some (array t items)) = inr items
list_at key (some (boolean b)) = inl (not_a_list key)
list_at key (some (integer t n)) = inl (not_a_list key)
list_at key (some (number t n b)) = inl (not_a_list key)
list_at key (some (text t)) = inl (not_a_list key)
list_at key (some (object t d)) = inl (not_a_list key)

abbrev pub fee_items_of : Shape → Fields → DetailError ⊎ Items
fee_items_of s body = elim s.fees [
  | none ↦ inr nil
  | some (key, amount) ↦ list_at key (get key body)
]

-- What Python's `Decimal` makes of a text is a parameter.
module _ (decimal : String → Option Decimal) where
  -- the amount of an item
  abbrev pub item_amount : String → String → String → Value → DetailError ⊎ Amount
  item_amount amount_field detail_key currency v =
      elim (parse_amount (decimal (str_of v)) (some currency)) [
        | inr d ↦ inr (amount_of d)
        | inl e ↦ elim e [
          | uncaught ↦ inl raised
          | _ ↦ inl (invalid_amount amount_field detail_key)
        ]
      ]

  -- an item before the others
  abbrev pub with_item : Bool → String → String → String → Option Value → Collected → Collected
  with_item strict amount_field detail_key currency none rest =
      no_amount amount_field detail_key strict
  with_item strict amount_field detail_key currency (some v) rest =
      elim (item_amount amount_field detail_key currency v) [
        | inl e ↦ inl e
        | inr a ↦ prepend a rest
      ]

  -- `_collect_detail_amounts`
  unfoldable pub collect_detail_amounts : Bool → String → String → String → Items → Collected
  unfolding parse_amount
  collect_detail_amounts strict amount_field detail_key currency nil = inr (some [])
  collect_detail_amounts strict amount_field detail_key currency (cons v items) =
      with_item strict amount_field detail_key currency (field_of amount_field v)
        (collect_detail_amounts strict amount_field detail_key currency items)

  abbrev pub check_main : Shape → Amount → Items → List Amount → Option DetailError
  check_main s total items fees =
      elim (collect_detail_amounts s.main_strict s.amount_field s.detail_key s.currency items) [
        | inl e ↦ some e
        | inr o ↦ elim o [ none ↦ none | some main ↦ check_sum total main fees ]
      ]

  -- the fees, which are strict, come first
  abbrev pub collected_fees : Shape → Items → Collected
  collected_fees s nil = inr (some [])
  collected_fees s (cons v items) = elim s.fees [
    | none ↦ inr (some [])
    | some (key, amount) ↦ collect_detail_amounts true amount key s.currency (cons v items)
  ]

  abbrev pub check_amounts : Shape → Option Amount → Items → Items → Option DetailError
  check_amounts s none items fee_items = none
  check_amounts s (some total) items fee_items = elim (collected_fees s fee_items) [
    | inl e ↦ some e
    | inr fees ↦ check_main s total items (or_no_amounts fees)
  ]

  abbrev pub check_lists : Shape → Option Amount → Items → Items → Option DetailError
  check_lists s total items fee_items =
      if all_in_currency s.currency items && all_in_currency s.currency fee_items
      then check_amounts s total items fee_items
      else some currency_mismatch

  abbrev pub check_items : Shape → Option Amount → Fields → Items → Option DetailError
  check_items s total body nil = some (no_items s.detail_key)
  check_items s total body (cons v items) = elim (fee_items_of s body) [
    | inl e ↦ some e
    | inr fee_items ↦ check_lists s total (cons v items) fee_items
  ]

  abbrev pub check_details : Shape → Option Amount → Fields → Option Value → Option DetailError
  check_details s total body none = if s.require_detail then some (missing s.detail_key) else none
  check_details s total body (some v) = elim (list_at s.detail_key (some v)) [
    | inl e ↦ some e
    | inr items ↦ check_items s total body items
  ]

  unfoldable pub validate_detail_consistency : Shape → Option Amount → Fields → Option DetailError
  unfolding collect_detail_amounts all_in_currency sum_from equal
  validate_detail_consistency s total body =
      check_details s total body (present (get s.detail_key body))
