-- ===== src/Tests/Details.antt =====
-- Witnesses for the details and the error fields.
use lending_bank_gateway.Prelude.{
  ◌+◌, ◌≡◌, ◌↔◌, refl, true, false, String, Option, none, some, List, [], ◌∷◌, arith,
}
use lending_bank_gateway.Json.Value.{
  Value, Items, Fields, pos, negsuc, text, array, object, nil, cons, end, field, get,
}
use lending_bank_gateway.Amounts.{Decimal, finite}
use lending_bank_gateway.Guards.Amount.{parse_amount}
use lending_bank_gateway.Guards.Details.{Amount, Shape, at_places, validate_detail_consistency}
use lending_bank_gateway.Guards.Details.Sums.{units}
use lending_bank_gateway.Guards.Details.Balance.{SaysAmount, validate_detail_consistency_iff}
use lending_bank_gateway.Guards.Required.{money_write_error_extra}
use lending_bank_gateway.Guards.Required.Promise.{
  Mark, as_money_write, as_dispatched, after_marks, unmarked, has_money_write, has_dispatch,
  SaysNotApplied, IsRefusal, money_write_error_extra_iff,
}

-- every amount is 60.0
abbrev decimal : String → Option Decimal
decimal s = some (finite false 600 (negsuc 0))

abbrev sixty : Amount
sixty = record { coefficient = 600; exponent = negsuc 0 }

abbrev total : Amount
total = record { coefficient = 12; exponent = pos 1 }

abbrev lender : Value
lender = object "{…}" (field "txnAmount" (text "60.0") (field "currencyCode" (text "USD") end))

abbrev lenders : Items
lenders = cons lender (cons lender nil)

abbrev body : Fields
body = field "lenders" (array "[…]" lenders) end

abbrev shape : Shape
shape = record {
  currency = "USD";
  detail_key = "lenders";
  amount_field = "txnAmount";
  fees = none;
  main_strict = true;
  require_detail = true;
}

says : SaysAmount decimal "txnAmount" "USD" lender sixty
unfolding parse_amount get
says = record {
  raw = text "60.0";
  value = finite false 600 (negsuc 0);
  there = refl;
  accepted = refl;
  same = refl;
  in_currency = refl;
}

validate_detail_consistency_iff_example :
    (validate_detail_consistency decimal shape (some total) body ≡ none)
    ↔ (units 4 (sixty ∷ sixty ∷ []) + units 4 [] ≡ at_places 4 total)
unfolding get units
validate_detail_consistency_iff_example =
    validate_detail_consistency_iff decimal shape total body "[…]" lender (cons lender nil) nil
      (sixty ∷ sixty ∷ []) [] 4 refl refl (says, (says, tt)) refl (omega arith)
      (omega arith, (omega arith, tt)) tt (omega arith) (omega arith)

abbrev marks : List Mark
marks = as_money_write ∷ as_dispatched "BIZ-1" false ∷ []

money_write_error_extra_iff_example :
    SaysNotApplied (money_write_error_extra (after_marks marks unmarked) 409)
    ↔ ((has_money_write marks ≡ true) × (has_dispatch marks ≡ false) × IsRefusal 409)
money_write_error_extra_iff_example = money_write_error_extra_iff marks 409
