-- ===== src/Guards/Details/Balance.antt =====
-- Details pass exactly if they add up to the total.
use lending_bank_gateway.Prelude.{
  ℕ, ◌+◌, ◌^◌, ◌≤◌, ◌<◌, ◌≡◌, ◌↔◌, inr, refl, sym, ap, ◌∙◌, Bool, true, String, Option, none, some,
  List, [], ◌∷◌, All, arith,
}
use lending_bank_gateway.Json.Value.{Value, Items, Fields, array, nil, cons, get, str_of, present}
use lending_bank_gateway.Amounts.{Decimal}
use lending_bank_gateway.Guards.Amount.{max_places, parse_amount}
use lending_bank_gateway.Guards.Details.{
  Amount, nothing, at_places, add, sum_from, amount_of, item_amount, with_item, field_of,
  collect_detail_amounts, has_currency, all_in_currency, Shape, check_sum, check_main,
  collected_fees, check_amounts, check_lists, fee_items_of, check_items, check_details,
  validate_detail_consistency,
}
use lending_bank_gateway.Guards.Details.Sums.{units, Few, add-exact, sum_from-exact, equal-exact}

nothing_is_zero : (p : ℕ) → at_places p nothing ≡ 0
nothing_is_zero p = omega arith

-- a check of sums that are exact
check_sum-exact :
    (p : ℕ) (total : Amount) (main fees : List Amount)
    → Few p total
    → All (Few p) main
    → All (Few p) fees
    → p ≤ max_places
    → units p main + units p fees < 10 ^ 28
    → (check_sum total main fees ≡ none) ↔ (units p main + units p fees ≡ at_places p total)
check_sum-exact p total main fees ht hm hf near small =
    let zero_start = nothing_is_zero p in
    let (few_m, sum_m) =
      sum_from-exact p nothing main (omega arith) hm near (omega (arith, zero_start)) in
    let (few_f, sum_f) =
      sum_from-exact p nothing fees (omega arith) hf near (omega (arith, zero_start)) in
    let (few, whole) =
      add-exact p (sum_from nothing main) (sum_from nothing fees) few_m few_f near
        (omega (arith, sum_m, sum_f, zero_start)) in
    let exact : at_places p (add (sum_from nothing main) (sum_from nothing fees))
        ≡ units p main + units p fees =
      omega (arith, whole, sum_m, sum_f, zero_start) in
    let same = equal-exact p (add (sum_from nothing main) (sum_from nothing fees)) total few ht in
    (λ e. sym exact ∙ same.0 (ground arith), λ e. let hit = same.1 (exact ∙ e) in rw hit refl)

module _ (decimal : String → Option Decimal) where
  -- an item says this amount in this field, and names no other currency
  pub record SaysAmount (amount_field currency : String) (v : Value) (a : Amount) : Type 0 where
    pub raw : Value
    pub value : Decimal
    pub there : field_of amount_field v ≡ some raw
    pub accepted : parse_amount (decimal (str_of raw)) (some currency) ≡ inr value
    pub same : a ≡ amount_of value
    pub in_currency : has_currency currency (present (field_of "currencyCode" v)) ≡ true

  -- the items say these amounts, one after the other
  abbrev pub SayAmounts : String → String → Items → List Amount → Type 0
  SayAmounts amount_field currency nil [] = Unit
  SayAmounts amount_field currency nil (a ∷ more) = ⊥
  SayAmounts amount_field currency (cons v items) [] = ⊥
  SayAmounts amount_field currency (cons v items) (a ∷ more) =
      SaysAmount amount_field currency v a × SayAmounts amount_field currency items more

  collect-SayAmounts :
      (strict : Bool) (amount_field detail_key currency : String) (items : Items)
      (amounts : List Amount)
      → SayAmounts amount_field currency items amounts
      → collect_detail_amounts decimal strict amount_field detail_key currency items
        ≡ inr (some amounts)
  unfolding collect_detail_amounts
  collect-SayAmounts strict f k c nil [] h = refl
  collect-SayAmounts strict f k c nil (a ∷ more) h = elim h [ ]
  collect-SayAmounts strict f k c (cons v items) [] h = elim h [ ]
  collect-SayAmounts strict f k c (cons v items) (a ∷ more) (h, hs) =
      let got : item_amount decimal f k c h.raw ≡ inr a =
        rw (h.accepted, item_amount) (ap inr (sym h.same)) in
      rw (h.there, with_item, got, collect-SayAmounts strict f k c items more hs) refl

  in_currency-SayAmounts :
      (amount_field currency : String) (items : Items) (amounts : List Amount)
      → SayAmounts amount_field currency items amounts
      → all_in_currency currency items ≡ true
  unfolding all_in_currency
  in_currency-SayAmounts f c nil [] h = refl
  in_currency-SayAmounts f c nil (a ∷ more) h = elim h [ ]
  in_currency-SayAmounts f c (cons v items) [] h = elim h [ ]
  in_currency-SayAmounts f c (cons v items) (a ∷ more) (h, hs) =
      ground (arith, h.in_currency, in_currency-SayAmounts f c items more hs)

  -- the same of the fees, if there are any
  abbrev pub SayFees : Option (String × String) → String → Items → List Amount → Type 0
  SayFees none currency items [] = items ≡ nil
  SayFees none currency items (a ∷ more) = ⊥
  SayFees (some (key, amount_field)) currency items amounts =
      SayAmounts amount_field currency items amounts

  fees-collected :
      (s : Shape) (o : Option (String × String)) (items : Items) (fees : List Amount)
      → s.fees ≡ o
      → SayFees o s.currency items fees
      → collected_fees decimal s items ≡ inr (some fees)
  fees-collected s none nil [] e h = refl
  fees-collected s none items (a ∷ more) e h = elim h [ ]
  fees-collected s none (cons v items) [] e h = ground arith
  fees-collected s (some (key, f)) nil [] e h = refl
  fees-collected s (some (key, f)) nil (a ∷ more) e h = elim h [ ]
  fees-collected s (some (key, f)) (cons v items) fees e h =
      rw e (collect-SayAmounts true f key s.currency (cons v items) fees h)

  fees-in_currency :
      (o : Option (String × String)) (currency : String) (items : Items) (fees : List Amount)
      → SayFees o currency items fees
      → all_in_currency currency items ≡ true
  fees-in_currency none c items [] h = ap (all_in_currency c) h ∙ unfold all_in_currency in refl
  fees-in_currency none c items (a ∷ more) h = elim h [ ]
  fees-in_currency (some (key, f)) c items fees h = in_currency-SayAmounts f c items fees h

  module _ (s : Shape) (total : Amount) (body : Fields) (t : String) (v : Value)
      (items fee_items : Items) (main fees : List Amount) where
    -- Where the details are a list that is not empty and every item of it, and of the fees, says an
    -- amount that is accepted and names no other currency, the details pass exactly if the amounts add
    -- up to the total, taken exactly at enough places, if these are at most 1000026 and the sum there
    -- has at most 28 digits.
    pub validate_detail_consistency_iff :
        (p : ℕ)
        → present (get s.detail_key body) ≡ some (array t (cons v items))
        → fee_items_of s body ≡ inr fee_items
        → SayAmounts s.amount_field s.currency (cons v items) main
        → SayFees s.fees s.currency fee_items fees
        → Few p total
        → All (Few p) main
        → All (Few p) fees
        → p ≤ max_places
        → units p main + units p fees < 10 ^ 28
        → (validate_detail_consistency decimal s (some total) body ≡ none)
          ↔ (units p main + units p fees ≡ at_places p total)
    unfolding validate_detail_consistency
    validate_detail_consistency_iff p there fee_list says says_fees ht hm hf near small =
        rw
          (
            there,
            check_details,
            check_items,
            fee_list,
            check_lists,
            in_currency-SayAmounts s.amount_field s.currency (cons v items) main says,
            fees-in_currency s.fees s.currency fee_items fees says_fees,
            check_amounts,
            fees-collected s s.fees fee_items fees refl says_fees,
            check_main,
            collect-SayAmounts s.main_strict s.amount_field s.detail_key s.currency (cons v items)
                main says,
          )
          (check_sum-exact p total main fees ht hm hf near small)
