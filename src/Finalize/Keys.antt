-- ===== src/Finalize/Keys.antt =====
-- What the dedup key of an order's event tells, of app/services/order_finalize.py.
use Prim.Native.Char.{Char, code}
use Prim.Native.String.{◌++◌}
use text.Mathlib.TextLemmas.{append_cancel_left, append_cancel_right, cons-append, nil-append}
use mathlib.Core.Option.{some-injective}
use lending_bank_gateway.Prelude.{
  ◌≡◌, refl, sym, ap, ◌∙◌, String, str_eq, Option, none, some, ◌==◌, if◌then◌else◌,
}
use lending_bank_gateway.Domain.States.{OrderStatus, value}
use lending_bank_gateway.Finalize.{dedup_key}

-- one more character before a text whose part after the last dash is known
abbrev shift : Char → String → Option String → Option String
shift c s (some w) = some w
shift c s none = if code c == b'-' then some s else none

-- what follows the last dash of a text
after_dash : String → Option String
after_dash String.[] = none
after_dash (String.◌∷◌ c s) = shift c s (after_dash s)

after_dash-cons : (c : Char) (s : String) → after_dash (String.◌∷◌ c s) ≡ shift c s (after_dash s)
unfolding after_dash
after_dash-cons c s = refl

after_dash-append : (b w : String) → after_dash w ≡ none → after_dash (b ++ ("-" ++ w)) ≡ some w
after_dash-append String.[] w h =
    ap after_dash (nil-append ("-" ++ w))
    ∙ ap after_dash (cons-append "-" "" w)
    ∙ ap (λ r. after_dash (String.◌∷◌ "-" r)) (nil-append w)
    ∙ after_dash-cons "-" w
    ∙ rw h refl
after_dash-append (String.◌∷◌ c b) w h =
    ap after_dash (cons-append c b ("-" ++ w))
    ∙ after_dash-cons c (b ++ ("-" ++ w))
    ∙ rw (after_dash-append b w h) refl

after_dash-value : (s : OrderStatus) → after_dash (value s) ≡ none
unfolding after_dash
after_dash-value s = elim s as (λ x. after_dash (value x) ≡ none) [
  | OrderStatus.accepted ↦ refl
  | _ ↦ refl
]

-- `OrderStatus(text)`
from_value : String → Option OrderStatus
from_value s =
    if str_eq s "ACCEPTED"
    then some OrderStatus.accepted
    else if str_eq s "SUBMITTED"
    then some OrderStatus.submitted
    else if str_eq s "PROCESSING"
    then some OrderStatus.processing
    else if str_eq s "RESULT_UNKNOWN"
    then some OrderStatus.result_unknown
    else if str_eq s "SUCCEEDED"
    then some OrderStatus.succeeded
    else if str_eq s "FAILED"
    then some OrderStatus.failed
    else if str_eq s "EXPIRED"
    then some OrderStatus.expired
    else if str_eq s "CANCELLED"
    then some OrderStatus.cancelled
    else if str_eq s "PARTIALLY_REVERSED"
    then some OrderStatus.partially_reversed
    else if str_eq s "REVERSED"
    then some OrderStatus.reversed
    else none

from_value-value : (s : OrderStatus) → from_value (value s) ≡ some s
unfolding from_value
from_value-value OrderStatus.accepted = refl
from_value-value _ = refl

value-injective : (s s' : OrderStatus) → value s ≡ value s' → s ≡ s'
value-injective s s' h =
    some-injective s s' (sym (from_value-value s) ∙ ap from_value h ∙ from_value-value s')

module _ (t b b' : String) (s s' : OrderStatus) where
  tails : dedup_key t b s ≡ dedup_key t b' s' → b ++ ("-" ++ value s) ≡ b' ++ ("-" ++ value s')
  unfolding dedup_key
  tails h = append_cancel_left "-" _ _ (append_cancel_left t _ _ (append_cancel_left "fwd-" _ _ h))

  -- For one tenant, two events have the same key only if they are of the same order and status.
  pub dedup_key-injective : dedup_key t b s ≡ dedup_key t b' s' → (b ≡ b') × (s ≡ s')
  dedup_key-injective h =
      let same_status : s ≡ s' = value-injective s s' (
        some-injective (value s) (value s') (
          sym (after_dash-append b (value s) (after_dash-value s))
          ∙ ap after_dash (tails h)
          ∙ after_dash-append b' (value s') (after_dash-value s'))) in
      (
        append_cancel_right b b' ("-" ++ value s)
            (tails h ∙ ap (λ x. b' ++ ("-" ++ value x)) (sym same_status)),
        same_status,
      )
