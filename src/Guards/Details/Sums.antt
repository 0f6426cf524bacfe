-- ===== src/Guards/Details/Sums.antt =====
-- Sums of amounts are exact below Python's precision.
use lending_bank_gateway.Prelude.{
  ℕ, zero, suc, ◌+◌, ◌-◌, ◌*◌, ◌^◌, ◌==◌, ◌≤◌, ◌<◌, leb, ◌≡◌, ◌↔◌, inl, inr, refl, sym, ap, ◌∙◌,
  subst, true, List, [], ◌∷◌, All, arith, Bool-cases,
}
use native.Mathlib.Nat.{mul-le-mul_left, le_of_mul-le-mul_right}
use lending_bank_gateway.Json.Value.{ℤ, pos, negsuc}
use lending_bank_gateway.Amounts.{order}
use lending_bank_gateway.Amounts.Capacity.{order_zero, order-le, tens_pos}
use lending_bank_gateway.Guards.Amount.{places, max_places, rounded}
use lending_bank_gateway.Guards.Amount.Exact.{mul_tens, no_cut}
use lending_bank_gateway.Guards.Details.{
  Amount, at_places, common_places, minus, shifted, in_context, add, equal, sum_from,
}

-- more places, by a power of ten
raise_places :
    (a : Amount) (q p : ℕ)
    → places a.exponent ≤ q
    → q ≤ p
    → at_places q a * 10 ^ (p - q) ≡ at_places p a
raise_places a q p few more = go a.exponent few
  where
    go :
        (e : ℤ)
        → places e ≤ q
        → at_places q (record { coefficient = a.coefficient; exponent = e }) * 10 ^ (p - q)
          ≡ at_places p (record { coefficient = a.coefficient; exponent = e })
    go (pos e) h = mul_tens a.coefficient (e + q) (p - q) (e + p) (omega arith)
    go (negsuc k) h = mul_tens a.coefficient (q - suc k) (p - q) (p - suc k) (omega arith)

common_le :
    (a b : Amount) (p : ℕ) → places a.exponent ≤ p → places b.exponent ≤ p → common_places a b ≤ p
common_le a b p ha hb = ground arith

le_common :
    (a b : Amount)
    → (places a.exponent ≤ common_places a b) × (places b.exponent ≤ common_places a b)
le_common a b = (ground arith, ground arith)

order_below : (n : ℕ) → n < 10 ^ 28 → order n < 28
order_below n h = elim (Bool-cases (n == 0)) [
  | inl none_left ↦ omega (arith, order_zero n (ground arith))
  | inr some_digit ↦ elim (Bool-cases (leb 28 (order n))) [
    | inl high ↦ omega (arith, order-le 28 n (ground arith) high)
    | inr low ↦ ground arith
  ]
]

abbrev with_places : ℕ → ℕ → Amount
with_places q c = record { coefficient = c; exponent = minus q }

in_context-few : (q c : ℕ) → q ≤ max_places → c < 10 ^ 28 → in_context q c ≡ with_places q c
in_context-few q c near h =
    let same : q - 0 ≡ q = omega arith in
    let start : leb 0 q ≡ true = ground arith in
    let stays : shifted q 0 ≡ minus q = rw start (ap minus same) in
    ap {B = Amount} (λ k. record { coefficient = rounded k c; exponent = shifted q k })
      (no_cut q c (order_below c h) near)
    ∙ ap {B = Amount} (λ e. record { coefficient = c; exponent = e }) stays

with_places-exact :
    (q p c : ℕ)
    → q ≤ p
    → (places (with_places q c).exponent ≤ p) × (at_places p (with_places q c) ≡ c * 10 ^ (p - q))
with_places-exact zero p c low =
    let same : 0 + p ≡ p - 0 = omega arith in (omega arith, ap (λ x. c * 10 ^ x) same)
with_places-exact (suc k) p c low = (low, refl)

-- below the precision nothing is rounded
in_context-exact :
    (q p c : ℕ)
    → q ≤ p
    → p ≤ max_places
    → c < 10 ^ 28
    → (places (in_context q c).exponent ≤ p) × (at_places p (in_context q c) ≡ c * 10 ^ (p - q))
in_context-exact q p c low near small =
    subst (λ a. (places a.exponent ≤ p) × (at_places p a ≡ c * 10 ^ (p - q)))
      (sym (in_context-few q c (omega arith) small)) (with_places-exact q p c low)

distribute : (a b n : ℕ) → (a + b) * n ≡ a * n + b * n
distribute a b n = grind arith

grows : (c k : ℕ) → c ≤ c * 10 ^ k
grows c k = omega (arith, mul-le-mul_left c (tens_pos k))

pub add-exact :
    (p : ℕ) (a b : Amount)
    → places a.exponent ≤ p
    → places b.exponent ≤ p
    → p ≤ max_places
    → at_places p a + at_places p b < 10 ^ 28
    → (places (add a b).exponent ≤ p) × (at_places p (add a b) ≡ at_places p a + at_places p b)
unfolding add
add-exact p a b ha hb near small =
    let q = common_places a b in
    let low : q ≤ p = common_le a b p ha hb in
    let (la, lb) = le_common a b in
    let scaled : (at_places q a + at_places q b) * 10 ^ (p - q) ≡ at_places p a + at_places p b =
      distribute (at_places q a) (at_places q b) (10 ^ (p - q))
      ∙ omega (arith, raise_places a q p la low, raise_places b q p lb low) in
    let (few, exact) =
      in_context-exact q p (at_places q a + at_places q b) low near
        (omega (arith, scaled, grows (at_places q a + at_places q b) (p - q))) in
    (few, exact ∙ scaled)

-- the exact value of many, at so many places
unfoldable pub units : ℕ → List Amount → ℕ
units p [] = 0
units p (a ∷ more) = at_places p a + units p more

abbrev pub Few : ℕ → Amount → Type 0
Few p a = places a.exponent ≤ p

pub sum_from-exact :
    (p : ℕ) (a : Amount) (bs : List Amount)
    → Few p a
    → All (Few p) bs
    → p ≤ max_places
    → at_places p a + units p bs < 10 ^ 28
    → Few p (sum_from a bs) × (at_places p (sum_from a bs) ≡ at_places p a + units p bs)
unfolding sum_from units
sum_from-exact p a [] ha hs near small = (ha, omega arith)
sum_from-exact p a (b ∷ bs) ha (hb, hs) near small =
    let (few, exact) = add-exact p a b ha hb near (omega arith) in
    let (few', exact') = sum_from-exact p (add a b) bs few hs near (omega (arith, exact)) in
    (few', omega (arith, exact, exact'))

cancel : (a b n : ℕ) → 0 < n → a * n ≡ b * n → a ≡ b
cancel a b n p h = omega (
  arith,
  le_of_mul-le-mul_right {m = a} {n = b} {k = n} (omega (arith, h)) p,
  le_of_mul-le-mul_right {m = b} {n = a} {k = n} (omega (arith, h)) p,
)

-- equal amounts have the same exact value
pub equal-exact :
    (p : ℕ) (a b : Amount)
    → Few p a
    → Few p b
    → (equal a b ≡ true) ↔ (at_places p a ≡ at_places p b)
unfolding equal
equal-exact p a b ha hb =
    let q = common_places a b in
    let low : q ≤ p = common_le a b p ha hb in
    let (la, lb) = le_common a b in
    let ra = raise_places a q p la low in
    let rb = raise_places b q p lb low in
    (
      λ e.
          let same : at_places q a ≡ at_places q b = ground arith in
          sym ra ∙ ap (λ x. x * 10 ^ (p - q)) same ∙ rb,
      λ e.
          let same : at_places q a ≡ at_places q b =
            cancel (at_places q a) (at_places q b) (10 ^ (p - q)) (tens_pos (p - q))
              (ra ∙ e ∙ sym rb) in
          ground arith,
    )
