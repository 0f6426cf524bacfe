-- ===== src/Guards/Amount/Exact.antt =====
-- An accepted amount is stored as it was sent.
use native.Mathlib.Nat.{pow-suc, div-eq_of_lt-le}
use lending_bank_gateway.Prelude.{
  ℕ, zero, suc, ◌+◌, ◌-◌, ◌*◌, ◌/◌, ◌%◌, ◌^◌, ◌==◌, ◌≤◌, ◌<◌, leb, ◌≡◌, ◌⊎◌, inl, inr, refl, sym,
  ap, ◌∙◌, Bool, true, false, ◌&&◌, subst, String, str_eq, Option, List, [], ◌∷◌, none, some, arith,
  Bool-cases,
}
use lending_bank_gateway.Json.Value.{ℤ, pos, negsuc}
use lending_bank_gateway.Amounts.{
  Decimal, finite, infinite, nan, guarded, order, quantized, half_up,
}
use lending_bank_gateway.Amounts.Capacity.{pow_add, tens_pos, parse_guarded_decimal_fits}
use lending_bank_gateway.Guards.Amount.{
  currency_scale, scale_of, strip_zeros, precision, max_places, cut, rounded, places,
  normalized_places, check_scale, check_amount, parse_amount,
}

regroup : (u p : ℕ) → u * p * 10 ≡ u * (p * 10)
regroup u p = grind arith

one_time : (c : ℕ) → c ≡ c * 1
one_time c = omega arith

assoc : (p q r : ℕ) → p * q * r ≡ p * (q * r)
assoc p q r = grind arith

-- two powers of ten after each other
pub mul_tens : (c a b k : ℕ) → a + b ≡ k → c * 10 ^ a * 10 ^ b ≡ c * 10 ^ k
mul_tens c a b k h =
    assoc c (10 ^ a) (10 ^ b) ∙ ap (λ x. c * x) (sym (pow_add a b)) ∙ ap (λ x. c * 10 ^ x) h

times_ten : (u k : ℕ) → u * 10 ^ k * 10 ≡ u * 10 ^ suc k
times_ten u k = regroup u (10 ^ k) ∙ ap (λ x. u * x) (sym (pow-suc 10 k))

same_power : (c p : ℕ) → c ≡ c * 10 ^ (p - p)
same_power c p =
    let none_left : p - p ≡ 0 = omega arith in one_time c ∙ ap (λ x. c * 10 ^ x) (sym none_left)

-- what is stripped is a power of ten
strip_zeros-divides :
    (p c : ℕ) → (u : ℕ) × (c ≡ u * 10 ^ (p - strip_zeros p c)) × (strip_zeros p c ≤ p)
unfolding strip_zeros
strip_zeros-divides zero c = (c, omega arith, omega arith)
strip_zeros-divides (suc p) c = elim (Bool-cases (c % 10 == 0)) [
  | inl ends ↦
      let (u, e, low) = strip_zeros-divides p (c / 10) in
      let next : suc p - strip_zeros p (c / 10) ≡ suc (p - strip_zeros p (c / 10)) = omega arith in
      let tens : c ≡ c / 10 * 10 = ground arith in
      rw ends (
        u,
        tens
            ∙ ap (λ x. x * 10) e
            ∙ times_ten u (p - strip_zeros p (c / 10))
            ∙ ap (λ x. u * 10 ^ x) (sym next),
        omega arith,
      )
  | inr last ↦ rw last (c, same_power c (suc p), omega arith)
]

-- a multiple of the divisor is not rounded
half_up-exact : (u d : ℕ) → 0 < d → half_up (u * d) d ≡ u
half_up-exact u d p =
    let half : d / 2 < d = omega arith in div-eq_of_lt-le d (omega arith) (grind arith)

-- the value of the coefficient at this scale is that of the amount
abbrev pub IsExact : ℕ → ℕ → ℤ → Type 0
IsExact s c (pos e) = quantized s c (pos e) ≡ c * 10 ^ s * 10 ^ e
IsExact s c (negsuc k) = quantized s c (negsuc k) * 10 ^ suc k ≡ c * 10 ^ s

multiple-IsExact :
    (s c k u r : ℕ) → c ≡ u * 10 ^ (suc k - r) → r ≤ s → s < suc k → IsExact s c (negsuc k)
multiple-IsExact s c k u r e low cut =
    let d = 10 ^ (suc k - s) in
    let w = u * 10 ^ (s - r) in
    let split : c ≡ w * d = e ∙ sym (mul_tens u (s - r) (suc k - s) (suc k - r) (omega arith)) in
    let kept : half_up c d ≡ w =
      ap (λ x. half_up x d) split ∙ half_up-exact w d (tens_pos (suc k - s)) in
    let long : leb (suc k) s ≡ false = ground arith in
    rw long (
      ap (λ x. x * 10 ^ suc k) kept
      ∙ mul_tens u (s - r) (suc k) (s - r + suc k) refl
      ∙ sym (ap (λ x. x * 10 ^ s) e ∙ mul_tens u (suc k - r) s (s - r + suc k) (omega arith)))

few-IsExact : (s c : ℕ) (e : ℤ) → strip_zeros (places e) c ≤ s → IsExact s c e
few-IsExact s c (pos e) low = sym (mul_tens c s e (e + s) (omega arith))
few-IsExact s c (negsuc k) low = elim (Bool-cases (leb (suc k) s)) [
  | inl short ↦ rw short (mul_tens c (s - suc k) (suc k) s (ground arith))
  | inr long ↦
      let (u, e, fewer) = strip_zeros-divides (suc k) c in
      multiple-IsExact s c k u (strip_zeros (suc k) c) e low (ground arith)
]

abbrev all_within : List (String × ℕ) → Bool
all_within [] = true
all_within ((name, scale) ∷ more) = leb scale 4 && all_within more

scale_of_le :
    (table : List (String × ℕ)) (currency : String)
    → all_within table ≡ true
    → scale_of table currency ≤ 4
unfolding scale_of
scale_of_le [] currency h = omega arith
scale_of_le ((name, scale) ∷ more) currency h = ground (arith, scale_of_le more currency)

-- within the context nothing is rounded
pub no_cut : (p c : ℕ) → order c < precision → p ≤ max_places → cut p c ≡ 0
no_cut p c short low = ground arith

normalized-few :
    (c s : ℕ) (e : ℤ)
    → order c < precision
    → places e ≤ max_places
    → normalized_places c e ≤ s
    → strip_zeros (places e) c ≤ s
normalized-few c s e short near low =
    let whole : places e - 0 ≡ places e = omega arith in
    subst (λ x. x ≤ s)
      (ap (λ k. strip_zeros (places e - k) (rounded k c)) (no_cut (places e) c short near)
        ∙ ap (λ x. strip_zeros x c) whole)
      low

strip_zeros-le : (p c : ℕ) → strip_zeros p c ≤ p
strip_zeros-le p c = let (u, e, low) = strip_zeros-divides p c in low

-- the test of the scale lets pass only what the column holds without rounding
check_scale-IsExact :
    (currency : String) (c : ℕ) (e : ℤ) {d : Decimal}
    → order c < precision
    → places e ≤ max_places
    → check_scale currency c e ≡ inr d
    → IsExact 4 c e
check_scale-IsExact currency c e short near h = elim (Bool-cases (str_eq currency "")) [
  | inl bare ↦
      let few : places e ≤ 4 = ground arith in
      few-IsExact 4 c e (omega (arith, strip_zeros-le (places e) c))
  | inr named ↦
      let fits : normalized_places c e ≤ scale_of currency_scale currency = ground arith in
      few-IsExact 4 c e
        (normalized-few c 4 e short near (omega (arith, scale_of_le currency_scale currency refl)))
]

-- an amount that the column holds as it is: positive, below its capacity, and not rounded, at least
-- if it is within the precision and the places of the context
pub record IsStored (value : Option Decimal) (d : Decimal) : Type 0 where
  pub coefficient : ℕ
  pub exponent : ℤ
  pub sent : value ≡ some (finite false coefficient exponent)
  pub returned : d ≡ finite false coefficient exponent
  pub positive : 0 < coefficient
  pub fits : quantized 4 coefficient exponent < 10 ^ 21
  pub exact :
      (precision ≤ order coefficient)
      ⊎ (max_places < places exponent)
      ⊎ IsExact 4 coefficient exponent

check_scale-returned :
    (currency : String) (c : ℕ) (e : ℤ) {d : Decimal}
    → check_scale currency c e ≡ inr d
    → d ≡ finite false c e
check_scale-returned currency c e h = ground arith

check_scale-IsStored :
    (currency : String) (c : ℕ) (e : ℤ) {d : Decimal}
    → (c == 0) ≡ false
    → quantized 4 c e < 10 ^ 21
    → check_scale currency c e ≡ inr d
    → IsStored (some (finite false c e)) d
check_scale-IsStored currency c e some_digit fits h = record {
  coefficient = c;
  exponent = e;
  sent = refl;
  returned = check_scale-returned currency c e h;
  positive = ground arith;
  fits = fits;
  exact = elim (Bool-cases (leb precision (order c))) [
    | inl long ↦ inl (ground arith)
    | inr short ↦ elim (Bool-cases (leb (places e) max_places)) [
      | inl near ↦ inr (inr (check_scale-IsExact currency c e (ground arith) (ground arith) h))
      | inr far ↦ inr (inl (ground arith))
    ]
  ];
}

check_amount-IsStored :
    (currency : String) (sign : Bool) (c : ℕ) (e : ℤ) {d : Decimal}
    → quantized 4 c e < 10 ^ 21
    → check_amount currency (guarded (finite sign c e)) ≡ inr d
    → IsStored (some (finite sign c e)) d
check_amount-IsStored currency true c e fits h = ground arith
check_amount-IsStored currency false c e fits h = elim (Bool-cases (c == 0)) [
  | inl nothing ↦ ground arith
  | inr some_digit ↦ check_scale-IsStored currency c e some_digit fits (rw some_digit at h)
]

-- An amount that is accepted, with a currency or without, is returned as it was sent, is positive, and
-- stays below the capacity of its column; and if it has at most 28 digits and at most 1000026 decimal
-- places, the column holds exactly its value.
pub parse_amount-IsStored :
    (value : Option Decimal) (currency : Option String) (d : Decimal)
    → parse_amount value currency ≡ inr d
    → IsStored value d
unfolding parse_amount
parse_amount-IsStored none currency d h = ground arith
parse_amount-IsStored (some infinite) currency d h = ground arith
parse_amount-IsStored (some nan) currency d h = ground arith
parse_amount-IsStored (some (finite sign c e)) currency d h =
    elim (parse_guarded_decimal_fits 17 4 c sign e) [
      | inl (passes, fits) ↦ check_amount-IsStored _ sign c e fits (rw passes at h)
      | inr (over, fits) ↦ ground arith
    ]
