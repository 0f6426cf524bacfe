-- ===== src/Amounts/Capacity.antt =====
-- The guard admits exactly the amounts that the column can hold.
use native.Mathlib.Nat.{
  pow-suc, pow-le-pow_right, mul-le-mul_right, le-div_iff_mul-le, div-lt_iff_lt-mul, one-le-pow,
}
use lending_bank_gateway.Prelude.{
  ℕ, zero, suc, ◌+◌, ◌-◌, ◌*◌, ◌/◌, ◌^◌, ◌≤◌, ◌<◌, ◌==◌, ltb, leb, ◌≡◌, ◌⊎◌, inl, inr, refl, sym,
  ap, ◌∙◌, Bool, true, false, some, arith, Bool-cases,
}
use lending_bank_gateway.Json.Value.{ℤ, pos, negsuc}
use lending_bank_gateway.Amounts.{
  Decimal, finite, over_capacity, guarded, guard_error, order_within, order, is_wide, half_up,
  quantized, check_quantized, parse_guarded_decimal,
}

tens_le : (i j : ℕ) → i ≤ j → 10 ^ i ≤ 10 ^ j
tens_le i j h = pow-le-pow_right (omega arith) h

pub tens_pos : (k : ℕ) → 0 < 10 ^ k
tens_pos k = one-le-pow k 10 (omega arith)

ten_inside : (p q : ℕ) → p * q * 10 ≡ p * 10 * q
ten_inside p q = grind arith

pub pow_add : (a b : ℕ) → 10 ^ (a + b) ≡ 10 ^ a * 10 ^ b
pow_add zero b = let same : 0 + b ≡ b = omega arith in ap (λ x. 10 ^ x) same ∙ omega arith
pow_add (suc a) b =
    let same : suc a + b ≡ suc (a + b) = omega arith in
    ap (λ x. 10 ^ x) same
    ∙ pow-suc 10 (a + b)
    ∙ ap (λ x. x * 10) (pow_add a b)
    ∙ ten_inside (10 ^ a) (10 ^ b)
    ∙ ap (λ x. x * 10 ^ b) (sym (pow-suc 10 a))

order_within_upper : (f n : ℕ) → n ≤ f → n < 10 ^ suc (order_within f n)
unfolding order_within
order_within_upper zero n h = omega arith
order_within_upper (suc f) n h = elim (Bool-cases (ltb n 10)) [
  | inl one ↦ let small : n < 10 = ground arith in rw (one, order_within) (omega arith)
  | inr more ↦
      let big : 10 ≤ n = ground arith in
      rw (more, order_within)
        (omega (
          arith,
          order_within_upper f (n / 10) (omega arith),
          pow-suc 10 (suc (order_within f (n / 10))),
        ))
]

order_within_lower : (f n : ℕ) → n ≤ f → 0 < n → 10 ^ order_within f n ≤ n
unfolding order_within
order_within_lower zero n h p = omega arith
order_within_lower (suc f) n h p = elim (Bool-cases (ltb n 10)) [
  | inl one ↦ rw (one, order_within) (omega arith)
  | inr more ↦
      let big : 10 ≤ n = ground arith in
      rw (more, order_within)
        (omega (
          arith,
          order_within_lower f (n / 10) (omega arith) (omega arith),
          pow-suc 10 (order_within f (n / 10)),
        ))
]

-- the order against a power of ten
order-lt : (k n : ℕ) → leb k (order n) ≡ false → n < 10 ^ k
order-lt k n h =
    let below : suc (order n) ≤ k = ground arith in
    omega (arith, order_within_upper n n (omega arith), tens_le (suc (order n)) k below)

pub order-le : (k n : ℕ) → 0 < n → leb k (order n) ≡ true → 10 ^ k ≤ n
order-le k n p h =
    let above : k ≤ order n = ground arith in
    omega (arith, order_within_lower n n (omega arith) p, tens_le k (order n) above)

pub order_zero : (n : ℕ) → n ≡ 0 → order n ≡ 0
unfolding order_within
order_zero n h = ap order h ∙ refl

pub order_bound : (k n : ℕ) → n ≤ 10 ^ k → order n ≤ k
order_bound k n h = elim (Bool-cases (leb (suc k) (order n))) [
  | inl above ↦ elim (Bool-cases (n == 0)) [
    | inl nothing ↦ omega (arith, order_zero n (ground arith))
    | inr some_digit ↦
        omega (arith, order-le (suc k) n (ground arith) above, pow-suc 10 k, tens_pos k)
  ]
  | inr below ↦ ground arith
]

half_up-le : (c d q : ℕ) → 0 < d → q * d ≤ c → q ≤ half_up c d
half_up-le c d q p h = (le-div_iff_mul-le p).1 (omega arith)

half_up-lt : (c d q : ℕ) → 0 < d → c < q * d → half_up c d ≤ q
half_up-lt c d q p h =
    let bound : (c + d / 2) / d < q + 1 = (div-lt_iff_lt-mul p).1 (grind arith) in omega arith

-- products of a coefficient with a power of ten
mul-tens-le : (c i j k : ℕ) → 10 ^ i ≤ c → k ≤ i + j → 10 ^ k ≤ c * 10 ^ j
mul-tens-le c i j k low h =
    omega (arith, tens_le k (i + j) h, pow_add i j, mul-le-mul_right (10 ^ j) low)

mul-tens-upper : (c i j k : ℕ) → c < 10 ^ i → i + j ≤ k → c * 10 ^ j ≤ 10 ^ k
mul-tens-upper c i j k high h =
    let below : c ≤ 10 ^ i = omega arith in
    omega (arith, tens_le (i + j) k h, pow_add i j, mul-le-mul_right (10 ^ j) below)

-- the two factors of a power of ten, where the second makes up for the scale
split_tens : (m s k : ℕ) → s < suc k → 10 ^ (m + s) * 10 ^ (suc k - s) ≡ 10 ^ (m + suc k)
split_tens m s k h =
    let same : m + s + (suc k - s) ≡ m + suc k = omega arith in
    sym (pow_add (m + s) (suc k - s)) ∙ ap (λ x. 10 ^ x) same

zero_mul : (n : ℕ) → 0 * n ≡ 0
zero_mul n = omega arith

zero_half_up : (c d : ℕ) → c ≡ 0 → 0 < d → half_up c d ≡ 0
zero_half_up c d h p =
    let small : (c + d / 2) / d < 1 = (div-lt_iff_lt-mul p).1 (omega arith) in omega arith

module _ (m s c : ℕ) where
  -- the first test refuses only what is too wide
  wide-quantized : (e : ℤ) → 0 < c → is_wide m c e ≡ true → 10 ^ (m + s) ≤ quantized s c e
  wide-quantized (pos e) p h =
      let wide : m ≤ order c + e = ground arith in
      mul-tens-le c (order c) (e + s) (m + s) (order-le (order c) c p (ground arith)) (omega arith)
  wide-quantized (negsuc k) p h =
      let wide : m + suc k ≤ order c = ground arith in
      let low : 10 ^ order c ≤ c = order-le (order c) c p (ground arith) in
      elim (Bool-cases (leb (suc k) s)) [
        | inl short ↦
            let fits : suc k ≤ s = ground arith in
            rw short (mul-tens-le c (order c) (s - suc k) (m + s) low (omega arith))
        | inr long ↦
            let cut : s < suc k = ground arith in
            rw long (
              half_up-le c (10 ^ (suc k - s)) (10 ^ (m + s)) (tens_pos (suc k - s))
                (omega (arith, split_tens m s k cut, tens_le (m + suc k) (order c) wide)))
      ]

  -- what passes it is at most rounded up to the bound
  narrow-quantized : (e : ℤ) → is_wide m c e ≡ false → quantized s c e ≤ 10 ^ (m + s)
  narrow-quantized (pos e) h =
      let narrow : order c + e < m = ground arith in
      mul-tens-upper c (suc (order c)) (e + s) (m + s) (order-lt (suc (order c)) c (ground arith))
        (omega arith)
  narrow-quantized (negsuc k) h =
      let high : c < 10 ^ (m + suc k) = order-lt (m + suc k) c h in
      elim (Bool-cases (leb (suc k) s)) [
        | inl short ↦
            let fits : suc k ≤ s = ground arith in
            rw short (mul-tens-upper c (m + suc k) (s - suc k) (m + s) high (omega arith))
        | inr long ↦
            let cut : s < suc k = ground arith in
            rw long (
              half_up-lt c (10 ^ (suc k - s)) (10 ^ (m + s)) (tens_pos (suc k - s))
                (omega (arith, split_tens m s k cut)))
      ]

  zero-quantized : (e : ℤ) → c ≡ 0 → quantized s c e < 10 ^ (m + s)
  zero-quantized (pos e) h =
      omega (arith, tens_pos (m + s), zero_mul (10 ^ (e + s)), ap (λ x. x * 10 ^ (e + s)) h)
  zero-quantized (negsuc k) h = elim (Bool-cases (leb (suc k) s)) [
    | inl short ↦ rw short (
        omega
          (arith, tens_pos (m + s), zero_mul (10 ^ (s - suc k)), ap (λ x. x * 10 ^ (s - suc k)) h))
    | inr long ↦ rw long (
        omega (arith, tens_pos (m + s), zero_half_up c (10 ^ (suc k - s)) h (tens_pos (suc k - s))))
  ]

  -- the second test, of a value that is at most rounded up to the bound
  check_quantized_fits :
      (value : Decimal) (q : ℕ)
      → q ≤ 10 ^ (m + s)
      → ((check_quantized m s value q ≡ guarded value) × (q < 10 ^ (m + s)))
        ⊎ ((check_quantized m s value q ≡ guard_error over_capacity) × (10 ^ (m + s) ≤ q))
  check_quantized_fits value q bound = elim (Bool-cases (leb (m + s) (order q))) [
    | inl high ↦ elim (Bool-cases (q == 0)) [
      | inl nothing ↦
          let none_left : q ≡ 0 = ground arith in
          inl (ground (arith, order_bound (m + s) q bound), omega (arith, tens_pos (m + s)))
      | inr some_digit ↦
          inr (ground (arith, order_bound (m + s) q bound), order-le (m + s) q (ground arith) high)
    ]
    | inr low ↦ inl (ground (arith, order_bound (m + s) q bound), order-lt (m + s) q low)
  ]

  -- A finite amount is accepted exactly if, rounded half up to the column's scale, it stays below the
  -- column's capacity, and is refused as over it otherwise: the rounding itself never fails.
  pub parse_guarded_decimal_fits :
      (sign : Bool) (e : ℤ)
      → ((parse_guarded_decimal m s (some (finite sign c e)) ≡ guarded (finite sign c e))
          × (quantized s c e < 10 ^ (m + s)))
        ⊎ ((parse_guarded_decimal m s (some (finite sign c e)) ≡ guard_error over_capacity)
            × (10 ^ (m + s) ≤ quantized s c e))
  unfolding parse_guarded_decimal
  parse_guarded_decimal_fits sign e = elim (Bool-cases (c == 0)) [
    | inl nothing ↦ inl (rw nothing refl, zero-quantized e (ground arith))
    | inr some_digit ↦ elim (Bool-cases (is_wide m c e)) [
      | inl wide ↦ inr (rw (some_digit, wide) refl, wide-quantized e (ground arith) wide)
      | inr narrow ↦
          rw (some_digit, narrow)
            (check_quantized_fits (finite sign c e) (quantized s c e) (narrow-quantized e narrow))
    ]
  ]
