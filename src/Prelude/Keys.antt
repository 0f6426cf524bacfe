-- ===== src/Prelude/Keys.antt =====
-- Tables whose rows have a number for a key.
use Prim.Native.Nat.{ℕ}
use mathlib.Core.Path.{◌≡◌, refl}
use mathlib.Core.Logic.{inl, inr}
use mathlib.Core.Bool.{Bool, true, false, ◌&&◌}
use mathlib.Core.Option.{none, some}
use mathlib.Core.List.{List, [], ◌∷◌}
use native.Mathlib.Omega.{arith}
use lending_bank_gateway.Prelude.Tests.{◌==◌, if◌then◌else◌, Bool-cases}
use lending_bank_gateway.Prelude.Lists.{All, find, update_where}

module _ {ℓ} {A : Type ℓ} (key : A → ℕ) where
  abbrev pub has_key : ℕ → A → Bool
  has_key k x = key x == k

  -- no two rows have one key
  abbrev pub Unique : List A → Type 0
  Unique [] = Unit
  Unique (x ∷ xs) = All (λ y. (key y == key x) ≡ false) xs × Unique xs

  module _ (k : ℕ) (p : A → Bool) where
    find-others :
        (x : A) (xs : List A)
        → has_key k x ≡ true
        → All (λ y. (key y == key x) ≡ false) xs
        → find (λ y. has_key k y && p y) xs ≡ none
    find-others x [] own h = refl
    find-others x (y ∷ ys) own h = ground (arith, find-others x ys own h.1)

    -- a narrower test finds the row of the key, or none
    pub find-narrow :
        (x : A) (xs : List A)
        → Unique xs
        → find (has_key k) xs ≡ some x
        → find (λ y. has_key k y && p y) xs ≡ (if p x then some x else none)
    find-narrow x [] u found = ground arith
    find-narrow x (y ∷ ys) u found = elim (Bool-cases (has_key k y)) [
      | inl own ↦ ground (arith, find-others y ys own u.0)
      | inr other ↦ ground (arith, find-narrow x ys u.1)
    ]

  module _ (p : A → Bool) (f : A → A) (same : (x : A) → key (f x) ≡ key x) where
    others-update_where :
        (n : ℕ) (xs : List A)
        → All (λ y. (key y == n) ≡ false) xs
        → All (λ y. (key y == n) ≡ false) (update_where p f xs)
    others-update_where n [] h = tt
    others-update_where n (x ∷ xs) h = (ground (arith, same x, h.0), others-update_where n xs h.1)

    pub Unique-update_where : (xs : List A) → Unique xs → Unique (update_where p f xs)
    Unique-update_where [] u = tt
    Unique-update_where (x ∷ xs) u = elim (Bool-cases (p x)) [
      | inl hit ↦ rw (hit, same x) (others-update_where (key x) xs u.0, Unique-update_where xs u.1)
      | inr miss ↦ rw miss (others-update_where (key x) xs u.0, Unique-update_where xs u.1)
    ]
