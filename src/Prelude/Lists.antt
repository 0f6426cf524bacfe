-- ===== src/Prelude/Lists.antt =====
-- Lists over the native numbers, and predicates on lists by recursion.
use Prim.Native.Nat.{ℕ, zero, suc}
use mathlib.Core.Path.{◌≡◌, refl}
use mathlib.Core.Logic.{inl, inr}
use mathlib.Core.Option
use mathlib.Core.Option.{Option, none, some, some-injective}
use mathlib.Core.Bool.{Bool, true, false, ◌||◌}
use mathlib.Core.List.{List, [], ◌∷◌, ◌++◌}
use text.Mathlib.Text.{◌==◌}
use Prim.Native.String.{String}
use native.Mathlib.Omega.{arith}
use lending_bank_gateway.Prelude.Tests.{if◌then◌else◌, Bool-cases}

module _ {ℓ} {A : Type ℓ} where
  abbrev pub length : List A → ℕ
  length [] = 0
  length (x ∷ xs) = suc (length xs)

module _ {ℓ κ} {A : Type ℓ} (P : A → Type κ) where
  abbrev pub All : List A → Type κ
  All [] = Unit
  All (x ∷ xs) = P x × All xs

  pub All-append : (xs ys : List A) → All xs → All ys → All (xs ++ ys)
  All-append [] ys hx hy = hy
  All-append (x ∷ xs) ys (p, hx) hy = (p, All-append xs ys hx hy)

-- `x in {…}` for texts
abbrev pub one_of : String → List String → Bool
one_of s [] = false
one_of s (t ∷ ts) = (s == t) || one_of s ts

-- `SELECT … WHERE p LIMIT n`
unfoldable pub select {ℓ} : {A : Type ℓ} → (A → Bool) → ℕ → List A → List A
select p n [] = []
select p zero (x ∷ xs) = []
select p (suc n) (x ∷ xs) = if p x then x ∷ select p n xs else select p (suc n) xs

-- Tables: rows in the order of insertion, found and changed by a test on the row.
module _ {ℓ} {A : Type ℓ} where
  -- `SELECT … WHERE p` of a row that a unique key names
  abbrev pub find : (A → Bool) → List A → Option A
  find p [] = none
  find p (x ∷ xs) = if p x then some x else find p xs

  -- `UPDATE … WHERE p`
  abbrev pub update_where : (A → Bool) → (A → A) → List A → List A
  update_where p f [] = []
  update_where p f (x ∷ xs) = (if p x then f x else x) ∷ update_where p f xs

  abbrev pub or_else : Option A → Option A → Option A
  or_else none b = b
  or_else (some a) b = some a

  pub find-append :
      (p : A → Bool) (xs ys : List A) → find p (xs ++ ys) ≡ or_else (find p xs) (find p ys)
  find-append p [] ys = refl
  find-append p (x ∷ xs) ys = elim (Bool-cases (p x)) [
    | inl hit ↦ rw hit
    | inr miss ↦ rw (miss, find-append p xs ys)
  ]

  pub find-holds : (p : A → Bool) (x : A) (xs : List A) → find p xs ≡ some x → p x ≡ true
  find-holds p x [] h = cc
  find-holds p x (y ∷ xs) h = ground (arith, find-holds p x xs)

  -- An update that keeps the test of `p` shows in what `p` finds.
  pub find-update_where :
      (p q : A → Bool) (f : A → A) (xs : List A)
      → ((x : A) → q x ≡ true → p (f x) ≡ p x)
      → find p (update_where q f xs) ≡ Option.map (λ x. if q x then f x else x) (find p xs)
  find-update_where p q f [] keep = refl
  find-update_where p q f (x ∷ xs) keep = ground (arith, keep x, find-update_where p q f xs keep)

  -- An update of rows that the test does not find changes nothing.
  pub update_where-none :
      (p : A → Bool) (f : A → A) (xs : List A) → find p xs ≡ none → update_where p f xs ≡ xs
  update_where-none p f [] h = refl
  update_where-none p f (x ∷ xs) h = ground (arith, update_where-none p f xs)

module _ {ℓ κ} {A : Type ℓ} (P Q : A → Type κ) (p : A → Bool) where
  -- what holds of each row after an update
  pub All-update_where :
      (f : A → A) (xs : List A)
      → ((x : A) → p x ≡ true → P x → Q (f x))
      → ((x : A) → P x → Q x)
      → All P xs
      → All Q (update_where p f xs)
  All-update_where f [] step keep h = tt
  All-update_where f (x ∷ xs) step keep h = (
    elim (Bool-cases (p x)) [ inl hit ↦ rw hit (step x hit h.0) | inr miss ↦ rw miss (keep x h.0) ],
    All-update_where f xs step keep h.1,
  )
