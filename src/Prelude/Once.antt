-- ===== src/Prelude/Once.antt =====
-- A table with a unique key, and inserts that a taken key turns away.
use Prim.Native.Nat.{ℕ, suc, ◌+◌}
use mathlib.Core.Path.{◌≡◌, refl}
use mathlib.Core.Logic.{inl, inr}
use mathlib.Core.Bool.{Bool, true, false}
use mathlib.Core.Option.{some}
use mathlib.Core.List.{List, [], ◌∷◌, ◌++◌}
use native.Mathlib.Omega.{arith}
use lending_bank_gateway.Prelude.Tests.{if◌then◌else◌, is_some, Bool-cases, Option-cases}
use lending_bank_gateway.Prelude.Lists.{All, find, find-append, length}

module _ {ℓ} {A : Type ℓ} (same : A → A → Bool) where
  -- an insert and its `IntegrityError`: whether the row is new
  abbrev pub add_once : A → List A → Bool × List A
  add_once x rows = if is_some (find (same x) rows) then (false, rows) else (true, rows ++ x ∷ [])

  -- one insert after the other, with the count of the new rows
  unfoldable pub add_each : List A → List A → ℕ × List A
  add_each [] rows = (0, rows)
  add_each (x ∷ xs) rows =
      let (new, rows') = add_once x rows in
      let (n, last) = add_each xs rows' in (if new then suc n else n, last)

  pub add_once-old :
      (x y a : A) (rows : List A)
      → find (same y) rows ≡ some a
      → find (same y) (add_once x rows).1 ≡ some a
  add_once-old x y a rows h = ground (arith, find-append (same y) rows (x ∷ []))

  pub add_each-old :
      (xs : List A) (y a : A) (rows : List A)
      → find (same y) rows ≡ some a
      → find (same y) (add_each xs rows).1 ≡ some a
  unfolding add_each
  add_each-old [] y a rows h = h
  add_each-old (x ∷ xs) y a rows h = add_each-old xs y a _ (add_once-old x y a rows h)

  pub add_each-keeps :
      (xs : List A) (y : A) (rows : List A)
      → is_some (find (same y) rows) ≡ true
      → is_some (find (same y) (add_each xs rows).1) ≡ true
  add_each-keeps xs y rows h = elim (Option-cases (find (same y) rows)) [
    | inl missing ↦ ground arith
    | inr (a, found) ↦ rw (add_each-old xs y a rows found) refl
  ]

  length-snoc : (rows : List A) (x : A) → length (rows ++ x ∷ []) ≡ length rows + 1
  length-snoc [] x = refl
  length-snoc (y ∷ rows) x = ground (arith, length-snoc rows x)

  add_once-counts :
      (x : A) (rows : List A)
      → length (add_once x rows).1 ≡ (if (add_once x rows).0 then length rows + 1 else length rows)
  add_once-counts x rows = elim (Bool-cases (is_some (find (same x) rows))) [
    | inl old ↦ rw old refl
    | inr new ↦ rw new (length-snoc rows x)
  ]

  pub add_each-counts :
      (xs rows : List A) → length (add_each xs rows).1 ≡ length rows + (add_each xs rows).0
  unfolding add_each
  add_each-counts [] rows = ground arith
  add_each-counts (x ∷ xs) rows =
      ground (arith, add_each-counts xs (add_once x rows).1, add_once-counts x rows)

  -- rows that are all there are not added again
  pub add_each-again :
      (xs rows : List A)
      → All (λ x. is_some (find (same x) rows) ≡ true) xs
      → add_each xs rows ≡ (0, rows)
  unfolding add_each
  add_each-again [] rows h = refl
  add_each-again (x ∷ xs) rows h = ground (arith, add_each-again xs rows h.1)

  module _ (refl_same : (x : A) → same x x ≡ true) where
    pub add_once-own : (x : A) (rows : List A) → is_some (find (same x) (add_once x rows).1) ≡ true
    add_once-own x rows = ground (arith, find-append (same x) rows (x ∷ []), refl_same x)

    pub add_each-covers :
        (xs rows : List A) → All (λ x. is_some (find (same x) (add_each xs rows).1) ≡ true) xs
    unfolding add_each
    add_each-covers [] rows = tt
    add_each-covers (x ∷ xs) rows =
        (add_each-keeps xs x _ (add_once-own x rows), add_each-covers xs _)
