-- ===== src/Base/Keyed.antt =====
-- A table with a key column: a row that is written back, or added, and what a lookup finds then.
use hyproxy.Base.Tests.{◌==◌, if◌then◌else◌, is_some}
use hyproxy.Base.Lists.{filter, find?, update_where}
use mathlib.Core.Bool.{not}
use Prim.Native.Nat.{ℕ}
use mathlib.Core.Path.{◌≡◌}
use mathlib.Core.Option.{Option, none, some}
use mathlib.Core.List.{List, [], ◌∷◌, ◌++◌}
use native.Mathlib.Omega.{arith}

module _ {ℓ} {A : Type ℓ} (key : A → ℕ) where
  abbrev pub lookup : ℕ → List A → Option A
  lookup k = find? (λ a. key a == k)

  abbrev pub put : A → List A → List A
  put row = update_where (λ a. key a == key row) (λ _. row)

  pub lookup-key : (k : ℕ) (xs : List A) {a : A} → lookup k xs ≡ some a → key a ≡ k
  lookup-key k [] h = ground arith
  lookup-key k (x ∷ xs) {a} h = ground (arith, lookup-key k xs {a = a})

  -- A row that is written back is found under its key where one was, and no other key is touched.
  pub lookup-put :
      (k : ℕ) (row : A) (xs : List A)
      → lookup k (put row xs)
        ≡ (if key row == k then (if is_some (lookup k xs) then some row else none) else lookup k xs)
  lookup-put k row [] = ground arith
  lookup-put k row (x ∷ xs) = ground (arith, lookup-put k row xs)

  pub lookup-snoc :
      (k : ℕ) (row : A) (xs : List A)
      → lookup k (xs ++ row ∷ [])
        ≡ (if is_some (lookup k xs) then lookup k xs else if key row == k then some row else none)
  lookup-snoc k row [] = ground arith
  lookup-snoc k row (x ∷ xs) = ground (arith, lookup-snoc k row xs)

  pub lookup-filter :
      (k : ℕ) (row : A) (xs : List A)
      → lookup k (filter (λ a. not (key a == key row)) xs)
        ≡ (if key row == k then none else lookup k xs)
  lookup-filter k row [] = ground arith
  lookup-filter k row (x ∷ xs) = ground (arith, lookup-filter k row xs)
