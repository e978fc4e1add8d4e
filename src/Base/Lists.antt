-- ===== src/Base/Lists.antt =====
-- Lists with Boolean tests, and a table of rows: what the queries of the program do to it.
use Prim.Native.Nat.{ℕ, suc, ◌+◌}
use mathlib.Core.Path.{subst, ◌≡◌, refl}
use mathlib.Core.Logic.{inl, inr}
use mathlib.Core.Bool.{Bool, true, false, ◌||◌}
use mathlib.Core.Option.{Option, none, some}
use mathlib.Core.List.{List, [], ◌∷◌, ◌++◌}
use native.Mathlib.Omega.{arith}
use hyproxy.Base.Tests.{Bool-cases, is_some, if◌then◌else◌}

module _ {ℓ} {A : Type ℓ} where
  abbrev pub length : List A → ℕ
  length [] = 0
  length (x ∷ xs) = suc (length xs)

  -- A predicate of every element, by recursion.
  abbrev pub All {κ} : (A → Type κ) → List A → Type κ
  All P [] = Unit
  All P (x ∷ xs) = P x × All P xs

  abbrev pub any : (A → Bool) → List A → Bool
  any p [] = false
  any p (x ∷ xs) = p x || any p xs

  abbrev pub filter : (A → Bool) → List A → List A
  filter p [] = []
  filter p (x ∷ xs) = let rest = filter p xs in if p x then x ∷ rest else rest

  -- The first row that a SELECT finds.
  abbrev pub find? : (A → Bool) → List A → Option A
  find? p [] = none
  find? p (x ∷ xs) = if p x then some x else find? p xs

  -- UPDATE … WHERE
  abbrev pub update_where : (A → Bool) → (A → A) → List A → List A
  update_where p f [] = []
  update_where p f (x ∷ xs) = (if p x then f x else x) ∷ update_where p f xs

  -- The row count of an UPDATE or a DELETE, and of a SELECT.
  abbrev pub count_where : (A → Bool) → List A → ℕ
  count_where p [] = 0
  count_where p (x ∷ xs) = let rest = count_where p xs in if p x then suc rest else rest

  pub All-append {κ} : (P : A → Type κ) (xs ys : List A) → All P xs → All P ys → All P (xs ++ ys)
  All-append P [] ys hx hy = hy
  All-append P (x ∷ xs) ys hx hy = (hx.0, All-append P xs ys hx.1 hy)

  pub All-update_where {κ} :
      (P : A → Type κ) (p : A → Bool) (f : A → A) (xs : List A)
      → ((x : A) → P x → P (f x))
      → All P xs
      → All P (update_where p f xs)
  All-update_where P p f [] keep h = h
  All-update_where P p f (x ∷ xs) keep h = (go (p x), All-update_where P p f xs keep h.1)
    where
      go : (b : Bool) → P (if b then f x else x)
      go true = keep x h.0
      go false = h.0

  pub All-find? {κ} :
      (P : A → Type κ) (p : A → Bool) (xs : List A) {x : A} → find? p xs ≡ some x → All P xs → P x
  All-find? P p [] h all = ground arith
  All-find? P p (y ∷ ys) {x} h all = elim (Bool-cases (p y)) [
    | inl here ↦ subst P (ground arith) all.0
    | inr later ↦ All-find? P p ys (ground arith) all.1
  ]

  pub count_where-append :
      (p : A → Bool) (xs ys : List A)
      → count_where p (xs ++ ys) ≡ count_where p xs + count_where p ys
  count_where-append p [] ys = omega arith
  count_where-append p (x ∷ xs) ys = ground (arith, count_where-append p xs ys)

  pub any-append : (p : A → Bool) (xs ys : List A) → any p (xs ++ ys) ≡ (any p xs || any p ys)
  any-append p [] ys = refl
  any-append p (x ∷ xs) ys = ground (arith, any-append p xs ys)

  -- What `find?` returns satisfies the test.
  pub find?-holds : (p : A → Bool) (xs : List A) {a : A} → find? p xs ≡ some a → p a ≡ true
  find?-holds p [] h = ground arith
  find?-holds p (x ∷ xs) {a} h = ground (arith, find?-holds p xs {a = a})

  pub find?-snoc :
      (p : A → Bool) (x : A) (xs : List A)
      → find? p (xs ++ x ∷ [])
        ≡ (if is_some (find? p xs) then find? p xs else if p x then some x else none)
  find?-snoc p x [] = ground arith
  find?-snoc p x (y ∷ xs) = ground (arith, find?-snoc p x xs)

  pub All-filter {κ} :
      (P : A → Type κ) (q : A → Bool) (xs : List A)
      → ((x : A) → q x ≡ true → P x)
      → All P (filter q xs)
  All-filter P q [] h = tt
  All-filter P q (x ∷ xs) h = elim (Bool-cases (q x)) [
    | inl hit ↦ rw hit (h x hit, All-filter P q xs h)
    | inr miss ↦ rw miss (All-filter P q xs h)
  ]

  pub All-zip {κ} :
      (P Q R : A → Type κ) (xs : List A)
      → ((x : A) → P x → Q x → R x)
      → All P xs
      → All Q xs
      → All R xs
  All-zip P Q R [] h p q = tt
  All-zip P Q R (x ∷ xs) h p q = (h x p.0 q.0, All-zip P Q R xs h p.1 q.1)
