-- ===== src/Base/Members.antt =====
-- What a Boolean test of a list says of its members, and that it does not read their order.
use mathlib.Core.Path.{◌≡◌, refl}
use mathlib.Core.Logic.{inl, inr}
use mathlib.Core.Bool.{Bool, true, false, ◌&&◌}
use mathlib.Core.List.{List, [], ◌∷◌, Memᴰ, Permᴰ}
use native.Mathlib.Omega.{arith}
use hyproxy.Base.Tests.{Bool-cases}
use hyproxy.Base.Lists.{All, any, filter, find?}
use mathlib.Core.Option.{some}

module _ {ℓ} {A : Type ℓ} where
  pub any→Memᴰ : (p : A → Bool) (xs : List A) → any p xs ≡ true → (a : A) × Memᴰ a xs × (p a ≡ true)
  any→Memᴰ p [] h = ground arith
  any→Memᴰ p (x ∷ xs) h = elim (Bool-cases (p x)) [
    | inl e ↦ (x, Memᴰ.head refl, e)
    | inr e ↦ let (a, m, e') = any→Memᴰ p xs (ground arith) in (a, Memᴰ.tail m, e')
  ]

  pub Memᴰ→any : (p : A → Bool) {a : A} (xs : List A) → Memᴰ a xs → p a ≡ true → any p xs ≡ true
  Memᴰ→any p [] m h = elim m [ ]
  Memᴰ→any p (x ∷ xs) (Memᴰ.head e) h = ground arith
  Memᴰ→any p (x ∷ xs) (Memᴰ.tail m) h = ground (arith, Memᴰ→any p xs m h)

  pub any-eq-false :
      (p : A → Bool) (xs : List A) → ((a : A) → Memᴰ a xs → p a ≡ false) → any p xs ≡ false
  any-eq-false p [] h = refl
  any-eq-false p (x ∷ xs) h =
      ground (arith, h x (Memᴰ.head refl), any-eq-false p xs (λ a m. h a (Memᴰ.tail m)))

  pub any-false→ : (p : A → Bool) {a : A} (xs : List A) → any p xs ≡ false → Memᴰ a xs → p a ≡ false
  any-false→ p [] h m = elim m [ ]
  any-false→ p (x ∷ xs) h (Memᴰ.head e) = ground arith
  any-false→ p (x ∷ xs) h (Memᴰ.tail m) = any-false→ p xs (ground arith) m

  -- A test of what a filter leaves is one test of the list.
  pub any-filter : (p q : A → Bool) (xs : List A) → any p (filter q xs) ≡ any (λ x. q x && p x) xs
  any-filter p q [] = refl
  any-filter p q (x ∷ xs) = ground (arith, any-filter p q xs)

  pub find?→Memᴰ : (p : A → Bool) (xs : List A) {a : A} → find? p xs ≡ some a → Memᴰ a xs
  find?→Memᴰ p [] h = ground arith
  find?→Memᴰ p (x ∷ xs) h = elim (Bool-cases (p x)) [
    | inl this ↦ Memᴰ.head (ground arith)
    | inr later ↦ Memᴰ.tail (find?→Memᴰ p xs (ground arith))
  ]

  pub any-perm : (p : A → Bool) {xs ys : List A} → Permᴰ xs ys → any p xs ≡ any p ys
  any-perm p Permᴰ.nil = refl
  any-perm p (Permᴰ.cons e h) = ground (arith, any-perm p h)
  any-perm p (Permᴰ.swap e f) = ground arith
  any-perm p (Permᴰ.trans h k) = ground (arith, any-perm p h, any-perm p k)

  pub Memᴰ→All {κ} : (P : A → Type κ) (xs : List A) → ((a : A) → Memᴰ a xs → P a) → All P xs
  Memᴰ→All P [] h = tt
  Memᴰ→All P (x ∷ xs) h = (h x (Memᴰ.head refl), Memᴰ→All P xs (λ a m. h a (Memᴰ.tail m)))
