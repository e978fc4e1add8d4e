-- ===== src/Base/Strings.antt =====
-- Text as code points, and the string methods that the program calls.
use Prim.Native.Nat.{ℕ, zero, suc, ◌+◌, ◌*◌}
use Prim.Native.Char.{code}
use Prim.Native.String.{String}
use mathlib.Core.Path.{◌≡◌, refl}
use mathlib.Core.Logic.{◌↔◌}
use mathlib.Core.Bool.{Bool, true, false, ◌&&◌, ◌||◌}
use mathlib.Core.List.{List, [], ◌∷◌, ◌++◌}
use native.Mathlib.Omega.{arith}
use hyproxy.Base.Tests.{leb, ◌==◌, if◌then◌else◌}

abbrev pub Text : Type 0
Text = List ℕ

abbrev pub codes : String → Text
codes String.[] = []
codes (String.◌∷◌ c s) = code c ∷ codes s

unfoldable pub text_eq : Text → Text → Bool
text_eq [] [] = true
text_eq [] (d ∷ t) = false
text_eq (c ∷ s) [] = false
text_eq (c ∷ s) (d ∷ t) = c == d && text_eq s t

-- `text_eq` decides equality.
pub text_eq_iff : (s t : Text) → (text_eq s t ≡ true) ↔ (s ≡ t)
unfolding text_eq
text_eq_iff [] [] = ground arith
text_eq_iff [] (d ∷ t) = ground arith
text_eq_iff (c ∷ s) [] = ground arith
text_eq_iff (c ∷ s) (d ∷ t) = ground (arith, text_eq_iff s t)

-- The number that stands for a text where the tables have a name.
abbrev pub name_of : Text → ℕ
name_of [] = 0
name_of (c ∷ t) = c + 1 + 1114113 * name_of t

-- `text.startswith(prefix)`
unfoldable pub starts_with : Text → Text → Bool
starts_with [] t = true
starts_with (c ∷ p) [] = false
starts_with (c ∷ p) (d ∷ t) = c == d && starts_with p t

-- `c in text`
unfoldable pub contains : ℕ → Text → Bool
contains c [] = false
contains c (d ∷ t) = c == d || contains c t

-- The characters that `str.isspace` accepts, which `strip` and `split` drop.
abbrev pub is_space : ℕ → Bool
is_space c =
    (leb 9 c && leb c 13)
    || (leb 28 c && leb c 32)
    || c == 133
    || c == 160
    || c == 5760
    || (leb 8192 c && leb c 8202)
    || c == 8232
    || c == 8233
    || c == 8239
    || c == 8287
    || c == 12288

-- `text.lstrip(...)` by a test of characters
unfoldable pub drop_while : (ℕ → Bool) → Text → Text
drop_while p [] = []
drop_while p (c ∷ t) = if p c then drop_while p t else c ∷ t

-- `text.rstrip(...)`
unfoldable pub drop_while_end : (ℕ → Bool) → Text → Text
drop_while_end p [] = []
drop_while_end p (c ∷ t) =
    let rest = drop_while_end p t in
    elim rest [ [] ↦ (if p c then [] else c ∷ []) | d ∷ r ↦ c ∷ d ∷ r ]

-- `text[n:]`
abbrev pub skip : ℕ → Text → Text
skip zero t = t
skip (suc n) [] = []
skip (suc n) (c ∷ t) = skip n t

-- `text.strip()`
unfoldable pub strip : Text → Text
unfolding drop_while drop_while_end
strip t = drop_while_end is_space (drop_while is_space t)

-- `text.split(sep)`: the pieces between the separators, at least one.
unfoldable pub split_on : ℕ → Text → List Text
split_on sep [] = [] ∷ []
split_on sep (c ∷ t) =
    let rest = split_on sep t in
    if c == sep
    then [] ∷ rest
    else elim rest [ [] ↦ (c ∷ []) ∷ [] | piece ∷ more ↦ (c ∷ piece) ∷ more ]

-- `text.split(sep, 1)[0]` and the head of `text.partition(sep)`
unfoldable pub before : ℕ → Text → Text
before sep [] = []
before sep (c ∷ t) = if c == sep then [] else c ∷ before sep t

-- the tail of `text.partition(sep)`
unfoldable pub after : ℕ → Text → Text
after sep [] = []
after sep (c ∷ t) = if c == sep then t else after sep t

-- A separator that does not occur in a text cuts it off in front of what follows.
pub before-append : (sep : ℕ) (s t : Text) → contains sep s ≡ false → before sep (s ++ sep ∷ t) ≡ s
unfolding before contains
before-append sep [] t h = ground arith
before-append sep (c ∷ s) t h = ground (arith, before-append sep s t)

pub after-append : (sep : ℕ) (s t : Text) → contains sep s ≡ false → after sep (s ++ sep ∷ t) ≡ t
unfolding after contains
after-append sep [] t h = ground arith
after-append sep (c ∷ s) t h = ground (arith, after-append sep s t)

pub contains-append_sep : (sep : ℕ) (s t : Text) → contains sep (s ++ sep ∷ t) ≡ true
unfolding contains
contains-append_sep sep [] t = ground arith
contains-append_sep sep (c ∷ s) t = ground (arith, contains-append_sep sep s t)

-- A text that holds the separator is its head, the separator and its tail.
pub before-after :
    (sep : ℕ) (t : Text) → contains sep t ≡ true → before sep t ++ sep ∷ after sep t ≡ t
unfolding before after contains
before-after sep [] h = ground arith
before-after sep (c ∷ t) h = ground (arith, before-after sep t)

-- What starts with a prefix is the prefix and a rest.
pub starts_with_rest : (p t : Text) → starts_with p t ≡ true → (r : Text) × (t ≡ p ++ r)
unfolding starts_with
starts_with_rest [] t h = (t, refl)
starts_with_rest (c ∷ p) [] h = ground arith
starts_with_rest (c ∷ p) (d ∷ t) h =
    let (r, e) = starts_with_rest p t (ground arith) in (r, ground arith)

pub starts_with-append : (p r : Text) → starts_with p (p ++ r) ≡ true
unfolding starts_with
starts_with-append [] r = refl
starts_with-append (c ∷ p) r = ground (arith, starts_with-append p r)
