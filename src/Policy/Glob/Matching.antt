-- ===== src/Policy/Glob/Matching.antt =====
-- What the matcher accepts, as a relation and as a way to cut the path.
use hyproxy.Base.{
  ℕ, ◌≡◌, refl, ap, ◌↔◌, inl, inr, true, List, [], ◌∷◌, ◌++◌, map, Text, arith, Bool-cases, All,
}
use hyproxy.Policy.Glob.{Class, Piece, lit, many, in_class, accepts}

-- A path fits a sequence of pieces: a declarative reading, with no search in it.
pub data Matches : List Piece → Text → Type 0 where
  done : Matches [] []
  one : {x c : ℕ} {p : List Piece} {t : Text} → x ≡ c → Matches p t → Matches (lit x ∷ p) (c ∷ t)
  leave : {k : Class} {p : List Piece} {t : Text} → Matches p t → Matches (many k ∷ p) t
  take :
      {k : Class} {c : ℕ} {p : List Piece} {t : Text}
      → in_class k c ≡ true
      → Matches (many k ∷ p) t
      → Matches (many k ∷ p) (c ∷ t)

accepts→Matches : (p : List Piece) (t : Text) → accepts p t ≡ true → Matches p t
unfolding accepts
accepts→Matches [] [] h = done
accepts→Matches [] (c ∷ t) h = ground arith
accepts→Matches (lit x ∷ p) [] h = ground arith
accepts→Matches (lit x ∷ p) (c ∷ t) h = one (ground arith) (accepts→Matches p t (ground arith))
accepts→Matches (many k ∷ p) [] h = leave (accepts→Matches p [] h)
accepts→Matches (many k ∷ p) (c ∷ t) h = elim (Bool-cases (accepts p (c ∷ t))) [
  | inl e ↦ leave (accepts→Matches p (c ∷ t) e)
  | inr e ↦ take (ground arith) (accepts→Matches (many k ∷ p) t (ground arith))
]

leave-accepts :
    (k : Class) (p : List Piece) (t : Text) → accepts p t ≡ true → accepts (many k ∷ p) t ≡ true
unfolding accepts
leave-accepts k p [] h = h
leave-accepts k p (c ∷ t) h = rw h

Matches→accepts : {p : List Piece} {t : Text} → Matches p t → accepts p t ≡ true
unfolding accepts
Matches→accepts done = refl
Matches→accepts (one e m) = ground (arith, Matches→accepts m)
Matches→accepts (leave {k} {p} {t} m) = leave-accepts k p t (Matches→accepts m)
Matches→accepts (take e m) = ground (arith, Matches→accepts m)

-- The matcher accepts exactly the paths that fit the pieces.
pub accepts_iff : (p : List Piece) (t : Text) → (accepts p t ≡ true) ↔ Matches p t
accepts_iff p t = (accepts→Matches p t, Matches→accepts)

abbrev pub Within : Class → Text → Type 0
Within k = All (λ c. in_class k c ≡ true)

-- A star takes a stretch of its class, and the other pieces take the rest.
pub Matches-many :
    {k : Class} {p : List Piece} {t : Text}
    → Matches (many k ∷ p) t
    → (u v : Text) × (t ≡ u ++ v) × Within k u × Matches p v
Matches-many {t = t} (leave m) = ([], t, refl, tt, m)
Matches-many (take {c = c} e m) =
    let (u, v, q, w, r) = Matches-many m in (c ∷ u, v, ap (λ s. c ∷ s) q, (e, w), r)

pub many-Matches :
    {k : Class} {p : List Piece} {v : Text}
    → (u : Text) → Within k u
    → Matches p v
    → Matches (many k ∷ p) (u ++ v)
many-Matches [] w m = leave m
many-Matches (c ∷ u) (e, w) m = take e (many-Matches u w m)

-- Literals take their own text.
pub Matches-lits :
    {p : List Piece} {t : Text} (s : Text)
    → Matches (map lit s ++ p) t
    → (v : Text) × (t ≡ s ++ v) × Matches p v
Matches-lits {t = t} [] m = (t, refl, m)
Matches-lits (c ∷ s) (one {c = d} e m) = let (v, q, r) = Matches-lits s m in (v, ground arith, r)

pub lits-Matches :
    {p : List Piece} {v : Text} (s : Text) → Matches p v → Matches (map lit s ++ p) (s ++ v)
lits-Matches [] m = m
lits-Matches (c ∷ s) m = one refl (lits-Matches s m)
