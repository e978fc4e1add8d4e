-- ===== src/Policy/Glob/Shapes.antt =====
-- The pattern shapes that the documentation of the module lists.
use hyproxy.Base.{
  inr, inl, ◌==◌, Bool-cases, List, starts_with-append, codes, append_assoc, before, starts_with, ℕ,
  ◌≡◌, refl, sym, ap, ◌∙◌, ◌↔◌, true, false, [], ◌∷◌, ◌++◌, map, append-nil, Text, arith, contains,
}
use hyproxy.Policy.Glob.{Piece, Class, many, not_slash, not_newline, lit, translate, matches_one}
use hyproxy.Policy.Glob.Matching.{
  Matches, done, accepts_iff, Within, Matches-many, many-Matches, Matches-lits, lits-Matches,
}

-- Up to its first star a pattern is translated character by character.
translate-append :
    (s t : Text) → contains b'*' s ≡ false → translate (s ++ t) ≡ map lit s ++ translate t
unfolding translate contains
translate-append [] t h = refl
translate-append (c ∷ []) [] h = ground arith
translate-append (c ∷ []) (d ∷ t) h = ground arith
translate-append (c ∷ d ∷ s) t h = ground (arith, translate-append (d ∷ s) t)

-- The pieces of a pattern are those of its text before the first star, and some more.
cut_at_star :
    (pattern : Text)
    → (rest : List Piece) × (translate pattern ≡ map lit (before b'*' pattern) ++ rest)
unfolding translate before
cut_at_star [] = ([], refl)
cut_at_star (c ∷ []) = elim (Bool-cases (c == b'*')) [
  | inl e ↦ (many not_slash ∷ [], rw e)
  | inr e ↦ ([], rw e)
]
cut_at_star (c ∷ d ∷ t) = elim (Bool-cases (c == b'*')) [
  | inl e ↦ (translate (c ∷ d ∷ t), rw e)
  | inr e ↦ let (rest, q) = cut_at_star (d ∷ t) in (rest, rw e (ap (λ r. lit c ∷ r) q))
]

Matches-nil : {t : Text} → Matches [] t → t ≡ []
Matches-nil done = refl

-- A pattern without a star exposes its own text and nothing else.
pub matches-exact :
    (pattern path : Text)
    → contains b'*' pattern ≡ false
    → (matches_one path pattern ≡ true) ↔ (path ≡ pattern)
unfolding matches_one
matches-exact pattern path h =
    let plain : translate pattern ≡ map lit pattern ++ [] =
      ap translate (sym (append-nil pattern)) ∙ translate-append pattern [] h in
    (
      λ e.
          let (v, q, r) = Matches-lits pattern ((accepts_iff _ path).0 (rw plain at e)) in
          q ∙ ap (λ s. pattern ++ s) (Matches-nil r) ∙ append-nil pattern,
      λ e.
          rw (plain, e)
            ((accepts_iff _ _).1 (rw (append-nil pattern) at (lits-Matches pattern done))),
    )

contains-append :
    (c : ℕ) (s t : Text) → contains c s ≡ false → contains c t ≡ false → contains c (s ++ t) ≡ false
unfolding contains
contains-append c [] t hs ht = ht
contains-append c (d ∷ s) t hs ht = ground (arith, contains-append c s t)

-- The pieces of `p`, a slash and the stars of `tail`.
shape_of :
    (p : Text) (k : Class) (tail : Text)
    → contains b'*' p ≡ false
    → translate tail ≡ many k ∷ []
    → translate (p ++ b'/' ∷ tail) ≡ map lit (p ++ b'/' ∷ []) ++ many k ∷ []
unfolding contains
shape_of p k tail h e =
    ap translate (sym (append_assoc p (b'/' ∷ []) tail))
    ∙ translate-append (p ++ b'/' ∷ []) tail (contains-append b'*' p (b'/' ∷ []) h refl)
    ∙ ap (λ q. map lit (p ++ b'/' ∷ []) ++ q) e

module _ (k : Class) where
  -- A text without a star, and then one piece that runs to the end.
  Matches-lits-many :
      (s path : Text)
      → Matches (map lit s ++ many k ∷ []) path ↔ ((u : Text) × (path ≡ s ++ u) × Within k u)
  Matches-lits-many s path = (
    λ m.
        let (v, q, r) = Matches-lits s m in
        let (u, w, e, within, rest) = Matches-many r in
        (u, q ∙ ap (λ t. s ++ t) (e ∙ ap (λ t. u ++ t) (Matches-nil rest) ∙ append-nil u), within),
    λ (u, e, within). rw (e, ← append-nil u) (lits-Matches s (many-Matches u within done)),
  )

module _ (k : Class) (tail p path : Text) (plain : contains b'*' p ≡ false) where
  -- A pattern `p/` with one star piece exposes `p/` and what the class of the piece runs over.
  matches_below :
      translate tail ≡ many k ∷ []
      → (matches_one path (p ++ b'/' ∷ tail) ≡ true)
        ↔ ((u : Text) × (path ≡ (p ++ b'/' ∷ []) ++ u) × Within k u)
  unfolding matches_one
  matches_below e =
      let shape = shape_of p k tail plain e in
      let (split, join) = Matches-lits-many k (p ++ b'/' ∷ []) path in
      let (read, write) = accepts_iff (map lit (p ++ b'/' ∷ []) ++ many k ∷ []) path in
      (λ h. split (read (rw shape at h)), λ w. rw shape (write (join w)))

-- `p/*` exposes `p/` and one more segment, which may be empty, and nothing else.
pub matches-segment :
    (p path : Text)
    → contains b'*' p ≡ false
    → (matches_one path (p ++ codes "/*") ≡ true)
      ↔ ((u : Text) × (path ≡ (p ++ b'/' ∷ []) ++ u) × Within not_slash u)
unfolding translate
matches-segment p path h = matches_below not_slash (codes "*") p path h refl

-- Where `p` holds no star, `p/**` exposes the paths that start with `p/` and hold no line feed after it, and
-- nothing else.
pub matches-subtree :
    (p path : Text)
    → contains b'*' p ≡ false
    → (matches_one path (p ++ codes "/**") ≡ true)
      ↔ ((u : Text) × (path ≡ (p ++ b'/' ∷ []) ++ u) × Within not_newline u)
unfolding translate
matches-subtree p path h = matches_below not_newline (codes "**") p path h refl

-- Every path that a pattern exposes starts with the text in front of its first star.
pub matches-before :
    (pattern path : Text)
    → matches_one path pattern ≡ true
    → starts_with (before b'*' pattern) path ≡ true
unfolding matches_one
matches-before pattern path h =
    let (rest, e) = cut_at_star pattern in
    let (v, q, r) = Matches-lits (before b'*' pattern) ((accepts_iff _ path).0 (rw e at h)) in
    rw q (starts_with-append (before b'*' pattern) v)
