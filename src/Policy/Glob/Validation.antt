-- ===== src/Policy/Glob/Validation.antt =====
-- What validation lets through, and what it misses.
use hyproxy.Base.{
  refl, All-append, inr, Result-cases, inl, Bool-cases, text_eq_iff, [], if◌then◌else◌, suc, ◌≢◌,
  ◌∷◌, All, ◌+◌, ◌++◌, List, ℕ, ◌≤◌, ◌≡◌, true, false, Text, codes, arith, text_eq, contains,
  starts_with, strip, split_on, any, length, ok,
}
use hyproxy.Policy.Glob.{
  max_patterns, validate_from, mem_text, validate_patterns, is_whole_host, check_pattern,
  validate_pattern, max_pattern_length,
}

-- The shape of a pattern that was accepted.
pub record IsPublishable (p : Text) : Type 0 where
  pub short : length p ≤ max_pattern_length
  pub rooted : starts_with (codes "/") p ≡ true
  pub one_slash : starts_with (codes "//") p ≡ false
  pub no_nul : contains 0 p ≡ false
  pub no_backslash : contains 92 p ≡ false
  pub no_parent : any (λ seg. text_eq seg (codes "..")) (split_on b'/' p) ≡ false
  pub partial : is_whole_host p ≡ false

check_pattern-ok : (p q : Text) → check_pattern p ≡ ok q → (q ≡ p) × IsPublishable p
unfolding check_pattern
check_pattern-ok p q h = (ground arith, ground arith)

-- An accepted pattern is the given one without the spaces round it, and has the shape.
pub validate_pattern-ok :
    (raw p : Text) → validate_pattern raw ≡ ok p → (p ≡ strip raw) × IsPublishable p
unfolding validate_pattern
validate_pattern-ok raw p h = let (e, shape) = check_pattern-ok (strip raw) p h in (e, rw e shape)

-- No text of the list stands in what follows it.
abbrev pub IsDistinct : List Text → Type 0
IsDistinct [] = Unit
IsDistinct (p ∷ ps) = (mem_text p ps ≡ false) × IsDistinct ps

mem_text-snoc :
    (x p : Text) (xs : List Text)
    → mem_text x xs ≡ false
    → x ≢ p
    → mem_text x (xs ++ p ∷ []) ≡ false
unfolding mem_text
mem_text-snoc x p [] h ne = ground (arith, text_eq_iff x p)
mem_text-snoc x p (y ∷ xs) h ne = ground (arith, mem_text-snoc x p xs)

IsDistinct-snoc :
    (p : Text) (xs : List Text) → IsDistinct xs → mem_text p xs ≡ false → IsDistinct (xs ++ p ∷ [])
unfolding mem_text
IsDistinct-snoc p [] h m = (refl, tt)
IsDistinct-snoc p (x ∷ xs) (out, h) m = (
  mem_text-snoc x p xs out (λ e. ground (arith, text_eq_iff p x)),
  IsDistinct-snoc p xs h (ground arith),
)

-- What the loop keeps of the list that it collects.
record Collects (n : ℕ) (out : List Text) : Type 0 where
  shapes : All IsPublishable out
  distinct : IsDistinct out
  count : length out ≤ n

length-snoc : (p : Text) (xs : List Text) → length (xs ++ p ∷ []) ≡ length xs + 1
length-snoc p [] = omega arith
length-snoc p (x ∷ xs) = omega (arith, length-snoc p xs)

Collects-snoc :
    {n : ℕ} (out : List Text) (p : Text)
    → Collects n out
    → IsPublishable p
    → Collects (suc n) (if mem_text p out then out else out ++ p ∷ [])
Collects-snoc out p c shape = elim (Bool-cases (mem_text p out)) [
  | inl e ↦
      rw e (record { shapes = c.shapes; distinct = c.distinct; count = omega (arith, c.count) })
  | inr e ↦ rw e (record {
    shapes = All-append IsPublishable out (p ∷ []) c.shapes (shape, tt);
    distinct = IsDistinct-snoc p out c.distinct e;
    count = omega (arith, c.count, length-snoc p out);
  })
]

validate_from-Collects :
    (n : ℕ) (out raws result : List Text)
    → Collects n out
    → validate_from out raws ≡ ok result
    → Collects (n + length raws) result
unfolding validate_from
validate_from-Collects n out [] result c h =
    let same : out ≡ result = ground arith in
    rw (← same)
      (record { shapes = c.shapes; distinct = c.distinct; count = omega (arith, c.count) })
validate_from-Collects n out (raw ∷ raws) result c h = elim (Result-cases (validate_pattern raw)) [
  | inl (p, e) ↦
      let shape = (validate_pattern-ok raw p e).1 in
      let next = (if mem_text p out then out else out ++ p ∷ []) in
      let d =
        validate_from-Collects (suc n) next raws result (Collects-snoc out p c shape) (rw e at h) in
      record { shapes = d.shapes; distinct = d.distinct; count = omega (arith, d.count) }
  | inr (x, e) ↦ ground arith
]

-- An accepted allowlist is not empty, has at most 64 patterns, none twice, and each has the shape.
pub validate_patterns-ok :
    (raws out : List Text)
    → validate_patterns raws ≡ ok out
    → (out ≢ []) × (length out ≤ max_patterns) × IsDistinct out × All IsPublishable out
unfolding validate_patterns
validate_patterns-ok raws out h = elim (Result-cases (validate_from [] raws)) [
  | inl (found, e) ↦
      let c =
        validate_from-Collects 0 [] raws found
          (record { shapes = tt; distinct = tt; count = omega arith }) e in
      let same : found ≡ out = ground arith in
      (ground arith, ground (arith, c.count), rw (← same) c.distinct, rw (← same) c.shapes)
  | inr (x, e) ↦ ground arith
]
