-- ===== src/Policy/Glob/Loophole.antt =====
-- Patterns of `validate_pattern` that expose the whole host under another spelling.
use hyproxy.Base.{
  ◌∙◌, ap, append-nil, ℕ, zero, suc, ◌≤◌, ◌≡◌, refl, ◌≢◌, true, false, [], ◌∷◌, Text, arith,
  text_eq, length, contains, starts_with, strip, split_on, drop_while, drop_while_end, is_space, ok,
}
use hyproxy.Policy.Glob.{not_newline, translate, check_pattern, validate_pattern, matches_one}
use hyproxy.Policy.Glob.Matching.{Matches, done, one, leave, accepts_iff, Within, many-Matches}

abbrev pub stars : ℕ → Text
stars zero = []
stars (suc n) = b'*' ∷ stars n

-- `/***`, `/****` and so on.
abbrev pub slash_stars : ℕ → Text
slash_stars n = b'/' ∷ b'*' ∷ b'*' ∷ b'*' ∷ stars n

length-stars : (n : ℕ) → length (stars n) ≡ n
length-stars zero = refl
length-stars (suc n) = omega (arith, length-stars n)

contains-stars : (c n : ℕ) → c ≢ b'*' → contains c (stars n) ≡ false
unfolding contains
contains-stars c zero h = refl
contains-stars c (suc n) h = ground (arith, contains-stars c n h)

split_on-stars : (n : ℕ) → split_on b'/' (stars n) ≡ stars n ∷ []
unfolding split_on
split_on-stars zero = refl
split_on-stars (suc n) = rw (split_on-stars n)

drop_while_end-stars : (n : ℕ) → drop_while_end is_space (stars n) ≡ stars n
unfolding drop_while_end
drop_while_end-stars zero = refl
drop_while_end-stars (suc zero) = refl
drop_while_end-stars (suc (suc n)) = rw (drop_while_end-stars (suc n))

drop_while-slash_stars : (n : ℕ) → drop_while is_space (slash_stars n) ≡ slash_stars n
unfolding drop_while
drop_while-slash_stars n = refl

drop_while_end-cons :
    (c d : ℕ) (t : Text)
    → drop_while_end is_space (d ∷ t) ≡ d ∷ t
    → drop_while_end is_space (c ∷ d ∷ t) ≡ c ∷ d ∷ t
unfolding drop_while_end
drop_while_end-cons c d t h = rw (h, drop_while_end)

drop_while_end-slash_stars : (n : ℕ) → drop_while_end is_space (slash_stars n) ≡ slash_stars n
drop_while_end-slash_stars n =
    drop_while_end-cons b'/' b'*' (stars (suc (suc n))) (drop_while_end-stars (suc (suc (suc n))))

strip-slash_stars : (n : ℕ) → strip (slash_stars n) ≡ slash_stars n
unfolding strip
strip-slash_stars n =
    ap (drop_while_end is_space) (drop_while-slash_stars n) ∙ drop_while_end-slash_stars n

check_pattern-slash_stars : (n : ℕ) → n ≤ 508 → check_pattern (slash_stars n) ≡ ok (slash_stars n)
unfolding check_pattern text_eq contains starts_with split_on
check_pattern-slash_stars n h = ground (
  arith,
  length-stars n,
  contains-stars 0 n (omega arith),
  contains-stars 92 n (omega arith),
  split_on-stars n,
)

Matches-stars : (n : ℕ) → Matches (translate (stars n)) []
unfolding translate
Matches-stars zero = done
Matches-stars (suc zero) = leave done
Matches-stars (suc (suc n)) = leave (Matches-stars n)

-- Each of these is accepted, as it stands, and exposes every path of the host that holds no line feed:
-- what `validate_pattern` refuses as `/**`.
pub slash_stars_exposes_host :
    (n : ℕ)
    → n ≤ 508
    → (validate_pattern (slash_stars n) ≡ ok (slash_stars n))
      × ((u : Text) → Within not_newline u → matches_one (b'/' ∷ u) (slash_stars n) ≡ true)
unfolding validate_pattern matches_one translate
slash_stars_exposes_host n h = (
  rw (strip-slash_stars n) (check_pattern-slash_stars n h),
  λ u within. (accepts_iff _ _).1 (exposed u within),
)
  where
    exposed : (u : Text) → Within not_newline u → Matches (translate (slash_stars n)) (b'/' ∷ u)
    exposed u within =
        one refl
          (rw (append-nil u) at (many-Matches {k = not_newline} u within (Matches-stars (suc n))))
