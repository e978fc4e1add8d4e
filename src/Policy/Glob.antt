-- ===== src/Policy/Glob.antt =====
-- policy/pathglob.py: the path patterns of public resources. `_translate` gives the sequence of regex
-- pieces, and `accepts` is what `re` does with such a sequence between `\A` and `\Z`.
pub mod Matching
pub mod Shapes
pub mod Validation
pub mod Loophole
use hyproxy.Base.{
  ℕ, Bool, true, false, not, ◌&&◌, ◌||◌, Option, none, some, List, [], ◌∷◌, ◌++◌, Text, codes,
  text_eq, starts_with, contains, strip, split_on, before, any, length, ltb, ◌==◌, if◌then◌else◌,
  Result, ok, err, ◌>>=◌, ◌>>◌, raise_if,
}

-- The characters that `[^/]*` and `.*` run over: `.` excludes a line feed.
pub data Class : Type 0 where
  not_slash not_newline : Class

pub data Piece : Type 0 where
  lit : ℕ → Piece
  many : Class → Piece

pub in_class : Class → ℕ → Bool
in_class not_slash c = not (c == b'/')
in_class not_newline c = not (c == 10)

-- `_translate`, whose index runs over the pattern: two stars are read together.
unfoldable pub translate : Text → List Piece
translate [] = []
translate (c ∷ []) = (if c == b'*' then many not_slash else lit c) ∷ []
translate (c ∷ d ∷ t) =
    let two = translate t in
    let one = translate (d ∷ t) in
    if c == b'*'
    then (if d == b'*' then many not_newline ∷ two else many not_slash ∷ one)
    else lit c ∷ one

-- `rx.match(path)`: whether some way to read the path fits the pieces.
unfoldable pub accepts : List Piece → Text → Bool
unfolding in_class
accepts [] [] = true
accepts [] (c ∷ t) = false
accepts (lit x ∷ p) [] = false
accepts (lit x ∷ p) (c ∷ t) = x == c && accepts p t
accepts (many k ∷ p) [] = accepts p []
accepts (many k ∷ p) (c ∷ t) = accepts p (c ∷ t) || (in_class k c && accepts (many k ∷ p) t)

pub matches_one : Text → Text → Bool
unfolding translate accepts
matches_one path pattern = accepts (translate pattern) path

-- `matches`: no pattern means that nothing is exposed.
unfoldable pub matches : Option (List Text) → Text → Bool
unfolding matches_one
matches none path = false
matches (some patterns) path = any (matches_one path) patterns

pub data PatternError : Type 0 where
  is_empty too_long nul_byte not_rooted double_slash backslash parent_segment : PatternError
  whole_host too_many none_given : PatternError

abbrev pub max_pattern_length : ℕ
max_pattern_length = 512

abbrev pub max_patterns : ℕ
max_patterns = 64

-- The three patterns that `validate_pattern` names as exposing the whole host.
pub is_whole_host : Text → Bool
is_whole_host p = text_eq p (codes "/*") || text_eq p (codes "/**") || text_eq p (codes "/")

check_pattern : Text → Result PatternError Text
unfolding is_whole_host
check_pattern p = do
  raise_if (text_eq p []) is_empty
  raise_if (ltb max_pattern_length (length p)) too_long
  raise_if (contains 0 p) nul_byte
  raise_if (not (starts_with (codes "/") p)) not_rooted
  raise_if (starts_with (codes "//") p) double_slash
  raise_if (contains 92 p) backslash
  raise_if (any (λ seg. text_eq seg (codes "..")) (split_on b'/' p)) parent_segment
  raise_if (is_whole_host p) whole_host
  ok p

unfoldable pub validate_pattern : Text → Result PatternError Text
unfolding check_pattern
validate_pattern pattern = check_pattern (strip pattern)

pub mem_text : Text → List Text → Bool
mem_text t ts = any (text_eq t) ts

-- The loop of `validate_patterns`; `seen` holds what `out` holds.
validate_from : List Text → List Text → Result PatternError (List Text)
unfolding mem_text
validate_from out [] = ok out
validate_from out (raw ∷ raws) =
    validate_pattern raw >>= λ p. validate_from (if mem_text p out then out else out ++ p ∷ []) raws

some_given : List Text → Result PatternError (List Text)
some_given [] = err none_given
some_given (p ∷ ps) = ok (p ∷ ps)

unfoldable pub validate_patterns : List Text → Result PatternError (List Text)
unfolding validate_from validate_pattern some_given
validate_patterns patterns = do
  raise_if (ltb max_patterns (length patterns)) too_many
  out ← validate_from [] patterns
  some_given out

-- `literal_prefix`
unfoldable pub literal_prefix : Text → Text
literal_prefix pattern = elim (before b'*' pattern) [ [] ↦ b'/' ∷ [] | c ∷ t ↦ c ∷ t ]
