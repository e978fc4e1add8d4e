-- ===== src/Security/Pkce.antt =====
-- security/pkce.py: the S256 check. `$` in a Python pattern also matches in front of a last line feed.
use hyproxy.Base.{
  ℕ, Bool, true, false, not, ◌&&◌, ◌||◌, [], ◌∷◌, Text, text_eq, leb, ◌==◌, length, if◌then◌else◌,
}
use hyproxy.Settings.{Env}

abbrev is_alnum : ℕ → Bool
is_alnum c = (leb b'A' c && leb c b'Z') || (leb b'a' c && leb c b'z') || (leb b'0' c && leb c b'9')

abbrev pub is_verifier_char : ℕ → Bool
is_verifier_char c = is_alnum c || c == b'-' || c == b'.' || c == b'_' || c == b'~'

abbrev pub is_challenge_char : ℕ → Bool
is_challenge_char c = is_alnum c || c == b'-' || c == b'_'

unfoldable pub every : (ℕ → Bool) → Text → Bool
every p [] = true
every p (c ∷ t) = p c && every p t

chomp : Text → Text
chomp [] = []
chomp (c ∷ []) = if c == 10 then [] else c ∷ []
chomp (c ∷ d ∷ t) = c ∷ chomp (d ∷ t)

-- `^[…]{43,128}$`
unfoldable pub fits : (ℕ → Bool) → Text → Bool
unfolding every chomp
fits p t = let s = chomp t in every p s && leb 43 (length s) && leb (length s) 128

unfoldable pub valid_challenge : Text → Bool
unfolding fits
valid_challenge challenge = fits is_challenge_char challenge

unfoldable pub verify_s256 : Env → Text → Text → Bool
unfolding fits valid_challenge
verify_s256 e verifier challenge =
    if not (fits is_verifier_char verifier) || not (valid_challenge challenge)
    then false
    else text_eq (e.sha256_b64url verifier) challenge
