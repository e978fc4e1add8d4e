-- ===== src/Tests/Matching.antt =====
-- The theorems on rules, windows and patterns, at concrete ones.
use hyproxy.Base.{
  ◌++◌, ◌==◌, text_eq, starts_with, split_on, none, some, true, false, [], ◌∷◌, codes, ◌≢◌, ◌≡◌,
  refl, arith, ◌↔◌, Memᴰ, Permᴰ, Text, List, ok, strip, contains, drop_while_end,
}
use hyproxy.Json.{str, Fields, end, field, get}
use hyproxy.Policy.Engine.{PolicyRule, allow, deny, evaluate, parse_hhmm}
use hyproxy.Policy.Engine.Verdicts.{applies, evaluate-allowed_iff}
use hyproxy.Policy.Engine.Windows.{start_of, end_of}
use hyproxy.Policy.Glob.{matches_one, not_newline, validate_patterns, validate_pattern}
use hyproxy.Policy.Glob.Matching.{Within}
use hyproxy.Policy.Glob.Shapes.{matches-subtree}
use hyproxy.Policy.Glob.Loophole.{slash_stars, slash_stars_exposes_host}

abbrev grant : PolicyRule
grant = record {
  role_id = 3;
  resource_id = 2;
  action = allow;
  allowed_ports = some (443 ∷ []);
  allowed_paths = none;
  conditions = end;
  enabled = true;
}

abbrev refusal : PolicyRule
refusal = record grant { action = deny; allowed_paths = some (codes "/admin" ∷ []) }

evaluate-allowed_iff_example :
    ((evaluate (grant ∷ refusal ∷ []) (3 ∷ []) 2 443 (codes "/x") 1000).allowed ≡ true) ↔ (
      ((r : PolicyRule) × Memᴰ r (grant ∷ refusal ∷ [])
        × (applies (3 ∷ []) 2 443 (codes "/x") 1000 r ≡ true)
        × (r.action ≡ allow))
      × ((r : PolicyRule)
          → Memᴰ r (grant ∷ refusal ∷ [])
          → applies (3 ∷ []) 2 443 (codes "/x") 1000 r ≡ true
          → r.action ≢ deny))
evaluate-allowed_iff_example =
    evaluate-allowed_iff (3 ∷ []) 2 443 (codes "/x") 1000 (grant ∷ refusal ∷ [])

swapped : Permᴰ (grant ∷ refusal ∷ []) (refusal ∷ grant ∷ [])
swapped = Permᴰ.swap refl refl

abbrev night : Fields
night = field (codes "start") (str (codes "22:30")) (field (codes "end") (str (codes "06:00")) end)

night-start : start_of night ≡ some 1350
unfolding parse_hhmm get text_eq
night-start = refl

night-end : end_of night ≡ some 360
unfolding parse_hhmm get text_eq
night-end = refl

abbrev broken : Fields
broken = field (codes "start") (str (codes "25:00")) end

broken-start : start_of broken ≡ none
unfolding parse_hhmm get text_eq
broken-start = refl

docs-bare : drop_while_end (λ c. c == b'/') (codes "/docs") ≡ codes "/docs"
unfolding drop_while_end
docs-bare = refl

docs-not_root : codes "/docs" ≢ b'/' ∷ []
docs-not_root h = ground arith

plain : contains b'*' (codes "/a") ≡ false
unfolding contains
plain = refl

matches-subtree_example :
    (matches_one (codes "/a/b/c") (codes "/a/**") ≡ true)
    ↔ ((u : Text) × (codes "/a/b/c" ≡ codes "/a/" ++ u) × Within not_newline u)
matches-subtree_example = matches-subtree (codes "/a") (codes "/a/b/c") plain

abbrev listed : List Text
listed = codes "/a/**" ∷ codes "/b" ∷ []

listed-ok : validate_patterns (codes " /a/**" ∷ codes "/b" ∷ codes "/b" ∷ []) ≡ ok listed
unfolding validate_patterns text_eq strip contains starts_with split_on
listed-ok = refl

slash_stars_exposes_host_example :
    (validate_pattern (slash_stars 0) ≡ ok (slash_stars 0))
    × ((u : Text) → Within not_newline u → matches_one (b'/' ∷ u) (slash_stars 0) ≡ true)
slash_stars_exposes_host_example = slash_stars_exposes_host 0 (omega arith)
