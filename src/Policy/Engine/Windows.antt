-- ===== src/Policy/Engine/Windows.antt =====
-- The time windows of a policy.
use hyproxy.Base.{
  ℕ, ◌+◌, ◌-◌, ◌*◌, ◌/◌, ◌%◌, ◌<◌, ◌≡◌, false, ◌&&◌, Option, none, some, ◌∷◌, ◌++◌, Text, codes,
  arith, leb, [], ◌⊎◌,
}
use hyproxy.Json.{Json, null, str, obj, Fields, get}
use hyproxy.Policy.Engine.{
  parse_hour, parse_minute, time_of, parse_text, parse_hhmm, in_window, day_allowed, or_else,
  bounded, window_matches,
}

-- The distance from `start` forward to `t`, round the clock.
abbrev pub ahead : ℕ → ℕ → ℕ
ahead start t = (t + 1440 - start) % 1440

-- With both kinds of windows, a minute is in the window exactly when it is no farther ahead of the
-- start than the end is, going round midnight.
pub in_window-cyclic :
    (start end current : ℕ)
    → start < 1440
    → end < 1440
    → current < 1440
    → in_window start end current ≡ leb (ahead start current) (ahead start end)
unfolding in_window
in_window-cyclic start end current hs he hc = ground arith

abbrev Below : ℕ → Option ℕ → Type 0
Below k none = Unit
Below k (some m) = m < k

parse_hour-Below : (t : Text) → Below 24 (parse_hour t)
unfolding parse_hour
parse_hour-Below [] = tt
parse_hour-Below (a ∷ []) = ground arith
parse_hour-Below (a ∷ b ∷ []) = ground arith
parse_hour-Below (a ∷ b ∷ c ∷ t) = tt

parse_minute-Below : (t : Text) → Below 60 (parse_minute t)
unfolding parse_minute
parse_minute-Below [] = tt
parse_minute-Below (a ∷ []) = ground arith
parse_minute-Below (a ∷ b ∷ []) = ground arith
parse_minute-Below (a ∷ b ∷ c ∷ t) = tt

time_of-Below : (h m : Option ℕ) → Below 24 h → Below 60 m → Below 1440 (time_of h m)
unfolding time_of
time_of-Below none m hh hm = tt
time_of-Below (some h) none hh hm = tt
time_of-Below (some h) (some m) hh hm = omega arith

parse_text-Below : (t : Text) → Below 1440 (parse_text t)
unfolding parse_text
parse_text-Below [] = tt
parse_text-Below (a ∷ []) = tt
parse_text-Below (a ∷ b ∷ []) = tt
parse_text-Below (a ∷ b ∷ c ∷ t) = ground (
  arith,
  time_of-Below (parse_hour (a ∷ [])) (parse_minute (c ∷ t)) (parse_hour-Below (a ∷ []))
      (parse_minute-Below (c ∷ t)),
  time_of-Below (parse_hour (a ∷ b ∷ [])) (parse_minute t) (parse_hour-Below (a ∷ b ∷ []))
      (parse_minute-Below t),
)

parse_hhmm-Below : (v : Json) → Below 1440 (parse_hhmm v)
unfolding parse_hhmm
parse_hhmm-Below (str t) = parse_text-Below t
parse_hhmm-Below null = tt
parse_hhmm-Below _ = tt

-- A time of day that parses is one of the 1440 minutes.
pub parse_hhmm-lt : (v : Json) {m : ℕ} → parse_hhmm v ≡ some m → m < 1440
parse_hhmm-lt v e = ground (arith, parse_hhmm-Below v)

-- Two decimal digits.
abbrev pub two_digits : ℕ → Text
two_digits n = (b'0' + n / 10) ∷ (b'0' + n % 10) ∷ []

-- Every minute of the day, written HH:MM, parses to itself.
pub parse_hhmm-two_digits :
    (h m : ℕ)
    → h < 24
    → m < 60
    → parse_hhmm (str (two_digits h ++ b':' ∷ two_digits m)) ≡ some (h * 60 + m)
unfolding parse_hhmm parse_text parse_hour parse_minute time_of
parse_hhmm-two_digits h m hh hm = ground arith

abbrev pub start_of : Fields → Option ℕ
start_of w = parse_hhmm (or_else (get (codes "start") w) (str (codes "00:00")))

abbrev pub end_of : Fields → Option ℕ
end_of w = parse_hhmm (or_else (get (codes "end") w) (str (codes "23:59")))

-- A well-formed window matches on its days, while the minute is in the cyclic interval from its start
-- to its end.
pub window_matches-cyclic :
    (w : Fields) (day : Text) (start end current : ℕ)
    → start_of w ≡ some start
    → end_of w ≡ some end
    → current < 1440
    → window_matches day current (obj w)
      ≡ (day_allowed day (get (codes "days") w) && leb (ahead start current) (ahead start end))
unfolding window_matches
window_matches-cyclic w day start end current hs he hc = ground (
  arith,
  in_window-cyclic start end current,
  parse_hhmm-lt (or_else (get (codes "start") w) (str (codes "00:00"))) {m = start},
  parse_hhmm-lt (or_else (get (codes "end") w) (str (codes "23:59"))) {m = end},
)

-- A window whose start or end does not parse matches at no time.
pub window_matches-malformed :
    (w : Fields) (day : Text) (current : ℕ)
    → ((start_of w ≡ none) ⊎ (end_of w ≡ none))
    → window_matches day current (obj w) ≡ false
unfolding window_matches bounded
window_matches-malformed w day current h = ground arith
