-- ===== src/Policy/Engine.antt =====
-- policy/engine.py: the pure decision core. A time is a number of microseconds since the epoch, which
-- was a Thursday; digits of a time of day are the ASCII ones.
pub mod Windows
pub mod Verdicts
pub mod Paths
use hyproxy.Base.{
  Uuid, Time, ℕ, ◌+◌, ◌-◌, ◌*◌, ◌/◌, ◌%◌, Bool, true, false, not, ◌&&◌, ◌||◌, Option, none, some,
  List, [], ◌∷◌, ◌++◌, Text, codes, text_eq, starts_with, drop_while_end, any, filter, leb, ◌==◌,
  if◌then◌else◌,
}
use hyproxy.Json.{Json, null, str, arr, obj, Items, nil, cons, Fields, get, truthy, mem_str}

pub data Action : Type 0 where
  allow deny : Action

pub record PolicyRule : Type 0 where
  pub role_id : Uuid
  pub resource_id : Uuid
  pub action : Action
  pub allowed_ports : Option (List ℕ)
  pub allowed_paths : Option (List Text)
  pub conditions : Fields
  pub enabled : Bool

pub data Reason : Type 0 where
  explicit_deny granted default_deny : Reason

pub record Decision : Type 0 where
  pub allowed : Bool
  pub reason : Reason

-- `DAY_KEYS[weekday]`
abbrev pub day_key : ℕ → Text
day_key d =
    if d == 0
    then codes "mon"
    else if d == 1
    then codes "tue"
    else if d == 2
    then codes "wed"
    else if d == 3
    then codes "thu"
    else if d == 4
    then codes "fri"
    else if d == 5
    then codes "sat"
    else codes "sun"

-- `now.weekday()`, Monday being 0
pub weekday : Time → ℕ
weekday now = (now / 86400000000 + 3) % 7

-- The minute of the day, which is what is left of the time of day without its seconds.
pub minute_of_day : Time → ℕ
minute_of_day now = now / 60000000 % 1440

abbrev is_digit : ℕ → Bool
is_digit c = leb b'0' c && leb c b'9'

-- `%H`: one digit, or two that make at most 23
parse_hour : Text → Option ℕ
parse_hour (a ∷ []) = if is_digit a then some (a - b'0') else none
parse_hour (a ∷ b ∷ []) =
    if is_digit a && is_digit b && leb ((a - b'0') * 10 + (b - b'0')) 23
    then some ((a - b'0') * 10 + (b - b'0'))
    else none
parse_hour _ = none

-- `%M`: one digit, or two that make at most 59
parse_minute : Text → Option ℕ
parse_minute (a ∷ []) = if is_digit a then some (a - b'0') else none
parse_minute (a ∷ b ∷ []) =
    if is_digit a && is_digit b && leb ((a - b'0') * 10 + (b - b'0')) 59
    then some ((a - b'0') * 10 + (b - b'0'))
    else none
parse_minute _ = none

time_of : Option ℕ → Option ℕ → Option ℕ
time_of (some h) (some m) = some (h * 60 + m)
time_of _ _ = none

-- The hour is what stands in front of the first colon, the second or third character.
parse_text : Text → Option ℕ
unfolding parse_hour parse_minute time_of
parse_text (a ∷ b ∷ c ∷ t) =
    if b == b':'
    then time_of (parse_hour (a ∷ [])) (parse_minute (c ∷ t))
    else if c == b':'
    then time_of (parse_hour (a ∷ b ∷ [])) (parse_minute t)
    else none
parse_text _ = none

-- `_parse_hhmm`: the minute of the day; what is not a text is a TypeError, which it catches.
unfoldable pub parse_hhmm : Json → Option ℕ
unfolding parse_text
parse_hhmm (str t) = parse_text t
parse_hhmm _ = none

-- `start <= end`, and the window that crosses midnight
unfoldable pub in_window : ℕ → ℕ → ℕ → Bool
in_window start end current =
    if leb start end
    then leb start current && leb current end
    else leb start current || leb current end

-- `days is not None and (not isinstance(days, list) or day_key not in days)`, negated
unfoldable pub day_allowed : Text → Option Json → Bool
day_allowed day none = true
day_allowed day (some null) = true
day_allowed day (some (arr days)) = mem_str day days
day_allowed day (some _) = false

abbrev pub or_else : Option Json → Json → Json
or_else none v = v
or_else (some w) v = w

bounded : Option ℕ → Option ℕ → ℕ → Bool
bounded (some start) (some end) current = in_window start end current
bounded _ _ current = false

-- One round of the loop over the windows: whether it returns True.
unfoldable pub window_matches : Text → ℕ → Json → Bool
unfolding day_allowed bounded in_window
window_matches day current (obj window) =
    if day_allowed day (get (codes "days") window)
    then bounded (parse_hhmm (or_else (get (codes "start") window) (str (codes "00:00"))))
        (parse_hhmm (or_else (get (codes "end") window) (str (codes "23:59")))) current
    else false
window_matches day current _ = false

some_window : Text → ℕ → Items → Bool
some_window day current nil = false
some_window day current (cons w ws) = window_matches day current w || some_window day current ws

windows_match : Text → ℕ → Json → Bool
unfolding some_window
windows_match day current (arr ws) = some_window day current ws
windows_match day current _ = false

unfoldable pub time_window_matches : Fields → Time → Bool
unfolding windows_match weekday minute_of_day
time_window_matches conditions now = elim (get (codes "time_windows") conditions) [
  | none ↦ true
  | some windows ↦
      if truthy windows
      then windows_match (day_key (weekday now)) (minute_of_day now) windows
      else true
]

-- `path == prefix or path.startswith(prefix.rstrip("/") + "/") or prefix == "/"`
unfoldable pub under_prefix : Text → Text → Bool
under_prefix path prefix =
    text_eq path prefix
    || starts_with (drop_while_end (λ c. c == b'/') prefix ++ b'/' ∷ []) path
    || text_eq prefix (b'/' ∷ [])

unfoldable pub mem_nat : ℕ → List ℕ → Bool
mem_nat n ns = any (λ m. m == n) ns

unfoldable pub port_allowed : Option (List ℕ) → ℕ → Bool
unfolding mem_nat
port_allowed none port = true
port_allowed (some ports) port = mem_nat port ports

unfoldable pub path_allowed : Option (List Text) → Text → Bool
path_allowed none path = true
path_allowed (some prefixes) path = any (under_prefix path) prefixes

unfoldable pub rule_applies : List Uuid → Uuid → ℕ → Text → Time → PolicyRule → Bool
unfolding port_allowed path_allowed mem_nat
rule_applies user_role_ids resource_id port path now rule =
    if not rule.enabled
    then false
    else if not (rule.resource_id == resource_id)
    then false
    else if not (mem_nat rule.role_id user_role_ids)
    then false
    else if not (port_allowed rule.allowed_ports port)
    then false
    else if not (path_allowed rule.allowed_paths path)
    then false
    else time_window_matches rule.conditions now

abbrev pub is_deny : PolicyRule → Bool
is_deny r = elim r.action [ deny ↦ true | allow ↦ false ]

abbrev pub is_allow : PolicyRule → Bool
is_allow r = elim r.action [ deny ↦ false | allow ↦ true ]

verdict : List PolicyRule → Decision
verdict applicable =
    if any is_deny applicable
    then record { allowed = false; reason = explicit_deny }
    else if any is_allow applicable
    then record { allowed = true; reason = granted }
    else record { allowed = false; reason = default_deny }

unfoldable pub evaluate : List PolicyRule → List Uuid → Uuid → ℕ → Text → Time → Decision
unfolding verdict
evaluate rules user_role_ids resource_id port path now =
    verdict (filter (rule_applies user_role_ids resource_id port path now) rules)
