-- ===== src/Security/Ratelimit.antt =====
-- security/ratelimit.py: delays that grow with the failures of an address and of an account.
pub mod Delays
pub mod Checks
pub mod Failures
use hyproxy.Base.{
  ℕ, ◌+◌, ◌-◌, ◌/◌, ◌^◌, min, Bool, true, false, not, ◌&&◌, Option, none, some, List, [], ◌∷◌, ◌++◌,
  Time, Ip, Name, seconds, ltb, leb, ◌==◌, is_some, if◌then◌else◌, find?, update_where, filter,
}
use hyproxy.Settings.{Env}
use hyproxy.Store.{Db, Scope, ip, account, AuthThrottle}

pub record ThrottleDecision : Type 0 where
  pub allowed : Bool
  pub retry_after : ℕ

abbrev pub scope_eq : Scope → Scope → Bool
scope_eq ip ip = true
scope_eq account account = true
scope_eq _ _ = false

-- `scope == s and key == k`
abbrev pub is_row : Scope → Name → AuthThrottle → Bool
is_row scope key row = scope_eq row.scope scope && row.key == key

abbrev pub find_row : Scope → Name → List AuthThrottle → Option AuthThrottle
find_row scope key = find? (is_row scope key)

-- `min(1 << (failure_count - free), cap)` beyond the free failures
backoff : ℕ → ℕ → ℕ → ℕ
backoff free cap failure_count =
    if leb failure_count free then 0 else min (2 ^ (failure_count - free)) cap

-- The keys of an attempt: its address, and its account if one was named.
abbrev pub keys_of : Ip → Option Name → List (Scope × Name)
keys_of addr none = (ip, addr) ∷ []
keys_of addr (some key) = (ip, addr) ∷ (account, key) ∷ []

-- One round of the loop of `check`.
worse : Time → Option AuthThrottle → ThrottleDecision → ThrottleDecision
worse now none worst = worst
worse now (some row) worst =
    let retry = (row.next_allowed_at - now) / 1000000 + 1 in
    if ltb now row.next_allowed_at && ltb worst.retry_after retry
    then record { allowed = false; retry_after = retry }
    else worst

worst_of : Time → List AuthThrottle → ThrottleDecision → List (Scope × Name) → ThrottleDecision
worst_of now rows worst [] = worst
worst_of now rows worst ((scope, key) ∷ keys) =
    worst_of now rows (worse now (find_row scope key rows) worst) keys

unfoldable pub check : List AuthThrottle → Ip → Option Name → Time → ThrottleDecision
unfolding worst_of worse
check rows addr account_key now =
    worst_of now rows (record { allowed = true; retry_after = 0 }) (keys_of addr account_key)

-- INSERT … ON CONFLICT DO NOTHING
ensure_row : Scope → Name → Time → List AuthThrottle → List AuthThrottle
ensure_row scope key now rows =
    if is_some (find_row scope key rows)
    then rows
    else rows
      ++ record {
        scope = scope;
        key = key;
        failure_count = 0;
        window_started_at = now;
        next_allowed_at = now;
      }
        ∷ []

-- `DELETE … WHERE scope = 'account' AND key = …`
unfoldable pub reset_account : Name → List AuthThrottle → List AuthThrottle
reset_account key rows = filter (λ row. not (is_row account key row)) rows

module _ (e : Env) where
  unfoldable pub delay_seconds : Scope → ℕ → ℕ
  unfolding backoff
  delay_seconds account n = backoff e.throttle_account_free_failures e.throttle_account_max_delay n
  delay_seconds ip n = backoff e.throttle_ip_free_failures e.throttle_ip_max_delay n

  -- The update of the locked row: a new window if the old one has run out, and one more failure.
  unfoldable pub count_failure : Time → AuthThrottle → AuthThrottle
  count_failure now row =
      let base : AuthThrottle =
        if ltb (row.window_started_at + seconds e.throttle_window) now
        then record row { failure_count = 0; window_started_at = now }
        else row in
      record base {
        failure_count = base.failure_count + 1;
        next_allowed_at = now + seconds (delay_seconds base.scope (base.failure_count + 1));
      }

  unfoldable pub register_one : Scope → Name → Time → List AuthThrottle → List AuthThrottle
  unfolding ensure_row
  register_one scope key now rows =
      update_where (is_row scope key) (count_failure now) (ensure_row scope key now rows)

  register_all : Time → List (Scope × Name) → List AuthThrottle → List AuthThrottle
  register_all now [] rows = rows
  register_all now ((scope, key) ∷ keys) rows =
      register_all now keys (register_one scope key now rows)

  unfoldable pub register_failure : Ip → Option Name → Time → List AuthThrottle → List AuthThrottle
  unfolding register_all
  register_failure addr account_key now rows = register_all now (keys_of addr account_key) rows
