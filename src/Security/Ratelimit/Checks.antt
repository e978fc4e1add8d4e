-- ===== src/Security/Ratelimit/Checks.antt =====
-- The verdict of `check`.
use hyproxy.Base.{
  ◌+◌, ◌≤◌, ◌<◌, ◌≡◌, ◌↔◌, true, false, Option, none, some, List, Time, Ip, Name, seconds, arith,
}
use hyproxy.Store.{ip, account, AuthThrottle}
use hyproxy.Security.Ratelimit.{find_row, check}

-- No row of the key has a delay that runs beyond `now`.
abbrev pub IsOpen : Time → Option AuthThrottle → Type 0
IsOpen now none = Unit
IsOpen now (some row) = row.next_allowed_at ≤ now

abbrev pub IsAccountOpen : List AuthThrottle → Time → Option Name → Type 0
IsAccountOpen rows now none = Unit
IsAccountOpen rows now (some key) = IsOpen now (find_row account key rows)

module _ (rows : List AuthThrottle) (addr : Ip) (now : Time) where
  -- An attempt is allowed exactly when neither its address nor its account, if named, is inside a delay.
  pub check-allowed_iff :
      (key : Option Name)
      → ((check rows addr key now).allowed ≡ true)
        ↔ (IsOpen now (find_row ip addr rows) × IsAccountOpen rows now key)
  unfolding check
  check-allowed_iff none = (λ h. ground arith, λ h. ground arith)
  check-allowed_iff (some key) = (λ h. ground arith, λ h. ground arith)

  -- A refused attempt is told to wait at least a second, and after that long it is allowed, if the table
  -- is the same.
  pub check-retry_after :
      (key : Option Name)
      → (check rows addr key now).allowed ≡ false
      → (0 < (check rows addr key now).retry_after)
        × ((check rows addr key (now + seconds (check rows addr key now).retry_after)).allowed
            ≡ true)
  unfolding check
  check-retry_after none h = (ground arith, ground arith)
  check-retry_after (some key) h = (ground arith, ground arith)
