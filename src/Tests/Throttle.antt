-- ===== src/Tests/Throttle.antt =====
-- The theorems on delays after failures, at the small deployment.
use hyproxy.Base.{some, false, [], ◌∷◌, ◌≡◌, refl}
use hyproxy.Store.{account, AuthThrottle}
use hyproxy.Security.Ratelimit.{check}

abbrev held : AuthThrottle
held = record {
  scope = account;
  key = 7;
  failure_count = 4;
  window_started_at = 100;
  next_allowed_at = 5000000;
}

held-refused : (check (held ∷ []) 9 (some 7) 1000).allowed ≡ false
unfolding check
held-refused = refl

abbrev third : AuthThrottle
third = record {
  scope = account;
  key = 7;
  failure_count = 3;
  window_started_at = 100;
  next_allowed_at = 100;
}
