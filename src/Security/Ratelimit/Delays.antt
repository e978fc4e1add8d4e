-- ===== src/Security/Ratelimit/Delays.antt =====
-- The delay as a function of the failures.
use Prim.Native.Nat.{ℕ, zero, suc}
use native.Mathlib.Nat.{pow-suc}
use hyproxy.Base.{inr, ==_iff, inl, ◌==◌, ◌↔◌, Bool-cases, ◌-◌, ◌^◌, ◌≤◌, ◌<◌, arith}
use hyproxy.Settings.{Env}
use hyproxy.Store.{Scope, ip, account}
use hyproxy.Security.Ratelimit.{delay_seconds}

pow_pos : (n : ℕ) → 0 < 2 ^ n
pow_pos zero = omega arith
pow_pos (suc n) = rw pow-suc (omega (arith, pow_pos n))

pow_mono : (a b : ℕ) → a ≤ b → 2 ^ a ≤ 2 ^ b
pow_mono zero zero h = omega arith
pow_mono (suc a) zero h = absurd (omega arith)
pow_mono a (suc b) h = elim (Bool-cases (a == suc b)) [
  | inl e ↦ rw ((==_iff a (suc b)).0 e) (omega arith)
  | inr ne ↦ rw pow-suc (omega (arith, pow_mono a b (ground arith)))
]

abbrev pub free_failures : Env → Scope → ℕ
free_failures e ip = e.throttle_ip_free_failures
free_failures e account = e.throttle_account_free_failures

abbrev pub max_delay : Env → Scope → ℕ
max_delay e ip = e.throttle_ip_max_delay
max_delay e account = e.throttle_account_max_delay

module _ (e : Env) where
  -- No attempt is held back for longer than the cap of its scope.
  pub delay_seconds-le-max_delay : (s : Scope) (n : ℕ) → delay_seconds e s n ≤ max_delay e s
  unfolding delay_seconds
  delay_seconds-le-max_delay ip n = ground arith
  delay_seconds-le-max_delay account n = ground arith

  -- There is a delay exactly beyond the free failures, where the cap is not zero.
  pub delay_seconds-pos_iff :
      (s : Scope) (n : ℕ) → 0 < max_delay e s → (0 < delay_seconds e s n) ↔ (free_failures e s < n)
  unfolding delay_seconds
  delay_seconds-pos_iff ip n h = (
    λ p. ground (arith, pow_pos (n - e.throttle_ip_free_failures)),
    λ p. ground (arith, pow_pos (n - e.throttle_ip_free_failures)),
  )
  delay_seconds-pos_iff account n h = (
    λ p. ground (arith, pow_pos (n - e.throttle_account_free_failures)),
    λ p. ground (arith, pow_pos (n - e.throttle_account_free_failures)),
  )

  -- More failures never make the delay shorter.
  pub delay_seconds_mono : (s : Scope) (m n : ℕ) → m ≤ n → delay_seconds e s m ≤ delay_seconds e s n
  unfolding delay_seconds
  delay_seconds_mono ip m n h =
      ground (arith, pow_mono (m - e.throttle_ip_free_failures) (n - e.throttle_ip_free_failures))
  delay_seconds_mono account m n h = ground (
    arith,
    pow_mono (m - e.throttle_account_free_failures) (n - e.throttle_account_free_failures),
  )
