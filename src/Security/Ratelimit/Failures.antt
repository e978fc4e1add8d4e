-- ===== src/Security/Ratelimit/Failures.antt =====
-- What `register_failure` and `reset_account` leave in the table.
use hyproxy.Base.{
  ap, ltb, ◌∙◌, find?-holds, find?-snoc, ◌+◌, ◌≤◌, ◌<◌, ◌≡◌, refl, Bool, true, false, ◌&&◌, Option,
  none, some, List, [], ◌∷◌, Time, Ip, Name, seconds, arith, update_where, ◌==◌, if◌then◌else◌,
}
use hyproxy.Settings.{Env}
use hyproxy.Store.{Scope, ip, account, AuthThrottle}
use hyproxy.Security.Ratelimit.{
  scope_eq, is_row, find_row, check, ensure_row, delay_seconds, count_failure, register_one,
  register_failure,
}
use hyproxy.Security.Ratelimit.Checks.{check-allowed_iff}
use hyproxy.Security.Ratelimit.Delays.{free_failures, max_delay, delay_seconds-pos_iff}

-- The row that a failure is counted on: the one of the table, or a new one.
abbrev pub row_or_new : Scope → Name → Time → Option AuthThrottle → AuthThrottle
row_or_new scope key now none = record {
  scope = scope;
  key = key;
  failure_count = 0;
  window_started_at = now;
  next_allowed_at = now;
}
row_or_new scope key now (some row) = row

find_row-ensure_row :
    (s : Scope) (k : Name) (now : Time) (rows : List AuthThrottle)
    → find_row s k (ensure_row s k now rows) ≡ some (row_or_new s k now (find_row s k rows))
unfolding ensure_row
find_row-ensure_row ip k now rows =
    ground (arith, find?-snoc (is_row ip k) (row_or_new ip k now none) rows)
find_row-ensure_row account k now rows =
    ground (arith, find?-snoc (is_row account k) (row_or_new account k now none) rows)

find_row-ensure_row_other :
    (s s' : Scope) (k k' : Name) (now : Time) (rows : List AuthThrottle)
    → (scope_eq s s' && k == k') ≡ false
    → find_row s' k' (ensure_row s k now rows) ≡ find_row s' k' rows
unfolding ensure_row
find_row-ensure_row_other s s' k k' now rows h =
    ground (arith, find?-snoc (is_row s' k') (row_or_new s k now none) rows)

scope_of_row :
    (s : Scope) (k : Name) (rows : List AuthThrottle) {row : AuthThrottle}
    → find_row s k rows ≡ some row
    → row.scope ≡ s
scope_of_row s k rows {row} h = ground (arith, find?-holds (is_row s k) rows h)

refuted : {b : Bool} → (b ≡ true → ⊥) → b ≡ false
refuted {b} h = ground arith

module _ (e : Env) (now : Time) where
  count_failure-key :
      (row : AuthThrottle)
      → ((count_failure e now row).scope ≡ row.scope) × ((count_failure e now row).key ≡ row.key)
  unfolding count_failure
  count_failure-key row = ground arith

  find_row-update_self :
      (s : Scope) (k : Name) (rows : List AuthThrottle) {row : AuthThrottle}
      → find_row s k rows ≡ some row
      → find_row s k (update_where (is_row s k) (count_failure e now) rows)
        ≡ some (count_failure e now row)
  find_row-update_self s k [] h = ground arith
  find_row-update_self s k (x ∷ rows) {row} h =
      ground (arith, count_failure-key x, find_row-update_self s k rows {row = row})

  find_row-update_other :
      (s s' : Scope) (k k' : Name) (rows : List AuthThrottle)
      → (scope_eq s s' && k == k') ≡ false
      → find_row s' k' (update_where (is_row s k) (count_failure e now) rows) ≡ find_row s' k' rows
  find_row-update_other s s' k k' [] h = refl
  find_row-update_other s s' k k' (x ∷ rows) h =
      ground (arith, count_failure-key x, find_row-update_other s s' k k' rows h)

  -- A failure is counted on the row of its key, which is made if there is none.
  find_row-register_one :
      (s : Scope) (k : Name) (rows : List AuthThrottle)
      → find_row s k (register_one e s k now rows)
        ≡ some (count_failure e now (row_or_new s k now (find_row s k rows)))
  unfolding register_one
  find_row-register_one s k rows =
      find_row-update_self s k (ensure_row s k now rows) (find_row-ensure_row s k now rows)

  find_row-register_one_other :
      (s s' : Scope) (k k' : Name) (rows : List AuthThrottle)
      → (scope_eq s s' && k == k') ≡ false
      → find_row s' k' (register_one e s k now rows) ≡ find_row s' k' rows
  unfolding register_one
  find_row-register_one_other s s' k k' rows h =
      find_row-update_other s s' k k' (ensure_row s k now rows) h
      ∙ find_row-ensure_row_other s s' k k' now rows h

  -- A failed attempt counts once on the row of its address and once on the row of its account, made where
  -- there was none, and touches no other row.
  pub register_failure-rows :
      (addr : Ip) (key : Name) (rows : List AuthThrottle)
      → let after = register_failure e addr (some key) now rows in
        (find_row ip addr after
          ≡ some (count_failure e now (row_or_new ip addr now (find_row ip addr rows))))
        × (find_row account key after
            ≡ some (count_failure e now (row_or_new account key now (find_row account key rows))))
        × ((s : Scope) (k : Name)
            → (scope_eq ip s && addr == k) ≡ false
            → (scope_eq account s && key == k) ≡ false
            → find_row s k after ≡ find_row s k rows)
  unfolding register_failure
  register_failure-rows addr key rows =
      let mid = register_one e ip addr now rows in
      (
        find_row-register_one_other account ip key addr mid refl
            ∙ find_row-register_one ip addr rows,
        find_row-register_one account key mid
            ∙ ap (λ o. some (count_failure e now (row_or_new account key now o)))
                (find_row-register_one_other ip account addr key rows refl),
        λ s k hi ha.
            find_row-register_one_other account s key k mid ha
            ∙ find_row-register_one_other ip s addr k rows hi,
      )

  -- What one failure makes of a row: it counts from one again if the window had run out, and the delay is
  -- that of the new count.
  pub count_failure_lem :
      (row : AuthThrottle)
      → let row' = count_failure e now row in
        (row'.failure_count ≡ (
          if ltb (row.window_started_at + seconds e.throttle_window) now
          then 1
          else row.failure_count + 1))
        × (row'.next_allowed_at ≡ now + seconds (delay_seconds e row.scope row'.failure_count))
  unfolding count_failure
  count_failure_lem row = (ground arith, ground arith)

  -- Beyond the free failures of its account inside the window, a failed attempt is followed by a delay:
  -- the next one at the same time is refused.
  pub register_failure-blocks :
      (addr : Ip) (key : Name) (row : AuthThrottle) (rows : List AuthThrottle)
      → find_row account key rows ≡ some row
      → now ≤ row.window_started_at + seconds e.throttle_window
      → free_failures e account ≤ row.failure_count
      → 0 < max_delay e account
      → (check (register_failure e addr (some key) now rows) addr (some key) now).allowed ≡ false
  register_failure-blocks addr key row rows held inside many cap =
      let after = register_failure e addr (some key) now rows in
      let row' = count_failure e now row in
      let found : find_row account key after ≡ some row' =
        cc ((register_failure-rows addr key rows).1, held) in
      let acct : row.scope ≡ account = scope_of_row account key rows held in
      let (count, next) = count_failure_lem row in
      let delayed = (delay_seconds-pos_iff e account row'.failure_count cap).1 (ground arith) in
      let pos : now < row'.next_allowed_at = ground arith in
      refuted (λ ok. ground (arith, ((check-allowed_iff after addr now (some key)).0 ok).1))
