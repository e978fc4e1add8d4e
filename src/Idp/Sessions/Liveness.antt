-- ===== src/Idp/Sessions/Liveness.antt =====
-- The verdict of `check_liveness` over one session row, now and later.
use hyproxy.Base.{◌+◌, ◌≤◌, ◌<◌, ◌≡◌, ◌↔◌, Bool, true, false, none, Time, Ip, seconds, arith}
use hyproxy.Settings.{Env}
use hyproxy.Store.{Db, Session}
use hyproxy.Idp.Sessions.{check_liveness}

-- What makes a session good for a request from `addr` at `now`.
pub record IsLive (e : Env) (row : Session) (addr : Ip) (now : Time) (enforce_ip : Bool)
    : Type 0 where
  pub unrevoked : row.revoked_at ≡ none
  pub fresh : row.stale ≡ false
  pub in_bound : now < row.absolute_expires_at
  pub not_idle : now ≤ row.last_seen_at + seconds e.idle_ttl
  pub bound_ip : enforce_ip ≡ true → row.source_ip ≡ addr

module _ (e : Env) (row : Session) (addr : Ip) (now : Time) (enforce_ip : Bool) (db : Db) where
  -- A session passes exactly when it is not revoked, not stale, inside its absolute bound, not idle for
  -- longer than the limit and, where the address is enforced, used from the address it is bound to.
  pub check_liveness_iff :
      ((check_liveness e row addr now enforce_ip db).0 ≡ true) ↔ IsLive e row addr now enforce_ip
  unfolding check_liveness
  check_liveness_iff = (λ h. ground arith, λ h. ground arith)

  -- A session that failed a check fails every later one, from any address, enforced or not.
  pub check_liveness-dead :
      (addr' : Ip) (now' : Time) (enforce' : Bool) (db' : Db)
      → (check_liveness e row addr now enforce_ip db).0 ≡ false
      → now ≤ now'
      → (check_liveness e (check_liveness e row addr now enforce_ip db).1 addr' now' enforce' db').0
        ≡ false
  unfolding check_liveness
  check_liveness-dead addr' now' enforce' db' h later = ground arith

  -- A session that passed a check passes the next one from its address, up to the idle limit less one
  -- write interval, and inside its absolute bound.
  pub check_liveness-again :
      (now' : Time) (db' : Db)
      → (check_liveness e row addr now enforce_ip db).0 ≡ true
      → row.last_seen_at ≤ now
      → now' + seconds e.session_touch_interval ≤ now + seconds e.idle_ttl
      → now' < row.absolute_expires_at
      → (check_liveness e
          (check_liveness e row addr now enforce_ip db).1
          addr
          now'
          enforce_ip
          db').0
        ≡ true
  unfolding check_liveness
  check_liveness-again now' db' h seen soon bound = ground arith
