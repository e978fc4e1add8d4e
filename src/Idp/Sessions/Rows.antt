-- ===== src/Idp/Sessions/Rows.antt =====
-- What each operation leaves in the table of sessions.
use hyproxy.Base.{
  not, ◌&&◌, ltb, ◌||◌, Bool, seconds, ◌+◌, Option-cases, leb, ℕ, ◌≡◌, refl, true, some, ◌∷◌, ◌++◌,
  [], Text, Uuid, Time, Ip, arith, is_some, ◌==◌, Bool-cases, inl, inr, lookup-put, lookup-snoc,
  lookup-key,
}
use hyproxy.Settings.{Env}
use hyproxy.Store.{Db, Session, RevokeReason, get_session, save_session}
use hyproxy.Idp.Sessions.{idle_timeout, check_liveness, reissue_cookie, revoke, touch, mark_stale}

-- A later state of a session: it belongs to the same user, at the same tier, from the same address and
-- up to the same bound, and what was revoked or stale is so still.
pub record Extends (row row' : Session) : Type 0 where
  pub same_id : row'.id ≡ row.id
  pub same_user : row'.user_id ≡ row.user_id
  pub same_tier : row'.auth_tier ≡ row.auth_tier
  pub same_ip : row'.source_ip ≡ row.source_ip
  pub same_bound : row'.absolute_expires_at ≡ row.absolute_expires_at
  pub still_revoked : is_some row.revoked_at ≡ true → row'.revoked_at ≡ row.revoked_at
  pub still_stale : row.stale ≡ true → row'.stale ≡ true

pub Extends-refl : (row : Session) → Extends row row
Extends-refl row = ground arith

pub Extends-trans : {a b c : Session} → Extends a b → Extends b c → Extends a c
Extends-trans h k = ground arith

-- Every session that a database holds is there in another one, in a later state.
pub record Keeps (db db' : Db) : Type 0 where
  pub at :
      (id : Uuid) (row : Session)
      → get_session id db ≡ some row
      → (row' : Session) × (get_session id db' ≡ some row') × Extends row row'

pub Keeps-refl : (db : Db) → Keeps db db
Keeps-refl db = record { at = λ id row h. (row, h, Extends-refl row) }

pub Keeps-trans : {a b c : Db} → Keeps a b → Keeps b c → Keeps a c
Keeps-trans h k = record {
  at = λ id row e.
      let (row', e', x) = h.at id row e in
      let (row'', e'', y) = k.at id row' e' in (row'', e'', Extends-trans x y);
}

abbrev pub session_id : Session → ℕ
session_id s = s.id

-- Writing back a later state of a row that the table holds.
pub save_session-Keeps :
    (db : Db) (id : Uuid) (row row' : Session)
    → get_session id db ≡ some row
    → Extends row row'
    → Keeps db (save_session row' db)
save_session-Keeps db id row row' held x = record {
  at = λ j old e.
      let mine : row.id ≡ id = lookup-key session_id id db.sessions held in
      elim (Bool-cases (row'.id == j)) [
        | inl same ↦ (row', ground (arith, lookup-put session_id j row' db.sessions), ground arith)
        | inr other ↦
            (old, ground (arith, lookup-put session_id j row' db.sessions), Extends-refl old)
      ];
}

-- Adding a row under an id that is not in use.
pub add_session-Keeps :
    (db : Db) (row : Session) → Keeps db (record db { sessions = db.sessions ++ row ∷ [] })
add_session-Keeps db row = record {
  at = λ j old e. (old, ground (arith, lookup-snoc session_id j row db.sessions), Extends-refl old);
}

module _ (e : Env) (row : Session) (db : Db) (held : get_session row.id db ≡ some row) where
  pub reissue_cookie-Keeps : (secret : Text) → Keeps db (reissue_cookie e row secret db).2
  unfolding reissue_cookie
  reissue_cookie-Keeps secret =
      save_session-Keeps db row.id row (record row { cookie_secret_hash = e.sha256_hex secret })
        held (ground arith)

  pub touch-Keeps : (now : Time) → Keeps db (touch e row now db).1
  unfolding touch
  touch-Keeps now =
      elim (Bool-cases (leb (row.last_seen_at + seconds e.session_touch_interval) now)) [
        | inl due ↦ rw due (
            save_session-Keeps db row.id row (record row { last_seen_at = now }) held
              (ground arith))
        | inr early ↦ rw early (Keeps-refl db)
      ]

  same_sessions-Keeps :
      (db' : Db) (new : Session)
      → Extends row new
      → db'.sessions ≡ (save_session new db).sessions
      → Keeps db db'
  same_sessions-Keeps db' new x same = record {
    at = λ j old h.
        let (old', h', y) = (save_session-Keeps db row.id row new held x).at j old h in
        (old', rw same h', y);
  }

  pub revoke-Keeps : (reason : RevokeReason) (addr : Ip) → Keeps db (revoke e row reason addr db).1
  unfolding revoke
  revoke-Keeps reason addr = elim (Option-cases row.revoked_at) [
    | inl live ↦
        same_sessions-Keeps (revoke e row reason addr db).1
          (record row { revoked_at = some e.utcnow; revoke_reason = some reason }) (ground arith)
          (rw live)
    | inr (at, gone) ↦ rw gone (Keeps-refl db)
  ]

  mark_stale-Keeps : (addr : Ip) → Keeps db (mark_stale e row addr db).1
  unfolding mark_stale
  mark_stale-Keeps addr =
      same_sessions-Keeps (mark_stale e row addr db).1 (record row { stale = true }) (ground arith)
        refl

  -- A check keeps every session, whatever its verdict.
  pub check_liveness-Keeps :
      (addr : Ip) (now : Time) (enforce_ip : Bool)
      → Keeps db (check_liveness e row addr now enforce_ip db).2
  unfolding check_liveness
  check_liveness-Keeps addr now enforce_ip =
      elim (Bool-cases (is_some row.revoked_at || row.stale)) [
        | inl dead ↦ rw (dead, check_liveness) (Keeps-refl db)
        | inr live ↦ elim (Bool-cases (leb row.absolute_expires_at now)) [
          | inl over ↦ rw (live, over, check_liveness) (Keeps-refl db)
          | inr within ↦ elim (Bool-cases (ltb (row.last_seen_at + seconds e.idle_ttl) now)) [
            | inl idle ↦ rw (live, within, idle, check_liveness) (revoke-Keeps idle_timeout addr)
            | inr busy ↦ elim (Bool-cases (enforce_ip && not (row.source_ip == addr))) [
              | inl moved ↦ rw (live, within, busy, moved, check_liveness) (mark_stale-Keeps addr)
              | inr same ↦ rw (live, within, busy, same, check_liveness) (touch-Keeps now)
            ]
          ]
        ]
      ]
