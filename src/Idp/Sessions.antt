-- ===== src/Idp/Sessions.antt =====
-- idp/sessions.py: the session rows of the identity provider. The object that the code holds is the row
-- itself: what it changes is returned beside the database that the flush leaves.
pub mod Liveness
pub mod Rows
pub mod Traces
use hyproxy.Base.{
  ℕ, ◌+◌, Bool, true, false, not, ◌&&◌, ◌||◌, Option, none, some, List, [], ◌∷◌, ◌++◌, Text,
  contains, before, after, Uuid, Time, Ip, Hash, seconds, ltb, leb, ◌==◌, is_some, if◌then◌else◌,
}
use hyproxy.Settings.{Env}
use hyproxy.Store.{
  Db, Session, User, AuthTier, Amr, RevokeReason, idle_timeout, AuthEvent, AuthEventType,
  session_created, session_revoked, session_stale_ip, session_idle_timeout, emit, get_session,
  save_session,
}

abbrev session_event : AuthEventType → Bool → Session → Ip → AuthEvent
session_event type success row addr = record {
  event_type = type;
  user_id = some row.user_id;
  session_id = some row.id;
  client_id = none;
  source_ip = addr;
  success = success;
}

-- The value "{id}.{secret}" of a cookie.
abbrev pub cookie_value : Env → Uuid → Text → Text
cookie_value e id secret = e.uuid_str id ++ b'.' ∷ secret

-- The guards that the cookie resolvers share: a value, with a dot in it, and a UUID in front of that.
unfoldable pub split_cookie : Env → Option Text → Option (Uuid × Text)
split_cookie e none = none
split_cookie e (some cookie) =
    if not (contains b'.' cookie) then none else elim (e.parse_uuid (before b'.' cookie)) [
      | none ↦ none
      | some id ↦ some (id, after b'.' cookie)
    ]

module _ (e : Env) where
  -- The id is the database's, and the secret is what `new_token` drew.
  unfoldable pub create_session :
      User → Ip → List Amr → Time → Uuid → Text → Db → Session × Text × Db
  create_session user addr amr now id secret db =
      let row : Session = record {
        id = id;
        user_id = user.id;
        cookie_secret_hash = e.sha256_hex secret;
        source_ip = addr;
        auth_tier = user.auth_tier;
        amr = amr;
        mfa_verified = true;
        issued_at = now;
        last_seen_at = now;
        absolute_expires_at = now + seconds e.refresh_abs_ttl;
        step_up_verified_at = none;
        stepup_challenge = none;
        stale = false;
        revoked_at = none;
        revoke_reason = none;
      } in
      (
        row,
        cookie_value e id secret,
        emit (session_event session_created true row addr)
            (record db { sessions = db.sessions ++ row ∷ [] }),
      )

  unfoldable pub reissue_cookie : Session → Text → Db → Session × Text × Db
  reissue_cookie row secret db =
      let row' = record row { cookie_secret_hash = e.sha256_hex secret } in
      (row', cookie_value e row.id secret, save_session row' db)

  abbrev revocation : RevokeReason → AuthEventType
  revocation reason = elim reason [ idle_timeout ↦ session_idle_timeout | _ ↦ session_revoked ]

  unfoldable pub revoke : Session → RevokeReason → Ip → Db → Session × Db
  revoke row reason addr db = elim row.revoked_at [
    | some _ ↦ (row, db)
    | none ↦
        let row' = record row { revoked_at = some e.utcnow; revoke_reason = some reason } in
        (row', emit (session_event (revocation reason) true row addr) (save_session row' db))
  ]

  unfoldable pub touch : Session → Time → Db → Session × Db
  touch row now db =
      if leb (row.last_seen_at + seconds e.session_touch_interval) now
      then (let row' = record row { last_seen_at = now } in (row', save_session row' db))
      else (row, db)

  mark_stale : Session → Ip → Db → Session × Db
  mark_stale row addr db =
      let row' = record row { stale = true } in
      (row', emit (session_event session_stale_ip false row addr) (save_session row' db))

  unfoldable pub check_liveness : Session → Ip → Time → Bool → Db → Bool × Session × Db
  unfolding mark_stale revoke touch
  check_liveness row addr now enforce_ip db =
      if is_some row.revoked_at || row.stale
      then (false, row, db)
      else if leb row.absolute_expires_at now
      then (false, row, db)
      else if ltb (row.last_seen_at + seconds e.idle_ttl) now
      then (let (row', db') = revoke row idle_timeout addr db in (false, row', db'))
      else if enforce_ip && not (row.source_ip == addr)
      then (let (row', db') = mark_stale row addr db in (false, row', db'))
      else (let (row', db') = touch row now db in (true, row', db'))

  unfoldable pub live_session : Session → Ip → Time → Db → Option Session × Db
  live_session row addr now db =
      let (live, row', db') = check_liveness row addr now false db in
      (if live then some row' else none, db')

  unfoldable pub holder : Uuid × Text → Ip → Time → Db → Option Session × Db
  holder (id, secret) addr now db = elim (get_session id db) [
    | none ↦ (none, db)
    | some row ↦
        if e.sha256_hex secret == row.cookie_secret_hash
        then live_session row addr now db
        else (none, db)
  ]

  unfoldable pub get_session_from_cookie : Option Text → Ip → Time → Db → Option Session × Db
  get_session_from_cookie cookie addr now db = elim (split_cookie e cookie) [
    | none ↦ (none, db)
    | some parts ↦ holder parts addr now db
  ]
