-- ===== src/Idp/Sessions/Traces.antt =====
-- Sessions over any sequence of operations.
use hyproxy.Base.{
  ap, lookup-key, ◌≡◌, ◌≢◌, Bool, true, false, ◌||◌, some, List, Text, Uuid, Time, Ip, arith,
  is_some, Option-cases, inl, inr,
}
use hyproxy.Settings.{Env}
use hyproxy.Store.{Db, Session, User, Amr, RevokeReason, get_session}
use hyproxy.Idp.Sessions.{
  holder, create_session, reissue_cookie, revoke, check_liveness, live_session,
  get_session_from_cookie, split_cookie,
}
use hyproxy.Idp.Sessions.Liveness.{check_liveness_iff}
use hyproxy.Idp.Sessions.Rows.{
  session_id, Keeps, Keeps-refl, Keeps-trans, add_session-Keeps, reissue_cookie-Keeps, revoke-Keeps,
  check_liveness-Keeps,
}

-- One operation on the sessions, with any arguments; those on a row take one that the table holds.
pub data Step (e : Env) (db db' : Db) : Type 0 where
  create :
      (user : User) (addr : Ip) (amr : List Amr) (now : Time) (id : Uuid) (secret : Text)
      → db' ≡ (create_session e user addr amr now id secret db).2
      → Step e db db'
  reissue :
      (row : Session) (secret : Text)
      → get_session row.id db ≡ some row
      → db' ≡ (reissue_cookie e row secret db).2
      → Step e db db'
  end_session :
      (row : Session) (reason : RevokeReason) (addr : Ip)
      → get_session row.id db ≡ some row
      → db' ≡ (revoke e row reason addr db).1
      → Step e db db'
  check :
      (row : Session) (addr : Ip) (now : Time) (enforce_ip : Bool)
      → get_session row.id db ≡ some row
      → db' ≡ (check_liveness e row addr now enforce_ip db).2
      → Step e db db'

pub data Reach (e : Env) (db : Db) : Db → Type 0 where
  here : Reach e db db
  next : {a b : Db} → Reach e db a → Step e a b → Reach e db b

create-Keeps :
    (e : Env) (user : User) (addr : Ip) (amr : List Amr) (now : Time) (id : Uuid) (secret : Text)
    (db : Db)
    → Keeps db (create_session e user addr amr now id secret db).2
unfolding create_session
create-Keeps e user addr amr now id secret db = record { at = (add_session-Keeps db _).at }

Step-Keeps : (e : Env) {a b : Db} → Step e a b → Keeps a b
Step-Keeps e {a} (create user addr amr now id secret q) =
    rw q (create-Keeps e user addr amr now id secret a)
Step-Keeps e {a} (reissue row secret h q) = rw q (reissue_cookie-Keeps e row a h secret)
Step-Keeps e {a} (end_session row reason addr h q) = rw q (revoke-Keeps e row a h reason addr)
Step-Keeps e {a} (check row addr now enforce h q) =
    rw q (check_liveness-Keeps e row a h addr now enforce)

-- Over any sequence of operations a session stays in the table with its user, its tier, its address and
-- its absolute bound, and once revoked or stale it stays so.
pub Reach-Keeps : (e : Env) {a b : Db} → Reach e a b → Keeps a b
Reach-Keeps e {a} here = Keeps-refl a
Reach-Keeps e (next r s) = Keeps-trans (Reach-Keeps e r) (Step-Keeps e s)

module _ (e : Env) where
  -- What a cookie resolves to is a live session of the table, under the id and the secret of the cookie.
  pub record Resolves (cookie : Text) (addr : Ip) (now : Time) (db : Db) (found : Session)
      : Type 0 where
    pub id : Uuid
    pub secret : Text
    pub row : Session
    pub parsed : split_cookie e (some cookie) ≡ some (id, secret)
    pub held : get_session id db ≡ some row
    pub secret_matches : e.sha256_hex secret ≡ row.cookie_secret_hash
    pub live : (check_liveness e row addr now false db).0 ≡ true
    pub later : found ≡ (check_liveness e row addr now false db).1

  live_session-found :
      (row found : Session) (addr : Ip) (now : Time) (db : Db)
      → (live_session e row addr now db).0 ≡ some found
      → ((check_liveness e row addr now false db).0 ≡ true)
        × (found ≡ (check_liveness e row addr now false db).1)
  unfolding live_session
  live_session-found row found addr now db h = ground arith

  -- A cookie that resolves names a session of the table by its id, carries its secret, and the session
  -- passes the liveness check.
  pub get_session_from_cookie-found :
      (cookie : Text) (addr : Ip) (now : Time) (db : Db) (found : Session)
      → (get_session_from_cookie e (some cookie) addr now db).0 ≡ some found
      → Resolves cookie addr now db found
  unfolding get_session_from_cookie holder
  get_session_from_cookie-found cookie addr now db found h =
      elim (Option-cases (split_cookie e (some cookie))) [
        | inl bad ↦ ground arith
        | inr ((id, secret), parsed) ↦ elim (Option-cases (get_session id db)) [
          | inl missing ↦ ground arith
          | inr (row, held) ↦
              let (live, later) = live_session-found row found addr now db (ground arith) in
              record {
                id = id;
                secret = secret;
                row = row;
                parsed = parsed;
                held = held;
                secret_matches = ground arith;
                live = live;
                later = later;
              }
        ]
      ]

  check_liveness-id :
      (row : Session) (addr : Ip) (now : Time) (db : Db)
      → (check_liveness e row addr now false db).1.id ≡ row.id
  unfolding check_liveness
  check_liveness-id row addr now db = ground arith

  -- Once a session is revoked or stale, no cookie resolves to it after any sequence of operations.
  pub dead_session_unusable :
      {a b : Db} (id : Uuid) (row found : Session) (cookie : Text) (addr : Ip) (now : Time)
      → get_session id a ≡ some row
      → (is_some row.revoked_at || row.stale) ≡ true
      → Reach e a b
      → (get_session_from_cookie e (some cookie) addr now b).0 ≡ some found
      → found.id ≢ id
  dead_session_unusable {b} id row found cookie addr now held dead r h same =
      let (row', held', x) = (Reach-Keeps e r).at id row held in
      let c = get_session_from_cookie-found cookie addr now b found h in
      let key : c.row.id ≡ c.id = lookup-key session_id c.id b.sessions c.held in
      let ids : c.id ≡ id = cc (c.later, check_liveness-id c.row addr now b) in
      let one : row' ≡ c.row = cc (held', c.held, ap (λ k. get_session k b) ids) in
      let live = (check_liveness_iff e c.row addr now false b).0 c.live in ground arith
