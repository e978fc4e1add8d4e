-- ===== src/Idp/Phases/Kept.antt =====
-- The calls of the handlers that leave the table of flows, and the users, as they were.
use hyproxy.Store.{get_session, Db}
use hyproxy.Security.Recovery.{consume}
use hyproxy.Settings.{Env}
use hyproxy.Idp.Login.{
  redirect_if_authenticated, Browser, onward, resume_completed_login, second_factor_throttle,
}
use hyproxy.Store.Accounts.{LoginFlow, Session, User}
use hyproxy.Idp.Phases.{phase_of, SamePhases}
use hyproxy.Idp.Sessions.{
  holder, live_session, reissue_cookie, split_cookie, check_liveness, get_session_from_cookie,
}
use hyproxy.Base.{
  true, Option-cases, false, inl, inr, Bool, Ip, Option, Text, Time, Uuid, ap, arith, refl, ◌≡◌,
}

pub record Kept (db db' : Db) : Type 0 where
  pub same_flows : db'.login_flows ≡ db.login_flows
  pub kept_users : db'.users ≡ db.users

pub Kept-refl : (db : Db) → Kept db db
Kept-refl db = record { same_flows = refl; kept_users = refl }

pub Kept-SamePhases : {db db' : Db} → Kept db db' → SamePhases db db'
Kept-SamePhases {db} {db'} k = record {
  same_phase = λ id. ap (λ fs. phase_of id (record db { login_flows = fs })) k.same_flows;
  same_users = k.kept_users;
}

module _ (e : Env) where
  pub check_liveness-Kept :
      (row : Session) (addr : Ip) (now : Time) (enforce_ip : Bool) (db : Db)
      → Kept db (check_liveness e row addr now enforce_ip db).2
  unfolding check_liveness
  check_liveness-Kept row addr now enforce_ip db = ground arith

  holder-Kept :
      (id : Uuid) (secret : Text) (addr : Ip) (now : Time) (db : Db)
      → Kept db (holder e (id, secret) addr now db).1
  unfolding holder live_session
  holder-Kept id secret addr now db = elim (Option-cases (get_session id db)) [
    | inl unknown ↦ rw (unknown, holder) (Kept-refl db)
    | inr (row, found) ↦
        let live = check_liveness-Kept row addr now false db in
        rw (found, holder) (ground (arith, live))
  ]

  pub get_session_from_cookie-Kept :
      (cookie : Option Text) (addr : Ip) (now : Time) (db : Db)
      → Kept db (get_session_from_cookie e cookie addr now db).1
  unfolding get_session_from_cookie
  get_session_from_cookie-Kept cookie addr now db = elim (Option-cases (split_cookie e cookie)) [
    | inl malformed ↦ rw (malformed, get_session_from_cookie) (Kept-refl db)
    | inr ((id, secret), split) ↦
        rw (split, get_session_from_cookie) (holder-Kept id secret addr now db)
  ]

  pub onward-Kept : (b : Browser) (now : Time) (db : Db) → Kept db (onward e b now db).1
  unfolding onward redirect_if_authenticated
  onward-Kept b now db = get_session_from_cookie-Kept b.session_cookie b.addr now db

  pub resume_completed_login-Kept :
      (row : LoginFlow) (secret : Text) (b : Browser) (now : Time) (db : Db)
      → Kept db (resume_completed_login e row secret b now db).1
  unfolding resume_completed_login reissue_cookie
  resume_completed_login-Kept row secret b now db = elim (Option-cases row.completed_session_id) [
    | inl fresh ↦ rw (fresh, resume_completed_login) (Kept-refl db)
    | inr (id, over) ↦ elim (Option-cases (get_session id db)) [
      | inl gone ↦ rw (over, gone, resume_completed_login) (Kept-refl db)
      | inr (session, found) ↦
          let live = check_liveness-Kept session b.addr now true db in
          rw (over, found, resume_completed_login) (ground (arith, live))
    ]
  ]

  pub second_factor_throttle-Kept :
      (user : User) (b : Browser) (now : Time) (db : Db)
      → Kept db (second_factor_throttle user b now db).1
  unfolding second_factor_throttle
  second_factor_throttle-Kept user b now db = ground arith

  pub consume-Kept :
      (user : Uuid) (code : Text) (now : Time) (db : Db) → Kept db (consume e user code now db).1
  unfolding consume
  consume-Kept user code now db = ground arith
