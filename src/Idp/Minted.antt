-- ===== src/Idp/Minted.antt =====
-- When the second factors of idp/web hand out the cookie of a session.
use hyproxy.Json.{Fields}
use hyproxy.Idp.Passkeys.{verified}
use mathlib.Core.Path.{subst}
use hyproxy.Security.Ratelimit.{check}
use hyproxy.Idp.Flows.{get_valid_flow, verify_flow_csrf}
use hyproxy.Security.Totp.{decrypt_secret, get_totp_row, verify_code}
use hyproxy.Idp.Sessions.{check_liveness}
use hyproxy.Store.{Db, get_session}
use hyproxy.Store.Accounts.{Stage, LoginFlow, Session, User, UserTotp, totp}
use hyproxy.Idp.SecondFactor.{check_totp, on_submit, replay_login, totp_submit, unless_throttled}
use hyproxy.Settings.{Env}
use hyproxy.Idp.Login.{
  cookie_is, Browser, LoginDraws, Response, flow_user, get_stage_flow, onward,
  redirect_if_authenticated, resume_completed_login, second_factor_throttle,
}
use hyproxy.Base.{
  Option, false, Name, Bool-cases, Option-cases, Text, Time, Uuid, arith, inl, inr, is_some,
  name_of, none, some, strip, true, ◌≡◌, ◌⊎◌,
}

module _ (e : Env) where
  onward-none : (b : Browser) (now : Time) (db : Db) → (onward e b now db).0.session_cookie ≡ none
  unfolding onward redirect_if_authenticated
  onward-none b now db = ground arith

  throttle-open :
      (user : User) (b : Browser) (now : Time) (db : Db)
      → (second_factor_throttle user b now db).0 ≡ none
      → ((check db.auth_throttle b.addr (some (name_of user.email)) now).allowed ≡ true)
        × ((second_factor_throttle user b now db).1 ≡ db)
  unfolding second_factor_throttle
  throttle-open user b now db h = ground arith

  throttle-none :
      (user : User) (b : Browser) (now : Time) (db : Db) {r : Response}
      → (second_factor_throttle user b now db).0 ≡ some r
      → r.session_cookie ≡ none
  unfolding second_factor_throttle
  throttle-none user b now db h = ground arith

  -- The login that the flow was completed with is answered again: its session is live, from this address.
  abbrev pub IsReplayed : LoginFlow → Browser → Time → Db → Type 0
  IsReplayed row b now db =
      (id : Uuid) × (session : Session) × (row.completed_session_id ≡ some id)
      × (get_session id db ≡ some session)
      × ((check_liveness e session b.addr now true db).0 ≡ true)

  resume-IsReplayed :
      (row : LoginFlow) (secret : Text) (b : Browser) (now : Time) (db : Db)
      → is_some (resume_completed_login e row secret b now db).0 ≡ true
      → IsReplayed row b now db
  unfolding resume_completed_login
  resume-IsReplayed row secret b now db h = elim (Option-cases row.completed_session_id) [
    | inl fresh ↦ ground arith
    | inr (id, over) ↦ elim (Option-cases (get_session id db)) [
      | inl gone ↦ ground arith
      | inr (session, stored) ↦ (id, session, over, stored, ground arith)
    ]
  ]

  -- The user of the flow, not slowed down, has shown a code of their confirmed authenticator.
  abbrev pub IsCoded : LoginFlow → Text → Browser → Time → Db → Type 0
  IsCoded row code b now db =
      (user : User) × (factor : UserTotp) × (flow_user row db ≡ some user)
      × ((check db.auth_throttle b.addr (some (name_of user.email)) now).allowed ≡ true)
      × (get_totp_row user.id true db ≡ some factor)
      × (verify_code e (decrypt_secret e factor) (strip code) ≡ true)

  check_totp-IsCoded :
      (draws : LoginDraws) (row : LoginFlow) (user : User) (code : Text) (b : Browser) (now : Time)
      (db : Db)
      → is_some (check_totp e draws row user code b now db).0.session_cookie ≡ true
      → (factor : UserTotp) × (get_totp_row user.id true db ≡ some factor)
        × (verify_code e (decrypt_secret e factor) (strip code) ≡ true)
  unfolding check_totp
  check_totp-IsCoded draws row user code b now db h =
      elim (Option-cases (get_totp_row user.id true db)) [
        | inl unconfirmed ↦ ground arith
        | inr (factor, found) ↦
            elim (Bool-cases (verify_code e (decrypt_secret e factor) (strip code))) [
              | inl right ↦ (factor, found, right)
              | inr wrong ↦ ground arith
            ]
      ]

  unless_throttled-open :
      (user : User) (b : Browser) (now : Time) (db : Db) (act : Db → Response × Db)
      → is_some (unless_throttled e user b now db act).0.session_cookie ≡ true
      → ((check db.auth_throttle b.addr (some (name_of user.email)) now).allowed ≡ true)
        × (is_some (act db).0.session_cookie ≡ true)
  unfolding unless_throttled
  unless_throttled-open user b now db act h =
      elim (Option-cases (second_factor_throttle user b now db).0) [
        | inr (r, slow) ↦ ground (arith, throttle-none user b now db slow)
        | inl free ↦
            let (through, same) = throttle-open user b now db free in
            let passed : is_some (act (second_factor_throttle user b now db).1).0.session_cookie
                ≡ true =
              ground arith in
            (through, subst (λ d. is_some (act d).0.session_cookie ≡ true) same passed)
      ]

  get_stage_flow-cookie :
      (flow : Option Text) (stage : Stage) (b : Browser) (now : Time) (db : Db) (row : LoginFlow)
      → get_stage_flow e flow stage b now db ≡ some row
      → cookie_is b.flow_cookie (e.uuid_str row.id) ≡ true
  unfolding get_stage_flow
  get_stage_flow-cookie flow stage b now db row h =
      elim (Option-cases (get_valid_flow e flow b.addr now false db)) [
        | inl absent ↦ ground arith
        | inr (held, valid) ↦
            let mine : held ≡ row = ground arith in
            subst (λ r. cookie_is b.flow_cookie (e.uuid_str r.id) ≡ true) mine (ground arith)
      ]

  -- A one-time code that is submitted is answered with the cookie of a session only on a flow that waits for
  -- one, from the browser that holds it and with its CSRF token; and then either the flow was completed before
  -- and its session is live, or the user of the flow is active, not slowed down, and the code is right.
  pub totp_submit-IsCoded :
      (draws : LoginDraws) (flow csrf code : Text) (b : Browser) (now : Time) (db : Db)
      → is_some (totp_submit e draws flow csrf code b now db).0.session_cookie ≡ true
      → (row : LoginFlow) × (get_stage_flow e (some flow) totp b now db ≡ some row)
        × (cookie_is b.flow_cookie (e.uuid_str row.id) ≡ true)
        × (verify_flow_csrf e row csrf ≡ true)
        × (IsReplayed row b now db ⊎ IsCoded row code b now db)
  unfolding totp_submit on_submit replay_login
  totp_submit-IsCoded draws flow csrf code b now db h =
      elim (Option-cases (get_stage_flow e (some flow) totp b now db)) [
        | inl closed ↦ ground (arith, onward-none b now db)
        | inr (row, found) ↦ elim (Bool-cases (verify_flow_csrf e row csrf)) [
          | inr forged ↦ ground (arith, onward-none b now db)
          | inl ours ↦ (
            row,
            found,
            get_stage_flow-cookie (some flow) totp b now db row found,
            ours,
            elim (Option-cases row.completed_session_id) [
              | inr (id, over) ↦
                  inl (resume-IsReplayed row draws.session_secret b now db (ground arith))
              | inl fresh ↦ elim (Option-cases (flow_user row db)) [
                | inl absent ↦ ground arith
                | inr (user, known) ↦
                    let passed : is_some
                          (unless_throttled e user b now db
                            (λ db'. check_totp e draws row user code b now db')).0.session_cookie
                        ≡ true =
                      ground arith in
                    let (through, shown) =
                      unless_throttled-open user b now db
                        (λ db'. check_totp e draws row user code b now db') passed in
                    let (factor, confirmed, right) =
                      check_totp-IsCoded draws row user code b now db shown in
                    inr (user, factor, known, through, confirmed, right)
              ]
            ],
          )
        ]
      ]

  -- The user of the flow, not slowed down, has answered the flow's challenge with a passkey of their own.
  abbrev pub IsAsserted : LoginFlow → Fields → Browser → Time → Db → Type 0
  IsAsserted row credential b now db =
      (user : User) × (challenge : Name) × (flow_user row db ≡ some user)
      × ((check db.auth_throttle b.addr (some (name_of user.email)) now).allowed ≡ true)
      × (row.webauthn_challenge ≡ some challenge)
      × (is_some (verified e credential challenge user db) ≡ true)
