-- ===== src/Idp/Login.antt =====
-- idp/web/routes.py: the first step of a login, and what the second factors share. A page stands for the
-- template that is rendered and what it shows; `now` is the time of the request.
-- What a handler reads of the request besides the form.
use hyproxy.Store.Accounts.{
  Amr, LoginFlow, Session, Stage, User, active, disabled, otp, password, pwd, rc, totp,
}
use hyproxy.Settings.{Env}
use hyproxy.Idp.Flows.{
  create_flow, delete_flow, get_valid_flow, required_second_factor, rotate_csrf, save_flow,
  verify_flow_csrf,
}
use hyproxy.Store.Access.{AuthThrottle}
use hyproxy.Idp.Sessions.{check_liveness, create_session, get_session_from_cookie, reissue_cookie}
use hyproxy.Store.{
  AuthEvent, AuthEventType, Db, emit, get_session, get_user, login_password_failure,
  login_password_success, throttle_applied,
}
use hyproxy.Security.Ratelimit.{check, register_failure, reset_account}
use hyproxy.Base.{
  codes, Bool, Ip, List, Name, Option, Text, Time, Uuid, [], false, find?, if◌then◌else◌, is_some,
  name_of, none, not, some, strip, text_eq, true, ℕ, ◌&&◌, ◌++◌, ◌||◌, ◌∷◌,
}

pub record Browser : Type 0 where
  pub addr : Ip
  pub flow_cookie : Option Text
  pub session_cookie : Option Text

pub data Message : Type 0 where
  start_over invalid_request wait_and_retry incorrect_login incorrect_code invalid_code : Message
  use_passkey use_totp no_enrollment too_many_attempts invalid_flow no_credentials : Message
  no_assertion verification_failed registration_failed not_allowed expired not_signed_in : Message
  passkey_required bad_return unknown_application invalid_redirect : Message

pub data Page : Type 0 where
  error_page json_error : Message → Page
  redirect : Text → Page
  login_page : Uuid → Text → Option Message → Page
  totp_page recovery_page : Uuid → Text → Option Message → Page
  enroll_totp_page : Uuid → Text → Text → Option Message → Page
  recovery_codes : List Text → Option Text → Page
  signed_in : Uuid → Page
  passkey_page : Uuid → Text → Page
  enroll_passkey_page : Uuid → Text → ℕ → Page
  step_up_page : Text → Page
  options : Name → Page
  enrolled : ℕ → Page
  done : Page

pub data FlowCookie : Type 0 where
  kept deleted : FlowCookie
  set_to : Uuid → FlowCookie

pub record Response : Type 0 where
  pub status : ℕ
  pub page : Page
  pub session_cookie : Option Text
  pub flow_cookie : FlowCookie
  pub retry_after : Option ℕ

abbrev pub answer : ℕ → Page → Response
answer status page = record {
  status = status;
  page = page;
  session_cookie = none;
  flow_cookie = kept;
  retry_after = none;
}

abbrev pub user_event : AuthEventType → Bool → Option Uuid → Ip → AuthEvent
user_event type success user addr = record {
  event_type = type;
  user_id = user;
  session_id = none;
  client_id = none;
  source_ip = addr;
  success = success;
}

-- What a login draws at random.
pub record LoginDraws : Type 0 where
  pub flow_id : Uuid
  pub csrf : Text
  pub session_id : Uuid
  pub session_secret : Text
  pub totp_secret : Text
  pub batch : Uuid
  pub codes : List (Uuid × Text)

-- `request.cookies.get(FLOW_COOKIE) == flow`
abbrev pub cookie_is : Option Text → Text → Bool
cookie_is none flow = false
cookie_is (some c) flow = text_eq c flow

abbrev pub stage_eq : Stage → Stage → Bool
stage_eq password password = true
stage_eq totp totp = true
stage_eq Stage.webauthn Stage.webauthn = true
stage_eq Stage.done Stage.done = true
stage_eq _ _ = false

abbrev pub is_active : User → Bool
is_active user = elim user.status [ active ↦ true | disabled ↦ false ]

abbrev pub stage_name : Stage → Text
stage_name stage = elim stage [
  | password ↦ codes "password"
  | totp ↦ codes "totp"
  | Stage.webauthn ↦ codes "webauthn"
  | Stage.done ↦ codes "done"
]

abbrev pub set_throttle : List AuthThrottle → Db → Db
set_throttle rows db = record db { auth_throttle = rows }

-- `_login_page`, which also sets the cookie of the flow.
abbrev pub login_form_page : ℕ → Uuid → Text → Option Message → Response
login_form_page status flow csrf message = record (answer status (login_page flow csrf message)) {
  flow_cookie = set_to flow;
}

abbrev pub too_many : ℕ → Response
too_many wait = record (answer 429 (error_page wait_and_retry)) { retry_after = some wait }

unfoldable pub flow_user : LoginFlow → Db → Option User
flow_user row db = elim row.user_id [
  | none ↦ none
  | some id ↦ elim (get_user id db) [
    | none ↦ none
    | some user ↦ if is_active user then some user else none
  ]
]

unfoldable pub login_response : User → Text → Option Text → Response
login_response user cookie url = elim url [
  | none ↦ record (answer 200 (signed_in user.id)) { session_cookie = some cookie }
  | some u ↦ record (answer 303 (redirect u)) { session_cookie = some cookie }
]

module _ (e : Env) where
  unfoldable pub redirect_if_authenticated : Browser → Time → Db → Option Response × Db
  redirect_if_authenticated b now db =
      let (session, db') = get_session_from_cookie e b.session_cookie b.addr now db in
      (
        elim session [ none ↦ none | some _ ↦ some (answer 303 (redirect (codes "/auth/done"))) ],
        db',
      )

  -- `onward or error_page(...)`
  unfoldable pub onward : Browser → Time → Db → Response × Db
  onward b now db =
      let (already, db') = redirect_if_authenticated b now db in
      (elim already [ none ↦ answer 400 (error_page invalid_request) | some r ↦ r ], db')

  abbrev pub new_login : LoginDraws → Browser → Time → Db → Response × Db
  new_login draws b now db =
      let (row, db') = create_flow e b.addr [] now draws.flow_id draws.csrf db in
      (login_form_page 200 row.id draws.csrf none, db')

  unfoldable pub login_again : LoginDraws → Option Text → Browser → Time → Db → Response × Db
  login_again draws flow b now db = elim (get_valid_flow e flow b.addr now true db) [
    | none ↦ new_login draws b now db
    | some row ↦
        if not (stage_eq row.stage password)
        then new_login draws b now (delete_flow row db)
        else (let (row', db') = rotate_csrf e row draws.csrf db in
            (login_form_page 200 row.id draws.csrf none, db'))
  ]

  unfoldable pub login_form : LoginDraws → Option Text → Browser → Time → Db → Response × Db
  login_form draws flow b now db =
      let (already, db') = redirect_if_authenticated b now db in
      elim already [ none ↦ login_again draws flow b now db' | some r ↦ (r, db') ]

  -- Whether the account is there, active, and has this password.
  unfoldable pub password_fits : Option User → Text → Bool
  password_fits none given = false
  password_fits (some user) given = is_active user && e.verify_hash user.password_hash given

  -- The row of a flow whose user has shown the password.
  abbrev pub identified : LoginFlow → User → Ip → LoginFlow
  identified row user addr = record row {
    user_id = some user.id;
    stage = required_second_factor user;
    source_ip = addr;
  }

  abbrev pub user_of : Option User → Option Uuid
  user_of none = none
  user_of (some user) = some user.id

  wrong_password : LoginFlow → Text → Text → Option User → Browser → Time → Db → Response × Db
  wrong_password row csrf email user b now db =
      let rows = register_failure e b.addr (some (name_of email)) now db.auth_throttle in
      (
        login_form_page 401 row.id csrf (some incorrect_login),
        emit (user_event login_password_failure false (user_of user) b.addr) (set_throttle rows db),
      )

  right_password : LoginFlow → Text → Text → User → Browser → Db → Response × Db
  right_password row flow email user b db =
      let cleared = set_throttle (reset_account (name_of email) db.auth_throttle) db in
      (
        answer 303 (
            redirect (
              codes "/auth/"
              ++ stage_name (required_second_factor user)
              ++ codes "?flow="
              ++ flow)),
        save_flow (identified row user b.addr)
            (emit (user_event login_password_success true (some user.id) b.addr) cleared),
      )

  -- The part of `login_submit` behind the guards on the flow; the address is in lower case, and the column
  -- of the addresses, a CITEXT, is compared without regard to case.
  unfoldable pub check_login :
      LoginFlow → Text → Text → Text → Text → Browser → Time → Db → Response × Db
  unfolding wrong_password right_password
  check_login row flow csrf email given b now db =
      let verdict = check db.auth_throttle b.addr (some (name_of email)) now in
      let user = find? (λ (u : User). text_eq (e.lower u.email) email) db.users in
      if not verdict.allowed
      then (too_many verdict.retry_after, emit (user_event throttle_applied false none b.addr) db)
      else elim user [
        | none ↦ wrong_password row csrf email none b now db
        | some u ↦
            if password_fits (some u) given
            then right_password row flow email u b db
            else wrong_password row csrf email (some u) b now db
      ]

  unfoldable pub login_submit : Text → Text → Text → Text → Browser → Time → Db → Response × Db
  login_submit flow csrf email given b now db =
      elim (get_valid_flow e (some flow) b.addr now true db) [
        | none ↦ (answer 400 (error_page start_over), db)
        | some row ↦
            if not (cookie_is b.flow_cookie flow)
            then (answer 400 (error_page start_over), db)
            else if not (verify_flow_csrf e row csrf) || not (stage_eq row.stage password)
            then (answer 400 (error_page invalid_request), db)
            else check_login row flow csrf (e.lower (strip email)) given b now db
      ]

  -- The guard of the second-factor pages.
  unfoldable pub get_stage_flow : Option Text → Stage → Browser → Time → Db → Option LoginFlow
  get_stage_flow flow stage b now db = elim (get_valid_flow e flow b.addr now false db) [
    | none ↦ none
    | some row ↦
        if not (stage_eq row.stage stage) || not (is_some row.user_id)
        then none
        else if not (cookie_is b.flow_cookie (e.uuid_str row.id))
        then none
        else some row
  ]

  unfoldable pub continue_url : LoginFlow → Option Text
  continue_url row = elim row.oidc_request [
    | [] ↦ none
    | p ∷ ps ↦ some (codes "/oidc/authorize?" ++ e.urlencode (p ∷ ps))
  ]

  resume_session :
      LoginFlow → Session → Text → Browser → Time → Db → Option (Text × Option Text) × Db
  resume_session row session secret b now db =
      let (alive, session', db') = check_liveness e session b.addr now true db in
      if alive
      then (let (_, cookie, db'') = reissue_cookie e session' secret db' in
          (some (cookie, continue_url row), db''))
      else (none, db')

  -- A flow that is completed is answered again, with a new cookie for its session.
  unfoldable pub resume_completed_login :
      LoginFlow → Text → Browser → Time → Db → Option (Text × Option Text) × Db
  unfolding resume_session
  resume_completed_login row secret b now db = elim row.completed_session_id [
    | none ↦ (none, db)
    | some id ↦ elim (get_session id db) [
      | none ↦ (none, db)
      | some session ↦ resume_session row session secret b now db
    ]
  ]

  unfoldable pub finalize_login :
      LoginDraws → LoginFlow → User → List Amr → Ip → Time → Db → (Text × Option Text) × Db
  finalize_login draws row user amr addr now db =
      let (session, cookie, db') =
        create_session e user addr amr now draws.session_id draws.session_secret db in
      (
        (cookie, continue_url row),
        save_flow (record row { completed_session_id = some session.id }) db',
      )

  unfoldable pub complete_second_factor :
      LoginDraws → LoginFlow → User → List Amr → Browser → Time → Db → Response × Db
  complete_second_factor draws row user amr b now db =
      let ((cookie, url), db') = finalize_login draws row user amr b.addr now db in
      (login_response user cookie url, db')

  -- A failed second factor counts on the account and on the address.
  abbrev pub count_against : User → AuthEventType → Browser → Time → Db → Db
  count_against user type b now db =
      emit (user_event type false (some user.id) b.addr) (
        set_throttle (register_failure e b.addr (some (name_of user.email)) now db.auth_throttle)
          db)

unfoldable pub second_factor_throttle : User → Browser → Time → Db → Option Response × Db
second_factor_throttle user b now db =
    let verdict = check db.auth_throttle b.addr (some (name_of user.email)) now in
    if verdict.allowed then (none, db) else (
      some (too_many verdict.retry_after),
      emit (user_event throttle_applied false (some user.id) b.addr) db,
    )

abbrev pub clear_throttle : User → Db → Db
clear_throttle user db = set_throttle (reset_account (name_of user.email) db.auth_throttle) db

abbrev pub amr_of : LoginFlow → List Amr
amr_of row = if row.recovery_used then pwd ∷ rc ∷ otp ∷ [] else pwd ∷ otp ∷ []
