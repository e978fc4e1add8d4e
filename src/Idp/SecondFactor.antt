-- ===== src/Idp/SecondFactor.antt =====
-- idp/web/routes.py: one-time codes, their enrollment, and recovery codes. Each handler is its guards on the
-- flow, and what it does for the user of the flow.
use hyproxy.Security.Recovery.{consume, issue_batch}
use hyproxy.Security.Ratelimit.{register_failure}
use hyproxy.Settings.{Env}
use hyproxy.Idp.Sessions.{create_session}
use hyproxy.Store.Accounts.{LoginFlow, Stage, User, UserTotp, admin, standard, totp}
use hyproxy.Security.Totp.{
  decrypt_secret, delete_totp, get_totp_row, store_pending_secret, verify_code,
}
use hyproxy.Store.{
  Db, emit, enroll_totp, login_recovery_code_failure, login_recovery_code_used, login_totp_failure,
  login_totp_success,
}
use hyproxy.Idp.Flows.{delete_flow, rotate_csrf, save_flow, verify_flow_csrf}
use hyproxy.Idp.Login.{
  user_event, Browser, LoginDraws, Response, amr_of, answer, clear_throttle, complete_second_factor,
  continue_url, count_against, deleted, enroll_totp_page, error_page, flow_user, get_stage_flow,
  incorrect_code, invalid_code, login_response, no_enrollment, onward, recovery_codes,
  recovery_page, redirect, resume_completed_login, second_factor_throttle, set_throttle, start_over,
  totp_page, use_passkey,
}
use hyproxy.Base.{
  Option, Text, Time, codes, false, if◌then◌else◌, is_some, name_of, none, not, some, strip, true,
  update_where, ◌++◌, ◌==◌,
}

module _ (e : Env) where
  -- The pages of the second factor, for a browser that holds the flow.
  unfoldable pub on_page :
      Option Text → Stage → Browser → Time → Db → (LoginFlow → User → Response × Db) → Response × Db
  on_page flow stage b now db page = elim (get_stage_flow e flow stage b now db) [
    | none ↦ (answer 400 (error_page start_over), db)
    | some row ↦ elim (flow_user row db) [
      | none ↦ (answer 400 (error_page start_over), db)
      | some user ↦ page row user
    ]
  ]

  -- The guards of a form that is submitted.
  unfoldable pub on_submit :
      Text → Text → Browser → Time → Db → (LoginFlow → Response × Db) → Response × Db
  on_submit flow csrf b now db handle = elim (get_stage_flow e (some flow) totp b now db) [
    | none ↦ onward e b now db
    | some row ↦ if not (verify_flow_csrf e row csrf) then onward e b now db else handle row
  ]

  abbrev pub with_user : LoginFlow → Db → (User → Response × Db) → Response × Db
  with_user row db handle = elim (flow_user row db) [
    | none ↦ (answer 400 (error_page start_over), db)
    | some user ↦ handle user
  ]

  unfoldable pub unless_throttled :
      User → Browser → Time → Db → (Db → Response × Db) → Response × Db
  unless_throttled user b now db handle =
      let (throttled, db') = second_factor_throttle user b now db in
      elim throttled [ none ↦ handle db' | some r ↦ (r, db') ]

  abbrev enroll_totp_url : LoginFlow → Text
  enroll_totp_url row = codes "/auth/enroll/totp?flow=" ++ e.uuid_str row.id

  unfoldable pub show_totp : LoginDraws → LoginFlow → User → Db → Response × Db
  show_totp draws row user db = elim (get_totp_row user.id true db) [
    | none ↦ (answer 303 (redirect (enroll_totp_url row)), db)
    | some _ ↦
        let (row', db') = rotate_csrf e row draws.csrf db in
        (answer 200 (totp_page row.id draws.csrf none), db')
  ]

  unfoldable pub totp_form : LoginDraws → Option Text → Browser → Time → Db → Response × Db
  totp_form draws flow b now db =
      on_page flow totp b now db (λ row user. show_totp draws row user db)

  wrong_totp : LoginDraws → LoginFlow → User → Browser → Time → Db → Response × Db
  wrong_totp draws row user b now db =
      let (row', db') =
        rotate_csrf e row draws.csrf (count_against e user login_totp_failure b now db) in
      (answer 401 (totp_page row.id draws.csrf (some incorrect_code)), db')

  right_totp : LoginDraws → LoginFlow → User → Browser → Time → Db → Response × Db
  right_totp draws row user b now db =
      complete_second_factor e draws row user (amr_of row) b now
        (emit (user_event login_totp_success true (some user.id) b.addr) (clear_throttle user db))

  -- The part of `totp_submit` behind the throttle.
  unfoldable pub check_totp :
      LoginDraws → LoginFlow → User → Text → Browser → Time → Db → Response × Db
  unfolding wrong_totp right_totp
  check_totp draws row user code b now db = elim (get_totp_row user.id true db) [
    | none ↦ (answer 303 (redirect (enroll_totp_url row)), db)
    | some factor ↦
        if verify_code e (decrypt_secret e factor) (strip code)
        then right_totp draws row user b now db
        else wrong_totp draws row user b now db
  ]

  unfoldable pub replay_login :
      LoginDraws → LoginFlow → Option User → Browser → Time → Db → Response × Db
  replay_login draws row user b now db =
      let (resumed, db') = resume_completed_login e row draws.session_secret b now db in
      (
        elim resumed [
          | none ↦ answer 400 (error_page start_over)
          | some outcome ↦ elim user [
            | none ↦ answer 400 (error_page start_over)
            | some u ↦ login_response u outcome.0 outcome.1
          ]
        ],
        db',
      )

  unfoldable pub totp_submit : LoginDraws → Text → Text → Text → Browser → Time → Db → Response × Db
  totp_submit draws flow csrf code b now db = on_submit flow csrf b now db (λ row.
      elim row.completed_session_id [
        | some _ ↦ replay_login draws row (flow_user row db) b now db
        | none ↦ with_user row db (λ user.
            unless_throttled user b now db (λ db'. check_totp draws row user code b now db'))
      ])

  -- The secret of a pending enrollment, or a new one.
  unfoldable pub pending_secret : LoginDraws → User → Db → Text × Db
  pending_secret draws user db = elim (get_totp_row user.id false db) [
    | some factor ↦ (decrypt_secret e factor, db)
    | none ↦ (draws.totp_secret, (store_pending_secret e user.id draws.totp_secret db).1)
  ]

  unfoldable pub show_enroll_totp : LoginDraws → LoginFlow → User → Db → Response × Db
  show_enroll_totp draws row user db = elim (get_totp_row user.id true db) [
    | some _ ↦ (answer 303 (redirect (codes "/auth/totp?flow=" ++ e.uuid_str row.id)), db)
    | none ↦
        let (secret, db') = pending_secret draws user db in
        let (row', db'') = rotate_csrf e row draws.csrf db' in
        (answer 200 (enroll_totp_page row.id draws.csrf secret none), db'')
  ]

  unfoldable pub enroll_totp_form : LoginDraws → Option Text → Browser → Time → Db → Response × Db
  enroll_totp_form draws flow b now db = on_page flow totp b now db (λ row user.
      elim user.auth_tier [
        | admin ↦ (answer 403 (error_page use_passkey), db)
        | standard ↦ show_enroll_totp draws row user db
      ])

  abbrev pub confirm_totp : UserTotp → Time → Db → Db
  confirm_totp factor now db = record db {
    user_totp =
        update_where (λ (t : UserTotp). t.user_id == factor.user_id)
          (λ (t : UserTotp). record t { confirmed_at = some now }) db.user_totp;
  }

  wrong_enrollment : LoginDraws → LoginFlow → User → Text → Browser → Time → Db → Response × Db
  wrong_enrollment draws row user secret b now db =
      let failed = register_failure e b.addr (some (name_of user.email)) now db.auth_throttle in
      let (row', db') = rotate_csrf e row draws.csrf (set_throttle failed db) in
      (answer 401 (enroll_totp_page row.id draws.csrf secret (some incorrect_code)), db')

  -- The login is completed with the enrollment, and its flow deleted.
  right_enrollment : LoginDraws → LoginFlow → User → UserTotp → Browser → Time → Db → Response × Db
  right_enrollment draws row user factor b now db =
      let confirmed =
        emit (user_event enroll_totp true (some user.id) b.addr)
          (clear_throttle user (confirm_totp factor now db)) in
      let (shown, db') = issue_batch e user.id draws.batch draws.codes confirmed in
      let (session, cookie, db'') =
        create_session e user b.addr (amr_of row) now draws.session_id draws.session_secret db' in
      (
        record (answer 200 (recovery_codes shown (continue_url e row))) {
          session_cookie = some cookie;
          flow_cookie = deleted;
        },
        delete_flow row db'',
      )

  unfoldable pub check_enrollment :
      LoginDraws → LoginFlow → User → Text → Browser → Time → Db → Response × Db
  unfolding wrong_enrollment right_enrollment
  check_enrollment draws row user code b now db = elim (get_totp_row user.id false db) [
    | none ↦ (answer 400 (error_page no_enrollment), db)
    | some factor ↦
        if is_some factor.confirmed_at
        then (answer 400 (error_page no_enrollment), db)
        else if verify_code e (decrypt_secret e factor) (strip code)
        then right_enrollment draws row user factor b now db
        else wrong_enrollment draws row user (decrypt_secret e factor) b now db
  ]

  unfoldable pub enroll_totp_submit :
      LoginDraws → Text → Text → Text → Browser → Time → Db → Response × Db
  enroll_totp_submit draws flow csrf code b now db = on_submit flow csrf b now db (λ row.
      with_user row db (λ user. elim user.auth_tier [
        | admin ↦ (answer 400 (error_page start_over), db)
        | standard ↦
            unless_throttled user b now db (λ db'. check_enrollment draws row user code b now db')
      ]))

  unfoldable pub recovery_form : LoginDraws → Option Text → Browser → Time → Db → Response × Db
  recovery_form draws flow b now db = elim (get_stage_flow e flow totp b now db) [
    | none ↦ (answer 400 (error_page start_over), db)
    | some row ↦
        let (row', db') = rotate_csrf e row draws.csrf db in
        (answer 200 (recovery_page row.id draws.csrf none), db')
  ]

  wrong_recovery : LoginDraws → LoginFlow → User → Browser → Time → Db → Response × Db
  wrong_recovery draws row user b now db =
      let (row', db') =
        rotate_csrf e row draws.csrf (count_against e user login_recovery_code_failure b now db) in
      (answer 401 (recovery_page row.id draws.csrf (some invalid_code)), db')

  -- The authenticator is taken to be lost: its row goes.
  right_recovery : LoginFlow → User → Browser → Db → Response × Db
  right_recovery row user b db =
      let told =
        emit (user_event login_recovery_code_used true (some user.id) b.addr)
          (clear_throttle user db) in
      (
        answer 303 (redirect (enroll_totp_url row)),
        save_flow (record row { recovery_used = true }) (delete_totp user.id told),
      )

  unfoldable pub check_recovery :
      LoginDraws → LoginFlow → User → Text → Browser → Time → Db → Response × Db
  unfolding wrong_recovery right_recovery
  check_recovery draws row user code b now db =
      let (used, db') = consume e user.id code now db in
      if used then right_recovery row user b db' else wrong_recovery draws row user b now db'

  unfoldable pub recovery_submit :
      LoginDraws → Text → Text → Text → Browser → Time → Db → Response × Db
  recovery_submit draws flow csrf code b now db = on_submit flow csrf b now db (λ row.
      with_user row db (λ user.
        unless_throttled user b now db (λ db'. check_recovery draws row user code b now db')))
