-- ===== src/Idp/Phases/Factors.antt =====
-- What the one-time code, idp/web/routes.py, and the completion of a login do to the flows.
use mathlib.Core.Path.{subst}
use hyproxy.Settings.{Env}
use hyproxy.Idp.Sessions.{create_session}
use hyproxy.Idp.Phases.Guards.{on_submit-Advances, IsAt, on_page-Advances}
use hyproxy.Store.{Db}
use hyproxy.Store.Accounts.{Amr, LoginFlow, Stage, User, password, totp}
use hyproxy.Idp.Login.{
  Response, amr_of, complete_second_factor, flow_user, second_factor_throttle, Browser, LoginDraws,
  finalize_login, stage_eq,
}
use hyproxy.Idp.SecondFactor.{
  with_user, check_totp, replay_login, totp_submit, unless_throttled, show_totp, totp_form,
}
use hyproxy.Idp.Phases.Saves.{
  Advances-SamePhases, step-along, delete_flow-Advances, Advances-refl, SamePhases-Advances,
  save_flow-Advances,
}
use hyproxy.Security.Totp.{decrypt_secret, verify_code, get_totp_row}
use hyproxy.Idp.Phases.Kept.{
  resume_completed_login-Kept, second_factor_throttle-Kept, Kept, Kept-SamePhases, Kept-refl,
}
use hyproxy.Idp.Phases.{
  complete, completed, waiting, Act, enrolls, enroll, enroll_again, unrelated, shows, Advances,
  PhaseStep, phase, stay,
}
use hyproxy.Idp.Flows.{delete_flow, find_flow, rotate_csrf, save_flow}
use hyproxy.Base.{
  Bool-cases, strip, ap, Ip, List, Option, Option-cases, Text, Time, Uuid, arith, false, inl, inr,
  is_some, none, refl, some, true, ◌≡◌,
}

stage_eq-password :
    (r s : Stage) → stage_eq r s ≡ true → stage_eq s password ≡ false → stage_eq r password ≡ false
stage_eq-password password s h k = ground arith
stage_eq-password totp s h k = refl
stage_eq-password Stage.webauthn s h k = refl
stage_eq-password Stage.done s h k = refl

stage_eq-≡ : (r s : Stage) → stage_eq r s ≡ true → r ≡ s
stage_eq-≡ password s h = ground arith
stage_eq-≡ totp s h = ground arith
stage_eq-≡ Stage.webauthn s h = ground arith
stage_eq-≡ Stage.done s h = ground arith

completes :
    {users : List User} (row : LoginFlow) (session : Uuid)
    → stage_eq row.stage password ≡ false
    → is_some row.user_id ≡ true
    → row.completed_session_id ≡ none
    → PhaseStep users
        (shows row.stage)
        (some (phase row))
        (some (phase (record row { completed_session_id = some session })))
completes row session past known fresh = elim (Option-cases row.user_id) [
  | inl unknown ↦ ground arith
  | inr (user, is_user) ↦
      let before : phase row ≡ waiting user row.stage = ground arith in
      let after : phase (record row { completed_session_id = some session })
          ≡ completed user row.stage session =
        ground arith in
      step-along (ap some before) (ap some after) complete
]

enrolled :
    {users : List User} (row : LoginFlow)
    → stage_eq row.stage totp ≡ true
    → is_some row.user_id ≡ true
    → PhaseStep users enrolls (some (phase row)) none
enrolled row at_totp known =
    let stage = stage_eq-≡ row.stage totp at_totp in
    elim (Option-cases row.user_id) [
      | inl unknown ↦ ground arith
      | inr (user, is_user) ↦ elim (Option-cases row.completed_session_id) [
        | inl fresh ↦
            let before : phase row ≡ waiting user totp = ground arith in
            step-along (ap some before) refl enroll
        | inr (session, over) ↦
            let before : phase row ≡ completed user totp session = ground arith in
            step-along (ap some before) refl enroll_again
      ]
    ]

module _ (e : Env) where
  module _ (row : LoginFlow) (db db1 : Db) (held : find_flow row.id db ≡ some row)
      (k : Kept db db1) where
    held_after : find_flow row.id db1 ≡ some row
    held_after = ground (arith, k)

    pub save_after :
        {act : Act} (row' : LoginFlow)
        → row'.id ≡ row.id
        → PhaseStep db1.users act (some (phase row)) (some (phase row'))
        → Advances act db (save_flow row' db1)
    save_after row' same step =
        SamePhases-Advances (Kept-SamePhases k)
          (save_flow-Advances row row' db1 held_after same (λ _. step))

    pub rotate_csrf-Advances :
        {act : Act} (csrf : Text) → Advances act db (rotate_csrf e row csrf db1).1
    unfolding rotate_csrf
    rotate_csrf-Advances csrf =
        save_after (record row { csrf_token_hash = e.sha256_hex csrf }) refl stay

    pub delete_after :
        stage_eq row.stage totp ≡ true
        → is_some row.user_id ≡ true
        → Advances enrolls db (delete_flow row db1)
    delete_after at_totp known =
        SamePhases-Advances (Kept-SamePhases k)
          (delete_flow-Advances row row db1 held_after (enrolled row at_totp known))

  pub finalize_login-Advances :
      (draws : LoginDraws) (row : LoginFlow) (stage : Stage) (user : User) (amr : List Amr)
      (addr : Ip) (now : Time) (db db1 : Db)
      → IsAt row stage db
      → stage_eq stage password ≡ false
      → row.completed_session_id ≡ none
      → Kept db db1
      → Advances (shows stage) db (finalize_login e draws row user amr addr now db1).1
  unfolding finalize_login create_session
  finalize_login-Advances draws row stage user amr addr now db db1 at_stage second fresh k =
      save_after row db _ at_stage.0
        (record { same_flows = k.same_flows; kept_users = k.kept_users })
        (record row { completed_session_id = some draws.session_id }) refl
        (subst
          (λ factor.
            PhaseStep db1.users (shows factor) (some (phase row))
              (some (phase (record row { completed_session_id = some draws.session_id }))))
          (stage_eq-≡ row.stage stage at_stage.1)
          (completes row draws.session_id (stage_eq-password row.stage stage at_stage.1 second)
            at_stage.2 fresh))

  pub totp_form-Advances :
      (draws : LoginDraws) (flow : Option Text) (b : Browser) (now : Time) (db : Db)
      → Advances unrelated db (totp_form e draws flow b now db).1
  unfolding totp_form show_totp
  totp_form-Advances draws flow b now db = on_page-Advances e flow totp b now db _ (λ row user held.
      elim (Option-cases (get_totp_row user.id true db)) [
        | inl none_confirmed ↦ rw (none_confirmed, show_totp) (Advances-refl db)
        | inr (factor, found) ↦
            rw (found, show_totp) (rotate_csrf-Advances row db db held (Kept-refl db) draws.csrf)
      ])

  pub with_user-Advances :
      {act : Act} (row : LoginFlow) (db : Db) (handle : User → Response × Db)
      → ((user : User) → Advances act db (handle user).1)
      → Advances act db (with_user e row db handle).1
  with_user-Advances row db handle each = elim (Option-cases (flow_user row db)) [
    | inl absent ↦ rw (absent, with_user) (Advances-refl db)
    | inr (user, known) ↦ rw (known, with_user) (each user)
  ]

  pub unless_throttled-Advances :
      {act : Act} (user : User) (b : Browser) (now : Time) (db : Db) (handle : Db → Response × Db)
      → ((db' : Db) → Kept db db' → Advances act db (handle db').1)
      → Advances act db (unless_throttled e user b now db handle).1
  unfolding unless_throttled
  unless_throttled-Advances user b now db handle each =
      let k = second_factor_throttle-Kept e user b now db in
      elim (Option-cases (second_factor_throttle user b now db).0) [
        | inl free ↦ rw (free, unless_throttled) (each (second_factor_throttle user b now db).1 k)
        | inr (r, throttled) ↦
            rw (throttled, unless_throttled) (Advances-SamePhases (Kept-SamePhases k))
      ]

  check_totp-Advances :
      (draws : LoginDraws) (row : LoginFlow) (user : User) (code : Text) (b : Browser) (now : Time)
      (db db1 : Db)
      → IsAt row totp db
      → row.completed_session_id ≡ none
      → Kept db db1
      → Advances (shows totp) db (check_totp e draws row user code b now db1).1
  unfolding check_totp complete_second_factor
  check_totp-Advances draws row user code b now db db1 at_stage fresh k =
      elim (Option-cases (get_totp_row user.id true db1)) [
        | inl unconfirmed ↦ rw (unconfirmed, check_totp) (Advances-SamePhases (Kept-SamePhases k))
        | inr (factor, found) ↦
            elim (Bool-cases (verify_code e (decrypt_secret e factor) (strip code))) [
              | inl right ↦
                  rw (found, right, check_totp)
                    (finalize_login-Advances draws row totp user (amr_of row) b.addr now db _
                      at_stage refl fresh
                      (record { same_flows = k.same_flows; kept_users = k.kept_users }))
              | inr wrong ↦
                  rw (found, wrong, check_totp)
                    (rotate_csrf-Advances row db _ at_stage.0
                      (record { same_flows = k.same_flows; kept_users = k.kept_users }) draws.csrf)
            ]
      ]

  pub totp_submit-Advances :
      (draws : LoginDraws) (flow csrf code : Text) (b : Browser) (now : Time) (db : Db)
      → Advances (shows totp) db (totp_submit e draws flow csrf code b now db).1
  unfolding totp_submit replay_login
  totp_submit-Advances draws flow csrf code b now db =
      on_submit-Advances e flow csrf b now db _ (λ row at_stage.
        elim (Option-cases row.completed_session_id) [
          | inr (session, over) ↦ rw over (
              Advances-SamePhases
                (Kept-SamePhases (resume_completed_login-Kept e row draws.session_secret b now db)))
          | inl fresh ↦ rw fresh (
              with_user-Advances row db _ (λ user.
                unless_throttled-Advances user b now db _
                  (λ db' k. check_totp-Advances draws row user code b now db db' at_stage fresh k)))
        ])
