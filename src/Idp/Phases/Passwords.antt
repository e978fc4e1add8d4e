-- ===== src/Idp/Phases/Passwords.antt =====
-- What the first step of a login, idp/web/routes.py, does to the flows.
use hyproxy.Idp.Phases.Factors.{rotate_csrf-Advances}
use hyproxy.Security.Ratelimit.{check}
use hyproxy.Idp.Phases.Guards.{get_valid_flow-held}
use hyproxy.Store.{Db}
use mathlib.Core.Path.{subst}
use hyproxy.Idp.Sessions.{get_session_from_cookie}
use hyproxy.Settings.{Env}
use hyproxy.Idp.Flows.{
  verify_flow_csrf, create_flow, delete_flow, find_flow, get_valid_flow, required_second_factor,
}
use hyproxy.Idp.Phases.{
  abandon, begins, broken, completed, identifies, identify, phase_of, sign_in_anew, waiting,
  Advances, PhaseStep, open_flow, phase, phase_at, started, stay,
}
use hyproxy.Idp.Login.{
  cookie_is, login_submit, password_fits, Browser, LoginDraws, check_login, identified, login_again,
  login_form, new_login, redirect_if_authenticated, stage_eq,
}
use hyproxy.Idp.Phases.Saves.{
  Advances-refl, save_flow-Advances, Advances-SamePhases, SamePhases-Advances, flow_id_of,
  step-along,
}
use hyproxy.Store.Accounts.{LoginFlow, User, password}
use hyproxy.Idp.Phases.Kept.{Kept-SamePhases, Kept-refl, get_session_from_cookie-Kept}
use hyproxy.Base.{
  List, Memᴰ, find?→Memᴰ, find?, name_of, not, strip, text_eq, ◌||◌, ◌≢◌, Bool, Bool-cases, Ip,
  Option, Option-cases, Text, Time, Uuid, [], ap, arith, false, if◌then◌else◌, inl, inr, is_some,
  lookup-filter, lookup-snoc, none, refl, some, sym, true, ◌==◌, ==_iff, ◌∙◌, ◌≡◌, ◌⊎◌,
}

appended :
    {users : List User} (old kept : Option LoginFlow) (row : LoginFlow) (ours : Bool)
    → phase row ≡ started
    → (ours ≡ true → phase_at old ≡ none)
    → (kept ≡ old) ⊎ ((kept ≡ none) × PhaseStep users begins (phase_at old) none)
    → PhaseStep users begins
        (phase_at old)
        (phase_at (if is_some kept then kept else if ours then some row else none))
appended old (some r) row ours h fresh (inl same) = step-along (ap phase_at (sym same)) refl stay
appended old (some r) row ours h fresh (inr gone) = ground arith
appended (some r) none row true h fresh _ = ground (arith, fresh refl)
appended (some r) none row false h fresh (inl same) = ground arith
appended (some r) none row false h fresh (inr gone) = gone.1
appended none none row true h fresh _ = step-along refl (ap some h) open_flow
appended none none row false h fresh _ = stay

-- A flow past the password may be left.
leaves :
    {users : List User} (row : LoginFlow)
    → stage_eq row.stage password ≡ false
    → phase row ≢ broken
    → PhaseStep users begins (some (phase row)) none
leaves row past sound = elim (Option-cases row.user_id) [
  | inl unknown ↦ absurd (sound (ground arith))
  | inr (user, known) ↦ elim (Option-cases row.completed_session_id) [
    | inl fresh ↦
        let before : phase row ≡ waiting user row.stage = ground arith in
        step-along (ap some before) refl abandon
    | inr (session, over) ↦
        let before : phase row ≡ completed user row.stage session = ground arith in
        step-along (ap some before) refl sign_in_anew
  ]
]

module _ (e : Env) where
  new_login-Advances :
      (draws : LoginDraws) (b : Browser) (now : Time) (db db1 : Db)
      → phase_of draws.flow_id db ≡ none
      → db1.users ≡ db.users
      → ((id : Uuid)
          → phase_of id db ≢ some broken
          → (find_flow id db1 ≡ find_flow id db)
            ⊎ ((find_flow id db1 ≡ none) × PhaseStep db.users begins (phase_of id db) none))
      → Advances begins db (new_login e draws b now db1).1
  unfolding create_flow
  new_login-Advances draws b now db db1 fresh same left =
      let row = (create_flow e b.addr [] now draws.flow_id draws.csrf db1).0 in
      record {
        users_kept = same;
        at = λ id sound.
            step-along refl (ap phase_at (lookup-snoc flow_id_of id row db1.login_flows)) (
              appended (find_flow id db) (find_flow id db1) row (row.id == id) refl
                (λ ours. subst (λ i. phase_of i db ≡ none) ((==_iff row.id id).0 ours) fresh)
                (left id sound));
      }

  -- A flow past the password is deleted, and another one started.
  restarted :
      (draws : LoginDraws) (row : LoginFlow) (b : Browser) (now : Time) (db : Db)
      → phase_of draws.flow_id db ≡ none
      → find_flow row.id db ≡ some row
      → stage_eq row.stage password ≡ false
      → Advances begins db (new_login e draws b now (delete_flow row db)).1
  unfolding delete_flow
  restarted draws row b now db fresh held past =
      new_login-Advances draws b now db (delete_flow row db) fresh refl (λ id sound.
        elim (Bool-cases (row.id == id)) [
          | inl mine ↦
              let mine' : row.id ≡ id = ground arith in
              let before : find_flow id db ≡ some row = rw (sym mine') held in
              inr (
                ground (arith, lookup-filter flow_id_of id row db.login_flows),
                step-along (ap phase_at before) refl
                    (leaves row past (λ bad. sound (ap phase_at before ∙ ap some bad))),
              )
          | inr foreign ↦ inl (ground (arith, lookup-filter flow_id_of id row db.login_flows))
        ])

  login_again-Advances :
      (draws : LoginDraws) (flow : Option Text) (b : Browser) (now : Time) (db : Db)
      → phase_of draws.flow_id db ≡ none
      → Advances begins db (login_again e draws flow b now db).1
  unfolding login_again
  login_again-Advances draws flow b now db fresh =
      elim (Option-cases (get_valid_flow e flow b.addr now true db)) [
        | inl absent ↦
            rw (absent, login_again)
              (new_login-Advances draws b now db db fresh refl (λ id _. inl refl))
        | inr (row, found) ↦ elim (Bool-cases (stage_eq row.stage password)) [
          | inr past ↦
              rw (found, past, login_again)
                (restarted draws row b now db fresh
                  (get_valid_flow-held e flow b.addr now true db found) past)
          | inl first ↦
              rw (found, first, login_again)
                (rotate_csrf-Advances e row db db
                  (get_valid_flow-held e flow b.addr now true db found) (Kept-refl db) draws.csrf)
        ]
      ]

  pub login_form-Advances :
      (draws : LoginDraws) (flow : Option Text) (b : Browser) (now : Time) (db : Db)
      → phase_of draws.flow_id db ≡ none
      → Advances begins db (login_form e draws flow b now db).1
  unfolding login_form redirect_if_authenticated
  login_form-Advances draws flow b now db fresh =
      let looked_up = get_session_from_cookie e b.session_cookie b.addr now db in
      let k = Kept-SamePhases (get_session_from_cookie-Kept e b.session_cookie b.addr now db) in
      elim (Option-cases looked_up.0) [
        | inl anonymous ↦
            rw (anonymous, login_form)
              (SamePhases-Advances k (
                login_again-Advances draws flow b now looked_up.1
                  (k.same_phase draws.flow_id ∙ fresh)))
        | inr (session, found) ↦ rw (found, login_form) (Advances-SamePhases k)
      ]

  second_not_first : (user : User) → stage_eq (required_second_factor user) password ≡ false
  unfolding required_second_factor
  second_not_first user = ground arith

  names_user :
      {users : List User} (row : LoginFlow) (user : User) (addr : Ip)
      → Memᴰ user users
      → stage_eq row.stage password ≡ true
      → phase row ≢ broken
      → PhaseStep users identifies (some (phase row)) (some (phase (identified e row user addr)))
  names_user row user addr mem first sound =
      let second = second_not_first user in
      let spare : (is_some row.user_id || is_some row.completed_session_id) ≡ false =
        elim (Bool-cases (is_some row.user_id || is_some row.completed_session_id)) [
          | inl bad ↦ absurd (sound (rw (first, bad) refl))
          | inr good ↦ good
        ] in
      let before : phase row ≡ started = rw (first, spare) refl in
      let open_flow : row.completed_session_id ≡ none = ground arith in
      let after : phase (identified e row user addr)
          ≡ waiting user.id (required_second_factor user) =
        rw (second, open_flow) refl in
      step-along (ap some before) (ap some after) (identify user mem)

  check_login-Advances :
      (row : LoginFlow) (flow csrf email given : Text) (b : Browser) (now : Time) (db : Db)
      → find_flow row.id db ≡ some row
      → stage_eq row.stage password ≡ true
      → Advances identifies db (check_login e row flow csrf email given b now db).1
  unfolding check_login
  check_login-Advances row flow csrf email given b now db held first =
      elim (Bool-cases (check db.auth_throttle b.addr (some (name_of email)) now).allowed) [
        | inr slow ↦
            rw (slow, check_login)
              (Advances-SamePhases
                (Kept-SamePhases (record { same_flows = refl; kept_users = refl })))
        | inl free ↦
            elim (Option-cases (find? (λ (u : User). text_eq (e.lower u.email) email) db.users)) [
              | inl unknown ↦
                  rw (free, unknown, check_login)
                    (Advances-SamePhases
                      (Kept-SamePhases (record { same_flows = refl; kept_users = refl })))
              | inr (user, known) ↦ elim (Bool-cases (password_fits e (some user) given)) [
                | inr wrong ↦
                    rw (free, known, wrong, check_login)
                      (Advances-SamePhases
                        (Kept-SamePhases (record { same_flows = refl; kept_users = refl })))
                | inl right ↦
                    rw (free, known, right, check_login)
                      (SamePhases-Advances
                        (Kept-SamePhases (record { same_flows = refl; kept_users = refl }))
                        (save_flow-Advances row (identified e row user b.addr) _ held refl (
                          names_user row user b.addr
                            (find?→Memᴰ (λ (u : User). text_eq (e.lower u.email) email) db.users
                              known)
                            first)))
              ]
            ]
      ]

  pub login_submit-Advances :
      (flow csrf email given : Text) (b : Browser) (now : Time) (db : Db)
      → Advances identifies db (login_submit e flow csrf email given b now db).1
  unfolding login_submit
  login_submit-Advances flow csrf email given b now db =
      elim (Option-cases (get_valid_flow e (some flow) b.addr now true db)) [
        | inl absent ↦ rw (absent, login_submit) (Advances-refl db)
        | inr (row, found) ↦ elim (Bool-cases (cookie_is b.flow_cookie flow)) [
          | inr stray ↦ rw (found, stray, login_submit) (Advances-refl db)
          | inl ours ↦
              elim (Bool-cases
                (not (verify_flow_csrf e row csrf) || not (stage_eq row.stage password))) [
                  | inl invalid ↦ rw (found, ours, invalid, login_submit) (Advances-refl db)
                  | inr valid ↦
                      rw (found, ours, valid, login_submit)
                        (check_login-Advances row flow csrf (e.lower (strip email)) given b now db
                          (get_valid_flow-held e (some flow) b.addr now true db found)
                          (ground arith))
                ]
        ]
      ]
