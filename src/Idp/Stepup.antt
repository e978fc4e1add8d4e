-- ===== src/Idp/Stepup.antt =====
-- idp/web/webauthn_routes.py: the step-up, a fresh assertion on a session that is live.
-- `[o for o in (settings.admin_ui_origin, settings.portal_origin) if o]`
use hyproxy.Json.{Fields}
use hyproxy.Idp.Sessions.{get_session_from_cookie}
use hyproxy.Settings.{Env}
use hyproxy.Store.Accounts.{Session, User, WebAuthnCredential, admin, standard}
use hyproxy.Idp.Login.{
  step_up_page, user_event, done, Browser, Response, answer, bad_return, error_page, expired,
  no_assertion, no_credentials, not_signed_in, options, passkey_required, verification_failed,
}
use hyproxy.Idp.Passkeys.{user_credentials, assertion_used, is_some_list, refused, verified}
use hyproxy.Store.{
  AuthEvent, AuthEventType, Db, emit, get_user, save_session, stepup_failure, stepup_success,
}
use hyproxy.Base.{
  Bool, List, Name, Option, Text, Time, Uuid, [], any, codes, false, filter, if◌then◌else◌, none,
  not, some, text_eq, true, ℕ, ◌++◌, ◌||◌, ◌∷◌,
}

unfoldable pub ui_origins : Env → List Text
ui_origins e = filter (λ (o : Text). not (text_eq o [])) (e.admin_ui_origin ∷ e.portal_origin ∷ [])

-- `bool(value)`, for an optional text
abbrev is_given : Option Text → Bool
is_given none = false
is_given (some t) = not (text_eq t [])

-- The target of the redirect has the origin of one of the interfaces, exactly.
unfoldable pub valid_stepup_return : Env → Text → Bool
valid_stepup_return e return_to =
    if text_eq return_to []
    then false
    else if not (
        text_eq (e.url_scheme return_to) (codes "https")
        || text_eq (e.url_scheme return_to) (codes "http"))
    then false
    else if not (is_given (e.url_host return_to)) || is_given (e.url_user return_to)
    then false
    else any (text_eq (e.url_scheme return_to ++ codes "://" ++ e.url_netloc return_to))
        (ui_origins e)

-- The user of a session, where that is an administrator.
unfoldable pub admin_of : Session → Db → Option User
admin_of session db = elim (get_user session.user_id db) [
  | none ↦ none
  | some user ↦ elim user.auth_tier [ admin ↦ some user | standard ↦ none ]
]

abbrev stepup_event : AuthEventType → Bool → User → Option Uuid → Browser → AuthEvent
stepup_event type success user session b = record (user_event type success (some user.id) b.addr) {
  session_id = session;
}

module _ (e : Env) where
  -- What the two requests do first: the session of the cookie, and its administrator.
  unfoldable pub with_admin :
      Browser → Time → Db → (Session → User → Db → Response × Db) → Response × Db
  with_admin b now db handle =
      let (found, db') = get_session_from_cookie e b.session_cookie b.addr now db in
      elim found [
        | none ↦ (refused 401 not_signed_in, db')
        | some session ↦ elim (admin_of session db') [
          | none ↦ (refused 403 passkey_required, db')
          | some user ↦ handle session user db'
        ]
      ]

  unfoldable pub stepup_page : Text → Browser → Time → Db → Response × Db
  stepup_page return_to b now db =
      if not (valid_stepup_return e return_to)
      then (answer 400 (error_page bad_return), db)
      else (let (found, db') = get_session_from_cookie e b.session_cookie b.addr now db in
          (
            elim found [
              | none ↦ answer 401 (error_page expired)
              | some session ↦ elim (admin_of session db') [
                | none ↦ answer 403 (error_page passkey_required)
                | some _ ↦ answer 200 (step_up_page return_to)
              ]
            ],
            db',
          ))

  abbrev set_stepup_challenge : Option Name → Session → Db → Db
  set_stepup_challenge challenge session =
      save_session (record session { stepup_challenge = challenge })

  -- The challenge is what the library drew.
  unfoldable pub stepup_options : Name → Browser → Time → Db → Response × Db
  stepup_options challenge b now db = with_admin b now db (λ session user db'.
      if not (is_some_list (user_credentials user db'))
      then (refused 400 no_credentials, db')
      else (answer 200 (options challenge), set_stepup_challenge (some challenge) session db'))

  -- What a verified assertion leaves.
  abbrev stepped_up : Session → User → WebAuthnCredential → ℕ → Browser → Time → Db → Db
  stepped_up session user cred sign_count b now db =
      emit (stepup_event stepup_success true user (some session.id) b) (
        save_session (record session { stepup_challenge = none; step_up_verified_at = some now })
          (assertion_used cred sign_count now db))

  -- The challenge of the session is spent first.
  unfoldable pub check_stepup : Session → User → Fields → Browser → Time → Db → Response × Db
  check_stepup session user credential b now db =
      let db' = set_stepup_challenge none session db in
      elim session.stepup_challenge [
        | none ↦ (refused 400 no_assertion, db')
        | some challenge ↦ elim (verified e credential challenge user db') [
          | none ↦ (
            refused 401 verification_failed,
            emit (stepup_event stepup_failure false user none b) db',
          )
          | some proof ↦ (answer 200 done, stepped_up session user proof.0 proof.1 b now db')
        ]
      ]

  unfoldable pub stepup_verify : Fields → Browser → Time → Db → Response × Db
  stepup_verify credential b now db =
      with_admin b now db (λ session user db'. check_stepup session user credential b now db')
