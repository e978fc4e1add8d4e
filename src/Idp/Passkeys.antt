-- ===== src/Idp/Passkeys.antt =====
-- idp/web/webauthn_routes.py: passkeys at login, their enrollment, and the step-up of a live session. The
-- library that checks an assertion or a registration is the environment's.
use hyproxy.Idp.SecondFactor.{on_page}
use hyproxy.Settings.{Env}
use hyproxy.Idp.Sessions.{get_session_from_cookie}
use hyproxy.Idp.Flows.{rotate_csrf, save_flow, verify_flow_csrf}
use hyproxy.Store.{
  Db, emit, enroll_webauthn, login_break_glass_used, login_webauthn_failure, login_webauthn_success,
}
use hyproxy.Idp.Login.{
  enroll_passkey_page, passkey_page, user_event, Browser, LoginDraws, Message, Response, answer,
  clear_throttle, count_against, enrolled, error_page, finalize_login, flow_user, get_stage_flow,
  invalid_flow, json_error, no_assertion, no_credentials, no_enrollment, not_allowed, options,
  redirect, registration_failed, resume_completed_login, second_factor_throttle, signed_in,
  start_over, too_many_attempts, use_passkey, verification_failed,
}
use hyproxy.Store.Accounts.{Amr, LoginFlow, Stage, User, WebAuthnCredential, pwd}
use hyproxy.Base.{
  Bool, List, Name, Option, Text, Time, Uuid, [], any, codes, false, filter, find?, if◌then◌else◌,
  length, ltb, none, not, some, text_eq, true, update_where, ℕ, ◌%◌, ◌++◌, ◌+◌, ◌==◌, ◌∷◌,
}
use hyproxy.Json.{Fields, Json, str, truthy, get}

abbrev pub refused : ℕ → Message → Response
refused status message = answer status (json_error message)

abbrev id_string : Option Json → Option Text
id_string none = none
id_string (some v) = elim v [ str t ↦ some t | _ ↦ none ]

-- `credential.get("rawId") or credential.get("id")`, where that is a string
unfoldable pub raw_id : Fields → Option Text
raw_id credential = elim (get (codes "rawId") credential) [
  | none ↦ id_string (get (codes "id") credential)
  | some v ↦ if truthy v then id_string (some v) else id_string (get (codes "id") credential)
]

-- "=" as often as brings the length to a multiple of four.
abbrev padding : ℕ → Text
padding over =
    if over == 0
    then []
    else if over == 1
    then codes "==="
    else if over == 2
    then codes "=="
    else codes "="

unfoldable pub user_credentials : User → Db → List WebAuthnCredential
user_credentials user db =
    filter (λ (c : WebAuthnCredential). c.user_id == user.id) db.webauthn_credentials

-- Enrollment during login only while no credential predates the flow.
unfoldable pub bootstrap_enroll_allowed : List WebAuthnCredential → LoginFlow → Bool
bootstrap_enroll_allowed creds row =
    not (any (λ (c : WebAuthnCredential). ltb c.created_at row.created_at) creds)

abbrev pub is_some_list : List WebAuthnCredential → Bool
is_some_list [] = false
is_some_list (c ∷ cs) = true

-- What a verified assertion writes on the row of its credential.
abbrev pub assertion_used : WebAuthnCredential → ℕ → Time → Db → Db
assertion_used cred sign_count now db = record db {
  webauthn_credentials =
      update_where (λ (c : WebAuthnCredential). c.id == cred.id)
        (λ _. record cred { sign_count = sign_count; last_used_at = some now })
        db.webauthn_credentials;
}

module _ (e : Env) where
  unfoldable pub credential_id_from_response : Fields → Option Text
  credential_id_from_response credential = elim (raw_id credential) [
    | none ↦ none
    | some t ↦ e.b64_decode (t ++ padding (length t % 4))
  ]

  -- The row of the credential that the response names, where it is the user's.
  unfoldable pub asserted : Fields → User → Db → Option WebAuthnCredential
  asserted credential user db = elim (credential_id_from_response credential) [
    | none ↦ none
    | some [] ↦ none
    | some (c ∷ t) ↦
        elim (find? (λ (w : WebAuthnCredential). text_eq w.credential_id (c ∷ t))
          db.webauthn_credentials) [
            | none ↦ none
            | some row ↦ if row.user_id == user.id then some row else none
          ]
  ]

  -- The credential with its new count, where the assertion answers the challenge.
  unfoldable pub verified : Fields → Name → User → Db → Option (WebAuthnCredential × ℕ)
  verified credential challenge user db = elim (asserted credential user db) [
    | none ↦ none
    | some row ↦
        elim (e.verify_assertion (e.dump credential) challenge row.public_key row.sign_count) [
          | none ↦ none
          | some sign_count ↦ some (row, sign_count)
        ]
  ]

  unfoldable pub guarded_flow :
      Text → Text → Browser → Time → Db → (LoginFlow → User → Response × Db) → Response × Db
  guarded_flow flow csrf b now db handle =
      elim (get_stage_flow e (some flow) Stage.webauthn b now db) [
        | none ↦ (refused 400 invalid_flow, db)
        | some row ↦
            if not (verify_flow_csrf e row csrf)
            then (refused 400 invalid_flow, db)
            else elim (flow_user row db) [
              | none ↦ (refused 400 invalid_flow, db)
              | some user ↦ handle row user
            ]
      ]

  unfoldable pub webauthn_page : LoginDraws → Option Text → Browser → Time → Db → Response × Db
  webauthn_page draws flow b now db = on_page e flow Stage.webauthn b now db (λ row user.
      if not (is_some_list (user_credentials user db))
      then (answer 303 (redirect (codes "/auth/enroll/webauthn?flow=" ++ e.uuid_str row.id)), db)
      else (let (row', db') = rotate_csrf e row draws.csrf db in
          (answer 200 (passkey_page row.id draws.csrf), db')))

  abbrev pub set_challenge : Option Name → LoginFlow → Db → Db
  set_challenge challenge row db = save_flow (record row { webauthn_challenge = challenge }) db

  -- The challenge is what the library drew.
  unfoldable pub webauthn_options : Name → Text → Text → Browser → Time → Db → Response × Db
  webauthn_options challenge flow csrf b now db = guarded_flow flow csrf b now db (λ row user.
      if not (is_some_list (user_credentials user db))
      then (refused 400 no_credentials, db)
      else (answer 200 (options challenge), set_challenge (some challenge) row db))

  unfoldable pub json_login : Text → Option Text → Response
  json_login cookie url = elim url [
    | none ↦ record (answer 200 (redirect (codes "/auth/done"))) { session_cookie = some cookie }
    | some u ↦ record (answer 200 (redirect u)) { session_cookie = some cookie }
  ]

  abbrev pub replay_assertion : LoginDraws → LoginFlow → Browser → Time → Db → Response × Db
  replay_assertion draws row b now db =
      let (resumed, db') = resume_completed_login e row draws.session_secret b now db in
      (
        elim resumed [
          | none ↦ refused 400 start_over
          | some outcome ↦ json_login outcome.0 outcome.1
        ],
        db',
      )

  unfoldable pub break_glass_event : WebAuthnCredential → User → Browser → Db → Db
  break_glass_event cred user b db =
      if cred.break_glass
      then emit (user_event login_break_glass_used true (some user.id) b.addr) db
      else db

  -- The login of a user whose assertion is verified.
  unfoldable pub passkey_login :
      LoginDraws → LoginFlow → User → WebAuthnCredential → ℕ → Browser → Time → Db → Response × Db
  passkey_login draws row user cred sign_count b now db =
      let known = clear_throttle user (assertion_used cred sign_count now db) in
      let told = emit (user_event login_webauthn_success true (some user.id) b.addr) known in
      let ((cookie, url), db') =
        finalize_login e draws row user (pwd ∷ Amr.webauthn ∷ []) b.addr now
          (break_glass_event cred user b told) in
      (json_login cookie url, db')

  -- The part of `webauthn_verify` behind the throttle, where the challenge is spent first.
  unfoldable pub check_assertion :
      LoginDraws → LoginFlow → User → Fields → Browser → Time → Db → Response × Db
  check_assertion draws row user credential b now db =
      let row' = record row { webauthn_challenge = none } in
      let db' = save_flow row' db in
      elim row.webauthn_challenge [
        | none ↦ (refused 400 no_assertion, db')
        | some challenge ↦ elim (verified credential challenge user db') [
          | none ↦ (
            refused 401 verification_failed,
            count_against e user login_webauthn_failure b now db',
          )
          | some proof ↦ passkey_login draws row' user proof.0 proof.1 b now db'
        ]
      ]

  unfoldable pub webauthn_verify :
      LoginDraws → Text → Text → Fields → Browser → Time → Db → Response × Db
  webauthn_verify draws flow csrf credential b now db = guarded_flow flow csrf b now db (λ row user.
      elim row.completed_session_id [
        | some _ ↦ replay_assertion draws row b now db
        | none ↦
            let (throttled, db') = second_factor_throttle user b now db in
            elim throttled [
              | some _ ↦ (refused 429 too_many_attempts, db')
              | none ↦ check_assertion draws row user credential b now db'
            ]
      ])

  unfoldable pub done_page : Browser → Time → Db → Response × Db
  done_page b now db =
      let (session, db') = get_session_from_cookie e b.session_cookie b.addr now db in
      (
        elim session [
          | none ↦ answer 303 (redirect (codes "/auth/login"))
          | some s ↦ answer 200 (signed_in s.user_id)
        ],
        db',
      )

  unfoldable pub enroll_webauthn_page :
      LoginDraws → Option Text → Browser → Time → Db → Response × Db
  enroll_webauthn_page draws flow b now db = on_page e flow Stage.webauthn b now db (λ row user.
      if not (bootstrap_enroll_allowed (user_credentials user db) row)
      then (answer 403 (error_page use_passkey), db)
      else (let (row', db') = rotate_csrf e row draws.csrf db in
          (
            answer 200 (enroll_passkey_page row.id draws.csrf (length (user_credentials user db))),
            db',
          )))

  unfoldable pub enroll_webauthn_options : Name → Text → Text → Browser → Time → Db → Response × Db
  enroll_webauthn_options challenge flow csrf b now db =
      guarded_flow flow csrf b now db (λ row user.
        if not (bootstrap_enroll_allowed (user_credentials user db) row)
        then (refused 403 not_allowed, db)
        else (answer 200 (options challenge), set_challenge (some challenge) row db))

  -- The row of a new credential: the id is the database's.
  abbrev add_credential : Uuid → User → Text × Name × ℕ → Text → Bool → Time → Db → Db
  add_credential id user (credential_id, public_key, sign_count) friendly break_glass now db =
      record db {
        webauthn_credentials =
            db.webauthn_credentials
            ++ record {
              id = id;
              user_id = user.id;
              credential_id = credential_id;
              public_key = public_key;
              sign_count = sign_count;
              friendly_name = friendly;
              break_glass = break_glass;
              created_at = now;
              last_used_at = none;
            }
              ∷ [];
      }

  unfoldable pub enroll :
      Uuid → LoginFlow → User → Fields → Text → Bool → Browser → Time → Db → Response × Db
  enroll id row user credential friendly break_glass b now db =
      let db' = set_challenge none row db in
      elim row.webauthn_challenge [
        | none ↦ (refused 400 no_enrollment, db')
        | some challenge ↦ elim (e.verify_registration (e.dump credential) challenge) [
          | none ↦ (
            refused 400 registration_failed,
            emit (user_event enroll_webauthn false (some user.id) b.addr) db',
          )
          | some result ↦ (
            answer 200 (enrolled (length (user_credentials user db) + 1)),
            emit (user_event enroll_webauthn true (some user.id) b.addr)
                (add_credential id user result friendly break_glass now db'),
          )
        ]
      ]

  unfoldable pub enroll_webauthn_verify :
      Uuid → Text → Text → Fields → Text → Bool → Browser → Time → Db → Response × Db
  enroll_webauthn_verify id flow csrf credential friendly break_glass b now db =
      guarded_flow flow csrf b now db (λ row user.
        if not (bootstrap_enroll_allowed (user_credentials user db) row)
        then (refused 403 not_allowed, db)
        else enroll id row user credential friendly break_glass b now db)
