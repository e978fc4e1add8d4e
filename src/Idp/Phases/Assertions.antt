-- ===== src/Idp/Phases/Assertions.antt =====
-- What the handlers of idp/web/webauthn_routes.py do to the flows.
use hyproxy.Idp.Passkeys.{enroll_webauthn_page, webauthn_page}
use hyproxy.Settings.{Env}
use hyproxy.Idp.Phases.Kept.{
  Kept, Kept-SamePhases, Kept-refl, resume_completed_login-Kept, second_factor_throttle-Kept,
}
use hyproxy.Idp.Phases.{Advances, unrelated, shows, stay}
use hyproxy.Idp.Login.{user_event, Browser, LoginDraws, clear_throttle, second_factor_throttle}
use hyproxy.Store.{Db, emit, login_webauthn_success}
use hyproxy.Idp.Phases.Guards.{IsAt, guarded_flow-Advances, on_page-Advances}
use hyproxy.Idp.Passkeys.{
  user_credentials, assertion_used, bootstrap_enroll_allowed, break_glass_event, check_assertion,
  enroll, enroll_webauthn_options, enroll_webauthn_verify, is_some_list, passkey_login, verified,
  webauthn_options, webauthn_verify,
}
use hyproxy.Store.Accounts.{Amr, LoginFlow, Stage, User, WebAuthnCredential, pwd}
use hyproxy.Json.{Fields}
use hyproxy.Idp.Flows.{find_flow, save_flow}
use hyproxy.Idp.Phases.Saves.{
  Advances-SamePhases, Advances-refl, SamePhases-Advances, SamePhases-trans, save_flow-SamePhases,
  save_flow-held,
}
use hyproxy.Base.{
  Bool, Bool-cases, Name, Option, Option-cases, Text, Time, Uuid, [], arith, inl, inr, none, refl,
  some, true, ℕ, ◌∷◌, ◌≡◌,
}
use hyproxy.Idp.Phases.Factors.{finalize_login-Advances, rotate_csrf-Advances, save_after}

module _ (e : Env) where
  pub webauthn_page-Advances :
      (draws : LoginDraws) (flow : Option Text) (b : Browser) (now : Time) (db : Db)
      → Advances unrelated db (webauthn_page e draws flow b now db).1
  unfolding webauthn_page
  webauthn_page-Advances draws flow b now db =
      on_page-Advances e flow Stage.webauthn b now db _ (λ row user held.
        elim (Bool-cases (is_some_list (user_credentials user db))) [
          | inl some_cred ↦
              rw some_cred (rotate_csrf-Advances e row db db held (Kept-refl db) draws.csrf)
          | inr no_cred ↦ rw no_cred (Advances-refl db)
        ])

  pub webauthn_options-Advances :
      (challenge : Name) (flow csrf : Text) (b : Browser) (now : Time) (db : Db)
      → Advances unrelated db (webauthn_options e challenge flow csrf b now db).1
  unfolding webauthn_options
  webauthn_options-Advances challenge flow csrf b now db =
      guarded_flow-Advances e flow csrf b now db _ (λ row user at_stage.
        elim (Bool-cases (is_some_list (user_credentials user db))) [
          | inl some_cred ↦ rw some_cred (
              save_after e row db db at_stage.0 (Kept-refl db)
                (record row { webauthn_challenge = some challenge }) refl stay)
          | inr no_cred ↦ rw no_cred (Advances-refl db)
        ])

  passkey_login-Advances :
      (draws : LoginDraws) (row : LoginFlow) (user : User) (cred : WebAuthnCredential)
      (sign_count : ℕ) (b : Browser) (now : Time) (db : Db)
      → IsAt row Stage.webauthn db
      → row.completed_session_id ≡ none
      → Advances
          (shows Stage.webauthn)
          db
          (passkey_login e draws row user cred sign_count b now db).1
  unfolding passkey_login break_glass_event
  passkey_login-Advances draws row user cred sign_count b now db at_stage fresh =
      let told : Kept db (
          break_glass_event e cred user b (
            emit (user_event login_webauthn_success true (some user.id) b.addr)
              (clear_throttle user (assertion_used cred sign_count now db)))) =
        ground arith in
      finalize_login-Advances e draws row Stage.webauthn user (pwd ∷ Amr.webauthn ∷ []) b.addr now
        db _ at_stage refl fresh told

  check_assertion-Advances :
      (draws : LoginDraws) (row : LoginFlow) (user : User) (credential : Fields) (b : Browser)
      (now : Time) (db db1 : Db)
      → IsAt row Stage.webauthn db
      → row.completed_session_id ≡ none
      → Kept db db1
      → Advances (shows Stage.webauthn) db (check_assertion e draws row user credential b now db1).1
  unfolding check_assertion
  check_assertion-Advances draws row user credential b now db db1 at_stage fresh k =
      let held : find_flow row.id db1 ≡ some row = ground (arith, k, at_stage.0) in
      let row' = record row { webauthn_challenge = none } in
      let spent =
        SamePhases-trans (Kept-SamePhases k) (save_flow-SamePhases row row' db1 held refl refl) in
      let after = save_flow-held row row' db1 held refl in
      elim (Option-cases row.webauthn_challenge) [
        | inl idle ↦ rw (idle, check_assertion) (Advances-SamePhases spent)
        | inr (challenge, asked) ↦
            elim (Option-cases (verified e credential challenge user (save_flow row' db1))) [
              | inl refuted ↦
                  rw (asked, refuted, check_assertion)
                    (Advances-SamePhases (
                      SamePhases-trans spent
                        (Kept-SamePhases (record { same_flows = refl; kept_users = refl }))))
              | inr (proof, shown) ↦
                  rw (asked, shown, check_assertion)
                    (SamePhases-Advances spent (
                      passkey_login-Advances draws row' user proof.0 proof.1 b now
                        (save_flow row' db1) (after, at_stage.1, at_stage.2) fresh))
            ]
      ]

  pub webauthn_verify-Advances :
      (draws : LoginDraws) (flow csrf : Text) (credential : Fields) (b : Browser) (now : Time)
      (db : Db)
      → Advances (shows Stage.webauthn) db (webauthn_verify e draws flow csrf credential b now db).1
  unfolding webauthn_verify
  webauthn_verify-Advances draws flow csrf credential b now db =
      guarded_flow-Advances e flow csrf b now db _ (λ row user at_stage.
        elim (Option-cases row.completed_session_id) [
          | inr (session, over) ↦ rw over (
              Advances-SamePhases
                (Kept-SamePhases (resume_completed_login-Kept e row draws.session_secret b now db)))
          | inl fresh ↦
              let k = second_factor_throttle-Kept e user b now db in
              elim (Option-cases (second_factor_throttle user b now db).0) [
                | inl free ↦
                    rw (fresh, free)
                      (check_assertion-Advances draws row user credential b now db
                        (second_factor_throttle user b now db).1 at_stage fresh k)
                | inr (r, slow) ↦ rw (fresh, slow) (Advances-SamePhases (Kept-SamePhases k))
              ]
        ])

  pub enroll_webauthn_page-Advances :
      (draws : LoginDraws) (flow : Option Text) (b : Browser) (now : Time) (db : Db)
      → Advances unrelated db (enroll_webauthn_page e draws flow b now db).1
  unfolding enroll_webauthn_page
  enroll_webauthn_page-Advances draws flow b now db =
      on_page-Advances e flow Stage.webauthn b now db _ (λ row user held.
        elim (Bool-cases (bootstrap_enroll_allowed (user_credentials user db) row)) [
          | inl first ↦ rw first (rotate_csrf-Advances e row db db held (Kept-refl db) draws.csrf)
          | inr late ↦ rw late (Advances-refl db)
        ])

  pub enroll_webauthn_options-Advances :
      (challenge : Name) (flow csrf : Text) (b : Browser) (now : Time) (db : Db)
      → Advances unrelated db (enroll_webauthn_options e challenge flow csrf b now db).1
  unfolding enroll_webauthn_options
  enroll_webauthn_options-Advances challenge flow csrf b now db =
      guarded_flow-Advances e flow csrf b now db _ (λ row user at_stage.
        elim (Bool-cases (bootstrap_enroll_allowed (user_credentials user db) row)) [
          | inl first ↦ rw first (
              save_after e row db db at_stage.0 (Kept-refl db)
                (record row { webauthn_challenge = some challenge }) refl stay)
          | inr late ↦ rw late (Advances-refl db)
        ])

  enroll-Advances :
      (id : Uuid) (row : LoginFlow) (user : User) (credential : Fields) (friendly : Text)
      (break_glass : Bool) (b : Browser) (now : Time) (db : Db)
      → find_flow row.id db ≡ some row
      → Advances unrelated db (enroll e id row user credential friendly break_glass b now db).1
  unfolding enroll
  enroll-Advances id row user credential friendly break_glass b now db held =
      let row' = record row { webauthn_challenge = none } in
      let spent = save_flow-SamePhases row row' db held refl refl in
      elim (Option-cases row.webauthn_challenge) [
        | inl idle ↦ rw (idle, enroll) (Advances-SamePhases spent)
        | inr (challenge, asked) ↦
            elim (Option-cases (e.verify_registration (e.dump credential) challenge)) [
              | inl refuted ↦
                  rw (asked, refuted, enroll)
                    (Advances-SamePhases (
                      SamePhases-trans spent
                        (Kept-SamePhases (record { same_flows = refl; kept_users = refl }))))
              | inr (result, shown) ↦
                  rw (asked, shown, enroll)
                    (Advances-SamePhases (
                      SamePhases-trans spent
                        (Kept-SamePhases (record { same_flows = refl; kept_users = refl }))))
            ]
      ]

  pub enroll_webauthn_verify-Advances :
      (id : Uuid) (flow csrf : Text) (credential : Fields) (friendly : Text) (break_glass : Bool)
      (b : Browser) (now : Time) (db : Db)
      → Advances unrelated db
          (enroll_webauthn_verify e id flow csrf credential friendly break_glass b now db).1
  unfolding enroll_webauthn_verify
  enroll_webauthn_verify-Advances id flow csrf credential friendly break_glass b now db =
      guarded_flow-Advances e flow csrf b now db _ (λ row user at_stage.
        elim (Bool-cases (bootstrap_enroll_allowed (user_credentials user db) row)) [
          | inl first ↦
              rw first
                (enroll-Advances id row user credential friendly break_glass b now db at_stage.0)
          | inr late ↦ rw late (Advances-refl db)
        ])
