-- ===== src/Idp/Phases/Enrollment.antt =====
-- What the enrollment of a one-time code and the recovery codes, idp/web/routes.py, do to the flows.
use hyproxy.Idp.Phases.Factors.{
  delete_after, rotate_csrf-Advances, save_after, unless_throttled-Advances, with_user-Advances,
}
use hyproxy.Security.Recovery.{consume, issue_batch}
use hyproxy.Settings.{Env}
use hyproxy.Idp.Sessions.{create_session}
use hyproxy.Idp.Phases.Guards.{get_stage_flow-held, on_submit-Advances, IsAt, on_page-Advances}
use hyproxy.Store.{Db}
use hyproxy.Store.Accounts.{AuthTier, admin, standard, LoginFlow, User, totp}
use hyproxy.Idp.Login.{get_stage_flow, Browser, LoginDraws}
use hyproxy.Idp.SecondFactor.{
  show_enroll_totp, check_enrollment, check_recovery, enroll_totp_form, enroll_totp_submit,
  pending_secret, recovery_form, recovery_submit,
}
use hyproxy.Idp.Phases.Saves.{Advances-SamePhases, Advances-refl}
use hyproxy.Security.Totp.{store_pending_secret, decrypt_secret, verify_code, get_totp_row}
use hyproxy.Idp.Phases.Kept.{consume-Kept, Kept, Kept-SamePhases, Kept-refl}
use hyproxy.Idp.Phases.{enrolls, unrelated, Advances, stay}
use hyproxy.Base.{
  ◌⊎◌, Bool-cases, strip, Option, Option-cases, Text, Time, arith, false, inl, inr, is_some, refl,
  true, ◌≡◌,
}

tier_cases : (tier : AuthTier) → (tier ≡ admin) ⊎ (tier ≡ standard)
tier_cases admin = inl refl
tier_cases standard = inr refl

module _ (e : Env) where
  pending_secret-Kept :
      (draws : LoginDraws) (user : User) (db : Db) → Kept db (pending_secret e draws user db).1
  unfolding pending_secret store_pending_secret
  pending_secret-Kept draws user db = ground arith

  pub enroll_totp_form-Advances :
      (draws : LoginDraws) (flow : Option Text) (b : Browser) (now : Time) (db : Db)
      → Advances unrelated db (enroll_totp_form e draws flow b now db).1
  unfolding enroll_totp_form show_enroll_totp
  enroll_totp_form-Advances draws flow b now db =
      on_page-Advances e flow totp b now db _ (λ row user held. elim (tier_cases user.auth_tier) [
        | inl is_admin ↦ rw is_admin (Advances-refl db)
        | inr is_standard ↦ elim (Option-cases (get_totp_row user.id true db)) [
          | inr (factor, found) ↦ rw (is_standard, found, show_enroll_totp) (Advances-refl db)
          | inl unconfirmed ↦
              rw (is_standard, unconfirmed, show_enroll_totp)
                (rotate_csrf-Advances e row db _ held (pending_secret-Kept draws user db)
                  draws.csrf)
        ]
      ])

  check_enrollment-Advances :
      (draws : LoginDraws) (row : LoginFlow) (user : User) (code : Text) (b : Browser) (now : Time)
      (db db1 : Db)
      → IsAt row totp db
      → Kept db db1
      → Advances enrolls db (check_enrollment e draws row user code b now db1).1
  unfolding check_enrollment issue_batch create_session
  check_enrollment-Advances draws row user code b now db db1 at_stage k =
      elim (Option-cases (get_totp_row user.id false db1)) [
        | inl absent ↦ rw (absent, check_enrollment) (Advances-SamePhases (Kept-SamePhases k))
        | inr (factor, found) ↦ elim (Bool-cases (is_some factor.confirmed_at)) [
          | inl confirmed ↦
              rw (found, confirmed, check_enrollment) (Advances-SamePhases (Kept-SamePhases k))
          | inr in_progress ↦
              elim (Bool-cases (verify_code e (decrypt_secret e factor) (strip code))) [
                | inl right ↦
                    rw (found, in_progress, right, check_enrollment)
                      (delete_after e row db _ at_stage.0
                        (record { same_flows = k.same_flows; kept_users = k.kept_users }) at_stage.1
                        at_stage.2)
                | inr wrong ↦
                    rw (found, in_progress, wrong, check_enrollment)
                      (rotate_csrf-Advances e row db _ at_stage.0
                        (record { same_flows = k.same_flows; kept_users = k.kept_users })
                        draws.csrf)
              ]
        ]
      ]

  pub enroll_totp_submit-Advances :
      (draws : LoginDraws) (flow csrf code : Text) (b : Browser) (now : Time) (db : Db)
      → Advances enrolls db (enroll_totp_submit e draws flow csrf code b now db).1
  unfolding enroll_totp_submit
  enroll_totp_submit-Advances draws flow csrf code b now db =
      on_submit-Advances e flow csrf b now db _ (λ row at_stage.
        with_user-Advances e row db _ (λ user. elim (tier_cases user.auth_tier) [
          | inl is_admin ↦ rw is_admin (Advances-refl db)
          | inr is_standard ↦ rw is_standard (
              unless_throttled-Advances e user b now db _
                (λ db' k. check_enrollment-Advances draws row user code b now db db' at_stage k))
        ]))

  pub recovery_form-Advances :
      (draws : LoginDraws) (flow : Option Text) (b : Browser) (now : Time) (db : Db)
      → Advances unrelated db (recovery_form e draws flow b now db).1
  unfolding recovery_form
  recovery_form-Advances draws flow b now db =
      elim (Option-cases (get_stage_flow e flow totp b now db)) [
        | inl closed ↦ rw (closed, recovery_form) (Advances-refl db)
        | inr (row, found) ↦
            rw (found, recovery_form)
              (rotate_csrf-Advances e row db db (get_stage_flow-held e flow totp b now db found).0
                (Kept-refl db) draws.csrf)
      ]

  check_recovery-Advances :
      (draws : LoginDraws) (row : LoginFlow) (user : User) (code : Text) (b : Browser) (now : Time)
      (db db1 : Db)
      → IsAt row totp db
      → Kept db db1
      → Advances unrelated db (check_recovery e draws row user code b now db1).1
  unfolding check_recovery
  check_recovery-Advances draws row user code b now db db1 at_stage k =
      let spent = consume-Kept e user.id code now db1 in
      let k' : Kept db (consume e user.id code now db1).1 = ground (arith, k, spent) in
      elim (Bool-cases (consume e user.id code now db1).0) [
        | inl used ↦
            rw (used, check_recovery)
              (save_after e row db _ at_stage.0
                (record { same_flows = k'.same_flows; kept_users = k'.kept_users })
                (record row { recovery_used = true }) refl stay)
        | inr wrong ↦
            rw (wrong, check_recovery)
              (rotate_csrf-Advances e row db _ at_stage.0
                (record { same_flows = k'.same_flows; kept_users = k'.kept_users }) draws.csrf)
      ]

  pub recovery_submit-Advances :
      (draws : LoginDraws) (flow csrf code : Text) (b : Browser) (now : Time) (db : Db)
      → Advances unrelated db (recovery_submit e draws flow csrf code b now db).1
  unfolding recovery_submit
  recovery_submit-Advances draws flow csrf code b now db =
      on_submit-Advances e flow csrf b now db _ (λ row at_stage.
        with_user-Advances e row db _ (λ user.
          unless_throttled-Advances e user b now db _
            (λ db' k. check_recovery-Advances draws row user code b now db db' at_stage k)))
