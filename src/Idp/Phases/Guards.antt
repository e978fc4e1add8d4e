-- ===== src/Idp/Phases/Guards.antt =====
-- The guards that the pages and the forms of the second factors share, and the flow behind them.
use hyproxy.Idp.Passkeys.{guarded_flow}
use hyproxy.Idp.Phases.{Act, Advances}
use hyproxy.Idp.SecondFactor.{on_page, on_submit}
use hyproxy.Idp.Phases.Kept.{Kept-SamePhases, onward-Kept}
use mathlib.Core.Path.{subst}
use hyproxy.Settings.{Env}
use hyproxy.Store.{Db}
use hyproxy.Idp.Flows.{verify_flow_csrf, find_flow, get_valid_flow}
use hyproxy.Store.Accounts.{User, totp, LoginFlow, Stage}
use hyproxy.Idp.Phases.Saves.{Advances-SamePhases, Advances-refl, flow_id_of}
use hyproxy.Idp.Login.{Response, flow_user, Browser, get_stage_flow, stage_eq}
use hyproxy.Base.{
  Bool-cases, false, Bool, Ip, Option, Option-cases, Text, Time, [], arith, inl, inr, is_some,
  lookup-key, none, some, true, ◌∷◌, ◌≡◌,
}

-- The flow that a form is submitted on.
abbrev pub IsAt : LoginFlow → Stage → Db → Type 0
IsAt row stage db =
    (find_flow row.id db ≡ some row)
    × (stage_eq row.stage stage ≡ true)
    × (is_some row.user_id ≡ true)

module _ (e : Env) where
  pub get_valid_flow-held :
      (flow : Option Text) (addr : Ip) (now : Time) (enforce_ip : Bool) (db : Db) {row : LoginFlow}
      → get_valid_flow e flow addr now enforce_ip db ≡ some row
      → find_flow row.id db ≡ some row
  unfolding get_valid_flow
  get_valid_flow-held none addr now enforce_ip db h = ground arith
  get_valid_flow-held (some []) addr now enforce_ip db h = ground arith
  get_valid_flow-held (some (c ∷ t)) addr now enforce_ip db {row} h =
      elim (Option-cases (e.parse_uuid (c ∷ t))) [
        | inl malformed ↦ ground arith
        | inr (id, parsed) ↦ elim (Option-cases (find_flow id db)) [
          | inl unknown ↦ ground arith
          | inr (row', found) ↦
              let mine = lookup-key flow_id_of id db.login_flows found in ground arith
        ]
      ]

  pub get_stage_flow-held :
      (flow : Option Text) (stage : Stage) (b : Browser) (now : Time) (db : Db) {row : LoginFlow}
      → get_stage_flow e flow stage b now db ≡ some row
      → (find_flow row.id db ≡ some row)
        × (stage_eq row.stage stage ≡ true)
        × (is_some row.user_id ≡ true)
  unfolding get_stage_flow
  get_stage_flow-held flow stage b now db {row} h =
      elim (Option-cases (get_valid_flow e flow b.addr now false db)) [
        | inl none_valid ↦ ground arith
        | inr (row', valid) ↦
            let held = get_valid_flow-held flow b.addr now false db valid in
            let mine : row' ≡ row = ground arith in
            (subst (λ r. find_flow r.id db ≡ some r) mine held, ground arith, ground arith)
      ]

  -- A page that is right for the flow it is opened on is right for every request.
  pub on_page-Advances :
      {act : Act} (flow : Option Text) (stage : Stage) (b : Browser) (now : Time) (db : Db)
      (page : LoginFlow → User → Response × Db)
      → ((row : LoginFlow) (user : User)
          → find_flow row.id db ≡ some row
          → Advances act db (page row user).1)
      → Advances act db (on_page e flow stage b now db page).1
  unfolding on_page
  on_page-Advances flow stage b now db page each =
      elim (Option-cases (get_stage_flow e flow stage b now db)) [
        | inl closed ↦ rw (closed, on_page) (Advances-refl db)
        | inr (row, found) ↦ elim (Option-cases (flow_user row db)) [
          | inl absent ↦ rw (found, absent, on_page) (Advances-refl db)
          | inr (user, known) ↦
              rw (found, known, on_page)
                (each row user (get_stage_flow-held flow stage b now db found).0)
        ]
      ]

  pub on_submit-Advances :
      {act : Act} (flow csrf : Text) (b : Browser) (now : Time) (db : Db)
      (handle : LoginFlow → Response × Db)
      → ((row : LoginFlow) → IsAt row totp db → Advances act db (handle row).1)
      → Advances act db (on_submit e flow csrf b now db handle).1
  unfolding on_submit
  on_submit-Advances flow csrf b now db handle each =
      let sent_on = Advances-SamePhases (Kept-SamePhases (onward-Kept e b now db)) in
      elim (Option-cases (get_stage_flow e (some flow) totp b now db)) [
        | inl closed ↦ rw (closed, on_submit) sent_on
        | inr (row, found) ↦ elim (Bool-cases (verify_flow_csrf e row csrf)) [
          | inl ours ↦
              rw (found, ours, on_submit)
                (each row (get_stage_flow-held (some flow) totp b now db found))
          | inr forged ↦ rw (found, forged, on_submit) sent_on
        ]
      ]

  pub guarded_flow-Advances :
      {act : Act} (flow csrf : Text) (b : Browser) (now : Time) (db : Db)
      (handle : LoginFlow → User → Response × Db)
      → ((row : LoginFlow) (user : User)
          → IsAt row Stage.webauthn db
          → Advances act db (handle row user).1)
      → Advances act db (guarded_flow e flow csrf b now db handle).1
  unfolding guarded_flow
  guarded_flow-Advances flow csrf b now db handle each =
      elim (Option-cases (get_stage_flow e (some flow) Stage.webauthn b now db)) [
        | inl closed ↦ rw (closed, guarded_flow) (Advances-refl db)
        | inr (row, found) ↦ elim (Bool-cases (verify_flow_csrf e row csrf)) [
          | inr forged ↦ rw (found, forged, guarded_flow) (Advances-refl db)
          | inl ours ↦ elim (Option-cases (flow_user row db)) [
            | inl absent ↦ rw (found, ours, absent, guarded_flow) (Advances-refl db)
            | inr (user, known) ↦
                rw (found, ours, known, guarded_flow)
                  (each row user (get_stage_flow-held (some flow) Stage.webauthn b now db found))
          ]
        ]
      ]
