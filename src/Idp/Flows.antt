-- ===== src/Idp/Flows.antt =====
-- idp/flows.py: the rows of a login in progress.
use hyproxy.Settings.{Env}
use hyproxy.Store.{Db}
use hyproxy.Store.Accounts.{LoginFlow, Stage, User, admin, password, standard, totp}
use hyproxy.Base.{
  Bool, Ip, List, Option, Text, Time, Uuid, [], false, filter, find?, if◌then◌else◌, is_some, leb,
  none, not, seconds, some, true, update_where, ◌&&◌, ◌++◌, ◌+◌, ◌==◌, ◌∷◌,
}

abbrev pub find_flow : Uuid → Db → Option LoginFlow
find_flow id db = find? (λ (f : LoginFlow). f.id == id) db.login_flows

-- What a flush writes of a row that the code holds.
abbrev pub save_flow : LoginFlow → Db → Db
save_flow row db = record db {
  login_flows = update_where (λ (f : LoginFlow). f.id == row.id) (λ _. row) db.login_flows;
}

unfoldable pub required_second_factor : User → Stage
required_second_factor user = elim user.auth_tier [ admin ↦ Stage.webauthn | standard ↦ totp ]

unfoldable pub delete_flow : LoginFlow → Db → Db
delete_flow row db = record db {
  login_flows = filter (λ (f : LoginFlow). not (f.id == row.id)) db.login_flows;
}

module _ (e : Env) where
  -- The id is the database's, and the token is what `new_token` drew.
  unfoldable pub create_flow : Ip → List (Text × Text) → Time → Uuid → Text → Db → LoginFlow × Db
  create_flow addr oidc_request now id csrf db =
      let row : LoginFlow = record {
        id = id;
        csrf_token_hash = e.sha256_hex csrf;
        source_ip = addr;
        stage = password;
        user_id = none;
        webauthn_challenge = none;
        recovery_used = false;
        oidc_request = oidc_request;
        completed_session_id = none;
        created_at = e.utcnow;
        expires_at = now + seconds e.login_flow_ttl;
      } in
      (row, record db { login_flows = db.login_flows ++ row ∷ [] })

  -- The guards on a row that is found.
  unfoldable pub flow_fits : LoginFlow → Ip → Time → Bool → Bool
  flow_fits row addr now enforce_ip =
      if leb row.expires_at now
      then false
      else if enforce_ip && is_some row.user_id && not (row.source_ip == addr)
      then false
      else true

  unfoldable pub get_valid_flow : Option Text → Ip → Time → Bool → Db → Option LoginFlow
  get_valid_flow none addr now enforce_ip db = none
  get_valid_flow (some []) addr now enforce_ip db = none
  get_valid_flow (some (c ∷ t)) addr now enforce_ip db = elim (e.parse_uuid (c ∷ t)) [
    | none ↦ none
    | some id ↦ elim (find_flow id db) [
      | none ↦ none
      | some row ↦ if flow_fits row addr now enforce_ip then some row else none
    ]
  ]

  unfoldable pub verify_flow_csrf : LoginFlow → Text → Bool
  verify_flow_csrf row csrf = e.sha256_hex csrf == row.csrf_token_hash

  unfoldable pub rotate_csrf : LoginFlow → Text → Db → LoginFlow × Db
  rotate_csrf row csrf db =
      let row' = record row { csrf_token_hash = e.sha256_hex csrf } in (row', save_flow row' db)
