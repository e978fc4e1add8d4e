-- ===== src/Store.antt =====
-- The database: its tables (db/models.py), and the two trails that the services append to.
pub mod Accounts
pub mod Access
pub mod Changes
pub use Accounts.*
pub use Changes.{PolicyChange, DownloadRequest}
pub use Access.{
  Protocol, http, https, tcp, vnc, rdp, ssh, rtsp, Resource, ResourceConnection, GuacGrant,
  RtspGrant, Policy, GatewaySession, GatewayLoginState, PublicSession, Scope, ip, account,
  AuthThrottle, Outcome, AuditReason, AuditLog,
}
use hyproxy.Base.{
  ℕ, Bool, Option, none, some, List, [], ◌∷◌, ◌++◌, Uuid, Ip, Name, Text, find?, update_where, ◌==◌,
}

-- The events of `AuthEventType` that the modelled code emits.
pub data AuthEventType : Type 0 where
  oidc_code_issued oidc_code_replay_detected oidc_token_issued oidc_token_refreshed : AuthEventType
  oidc_refresh_reuse_detected oidc_token_revoked session_created session_revoked : AuthEventType
  session_stale_ip session_idle_timeout throttle_applied : AuthEventType
  login_password_success login_password_failure login_totp_success login_totp_failure :
      AuthEventType
  login_webauthn_success login_webauthn_failure login_recovery_code_used : AuthEventType
  login_recovery_code_failure login_break_glass_used enroll_totp enroll_webauthn : AuthEventType
  stepup_success stepup_failure : AuthEventType
  admin_totp_reset admin_password_reset user_password_changed user_password_change_failed :
      AuthEventType
  download_requested download_submitted download_submit_failed download_approved : AuthEventType
  download_denied : AuthEventType

-- A row of `auth_events`, without its detail.
pub record AuthEvent : Type 0 where
  pub event_type : AuthEventType
  pub user_id : Option Uuid
  pub session_id : Option Uuid
  pub client_id : Option Name
  pub source_ip : Ip
  pub success : Bool

pub record Db : Type 0 where
  pub users : List User
  pub roles : List Role
  pub user_roles : List UserRole
  pub resources : List Resource
  pub connections : List ResourceConnection
  pub policies : List Policy
  pub guac_grants : List GuacGrant
  pub rtsp_grants : List RtspGrant
  pub sessions : List Session
  pub oauth_clients : List OAuthClient
  pub auth_codes : List AuthCode
  pub refresh_tokens : List RefreshToken
  pub jti_seen : List DpopJtiSeen
  pub login_flows : List LoginFlow
  pub signing_keys : List SigningKey
  pub recovery_codes : List RecoveryCode
  pub user_totp : List UserTotp
  pub webauthn_credentials : List WebAuthnCredential
  pub gateway_states : List GatewayLoginState
  pub gateway_sessions : List GatewaySession
  pub public_sessions : List PublicSession
  pub auth_throttle : List AuthThrottle
  pub audit_log : List AuditLog
  pub auth_events : List AuthEvent
  pub policy_changes : List PolicyChange
  pub download_requests : List DownloadRequest

-- `emit`: one more event.
abbrev pub emit : AuthEvent → Db → Db
emit event db = record db { auth_events = db.auth_events ++ event ∷ [] }

-- `_audit`: one more access decision.
abbrev pub audit : AuditLog → Db → Db
audit row db = record db { audit_log = db.audit_log ++ row ∷ [] }

-- `db.get(Session, id)` and `db.get(User, id)`
abbrev pub get_session : Uuid → Db → Option Session
get_session id db = find? (λ (s : Session). s.id == id) db.sessions

abbrev pub get_user : Uuid → Db → Option User
get_user id db = find? (λ (u : User). u.id == id) db.users

-- What a flush writes of a session row that the code holds.
abbrev pub save_session : Session → Db → Db
save_session row db = record db {
  sessions = update_where (λ (s : Session). s.id == row.id) (λ _. row) db.sessions;
}

abbrev pub empty : Db
empty = record {
  users = [];
  roles = [];
  user_roles = [];
  resources = [];
  connections = [];
  policies = [];
  guac_grants = [];
  rtsp_grants = [];
  sessions = [];
  oauth_clients = [];
  auth_codes = [];
  refresh_tokens = [];
  jti_seen = [];
  login_flows = [];
  signing_keys = [];
  recovery_codes = [];
  user_totp = [];
  webauthn_credentials = [];
  gateway_states = [];
  gateway_sessions = [];
  public_sessions = [];
  auth_throttle = [];
  audit_log = [];
  auth_events = [];
  policy_changes = [];
  download_requests = [];
}
