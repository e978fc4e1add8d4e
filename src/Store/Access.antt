-- ===== src/Store/Access.antt =====
-- db/models.py: resources, policies, the sessions of the data plane, and the audit trail.
use hyproxy.Base.{ℕ, Bool, Option, List, Uuid, Time, Ip, Hash, Name, Text}
use hyproxy.Json.{Fields}
use hyproxy.Policy.Engine.{Action, Reason}

pub data Protocol : Type 0 where
  http https tcp vnc rdp ssh rtsp : Protocol

pub record Resource : Type 0 where
  pub id : Uuid
  pub name : Text
  pub protocol : Protocol
  pub public_host : Option Text
  pub host : Text
  pub path_prefix : Option Text
  pub description : Option Text
  pub ports : List ℕ
  pub enabled : Bool
  pub public_access : Bool
  pub public_paths : Option (List Text)
  pub public_password_hash : Option Hash
  pub public_password_set_at : Option Time

pub record ResourceConnection : Type 0 where
  pub id : Uuid
  pub resource_id : Uuid
  pub protocol : Protocol
  pub hostname : Text
  pub port : ℕ
  pub params_json : Fields
  pub key_id : Option Name
  pub secret_ciphertext : Option Name
  pub secret_keys : List Text

-- The columns of a row of `guac_grants`, and the same columns of `rtsp_grants`.
pub record GuacGrant : Type 0 where
  pub token_hash : Hash
  pub user_id : Uuid
  pub resource_id : Uuid
  pub connection_id : Uuid
  pub source_ip : Ip
  pub expires_at : Time
  pub consumed_at : Option Time

abbrev pub RtspGrant : Type 0
RtspGrant = GuacGrant

pub record Policy : Type 0 where
  pub id : Uuid
  pub role_id : Uuid
  pub resource_id : Uuid
  pub allowed_ports : Option (List ℕ)
  pub allowed_paths : Option (List Text)
  pub action : Action
  pub conditions_json : Fields
  pub enabled : Bool

pub record GatewaySession : Type 0 where
  pub id : Uuid
  pub user_id : Uuid
  pub idp_session_id : Uuid
  pub cookie_secret_hash : Hash
  pub source_ip : Ip
  pub revoked_at : Option Time

pub record GatewayLoginState : Type 0 where
  pub state_hash : Hash
  pub code_verifier : Text
  pub nonce : Text
  pub return_url : Text
  pub source_ip : Ip
  pub expires_at : Time

pub record PublicSession : Type 0 where
  pub id : Uuid
  pub resource_id : Uuid
  pub cookie_secret_hash : Hash
  pub source_ip : Option Ip
  pub expires_at : Time
  pub last_seen_at : Time
  pub revoked_at : Option Time

pub data Scope : Type 0 where
  ip account : Scope

pub record AuthThrottle : Type 0 where
  pub scope : Scope
  pub key : Name
  pub failure_count : ℕ
  pub window_started_at : Time
  pub next_allowed_at : Time

-- The outcome that an audit row records.
pub data Outcome : Type 0 where
  allowed denied : Outcome

-- The reasons of the audit rows and of the answers to the data plane.
pub data AuditReason : Type 0 where
  unknown_resource no_connection unauthenticated user_inactive tier_forbidden : AuditReason
  public_path_unmatched public_unauthenticated public_allowed : AuditReason
  public_throttled public_bad_password public_password_accepted : AuditReason
  guac_disabled rtsp_disabled stream_allowed : AuditReason
  policy : Reason → AuditReason

pub record AuditLog : Type 0 where
  pub user_id : Option Uuid
  pub resource_id : Option Uuid
  pub port : Option ℕ
  pub decision : Outcome
  pub reason : AuditReason
  pub source_ip : Ip
