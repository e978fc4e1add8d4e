-- ===== src/Store/Accounts.antt =====
-- db/models.py: users, their sessions, and what the identity provider issues.
use hyproxy.Base.{ℕ, Bool, Option, List, Uuid, Time, Ip, Hash, Name, Text}

pub data UserStatus : Type 0 where
  active disabled : UserStatus

pub data AuthTier : Type 0 where
  standard admin : AuthTier

pub record User : Type 0 where
  pub id : Uuid
  pub external_id : Text
  pub email : Text
  pub display_name : Text
  pub status : UserStatus
  pub auth_tier : AuthTier
  pub password_hash : Hash
  pub is_protected : Bool

pub record Role : Type 0 where
  pub id : Uuid
  pub name : Text
  pub description : Option Text

pub record UserRole : Type 0 where
  pub user_id : Uuid
  pub role_id : Uuid

-- The reasons that `revoke` is called with.
pub data RevokeReason : Type 0 where
  idle_timeout auth_code_replay refresh_reuse revoked_by_client logout : RevokeReason
  admin_action password_change : RevokeReason

-- How the user authenticated.
pub data Amr : Type 0 where
  pwd otp rc webauthn : Amr

pub record Session : Type 0 where
  pub id : Uuid
  pub user_id : Uuid
  pub cookie_secret_hash : Hash
  pub source_ip : Ip
  pub auth_tier : AuthTier
  pub amr : List Amr
  pub mfa_verified : Bool
  pub issued_at : Time
  pub last_seen_at : Time
  pub absolute_expires_at : Time
  pub step_up_verified_at : Option Time
  pub stepup_challenge : Option Name
  pub stale : Bool
  pub revoked_at : Option Time
  pub revoke_reason : Option RevokeReason

pub record OAuthClient : Type 0 where
  pub client_id : Name
  pub redirect_uris : List Text
  pub allowed_scopes : List Text
  pub enabled : Bool

pub record AuthCode : Type 0 where
  pub code_hash : Hash
  pub client_id : Name
  pub user_id : Uuid
  pub session_id : Uuid
  pub redirect_uri : Text
  pub scope : Text
  pub nonce : Text
  pub code_challenge : Text
  pub auth_time : Time
  pub expires_at : Time
  pub consumed_at : Option Time

pub record RefreshToken : Type 0 where
  pub id : Uuid
  pub token_hash : Hash
  pub session_id : Uuid
  pub family_id : Uuid
  pub parent_id : Option Uuid
  pub client_id : Name
  pub user_id : Uuid
  pub dpop_jkt : Name
  pub scope : Text
  pub issued_at : Time
  pub expires_at : Time
  pub used_at : Option Time
  pub revoked_at : Option Time

pub record DpopJtiSeen : Type 0 where
  pub jkt : Name
  pub jti : Text
  pub expires_at : Time

pub data KeyState : Type 0 where
  pending active retiring retired : KeyState

pub record SigningKey : Type 0 where
  pub kid : Name
  pub state : KeyState
  pub created_at : Time
  pub activated_at : Option Time
  pub retiring_at : Option Time
  pub retired_at : Option Time

-- The secret is sealed.
pub record UserTotp : Type 0 where
  pub user_id : Uuid
  pub secret_ciphertext : Name
  pub created_at : Time
  pub confirmed_at : Option Time

pub record WebAuthnCredential : Type 0 where
  pub id : Uuid
  pub user_id : Uuid
  pub credential_id : Text
  pub public_key : Name
  pub sign_count : ℕ
  pub friendly_name : Text
  pub break_glass : Bool
  pub created_at : Time
  pub last_used_at : Option Time

pub record RecoveryCode : Type 0 where
  pub id : Uuid
  pub user_id : Uuid
  pub batch_id : Uuid
  pub code_hash : Hash
  pub used_at : Option Time

pub data Stage : Type 0 where
  password totp webauthn done : Stage

pub record LoginFlow : Type 0 where
  pub id : Uuid
  pub csrf_token_hash : Hash
  pub source_ip : Ip
  pub stage : Stage
  pub user_id : Option Uuid
  pub webauthn_challenge : Option Name
  pub recovery_used : Bool
  pub oidc_request : List (Text × Text)
  pub completed_session_id : Option Uuid
  pub created_at : Time
  pub expires_at : Time
