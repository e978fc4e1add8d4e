-- ===== src/Admin/Accounts.antt =====
-- admin/routes/users.py: what a request on a user names, the guards of the operations on the rows that they find,
-- and what the database does to the rows that reference a user.
use hyproxy.Store.{AuthEvent, AuthEventType, Db, get_user}
use hyproxy.Store.Changes.{DownloadRequest, PolicyChange}
use hyproxy.Security.Recovery.{is_unused_of}
use hyproxy.Store.Access.{GatewaySession, GuacGrant, RtspGrant}
use hyproxy.Admin.Deps.{HttpException, http_error, is_admin_tier}
use hyproxy.Store.Accounts.{
  AuthCode, AuthTier, LoginFlow, RecoveryCode, RefreshToken, Session, User, UserRole, UserStatus,
  UserTotp, WebAuthnCredential, active, admin, disabled, standard,
}
use hyproxy.Json.{Json, end, field, obj, str}
use hyproxy.Base.{
  Bool, Ip, Option, Result, Text, Uuid, any, codes, count_where, false, filter, if◌then◌else◌,
  is_some, leb, ltb, map, none, not, ok, put, some, true, ℕ, ◌&&◌, ◌==◌, ◌||◌,
}

abbrev pub status_text : UserStatus → Text
status_text active = codes "active"
status_text disabled = codes "disabled"

abbrev pub tier_text : AuthTier → Text
tier_text standard = codes "standard"
tier_text admin = codes "admin"

abbrev pub user_snapshot : User → Json
user_snapshot user = obj (
    field (codes "email") (str user.email) (
      field (codes "display_name") (str user.display_name) (
        field (codes "status") (str (status_text user.status))
          (field (codes "auth_tier") (str (tier_text user.auth_tier)) end))))

pub record UserCreate : Type 0 where
  pub email : Text
  pub display_name : Text
  pub auth_tier : AuthTier
  pub temp_password : Text

pub record UserPatch : Type 0 where
  pub display_name : Option Text
  pub status : Option UserStatus
  pub auth_tier : Option AuthTier

abbrev pub given_or {ℓ} : {A : Type ℓ} → Option A → A → A
given_or none a = a
given_or (some b) a = b

abbrev pub is_disabled : UserStatus → Bool
is_disabled active = false
is_disabled disabled = true

-- `await db.flush()` of a user row
abbrev pub save_user : User → Db → Db
save_user row db = record db { users = put (λ (u : User). u.id) row db.users }

abbrev pub get_user_or_404 : Uuid → Db → Result HttpException User
get_user_or_404 id db = elim (get_user id db) [
  | none ↦ http_error 404 (codes "user not found")
  | some user ↦ ok user
]

abbrev pub is_strong_of : Uuid → WebAuthnCredential → Bool
is_strong_of user row = row.user_id == user && not row.break_glass

abbrev pub strong_credential_count : Uuid → Db → ℕ
strong_credential_count user db = count_where (is_strong_of user) db.webauthn_credentials

abbrev excluded : Option Uuid → Uuid → Bool
excluded none id = false
excluded (some other) id = id == other

abbrev pub is_open_of : Uuid → Option Uuid → Session → Bool
is_open_of user exclude row =
    row.user_id == user && not (is_some row.revoked_at) && not (excluded exclude row.id)

-- ON DELETE CASCADE: what references the user, or one of the user's sessions, goes too, and a review by
-- the user is kept without its reviewer.
abbrev pub owns_session : Uuid → Db → Uuid → Bool
owns_session user db id = any (λ (s : Session). s.id == id && s.user_id == user) db.sessions

abbrev pub is_user : Option Uuid → Uuid → Bool
is_user none user = false
is_user (some id) user = id == user

abbrev completed_by : Uuid → Db → Option Uuid → Bool
completed_by user db none = false
completed_by user db (some id) = owns_session user db id

abbrev forget_reviewer : Uuid → DownloadRequest → DownloadRequest
forget_reviewer user row =
    if is_user row.reviewed_by user then record row { reviewed_by = none } else row

unfoldable pub cascade_user : Uuid → Db → Db
cascade_user user db = record db {
  users = filter (λ (u : User). not (u.id == user)) db.users;
  user_roles = filter (λ (r : UserRole). not (r.user_id == user)) db.user_roles;
  guac_grants = filter (λ (g : GuacGrant). not (g.user_id == user)) db.guac_grants;
  rtsp_grants = filter (λ (g : RtspGrant). not (g.user_id == user)) db.rtsp_grants;
  download_requests =
      map (forget_reviewer user)
        (filter (λ (d : DownloadRequest). not (d.user_id == user)) db.download_requests);
  sessions = filter (λ (s : Session). not (s.user_id == user)) db.sessions;
  auth_codes =
      filter (λ (c : AuthCode). not (c.user_id == user || owns_session user db c.session_id))
        db.auth_codes;
  refresh_tokens =
      filter (λ (t : RefreshToken). not (t.user_id == user || owns_session user db t.session_id))
        db.refresh_tokens;
  user_totp = filter (λ (t : UserTotp). not (t.user_id == user)) db.user_totp;
  webauthn_credentials =
      filter (λ (c : WebAuthnCredential). not (c.user_id == user)) db.webauthn_credentials;
  recovery_codes = filter (λ (c : RecoveryCode). not (c.user_id == user)) db.recovery_codes;
  login_flows =
      filter
        (λ (f : LoginFlow).
          not (is_user f.user_id user || completed_by user db f.completed_session_id))
        db.login_flows;
  gateway_sessions =
      filter
        (λ (g : GatewaySession). not (g.user_id == user || owns_session user db g.idp_session_id))
        db.gateway_sessions;
}

-- `db.delete(user)` and the flush: `policy_changes.actor_id` references users without ON DELETE, so the
-- database refuses where the user is the actor of a change.
unfoldable pub delete_user_row : Uuid → Db → Result HttpException Db
delete_user_row user db =
    if any (λ (c : PolicyChange). c.actor_id == user) db.policy_changes
    then http_error 500 (codes "Internal Server Error")
    else ok (cascade_user user db)

-- An event of audit/events.py about a user and no session.
abbrev pub admin_event : AuthEventType → Uuid → Ip → AuthEvent
admin_event type user addr = record {
  event_type = type;
  user_id = some user;
  session_id = none;
  client_id = none;
  source_ip = addr;
  success = true;
}

-- The two guards of `patch_user`.
unfoldable pub patch_allowed : User → AuthTier → UserStatus → Db → Result HttpException (Unit {0})
patch_allowed user tier status db =
    if user.is_protected && (is_disabled status || not (is_admin_tier tier))
    then http_error 409 (codes "the bootstrap admin cannot be disabled or demoted")
    else if is_admin_tier tier
        && not (is_admin_tier user.auth_tier)
        && ltb (strong_credential_count user.id db) 2
    then http_error 409 (codes "admin tier requires two enrolled non-break-glass passkeys")
    else ok tt

abbrev pub patched : User → UserPatch → User
patched user body = record user {
  display_name = given_or body.display_name user.display_name;
  auth_tier = given_or body.auth_tier user.auth_tier;
  status = given_or body.status user.status;
}

-- The guards of `delete_credential`, on the row that is found.
unfoldable pub credential_of :
    User → Uuid → Option WebAuthnCredential → Db → Result HttpException WebAuthnCredential
credential_of user id none db = http_error 404 (codes "credential not found")
credential_of user id (some row) db =
    if not (row.user_id == id)
    then http_error 404 (codes "credential not found")
    else if is_admin_tier user.auth_tier
        && not (is_disabled user.status)
        && not row.break_glass
        && leb (strong_credential_count id db) 2
    then http_error 409 (codes "active admin must keep two non-break-glass passkeys")
    else ok row

abbrev pub drop_credential : Uuid → Db → Db
drop_credential id db = record db {
  webauthn_credentials =
      filter (λ (c : WebAuthnCredential). not (c.id == id)) db.webauthn_credentials;
}

-- The two deletions of `reset_totp`.
abbrev pub without_totp : Uuid → Db → Db
without_totp user db = record db {
  user_totp = filter (λ (t : UserTotp). not (t.user_id == user)) db.user_totp;
  recovery_codes = filter (λ (c : RecoveryCode). not (is_unused_of user c)) db.recovery_codes;
}
