-- ===== src/Admin/Users.antt =====
-- admin/routes/users.py: the administrators' changes to users. The ids and the random part of a new user's
-- external id are drawn outside.
pub mod Revoked
pub mod Protected
pub mod Runs
pub mod Strong
pub mod Ended
use hyproxy.Admin.Accounts.{
  UserCreate, UserPatch, admin_event, credential_of, delete_user_row, drop_credential,
  get_user_or_404, given_or, is_disabled, is_open_of, patch_allowed, patched, save_user,
  user_snapshot, without_totp,
}
use hyproxy.Settings.{Env}
use hyproxy.Idp.Request.{AuthedRequest}
use hyproxy.Admin.Changes.{one_field, record_change, text}
use hyproxy.Store.Changes.{DownloadRequest, PolicyChange}
use hyproxy.Store.{
  AuthEvent, AuthEventType, Db, admin_password_reset, admin_totp_reset, emit, get_user,
}
use hyproxy.Security.Recovery.{is_unused_of}
use hyproxy.Idp.Sessions.{revoke}
use hyproxy.Idp.Refresh.{revoke_for_session}
use hyproxy.Store.Access.{GatewaySession, GuacGrant, RtspGrant}
use hyproxy.Json.{end, Json, field, null, obj, str}
use hyproxy.Admin.Deps.{HttpException, http_error, is_admin_tier}
use hyproxy.Store.Accounts.{
  admin, disabled, standard, AuthCode, AuthTier, LoginFlow, RecoveryCode, RefreshToken,
  RevokeReason, Session, User, UserRole, UserStatus, UserTotp, WebAuthnCredential, active,
  admin_action,
}
use hyproxy.Base.{
  ◌>>=◌, ◌>>◌, Bool, Ip, List, Option, Result, Text, Uuid, [], any, codes, count_where, err, false,
  filter, find?, if◌then◌else◌, is_some, leb, ltb, map, none, not, ok, put, raise_if, some, text_eq,
  true, ℕ, ◌&&◌, ◌++◌, ◌==◌, ◌||◌, ◌∷◌,
}

module _ (e : Env) where
  unfoldable pub revoke_rows : List Session → RevokeReason → Ip → Db → Db
  revoke_rows [] reason addr db = db
  revoke_rows (row ∷ rows) reason addr db =
      revoke_rows rows reason addr (revoke e row reason addr (revoke_for_session e row.id db)).1

  unfoldable pub revoke_user_sessions : Uuid → RevokeReason → Ip → Option Uuid → Db → Db
  revoke_user_sessions user reason addr exclude db =
      revoke_rows (filter (is_open_of user exclude) db.sessions) reason addr db

  unfoldable pub create_user :
      AuthedRequest → UserCreate → Uuid → Text → Db → Result HttpException (User × Db)
  create_user authed body id random db =
      if any (λ (u : User). text_eq (e.lower u.email) (e.lower body.email)) db.users
      then http_error 409 (codes "email already exists")
      else (let user : User = record {
        id = id;
        external_id = codes "user-" ++ random;
        email = body.email;
        display_name = body.display_name;
        status = active;
        auth_tier = body.auth_tier;
        password_hash = e.hash_password body.temp_password;
        is_protected = false;
      } in
          ok (
            user,
            record_change authed.user.id "user" (some id) "create" null (user_snapshot user)
                (record db { users = db.users ++ user ∷ [] }),
          ))

  unfoldable pub patch_user :
      AuthedRequest → Uuid → UserPatch → Ip → Db → Result HttpException (User × Db)
  patch_user authed id body addr db = do
    user ← get_user_or_404 id db
    patch_allowed user (given_or body.auth_tier user.auth_tier) (given_or body.status user.status)
        db
    let user' = patched user body
    let saved = save_user user' db
    let ended =
        if not (is_disabled user.status) && is_disabled user'.status
        then revoke_user_sessions user.id admin_action addr none saved
        else saved
    ok (
      user',
      record_change authed.user.id "user" (some user.id) "update" (user_snapshot user)
          (user_snapshot user') ended,
    )

  unfoldable pub delete_user : AuthedRequest → Uuid → Ip → Db → Result HttpException (Unit {0} × Db)
  delete_user authed id addr db = do
    user ← get_user_or_404 id db
    raise_if (user.id == authed.user.id)
        (record { status_code = 409; detail = codes "cannot delete yourself" })
    raise_if user.is_protected
        (record { status_code = 409; detail = codes "the bootstrap admin cannot be deleted" })
    gone ← delete_user_row user.id (revoke_user_sessions user.id admin_action addr none db)
    ok (tt, record_change authed.user.id "user" (some id) "delete" (user_snapshot user) null gone)

  unfoldable pub delete_credential :
      AuthedRequest → Uuid → Uuid → Db → Result HttpException (Unit {0} × Db)
  delete_credential authed id credential_id db = do
    user ← get_user_or_404 id db
    row ←
        credential_of user id
          (find? (λ (c : WebAuthnCredential). c.id == credential_id) db.webauthn_credentials) db
    ok (
      tt,
      record_change authed.user.id "webauthn_credential" (some credential_id) "delete"
          (obj (
            field (codes "friendly_name") (str row.friendly_name)
              (field (codes "user_id") (str (e.uuid_str id)) end)))
          null (drop_credential credential_id db),
    )

  unfoldable pub revoke_sessions :
      AuthedRequest → Uuid → Ip → Db → Result HttpException (Unit {0} × Db)
  revoke_sessions authed id addr db = do
    user ← get_user_or_404 id db
    ok (
      tt,
      record_change authed.user.id "session" (some id) "update" null
          (one_field "revoked" (text "all")) (revoke_user_sessions id admin_action addr none db),
    )

  unfoldable pub reset_totp : AuthedRequest → Uuid → Ip → Db → Result HttpException (Unit {0} × Db)
  reset_totp authed id addr db = do
    user ← get_user_or_404 id db
    raise_if (is_admin_tier user.auth_tier)
        (record { status_code = 409; detail = codes "admin accounts do not use TOTP" })
    ok (
      tt,
      emit (admin_event admin_totp_reset id addr) (
          record_change authed.user.id "totp_reset" (some id) "update" null null
            (revoke_user_sessions id admin_action addr none (without_totp id db))),
    )

  unfoldable pub reset_password :
      AuthedRequest → Uuid → Text → Ip → Db → Result HttpException (Unit {0} × Db)
  reset_password authed id temp_password addr db = do
    user ← get_user_or_404 id db
    let saved = save_user (record user { password_hash = e.hash_password temp_password }) db
    ok (
      tt,
      emit (admin_event admin_password_reset id addr) (
          record_change authed.user.id "password_reset" (some id) "update" null null
            (revoke_user_sessions id admin_action addr none saved)),
    )

-- The changes that the routes under /api/v1/users make, with their arguments.
pub data UserRequest : Type 0 where
  creates : UserCreate → Uuid → Text → UserRequest
  patches : Uuid → UserPatch → UserRequest
  deletes : Uuid → UserRequest
  deletes_credential : Uuid → Uuid → UserRequest
  revokes_sessions : Uuid → UserRequest
  resets_totp : Uuid → UserRequest
  resets_password : Uuid → Text → UserRequest

abbrev done : {A : Type 0} → Result HttpException (A × Db) → Result HttpException (Unit {0} × Db)
done (err x) = err x
done (ok (a, db)) = ok (tt, db)

unfoldable pub users_route :
    Env → AuthedRequest → UserRequest → Ip → Db → Result HttpException (Unit {0} × Db)
users_route e authed (creates body id random) addr db =
    done (create_user e authed body id random db)
users_route e authed (patches id body) addr db = done (patch_user e authed id body addr db)
users_route e authed (deletes id) addr db = delete_user e authed id addr db
users_route e authed (deletes_credential id cred) addr db = delete_credential e authed id cred db
users_route e authed (revokes_sessions id) addr db = revoke_sessions e authed id addr db
users_route e authed (resets_totp id) addr db = reset_totp e authed id addr db
users_route e authed (resets_password id word) addr db = reset_password e authed id word addr db
