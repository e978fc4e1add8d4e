-- ===== src/Tests/Administration.antt =====
-- The theorems on the administrators' API, at the small deployment with an administrator in it.
use hyproxy.Idp.Refresh.{revoke_for_session}
use hyproxy.Idp.Sessions.{check_liveness}
use hyproxy.Idp.Authorize.{given}
use hyproxy.Tests.{reader, session, db, env, shared}
use hyproxy.Policy.Engine.{deny}
use hyproxy.Admin.Users.Runs.{untouched}
use hyproxy.Idp.Token.{AccessToken, mint_access_token}
use hyproxy.Store.{get_user, Db}
use hyproxy.Admin.Rules.{create_policy}
use hyproxy.Admin.Users.Revoked.{IsSignedOut}
use hyproxy.Authz.Decision.{role_rows, evaluate_access}
use hyproxy.Admin.Users.Protected.{IsBootstrap}
use hyproxy.Admin.Users.Runs.{Administered-IsBootstrap, call}
use hyproxy.Admin.Deps.{
  recent_stepup, lan_networks, require_recent_stepup, require_lan_client, check_token,
  require_admin, stepup_route, Call, HttpException, commit, is_admin_tier,
}
use hyproxy.Admin.Shapes.{read_patch, ResourcePatch}
use hyproxy.Idp.Replay.{verify_proof, DpopProof}
use hyproxy.Json.{end}
use hyproxy.Idp.Request.{
  check_session, verify_access_token, check_request, check_proof, AuthedRequest,
}
use hyproxy.Admin.Users.Ended.{users_route-IsSignedOut}
use hyproxy.Store.Accounts.{
  KeyState, Session, SigningKey, User, WebAuthnCredential, active, admin, disabled,
}
use hyproxy.Admin.Resources.Coherent.{
  AllCoherent, edits, resources_route, resources_route-AllCoherent,
}
use hyproxy.Admin.Resources.{patch_host, patch_resource}
use hyproxy.Admin.Targets.{flush_name, validate_public_shape}
use hyproxy.Admin.Rules.Effects.{create_policy-denies}
use hyproxy.Authz.PublicGate.{resolve_public_session}
use hyproxy.Admin.Users.Strong.{HasOwnKeys, patch_user-reactivates, users_route-two_passkeys}
use hyproxy.Store.Access.{Policy, Resource}
use hyproxy.Admin.Deps.Guards.{IsAdminCall, stepup_route-IsAdminCall}
use hyproxy.Admin.Users.{
  revoke_rows, revoke_user_sessions, revoke_sessions, delete_credential, deletes_credential,
  patch_user, revokes_sessions, users_route,
}
use hyproxy.Admin.Accounts.{credential_of, UserPatch, is_disabled, strong_credential_count}
use hyproxy.Admin.Resources.Closed.{patch_resource-closes}
use hyproxy.Base.{
  inl, split_on, text_eq, starts_with, strip, Name, Option, Result, Text, Uuid, [], ap, arith,
  codes, count_where, err, false, is_some, none, ok, refl, some, true, ◌∷◌, ◌≡◌, ◌≢◌, ◌≤◌,
}

abbrev pub boss : User
boss = record reader {
  id = 1;
  email = codes "boss@example";
  auth_tier = admin;
  is_protected = true;
}

abbrev pub desk : Session
desk = record session {
  id = b'd';
  user_id = 1;
  source_ip = 10;
  auth_tier = admin;
  step_up_verified_at = some 900;
}

abbrev key : SigningKey
key = record {
  kid = 1;
  state = KeyState.active;
  created_at = 10;
  activated_at = some 20;
  retiring_at = none;
  retired_at = none;
}

abbrev pub office : Db
office = record db {
  users = boss ∷ reader ∷ [];
  sessions = desk ∷ session ∷ [];
  signing_keys = key ∷ [];
}

abbrev pub ticket : AccessToken
ticket = mint_access_token env key boss desk 1 (codes "openid") 4 5 1000

abbrev pub by_boss : AuthedRequest
by_boss = record { session = desk; user = boss; claims = ticket }

abbrev read_token : Text → Option AccessToken
read_token t = some ticket

abbrev read_proof : Text → Text → Text → Text → Name → Option DpopProof
read_proof method url proof given jkt = some (record { jkt = 4; jti = codes "k"; iat = 1000 })

abbrev request : Call
request = record {
  method = codes "POST";
  url = codes "https://admin/api/v1/users";
  path = codes "/api/v1/users";
  forwarded_host = none;
  authorization = some (codes "DPoP x");
  dpop = some (codes "p");
  addr = 10;
}

abbrev ends_reader : AuthedRequest → Db → Result HttpException (Unit {0} × Db)
ends_reader authed = users_route env authed (revokes_sessions 7) 10

abbrev left : Db
left = commit office (stepup_route env read_token read_proof request ends_reader office)

-- One session of the two is revoked by the call.
one_open : count_where (λ (s : Session). is_some s.revoked_at) left.sessions ≡ 1
unfolding commit stepup_route require_recent_stepup require_admin require_lan_client text_eq
    lan_networks split_on strip check_token check_request starts_with verify_access_token
    mint_access_token check_proof verify_proof check_session check_liveness recent_stepup
    users_route revoke_sessions revoke_user_sessions revoke_rows revoke_for_session
one_open = refl

left-changed : left ≢ office
left-changed h =
    let same = ap (λ (d : Db). count_where (λ (s : Session). is_some s.revoked_at) d.sessions) h in
    ground (arith, one_open)

stepup_route-IsAdminCall_example :
    (authed : AuthedRequest) × (db' : Db) × IsAdminCall env request authed office
    × (db'.users ≡ office.users)
    × (left ≡ commit office (ends_reader authed db'))
stepup_route-IsAdminCall_example =
    stepup_route-IsAdminCall env read_token read_proof request ends_reader office left-changed

Administered-IsBootstrap_example : IsBootstrap 1 left
Administered-IsBootstrap_example =
    Administered-IsBootstrap 1
      (call {before' = office} env read_token read_proof request (revokes_sessions 7) untouched)
      (record { row = boss; held = refl; guarded = refl; top_tier = refl; on = refl })

abbrev out_of : {A : Type 0} → Db → Result HttpException (A × Db) → Db
out_of before' (ok (a, after')) = after'
out_of before' (err x) = before'

abbrev ended : Db
ended = out_of office (users_route env by_boss (revokes_sessions 7) 10 office)

revokes : users_route env by_boss (revokes_sessions 7) 10 office ≡ ok (tt, ended)
unfolding users_route revoke_sessions
revokes = refl

users_route-IsSignedOut_example : IsSignedOut 7 none office ended
users_route-IsSignedOut_example =
    users_route-IsSignedOut env by_boss 10 office 7 reader (revokes_sessions 7) (tt, ended) refl
      refl revokes

abbrev passkey : Uuid → WebAuthnCredential
passkey id = record {
  id = id;
  user_id = 2;
  credential_id = [];
  public_key = 0;
  sign_count = 0;
  friendly_name = [];
  break_glass = false;
  created_at = 0;
  last_used_at = none;
}

abbrev deputy : User
deputy = record boss { id = 2; email = codes "deputy@example"; is_protected = false }

abbrev staffed : Db
staffed = record office {
  users = boss ∷ deputy ∷ [];
  webauthn_credentials = passkey 31 ∷ passkey 32 ∷ passkey 33 ∷ [];
}

abbrev dropped : Db
dropped = out_of staffed (users_route env by_boss (deletes_credential 2 31) 10 staffed)

drops : users_route env by_boss (deletes_credential 2 31) 10 staffed ≡ ok (tt, dropped)
unfolding users_route delete_credential credential_of
drops = refl

keyed : HasOwnKeys staffed
keyed k = ground arith

users_route-two_passkeys_example : 2 ≤ strong_credential_count 2 dropped
unfolding users_route delete_credential credential_of
users_route-two_passkeys_example =
    users_route-two_passkeys env by_boss 2 staffed deputy refl (λ top. (refl, omega arith))
      (deletes_credential 2 31) 10 (tt, dropped) deputy keyed drops refl refl

abbrev off : User
off = record deputy { status = disabled }

abbrev idle_office : Db
idle_office = record office { users = boss ∷ off ∷ [] }

abbrev reactivation : UserPatch
reactivation = record { display_name = none; status = some active; auth_tier = none }

patch_user-reactivates_example :
    (user' : User) × (db' : Db) × (patch_user env by_boss 2 reactivation 10 idle_office
      ≡ ok (user', db'))
    × (get_user 2 db' ≡ some user')
    × (is_disabled user'.status ≡ false)
    × (is_admin_tier user'.auth_tier ≡ true)
    × (strong_credential_count 2 db' ≡ strong_credential_count 2 idle_office)
patch_user-reactivates_example =
    patch_user-reactivates env by_boss 2 off 10 idle_office refl refl refl refl

abbrev closing : ResourcePatch
closing = record {
  name = none;
  public_host = none;
  host = none;
  ports = none;
  path_prefix = none;
  description = none;
  enabled = none;
  public_access = some false;
  public_paths = none;
}

abbrev patch_out : Result HttpException (Resource × Db) → Resource × Db
patch_out (ok out) = out
patch_out (err x) = (shared, office)

abbrev closed : Resource × Db
closed = patch_out (patch_resource env by_boss 1 closing office)

closes : patch_resource env by_boss 1 closing office ≡ ok closed
unfolding patch_resource patch_host validate_public_shape flush_name text_eq
closes = refl

patch_resource-closes_example :
    (resolve_public_session env (some (codes "p.s")) 1 9 1000 closed.1).0 ≡ none
unfolding patch_resource patch_host validate_public_shape flush_name text_eq
patch_resource-closes_example =
    patch_resource-closes env by_boss 1 office closing shared closed refl closes (inl (refl, refl))
      (some (codes "p.s")) 9 1000

closes_route : resources_route env by_boss (edits 1 closing) office ≡ ok closed.1
unfolding resources_route read_patch patch_resource patch_host validate_public_shape flush_name
    text_eq
closes_route = refl

resources_route-AllCoherent_example : AllCoherent closed.1
unfolding text_eq
resources_route-AllCoherent_example =
    resources_route-AllCoherent env by_boss (edits 1 closing) office closed.1 (refl, (refl, tt))
      closes_route

abbrev no_more : Policy
no_more = record {
  id = 9;
  role_id = 3;
  resource_id = 2;
  allowed_ports = none;
  allowed_paths = none;
  action = deny;
  conditions_json = end;
  enabled = true;
}

abbrev policy_out : Result HttpException (Policy × Db) → Policy × Db
policy_out (ok out) = out
policy_out (err x) = (no_more, office)

abbrev denied_now : Policy × Db
denied_now = policy_out (create_policy env by_boss no_more office)

denies_now : create_policy env by_boss no_more office ≡ ok denied_now
unfolding create_policy
denies_now = refl

create_policy-denies_example :
    (evaluate_access denied_now.1 7 2 443 (codes "/x") 1000).decision.allowed ≡ false
unfolding role_rows create_policy
create_policy-denies_example =
    create_policy-denies env by_boss no_more office denied_now
      (record { denying = refl; on = refl; any_port = refl; any_path = refl; any_time = refl })
      denies_now 7 443 (codes "/x") 1000 refl
