-- ===== src/Tests.antt =====
-- A small deployment to evaluate the definitions on, and the theorems applied to it.
mod Access
mod Brokers
mod Callbacks
mod Grants
mod Identity
mod Logins
mod Tokens
mod Matching
mod Throttle
mod Administration
mod Portal
mod Gates
mod Shipments
use hyproxy.Base.{
  leb, ◌&&◌, text_eq, ◌==◌, none, some, true, false, [], Option, Text, Hash, Uuid, ◌∷◌, codes, ◌+◌,
  ◌*◌, List, Time,
}
use hyproxy.Settings.{Env, Settings}
use hyproxy.Json.{Fields, end}
use hyproxy.Store.{Db, empty, Session, RefreshToken}
use hyproxy.Store.Accounts.{
  User, UserStatus, active, AuthTier, standard, Role, UserRole, AuthCode, Amr, pwd, otp,
}
use hyproxy.Store.Access.{
  Resource, Protocol, https, Policy, GatewaySession, PublicSession, AuthThrottle, account, ip,
}
use hyproxy.Policy.Engine.{Action, allow}
use hyproxy.Authz.Check.{CheckRequest}

-- Stand-ins for the libraries: a digest that is a number of the text, UUIDs of one character.
abbrev pub digest : Text → Hash
digest [] = 0
digest (c ∷ t) = c + 1 + 1114113 * digest t

abbrev pub one_character : Text → Option Uuid
one_character (c ∷ []) = some c
one_character _ = none

abbrev pub settings : Settings
settings = record {
  issuer = codes "https://id/";
  access_ttl = 300;
  refresh_abs_ttl = 21600;
  idle_ttl = 1800;
  stepup_max_age = 300;
  dpop_iat_window = 60;
  dpop_iat_future_skew = 5;
  auth_code_ttl = 60;
  login_flow_ttl = 600;
  session_touch_interval = 60;
  authz_cache_ttl = 15;
  auth_host = codes "auth";
  external_scheme = codes "https";
  gateway_state_ttl = 600;
  public_session_ttl = 3600;
  public_session_bind_ip = true;
  public_gate_csrf_ttl = 600;
  admin_ui_origin = [];
  portal_origin = [];
  admin_lan_cidrs = codes "10.0.0.0/8";
  qbit_savepath_shows = codes "/shows";
  qbit_savepath_movies = [];
  gateway_client_id = 1;
  guac_enabled = true;
  guac_grant_ttl = 60;
  rtsp_enabled = true;
  rtsp_grant_ttl = 60;
  throttle_window = 900;
  throttle_account_free_failures = 3;
  throttle_account_max_delay = 300;
  throttle_ip_free_failures = 20;
  throttle_ip_max_delay = 60;
}

abbrev pub env : Env
env = record {
  settings = settings;
  utcnow = 1000;
  sha256_hex = digest;
  sha256_b64url = λ t. t;
  uuid_str = λ u. u ∷ [];
  parse_uuid = one_character;
  verify_hash = λ h t. h == digest t;
  percent_encode = λ t. t;
  url_scheme = λ t. codes "https";
  url_netloc = λ t. t;
  url_user = λ t. none;
  urlencode = λ q. [];
  b64_decode = λ t. some t;
  dump = λ f. [];
  totp_verify = λ secret code at. text_eq secret code;
  seal = digest;
  unseal = λ blob. codes "123456";
  hash_password = digest;
  isdigit = λ c. leb b'0' c && leb c b'9';
  current_key_id = 1;
  ip_in_network = λ addr cidr. addr == 10;
  verify_assertion = λ credential challenge key count. some (count + 1);
  verify_registration = λ credential challenge. none;
  upper = λ t. t;
  lower = λ t. t;
  url_host = λ t. some t;
}

abbrev pub reader : User
reader = record {
  id = 7;
  external_id = codes "u7";
  email = codes "u7@example";
  status = active;
  auth_tier = standard;
  password_hash = 0;
  display_name = [];
  is_protected = false;
}

abbrev pub shared : Resource
shared = record {
  id = 1;
  name = codes "wiki";
  host = [];
  path_prefix = none;
  description = none;
  protocol = https;
  public_host = some (codes "pub");
  ports = 443 ∷ [];
  enabled = true;
  public_access = true;
  public_paths = some (codes "/a/**" ∷ []);
  public_password_hash = some 5;
  public_password_set_at = some 10;
}

abbrev pub app : Resource
app = record {
  id = 2;
  name = codes "shared";
  host = [];
  path_prefix = none;
  description = none;
  protocol = https;
  public_host = some (codes "app");
  ports = 443 ∷ [];
  enabled = true;
  public_access = false;
  public_paths = none;
  public_password_hash = none;
  public_password_set_at = none;
}

abbrev pub readers_may : Policy
readers_may = record {
  id = 1;
  role_id = 3;
  resource_id = 2;
  allowed_ports = some (443 ∷ []);
  allowed_paths = none;
  action = allow;
  conditions_json = end;
  enabled = true;
}

abbrev pub session : Session
session = record {
  id = b'i';
  user_id = 7;
  cookie_secret_hash = digest (codes "s");
  source_ip = 9;
  auth_tier = standard;
  amr = pwd ∷ otp ∷ [];
  mfa_verified = true;
  issued_at = 100;
  last_seen_at = 100;
  absolute_expires_at = 9000000000;
  step_up_verified_at = none;
  stepup_challenge = none;
  stale = false;
  revoked_at = none;
  revoke_reason = none;
}

abbrev pub gateway : GatewaySession
gateway = record {
  id = b'g';
  user_id = 7;
  idp_session_id = b'i';
  cookie_secret_hash = digest (codes "s");
  source_ip = 9;
  revoked_at = none;
}

abbrev pub visit : PublicSession
visit = record {
  id = b'p';
  resource_id = 1;
  cookie_secret_hash = digest (codes "s");
  source_ip = some 9;
  expires_at = 5000;
  last_seen_at = 100;
  revoked_at = none;
}

abbrev pub code : AuthCode
code = record {
  code_hash = digest (codes "c");
  client_id = 1;
  user_id = 7;
  session_id = b'i';
  redirect_uri = codes "https://app/cb";
  scope = codes "openid";
  nonce = codes "n";
  code_challenge = codes "x";
  auth_time = 100;
  expires_at = 5000;
  consumed_at = none;
}

abbrev pub token : RefreshToken
token = record {
  id = 21;
  token_hash = digest (codes "t");
  session_id = b'i';
  family_id = 30;
  parent_id = none;
  client_id = 1;
  user_id = 7;
  dpop_jkt = 4;
  scope = codes "openid";
  issued_at = 100;
  expires_at = 9000000000;
  used_at = none;
  revoked_at = none;
}

abbrev pub failures : List AuthThrottle
failures =
    record {
      scope = account;
      key = 7;
      failure_count = 3;
      window_started_at = 100;
      next_allowed_at = 100;
    }
    ∷ []

abbrev pub db : Db
db = record empty {
  users = reader ∷ [];
  roles = record { id = 3; name = codes "readers"; description = none } ∷ [];
  user_roles = record { user_id = 7; role_id = 3 } ∷ [];
  resources = shared ∷ app ∷ [];
  policies = readers_may ∷ [];
  sessions = session ∷ [];
  gateway_sessions = gateway ∷ [];
  public_sessions = visit ∷ [];
  auth_codes = code ∷ [];
  refresh_tokens = token ∷ [];
  auth_throttle = failures;
}

abbrev pub to_app : CheckRequest
to_app = record {
  host = codes "app";
  uri = codes "/x?y";
  source_ip = 9;
  backend_port = none;
  gateway_cookie = some (codes "g.s");
  public_cookie = none;
}

abbrev pub to_shared : CheckRequest
to_shared = record {
  host = codes "pub";
  uri = codes "/a/b";
  source_ip = 9;
  backend_port = none;
  gateway_cookie = none;
  public_cookie = some (codes "p.s");
}
