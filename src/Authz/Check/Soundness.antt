-- ===== src/Authz/Check/Soundness.antt =====
-- What an answer of `check` rests on.
use hyproxy.Base.{
  [], ◌∙◌, sym, ap, ◌&&◌, ℕ, ◌⊎◌, Uuid, before, not, Time, Text, Option-cases, Bool-cases, some,
  true, false, inl, inr, arith, refl, ◌≡◌,
}
use hyproxy.Settings.{Env}
use hyproxy.Policy.Glob.{matches}
use hyproxy.Store.{Db, Resource, User, PublicSession, GatewaySession, get_user}
use hyproxy.Store.Access.{public_allowed}
use hyproxy.Authz.Decision.{evaluate_access, AccessDecision}
use hyproxy.Authz.PublicGate.{resolve_public_session}
use hyproxy.Authz.Gateway.{resolve_gateway_session}
use hyproxy.Authz.Check.{
  [], granted, respond, CheckResponse, ℕ, not, before, Uuid, Time, Text, CheckRequest, allow, check,
  check_public, check_policy, check_user, check_resource, find_resource, port_of, is_active,
  is_admin, same_host, admin_console_host, normal_host, uri_or_root,
}
use hyproxy.Authz.Check.Trail.{with_sessions, resolve_gateway_session-writes}

-- The path of the request, without its query.
abbrev pub path_of : CheckRequest → Text
path_of body = before b'?' (uri_or_root body.uri)

-- The way into a public resource: an exposed path, and a session that the password opened.
pub record ByPassword (e : Env) (body : CheckRequest) (resource : Resource) (now : Time) (db : Db)
    (out : CheckResponse) : Type 0 where
  pub is_public : resource.public_access ≡ true
  pub exposed : matches resource.public_paths (path_of body) ≡ true
  pub session : PublicSession
  pub opened :
      (resolve_public_session e body.public_cookie resource.id body.source_ip now db).0
      ≡ some session
  pub answer : out ≡ respond allow public_allowed []

-- The way into any other: a gateway session, an active user behind it, and the policy engine's allow.
pub record BySignIn (e : Env) (body : CheckRequest) (resource : Resource) (now : Time) (db : Db)
    (out : CheckResponse) : Type 0 where
  pub is_private : resource.public_access ≡ false
  pub gateway : GatewaySession
  pub signed_in :
      (resolve_gateway_session e body.gateway_cookie body.source_ip now true db).0 ≡ some gateway
  pub user : User
  pub held : get_user gateway.user_id db ≡ some user
  pub active : is_active user.status ≡ true
  pub right_tier :
      (not (is_admin user.auth_tier)
        && same_host e (normal_host e body.host) (admin_console_host e))
      ≡ false
  pub permitted :
      (evaluate_access db user.id resource.id
        (port_of body.backend_port resource.ports)
        (path_of body)
        now).decision.allowed
      ≡ true
  pub answer :
      out
      ≡ granted e user (
          evaluate_access db user.id resource.id
            (port_of body.backend_port resource.ports)
            (path_of body)
            now)

-- A request that is allowed is for an enabled resource under its host, and came in by one of the ways.
pub record IsGrounded (e : Env) (body : CheckRequest) (now : Time) (db : Db) (out : CheckResponse)
    : Type 0 where
  pub resource : Resource
  pub found : find_resource e (normal_host e body.host) db ≡ some resource
  pub way : ByPassword e body resource now db out ⊎ BySignIn e body resource now db out

module _ (e : Env) (body : CheckRequest) (now : Time) (db : Db) where
  check_public-allow :
      (resource : Resource)
      → resource.public_access ≡ true
      → (out : CheckResponse)
      → out ≡ (check_public e body resource (normal_host e body.host) (path_of body) now db).0
      → out.decision ≡ allow
      → ByPassword e body resource now db out
  unfolding check_public
  check_public-allow resource is_public out same h =
      elim (Option-cases
        (resolve_public_session e body.public_cookie resource.id body.source_ip now db).0) [
          | inl shut ↦ ground arith
          | inr (row, opened) ↦ record {
            is_public = is_public;
            exposed = ground arith;
            session = row;
            opened = opened;
            answer = ground arith;
          }
        ]

  -- The engine's decision, for the user, the port and the path of the request.
  abbrev access : User → Resource → Db → AccessDecision
  access user resource db' =
      evaluate_access db' user.id resource.id (port_of body.backend_port resource.ports)
        (path_of body) now

  check_policy-allow :
      (resource : Resource) (user : User) (db' : Db) (out : CheckResponse)
      → out ≡ (check_policy e body resource user (path_of body) now db').0
      → out.decision ≡ allow
      → ((access user resource db').decision.allowed ≡ true)
        × (out ≡ granted e user (access user resource db'))
  unfolding check_policy
  check_policy-allow resource user db' out same h = (ground arith, ground arith)

  -- The liveness check leaves what the decision reads as it is.
  evaluate_access-with_sessions :
      (db' : Db) (user resource : Uuid) (port : ℕ) (path : Text)
      → evaluate_access (with_sessions e db' db) user resource port path now
        ≡ evaluate_access db user resource port path now
  unfolding evaluate_access
  evaluate_access-with_sessions db' user resource port path = refl

  -- What `check_user` found, over the tables that it reads.
  record Permitted (resource : Resource) (gateway : GatewaySession) (db' : Db) (out : CheckResponse)
      : Type 0 where
    pub user : User
    pub held : get_user gateway.user_id db' ≡ some user
    pub active : is_active user.status ≡ true
    pub right_tier :
        (not (is_admin user.auth_tier)
          && same_host e (normal_host e body.host) (admin_console_host e))
        ≡ false
    pub permitted : (access user resource db').decision.allowed ≡ true
    pub answer : out ≡ granted e user (access user resource db')

  check_user-allow :
      (resource : Resource) (gateway : GatewaySession) (db' : Db) (out : CheckResponse)
      → out
        ≡ (check_user e body resource gateway (normal_host e body.host) (path_of body) now db').0
      → out.decision ≡ allow
      → Permitted resource gateway db' out
  unfolding check_user
  check_user-allow resource gateway db' out same h =
      elim (Option-cases (get_user gateway.user_id db')) [
        | inl missing ↦ ground arith
        | inr (user, held) ↦
            let p = check_policy-allow resource user db' out (ground arith) h in
            record {
              user = user;
              held = held;
              active = ground arith;
              right_tier = ground arith;
              permitted = p.0;
              answer = p.1;
            }
      ]

  check_resource-allow :
      (resource : Resource)
      → resource.public_access ≡ false
      → (out : CheckResponse)
      → out ≡ (check_resource e body resource (normal_host e body.host) (path_of body) now db).0
      → out.decision ≡ allow
      → BySignIn e body resource now db out
  unfolding check_resource
  check_resource-allow resource is_private out same h =
      let resolved = resolve_gateway_session e body.gateway_cookie body.source_ip now true db in
      elim (Option-cases resolved.0) [
        | inl nobody ↦ ground arith
        | inr (gateway, signed_in) ↦
            let p = check_user-allow resource gateway resolved.1 out (ground arith) h in
            let writes =
              resolve_gateway_session-writes e body.gateway_cookie body.source_ip now true db in
            let kept : access p.user resource resolved.1 ≡ access p.user resource db = cc (
              writes,
              evaluate_access-with_sessions resolved.1 p.user.id resource.id
                  (port_of body.backend_port resource.ports) (path_of body),
            ) in
            record {
              is_private = is_private;
              gateway = gateway;
              signed_in = signed_in;
              user = p.user;
              held = ap (get_user gateway.user_id) (sym writes) ∙ p.held;
              active = p.active;
              right_tier = p.right_tier;
              permitted = cc (p.permitted, kept);
              answer = p.answer ∙ ap (granted e p.user) kept;
            }
      ]

  -- An allowed request is for the enabled resource under its host. If that is public, the path is one
  -- that it exposes and the password opened a session on it; if not, there is a gateway session, an
  -- active user behind it who may see this host, and the policy engine allows that user.
  pub check-allow :
      (check e body now db).0.decision ≡ allow → IsGrounded e body now db (check e body now db).0
  unfolding check
  check-allow h = elim (Option-cases (find_resource e (normal_host e body.host) db)) [
    | inl unknown ↦ ground arith
    | inr (resource, found) ↦ record {
      resource = resource;
      found = found;
      way = elim (Bool-cases resource.public_access) [
        | inl is_public ↦ inl (check_public-allow resource is_public _ (ground arith) h)
        | inr is_private ↦ inr (check_resource-allow resource is_private _ (ground arith) h)
      ];
    }
  ]
