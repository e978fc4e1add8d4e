-- ===== src/Authz/Check.antt =====
-- authz/check.py: the decision over one request that the data plane wants to proxy.
pub mod Trail
pub mod Soundness
pub mod Hints
use hyproxy.Idp.Login.{answer}
use hyproxy.Base.{
  not, strip, before, ltb, text_eq, ◌&&◌, drop_while_end, Time, find?, Bool, Uuid, none, some, true,
  false, [], ◌==◌, if◌then◌else◌, some, ◌++◌, Ip, [], ℕ, codes, ◌∷◌, Text, List, Option,
}
use hyproxy.Settings.{Env}
use hyproxy.Store.{Db, Resource, User, audit, get_user, GatewaySession}
use hyproxy.Store.Accounts.{AuthTier, admin, UserStatus, active}
use hyproxy.Store.Access.{
  Outcome, denied, AuditReason, unknown_resource, unauthenticated, user_inactive, tier_forbidden,
  public_path_unmatched, public_unauthenticated, public_allowed, policy,
}
use hyproxy.Policy.Glob.{matches}
use hyproxy.Authz.Decision.{AccessDecision, evaluate_access}
use hyproxy.Authz.PublicGate.{resolve_public_session}
use hyproxy.Authz.Gateway.{resolve_gateway_session}

pub record CheckRequest : Type 0 where
  pub host : Text
  pub uri : Text
  pub source_ip : Ip
  pub backend_port : Option ℕ
  pub gateway_cookie : Option Text
  pub public_cookie : Option Text

pub data Answer : Type 0 where
  allow deny auth_required not_found : Answer

pub data CacheScope : Type 0 where
  per_host uncached : CacheScope

pub record CheckResponse : Type 0 where
  pub decision : Answer
  pub reason : AuditReason
  pub headers : List (Text × Text)
  pub redirect : Text
  pub cache_scope : CacheScope
  pub cache_ttl_secs : ℕ

-- A response with the defaults of the fields that are not given.
abbrev pub respond : Answer → AuditReason → Text → CheckResponse
respond answer reason redirect = record {
  decision = answer;
  reason = reason;
  headers = [];
  redirect = redirect;
  cache_scope = uncached;
  cache_ttl_secs = 0;
}

abbrev pub public_gate_path : Text
public_gate_path = codes "/__hyproxy/gate"

-- `uri or "/"`
abbrev pub uri_or_root : Text → Text
uri_or_root [] = codes "/"
uri_or_root (c ∷ t) = c ∷ t

-- `backend_port or (ports[0] if ports else 0)`
abbrev first_port : List ℕ → ℕ
first_port [] = 0
first_port (p ∷ ps) = p

abbrev pub port_of : Option ℕ → List ℕ → ℕ
port_of none ports = first_port ports
port_of (some p) ports = if p == 0 then first_port ports else p

-- `",".join(names)`
join_names : List Text → Text
join_names [] = []
join_names (name ∷ names) = elim names [ [] ↦ name | next ∷ rest ↦ name ++ b',' ∷ join_names names ]

abbrev pub is_admin : AuthTier → Bool
is_admin tier = elim tier [ admin ↦ true | _ ↦ false ]

abbrev pub is_active : UserStatus → Bool
is_active status = elim status [ active ↦ true | _ ↦ false ]

-- `public_host == host`: NULL equals nothing, and the column, a CITEXT, is compared without regard to case.
abbrev pub serves : Env → Option Text → Text → Bool
serves e none host = false
serves e (some h) host = text_eq (e.lower h) (e.lower host)

unfoldable pub find_resource : Env → Text → Db → Option Resource
find_resource e host db =
    find? (λ (r : Resource). serves e r.public_host host && r.enabled) db.resources

module _ (e : Env) where
  unfoldable pub normal_host : Text → Text
  normal_host host = drop_while_end (λ c. c == b'.') (e.lower (strip host))

  unfoldable pub admin_console_host : Option Text
  admin_console_host = elim e.admin_ui_origin [
    | [] ↦ none
    | c ∷ t ↦ elim (e.url_host (c ∷ t)) [
      | none ↦ none
      | some h ↦ elim (e.lower h) [ [] ↦ none | d ∷ r ↦ some (d ∷ r) ]
    ]
  ]

  abbrev gate_redirect : Text → CheckRequest → Text
  gate_redirect host body =
      e.external_scheme
      ++ codes "://"
      ++ host
      ++ public_gate_path
      ++ codes "?rd="
      ++ e.percent_encode (uri_or_root body.uri)

  abbrev start_redirect : Text → CheckRequest → Text
  start_redirect host body =
      let original = e.external_scheme ++ codes "://" ++ host ++ uri_or_root body.uri in
      e.external_scheme
      ++ codes "://"
      ++ e.auth_host
      ++ codes "/gateway/start?rd="
      ++ e.percent_encode original

  abbrev signed_in : Text
  signed_in = drop_while_end (λ c. c == b'/') e.issuer ++ codes "/auth/done"

  -- `_audit` for the request, and the response beside it.
  abbrev log : CheckRequest → Option Uuid → Option Uuid → Option ℕ → Outcome → AuditReason → Db → Db
  log body user_id resource_id port outcome reason db =
      audit
        (record {
          user_id = user_id;
          resource_id = resource_id;
          port = port;
          decision = outcome;
          reason = reason;
          source_ip = body.source_ip;
        })
        db

  unfoldable pub check_public :
      CheckRequest → Resource → Text → Text → Time → Db → CheckResponse × Db
  check_public body resource host path now db =
      if not (matches resource.public_paths path)
      then (
        respond not_found public_path_unmatched [],
        log body none (some resource.id) body.backend_port denied public_path_unmatched db,
      )
      else (let (session, db') =
            resolve_public_session e body.public_cookie resource.id body.source_ip now db in
          elim session [
            | none ↦ (
              respond auth_required public_unauthenticated (gate_redirect host body),
              log body none (some resource.id) body.backend_port denied public_unauthenticated db',
            )
            | some _ ↦ (
              respond allow public_allowed [],
              log body none (some resource.id) body.backend_port Outcome.allowed public_allowed db',
            )
          ])

  -- The headers of an allowed request.
  identity : User → AccessDecision → List (Text × Text)
  unfolding join_names
  identity user access =
      (codes "X-Forwarded-User", user.email)
      ∷ (codes "X-Auth-User-Id", user.external_id)
      ∷ (codes "X-Auth-Roles", join_names access.role_names)
      ∷ []

  unfoldable pub granted : User → AccessDecision → CheckResponse
  unfolding identity
  granted user access =
      let cacheable = access.host_stable && ltb 0 e.authz_cache_ttl in
      record {
        decision = allow;
        reason = policy access.decision.reason;
        headers = identity user access;
        redirect = [];
        cache_scope = if cacheable then per_host else uncached;
        cache_ttl_secs = if cacheable then e.authz_cache_ttl else 0;
      }

  -- The last part of `check`: what the policy engine says about a signed-in user.
  unfoldable pub check_policy :
      CheckRequest → Resource → User → Text → Time → Db → CheckResponse × Db
  unfolding granted
  check_policy body resource user path now db =
      let port = port_of body.backend_port resource.ports in
      let access = evaluate_access db user.id resource.id port path now in
      let reason = policy access.decision.reason in
      if access.decision.allowed
      then (
        granted user access,
        log body (some user.id) (some resource.id) (some port) Outcome.allowed reason db,
      )
      else (
        respond deny reason [],
        log body (some user.id) (some resource.id) (some port) denied reason db,
      )

  abbrev pub same_host : Text → Option Text → Bool
  same_host host none = false
  same_host host (some h) = text_eq host h

  unfoldable pub check_user :
      CheckRequest → Resource → GatewaySession → Text → Text → Time → Db → CheckResponse × Db
  check_user body resource gw host path now db =
      let inactive : CheckResponse × Db = (
        respond deny user_inactive [],
        log body (some gw.user_id) (some resource.id) body.backend_port denied user_inactive db,
      ) in
      elim (get_user gw.user_id db) [
        | none ↦ inactive
        | some user ↦
            if not (is_active user.status)
            then inactive
            else if not (is_admin user.auth_tier) && same_host host admin_console_host
            then (
              respond auth_required tier_forbidden signed_in,
              log body (some user.id) (some resource.id) body.backend_port denied tier_forbidden db,
            )
            else check_policy body resource user path now db
      ]

  unfoldable pub check_resource :
      CheckRequest → Resource → Text → Text → Time → Db → CheckResponse × Db
  check_resource body resource host path now db =
      let (gw, db') = resolve_gateway_session e body.gateway_cookie body.source_ip now true db in
      elim gw [
        | none ↦ (
          respond auth_required unauthenticated (start_redirect host body),
          log body none (some resource.id) body.backend_port denied unauthenticated db',
        )
        | some g ↦ check_user body resource g host path now db'
      ]

  unfoldable pub check : CheckRequest → Time → Db → CheckResponse × Db
  unfolding normal_host
  check body now db =
      let host = normal_host body.host in
      let path = before b'?' (uri_or_root body.uri) in
      elim (find_resource e host db) [
        | none ↦ (
          respond deny unknown_resource [],
          log body none none body.backend_port denied unknown_resource db,
        )
        | some resource ↦
            if resource.public_access
            then check_public body resource host path now db
            else check_resource body resource host path now db
      ]
