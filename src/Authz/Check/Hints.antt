-- ===== src/Authz/Check/Hints.antt =====
-- The cache hint of `check`, and what its answer for a public resource does not read.
use hyproxy.Base.{
  ◌&&◌, ◌==◌, find?, ap, List, ◌∙◌, Ip, Uuid, Text, Time, Option, ◌<◌, Option-cases, none, some,
  true, inl, inr, arith, ◌≡◌,
}
use hyproxy.Settings.{Env}
use hyproxy.Store.{Db, Resource, User, PublicSession}
use hyproxy.Idp.Sessions.{split_cookie}
use hyproxy.Authz.Decision.{evaluate_access, AccessDecision}
use hyproxy.Authz.Decision.Stability.{host_stable-allows}
use hyproxy.Authz.PublicGate.{resolve_public_session}
use hyproxy.Authz.Check.{
  find?, List, Ip, Uuid, Text, Option, Time, CheckRequest, CheckResponse, allow, per_host, check,
  check_public, find_resource, serves, granted, port_of, normal_host,
}
use hyproxy.Authz.Check.Soundness.{BySignIn, path_of, check-allow}

-- What a hint promises: the resource is not public, and for the time that the hint gives, which is the
-- configured one, its user is allowed on every path.
pub record IsCacheable (e : Env) (body : CheckRequest) (now : Time) (db : Db) (out : CheckResponse)
    : Type 0 where
  pub resource : Resource
  pub found : find_resource e (normal_host e body.host) db ≡ some resource
  pub way : BySignIn e body resource now db out
  pub ttl : out.cache_ttl_secs ≡ e.authz_cache_ttl
  pub ttl_positive : 0 < out.cache_ttl_secs
  pub always :
      (path : Text) (later : Time)
      → (evaluate_access db way.user.id resource.id
          (port_of body.backend_port resource.ports)
          path
          later).decision.allowed
        ≡ true

granted-cached :
    (e : Env) (user : User) (access : AccessDecision)
    → (granted e user access).cache_scope ≡ per_host
    → (access.host_stable ≡ true)
      × ((granted e user access).cache_ttl_secs ≡ e.authz_cache_ttl)
      × (0 < e.authz_cache_ttl)
unfolding granted
granted-cached e user access h = (ground arith, ground arith, ground arith)

-- An allowed answer is marked as good for the whole host only where the same user, on the same port,
-- is allowed on every path and at every time, and the time to keep it is the configured one.
pub check-cached :
    (e : Env) (body : CheckRequest) (now : Time) (db : Db)
    → (check e body now db).0.decision ≡ allow
    → (check e body now db).0.cache_scope ≡ per_host
    → IsCacheable e body now db (check e body now db).0
check-cached e body now db h cached =
    let g = check-allow e body now db h in
    let port = port_of body.backend_port g.resource.ports in
    elim g.way [
      | inl public ↦ ground (arith, public.answer)
      | inr way ↦
          let access = evaluate_access db way.user.id g.resource.id port (path_of body) now in
          let c = granted-cached e way.user access (ground (arith, way.answer)) in
          record {
            resource = g.resource;
            found = g.found;
            way = way;
            ttl = ground (arith, way.answer, c.1);
            ttl_positive = ground (arith, way.answer, c.1, c.2);
            always = λ path later.
                host_stable-allows db way.user.id g.resource.id port (path_of body) path now later
                  c.0;
          }
    ]

resolve_public_session-only :
    (e : Env) (cookie : Option Text) (resource : Uuid) (addr : Ip) (now : Time) (db db' : Db)
    → db'.public_sessions ≡ db.public_sessions
    → (resolve_public_session e cookie resource addr now db').0
      ≡ (resolve_public_session e cookie resource addr now db).0
unfolding resolve_public_session
resolve_public_session-only e cookie resource addr now db db' same =
    elim (Option-cases (split_cookie e cookie)) [
      | inl bad ↦ ground arith
      | inr ((id, secret), parsed) ↦
          let by_id : List PublicSession → Option PublicSession =
            find? (λ (s : PublicSession). s.id == id) in
          elim (Option-cases (by_id db.public_sessions)) [
            | inl missing ↦
                let missing' : by_id db'.public_sessions ≡ none = cc (missing, same) in ground arith
            | inr (row, held) ↦
                let held' : by_id db'.public_sessions ≡ some row = cc (held, same) in ground arith
          ]
    ]

check_public-anonymous :
    (e : Env) (body : CheckRequest) (cookie : Option Text) (resource : Resource) (host path : Text)
    (now : Time) (db db' : Db)
    → db'.public_sessions ≡ db.public_sessions
    → (check_public e (record body { gateway_cookie = cookie }) resource host path now db').0
      ≡ (check_public e body resource host path now db).0
unfolding check_public
check_public-anonymous e body cookie resource host path now db db' same =
    let only =
      resolve_public_session-only e body.public_cookie resource.id body.source_ip now db db' same in
    elim (Option-cases
      (resolve_public_session e body.public_cookie resource.id body.source_ip now db).0) [
        | inl shut ↦ ground (arith, only)
        | inr (row, opened) ↦ ground (arith, only)
      ]

find_resource-only :
    (e : Env) (host : Text) (db db' : Db)
    → db'.resources ≡ db.resources
    → find_resource e host db' ≡ find_resource e host db
unfolding find_resource
find_resource-only e host db db' same =
    ap (find? (λ (r : Resource). serves e r.public_host host && r.enabled)) same

-- For a public resource the answer depends on no user, role, policy, IdP session or gateway cookie: any
-- other tables with the same resources and public sessions, and any other gateway cookie, give the same.
pub check-anonymous :
    (e : Env) (body : CheckRequest) (cookie : Option Text) (now : Time) (db db' : Db)
    (resource : Resource)
    → find_resource e (normal_host e body.host) db ≡ some resource
    → resource.public_access ≡ true
    → db'.resources ≡ db.resources
    → db'.public_sessions ≡ db.public_sessions
    → (check e (record body { gateway_cookie = cookie }) now db').0 ≡ (check e body now db).0
unfolding check
check-anonymous e body cookie now db db' resource found is_public rows sessions =
    let host = normal_host e body.host in
    let found' : find_resource e host db' ≡ some resource =
      find_resource-only e host db db' rows ∙ found in
    ground
      (arith, check_public-anonymous e body cookie resource host (path_of body) now db db' sessions)
