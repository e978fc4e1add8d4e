-- ===== src/Tests/Access.antt =====
-- The theorems on the decisions for the data plane, at requests to the small deployment.
use hyproxy.Base.{arith, arith, some, true, codes, ◌≢◌}
use hyproxy.Store.{Db, empty, PublicSession}
use hyproxy.Tests.{shared, visit, gateway}
use hyproxy.Authz.Decision.Stability.{host_stable-allows}
use hyproxy.Authz.PublicGate.{safe_rd, fallback}
use hyproxy.Authz.Check.Trail.{IsLogged, check-IsLogged}
use hyproxy.Authz.Check.Soundness.{IsGrounded, check-allow}
use hyproxy.Idp.Sessions.{split_cookie, revoke, touch, check_liveness}
use hyproxy.Policy.Engine.{
  port_allowed, window_matches, under_prefix, path_allowed, time_window_matches, parse_hhmm,
  day_allowed, evaluate, rule_applies, in_window, mem_nat,
}
use hyproxy.Json.{has_other_key, truthy, mem_str, get}
use hyproxy.Base.{
  after, drop_while_end, strip, contains, drop_while, starts_with, before, text_eq, refl, ◌≡◌,
}
use hyproxy.Tests.{env, db, to_app, to_shared}
use hyproxy.Policy.Glob.{matches, literal_prefix}
use hyproxy.Authz.Decision.{host_stable, evaluate_access}
use hyproxy.Authz.PublicGate.{admits, resolve_public_session}
use hyproxy.Authz.Gateway.{fits, with_idp_session, resolve_gateway_session}
use hyproxy.Authz.Check.{
  normal_host, check_resource, granted, check_policy, check_user, admin_console_host, check_public,
  find_resource, allow, check, per_host,
}

to_app-allowed : (check env to_app 1000 db).0.decision ≡ allow
unfolding check find_resource text_eq drop_while_end strip check_resource resolve_gateway_session
    split_cookie contains before after check_liveness check_user admin_console_host check_policy
    evaluate_access evaluate rule_applies check_public granted normal_host host_stable fits
    with_idp_session admits resolve_public_session drop_while starts_with revoke touch get mem_str
    truthy day_allowed in_window mem_nat parse_hhmm path_allowed port_allowed time_window_matches
    under_prefix window_matches matches
to_app-allowed = refl

to_app-cached : (check env to_app 1000 db).0.cache_scope ≡ per_host
unfolding check find_resource text_eq drop_while_end strip check_resource resolve_gateway_session
    split_cookie contains before after check_liveness check_user admin_console_host check_policy
    evaluate_access evaluate rule_applies check_public granted normal_host host_stable fits
    with_idp_session admits resolve_public_session drop_while starts_with revoke touch get mem_str
    truthy day_allowed in_window mem_nat parse_hhmm path_allowed port_allowed time_window_matches
    under_prefix window_matches matches has_other_key
to_app-cached = refl

to_shared-allowed : (check env to_shared 1000 db).0.decision ≡ allow
unfolding check find_resource text_eq drop_while_end strip check_public matches before
    resolve_public_session split_cookie contains after
to_shared-allowed = refl

check-allow_example : IsGrounded env to_app 1000 db (check env to_app 1000 db).0
check-allow_example = check-allow env to_app 1000 db to_app-allowed

check-IsLogged_example : IsLogged to_shared db (check env to_shared 1000 db)
check-IsLogged_example = check-IsLogged env to_shared 1000 db

-- The same tables without users, roles, policies and sessions.
abbrev bare : Db
bare = record empty { resources = db.resources; public_sessions = db.public_sessions }

shared-found : find_resource env (normal_host env to_shared.host) db ≡ some shared
unfolding find_resource text_eq normal_host drop_while_end strip
shared-found = refl

app-stable : (evaluate_access db 7 2 443 (codes "/x") 1000).host_stable ≡ true
unfolding evaluate_access host_stable evaluate rule_applies time_window_matches get has_other_key
app-stable = refl

host_stable-allows_example :
    (evaluate_access db 7 2 443 (codes "/z") 90000000).decision.allowed ≡ true
host_stable-allows_example =
    host_stable-allows db 7 2 443 (codes "/x") (codes "/z") 1000 90000000 app-stable

gateway-resolved :
    (resolve_gateway_session env (some (codes "g.s")) 9 1000 true db).0 ≡ some gateway
unfolding resolve_gateway_session split_cookie contains before after check_liveness
gateway-resolved = refl

abbrev seen : PublicSession
seen = record visit { last_seen_at = 1000 }

visit-resolved : (resolve_public_session env (some (codes "p.s")) 1 9 1000 db).0 ≡ some seen
unfolding resolve_public_session split_cookie contains before after
visit-resolved = refl

rd-unchanged : safe_rd (codes "/a/b?c") shared ≡ codes "/a/b?c"
unfolding safe_rd starts_with contains matches before
rd-unchanged = refl

rd-fallback : fallback shared ≡ codes "/a/"
unfolding literal_prefix before
rd-fallback = refl

rd-kept : safe_rd (codes "/a/b?c") shared ≢ fallback shared
rd-kept h = let e : codes "/a/b?c" ≡ codes "/a/" = cc (h, rd-unchanged, rd-fallback) in ground arith
