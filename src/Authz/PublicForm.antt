-- ===== src/Authz/PublicForm.antt =====
-- authz/publicgate.py: the form that asks for the password of a public resource. The tokens and the id are
-- drawn outside.
pub mod Opened
use hyproxy.Security.Ratelimit.{check}
use hyproxy.Store.Access.{denied}
use hyproxy.Store.{Db, audit}
use hyproxy.Authz.Check.{serves}
use hyproxy.Authz.PublicGate.{safe_rd}
use hyproxy.Settings.{Env}
use hyproxy.Idp.Authorize.{given}
use hyproxy.Store.Access.{
  AuditReason, Outcome, PublicSession, Resource, allowed, public_bad_password,
  public_password_accepted, public_throttled,
}
use hyproxy.Security.Ratelimit.{register_failure}
use hyproxy.Idp.Sessions.{cookie_value}
use hyproxy.Base.{
  Bool, Hash, Ip, Name, Option, Text, Time, Uuid, [], after, before, codes, contains, drop_while,
  drop_while_end, false, find?, if◌then◌else◌, name_of, none, not, seconds, some, starts_with,
  strip, text_eq, ℕ, ◌&&◌, ◌++◌, ◌+◌, ◌==◌, ◌||◌, ◌∷◌,
}

pub record GateRequest : Type 0 where
  pub forwarded_host : Option Text
  pub csrf_cookie : Option Text
  pub addr : Ip

pub record GateDraws : Type 0 where
  pub csrf : Text
  pub session_id : Uuid
  pub secret : Text

pub data GateError : Type 0 where
  expired_form too_many_attempts incorrect_password : GateError

-- An answer: 404; the form, with its status, return path, token, error and Retry-After; or the redirect with the
-- cookie of a session.
pub data GateReply : Type 0 where
  gate_not_found : GateReply
  gate_page : ℕ → Text → Text → Option GateError → ℕ → GateReply
  opened : Text → Text → GateReply

unfoldable pub text_of : Option Text → Text
text_of none = []
text_of (some t) = t

abbrev one_colon : Text → Bool
one_colon host = contains b':' host && not (contains b':' (after b':' host))

-- The host without brackets or port.
unfoldable pub bare_host : Text → Text
bare_host host =
    if starts_with (codes "[") host
    then drop_while (λ c. c == b'[') (before b']' host)
    else if one_colon host
    then before b':' host
    else host

unfoldable pub find_public : Env → Text → Db → Option Resource
find_public e host db =
    find? (λ (r : Resource). serves e r.public_host host && r.enabled && r.public_access)
      db.resources

abbrev gate_audit : Uuid → Outcome → AuditReason → Ip → Db → Db
gate_audit resource outcome reason addr = audit (record {
  user_id = none;
  resource_id = some resource;
  port = none;
  decision = outcome;
  reason = reason;
  source_ip = addr;
})

module _ (e : Env) where
  unfoldable pub resource_for_request : GateRequest → Db → Option Resource
  resource_for_request request db =
      let host =
        drop_while_end (λ c. c == b'.')
          (e.lower (strip (before b',' (text_of request.forwarded_host)))) in
      if text_eq host []
      then none
      else if text_eq (bare_host host) []
      then none
      else find_public e (bare_host host) db

  unfoldable pub gate_form : GateRequest → Text → GateDraws → Db → GateReply
  gate_form request rd draws db = elim (resource_for_request request db) [
    | none ↦ gate_not_found
    | some resource ↦ gate_page 200 (safe_rd rd resource) draws.csrf none 0
  ]

  abbrev pub gate_key : Resource → Name
  gate_key resource = name_of (codes "public:" ++ e.uuid_str resource.id)

  unfoldable pub right_gate_password : Option Hash → Text → Bool
  right_gate_password none given = false
  right_gate_password (some stored) given = e.verify_hash stored given

  abbrev pub opened_session : Resource → GateDraws → Ip → Time → PublicSession
  opened_session resource draws addr now = record {
    id = draws.session_id;
    resource_id = resource.id;
    cookie_secret_hash = e.sha256_hex draws.secret;
    source_ip = if e.public_session_bind_ip then some addr else none;
    expires_at = now + seconds e.public_session_ttl;
    last_seen_at = now;
    revoked_at = none;
  }

  -- The part of `gate_submit` behind the guards on the form.
  unfoldable pub check_gate : Resource → Text → Text → GateDraws → Ip → Time → Db → GateReply × Db
  check_gate resource given target draws addr now db =
      let verdict = check db.auth_throttle addr (some (gate_key resource)) now in
      if not verdict.allowed
      then (
        gate_page 429 target draws.csrf (some too_many_attempts) verdict.retry_after,
        gate_audit resource.id denied public_throttled addr db,
      )
      else if not (right_gate_password resource.public_password_hash given)
      then (
        gate_page 401 target draws.csrf (some incorrect_password) 0,
        gate_audit resource.id denied public_bad_password addr (record db {
          auth_throttle = register_failure e addr (some (gate_key resource)) now db.auth_throttle;
        }),
      )
      else (
        opened target (cookie_value e draws.session_id draws.secret),
        gate_audit resource.id allowed public_password_accepted addr (record db {
          public_sessions = db.public_sessions ++ opened_session resource draws addr now ∷ [];
        }),
      )

  unfoldable pub gate_submit :
      GateRequest → Text → Text → Text → GateDraws → Time → Db → GateReply × Db
  gate_submit request given rd csrf draws now db = elim (resource_for_request request db) [
    | none ↦ (gate_not_found, db)
    | some resource ↦
        let target = safe_rd rd resource in
        let cookie = text_of request.csrf_cookie in
        if text_eq csrf [] || text_eq cookie [] || not (text_eq csrf cookie)
        then (gate_page 400 target draws.csrf (some expired_form) 0, db)
        else check_gate resource given target draws request.addr now db
  ]
