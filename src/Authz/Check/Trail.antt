-- ===== src/Authz/Check/Trail.antt =====
-- The audit trail of `check`, and what the answer may rest on.
use hyproxy.Base.{
  if◌then◌else◌, ◌&&◌, not, before, ◌∙◌, ap, Time, Ip, ◌∷◌, Uuid, Text, ◌++◌, ◌≡◌, Bool, Option,
  Option-cases, Bool-cases, true, false, inl, inr, arith, refl, [],
}
use hyproxy.Settings.{Env}
use hyproxy.Store.{Db, Resource, User, Session, GatewaySession, get_session, get_user, audit}
use hyproxy.Store.Access.{AuditLog, Outcome, allowed, denied}
use hyproxy.Authz.PublicGate.{resolve_public_session}
use hyproxy.Authz.Gateway.{resolve_gateway_session, get_gateway, with_idp_session}
use hyproxy.Policy.Glob.{matches}
use hyproxy.Authz.Decision.{evaluate_access}
use hyproxy.Idp.Sessions.{split_cookie, check_liveness}
use hyproxy.Authz.Check.{
  admin_console_host, same_host, uri_or_root, is_admin, not, before, is_active, normal_host,
  port_of, granted, Time, Ip, Uuid, Text, Bool, Option, CheckRequest, CheckResponse, Answer, allow,
  check, check_public, check_policy, check_user, check_resource, find_resource,
}

abbrev pub is_grant : Answer → Bool
is_grant answer = elim answer [ allow ↦ true | _ ↦ false ]

abbrev pub is_allowed : Outcome → Bool
is_allowed outcome = elim outcome [ allowed ↦ true | denied ↦ false ]

-- One row was appended to the trail, and it says what the answer says.
pub record IsLogged (body : CheckRequest) (before : Db) (out : CheckResponse × Db) : Type 0 where
  pub row : AuditLog
  pub appended : out.1.audit_log ≡ before.audit_log ++ row ∷ []
  pub same_outcome : is_allowed row.decision ≡ is_grant out.0.decision
  pub same_reason : row.reason ≡ out.0.reason
  pub same_source : row.source_ip ≡ body.source_ip

logged :
    {body : CheckRequest} {before after : Db} (out : CheckResponse) (row : AuditLog)
    → after.audit_log ≡ before.audit_log
    → is_allowed row.decision ≡ is_grant out.decision
    → row.reason ≡ out.reason
    → row.source_ip ≡ body.source_ip
    → IsLogged body before (out, audit row after)
logged out row same outcome reason source = record {
  row = row;
  appended = ap (λ rows. rows ++ row ∷ []) same;
  same_outcome = outcome;
  same_reason = reason;
  same_source = source;
}

IsLogged-if :
    {body : CheckRequest} {before : Db} {out out' : CheckResponse × Db} (b : Bool)
    → IsLogged body before out
    → IsLogged body before out'
    → IsLogged body before (if b then out else out')
IsLogged-if true l l' = l
IsLogged-if false l l' = l'

module _ (e : Env) where
  resolve_public_session-trail :
      (cookie : Option Text) (resource : Uuid) (addr : Ip) (now : Time) (db : Db)
      → (resolve_public_session e cookie resource addr now db).1.audit_log ≡ db.audit_log
  unfolding resolve_public_session
  resolve_public_session-trail cookie resource addr now db = ground arith

  -- What the liveness check writes: the table of sessions, and the events.
  abbrev pub with_sessions : Db → Db → Db
  with_sessions db' db = record db { sessions = db'.sessions; auth_events = db'.auth_events }

  check_liveness-writes :
      (row : Session) (addr : Ip) (now : Time) (enforce : Bool) (db : Db)
      → (check_liveness e row addr now enforce db).2
        ≡ with_sessions (check_liveness e row addr now enforce db).2 db
  unfolding check_liveness
  check_liveness-writes row addr now enforce db = ground arith

  with_idp_session-writes :
      (gw : GatewaySession) (addr : Ip) (now : Time) (db : Db)
      → (with_idp_session e gw addr now db).1
        ≡ with_sessions (with_idp_session e gw addr now db).1 db
  unfolding with_idp_session
  with_idp_session-writes gw addr now db = elim (Option-cases (get_session gw.idp_session_id db)) [
    | inl missing ↦ ground arith
    | inr (row, held) ↦ ground (arith, check_liveness-writes row addr now false db)
  ]

  pub resolve_gateway_session-writes :
      (cookie : Option Text) (addr : Ip) (now : Time) (enforce : Bool) (db : Db)
      → (resolve_gateway_session e cookie addr now enforce db).1
        ≡ with_sessions (resolve_gateway_session e cookie addr now enforce db).1 db
  unfolding resolve_gateway_session
  resolve_gateway_session-writes cookie addr now enforce db =
      elim (Option-cases (split_cookie e cookie)) [
        | inl bad ↦ ground arith
        | inr ((id, secret), parsed) ↦ elim (Option-cases (get_gateway id db)) [
          | inl missing ↦ ground arith
          | inr (gw, held) ↦ ground (arith, with_idp_session-writes gw addr now db)
        ]
      ]

  check_public-IsLogged :
      (body : CheckRequest) (resource : Resource) (host path : Text) (now : Time) (db : Db)
      → IsLogged body db (check_public e body resource host path now db)
  unfolding check_public
  check_public-IsLogged body resource host path now db =
      elim (Bool-cases (matches resource.public_paths path)) [
        | inr hidden ↦ rw hidden (logged _ _ refl refl refl refl)
        | inl shown ↦
            let trail =
              resolve_public_session-trail body.public_cookie resource.id body.source_ip now db in
            elim (Option-cases
              (resolve_public_session e body.public_cookie resource.id body.source_ip now db).0) [
                | inl shut ↦ rw (shown, shut) (logged _ _ trail refl refl refl)
                | inr (row, opened) ↦ rw (shown, opened) (logged _ _ trail refl refl refl)
              ]
      ]

  check_policy-IsLogged :
      (body : CheckRequest) (resource : Resource) (user : User) (path : Text) (now : Time) (db : Db)
      → IsLogged body db (check_policy e body resource user path now db)
  unfolding check_policy granted
  check_policy-IsLogged body resource user path now db =
      let port = port_of body.backend_port resource.ports in
      elim (Bool-cases (evaluate_access db user.id resource.id port path now).decision.allowed) [
        | inl here ↦ rw here (logged _ _ refl refl refl refl)
        | inr other ↦ rw other (logged _ _ refl refl refl refl)
      ]

  check_user-IsLogged :
      (body : CheckRequest) (resource : Resource) (gw : GatewaySession) (host path : Text)
      (now : Time) (db : Db)
      → IsLogged body db (check_user e body resource gw host path now db)
  unfolding check_user
  check_user-IsLogged body resource gw host path now db =
      elim (Option-cases (get_user gw.user_id db)) [
        | inl missing ↦ rw (check_user, missing) (logged _ _ refl refl refl refl)
        | inr (user, held) ↦ elim (Bool-cases (is_active user.status)) [
          | inr disabled ↦ rw (check_user, held, disabled) (logged _ _ refl refl refl refl)
          | inl active ↦
              elim (Bool-cases
                (not (is_admin user.auth_tier) && same_host e host (admin_console_host e))) [
                  | inl forbidden ↦
                      rw (check_user, held, active, forbidden) (logged _ _ refl refl refl refl)
                  | inr fine ↦
                      rw (check_user, held, active, fine)
                        (check_policy-IsLogged body resource user path now db)
                ]
        ]
      ]

  check_resource-IsLogged :
      (body : CheckRequest) (resource : Resource) (host path : Text) (now : Time) (db : Db)
      → IsLogged body db (check_resource e body resource host path now db)
  unfolding check_resource
  check_resource-IsLogged body resource host path now db =
      let resolved = resolve_gateway_session e body.gateway_cookie body.source_ip now true db in
      let trail : resolved.1.audit_log ≡ db.audit_log =
        ap (λ (d : Db). d.audit_log)
          (resolve_gateway_session-writes body.gateway_cookie body.source_ip now true db) in
      elim (Option-cases resolved.0) [
        | inl nobody ↦ rw (check_resource, nobody) (logged _ _ trail refl refl refl)
        | inr (gw, found) ↦
            let rest = check_user-IsLogged body resource gw host path now resolved.1 in
            rw (check_resource, found)
              (record {
                row = rest.row;
                appended = rest.appended ∙ ap (λ rows. rows ++ rest.row ∷ []) trail;
                same_outcome = rest.same_outcome;
                same_reason = rest.same_reason;
                same_source = rest.same_source;
              })
      ]

  -- Every request that is checked appends exactly one row to the audit trail: it says "allow" exactly
  -- when the answer does, for the same reason, and names the address that the request came from.
  pub check-IsLogged :
      (body : CheckRequest) (now : Time) (db : Db) → IsLogged body db (check e body now db)
  unfolding check
  check-IsLogged body now db =
      let host = normal_host e body.host in
      let path = before b'?' (uri_or_root body.uri) in
      elim (Option-cases (find_resource e host db)) [
        | inl unknown ↦ rw (check, unknown) (logged _ _ refl refl refl refl)
        | inr (resource, found) ↦
            rw (check, found)
              (IsLogged-if resource.public_access
                (check_public-IsLogged body resource host path now db)
                (check_resource-IsLogged body resource host path now db))
      ]
