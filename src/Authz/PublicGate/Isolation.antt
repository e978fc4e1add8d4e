-- ===== src/Authz/PublicGate/Isolation.antt =====
-- What a cookie of a public resource is good for.
use hyproxy.Base.{
  ◌∷◌, update_where, All, List, ◌==◌, none, some, true, false, [], inl, inr, arith, before,
  contains, false, true, codes, ◌<◌, some, starts_with, none, Time, ◌≡◌, Ip, [], ◌≢◌, Uuid, Option,
  Text,
}
use hyproxy.Base.{Option-cases, All-find?, find?}
use hyproxy.Idp.Sessions.{split_cookie}
use hyproxy.Settings.{Env}
use hyproxy.Store.{Db, PublicSession, Resource}
use hyproxy.Policy.Glob.{matches}
use hyproxy.Authz.PublicGate.{
  ◌∷◌, update_where, before, contains, false, true, codes, starts_with, some, Time, Ip, Uuid, Text,
  Option, safe_rd, fallback, opens, revoke_public_sessions, resolve_public_session, admits,
}

-- Where the gate sends the browser after the password: the fixed prefix of the first pattern, or a
-- path from the root of the same origin, not of another host, that the resource exposes.
pub safe_rd-exposed :
    (rd : Text) (resource : Resource)
    → safe_rd rd resource ≢ fallback resource
    → (safe_rd rd resource ≡ rd)
      × (starts_with (codes "/") rd ≡ true)
      × (starts_with (codes "//") rd ≡ false)
      × (contains b'\\' rd ≡ false)
      × (matches resource.public_paths (before b'#' (before b'?' rd)) ≡ true)
unfolding safe_rd
safe_rd-exposed rd resource h =
    (ground arith, ground arith, ground arith, ground arith, ground arith)

-- A row that is admitted passes every guard.
admits-own :
    (e : Env) (row : PublicSession) (secret : Text) (resource : Uuid) (addr : Ip) (now : Time)
    → admits e row secret resource addr now ≡ true
    → (row.resource_id ≡ resource)
      × (row.revoked_at ≡ none)
      × (now < row.expires_at)
      × (e.public_session_bind_ip ≡ true → row.source_ip ≡ some addr)
unfolding admits
admits-own e row secret resource addr now h =
    (ground arith, ground arith, ground arith, ground arith)

module _ (e : Env) (cookie : Option Text) (resource : Uuid) (addr : Ip) (now : Time) (db : Db) where
  -- The row that is resolved is the one under the cookie's id, was admitted, and is seen now.
  record Resolved (row : PublicSession) : Type 0 where
    pub id : Uuid
    pub secret : Text
    pub old : PublicSession
    pub held : find? (λ (s : PublicSession). s.id == id) db.public_sessions ≡ some old
    pub admitted : admits e old secret resource addr now ≡ true
    pub seen : row ≡ record old { last_seen_at = now }

  resolve_public_session-found :
      (row : PublicSession)
      → (resolve_public_session e cookie resource addr now db).0 ≡ some row
      → Resolved row
  unfolding resolve_public_session
  resolve_public_session-found row h = elim (Option-cases (split_cookie e cookie)) [
    | inl bad ↦ ground arith
    | inr ((id, secret), parsed) ↦
        elim (Option-cases (find? (λ (s : PublicSession). s.id == id) db.public_sessions)) [
          | inl missing ↦ ground arith
          | inr (old, held) ↦ record {
            id = id;
            secret = secret;
            old = old;
            held = held;
            admitted = ground arith;
            seen = ground arith;
          }
        ]
  ]

  -- A session that is resolved belongs to the resource that the request is for, is neither revoked nor
  -- expired, and where addresses are bound comes from its own.
  pub resolve_public_session-own :
      (row : PublicSession)
      → (resolve_public_session e cookie resource addr now db).0 ≡ some row
      → (row.resource_id ≡ resource)
        × (row.revoked_at ≡ none)
        × (now < row.expires_at)
        × (e.public_session_bind_ip ≡ true → row.source_ip ≡ some addr)
  resolve_public_session-own row h =
      let r = resolve_public_session-found row h in
      let own = admits-own e r.old r.secret resource addr now r.admitted in
      (
        ground (arith, r.seen, own.0, own.1),
        ground (arith, r.seen, own.0, own.1),
        ground (arith, r.seen, own.2),
        λ bound. ground (arith, r.seen, own.3 bound),
      )

closed_rows :
    (resource : Uuid) (at : Time) (rows : List PublicSession)
    → All
        (λ (row : PublicSession). opens row resource ≡ false)
        (update_where
          (λ (row : PublicSession). opens row resource)
          (λ (row : PublicSession). record row { revoked_at = some at })
          rows)
closed_rows resource at [] = tt
closed_rows resource at (row ∷ rows) = (ground arith, closed_rows resource at rows)

-- After the sessions of a resource are revoked, no cookie opens it.
pub revoke_public_sessions-closes :
    (e : Env) (cookie : Option Text) (resource : Uuid) (addr : Ip) (now : Time) (db : Db)
    → (resolve_public_session e cookie resource addr now (revoke_public_sessions e resource db).1).0
      ≡ none
unfolding revoke_public_sessions
revoke_public_sessions-closes e cookie resource addr now db =
    let db' = (revoke_public_sessions e resource db).1 in
    elim (Option-cases (resolve_public_session e cookie resource addr now db').0) [
      | inl closed ↦ closed
      | inr (row, h) ↦
          let r = resolve_public_session-found e cookie resource addr now db' row h in
          let own = admits-own e r.old r.secret resource addr now r.admitted in
          let shut : opens r.old resource ≡ false =
            All-find? (λ (row : PublicSession). opens row resource ≡ false) _ db'.public_sessions
              r.held (closed_rows resource e.utcnow db.public_sessions) in
          ground (arith, own.0, own.1)
    ]
