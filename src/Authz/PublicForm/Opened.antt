-- ===== src/Authz/PublicForm/Opened.antt =====
-- When the form of a public resource opens it, and what its cookie is good for then.
use mathlib.Core.Path.{subst}
use hyproxy.Security.Ratelimit.{check}
use hyproxy.Authz.PublicGate.{admits, resolve_public_session, safe_rd}
use hyproxy.Store.{Db}
use hyproxy.Settings.{Env}
use hyproxy.Idp.Sessions.{split_cookie, cookie_value}
use hyproxy.Store.Access.{PublicSession, Resource}
use hyproxy.Authz.PublicForm.{
  GateDraws, GateRequest, check_gate, gate_key, gate_submit, opened, opened_session,
  resource_for_request, right_gate_password, text_of,
}
use hyproxy.Base.{
  ==_refl, after-append, before-append, contains, contains-append_sep, false, find?, find?-snoc,
  none, seconds, ◌+◌, ◌<◌, ◌==◌, Hash, Option-cases, Text, Time, [], ap, arith, inl, inr, some, sym,
  text_eq_iff, true, ◌++◌, ◌∙◌, ◌∷◌, ◌≡◌,
}

module _ (e : Env) (request : GateRequest) (given rd csrf : Text) (draws : GateDraws) (now : Time)
    (db : Db) where
  -- What stands behind a session that the form opens.
  pub record IsOpened (target cookie : Text) : Type 0 where
    pub resource : Resource
    pub found : resource_for_request e request db ≡ some resource
    pub same_form : request.csrf_cookie ≡ some csrf
    pub unthrottled :
        (check db.auth_throttle request.addr (some (gate_key e resource)) now).allowed ≡ true
    pub stored : Hash
    pub set : resource.public_password_hash ≡ some stored
    pub right : e.verify_hash stored given ≡ true
    pub sent_to : target ≡ safe_rd rd resource
    pub cookie_of : cookie ≡ cookie_value e draws.session_id draws.secret
    pub added :
        (gate_submit e request given rd csrf draws now db).1.public_sessions
        ≡ db.public_sessions ++ opened_session e resource draws request.addr now ∷ []

  -- The form sends a browser on with a cookie only for the enabled public resource under the host of the request,
  -- with a token that is in the browser's own cookie, when neither its address nor the resource is slowed down, and
  -- with the password whose hash the resource holds; the return path is one that the resource exposes or its
  -- fallback, and one session is added.
  pub gate_submit-IsOpened :
      (target cookie : Text)
      → (gate_submit e request given rd csrf draws now db).0 ≡ opened target cookie
      → IsOpened target cookie
  unfolding gate_submit check_gate right_gate_password text_of
  gate_submit-IsOpened target cookie h = elim (Option-cases (resource_for_request e request db)) [
    | inl unknown ↦ let no : ⊥ = ground arith in elim no [ ]
    | inr (resource, found) ↦ elim (Option-cases request.csrf_cookie) [
      | inl bare ↦ let no : ⊥ = ground arith in elim no [ ]
      | inr (token, carried) ↦ elim (Option-cases resource.public_password_hash) [
        | inl unset ↦ let no : ⊥ = ground arith in elim no [ ]
        | inr (stored, set) ↦
            let one : csrf ≡ token = ground (arith, text_eq_iff csrf token) in
            record {
              resource = resource;
              found = found;
              same_form = carried ∙ ap some (sym one);
              unthrottled = ground arith;
              stored = stored;
              set = set;
              right = ground arith;
              sent_to = ground arith;
              cookie_of = ground arith;
              added = ground arith;
            }
      ]
    ]
  ]

  -- The id of a session that the form opens is printed without a dot, read back as itself, and is new.
  pub record IsFreshId : Type 0 where
    pub dotless : contains b'.' (e.uuid_str draws.session_id) ≡ false
    pub parsed : e.parse_uuid (e.uuid_str draws.session_id) ≡ some draws.session_id
    pub unused : find? (λ (s : PublicSession). s.id == draws.session_id) db.public_sessions ≡ none

  split_own :
      IsFreshId
      → split_cookie e (some (cookie_value e draws.session_id draws.secret))
        ≡ some (draws.session_id, draws.secret)
  unfolding split_cookie
  split_own fresh = ground (
    arith,
    fresh.parsed,
    before-append b'.' (e.uuid_str draws.session_id) draws.secret fresh.dotless,
    after-append b'.' (e.uuid_str draws.session_id) draws.secret fresh.dotless,
    contains-append_sep b'.' (e.uuid_str draws.session_id) draws.secret,
  )

  admits_own :
      (resource : Resource) (later : Time)
      → later < now + seconds e.public_session_ttl
      → admits e
          (opened_session e resource draws request.addr now)
          draws.secret
          resource.id
          request.addr
          later
        ≡ true
  unfolding admits
  admits_own resource later soon =
      ground (arith, ==_refl resource.id, ==_refl (e.sha256_hex draws.secret), ==_refl request.addr)

  -- The cookie that the form hands out opens the resource, from the address it was handed to, until the time to
  -- live of a public session is over: the session that is resolved is the one that the form added, seen then. The
  -- id of the session is printed without a dot, reads back as itself, and is new.
  pub gate_submit-resolves :
      (resource : Resource) (target cookie : Text) (later : Time)
      → resource_for_request e request db ≡ some resource
      → (gate_submit e request given rd csrf draws now db).0 ≡ opened target cookie
      → IsFreshId
      → later < now + seconds e.public_session_ttl
      → (resolve_public_session e
          (some cookie)
          resource.id
          request.addr
          later
          (gate_submit e request given rd csrf draws now db).1).0
        ≡ some (record (opened_session e resource draws request.addr now) { last_seen_at = later })
  unfolding resolve_public_session
  gate_submit-resolves resource target cookie later known h fresh soon =
      let o = gate_submit-IsOpened target cookie h in
      let same : o.resource ≡ resource = cc (o.found, known) in
      let new = opened_session e resource draws request.addr now in
      let rows = (gate_submit e request given rd csrf draws now db).1.public_sessions in
      let added : rows ≡ db.public_sessions ++ new ∷ [] =
        subst
          (λ (r : Resource).
            rows ≡ db.public_sessions ++ opened_session e r draws request.addr now ∷ [])
          same o.added in
      let parts : split_cookie e (some cookie) ≡ some (draws.session_id, draws.secret) =
        ap (λ c. split_cookie e (some c)) o.cookie_of ∙ split_own fresh in
      let held : find? (λ (s : PublicSession). s.id == draws.session_id) rows ≡ some new =
        ap (find? (λ (s : PublicSession). s.id == draws.session_id)) added
        ∙ ground (
          arith,
          fresh.unused,
          ==_refl draws.session_id,
          find?-snoc (λ (s : PublicSession). s.id == draws.session_id) new db.public_sessions,
        ) in
      ground (arith, admits_own resource later soon)
