-- ===== src/Idp/Authorize.antt =====
-- idp/oidc/authorize.py: the request for a code, and the logout that the relying party starts. The query is
-- its parameters, in order.
pub mod Targets
pub mod Exchange
use hyproxy.Idp.Codes.{issue_code}
use hyproxy.Idp.Flows.{create_flow}
use hyproxy.Security.Pkce.{valid_challenge}
use hyproxy.Idp.Sessions.{get_session_from_cookie, revoke}
use hyproxy.Store.Accounts.{OAuthClient, RevokeReason, Session}
use hyproxy.Settings.{Env}
use hyproxy.Idp.Login.{
  Browser, LoginDraws, Response, answer, error_page, invalid_redirect, redirect, set_to,
  unknown_application,
}
use hyproxy.Store.{AuthEvent, Db, emit, oidc_code_issued}
use hyproxy.Base.{
  String, Bool, Ip, List, Name, Option, Result, Text, Time, [], any, codes, err, find?,
  if◌then◌else◌, is_space, leb, length, ltb, name_of, none, not, ok, some, text_eq, true, ℕ, ◌&&◌,
  ◌++◌, ◌==◌, ◌||◌, ◌∷◌,
}

-- `query_params.get(key)`, which is the last value
unfoldable pub param : Text → List (Text × Text) → Option Text
param key [] = none
param key ((k, v) ∷ q) = elim (param key q) [
  | some w ↦ some w
  | none ↦ if text_eq k key then some v else none
]

-- `value or ""`
abbrev pub text_or_empty : Option Text → Text
text_or_empty none = []
text_or_empty (some t) = t

abbrev pub mem_text : Text → List Text → Bool
mem_text t = any (text_eq t)

-- The word that a character joins, or begins.
abbrev join_word : ℕ → Text → List Text → List Text
join_word c [] rest = (c ∷ []) ∷ rest
join_word c (d ∷ t) [] = (c ∷ []) ∷ []
join_word c (d ∷ t) (w ∷ ws) = if is_space d then (c ∷ []) ∷ w ∷ ws else (c ∷ w) ∷ ws

-- `text.split()`
unfoldable pub words : Text → List Text
words [] = []
words (c ∷ t) = let rest = words t in if is_space c then rest else join_word c t rest

-- `not set(scopes) <= set(allowed)`
abbrev pub exceeds : List Text → List Text → Bool
exceeds scopes permitted = any (λ s. not (mem_text s permitted)) scopes

unfoldable pub enabled_client : Option Text → Db → Option OAuthClient
enabled_client none db = none
enabled_client (some []) db = none
enabled_client (some (c ∷ t)) db =
    find? (λ (o : OAuthClient). o.client_id == name_of (c ∷ t) && o.enabled) db.oauth_clients

abbrev pub given : String → List (Text × Text) → Text
given key q = text_or_empty (param (codes key) q)

-- STATE_MIN and STATE_MAX bound the state.
unfoldable pub bad_state : List (Text × Text) → Bool
bad_state q = not (leb 16 (length (given "state" q)) && leb (length (given "state" q)) 512)

unfoldable pub bad_type : List (Text × Text) → Bool
bad_type q = not (text_eq (given "response_type" q) (codes "code"))

unfoldable pub bad_scope : List (Text × Text) → OAuthClient → Bool
bad_scope q client =
    let scopes = words (given "scope" q) in
    not (mem_text (codes "openid") scopes) || exceeds scopes client.allowed_scopes

unfoldable pub bad_nonce : List (Text × Text) → Bool
bad_nonce q = text_eq (given "nonce" q) [] || ltb 512 (length (given "nonce" q))

unfoldable pub bad_method : List (Text × Text) → Bool
bad_method q = not (text_eq (given "code_challenge_method" q) (codes "S256"))

unfoldable pub bad_challenge : List (Text × Text) → Bool
bad_challenge q =
    text_eq (given "code_challenge" q) [] || not (valid_challenge (given "code_challenge" q))

-- What the checks leave of a request that may have a code.
pub record CodeRequest : Type 0 where
  pub client : OAuthClient
  pub client_text : Text
  pub redirect_uri : Text
  pub state : Text
  pub scope : Text
  pub nonce : Text
  pub code_challenge : Text

abbrev code_event : Session → Name → Ip → AuthEvent
code_event session client addr = record {
  event_type = oidc_code_issued;
  user_id = some session.user_id;
  session_id = some session.id;
  client_id = some client;
  source_ip = addr;
  success = true;
}

module _ (e : Env) where
  -- The description of an error, where there is one, and the state, where it is valid.
  unfoldable pub redirect_error : Text → Text → Option Text → Option Text → Response
  redirect_error redirect_uri kind state description =
      let described : List (Text × Text) = elim description [
        | none ↦ []
        | some d ↦ (codes "error_description", d) ∷ []
      ] in
      let stated : List (Text × Text) = elim state [
        | none ↦ []
        | some s ↦ (codes "state", s) ∷ []
      ] in
      answer 302 (
        redirect (redirect_uri ++ b'?' ∷ e.urlencode ((codes "error", kind) ∷ described ++ stated)))

  -- The checks behind the redirect URI, whose errors go back to it.
  unfoldable pub read_request :
      List (Text × Text) → OAuthClient → Text → Result Response CodeRequest
  read_request q client uri =
      let state = given "state" q in
      let invalid : Text → Response = λ description.
        redirect_error uri (codes "invalid_request") (some state) (some description) in
      if bad_state q
      then err (redirect_error uri (codes "invalid_request") none (some (codes "state required")))
      else if bad_type q
      then err (redirect_error uri (codes "unsupported_response_type") (some state) none)
      else if bad_scope q client
      then err (redirect_error uri (codes "invalid_scope") (some state) none)
      else if bad_nonce q
      then err (invalid (codes "nonce required"))
      else if bad_method q
      then err (invalid (codes "code_challenge_method must be S256"))
      else if bad_challenge q
      then err (invalid (codes "invalid code_challenge"))
      else ok (record {
        client = client;
        client_text = given "client_id" q;
        redirect_uri = uri;
        state = state;
        scope = given "scope" q;
        nonce = given "nonce" q;
        code_challenge = given "code_challenge" q;
      })

  -- The parameters that the login flow keeps.
  abbrev pub parked : CodeRequest → List (Text × Text)
  parked r =
      (codes "client_id", r.client_text)
      ∷ (codes "redirect_uri", r.redirect_uri)
      ∷ (codes "response_type", codes "code")
      ∷ (codes "scope", r.scope)
      ∷ (codes "state", r.state)
      ∷ (codes "nonce", r.nonce)
      ∷ (codes "code_challenge", r.code_challenge)
      ∷ (codes "code_challenge_method", codes "S256")
      ∷ []

  unfoldable pub park : LoginDraws → CodeRequest → Browser → Time → Db → Response × Db
  park draws r b now db =
      let (row, db') = create_flow e b.addr (parked r) now draws.flow_id draws.csrf db in
      (
        record (answer 303 (redirect (codes "/auth/login?flow=" ++ e.uuid_str row.id))) {
          flow_cookie = set_to row.id;
        },
        db',
      )

  -- The code is what was drawn for the session's secret.
  unfoldable pub give_code :
      LoginDraws → CodeRequest → Session → Browser → Time → Db → Response × Db
  give_code draws r session b now db =
      let (code, db') =
        issue_code e session r.client.client_id r.redirect_uri r.scope r.nonce r.code_challenge now
          draws.session_secret db in
      (
        answer 302 (
            redirect (
              r.redirect_uri
              ++ b'?' ∷ e.urlencode ((codes "code", code) ∷ (codes "state", r.state) ∷ []))),
        emit (code_event session r.client.client_id b.addr) db',
      )

  unfoldable pub grant_code : LoginDraws → CodeRequest → Browser → Time → Db → Response × Db
  grant_code draws r b now db =
      let (session, db') = get_session_from_cookie e b.session_cookie b.addr now db in
      elim session [ none ↦ park draws r b now db' | some s ↦ give_code draws r s b now db' ]

  unfoldable pub authorize : LoginDraws → List (Text × Text) → Browser → Time → Db → Response × Db
  authorize draws q b now db = elim (enabled_client (param (codes "client_id") q) db) [
    | none ↦ (answer 400 (error_page unknown_application), db)
    | some client ↦
        let redirect_uri = given "redirect_uri" q in
        if text_eq redirect_uri [] || not (mem_text redirect_uri client.redirect_uris)
        then (answer 400 (error_page invalid_redirect), db)
        else elim (read_request q client redirect_uri) [
          | err r ↦ (r, db)
          | ok r ↦ grant_code draws r b now db
        ]
  ]

  -- The origin of a URI that the client has registered.
  abbrev pub same_origin : Text → Text → Bool
  same_origin want uri =
      text_eq (e.url_scheme want) (e.url_scheme uri)
      && text_eq (e.url_netloc want) (e.url_netloc uri)

  unfoldable pub logout_target : List (Text × Text) → Db → Text
  logout_target q db =
      let requested = given "post_logout_redirect_uri" q in
      if text_eq requested []
      then codes "/auth/login"
      else elim (enabled_client (param (codes "client_id") q) db) [
        | none ↦ codes "/auth/login"
        | some client ↦
            if any (same_origin requested) client.redirect_uris
            then requested
            else codes "/auth/login"
      ]

  -- The answer also deletes the cookie of the session.
  unfoldable pub logout : List (Text × Text) → Browser → Time → Db → Response × Db
  logout q b now db =
      let (session, db') = get_session_from_cookie e b.session_cookie b.addr now db in
      let ended : Db = elim session [
        | none ↦ db'
        | some s ↦ (revoke e s RevokeReason.logout b.addr db').1
      ] in
      (answer 303 (redirect (logout_target q ended)), ended)
