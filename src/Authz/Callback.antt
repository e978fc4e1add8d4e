-- ===== src/Authz/Callback.antt =====
-- authz/gateway.py: the sign-in of the gateway at the identity provider, and idp/oidc/tokens.py
-- (verify_id_token). The exchange of the code is a call of another service, an argument of the model: it
-- takes the database as it stands and gives the one that it leaves, beside its answer.
pub mod Returned
pub mod Once
use hyproxy.Store.Accounts.{Session}
use hyproxy.Idp.Token.{AccessToken}
use hyproxy.Store.Access.{GatewayLoginState, Resource}
use hyproxy.Settings.{Env}
use hyproxy.Idp.Sessions.{cookie_value}
use hyproxy.Idp.Request.{issuer, verify_access_token}
use hyproxy.Store.{GatewaySession, AuthEvent, Db, emit, get_session, session_created}
use hyproxy.Idp.Keys.{is_verifying}
use hyproxy.Base.{
  Bool, Hash, Ip, List, Name, Option, Text, Time, Uuid, [], any, codes, count_where, false, filter,
  find?, if◌then◌else◌, leb, none, not, seconds, some, text_eq, true, ℕ, ◌&&◌, ◌++◌, ◌+◌, ◌==◌,
  ◌||◌, ◌∷◌,
}

pub data GatewayMessage : Type 0 where
  invalid_return_url sign_in_failed missing_code_or_state state_expired sign_in_refused :
      GatewayMessage
  unavailable : GatewayMessage

-- What goes to the authorization endpoint, beside the constants of the request.
pub record SignIn : Type 0 where
  pub client_id : Name
  pub redirect_uri : Text
  pub scope : Text
  pub state : Text
  pub nonce : Text
  pub code_challenge : Text

pub data Reply : Type 0 where
  plain : ℕ → GatewayMessage → Reply
  to_provider : SignIn → Reply
  returned : Text → Text → Reply

-- The claims of an ID token that are read.
pub record IdToken : Type 0 where
  pub kid : Name
  pub iss : Text
  pub aud : Name
  pub exp : ℕ
  pub nonce : Option Text

-- What the exchange of a code comes to, with the tokens as the library decodes them.
pub data Backchannel : Type 0 where
  unreachable rejected : Backchannel
  tokens : Option AccessToken → Option IdToken → Backchannel

pub record GatewayDraws : Type 0 where
  pub state : Text
  pub verifier : Text
  pub nonce : Text
  pub session_id : Uuid
  pub secret : Text

abbrev pub find_state : Hash → Db → Option GatewayLoginState
find_state h db = find? (λ (s : GatewayLoginState). s.state_hash == h) db.gateway_states

abbrev pub delete_state : Hash → Db → Db
delete_state h db = record db {
  gateway_states = filter (λ (s : GatewayLoginState). not (s.state_hash == h)) db.gateway_states;
}

abbrev gateway_event : Session → Name → Ip → AuthEvent
gateway_event session client addr = record {
  event_type = session_created;
  user_id = some session.user_id;
  session_id = some session.id;
  client_id = some client;
  source_ip = addr;
  success = true;
}

module _ (e : Env) where
  -- The host is that of one of the interfaces, where that is configured.
  unfoldable pub is_ui_host : Text → Bool
  is_ui_host host =
      any
        (λ (origin : Text).
          not (text_eq origin [])
          && elim (e.url_host origin) [ none ↦ false | some h ↦ text_eq h host ])
        (e.admin_ui_origin ∷ e.portal_origin ∷ [])

  unfoldable pub is_resource_host : Text → Db → Bool
  is_resource_host host db =
      any
        (λ (r : Resource).
          r.enabled && elim r.public_host [ none ↦ false | some h ↦ text_eq h host ])
        db.resources

  -- A URL that does not parse has no host.
  unfoldable pub valid_return_url : Text → Db → Bool
  valid_return_url rd db =
      if not (text_eq (e.url_scheme rd) e.external_scheme) then false else elim (e.url_host rd) [
        | none ↦ false
        | some [] ↦ false
        | some (c ∷ host) ↦ if is_ui_host (c ∷ host) then true else is_resource_host (c ∷ host) db
      ]

  unfoldable pub gateway_redirect_uri : Text
  gateway_redirect_uri =
      e.external_scheme ++ codes "://" ++ e.auth_host ++ codes "/gateway/callback"

  abbrev pub login_state : GatewayDraws → Text → Ip → Time → GatewayLoginState
  login_state draws rd addr now = record {
    state_hash = e.sha256_hex draws.state;
    code_verifier = draws.verifier;
    nonce = draws.nonce;
    return_url = rd;
    source_ip = addr;
    expires_at = now + seconds e.gateway_state_ttl;
  }

  abbrev sign_in : GatewayDraws → SignIn
  sign_in draws = record {
    client_id = e.gateway_client_id;
    redirect_uri = gateway_redirect_uri;
    scope = codes "openid profile email";
    state = draws.state;
    nonce = draws.nonce;
    code_challenge = e.sha256_b64url draws.verifier;
  }

  unfoldable pub start : GatewayDraws → Text → Ip → Time → Db → Reply × Db
  start draws rd addr now db =
      if text_eq rd [] || not (valid_return_url rd db)
      then (plain 400 invalid_return_url, db)
      else (
        to_provider (sign_in draws),
        record db { gateway_states = db.gateway_states ++ login_state draws rd addr now ∷ [] },
      )

  unfoldable pub verify_id_token : Option IdToken → Name → Time → Db → Option IdToken
  verify_id_token none client now db = none
  verify_id_token (some token) client now db =
      if not (any (is_verifying token.kid) db.signing_keys)
      then none
      else if not (text_eq token.iss (issuer e))
      then none
      else if not (token.aud == client)
      then none
      else if leb (seconds token.exp) now
      then none
      else some token

  abbrev pub has_nonce : IdToken → Text → Bool
  has_nonce claims nonce = elim claims.nonce [ none ↦ false | some n ↦ text_eq n nonce ]

  -- The gateway session over the session that the access token names.
  unfoldable pub open_session :
      GatewayDraws → GatewayLoginState → AccessToken → Ip → Db → Reply × Db
  open_session draws row access addr db = elim (get_session access.sid db) [
    | none ↦ (plain 400 sign_in_refused, db)
    | some session ↦
        let gw : GatewaySession = record {
          id = draws.session_id;
          user_id = session.user_id;
          idp_session_id = session.id;
          cookie_secret_hash = e.sha256_hex draws.secret;
          source_ip = addr;
          revoked_at = none;
        } in
        (
          returned row.return_url (cookie_value e draws.session_id draws.secret),
          emit (gateway_event session e.gateway_client_id addr)
              (record db { gateway_sessions = db.gateway_sessions ++ gw ∷ [] }),
        )
  ]

  unfoldable pub accept_tokens :
      GatewayDraws
      → GatewayLoginState
      → Option AccessToken
      → Option IdToken
      → Ip
      → Time
      → Db
      → Reply × Db
  accept_tokens draws row access id_token addr now db = elim (verify_access_token e access now db) [
    | none ↦ (plain 400 sign_in_refused, db)
    | some claims ↦ elim (verify_id_token id_token e.gateway_client_id now db) [
      | none ↦ (plain 400 sign_in_refused, db)
      | some id_claims ↦
          if not (has_nonce id_claims row.nonce)
          then (plain 400 sign_in_refused, db)
          else open_session draws row claims addr db
    ]
  ]

  module _ (exchange_code : Text → Text → Text → Db → Backchannel × Db) where
    -- The state is deleted before the exchange.
    unfoldable pub exchanged : GatewayDraws → GatewayLoginState → Text → Ip → Time → Db → Reply × Db
    exchanged draws row code addr now db =
        let (outcome, db') =
          exchange_code code gateway_redirect_uri row.code_verifier
            (delete_state row.state_hash db) in
        elim outcome [
          | unreachable ↦ (plain 502 unavailable, db')
          | rejected ↦ (plain 400 sign_in_refused, db')
          | tokens access id_token ↦ accept_tokens draws row access id_token addr now db'
        ]

    unfoldable pub callback : GatewayDraws → Text → Text → Text → Ip → Time → Db → Reply × Db
    callback draws code state failure addr now db =
        if not (text_eq failure [])
        then (plain 400 sign_in_failed, db)
        else if text_eq code [] || text_eq state []
        then (plain 400 missing_code_or_state, db)
        else elim (find_state (e.sha256_hex state) db) [
          | none ↦ (plain 400 state_expired, db)
          | some row ↦
              if leb row.expires_at now || not (row.source_ip == addr)
              then (plain 400 state_expired, db)
              else exchanged draws row code addr now db
        ]

unfoldable pub gc_login_states : Time → Db → ℕ × Db
gc_login_states now db = (
  count_where (λ (s : GatewayLoginState). leb s.expires_at now) db.gateway_states,
  record db {
    gateway_states =
        filter (λ (s : GatewayLoginState). not (leb s.expires_at now)) db.gateway_states;
  },
)
