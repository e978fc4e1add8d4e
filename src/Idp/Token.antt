-- ===== src/Idp/Token.antt =====
-- idp/oidc/token.py, with the minting of idp/oidc/tokens.py: the two grants of the token endpoint. A token
-- is its claims, under the id of the key that signs it; the signature is a library's. The verified proof
-- is an argument, and what is drawn at random is in a record of its own. The ID token of the code grant,
-- which the same key signs, is left out.
pub mod Reuse
pub mod Issued
use hyproxy.Base.{
  ◌&&◌, codes, ◌/◌, leb, seconds, ◌||◌, ◌+◌, is_some, text_eq, ◌==◌, not, drop_while_end,
  if◌then◌else◌, List, Time, Bool, Option, Ip, Uuid, Name, ℕ, none, some, true, false, [], ◌∷◌,
  Text, find?,
}
use hyproxy.Settings.{Env}
use hyproxy.Security.Pkce.{verify_s256}
use hyproxy.Store.{
  Db, User, Session, AuthCode, RefreshToken, OAuthClient, SigningKey, AuthEvent, AuthEventType,
  oidc_code_replay_detected, oidc_token_issued, oidc_token_refreshed, oidc_refresh_reuse_detected,
  emit, get_session, get_user,
}
use hyproxy.Store.Accounts.{
  AuthTier, Amr, UserStatus, active, KeyState, RevokeReason, auth_code_replay, refresh_reuse,
}
use hyproxy.Idp.Sessions.{check_liveness, revoke}
use hyproxy.Idp.Codes.{consume_code, find_consumed}
use hyproxy.Idp.Refresh.{find, issue_family, rotate, revoke_family, revoke_for_session}
use hyproxy.Idp.Replay.{DpopProof, verify_proof}

-- The claims of an access token. Instants are in seconds.
pub record AccessToken : Type 0 where
  pub kid : Name
  pub iss : Text
  pub sub : Text
  pub aud : Name
  pub exp : ℕ
  pub iat : ℕ
  pub jti : Name
  pub sid : Uuid
  pub scope : Text
  pub auth_tier : AuthTier
  pub amr : List Amr
  pub jkt : Name

pub data TokenError : Type 0 where
  invalid_client invalid_dpop_proof invalid_request invalid_grant : TokenError
  unsupported_grant_type : TokenError

pub record TokenResponse : Type 0 where
  pub access_token : AccessToken
  pub expires_in : ℕ
  pub refresh_token : Text
  pub scope : Text

-- What a grant comes to: an error that is answered, tokens, or an exception that is not caught.
pub data GrantResult : Type 0 where
  error : TokenError → GrantResult
  issued : TokenResponse → GrantResult
  no_active_key : GrantResult

pub record Draws : Type 0 where
  pub jti : Name
  pub token : Text
  pub token_id : Uuid
  pub family_id : Uuid

abbrev is_active_key : SigningKey → Bool
is_active_key k = elim k.state [ KeyState.active ↦ true | _ ↦ false ]

abbrev pub is_active_user : User → Bool
is_active_user u = elim u.status [ UserStatus.active ↦ true | _ ↦ false ]

-- `get_active_signing_key`
unfoldable pub active_key : Db → Option SigningKey
active_key db = find? is_active_key db.signing_keys

abbrev grant_event : AuthEventType → Bool → Uuid → Uuid → Name → Ip → AuthEvent
grant_event type success user session client addr = record {
  event_type = type;
  user_id = some user;
  session_id = some session;
  client_id = some client;
  source_ip = addr;
  success = success;
}

module _ (e : Env) where
  unfoldable pub mint_access_token :
      SigningKey → User → Session → Name → Text → Name → Name → Time → AccessToken
  mint_access_token key user session client scope jkt jti now = record {
    kid = key.kid;
    iss = drop_while_end (λ c. c == b'/') e.issuer;
    sub = user.external_id;
    aud = client;
    exp = (now + seconds e.access_ttl) / 1000000;
    iat = now / 1000000;
    jti = jti;
    sid = session.id;
    scope = scope;
    auth_tier = session.auth_tier;
    amr = session.amr;
    jkt = jkt;
  }

  -- `_live_session`
  unfoldable pub live : Uuid → Ip → Time → Db → Option Session × Db
  live id addr now db = elim (get_session id db) [
    | none ↦ (none, db)
    | some row ↦
        let (ok, row', db') = check_liveness e row addr now false db in
        (if ok then some row' else none, db')
  ]

  -- The session is looked up and revoked, if it is there.
  unfoldable pub end_session : Uuid → RevokeReason → Ip → Db → Db
  end_session id reason addr db = elim (get_session id db) [
    | none ↦ db
    | some row ↦ (revoke e row reason addr db).1
  ]

  -- A code that was exchanged before comes again.
  unfoldable pub replayed : OAuthClient → AuthCode → Ip → Db → Db
  replayed client row addr db =
      let ended : Db = elim (get_session row.session_id db) [
        | none ↦ db
        | some session ↦
            (revoke e session auth_code_replay addr (revoke_for_session e session.id db)).1
      ] in
      emit
        (grant_event oidc_code_replay_detected false row.user_id row.session_id client.client_id
          addr)
        ended

  -- The last part of the code grant, for a live session.
  unfoldable pub issue_tokens :
      Draws → OAuthClient → DpopProof → AuthCode → Session → Ip → Time → Db → GrantResult × Db
  issue_tokens draws client proof row session addr now db = elim (get_user session.user_id db) [
    | none ↦ (error invalid_grant, db)
    | some user ↦
        if not (is_active_user user) then (error invalid_grant, db) else elim (active_key db) [
          | none ↦ (no_active_key, db)
          | some key ↦
              let access =
                mint_access_token key user session client.client_id row.scope proof.jkt draws.jti
                  now in
              let (fresh, db') =
                issue_family e session client.client_id row.scope proof.jkt now draws.token
                  draws.token_id draws.family_id db in
              (
                issued (record {
                  access_token = access;
                  expires_in = e.access_ttl;
                  refresh_token = fresh;
                  scope = row.scope;
                }),
                emit (grant_event oidc_token_issued true user.id session.id client.client_id addr)
                    db',
              )
        ]
  ]

  unfoldable pub exchange :
      Draws → OAuthClient → DpopProof → AuthCode → Text → Text → Ip → Time → Db → GrantResult × Db
  exchange draws client proof row redirect_uri verifier addr now db =
      if not (row.client_id == client.client_id)
      then (error invalid_grant, db)
      else if not (text_eq row.redirect_uri redirect_uri)
      then (error invalid_grant, db)
      else if not (verify_s256 e verifier row.code_challenge)
      then (error invalid_grant, db)
      else (let (session, db') = live row.session_id addr now db in
          elim session [
            | none ↦ (error invalid_grant, db')
            | some s ↦ issue_tokens draws client proof row s addr now db'
          ])

  unfoldable pub authorization_code_grant :
      Draws → OAuthClient → DpopProof → Text → Text → Text → Ip → Time → Db → GrantResult × Db
  authorization_code_grant draws client proof code redirect_uri verifier addr now db =
      if text_eq code [] || text_eq redirect_uri [] || text_eq verifier []
      then (error invalid_request, db)
      else (let (found, db') = consume_code e code now db in
          elim found [
            | none ↦ elim (find_consumed e code db') [
              | none ↦ (error invalid_grant, db')
              | some row ↦ (error invalid_grant, replayed client row addr db')
            ]
            | some row ↦ exchange draws client proof row redirect_uri verifier addr now db'
          ])

  -- A used refresh token comes again.
  unfoldable pub reused : OAuthClient → RefreshToken → Ip → Db → Db
  reused client row addr db =
      emit
        (grant_event oidc_refresh_reuse_detected false row.user_id row.session_id client.client_id
          addr)
        (end_session row.session_id refresh_reuse addr (revoke_family e row.family_id db))

  -- The last part of the refresh grant, for a live session.
  unfoldable pub rotate_tokens :
      Draws → OAuthClient → DpopProof → RefreshToken → Session → Ip → Time → Db → GrantResult × Db
  rotate_tokens draws client proof row session addr now db = elim (get_user session.user_id db) [
    | none ↦ (error invalid_grant, db)
    | some user ↦
        if not (is_active_user user)
        then (error invalid_grant, db)
        else (let (fresh, db') = rotate e row now draws.token draws.token_id db in
            elim (active_key db') [
              | none ↦ (no_active_key, db')
              | some key ↦ (
                issued (record {
                  access_token =
                      mint_access_token key user session client.client_id row.scope proof.jkt
                        draws.jti now;
                  expires_in = e.access_ttl;
                  refresh_token = fresh;
                  scope = row.scope;
                }),
                emit
                    (grant_event oidc_token_refreshed true user.id session.id client.client_id addr)
                    db',
              )
            ])
  ]

  unfoldable pub refresh_grant :
      Draws → OAuthClient → DpopProof → Text → Ip → Time → Db → GrantResult × Db
  refresh_grant draws client proof token addr now db =
      if text_eq token [] then (error invalid_request, db) else elim (find e token db) [
        | none ↦ (error invalid_grant, db)
        | some row ↦
            if not (row.client_id == client.client_id)
            then (error invalid_grant, db)
            else if is_some row.used_at
            then (error invalid_grant, reused client row addr db)
            else if is_some row.revoked_at || leb row.expires_at now
            then (error invalid_grant, db)
            else if not (row.dpop_jkt == proof.jkt)
            then (error invalid_grant, db)
            else (let (session, db') = live row.session_id addr now db in
                elim session [
                  | none ↦ (error invalid_grant, db')
                  | some s ↦ rotate_tokens draws client proof row s addr now db'
                ])
      ]

-- The form of a request, and the proof that came with it, if there was one that passes the offline checks.
pub record TokenRequest : Type 0 where
  pub grant_type : Text
  pub client_id : Name
  pub code : Text
  pub redirect_uri : Text
  pub code_verifier : Text
  pub refresh_token : Text
  pub proof : Option DpopProof

unfoldable pub find_client : Name → Db → Option OAuthClient
find_client id db = find? (λ (c : OAuthClient). c.client_id == id && c.enabled) db.oauth_clients

-- The transaction of the request: an exception rolls it back.
settle : Db → GrantResult × Db → GrantResult × Db
settle before (result, after) = (result, elim result [ no_active_key ↦ before | _ ↦ after ])

module _ (e : Env) where
  dispatch : Draws → OAuthClient → DpopProof → TokenRequest → Ip → Time → Db → GrantResult × Db
  dispatch draws client proof form addr now db =
      if text_eq form.grant_type (codes "authorization_code")
      then authorization_code_grant e draws client proof form.code form.redirect_uri
          form.code_verifier addr now db
      else if text_eq form.grant_type (codes "refresh_token")
      then refresh_grant e draws client proof form.refresh_token addr now db
      else (error unsupported_grant_type, db)

  unfoldable pub token_endpoint : Draws → TokenRequest → Ip → Time → Db → GrantResult × Db
  unfolding dispatch settle
  token_endpoint draws form addr now db = elim (find_client form.client_id db) [
    | none ↦ (error invalid_client, db)
    | some client ↦
        let (fresh, db') = verify_proof e form.proof now db in
        elim fresh [
          | none ↦ (error invalid_dpop_proof, db')
          | some proof ↦ settle db (dispatch draws client proof form addr now db')
        ]
  ]
