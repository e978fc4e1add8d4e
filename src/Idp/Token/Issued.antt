-- ===== src/Idp/Token/Issued.antt =====
-- What the tokens of a grant rest on.
use hyproxy.Base.{
  sym, text_eq_iff, ◌∙◌, Time, Uuid, Text, Ip, Option-cases, none, some, true, false, arith, inl,
  inr, ◌≡◌, ◌<◌,
}
use hyproxy.Settings.{Env}
use hyproxy.Security.Pkce.{verify_s256}
use hyproxy.Store.{Db, Session, OAuthClient, RefreshToken, AuthCode, get_session, get_user}
use hyproxy.Idp.Sessions.Liveness.{IsLive, check_liveness_iff}
use hyproxy.Idp.Codes.{consume_code}
use hyproxy.Idp.Refresh.{find, rotate}
use hyproxy.Idp.Replay.{DpopProof}
use hyproxy.Idp.Token.{
  Draws, TokenResponse, issued, active_key, mint_access_token, live, issue_tokens, exchange,
  rotate_tokens, refresh_grant, authorization_code_grant,
}

-- The session that a token is issued on was held under the id and live.
pub record OnLiveSession (e : Env) (id : Uuid) (addr : Ip) (now : Time) (db : Db) : Type 0 where
  pub row : Session
  pub held : get_session id db ≡ some row
  pub is_live : IsLive e row addr now false

-- A code grant that succeeds.
pub record Exchanged (e : Env) (client : OAuthClient) (proof : DpopProof)
    (code redirect_uri verifier : Text) (addr : Ip) (now : Time) (db : Db) (out : TokenResponse)
    : Type 0 where
  pub row : AuthCode
  pub consumed : (consume_code e code now db).0 ≡ some row
  pub same_client : row.client_id ≡ client.client_id
  pub same_redirect : row.redirect_uri ≡ redirect_uri
  pub pkce : verify_s256 e verifier row.code_challenge ≡ true
  pub answers_challenge : e.sha256_b64url verifier ≡ row.code_challenge
  pub session : OnLiveSession e row.session_id addr now (consume_code e code now db).1
  pub bound_key : out.access_token.jkt ≡ proof.jkt
  pub bound_client : out.access_token.aud ≡ client.client_id
  pub same_scope : out.access_token.scope ≡ row.scope

-- A refresh grant that succeeds.
pub record Refreshed (e : Env) (client : OAuthClient) (proof : DpopProof) (token : Text) (addr : Ip)
    (now : Time) (db : Db) (out : TokenResponse) : Type 0 where
  pub row : RefreshToken
  pub found : find e token db ≡ some row
  pub same_client : row.client_id ≡ client.client_id
  pub unused : row.used_at ≡ none
  pub unrevoked : row.revoked_at ≡ none
  pub in_time : now < row.expires_at
  pub same_key : row.dpop_jkt ≡ proof.jkt
  pub session : OnLiveSession e row.session_id addr now db
  pub bound_key : out.access_token.jkt ≡ row.dpop_jkt
  pub same_scope : out.access_token.scope ≡ row.scope

module _ (e : Env) where
  live-found :
      (id : Uuid) (addr : Ip) (now : Time) (db : Db) (session : Session)
      → (live e id addr now db).0 ≡ some session
      → OnLiveSession e id addr now db
  unfolding live
  live-found id addr now db session h = elim (Option-cases (get_session id db)) [
    | inl missing ↦ ground arith
    | inr (row, held) ↦ record {
      row = row;
      held = held;
      is_live = (check_liveness_iff e row addr now false db).0 (ground arith);
    }
  ]

  issue_tokens-issued :
      (draws : Draws) (client : OAuthClient) (proof : DpopProof) (row : AuthCode)
      (session : Session) (addr : Ip) (now : Time) (db : Db) (out : TokenResponse)
      → (issue_tokens e draws client proof row session addr now db).0 ≡ issued out
      → (out.access_token.jkt ≡ proof.jkt)
        × (out.access_token.aud ≡ client.client_id)
        × (out.access_token.scope ≡ row.scope)
  unfolding issue_tokens mint_access_token
  issue_tokens-issued draws client proof row session addr now db out h =
      elim (Option-cases (get_user session.user_id db)) [
        | inl missing ↦ ground arith
        | inr (user, held) ↦ elim (Option-cases (active_key db)) [
          | inl missing ↦ ground arith
          | inr (key, signing) ↦ (ground arith, ground arith, ground arith)
        ]
      ]

  rotate_tokens-issued :
      (draws : Draws) (client : OAuthClient) (proof : DpopProof) (row : RefreshToken)
      (session : Session) (addr : Ip) (now : Time) (db : Db) (out : TokenResponse)
      → (rotate_tokens e draws client proof row session addr now db).0 ≡ issued out
      → (out.access_token.jkt ≡ proof.jkt) × (out.access_token.scope ≡ row.scope)
  unfolding rotate_tokens mint_access_token
  rotate_tokens-issued draws client proof row session addr now db out h =
      let after = (rotate e row now draws.token draws.token_id db).1 in
      elim (Option-cases (get_user session.user_id db)) [
        | inl missing ↦ ground arith
        | inr (user, held) ↦ elim (Option-cases (active_key after)) [
          | inl missing ↦ ground arith
          | inr (key, signing) ↦ (ground arith, ground arith)
        ]
      ]

  challenge_of :
      (verifier challenge : Text)
      → verify_s256 e verifier challenge ≡ true
      → e.sha256_b64url verifier ≡ challenge
  unfolding verify_s256
  challenge_of verifier challenge h =
      (text_eq_iff (e.sha256_b64url verifier) challenge).0 (ground arith)

  exchange-issued :
      (draws : Draws) (client : OAuthClient) (proof : DpopProof) (row : AuthCode)
      (code redirect_uri verifier : Text) (addr : Ip) (now : Time) (db : Db) (out : TokenResponse)
      → (consume_code e code now db).0 ≡ some row
      → (exchange e draws client proof row redirect_uri verifier addr now
          (consume_code e code now db).1).0
        ≡ issued out
      → Exchanged e client proof code redirect_uri verifier addr now db out
  unfolding exchange
  exchange-issued draws client proof row code redirect_uri verifier addr now db out consumed h =
      let spent = (consume_code e code now db).1 in
      elim (Option-cases (live e row.session_id addr now spent).0) [
        | inl missing ↦ ground arith
        | inr (session, held) ↦
            let later = (live e row.session_id addr now spent).1 in
            let i =
              issue_tokens-issued draws client proof row session addr now later out
                (ground arith) in
            record {
              row = row;
              consumed = consumed;
              same_client = ground arith;
              same_redirect = ground (arith, text_eq_iff row.redirect_uri redirect_uri);
              pkce = ground arith;
              answers_challenge = challenge_of verifier row.code_challenge (ground arith);
              session = live-found row.session_id addr now spent session held;
              bound_key = i.0;
              bound_client = i.1;
              same_scope = i.2;
            }
      ]

  -- Where the code grant issues tokens, it exchanged the code just then, for the client and the redirect
  -- URI that the code was issued to, with the verifier of its challenge, on a session that is live; and
  -- the access token is bound to the key of the proof, to the client and to the scope of the code.
  pub authorization_code_grant-issued :
      (draws : Draws) (client : OAuthClient) (proof : DpopProof) (code redirect_uri verifier : Text)
      (addr : Ip) (now : Time) (db : Db) (out : TokenResponse)
      → (authorization_code_grant e draws client proof code redirect_uri verifier addr now db).0
        ≡ issued out
      → Exchanged e client proof code redirect_uri verifier addr now db out
  unfolding authorization_code_grant
  authorization_code_grant-issued draws client proof code redirect_uri verifier addr now db out h =
      elim (Option-cases (consume_code e code now db).0) [
        | inl missing ↦ ground arith
        | inr (row, consumed) ↦
            exchange-issued draws client proof row code redirect_uri verifier addr now db out
              consumed (ground arith)
      ]

  -- Where the refresh grant issues tokens, the refresh token is in the table, of this client, never used,
  -- not revoked and in time, on a session that is live; and the new access token is bound to the key that
  -- the family is bound to, which the proof shows, and to its scope.
  pub refresh_grant-issued :
      (draws : Draws) (client : OAuthClient) (proof : DpopProof) (token : Text) (addr : Ip)
      (now : Time) (db : Db) (out : TokenResponse)
      → (refresh_grant e draws client proof token addr now db).0 ≡ issued out
      → Refreshed e client proof token addr now db out
  unfolding refresh_grant
  refresh_grant-issued draws client proof token addr now db out h =
      elim (Option-cases (find e token db)) [
        | inl missing ↦ ground arith
        | inr (row, found) ↦ elim (Option-cases (live e row.session_id addr now db).0) [
          | inl dead ↦ ground arith
          | inr (session, held) ↦
              let later = (live e row.session_id addr now db).1 in
              let i =
                rotate_tokens-issued draws client proof row session addr now later out
                  (ground arith) in
              let key : row.dpop_jkt ≡ proof.jkt = ground arith in
              record {
                row = row;
                found = found;
                same_client = ground arith;
                unused = ground arith;
                unrevoked = ground arith;
                in_time = ground arith;
                same_key = key;
                session = live-found row.session_id addr now db session held;
                bound_key = i.0 ∙ sym key;
                same_scope = i.1;
              }
        ]
      ]
