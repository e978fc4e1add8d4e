-- ===== src/Idp/Token/Reuse.antt =====
-- What a code or a refresh token that comes twice brings down.
use hyproxy.Base.{
  text_eq_iff, ◌≢◌, Time, Text, is_some, Ip, Uuid, Option-cases, lookup-put, lookup-key, none, some,
  true, [], arith, refl, inl, inr, All, ◌≡◌,
}
use hyproxy.Settings.{Env}
use hyproxy.Store.{Db, Session, OAuthClient, RefreshToken, AuthCode, get_session}
use hyproxy.Store.Accounts.{RevokeReason, auth_code_replay, refresh_reuse}
use hyproxy.Idp.Sessions.{revoke}
use hyproxy.Idp.Sessions.Rows.{session_id}
use hyproxy.Idp.Codes.{consume_code, find_consumed}
use hyproxy.Idp.Refresh.{find, revoke_family, revoke_for_session}
use hyproxy.Idp.Refresh.Families.{revoke_family-revokes, revoke_for_session-revokes}
use hyproxy.Idp.Replay.{DpopProof}
use hyproxy.Idp.Token.{
  Draws, error, invalid_grant, refresh_grant, reused, end_session, replayed,
  authorization_code_grant,
}

-- The session is in the table and revoked.
pub record IsEnded (id : Uuid) (db : Db) : Type 0 where
  pub row : Session
  pub held : get_session id db ≡ some row
  pub dead : is_some row.revoked_at ≡ true

module _ (e : Env) where
  revoke-IsEnded :
      (id : Uuid) (row : Session) (reason : RevokeReason) (addr : Ip) (db : Db)
      → get_session id db ≡ some row
      → IsEnded id (revoke e row reason addr db).1
  unfolding revoke
  revoke-IsEnded id row reason addr db held = elim (Option-cases row.revoked_at) [
    | inr (at, dead) ↦ rw (revoke, dead) (record { row = row; held = held; dead = rw dead })
    | inl open' ↦
        let ended = record row { revoked_at = some e.utcnow; revoke_reason = some reason } in
        let mine : row.id ≡ id = lookup-key session_id id db.sessions held in
        rw (revoke, open')
          (record {
            row = ended;
            held = ground (arith, lookup-put session_id id ended db.sessions);
            dead = refl;
          })
  ]

  pub end_session-tokens :
      (id : Uuid) (reason : RevokeReason) (addr : Ip) (db : Db)
      → (end_session e id reason addr db).refresh_tokens ≡ db.refresh_tokens
  unfolding end_session revoke
  end_session-tokens id reason addr db = ground arith

  pub end_session-IsEnded :
      (id : Uuid) (row : Session) (reason : RevokeReason) (addr : Ip) (db : Db)
      → get_session id db ≡ some row
      → IsEnded id (end_session e id reason addr db)
  unfolding end_session
  end_session-IsEnded id row reason addr db held =
      rw (end_session, held) (revoke-IsEnded id row reason addr db held)

  pub revoke_family-sessions :
      (family id : Uuid) (db : Db) → get_session id (revoke_family e family db) ≡ get_session id db
  unfolding revoke_family
  revoke_family-sessions family id db = refl

  refresh_grant-used :
      (draws : Draws) (client : OAuthClient) (proof : DpopProof) (token : Text) (addr : Ip)
      (now : Time) (db : Db) (row : RefreshToken)
      → token ≢ []
      → find e token db ≡ some row
      → row.client_id ≡ client.client_id
      → is_some row.used_at ≡ true
      → refresh_grant e draws client proof token addr now db
        ≡ (error invalid_grant, reused e client row addr db)
  unfolding refresh_grant
  refresh_grant-used draws client proof token addr now db row given found mine used =
      ground (arith, text_eq_iff token [])

  -- A refresh token that was used comes again, from its client: the answer is invalid_grant, every token
  -- of its family carries a time of revocation, and its session, if the table holds it, is revoked.
  pub refresh_grant-reuse :
      (draws : Draws) (client : OAuthClient) (proof : DpopProof) (token : Text) (addr : Ip)
      (now : Time) (db : Db) (row : RefreshToken) (session : Session)
      → token ≢ []
      → find e token db ≡ some row
      → row.client_id ≡ client.client_id
      → is_some row.used_at ≡ true
      → get_session row.session_id db ≡ some session
      → let out = refresh_grant e draws client proof token addr now db in
        (out.0 ≡ error invalid_grant)
        × All
            (λ (t : RefreshToken). t.family_id ≡ row.family_id → is_some t.revoked_at ≡ true)
            out.1.refresh_tokens
        × IsEnded row.session_id out.1
  unfolding reused
  refresh_grant-reuse draws client proof token addr now db row session given found mine used held =
      let killed = revoke_family e row.family_id db in
      let ended =
        end_session-IsEnded row.session_id session refresh_reuse addr killed
          (cc (held, revoke_family-sessions row.family_id row.session_id db)) in
      rw (refresh_grant-used draws client proof token addr now db row given found mine used) (
        refl,
        rw (end_session-tokens row.session_id refresh_reuse addr killed)
            (revoke_family-revokes e row.family_id db),
        record { row = ended.row; held = ended.held; dead = ended.dead },
      )

  pub revoke-tokens :
      (row : Session) (reason : RevokeReason) (addr : Ip) (db : Db)
      → (revoke e row reason addr db).1.refresh_tokens ≡ db.refresh_tokens
  unfolding revoke
  revoke-tokens row reason addr db = ground arith

  authorization_code_grant-spent :
      (draws : Draws) (client : OAuthClient) (proof : DpopProof) (code redirect_uri verifier : Text)
      (addr : Ip) (now : Time) (db : Db) (row : AuthCode)
      → code ≢ []
      → redirect_uri ≢ []
      → verifier ≢ []
      → (consume_code e code now db).0 ≡ none
      → find_consumed e code (consume_code e code now db).1 ≡ some row
      → authorization_code_grant e draws client proof code redirect_uri verifier addr now db
        ≡ (error invalid_grant, replayed e client row addr (consume_code e code now db).1)
  unfolding authorization_code_grant
  authorization_code_grant-spent draws client proof code redirect_uri verifier addr now db row c r v
        gone was =
      ground (arith, text_eq_iff code [], text_eq_iff redirect_uri [], text_eq_iff verifier [])

  revoke_for_session-sessions :
      (session id : Uuid) (db : Db)
      → get_session id (revoke_for_session e session db) ≡ get_session id db
  unfolding revoke_for_session
  revoke_for_session-sessions session id db = refl

  consume_code-sessions :
      (code : Text) (now : Time) (id : Uuid) (db : Db)
      → get_session id (consume_code e code now db).1 ≡ get_session id db
  unfolding consume_code
  consume_code-sessions code now id db = ground arith

  replayed-ends :
      (client : OAuthClient) (row : AuthCode) (session : Session) (addr : Ip) (db : Db)
      → get_session row.session_id db ≡ some session
      → All
          (λ (t : RefreshToken). t.session_id ≡ row.session_id → is_some t.revoked_at ≡ true)
          (replayed e client row addr db).refresh_tokens
        × IsEnded row.session_id (replayed e client row addr db)
  unfolding replayed
  replayed-ends client row session addr db held =
      let mine : session.id ≡ row.session_id =
        lookup-key session_id row.session_id db.sessions held in
      let killed = revoke_for_session e session.id db in
      let held' : get_session row.session_id killed ≡ some session =
        cc (held, revoke_for_session-sessions session.id row.session_id db) in
      let ended = revoke-IsEnded row.session_id session auth_code_replay addr killed held' in
      rw (replayed, held)
        (
          rw (revoke-tokens session auth_code_replay addr killed)
              (rw mine (revoke_for_session-revokes e row.session_id db)),
          record { row = ended.row; held = ended.held; dead = ended.dead },
        )

  -- A code that was exchanged comes again, with a redirect URI and a verifier that are not empty: the answer is invalid_grant, every refresh token of its session
  -- carries a time of revocation, and the session, which the table holds, is revoked.
  pub authorization_code_grant-replay :
      (draws : Draws) (client : OAuthClient) (proof : DpopProof) (code redirect_uri verifier : Text)
      (addr : Ip) (now : Time) (db : Db) (row : AuthCode) (session : Session)
      → code ≢ []
      → redirect_uri ≢ []
      → verifier ≢ []
      → (consume_code e code now db).0 ≡ none
      → find_consumed e code (consume_code e code now db).1 ≡ some row
      → get_session row.session_id db ≡ some session
      → let out =
          authorization_code_grant e draws client proof code redirect_uri verifier addr now db in
        (out.0 ≡ error invalid_grant)
        × All
            (λ (t : RefreshToken). t.session_id ≡ row.session_id → is_some t.revoked_at ≡ true)
            out.1.refresh_tokens
        × IsEnded row.session_id out.1
  authorization_code_grant-replay draws client proof code redirect_uri verifier addr now db row
        session c r v gone was held =
      let ends =
        replayed-ends client row session addr (consume_code e code now db).1
          (cc (held, consume_code-sessions code now row.session_id db)) in
      rw
        (authorization_code_grant-spent draws client proof code redirect_uri verifier addr now db
          row c r v gone was)
        (refl, ends.0, ends.1)
