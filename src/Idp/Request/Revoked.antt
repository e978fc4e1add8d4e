-- ===== src/Idp/Request/Revoked.antt =====
-- What idp/oidc/revoke.py leaves of a refresh token, and what it lets a caller learn.
use hyproxy.Idp.Request.Accepted.{verify_proof-same}
use hyproxy.Idp.Refresh.Families.{revoke_family-revokes}
use hyproxy.Idp.Token.Reuse.{
  IsEnded, end_session-IsEnded, end_session-tokens, revoke_family-sessions,
}
use mathlib.Core.Path.{subst}
use hyproxy.Idp.Token.{end_session}
use hyproxy.Settings.{Env}
use hyproxy.Idp.Refresh.{find, revoke_family}
use hyproxy.Store.Accounts.{revoked_by_client, RefreshToken, Session}
use hyproxy.Store.{Db, get_session}
use hyproxy.Idp.Request.{end_session, revoke_endpoint}
use hyproxy.Idp.Replay.{DpopProof, verify_proof}
use hyproxy.Base.{
  find?, refl, sym, ◌==◌, ◌∙◌, All, Ip, Option, Text, Time, arith, if◌then◌else◌, is_some, some,
  true, ◌≡◌,
}

module _ (e : Env) where
  -- The answer of the endpoint tells nothing of the token: it is 200 when the proof is good and 400 when it is
  -- not, for a token that is stored, one that is not, and one of another key.
  pub revoke_endpoint-status :
      (token : Text) (offline : Option DpopProof) (addr : Ip) (now : Time) (db : Db)
      → (revoke_endpoint e token offline addr now db).0
        ≡ (if is_some (verify_proof e offline now db).0 then 200 else 400)
  unfolding revoke_endpoint
  revoke_endpoint-status token offline addr now db = ground arith

  -- What the endpoint writes where the proof is of the token's key.
  ended_family :
      (token : Text) (offline : Option DpopProof) (addr : Ip) (now : Time) (db : Db)
      {proof : DpopProof} {row : RefreshToken}
      → (verify_proof e offline now db).0 ≡ some proof
      → find e token (verify_proof e offline now db).1 ≡ some row
      → row.dpop_jkt ≡ proof.jkt
      → (revoke_endpoint e token offline addr now db).1.refresh_tokens
          ≡ (end_session e row.session_id revoked_by_client addr
              (revoke_family e row.family_id (verify_proof e offline now db).1)).refresh_tokens
        × ((revoke_endpoint e token offline addr now db).1.sessions
            ≡ (end_session e row.session_id revoked_by_client addr
                (revoke_family e row.family_id (verify_proof e offline now db).1)).sessions)
  unfolding revoke_endpoint
  ended_family token offline addr now db {proof} {row} h found bound =
      let same : (row.dpop_jkt == proof.jkt) ≡ true = ground arith in
      (rw (revoke_endpoint, h, found, same) refl, rw (revoke_endpoint, h, found, same) refl)

  -- A good proof of the key that a token is bound to ends the token's family and its session: no row of the
  -- family is left that is not revoked, and the session, where the table holds it, is revoked.
  pub revoke_endpoint-ends :
      (token : Text) (offline : Option DpopProof) (addr : Ip) (now : Time) (db : Db)
      (proof : DpopProof) (row : RefreshToken) (session : Session)
      → (verify_proof e offline now db).0 ≡ some proof
      → find e token db ≡ some row
      → row.dpop_jkt ≡ proof.jkt
      → get_session row.session_id db ≡ some session
      → let db' = (revoke_endpoint e token offline addr now db).1 in
        All
          (λ (t : RefreshToken). t.family_id ≡ row.family_id → is_some t.revoked_at ≡ true)
          db'.refresh_tokens
        × IsEnded row.session_id db'
  unfolding find
  revoke_endpoint-ends token offline addr now db proof row session h found bound stored =
      let db1 = (verify_proof e offline now db).1 in
      let same = verify_proof-same e offline now db in
      let found' : find e token db1 ≡ some row =
        subst (λ ts. find? (λ (t : RefreshToken). t.token_hash == e.sha256_hex token) ts ≡ some row)
          (sym same.2) found in
      let stored' : get_session row.session_id db1 ≡ some session =
        subst (λ ss. find? (λ (s : Session). s.id == row.session_id) ss ≡ some session) (sym same.0)
          stored in
      let killed = revoke_family e row.family_id db1 in
      let written = ended_family token offline addr now db h found' bound in
      let ended =
        end_session-IsEnded e row.session_id session revoked_by_client addr killed
          (revoke_family-sessions e row.family_id row.session_id db1 ∙ stored') in
      (
        subst
            (All (λ (t : RefreshToken). t.family_id ≡ row.family_id → is_some t.revoked_at ≡ true))
            (sym (written.0 ∙ end_session-tokens e row.session_id revoked_by_client addr killed))
            (revoke_family-revokes e row.family_id db1),
        record {
          row = ended.row;
          held =
              subst (λ ss. find? (λ (s : Session). s.id == row.session_id) ss ≡ some ended.row)
                (sym written.1) ended.held;
          dead = ended.dead;
        },
      )
