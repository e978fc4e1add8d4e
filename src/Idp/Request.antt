-- ===== src/Idp/Request.antt =====
-- idp/sessions.py (check_request), idp/oidc/tokens.py (verify_access_token), idp/oidc/revoke.py and
-- idp/oidc/userinfo.py: what stands behind a token that comes back. The decoding of a token under the key
-- that its header names, and the checks on a proof that need no database, are arguments.
pub mod Accepted
pub mod Revoked
use hyproxy.Idp.Token.{end_session}
use hyproxy.Idp.Keys.{is_verifying, in_state}
use hyproxy.Settings.{Env}
use hyproxy.Idp.Token.{end_session, AccessToken, is_active_user}
use hyproxy.Idp.Refresh.{find, revoke_family}
use hyproxy.Idp.Sessions.{check_liveness}
use hyproxy.Idp.Replay.{DpopProof, verify_proof}
use hyproxy.Store.Accounts.{KeyState, Session, SigningKey, User, revoked_by_client}
use hyproxy.Store.{Db, emit, get_session, get_user, oidc_token_revoked}
use hyproxy.Base.{
  skip, Bool, Ip, Name, Option, Result, Text, Time, [], any, codes, drop_while_end, err,
  if◌then◌else◌, leb, none, not, ok, seconds, some, starts_with, strip, text_eq, true, ℕ, ◌&&◌,
  ◌==◌, ◌||◌, ◌∷◌,
}

pub data AuthError : Type 0 where
  invalid_token invalid_proof : AuthError

pub record AuthedRequest : Type 0 where
  pub session : Session
  pub user : User
  pub claims : AccessToken

module _ (e : Env) where
  abbrev pub issuer : Text
  issuer = drop_while_end (λ c. c == b'/') e.issuer

  -- The token as the library decodes it.
  unfoldable pub verify_access_token : Option AccessToken → Time → Db → Option AccessToken
  verify_access_token none now db = none
  verify_access_token (some token) now db =
      if not (any (is_verifying token.kid) db.signing_keys)
      then none
      else if not (text_eq token.iss issuer)
      then none
      else if leb (seconds token.exp) now
      then none
      else some token

  -- The session and its user, once the token and the proof are good.
  unfoldable pub check_session : AccessToken → Ip → Time → Db → Result AuthError AuthedRequest × Db
  check_session token addr now db = elim (get_session token.sid db) [
    | none ↦ (err invalid_token, db)
    | some row ↦
        let (alive, row', db') = check_liveness e row addr now true db in
        if not alive then (err invalid_token, db') else (
          elim (get_user row'.user_id db') [
            | none ↦ err invalid_token
            | some user ↦
                if is_active_user user
                then ok (record { session = row'; user = user; claims = token })
                else err invalid_token
          ],
          db',
        )
  ]

  module _ (decode : Text → Option AccessToken)
      (offline : Text → Text → Name → Option DpopProof) where
    unfoldable pub check_proof :
        AccessToken → Text → Option Text → Ip → Time → Db → Result AuthError AuthedRequest × Db
    check_proof token given none addr now db = (err invalid_proof, db)
    check_proof token given (some []) addr now db = (err invalid_proof, db)
    check_proof token given (some (c ∷ t)) addr now db =
        let (proof, db') = verify_proof e (offline (c ∷ t) given token.jkt) now db in
        elim proof [ none ↦ (err invalid_proof, db') | some _ ↦ check_session token addr now db' ]

    unfoldable pub check_request :
        Option Text → Option Text → Ip → Time → Db → Result AuthError AuthedRequest × Db
    check_request none dpop addr now db = (err invalid_token, db)
    check_request (some header) dpop addr now db =
        if not (starts_with (codes "DPoP ") header)
        then (err invalid_token, db)
        else (let given = strip (skip 5 header) in
            elim (verify_access_token (decode given) now db) [
              | none ↦ (err invalid_token, db)
              | some token ↦ check_proof token given dpop addr now db
            ])

  -- The answer's status, and what is left. The proof is `none` where the header is missing.
  unfoldable pub revoke_endpoint : Text → Option DpopProof → Ip → Time → Db → ℕ × Db
  revoke_endpoint token offline addr now db =
      let (proof, db') = verify_proof e offline now db in
      elim proof [
        | none ↦ (400, db')
        | some p ↦ elim (find e token db') [
          | none ↦ (200, db')
          | some row ↦
              if row.dpop_jkt == p.jkt
              then (
                200,
                emit
                    (record {
                      event_type = oidc_token_revoked;
                      user_id = some row.user_id;
                      session_id = some row.session_id;
                      client_id = some row.client_id;
                      source_ip = addr;
                      success = true;
                    })
                    (end_session e row.session_id revoked_by_client addr
                      (revoke_family e row.family_id db')),
              )
              else (200, db')
        ]
      ]
