-- ===== src/Idp/Request/Accepted.antt =====
-- Which requests `check_request` of idp/sessions.py lets through, and that a minted token comes back good.
use hyproxy.Security.Recovery.Spent.{accepted}
use hyproxy.Idp.Replay.{DpopProof, verify_proof}
use mathlib.Core.Path.{subst}
use hyproxy.Idp.Phases.Kept.{check_liveness-Kept}
use hyproxy.Settings.{Env}
use hyproxy.Idp.Token.{AccessToken, is_active_user, mint_access_token}
use hyproxy.Idp.Keys.{is_verifying}
use hyproxy.Store.{Db, get_session, get_user}
use hyproxy.Idp.Sessions.Liveness.{IsLive, check_liveness_iff}
use hyproxy.Idp.Request.{
  check_proof, check_request, AuthedRequest, check_session, issuer, verify_access_token,
}
use hyproxy.Idp.Sessions.{check_liveness}
use hyproxy.Store.Accounts.{Session, SigningKey, User}
use hyproxy.Base.{
  [], ap, codes, is_some, skip, starts_with, strip, sym, ◌∙◌, ◌∷◌, Option, find?, none, ◌==◌,
  Bool-cases, Ip, Name, Option-cases, Text, Time, any, arith, inl, inr, ok, refl, seconds, some,
  text_eq_iff, true, ◌+◌, ◌/◌, ◌<◌, ◌≡◌,
}

module _ (e : Env) where
  -- A token that the server minted is accepted, with the claims it was given, as long as the key that signed it
  -- is active or retiring and the second it expires in has not begun.
  pub verify_access_token-mint :
      (key : SigningKey) (user : User) (session : Session) (client : Name) (scope : Text)
      (jkt jti : Name) (now later : Time) (db : Db)
      → any (is_verifying key.kid) db.signing_keys ≡ true
      → later < seconds ((now + seconds e.access_ttl) / 1000000)
      → verify_access_token e
          (some (mint_access_token e key user session client scope jkt jti now))
          later
          db
        ≡ some (mint_access_token e key user session client scope jkt jti now)
  unfolding verify_access_token mint_access_token
  verify_access_token-mint key user session client scope jkt jti now later db known soon =
      ground (arith, (text_eq_iff (issuer e) (issuer e)).1 refl)

  -- The user that a request is let through for, and their session.
  pub record IsAccepted (r : AuthedRequest) (addr : Ip) (now : Time) (db : Db) : Type 0 where
    pub row : Session
    pub stored : get_session r.claims.sid db ≡ some row
    pub live : IsLive e row addr now true
    pub same_user : r.session.user_id ≡ row.user_id
    pub user : get_user row.user_id db ≡ some r.user
    pub active_user : is_active_user r.user ≡ true

  same_holder :
      (row : Session) (addr : Ip) (now : Time) (db : Db)
      → (check_liveness e row addr now true db).1.user_id ≡ row.user_id
  unfolding check_liveness
  same_holder row addr now db = ground arith

  check_session-IsAccepted :
      (token : AccessToken) (addr : Ip) (now : Time) (db : Db) (r : AuthedRequest)
      → (check_session e token addr now db).0 ≡ ok r
      → IsAccepted r addr now db × (r.claims ≡ token)
  unfolding check_session
  check_session-IsAccepted token addr now db r h = elim (Option-cases (get_session token.sid db)) [
    | inl unknown ↦ ground arith
    | inr (row, stored) ↦ elim (Bool-cases (check_liveness e row addr now true db).0) [
      | inr dead ↦ ground arith
      | inl alive ↦
          let after = check_liveness e row addr now true db in
          let live = (check_liveness_iff e row addr now true db).0 alive in
          let holder = same_holder row addr now db in
          let kept_db = check_liveness-Kept e row addr now true db in
          elim (Option-cases (get_user after.1.user_id after.2)) [
            | inl gone ↦ ground arith
            | inr (user, known) ↦
                let here_user : get_user row.user_id db ≡ some user =
                  subst (λ us. find? (λ (u : User). u.id == row.user_id) us ≡ some user)
                    kept_db.kept_users
                    (subst (λ i. find? (λ (u : User). u.id == i) after.2.users ≡ some user) holder
                      known) in
                let made : record { session = after.1; user = user; claims = token } ≡ r =
                  ground arith in
                let is_on : is_active_user user ≡ true = ground arith in
                subst (λ (x : AuthedRequest). IsAccepted x addr now db × (x.claims ≡ token)) made
                  (
                    record {
                      row = row;
                      stored = stored;
                      live = live;
                      same_user = holder;
                      user = here_user;
                      active_user = is_on;
                    },
                    refl,
                  )
          ]
    ]
  ]

  pub verify_proof-same :
      (proof : Option DpopProof) (now : Time) (db : Db)
      → ((verify_proof e proof now db).1.sessions ≡ db.sessions)
        × ((verify_proof e proof now db).1.users ≡ db.users)
        × ((verify_proof e proof now db).1.refresh_tokens ≡ db.refresh_tokens)
  unfolding verify_proof
  verify_proof-same none now db = (refl, refl, refl)
  verify_proof-same (some p) now db = ground arith

  IsAccepted-same :
      {r : AuthedRequest} {addr : Ip} {now : Time} {db db' : Db}
      → db'.sessions ≡ db.sessions
      → db'.users ≡ db.users
      → IsAccepted r addr now db'
      → IsAccepted r addr now db
  IsAccepted-same {r} same_sessions same_users h = record {
    row = h.row;
    stored =
        subst (λ ss. find? (λ (s : Session). s.id == r.claims.sid) ss ≡ some h.row) same_sessions
          h.stored;
    live = h.live;
    same_user = h.same_user;
    user =
        subst (λ us. find? (λ (u : User). u.id == h.row.user_id) us ≡ some r.user) same_users
          h.user;
    active_user = h.active_user;
  }

  module _ (decode : Text → Option AccessToken)
      (offline : Text → Text → Name → Option DpopProof) where
    check_proof-IsAccepted :
        (token : AccessToken) (given : Text) (dpop : Option Text) (addr : Ip) (now : Time) (db : Db)
        (r : AuthedRequest)
        → (check_proof e decode offline token given dpop addr now db).0 ≡ ok r
        → IsAccepted r addr now db
          × (r.claims ≡ token)
          × (t : Text) × (dpop ≡ some t)
          × is_some (verify_proof e (offline t given token.jkt) now db).0 ≡ true
    unfolding check_proof
    check_proof-IsAccepted token given none addr now db r h = ground arith
    check_proof-IsAccepted token given (some []) addr now db r h = ground arith
    check_proof-IsAccepted token given (some (c ∷ t)) addr now db r h =
        let checked = verify_proof e (offline (c ∷ t) given token.jkt) now db in
        let same = verify_proof-same (offline (c ∷ t) given token.jkt) now db in
        elim (Option-cases checked.0) [
          | inl refused ↦ ground arith
          | inr (proof, fresh) ↦
              let passed : (check_session e token addr now checked.1).0 ≡ ok r = ground arith in
              let (accepted, ours) = check_session-IsAccepted token addr now checked.1 r passed in
              (IsAccepted-same same.0 same.1 accepted, ours, c ∷ t, refl, ground arith)
        ]

    -- A request that `check_request` lets through brought a token that decodes, under our issuer and a key that
    -- verifies, and is not expired; a proof of the key that the token is bound to, fresh at that moment; and it
    -- came from the address of a live session, of which the user is active.
    pub check_request-IsAccepted :
        (header : Text) (dpop : Option Text) (addr : Ip) (now : Time) (db : Db) (r : AuthedRequest)
        → (check_request e decode offline (some header) dpop addr now db).0 ≡ ok r
        → IsAccepted r addr now db
          × (verify_access_token e (decode (strip (skip 5 header))) now db ≡ some r.claims)
          × (t : Text) × (dpop ≡ some t)
          × is_some (verify_proof e (offline t (strip (skip 5 header)) r.claims.jkt) now db).0
            ≡ true
    unfolding check_request
    check_request-IsAccepted header dpop addr now db r h =
        let given = strip (skip 5 header) in
        elim (Bool-cases (starts_with (codes "DPoP ") header)) [
          | inr other ↦ ground arith
          | inl dpop_scheme ↦ elim (Option-cases (verify_access_token e (decode given) now db)) [
            | inl refused ↦ ground arith
            | inr (token, good) ↦
                let passed : (check_proof e decode offline token given dpop addr now db).0 ≡ ok r =
                  ground arith in
                let (accepted, ours, t, sent, fresh) =
                  check_proof-IsAccepted token given dpop addr now db r passed in
                (
                  accepted,
                  good ∙ ap some (sym ours),
                  t,
                  sent,
                  subst
                      (λ (c : AccessToken).
                        is_some (verify_proof e (offline t given c.jkt) now db).0 ≡ true)
                      (sym ours) fresh,
                )
          ]
        ]
