-- ===== src/Admin/Deps/Guards.antt =====
-- Whom the guards of admin/deps.py let through.
use hyproxy.Idp.Token.{AccessToken}
use hyproxy.Idp.Request.{
  check_proof, check_request, AuthedRequest, check_session, verify_access_token,
}
use hyproxy.Settings.{Env}
use hyproxy.Store.{Db, get_session}
use hyproxy.Idp.Phases.Kept.{check_liveness-Kept}
use hyproxy.Idp.Replay.{DpopProof, verify_proof}
use hyproxy.Idp.Request.Accepted.{check_request-IsAccepted, IsAccepted, verify_proof-same}
use hyproxy.Idp.Passkeys.{refused, verified}
use hyproxy.Idp.Authorize.{given}
use hyproxy.Idp.Sessions.{check_liveness}
use hyproxy.Admin.Deps.{
  require_admin, check_token, stepup_route, require_recent_stepup, Call, HttpException, commit,
  expected_htu, is_admin_call, lan_networks, recent_stepup, require_lan_client,
}
use hyproxy.Base.{
  Bool-cases, Ip, Name, Option, Option-cases, Result, Result-cases, Text, Time, [], any, arith,
  codes, inl, inr, none, ok, refl, seconds, skip, some, starts_with, strip, text_eq, text_eq_iff,
  true, ◌+◌, ◌∙◌, ◌∷◌, ◌≡◌, ◌≢◌, ◌≤◌, ◌⊎◌,
}
use mathlib.Core.Path.{subst}

check_session-users :
    (e : Env) (token : AccessToken) (addr : Ip) (now : Time) (db : Db)
    → (check_session e token addr now db).1.users ≡ db.users
unfolding check_session
check_session-users e token addr now db = elim (Option-cases (get_session token.sid db)) [
  | inl unknown ↦ rw (check_session, unknown) refl
  | inr (row, stored) ↦
      let kept_db = check_liveness-Kept e row addr now true db in
      elim (Bool-cases (check_liveness e row addr now true db).0) [
        | inr dead ↦ rw (check_session, stored, dead) kept_db.kept_users
        | inl alive ↦ rw (check_session, stored, alive) kept_db.kept_users
      ]
]

module _ (e : Env) (decode : Text → Option AccessToken) where
  check_proof-users :
      (offline : Text → Text → Name → Option DpopProof) (token : AccessToken) (given : Text)
      (dpop : Option Text) (addr : Ip) (now : Time) (db : Db)
      → (check_proof e decode offline token given dpop addr now db).1.users ≡ db.users
  unfolding check_proof
  check_proof-users offline token given none addr now db = refl
  check_proof-users offline token given (some []) addr now db = refl
  check_proof-users offline token given (some (c ∷ t)) addr now db =
      let checked = verify_proof e (offline (c ∷ t) given token.jkt) now db in
      let same = verify_proof-same e (offline (c ∷ t) given token.jkt) now db in
      elim (Option-cases checked.0) [
        | inl refused ↦ rw (check_proof, refused) same.1
        | inr (proof, fresh) ↦
            rw (check_proof, fresh) (check_session-users e token addr now checked.1 ∙ same.1)
      ]

  -- What stands behind the token of a request leaves the users alone.
  pub check_request-users :
      (offline : Text → Text → Name → Option DpopProof) (authorization dpop : Option Text)
      (addr : Ip) (now : Time) (db : Db)
      → (check_request e decode offline authorization dpop addr now db).1.users ≡ db.users
  unfolding check_request
  check_request-users offline none dpop addr now db = refl
  check_request-users offline (some header) dpop addr now db =
      let given = strip (skip 5 header) in
      elim (Bool-cases (starts_with (codes "DPoP ") header)) [
        | inr other ↦ rw (check_request, other) refl
        | inl dpop_scheme ↦ elim (Option-cases (verify_access_token e (decode given) now db)) [
          | inl refused ↦ rw (check_request, dpop_scheme, refused) refl
          | inr (token, good) ↦
              rw (check_request, dpop_scheme, good)
                (check_proof-users offline token given dpop addr now db)
        ]
      ]

  refused_without :
      (offline : Text → Text → Name → Option DpopProof) (dpop : Option Text) (addr : Ip)
      (now : Time) (db : Db) (authed : AuthedRequest)
      → ¬ ((check_request e decode offline none dpop addr now db).0 ≡ ok authed)
  unfolding check_request
  refused_without offline dpop addr now db authed h = ground arith

-- The call of an administrator with the rights to change something.
pub record IsAdminCall (e : Env) (call : Call) (authed : AuthedRequest) (db : Db) : Type 0 where
  pub accepted : IsAccepted e authed call.addr e.utcnow db
  pub both_admin : is_admin_call authed ≡ true
  pub local :
      (e.admin_lan_cidrs ≡ [])
      ⊎ (any (e.ip_in_network call.addr) (lan_networks e e.admin_lan_cidrs) ≡ true)
  pub verified_at : Time
  pub step_up : authed.session.step_up_verified_at ≡ some verified_at
  pub recent : e.utcnow ≤ verified_at + seconds e.stepup_max_age

module _ (e : Env) (decode : Text → Option AccessToken)
    (offline : Text → Text → Text → Text → Name → Option DpopProof) where
  pub check_token-accepted :
      (call : Call) (db : Db) (got : AuthedRequest × Db)
      → check_token e decode offline call db ≡ ok got
      → IsAccepted e got.0 call.addr e.utcnow db × (got.1.users ≡ db.users)
  unfolding check_token
  check_token-accepted call db got h =
      let checks = offline call.method (expected_htu e call) in
      let answer =
        check_request e decode checks call.authorization call.dpop call.addr e.utcnow db in
      let users' =
        check_request-users e decode checks call.authorization call.dpop call.addr e.utcnow db in
      elim (Result-cases answer.0) [
        | inr (x, refused) ↦ ground arith
        | inl (authed, good) ↦
            let same : got ≡ (authed, answer.1) = ground arith in
            elim (Option-cases call.authorization) [
              | inl missing ↦
                  let no : (check_request e decode checks none call.dpop call.addr e.utcnow db).0
                      ≡ ok authed =
                    subst
                      (λ (a : Option Text).
                        (check_request e decode checks a call.dpop call.addr e.utcnow db).0
                        ≡ ok authed)
                      missing good in
                  elim (refused_without e decode checks call.dpop call.addr e.utcnow db authed
                    no) [ ]
              | inr (header, given) ↦
                  let passed : (check_request e decode checks (some header) call.dpop call.addr
                        e.utcnow db).0
                      ≡ ok authed =
                    subst
                      (λ (a : Option Text).
                        (check_request e decode checks a call.dpop call.addr e.utcnow db).0
                        ≡ ok authed)
                      given good in
                  rw same (
                    (check_request-IsAccepted e decode checks header call.dpop call.addr e.utcnow db
                        authed passed).0,
                    users',
                  )
            ]
      ]

  pub require_recent_stepup-IsAdminCall :
      (call : Call) (db : Db) (got : AuthedRequest × Db)
      → require_recent_stepup e decode offline call db ≡ ok got
      → IsAdminCall e call got.0 db × (got.1.users ≡ db.users)
  unfolding require_recent_stepup require_admin require_lan_client recent_stepup
  require_recent_stepup-IsAdminCall call db got h =
      elim (Result-cases (check_token e decode offline call db)) [
        | inr (x, refused) ↦ ground arith
        | inl (got', good) ↦ elim (Bool-cases (is_admin_call got'.0)) [
          | inr other ↦ ground arith
          | inl tiers ↦ elim (Option-cases got'.0.session.step_up_verified_at) [
            | inl never ↦ ground arith
            | inr (verified, stamped) ↦
                let (seen, users') = check_token-accepted call db got' good in
                let same : got' ≡ got = ground arith in
                let near : (e.admin_lan_cidrs ≡ [])
                    ⊎ (any (e.ip_in_network call.addr) (lan_networks e e.admin_lan_cidrs) ≡ true) =
                  elim (Bool-cases (text_eq e.admin_lan_cidrs [])) [
                    | inl unset ↦ inl ((text_eq_iff e.admin_lan_cidrs []).0 unset)
                    | inr set ↦ inr (ground arith)
                  ] in
                let soon : e.utcnow ≤ verified + seconds e.stepup_max_age = ground arith in
                subst
                  (λ (g : AuthedRequest × Db). IsAdminCall e call g.0 db × (g.1.users ≡ db.users))
                  same
                  (
                    record {
                      accepted = seen;
                      both_admin = tiers;
                      local = near;
                      verified_at = verified;
                      step_up = stamped;
                      recent = soon;
                    },
                    users',
                  )
          ]
        ]
      ]

  -- A call of an endpoint behind the guard that changes anything in the database comes, in an address of the
  -- local networks where those are set, from a live session that stands for an active user, both of the
  -- administrators' tier, with a step-up no older than the limit; and what it leaves is what the endpoint leaves.
  pub stepup_route-IsAdminCall :
      {A : Type 0} (call : Call) (endpoint : AuthedRequest → Db → Result HttpException (A × Db))
      (db : Db)
      → commit db (stepup_route e decode offline call endpoint db) ≢ db
      → (authed : AuthedRequest) × (db' : Db) × IsAdminCall e call authed db
        × (db'.users ≡ db.users)
        × (commit db (stepup_route e decode offline call endpoint db)
            ≡ commit db (endpoint authed db'))
  unfolding stepup_route commit
  stepup_route-IsAdminCall call endpoint db changed =
      elim (Result-cases (require_recent_stepup e decode offline call db)) [
        | inr (x, refused) ↦ ground arith
        | inl (got, good) ↦
            let (strong, users') = require_recent_stepup-IsAdminCall call db got good in
            (got.0, got.1, strong, users', rw good refl)
      ]
