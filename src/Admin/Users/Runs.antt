-- ===== src/Admin/Users/Runs.antt =====
-- The bootstrap administrator, over any number of calls.
-- Any number of calls of the routes under /api/v1/users, each with its clock, its settings, its token and
-- its proof, by anyone, granted or refused.
use hyproxy.Admin.Users.{UserRequest, users_route}
use hyproxy.Idp.Token.{AccessToken}
use hyproxy.Idp.Passkeys.{refused}
use hyproxy.Store.{Db}
use hyproxy.Idp.Replay.{DpopProof}
use hyproxy.Admin.Deps.Guards.{require_recent_stepup-IsAdminCall}
use hyproxy.Admin.Deps.{require_recent_stepup, stepup_route, Call, commit}
use hyproxy.Settings.{Env}
use hyproxy.Admin.Users.Protected.{IsBootstrap, IsBootstrap-same, users_route-IsBootstrap}
use hyproxy.Base.{Name, Option, Result-cases, Text, Uuid, inl, inr}
use hyproxy.Idp.Phases.Runs.{run}

pub data Administered (db : Db) : Db → Type 0 where
  untouched : Administered db db
  call :
      {before' : Db} (e : Env) (decode : Text → Option AccessToken)
      (offline : Text → Text → Text → Text → Name → Option DpopProof) (c : Call)
      (request : UserRequest)
      → Administered db before'
      → Administered db (
          commit before' (
            stepup_route e decode offline c
              (λ authed. users_route e authed request c.addr)
              before'))

call-IsBootstrap :
    (id : Uuid) (e : Env) (decode : Text → Option AccessToken)
    (offline : Text → Text → Text → Text → Name → Option DpopProof) (c : Call)
    (request : UserRequest) (db : Db)
    → IsBootstrap id db
    → IsBootstrap id (
        commit db
          (stepup_route e decode offline c (λ authed. users_route e authed request c.addr) db))
unfolding stepup_route commit
call-IsBootstrap id e decode offline c request db h =
    elim (Result-cases (require_recent_stepup e decode offline c db)) [
      | inr (x, refused) ↦ rw (stepup_route, refused) h
      | inl (got, good) ↦
          let there =
            IsBootstrap-same {id = id} {db = db} {db' = got.1}
              (require_recent_stepup-IsAdminCall e decode offline c db got good).1 h in
          elim (Result-cases (users_route e got.0 request c.addr got.1)) [
            | inr (x, refused) ↦ rw (stepup_route, good, refused) h
            | inl (out, done') ↦
                rw (stepup_route, good, done')
                  (users_route-IsBootstrap e got.0 id request c.addr got.1 out there done')
          ]
    ]

-- The bootstrap administrator stays in the table, protected, of the administrators' tier and active, over any
-- number of calls of the routes under /api/v1/users, whoever makes them.
pub Administered-IsBootstrap :
    (id : Uuid) {a b : Db} → Administered a b → IsBootstrap id a → IsBootstrap id b
Administered-IsBootstrap id untouched h = h
Administered-IsBootstrap id (call {before'} e decode offline c request run) h =
    call-IsBootstrap id e decode offline c request before' (Administered-IsBootstrap id run h)
