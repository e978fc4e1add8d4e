-- ===== src/Admin/Deps.antt =====
-- admin/deps.py: who may call the administrators' API. An exception is an error value, and the transaction
-- that it rolls back is dropped with it: only `commit` says what a call leaves in the database.
pub mod Guards
use hyproxy.Idp.Replay.{DpopProof}
use hyproxy.Idp.Passkeys.{verified}
use hyproxy.Idp.Token.{AccessToken}
use hyproxy.Idp.Login.{answer}
use hyproxy.Store.{Db}
use hyproxy.Settings.{Env}
use hyproxy.Authz.PublicGate.{fallback}
use hyproxy.Idp.Request.{check_request, AuthError, AuthedRequest}
use hyproxy.Store.Accounts.{AuthTier}
use hyproxy.Idp.Request.{invalid_token, invalid_proof}
use hyproxy.Store.Accounts.{standard, admin}
use hyproxy.Base.{
  ◌>>=◌, ◌>>◌, Bool, Ip, List, Name, Option, Result, Text, [], after, any, before, codes,
  drop_while_end, err, false, filter, if◌then◌else◌, ltb, map, none, not, ok, seconds, some,
  split_on, strip, text_eq, true, ℕ, ◌&&◌, ◌++◌, ◌+◌, ◌==◌, ◌∷◌,
}

pub record HttpException : Type 0 where
  pub status_code : ℕ
  pub detail : Text

abbrev pub http_error : {A : Type 0} → ℕ → Text → Result HttpException A
http_error status detail = err (record { status_code = status; detail = detail })

-- What the transaction of db/engine.py leaves.
unfoldable pub commit : {A : Type 0} → Db → Result HttpException (A × Db) → Db
commit before (ok (a, after)) = after
commit before (err x) = before

-- The parts of a request that the guards read; the address is what `client_ip` resolves.
pub record Call : Type 0 where
  pub method : Text
  pub url : Text
  pub path : Text
  pub forwarded_host : Option Text
  pub authorization : Option Text
  pub dpop : Option Text
  pub addr : Ip

abbrev pub error_text : AuthError → Text
error_text invalid_token = codes "invalid_token"
error_text invalid_proof = codes "invalid_dpop_proof"

abbrev pub is_admin_tier : AuthTier → Bool
is_admin_tier standard = false
is_admin_tier admin = true

abbrev pub is_admin_call : AuthedRequest → Bool
is_admin_call authed = is_admin_tier authed.session.auth_tier && is_admin_tier authed.user.auth_tier

abbrev pub present : Text → Bool
present t = not (text_eq t [])

unfoldable pub host_of : Option Text → Text
host_of none = []
host_of (some hosts) = strip (before b',' hosts)

module _ (e : Env) where
  unfoldable pub lan_networks : Text → List Text
  lan_networks cidrs = filter present (map strip (split_on b',' cidrs))

  unfoldable pub require_lan_client : Ip → Result HttpException (Unit {0})
  require_lan_client addr =
      if not (present e.admin_lan_cidrs)
      then ok tt
      else if any (e.ip_in_network addr) (lan_networks e.admin_lan_cidrs)
      then ok tt
      else http_error 403 (codes "admin console is restricted to the local network")

  abbrev pub origins : List Text
  origins = filter present (e.admin_ui_origin ∷ e.portal_origin ∷ [])

  unfoldable pub pick_origin : Text → Text → List Text → Text
  pick_origin fallback host [] = fallback
  pick_origin fallback host (o ∷ os) =
      let rest = pick_origin fallback host os in
      if text_eq (e.lower (e.url_netloc o)) host then o else rest

  unfoldable pub htu_under : List Text → Call → Text
  htu_under [] call = call.url
  htu_under (o ∷ os) call =
      let host = e.lower (host_of call.forwarded_host) in
      let origin = if present host then pick_origin o host (o ∷ os) else o in
      drop_while_end (λ c. c == b'/') origin ++ call.path

  abbrev pub expected_htu : Call → Text
  expected_htu call = htu_under origins call

  unfoldable pub recent_stepup : AuthedRequest → Result HttpException (Unit {0})
  recent_stepup authed = elim authed.session.step_up_verified_at [
    | none ↦ http_error 403 (codes "stepup_required")
    | some verified ↦
        if ltb (verified + seconds e.stepup_max_age) e.utcnow
        then http_error 403 (codes "stepup_required")
        else ok tt
  ]

  abbrev admin_tier : AuthedRequest → Result HttpException (Unit {0})
  admin_tier authed =
      if is_admin_call authed then ok tt else http_error 403 (codes "admin tier required")

  -- The checks of a proof that need no database read the method and the URL first.
  module _ (decode : Text → Option AccessToken)
      (offline : Text → Text → Text → Text → Name → Option DpopProof) where
    unfoldable pub check_token : Call → Db → Result HttpException (AuthedRequest × Db)
    check_token call db =
        let (answer, db') =
          check_request e decode (offline call.method (expected_htu call)) call.authorization
            call.dpop call.addr e.utcnow db in
        elim answer [ err x ↦ http_error 401 (error_text x) | ok authed ↦ ok (authed, db') ]

    unfoldable pub require_admin : Call → Db → Result HttpException (AuthedRequest × Db)
    require_admin call db = do
      require_lan_client call.addr
      got ← check_token call db
      admin_tier got.0
      ok got

    abbrev pub require_user : Call → Db → Result HttpException (AuthedRequest × Db)
    require_user call db = check_token call db

    unfoldable pub require_portal_admin : Call → Db → Result HttpException (AuthedRequest × Db)
    require_portal_admin call db = do got ← check_token call db; admin_tier got.0; ok got

    unfoldable pub require_recent_stepup : Call → Db → Result HttpException (AuthedRequest × Db)
    require_recent_stepup call db = do got ← require_admin call db; recent_stepup got.0; ok got

    -- An endpoint behind the guard.
    unfoldable pub stepup_route :
        {A : Type 0}
        → Call
        → (AuthedRequest → Db → Result HttpException (A × Db))
        → Db
        → Result HttpException (A × Db)
    stepup_route call endpoint db = do got ← require_recent_stepup call db; endpoint got.0 got.1
