-- ===== src/Authz/Gateway.antt =====
-- authz/gateway.py: the gateway session behind a cookie of the data plane, and its sign-out.
pub mod Inherited
use hyproxy.Base.{
  update_where, none, some, true, false, [], inl, inr, arith, refl, ◌&&◌, not, false, is_some, true,
  ◌==◌, if◌then◌else◌, Time, Bool, find?, Ip, Uuid, Text, Option,
}
use hyproxy.Settings.{Env}
use hyproxy.Store.{ip, Db, GatewaySession, get_session}
use hyproxy.Idp.Sessions.{split_cookie, check_liveness}

abbrev pub get_gateway : Uuid → Db → Option GatewaySession
get_gateway id db = find? (λ (g : GatewaySession). g.id == id) db.gateway_sessions

module _ (e : Env) where
  -- The guards on the gateway session itself.
  unfoldable pub fits : GatewaySession → Text → Ip → Bool → Bool
  fits gw secret addr enforce_ip =
      if is_some gw.revoked_at
      then false
      else if not (e.sha256_hex secret == gw.cookie_secret_hash)
      then false
      else if enforce_ip && not (gw.source_ip == addr)
      then false
      else true

  -- Those on the IdP session behind it.
  unfoldable pub with_idp_session : GatewaySession → Ip → Time → Db → Option GatewaySession × Db
  with_idp_session gw addr now db = elim (get_session gw.idp_session_id db) [
    | none ↦ (none, db)
    | some row ↦
        let (live, row', db') = check_liveness e row addr now false db in
        (if live then some gw else none, db')
  ]

  gateway_holder : Uuid × Text → Ip → Time → Bool → Db → Option GatewaySession × Db
  unfolding fits with_idp_session
  gateway_holder (id, secret) addr now enforce_ip db = elim (get_gateway id db) [
    | none ↦ (none, db)
    | some gw ↦
        if fits gw secret addr enforce_ip then with_idp_session gw addr now db else (none, db)
  ]

  unfoldable pub resolve_gateway_session :
      Option Text → Ip → Time → Bool → Db → Option GatewaySession × Db
  unfolding gateway_holder
  resolve_gateway_session cookie addr now enforce_ip db = elim (split_cookie e cookie) [
    | none ↦ (none, db)
    | some parts ↦ gateway_holder parts addr now enforce_ip db
  ]

  -- `logout`, without the answer, which deletes the cookie.
  unfoldable pub logout : Option Text → Ip → Time → Db → Db
  logout cookie addr now db =
      let (found, db') = resolve_gateway_session cookie addr now true db in
      elim found [
        | none ↦ db'
        | some gw ↦ record db' {
          gateway_sessions =
              update_where (λ (g : GatewaySession). g.id == gw.id)
                (λ (g : GatewaySession). record g { revoked_at = some now }) db'.gateway_sessions;
        }
      ]
