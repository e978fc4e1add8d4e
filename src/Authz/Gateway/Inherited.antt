-- ===== src/Authz/Gateway/Inherited.antt =====
-- What a gateway session takes over from the IdP session behind it.
use hyproxy.Base.{Option-cases, none, some, true, false, inl, inr, arith}
use hyproxy.Idp.Sessions.{split_cookie}
use hyproxy.Base.{
  none, some, true, false, inl, inr, arith, none, false, some, ◌≡◌, true, Time, Ip, Text, Option,
}
use hyproxy.Settings.{Env}
use hyproxy.Store.{Db, Session, GatewaySession, get_session}
use hyproxy.Idp.Sessions.Liveness.{IsLive, check_liveness_iff}
use hyproxy.Authz.Gateway.{
  false, true, Time, Ip, Text, Option, get_gateway, fits, with_idp_session, resolve_gateway_session,
}

module _ (e : Env) (cookie : Option Text) (addr : Ip) (now : Time) (db : Db) where
  -- What stands behind an accepted gateway cookie: a gateway session that is not revoked and is used
  -- from its own address, and an IdP session that is live now.
  pub record Backed (gw : GatewaySession) : Type 0 where
    pub row : Session
    pub held : get_session gw.idp_session_id db ≡ some row
    pub live : IsLive e row addr now false
    pub unrevoked : gw.revoked_at ≡ none
    pub own_address : gw.source_ip ≡ addr

  with_idp_session-Backed :
      (gw : GatewaySession) (secret : Text) (found : GatewaySession)
      → fits e gw secret addr true ≡ true
      → (with_idp_session e gw addr now db).0 ≡ some found
      → Backed found
  unfolding fits with_idp_session
  with_idp_session-Backed gw secret found ok h =
      elim (Option-cases (get_session gw.idp_session_id db)) [
        | inl missing ↦ ground arith
        | inr (row, held) ↦
            let same : gw ≡ found = ground arith in
            record {
              row = row;
              held = cc (held, same);
              live = (check_liveness_iff e row addr now false db).0 (ground arith);
              unrevoked = ground arith;
              own_address = ground arith;
            }
      ]

  -- A gateway cookie that is accepted names a gateway session that is not revoked, used from its own
  -- address, with an IdP session behind it that is live now.
  pub resolve_gateway_session-live :
      (gw : GatewaySession)
      → (resolve_gateway_session e cookie addr now true db).0 ≡ some gw
      → Backed gw
  unfolding resolve_gateway_session
  resolve_gateway_session-live gw h = elim (Option-cases (split_cookie e cookie)) [
    | inl bad ↦ ground arith
    | inr ((id, secret), parsed) ↦ elim (Option-cases (get_gateway id db)) [
      | inl missing ↦ ground arith
      | inr (row, held) ↦ with_idp_session-Backed row secret gw (ground arith) (ground arith)
    ]
  ]
