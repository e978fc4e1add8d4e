-- ===== src/Authz/Grants.antt =====
-- guac/broker.py and rtsp/broker.py: the grants behind the tokens of a tunnel and of a stream. The two
-- brokers have the same `consume_grant`, each on its own table.
pub mod Once
use hyproxy.Base.{
  ltb, is_some, not, update_where, ◌&&◌, count_where, ◌==◌, Hash, none, some, true, false, Option,
  List, Text, Uuid, Ip, Time, Bool,
}
use hyproxy.Settings.{Env}
use hyproxy.Store.{Db, GuacGrant}

-- `user_id is None or row.user_id == user_id`
abbrev owned_by : Option Uuid → GuacGrant → Bool
owned_by none g = true
owned_by (some user) g = g.user_id == user

-- The WHERE of the consuming UPDATE.
abbrev pub is_open : Hash → Ip → Time → Option Uuid → GuacGrant → Bool
is_open h addr now owner g =
    g.token_hash == h
    && not (is_some g.consumed_at)
    && ltb now g.expires_at
    && g.source_ip == addr
    && owned_by owner g

abbrev pub take : Time → GuacGrant → GuacGrant
take now g = record g { consumed_at = some now }

module _ (e : Env) where
  unfoldable pub consume_grant :
      Text → Ip → Time → Option Uuid → List GuacGrant → Bool × List GuacGrant
  consume_grant token addr now owner grants =
      let fits = is_open (e.sha256_hex token) addr now owner in
      (count_where fits grants == 1, update_where fits (take now) grants)

  unfoldable pub consume_tunnel : Text → Ip → Time → Option Uuid → Db → Bool × Db
  consume_tunnel token addr now owner db =
      let (ok, grants) = consume_grant token addr now owner db.guac_grants in
      (ok, record db { guac_grants = grants })

  unfoldable pub consume_stream : Text → Ip → Time → Option Uuid → Db → Bool × Db
  consume_stream token addr now owner db =
      let (ok, grants) = consume_grant token addr now owner db.rtsp_grants in
      (ok, record db { rtsp_grants = grants })
