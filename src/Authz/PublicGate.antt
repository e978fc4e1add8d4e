-- ===== src/Authz/PublicGate.antt =====
-- authz/publicgate.py: the sessions that a shared password opens on one public resource.
pub mod Isolation
use hyproxy.Base.{
  ◌∷◌, none, some, true, false, [], inl, inr, arith, refl, before, contains, filter, codes, ◌||◌,
  starts_with, true, some, leb, ◌&&◌, not, find?, count_where, is_some, false, Ip, ℕ, if◌then◌else◌,
  Bool, ◌==◌, update_where, Uuid, Text, Option, Time,
}
use hyproxy.Settings.{Env}
use hyproxy.Store.{Db, PublicSession, Resource}
use hyproxy.Policy.Glob.{matches, literal_prefix}
use hyproxy.Idp.Sessions.{split_cookie}

-- `str(row.source_ip) != source_ip`, negated: a row without an address matches none.
abbrev from_ip : Option Ip → Ip → Bool
from_ip none addr = false
from_ip (some a) addr = a == addr

abbrev save_public : PublicSession → Db → Db
save_public row db = record db {
  public_sessions =
      update_where (λ (s : PublicSession). s.id == row.id) (λ _. row) db.public_sessions;
}

abbrev pub opens : PublicSession → Uuid → Bool
opens row resource_id = row.resource_id == resource_id && not (is_some row.revoked_at)

-- What `_safe_rd` gives where the return path is not fit.
abbrev pub fallback : Resource → Text
fallback resource = elim resource.public_paths [
  | none ↦ literal_prefix (codes "/")
  | some ps ↦ elim ps [ [] ↦ literal_prefix (codes "/") | p ∷ rest ↦ literal_prefix p ]
]

unfoldable pub safe_rd : Text → Resource → Text
safe_rd rd resource =
    if not (starts_with (codes "/") rd) || starts_with (codes "//") rd || contains b'\\' rd
    then fallback resource
    else if not (matches resource.public_paths (before b'#' (before b'?' rd)))
    then fallback resource
    else rd

module _ (e : Env) where
  unfoldable pub revoke_public_sessions : Uuid → Db → ℕ × Db
  revoke_public_sessions resource_id db =
      let live : PublicSession → Bool = λ row. opens row resource_id in
      (
        count_where live db.public_sessions,
        record db {
          public_sessions =
              update_where live (λ (row : PublicSession). record row { revoked_at = some e.utcnow })
                db.public_sessions;
        },
      )

  -- The guards between the row that is found and the answer, in their order.
  unfoldable pub admits : PublicSession → Text → Uuid → Ip → Time → Bool
  admits row secret resource_id addr now =
      if is_some row.revoked_at
      then false
      else if not (row.resource_id == resource_id)
      then false
      else if not (e.sha256_hex secret == row.cookie_secret_hash)
      then false
      else if leb row.expires_at now
      then false
      else if e.public_session_bind_ip && not (from_ip row.source_ip addr)
      then false
      else true

  public_holder : Uuid × Text → Uuid → Ip → Time → Db → Option PublicSession × Db
  unfolding admits
  public_holder (id, secret) resource_id addr now db =
      elim (find? (λ (s : PublicSession). s.id == id) db.public_sessions) [
        | none ↦ (none, db)
        | some row ↦
            let seen = record row { last_seen_at = now } in
            if admits row secret resource_id addr now
            then (some seen, save_public seen db)
            else (none, db)
      ]

  unfoldable pub resolve_public_session :
      Option Text → Uuid → Ip → Time → Db → Option PublicSession × Db
  unfolding public_holder
  resolve_public_session cookie resource_id addr now db = elim (split_cookie e cookie) [
    | none ↦ (none, db)
    | some parts ↦ public_holder parts resource_id addr now db
  ]

unfoldable pub gc_public_sessions : Time → Db → ℕ × Db
gc_public_sessions now db =
    let gone : PublicSession → Bool = λ row. leb row.expires_at now || is_some row.revoked_at in
    (
      count_where gone db.public_sessions,
      record db {
        public_sessions = filter (λ (row : PublicSession). not (gone row)) db.public_sessions;
      },
    )
