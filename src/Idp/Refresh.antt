-- ===== src/Idp/Refresh.antt =====
-- idp/oidc/refresh.py: refresh tokens, each used once, in families.
pub mod Families
use hyproxy.Base.{
  ℕ, Bool, true, false, not, ◌&&◌, Option, none, some, List, [], ◌∷◌, ◌++◌, Text, Uuid, Time, Hash,
  Name, ◌==◌, is_some, if◌then◌else◌, find?, update_where,
}
use hyproxy.Settings.{Env}
use hyproxy.Store.{Db, Session, RefreshToken}

-- `revoked_at IS NULL`, and the row is of the family, or of the session.
abbrev pub in_family : Uuid → RefreshToken → Bool
in_family family t = t.family_id == family && not (is_some t.revoked_at)

abbrev pub of_session : Uuid → RefreshToken → Bool
of_session session t = t.session_id == session && not (is_some t.revoked_at)

abbrev pub use_at : Time → RefreshToken → RefreshToken
use_at now t = record t { used_at = some now }

abbrev pub revoke_at : Time → RefreshToken → RefreshToken
revoke_at now t = record t { revoked_at = some now }

module _ (e : Env) where
  -- The token, its id and the id of the family are drawn at random.
  unfoldable pub issue_family :
      Session → Name → Text → Name → Time → Text → Uuid → Uuid → Db → Text × Db
  issue_family session client_id scope jkt now token id family db =
      let row : RefreshToken = record {
        id = id;
        token_hash = e.sha256_hex token;
        session_id = session.id;
        family_id = family;
        parent_id = none;
        client_id = client_id;
        user_id = session.user_id;
        dpop_jkt = jkt;
        scope = scope;
        issued_at = now;
        expires_at = session.absolute_expires_at;
        used_at = none;
        revoked_at = none;
      } in
      (token, record db { refresh_tokens = db.refresh_tokens ++ row ∷ [] })

  unfoldable pub find : Text → Db → Option RefreshToken
  find token db = find? (λ (t : RefreshToken). t.token_hash == e.sha256_hex token) db.refresh_tokens

  abbrev pub child_of : RefreshToken → Time → Text → Uuid → RefreshToken
  child_of row now token id = record {
    id = id;
    token_hash = e.sha256_hex token;
    session_id = row.session_id;
    family_id = row.family_id;
    parent_id = some row.id;
    client_id = row.client_id;
    user_id = row.user_id;
    dpop_jkt = row.dpop_jkt;
    scope = row.scope;
    issued_at = now;
    expires_at = row.expires_at;
    used_at = none;
    revoked_at = none;
  }

  unfoldable pub rotate : RefreshToken → Time → Text → Uuid → Db → Text × Db
  rotate row now token id db =
      let used =
        update_where (λ (t : RefreshToken). t.id == row.id) (use_at now) db.refresh_tokens in
      (token, record db { refresh_tokens = used ++ child_of row now token id ∷ [] })

  unfoldable pub revoke_family : Uuid → Db → Db
  revoke_family family db = record db {
    refresh_tokens = update_where (in_family family) (revoke_at e.utcnow) db.refresh_tokens;
  }

  unfoldable pub revoke_for_session : Uuid → Db → Db
  revoke_for_session session db = record db {
    refresh_tokens = update_where (of_session session) (revoke_at e.utcnow) db.refresh_tokens;
  }
