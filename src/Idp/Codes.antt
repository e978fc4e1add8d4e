-- ===== src/Idp/Codes.antt =====
-- idp/oidc/codes.py: authorization codes, kept by their digest and used once.
pub mod Once
use hyproxy.Base.{
  ℕ, ◌+◌, Bool, true, false, not, ◌&&◌, Option, none, some, List, [], ◌∷◌, ◌++◌, Text, Time, Hash,
  Name, seconds, ltb, ◌==◌, is_some, if◌then◌else◌, any, find?, update_where,
}
use hyproxy.Settings.{Env}
use hyproxy.Store.{Db, Session, AuthCode}

abbrev pub find_code : Hash → List AuthCode → Option AuthCode
find_code h = find? (λ (c : AuthCode). c.code_hash == h)

-- The WHERE of the consuming UPDATE.
abbrev pub is_usable : Hash → Time → AuthCode → Bool
is_usable h now c = c.code_hash == h && (not (is_some c.consumed_at) && ltb now c.expires_at)

abbrev pub mark_consumed : Time → AuthCode → AuthCode
mark_consumed now c = record c { consumed_at = some now }

module _ (e : Env) where
  -- The code is what `new_token` drew.
  unfoldable pub issue_code :
      Session → Name → Text → Text → Text → Text → Time → Text → Db → Text × Db
  issue_code session client_id redirect_uri scope nonce code_challenge now code db =
      let row : AuthCode = record {
        code_hash = e.sha256_hex code;
        client_id = client_id;
        user_id = session.user_id;
        session_id = session.id;
        redirect_uri = redirect_uri;
        scope = scope;
        nonce = nonce;
        code_challenge = code_challenge;
        auth_time = session.issued_at;
        expires_at = now + seconds e.auth_code_ttl;
        consumed_at = none;
      } in
      (code, record db { auth_codes = db.auth_codes ++ row ∷ [] })

  unfoldable pub consume_code : Text → Time → Db → Option AuthCode × Db
  consume_code code now db =
      let h = e.sha256_hex code in
      let codes = update_where (is_usable h now) (mark_consumed now) db.auth_codes in
      if any (is_usable h now) db.auth_codes
      then (find_code h codes, record db { auth_codes = codes })
      else (none, db)

  unfoldable pub find_consumed : Text → Db → Option AuthCode
  find_consumed code db = elim (find_code (e.sha256_hex code) db.auth_codes) [
    | none ↦ none
    | some row ↦ if is_some row.consumed_at then some row else none
  ]
