-- ===== src/Idp/Authorize/Exchange.antt =====
-- The code of idp/oidc/authorize.py, when it comes back to idp/oidc/codes.py.
use hyproxy.Settings.{Env}
use hyproxy.Idp.Login.{Browser, LoginDraws}
use hyproxy.Idp.Authorize.{CodeRequest, give_code}
use hyproxy.Store.{Db}
use hyproxy.Store.Accounts.{AuthCode, Session}
use hyproxy.Idp.Codes.{consume_code, find_code, is_usable, issue_code, mark_consumed}
use hyproxy.Base.{
  Hash, List, Time, [], any, any-append, arith, codes, none, seconds, some, true, update_where,
  ◌++◌, ◌+◌, ◌<◌, ◌∷◌, ◌≡◌,
}

abbrev code_row : Env → LoginDraws → CodeRequest → Session → Time → AuthCode
code_row e draws r session now = record {
  code_hash = e.sha256_hex draws.session_secret;
  client_id = r.client.client_id;
  user_id = session.user_id;
  session_id = session.id;
  redirect_uri = r.redirect_uri;
  scope = r.scope;
  nonce = r.nonce;
  code_challenge = r.code_challenge;
  auth_time = session.issued_at;
  expires_at = now + seconds e.auth_code_ttl;
  consumed_at = none;
}

marked :
    (h : Hash) (row : AuthCode) (later : Time) (codes : List AuthCode)
    → find_code h codes ≡ none
    → is_usable h later row ≡ true
    → find_code h (update_where (is_usable h later) (mark_consumed later) (codes ++ row ∷ []))
      ≡ some (mark_consumed later row)
marked h row later [] fresh usable = ground arith
marked h row later (c ∷ codes) fresh usable = ground (arith, marked h row later codes)

-- The code that is issued for a request comes back, before it expires, with what the request asked for and
-- the session it was issued to, as long as no code with its digest was there before.
pub give_code-consume_code :
    (e : Env) (draws : LoginDraws) (r : CodeRequest) (session : Session) (b : Browser)
    (now later : Time) (db : Db)
    → find_code (e.sha256_hex draws.session_secret) db.auth_codes ≡ none
    → later < now + seconds e.auth_code_ttl
    → (consume_code e draws.session_secret later (give_code e draws r session b now db).1).0
      ≡ some (record {
        code_hash = e.sha256_hex draws.session_secret;
        client_id = r.client.client_id;
        user_id = session.user_id;
        session_id = session.id;
        redirect_uri = r.redirect_uri;
        scope = r.scope;
        nonce = r.nonce;
        code_challenge = r.code_challenge;
        auth_time = session.issued_at;
        expires_at = now + seconds e.auth_code_ttl;
        consumed_at = some later;
      })
unfolding give_code issue_code consume_code
give_code-consume_code e draws r session b now later db fresh soon =
    let h = e.sha256_hex draws.session_secret in
    let row = code_row e draws r session now in
    let usable : is_usable h later row ≡ true = ground arith in
    let there : any (is_usable h later) (db.auth_codes ++ row ∷ []) ≡ true =
      ground (arith, any-append (is_usable h later) db.auth_codes (row ∷ [])) in
    rw there (marked h row later db.auth_codes fresh usable)
