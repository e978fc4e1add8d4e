-- ===== src/Authz/Callback/Returned.antt =====
-- Where the sign-in of the gateway, authz/gateway.py, brings a browser back to, and on what grounds.
use hyproxy.Security.Recovery.Spent.{accepted}
use hyproxy.Store.Access.{GatewayLoginState}
use hyproxy.Idp.Token.{AccessToken}
use hyproxy.Idp.Request.{verify_access_token}
use hyproxy.Settings.{Env}
use hyproxy.Store.{Db, get_session}
use hyproxy.Authz.Callback.{
  rejected, unreachable, exchanged, open_session, callback, Backchannel, GatewayDraws, IdToken,
  accept_tokens, delete_state, find_state, gateway_redirect_uri, has_nonce, returned, tokens,
  verify_id_token,
}
use hyproxy.Base.{
  ap, text_eq_iff, ◌∙◌, refl, ◌⊎◌, Bool-cases, Ip, Option, Option-cases, Text, Time, [], arith, inl,
  inr, leb, not, some, text_eq, true, ◌<◌, ◌==◌, ◌||◌, ◌≡◌,
}

pub Backchannel-cases :
    (x : Backchannel)
    → (x ≡ unreachable)
      ⊎ ((x ≡ rejected) ⊎ ((a : Option AccessToken) × (i : Option IdToken) × (x ≡ tokens a i)))
Backchannel-cases unreachable = inl refl
Backchannel-cases rejected = inr (inl refl)
Backchannel-cases (tokens a i) = inr (inr (a, i, refl))

module _ (e : Env) (exchange_code : Text → Text → Text → Db → Backchannel × Db) where
  -- The grounds of a return: the state is stored, in time and from this address, and the exchange gave tokens
  -- that verify, of which the ID token has the nonce of the state.
  pub record IsReturned (state code url : Text) (addr : Ip) (now : Time) (db : Db) : Type 0 where
    pub row : GatewayLoginState
    pub stored : find_state (e.sha256_hex state) db ≡ some row
    pub in_time : now < row.expires_at
    pub same_ip : row.source_ip ≡ addr
    pub same_url : url ≡ row.return_url
    pub after : Db
    pub access : AccessToken
    pub id_claims : IdToken
    pub same_nonce : id_claims.nonce ≡ some row.nonce
    pub granted :
        (a : Option AccessToken) × (i : Option IdToken) × (exchange_code code
            (gateway_redirect_uri e)
            row.code_verifier
            (delete_state row.state_hash db)
          ≡ (tokens a i, after))
        × (verify_access_token e a now after ≡ some access)
        × (verify_id_token e i e.gateway_client_id now after ≡ some id_claims)

  accept_tokens-returned :
      (draws : GatewayDraws) (row : GatewayLoginState) (a : Option AccessToken) (i : Option IdToken)
      (addr : Ip) (now : Time) (db : Db) {url cookie : Text}
      → (accept_tokens e draws row a i addr now db).0 ≡ returned url cookie
      → (access : AccessToken) × (id_claims : IdToken) × (url ≡ row.return_url)
        × (has_nonce e id_claims row.nonce ≡ true)
        × (verify_access_token e a now db ≡ some access)
        × (verify_id_token e i e.gateway_client_id now db ≡ some id_claims)
  unfolding accept_tokens open_session
  accept_tokens-returned draws row a i addr now db h =
      elim (Option-cases (verify_access_token e a now db)) [
        | inl refused ↦ ground arith
        | inr (access, good) ↦
            elim (Option-cases (verify_id_token e i e.gateway_client_id now db)) [
              | inl refused ↦ ground arith
              | inr (id_claims, fine) ↦ elim (Bool-cases (has_nonce e id_claims row.nonce)) [
                | inr other ↦ ground arith
                | inl same ↦ elim (Option-cases (get_session access.sid db)) [
                  | inl gone ↦ ground arith
                  | inr (session, found) ↦ (access, id_claims, ground arith, same, good, fine)
                ]
              ]
            ]
      ]

  exchanged-returned :
      (draws : GatewayDraws) (row : GatewayLoginState) (code : Text) (addr : Ip) (now : Time)
      (db : Db) {url cookie : Text}
      → (exchanged e exchange_code draws row code addr now db).0 ≡ returned url cookie
      → let out =
          exchange_code code
            (gateway_redirect_uri e)
            row.code_verifier
            (delete_state row.state_hash db) in
        (a : Option AccessToken) × (i : Option IdToken) × (out.0 ≡ tokens a i)
        × ((accept_tokens e draws row a i addr now out.1).0 ≡ returned url cookie)
  unfolding exchanged
  exchanged-returned draws row code addr now db h =
      let out =
        exchange_code code (gateway_redirect_uri e) row.code_verifier
          (delete_state row.state_hash db) in
      elim (Backchannel-cases out.0) [
        | inl down ↦ ground arith
        | inr (inl no_tokens) ↦ ground arith
        | inr (inr (a, i, good)) ↦ (a, i, good, ground arith)
      ]

  has_nonce-some :
      (claims : IdToken) (nonce : Text)
      → has_nonce e claims nonce ≡ true
      → claims.nonce ≡ some nonce
  has_nonce-some claims nonce h = elim (Option-cases claims.nonce) [
    | inl absent ↦ ground arith
    | inr (n, given) ↦
        let one : n ≡ nonce = (text_eq_iff n nonce).0 (ground arith) in given ∙ ap some one
  ]

  -- The callback sends a browser on with a cookie only where the state that it brings is stored, in time and
  -- from this address, to the URL that was stored with it, and with tokens that verify and answer its nonce.
  pub callback-IsReturned :
      (draws : GatewayDraws) (code state failure : Text) (addr : Ip) (now : Time) (db : Db)
      (url cookie : Text)
      → (callback e exchange_code draws code state failure addr now db).0 ≡ returned url cookie
      → IsReturned state code url addr now db
  unfolding callback exchanged
  callback-IsReturned draws code state failure addr now db url cookie h =
      elim (Bool-cases (not (text_eq failure []))) [
        | inl failed ↦ ground arith
        | inr fine ↦ elim (Bool-cases (text_eq code [] || text_eq state [])) [
          | inl missing ↦ ground arith
          | inr given ↦ elim (Option-cases (find_state (e.sha256_hex state) db)) [
            | inl unknown ↦ ground arith
            | inr (row, stored) ↦
                elim (Bool-cases (leb row.expires_at now || not (row.source_ip == addr))) [
                  | inl over ↦ ground arith
                  | inr live ↦
                      let passed : (exchanged e exchange_code draws row code addr now db).0
                          ≡ returned url cookie =
                        ground arith in
                      let (a, i, good, accepted) =
                        exchanged-returned draws row code addr now db passed in
                      let after =
                        (exchange_code code (gateway_redirect_uri e) row.code_verifier
                          (delete_state row.state_hash db)).1 in
                      let (access, id_claims, target, same, known, fits) =
                        accept_tokens-returned draws row a i addr now after accepted in
                      record {
                        row = row;
                        stored = stored;
                        in_time = ground arith;
                        same_ip = ground arith;
                        same_url = target;
                        after = after;
                        access = access;
                        id_claims = id_claims;
                        same_nonce = has_nonce-some id_claims row.nonce same;
                        granted = (a, i, ground arith, known, fits);
                      }
                ]
          ]
        ]
      ]
