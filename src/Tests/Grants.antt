-- ===== src/Tests/Grants.antt =====
-- The theorems on the token endpoint, at the small deployment.
use hyproxy.Idp.Sessions.{check_liveness}
use hyproxy.Security.Pkce.{verify_s256}
use hyproxy.Base.{
  text_eq, drop_while_end, none, some, true, [], ◌∷◌, ◌≡◌, ◌≢◌, refl, arith, codes, All, is_some,
  Text,
}
use hyproxy.Tests.{env, db, session, code, token}
use hyproxy.Store.{Db, OAuthClient, SigningKey, RefreshToken, AuthCode}
use hyproxy.Store.Accounts.{KeyState}
use hyproxy.Idp.Codes.{consume_code, find_consumed}
use hyproxy.Idp.Refresh.{rotate, issue_family, find}
use hyproxy.Idp.Replay.{DpopProof}
use hyproxy.Idp.Token.{
  exchange, rotate_tokens, issue_tokens, live, active_key, Draws, TokenResponse, error, issued,
  invalid_grant, refresh_grant, authorization_code_grant, mint_access_token,
}
use hyproxy.Idp.Token.Reuse.{IsEnded, refresh_grant-reuse, authorization_code_grant-replay}
use hyproxy.Idp.Token.Issued.{
  Exchanged, Refreshed, authorization_code_grant-issued, refresh_grant-issued,
}

abbrev client : OAuthClient
client = record {
  client_id = 1;
  redirect_uris = codes "https://app/cb" ∷ [];
  allowed_scopes = codes "openid" ∷ [];
  enabled = true;
}

abbrev proof : DpopProof
proof = record { jkt = 4; jti = codes "j"; iat = 900 }

abbrev draws : Draws
draws = record { jti = 50; token = codes "u"; token_id = 51; family_id = 52 }

abbrev key : SigningKey
key = record {
  kid = 60;
  state = KeyState.active;
  created_at = 0;
  activated_at = some 0;
  retiring_at = none;
  retired_at = none;
}

-- A verifier of the least length.
abbrev verifier : Text
verifier = codes "aaaaaaaaaaaaaaaaaaaaaaaaaaaaaaaaaaaaaaaaaaa"

abbrev signing : Db
signing = record db {
  signing_keys = key ∷ [];
  auth_codes = record code { code_challenge = verifier } ∷ [];
}

abbrev answer : Text → TokenResponse
answer name = record {
  access_token = record {
    kid = 60;
    iss = codes "https://id";
    sub = codes "u7";
    aud = 1;
    exp = 300;
    iat = 0;
    jti = 50;
    sid = b'i';
    scope = codes "openid";
    auth_tier = session.auth_tier;
    amr = session.amr;
    jkt = 4;
  };
  expires_in = 300;
  refresh_token = codes "u";
  scope = name;
}

code-issued :
    (authorization_code_grant env draws client proof
      (codes "c")
      (codes "https://app/cb")
      verifier
      9
      1000
      signing).0
    ≡ issued (answer (codes "openid"))
unfolding authorization_code_grant text_eq consume_code exchange verify_s256 live check_liveness
    issue_tokens active_key mint_access_token issue_family drop_while_end
code-issued = refl

authorization_code_grant-issued_example :
    Exchanged env client proof
      (codes "c")
      (codes "https://app/cb")
      verifier
      9
      1000
      signing
      (answer (codes "openid"))
authorization_code_grant-issued_example =
    authorization_code_grant-issued env draws client proof (codes "c") (codes "https://app/cb")
      verifier 9 1000 signing (answer (codes "openid")) code-issued

token-issued :
    (refresh_grant env draws client proof (codes "t") 9 1000 signing).0
    ≡ issued (answer (codes "openid"))
unfolding refresh_grant text_eq find live check_liveness rotate_tokens active_key rotate
    mint_access_token drop_while_end
token-issued = refl

refresh_grant-issued_example :
    Refreshed env client proof (codes "t") 9 1000 signing (answer (codes "openid"))
refresh_grant-issued_example =
    refresh_grant-issued env draws client proof (codes "t") 9 1000 signing (answer (codes "openid"))
      token-issued

abbrev old : RefreshToken
old = record token { used_at = some 500 }

abbrev reusing : Db
reusing = record db { refresh_tokens = old ∷ [] }

old-found : find env (codes "t") reusing ≡ some old
unfolding find
old-found = refl

t-given : codes "t" ≢ []
t-given h = ground arith

refresh_grant-reuse_example :
    let out = refresh_grant env draws client proof (codes "t") 9 1000 reusing in
    (out.0 ≡ error invalid_grant)
    × All
        (λ (t : RefreshToken). t.family_id ≡ 30 → is_some t.revoked_at ≡ true)
        out.1.refresh_tokens
    × IsEnded b'i' out.1
refresh_grant-reuse_example =
    refresh_grant-reuse env draws client proof (codes "t") 9 1000 reusing old session t-given
      old-found refl refl refl

abbrev spent : AuthCode
spent = record code { consumed_at = some 500 }

abbrev replaying : Db
replaying = record db { auth_codes = spent ∷ [] }

spent-unusable : (consume_code env (codes "c") 1000 replaying).0 ≡ none
unfolding consume_code
spent-unusable = refl

spent-found :
    find_consumed env (codes "c") (consume_code env (codes "c") 1000 replaying).1 ≡ some spent
unfolding find_consumed consume_code
spent-found = refl

c-given : codes "c" ≢ []
c-given h = ground arith

authorization_code_grant-replay_example :
    let out =
      authorization_code_grant env draws client proof
        (codes "c")
        (codes "c")
        (codes "c")
        9
        1000
        replaying in
    (out.0 ≡ error invalid_grant)
    × All
        (λ (t : RefreshToken). t.session_id ≡ b'i' → is_some t.revoked_at ≡ true)
        out.1.refresh_tokens
    × IsEnded b'i' out.1
authorization_code_grant-replay_example =
    authorization_code_grant-replay env draws client proof (codes "c") (codes "c") (codes "c") 9
      1000 replaying spent session c-given c-given c-given spent-unusable spent-found refl
