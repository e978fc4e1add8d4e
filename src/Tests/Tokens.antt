-- ===== src/Tests/Tokens.antt =====
-- The theorems on authorization requests, tokens that come back, and signing keys, at the small deployment.
use hyproxy.Security.Pkce.{valid_challenge}
use hyproxy.Idp.Sessions.{
  holder, live_session, get_session_from_cookie, split_cookie, check_liveness,
}
use hyproxy.Idp.Refresh.{find}
use hyproxy.Idp.Token.{AccessToken, mint_access_token}
use hyproxy.Idp.Keys.{newest_pending, activate, activate_pending, gc_retired, retire_active}
use hyproxy.Idp.Keys.Rotation.{rotated_key-verifies, verifies}
use hyproxy.Idp.Request.Accepted.{check_request-IsAccepted, IsAccepted}
use hyproxy.Store.Accounts.{KeyState, OAuthClient, SigningKey}
use hyproxy.Idp.Authorize.Targets.{IsSafe, authorize-IsSafe}
use hyproxy.Idp.Login.{redirect, Browser, LoginDraws}
use hyproxy.Idp.Request.{
  check_proof, check_session, check_request, AuthedRequest, verify_access_token,
}
use hyproxy.Idp.Authorize.Exchange.{give_code-consume_code}
use hyproxy.Idp.Codes.{consume_code}
use hyproxy.Store.{Db}
use hyproxy.Idp.Authorize.{
  bad_nonce, read_request, words, bad_challenge, bad_state, bad_method, param, grant_code, bad_type,
  bad_scope, enabled_client, CodeRequest, authorize, give_code, given,
}
use hyproxy.Idp.Replay.{DpopProof, verify_proof}
use hyproxy.Base.{
  before, after, contains, name_of, drop_while_end, starts_with, text_eq, List, Name, Option, Text,
  [], arith, codes, count_where, is_some, none, ok, refl, some, true, ◌==◌, ◌∷◌, ◌≡◌, ◌≤◌,
}
use hyproxy.Tests.{db, env, reader, session, token}

abbrev old_key : SigningKey
old_key = record {
  kid = 1;
  state = KeyState.active;
  created_at = 10;
  activated_at = some 20;
  retiring_at = none;
  retired_at = none;
}

abbrev new_key : SigningKey
new_key = record old_key { kid = 2; state = KeyState.pending; created_at = 30; activated_at = none }

abbrev relying_party : OAuthClient
relying_party = record {
  client_id = name_of (codes "1");
  redirect_uris = codes "https://app/cb" ∷ [];
  allowed_scopes = codes "openid" ∷ [];
  enabled = true;
}

abbrev served : Db
served = record db { signing_keys = old_key ∷ new_key ∷ []; oauth_clients = relying_party ∷ [] }

abbrev at_home : Browser
at_home = record { addr = 9; flow_cookie = none; session_cookie = some (codes "i.s") }

abbrev draws : LoginDraws
draws = record {
  flow_id = b'n';
  csrf = codes "c";
  session_id = b'j';
  session_secret = codes "fresh";
  totp_secret = [];
  batch = 2;
  codes = [];
}

abbrev query : List (Text × Text)
query =
    (codes "client_id", codes "1")
    ∷ (codes "redirect_uri", codes "https://app/cb")
    ∷ (codes "state", codes "0123456789abcdef")
    ∷ (codes "response_type", codes "code")
    ∷ (codes "scope", codes "openid")
    ∷ (codes "nonce", codes "n")
    ∷ (codes "code_challenge_method", codes "S256")
    ∷ (codes "code_challenge", codes "aaaaaaaaaaaaaaaaaaaaaaaaaaaaaaaaaaaaaaaaaaaaaaaa")
    ∷ []

-- The code is sent to the registered URI.
sent_back :
    (authorize env draws query at_home 1000 served).0.page ≡ redirect (codes "https://app/cb?")
unfolding authorize enabled_client param text_eq read_request bad_state bad_type bad_scope words
    bad_nonce bad_method bad_challenge valid_challenge grant_code get_session_from_cookie
    split_cookie contains before holder after live_session check_liveness give_code
sent_back = refl

authorize-IsSafe_example :
    IsSafe env query served (authorize env draws query at_home 1000 served).0.page
authorize-IsSafe_example = authorize-IsSafe env draws query at_home 1000 served

abbrev wanted : CodeRequest
wanted = record {
  client = relying_party;
  client_text = codes "1";
  redirect_uri = codes "https://app/cb";
  state = codes "0123456789abcdef";
  scope = codes "openid";
  nonce = codes "n";
  code_challenge = codes "x";
}

give_code-consume_code_example :
    (consume_code env
      (codes "fresh")
      2000
      (give_code env draws wanted session at_home 1000 served).1).0
    ≡ some (record {
      code_hash = env.sha256_hex (codes "fresh");
      client_id = name_of (codes "1");
      user_id = 7;
      session_id = b'i';
      redirect_uri = codes "https://app/cb";
      scope = codes "openid";
      nonce = codes "n";
      code_challenge = codes "x";
      auth_time = 100;
      expires_at = 60001000;
      consumed_at = some 2000;
    })
give_code-consume_code_example =
    give_code-consume_code env draws wanted session at_home 1000 2000 served refl (omega arith)

abbrev minted : AccessToken
minted = mint_access_token env old_key reader session 1 (codes "openid") 4 5 1000

abbrev decode : Text → Option AccessToken
decode t = some minted

abbrev proof : DpopProof
proof = record { jkt = 4; jti = codes "j"; iat = 1000 }

abbrev offline : Text → Text → Name → Option DpopProof
offline t given jkt = some proof

abbrev authed : AuthedRequest
authed = record { session = session; user = reader; claims = minted }

let_through :
    (check_request env decode offline (some (codes "DPoP t")) (some (codes "p")) 9 2000 served).0
    ≡ ok authed
unfolding check_request starts_with verify_access_token mint_access_token text_eq drop_while_end
    check_proof verify_proof check_session check_liveness
let_through = refl

check_request-IsAccepted_example :
    IsAccepted env authed 9 2000 served
    × (verify_access_token env (decode (codes "t")) 2000 served ≡ some minted)
    × (t : Text) × (some (codes "p") ≡ some t)
    × is_some (verify_proof env (offline t (codes "t") 4) 2000 served).0 ≡ true
check_request-IsAccepted_example =
    check_request-IsAccepted env decode offline (codes "DPoP t") (some (codes "p")) 9 2000 served
      authed let_through

good_proof : (verify_proof env (some proof) 1000 served).0 ≡ some proof
unfolding verify_proof
good_proof = refl

stored_token : find env (codes "t") served ≡ some token
unfolding find
stored_token = refl

abbrev rotated : SigningKey × Db
rotated = (
  activate 3000 new_key,
  record served { signing_keys = retire_active 3000 old_key ∷ activate 3000 new_key ∷ [] },
)

rotation : activate_pending 3000 served ≡ some rotated
unfolding activate_pending newest_pending
rotation = refl

two_keys : (kid : Name) → count_where (λ (k : SigningKey). k.kid == kid) served.signing_keys ≤ 1
two_keys kid = ground arith

rotated_key-verifies_example : verifies 1 (gc_retired 4000 rotated.1).1.signing_keys ≡ true
rotated_key-verifies_example =
    rotated_key-verifies 1 3000 4000 served rotated refl rotation (omega arith)
