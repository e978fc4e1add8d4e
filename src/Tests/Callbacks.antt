-- ===== src/Tests/Callbacks.antt =====
-- The theorems on the gateway's sign-in, at the small deployment with one state and one key.
use hyproxy.Idp.Request.{verify_access_token}
use hyproxy.Store.Access.{GatewayLoginState}
use hyproxy.Authz.Callback.Once.{Return, callbacks, callback-once}
use hyproxy.Store.{Db}
use hyproxy.Idp.Token.{mint_access_token}
use hyproxy.Authz.Callback.{
  GatewayMessage, accept_tokens, exchanged, verify_id_token, open_session, callback, Backchannel,
  GatewayDraws, IdToken, plain, returned, tokens,
}
use hyproxy.Authz.Callback.Returned.{IsReturned, callback-IsReturned}
use hyproxy.Store.Accounts.{KeyState, SigningKey}
use hyproxy.Base.{
  List, drop_while_end, Text, [], arith, codes, false, none, refl, some, text_eq, ◌∷◌, ◌≡◌,
}
use hyproxy.Tests.{db, digest, env, reader, session}

abbrev key : SigningKey
key = record {
  kid = 1;
  state = KeyState.active;
  created_at = 10;
  activated_at = some 20;
  retiring_at = none;
  retired_at = none;
}

abbrev pending_state : GatewayLoginState
pending_state = record {
  state_hash = digest (codes "st");
  code_verifier = codes "v";
  nonce = codes "n";
  return_url = codes "https://app/";
  source_ip = 9;
  expires_at = 5000;
}

abbrev waiting : Db
waiting = record db { signing_keys = key ∷ []; gateway_states = pending_state ∷ [] }

abbrev draws : GatewayDraws
draws = record {
  state = codes "s2";
  verifier = codes "v2";
  nonce = codes "n2";
  session_id = b'h';
  secret = codes "z";
}

abbrev id_token : IdToken
id_token = record {
  kid = 1;
  iss = codes "https://id";
  aud = 1;
  exp = 300;
  nonce = some (codes "n");
}

-- The provider answers with tokens of the session, and changes nothing.
abbrev exchange_code : Text → Text → Text → Db → Backchannel × Db
exchange_code code uri verifier db' = (
  tokens (some (mint_access_token env key reader session 1 (codes "openid") 4 5 1000))
      (some id_token),
  db',
)

came_back :
    (callback env exchange_code draws (codes "c") (codes "st") [] 9 2000 waiting).0
    ≡ returned (codes "https://app/") (codes "h.z")
unfolding callback text_eq exchanged accept_tokens verify_access_token mint_access_token
    drop_while_end verify_id_token open_session
came_back = refl

callback-IsReturned_example :
    IsReturned env exchange_code (codes "st") (codes "c") (codes "https://app/") 9 2000 waiting
callback-IsReturned_example =
    callback-IsReturned env exchange_code draws (codes "c") (codes "st") [] 9 2000 waiting
      (codes "https://app/") (codes "h.z") came_back

some_code : text_eq (codes "c") [] ≡ false
unfolding text_eq
some_code = refl

some_state : text_eq (codes "st") [] ≡ false
unfolding text_eq
some_state = refl

abbrev retries : List (Return env exchange_code)
retries = (draws, codes "e", codes "st", codes "denied", 9, 2500) ∷ []

callback-once_example :
    let after =
      callbacks env exchange_code retries
        (callback env exchange_code draws (codes "c") (codes "st") [] 9 2000 waiting).1 in
    (m : GatewayMessage) × (callback env exchange_code draws
        (codes "d")
        (codes "st")
        []
        9
        3000
        after
      ≡ (plain 400 m, after))
callback-once_example =
    callback-once env exchange_code draws draws (codes "c") (codes "d") (codes "st") [] 9 9 2000
      3000 retries waiting pending_state (λ code uri verifier db'. refl) some_code some_state refl
      (omega arith) refl
