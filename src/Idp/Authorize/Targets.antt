-- ===== src/Idp/Authorize/Targets.antt =====
-- Where idp/oidc/authorize.py sends a browser, and the code it sends along.
use hyproxy.Idp.Passkeys.{refused}
use mathlib.Core.Path.{subst}
use hyproxy.Idp.Codes.{issue_code}
use hyproxy.Idp.Flows.{create_flow}
use hyproxy.Idp.Sessions.{get_session_from_cookie}
use hyproxy.Idp.Authorize.{
  bad_challenge, bad_method, bad_nonce, bad_scope, bad_state, bad_type, given, authorize, give_code,
  grant_code, park, mem_text,
}
-- A redirect goes to our own login page, or to a URI that the named client, which is enabled, has registered.
use hyproxy.Store.Accounts.{OAuthClient}
use hyproxy.Store.{Db}
use hyproxy.Idp.Authorize.{
  mem_text, CodeRequest, enabled_client, param, read_request, redirect_error,
}
use hyproxy.Settings.{Env}
use hyproxy.Idp.Login.{Browser, LoginDraws, Page, Response, redirect}
use hyproxy.Base.{
  Bool-cases, Result-cases, [], ap, arith, not, sym, text_eq, ◌||◌, ◌∙◌, Option, Option-cases,
  Result, Time, inl, inr, refl, List, Text, Uuid, codes, err, ok, some, true, ◌++◌, ◌∷◌, ◌≡◌, ◌⊎◌,
}

abbrev pub IsSafe : Env → List (Text × Text) → Db → Page → Type 0
IsSafe e q db page = elim page [
  | redirect t ↦
      ((id : Uuid) × (t ≡ codes "/auth/login?flow=" ++ e.uuid_str id))
      ⊎ ((client : OAuthClient) × (uri : Text) × (rest : Text) × (enabled_client
              (param (codes "client_id") q) db
            ≡ some client)
          × (mem_text uri client.redirect_uris ≡ true)
          × (t ≡ uri ++ b'?' ∷ rest))
  | _ ↦ Unit
]

-- What the checks come to: an error that goes back to the URI, or a request for it.
data IsHome (client : OAuthClient) (uri : Text) : Result Response CodeRequest → Type 0 where
  sent_home :
      {r : Response} (rest : Text)
      → r.page ≡ redirect (uri ++ b'?' ∷ rest)
      → IsHome client uri (err r)
  passed : {r : CodeRequest} → r.redirect_uri ≡ uri → r.client ≡ client → IsHome client uri (ok r)

home_target :
    {client : OAuthClient} {uri : Text} {r : Response}
    → IsHome client uri (err r)
    → (rest : Text) × (r.page ≡ redirect (uri ++ b'?' ∷ rest))
home_target (sent_home rest h) = (rest, h)

passed_request :
    {client : OAuthClient} {uri : Text} {r : CodeRequest}
    → IsHome client uri (ok r)
    → (r.redirect_uri ≡ uri) × (r.client ≡ client)
passed_request (passed h k) = (h, k)

module _ (e : Env) where
  redirect_error-IsHome :
      (client : OAuthClient) (uri kind : Text) (state description : Option Text)
      → IsHome client uri (err (redirect_error e uri kind state description))
  unfolding redirect_error
  redirect_error-IsHome client uri kind state description = sent_home _ refl

  read_request-IsHome :
      (q : List (Text × Text)) (client : OAuthClient) (uri : Text)
      → IsHome client uri (read_request e q client uri)
  unfolding read_request
  read_request-IsHome q client uri =
      let home = redirect_error-IsHome client uri in
      elim (Bool-cases (bad_state q)) [
        | inl bad ↦ rw (read_request, bad) (home _ _ _)
        | inr state_ok ↦ elim (Bool-cases (bad_type q)) [
          | inl bad ↦ rw (read_request, state_ok, bad) (home _ _ _)
          | inr type_ok ↦ elim (Bool-cases (bad_scope q client)) [
            | inl bad ↦ rw (read_request, state_ok, type_ok, bad) (home _ _ _)
            | inr scope_ok ↦ elim (Bool-cases (bad_nonce q)) [
              | inl bad ↦ rw (read_request, state_ok, type_ok, scope_ok, bad) (home _ _ _)
              | inr nonce_ok ↦ elim (Bool-cases (bad_method q)) [
                | inl bad ↦
                    rw (read_request, state_ok, type_ok, scope_ok, nonce_ok, bad) (home _ _ _)
                | inr method_ok ↦ elim (Bool-cases (bad_challenge q)) [
                  | inl bad ↦
                      rw (read_request, state_ok, type_ok, scope_ok, nonce_ok, method_ok, bad)
                        (home _ _ _)
                  | inr challenge_ok ↦
                      rw
                        (
                          read_request, state_ok, type_ok, scope_ok, nonce_ok, method_ok,
                          challenge_ok,
                        )
                        (passed refl refl)
                ]
              ]
            ]
          ]
        ]
      ]

  -- What `give_code` and `park` answer.
  grant_code-IsSafe :
      (draws : LoginDraws) (q : List (Text × Text)) (r : CodeRequest) (b : Browser) (now : Time)
      (db : Db)
      → enabled_client (param (codes "client_id") q) db ≡ some r.client
      → mem_text r.redirect_uri r.client.redirect_uris ≡ true
      → IsSafe e q db (grant_code e draws r b now db).0.page
  unfolding grant_code give_code park create_flow issue_code
  grant_code-IsSafe draws q r b now db known registered =
      elim (Option-cases (get_session_from_cookie e b.session_cookie b.addr now db).0) [
        | inl anonymous ↦ rw (grant_code, anonymous) (inl (draws.flow_id, refl))
        | inr (session, found) ↦
            rw (grant_code, found) (inr (r.client, r.redirect_uri, _, known, registered, refl))
      ]

  -- An answer of the endpoint that redirects goes to our own login page, or to a URI that the client of the
  -- request, which is enabled, has registered: never to a target that was not checked.
  pub authorize-IsSafe :
      (draws : LoginDraws) (q : List (Text × Text)) (b : Browser) (now : Time) (db : Db)
      → IsSafe e q db (authorize e draws q b now db).0.page
  unfolding authorize
  authorize-IsSafe draws q b now db =
      elim (Option-cases (enabled_client (param (codes "client_id") q) db)) [
        | inl unknown ↦ rw (authorize, unknown) tt
        | inr (client, known) ↦
            let uri = given "redirect_uri" q in
            let home = read_request-IsHome q client uri in
            elim (Bool-cases (text_eq uri [] || not (mem_text uri client.redirect_uris))) [
              | inl foreign ↦ rw (authorize, known, foreign) tt
              | inr registered ↦ elim (Result-cases (read_request e q client uri)) [
                | inr (r, refused) ↦
                    let (rest, target) = home_target (subst (IsHome client uri) refused home) in
                    rw (authorize, known, registered, refused, target)
                      (inr (client, uri, rest, known, ground arith, refl))
                | inl (r, good) ↦
                    let (same_uri, same_client) =
                      passed_request (subst (IsHome client uri) good home) in
                    let known' : enabled_client (param (codes "client_id") q) db ≡ some r.client =
                      known ∙ ap some (sym same_client) in
                    let listed : mem_text r.redirect_uri r.client.redirect_uris ≡ true =
                      rw (same_uri, same_client) (ground arith) in
                    rw (authorize, known, registered, good)
                      (grant_code-IsSafe draws q r b now db known' listed)
              ]
            ]
      ]
