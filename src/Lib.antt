-- ===== src/Lib.antt =====
-- hyproxy, an identity-aware reverse proxy: the decisions of its Python services, modelled from
-- server/src/hyproxy and verified.
--
-- The data plane sends every request that it wants to proxy to `/authz/check`. That handler finds the
-- resource under the host; a public resource asks for a session that a shared password opened, any other
-- for a gateway session, which stands on a session of the identity provider, and for the verdict of the
-- policy engine over the user's roles. The identity provider issues sessions, authorization codes and
-- refresh tokens, checks the proofs of possession that come with them, and slows down failed attempts. A
-- login is a flow of its own row: the password ties it to a user, and the second factor of that user's
-- tier, a one-time code or a passkey, completes it with a session. Administrators change users, resources,
-- roles and policies through an API that asks for a token of their session, its proof and a recent step-up;
-- users have a portal with their resources, their password and a queue of downloads.
--
-- Base, with its children, holds the shared types, tests, lists, tables and texts. Json is the JSON of
-- the columns that hold it. The models, each with child modules for its theorems:
--   Policy.Engine       policy/engine.py: PolicyRule, rule_applies, time_window_matches, evaluate
--   Policy.Glob         policy/pathglob.py: _translate, matches, validate_pattern, validate_patterns
--   Settings            config.py: the settings that are read; and the functions of the libraries
--   Store               db/models.py: the tables, and emit of audit/events.py
--   Security.Pkce       security/pkce.py: valid_challenge, verify_s256
--   Security.Ratelimit  security/ratelimit.py: delay_seconds, check, register_failure, reset_account
--   Security.Totp       security/totp.py: the rows of user_totp, verify_code, decrypt_secret
--   Security.Recovery   security/recovery.py: normalize, issue_batch, consume
--   Idp.Sessions        idp/sessions.py: create_session, reissue_cookie, check_liveness, touch, revoke,
--                       get_session_from_cookie
--   Idp.Codes           idp/oidc/codes.py: issue_code, consume_code, find_consumed
--   Idp.Refresh         idp/oidc/refresh.py: issue_family, find, rotate, revoke_family
--   Idp.Replay          idp/oidc/replay.py: check_and_store; the end of verify_proof in idp/oidc/dpop.py;
--                       the collection of identifiers by gc of cli.py
--   Idp.Token           idp/oidc/token.py: token_endpoint, _authorization_code_grant, _refresh_grant; and
--                       mint_access_token of idp/oidc/tokens.py
--   Idp.Flows           idp/flows.py: create_flow, get_valid_flow, rotate_csrf, delete_flow
--   Idp.Login           idp/web/routes.py: login_form, login_submit, and what the factors share
--   Idp.SecondFactor    idp/web/routes.py: totp_submit, enroll_totp_submit, recovery_submit, and pages
--   Idp.Passkeys        idp/web/webauthn_routes.py: webauthn_verify, enroll_webauthn_verify, and pages
--   Idp.Stepup          idp/web/webauthn_routes.py: stepup_page, stepup_options, stepup_verify
--   Idp.Phases          the abstract machine of a login flow, and that each handler refines it
--   Idp.Minted          when the second factors hand out a session
--   Idp.Authorize       idp/oidc/authorize.py: authorize, logout
--   Idp.Keys            core/keys.py: create_pending, activate_pending, gc_retired
--   Idp.Request         check_request of idp/sessions.py, verify_access_token of idp/oidc/tokens.py, and
--                       idp/oidc/revoke.py
--   Authz.Decision      authz/decision.py: _host_stable, evaluate_access
--   Authz.PublicGate    authz/publicgate.py: sessions on a public resource, _safe_rd
--   Authz.PublicForm    authz/publicgate.py: gate_form, gate_submit, _resource_for_request
--   Authz.Gateway       authz/gateway.py: resolve_gateway_session, logout
--   Authz.Callback      authz/gateway.py: valid_return_url, start, callback; verify_id_token of
--                       idp/oidc/tokens.py
--   Authz.Grants        guac/broker.py and rtsp/broker.py: consume_grant
--   Authz.Check         authz/check.py: check, _check_public
--   Admin.Deps          admin/deps.py: require_admin, require_recent_stepup, _check_token, _expected_htu
--   Admin.Changes       admin/changes.py: record_change
--   Admin.Accounts      admin/routes/users.py: the guards and the rows behind it
--   Admin.Users         admin/routes/users.py: every change to users, their passkeys and their sessions
--   Admin.Shapes        admin/schemas.py: the validators of bodies on resources
--   Admin.Targets       admin/routes/resources.py, admin/routes/connections.py: the guards and the rows
--   Admin.Resources     admin/routes/resources.py and admin/routes/connections.py; seal_secret_params of
--                       guac/connections.py, set_public_password of authz/publicgate.py
--   Admin.Rules         admin/routes/policies.py, roles.py and user_roles.py
--   Admin.Portal        admin/routes/portal.py, MAGNET_RE of admin/schemas.py
--   Audit.Shipping      audit/shipping.py: ship, its batches and cursors
-- Paths are from server/src/hyproxy. Tests holds a small deployment and the theorems applied to it.
--
-- The database is a record of tables, passed from one operation to the next; a statement of SQL is a
-- function on the lists of rows. One call is one transaction, so calls come one after the other. A time
-- is in microseconds since the epoch. UUIDs, addresses, digests and names, which the code only compares
-- and passes on, are numbers. Texts are lists of code points. Digests, the parsing and printing of
-- UUIDs, lower case, percent encoding and the parsing of URLs are fields of Env, so that the theorems
-- hold of any functions in their place; random values are arguments. Every function is structurally
-- recursive, and none takes fuel.
--
-- In the administrators' API an exception is an error value, and only `commit` says what its rolled-back
-- transaction leaves; the portal's answers are values, and keep what was written.
--
-- Columns of type CITEXT (the addresses of users, the public hosts) are compared with both sides in lower
-- case; the ids that a login draws are taken to be unused where a theorem says so.
--
-- A page is the template that is rendered with what it shows, and an answer is its status, its page, and
-- what it does to the two cookies. What a library draws for a request (the secrets of a flow, a session or
-- a challenge) is an argument of the handler, in a record for a login. The checks on a passkey's answers,
-- the check of a one-time code, sealed secrets, base64 and the printing of JSON and of queries are fields
-- of Env too; the decoding of a token, the offline checks on a proof and the exchange
-- of a code over the network are arguments.
--
-- Not modelled: the userinfo and discovery endpoints; the minting of the ID token and of the grants of
-- the brokers of remote desktops and cameras, and their services; the viewers of the trails; the input
-- and output of the web framework; the detail of audit events; columns that are only displayed. The
-- audit rows of the data plane carry their reasons as constructors, where `granted` stands for the
-- reason "allow" of the engine.
pub mod Base
pub mod Json
pub mod Policy
pub mod Settings
pub mod Store
pub mod Security
pub mod Idp
pub mod Authz
pub mod Admin
pub mod Audit
pub mod Tests
