-- ===== src/Admin/Portal/Passwords.antt =====
-- Changing one's own password, and the list of one's own resources.
use hyproxy.Idp.Request.{AuthedRequest}
use hyproxy.Admin.Users.Protected.{user_key}
use hyproxy.Idp.Sessions.Rows.{session_id}
use hyproxy.Idp.Refresh.{revoke_for_session}
use hyproxy.Admin.Users.Revoked.{
  IsSignedOut, revoke_user_sessions-IsSignedOut, revoke_user_sessions-SameAccounts,
}
use hyproxy.Admin.Portal.{change_password, problem}
use hyproxy.Store.{Db, get_session, get_user}
use hyproxy.Admin.Users.{revoke_rows, revoke_user_sessions}
use hyproxy.Admin.Accounts.{is_open_of, save_user}
use hyproxy.Idp.Sessions.{revoke}
use hyproxy.Settings.{Env}
use hyproxy.Store.Accounts.{RefreshToken, RevokeReason, Session, User, password_change}
use hyproxy.Base.{
  ==_refl, All, All-filter, Ip, List, Option-cases, Text, Uuid, [], any, ap, arith, codes, false,
  filter, find?, inl, inr, is_some, lookup-put, refl, some, sym, true, ◌&&◌, ◌==◌, ◌∙◌, ◌∷◌, ◌≡◌,
}
use mathlib.Core.Path.{subst}

module _ (e : Env) where
  revoke-others :
      (k : Uuid) (row : Session) (reason : RevokeReason) (addr : Ip) (db : Db)
      → (row.id == k) ≡ false
      → get_session k (revoke e row reason addr (revoke_for_session e row.id db)).1
        ≡ get_session k db
  unfolding revoke revoke_for_session
  revoke-others k row reason addr db other = elim (Option-cases row.revoked_at) [
    | inr (at, gone) ↦ rw (revoke, gone) refl
    | inl open' ↦
        rw (revoke, open')
          (let row' = record row { revoked_at = some e.utcnow; revoke_reason = some reason } in
            ground (arith, lookup-put session_id k row' db.sessions))
  ]

  revoke_rows-others :
      (k : Uuid) (rows : List Session) (reason : RevokeReason) (addr : Ip) (db : Db)
      → All (λ (r : Session). (r.id == k) ≡ false) rows
      → get_session k (revoke_rows e rows reason addr db) ≡ get_session k db
  unfolding revoke_rows
  revoke_rows-others k [] reason addr db h = refl
  revoke_rows-others k (row ∷ rows) reason addr db h =
      revoke_rows-others k rows reason addr
        (revoke e row reason addr (revoke_for_session e row.id db)).1 h.1
      ∙ revoke-others k row reason addr db h.0

  -- The session that is spared is as it was.
  spared :
      (user k : Uuid) (reason : RevokeReason) (addr : Ip) (db : Db)
      → get_session k (revoke_user_sessions e user reason addr (some k) db) ≡ get_session k db
  unfolding revoke_user_sessions
  spared user k reason addr db =
      revoke_rows-others k (filter (is_open_of user (some k)) db.sessions) reason addr db (
        All-filter (λ (r : Session). (r.id == k) ≡ false) (is_open_of user (some k)) db.sessions
          (λ x h. ground arith))

  -- What the database holds after a password is changed by its user.
  pub record IsChanged (authed : AuthedRequest) (new : Text) (before' after' : Db) : Type 0 where
    pub signed_out : IsSignedOut authed.user.id (some authed.session.id) before' after'
    pub own : get_session authed.session.id after' ≡ get_session authed.session.id before'
    pub user : User
    pub held : get_user authed.user.id after' ≡ some user
    pub verifies : e.verify_hash user.password_hash new ≡ true

  abbrev pub rekeyed : AuthedRequest → Text → Db → Db
  rekeyed authed new db = save_user (record authed.user { password_hash = e.hash_password new }) db

  granted_tables :
      (authed : AuthedRequest) (current new : Text) (addr : Ip) (db : Db)
      → e.verify_hash authed.user.password_hash current ≡ true
      → let out = (change_password e authed current new addr db).1 in
        let there =
          revoke_user_sessions e authed.user.id password_change addr
            (some authed.session.id)
            (rekeyed authed new db) in
        (out.sessions ≡ there.sessions)
        × (out.refresh_tokens ≡ there.refresh_tokens)
        × (out.users ≡ there.users)
  unfolding change_password
  granted_tables authed current new addr db right = (ground arith, ground arith, ground arith)

  -- With the current password, where a hash verifies the password it is of and the user is in the table: the new
  -- password verifies, every other session of the user is revoked with its refresh tokens, and the session of the
  -- request is as it was. Without it the answer is 403, and only an event is written.
  pub change_password-IsChanged :
      (authed : AuthedRequest) (current new : Text) (addr : Ip) (db : Db) (old : User)
      → e.verify_hash (e.hash_password new) new ≡ true
      → get_user authed.user.id db ≡ some old
      → (e.verify_hash authed.user.password_hash current ≡ true
          → IsChanged authed new db (change_password e authed current new addr db).1)
        × (e.verify_hash authed.user.password_hash current ≡ false
            → (change_password e authed current new addr db ≡ (
              problem 403 (codes "current password incorrect"),
              record db {
                auth_events = (change_password e authed current new addr db).1.auth_events;
              },
            )))
  unfolding change_password
  change_password-IsChanged authed current new addr db old sound known = (
    λ right.
        let (s, t, u) = granted_tables authed current new addr db right in
        let base = rekeyed authed new db in
        let own' = some authed.session.id in
        let out =
          revoke_user_sessions-IsSignedOut e authed.user.id password_change addr own' base in
        let same =
          revoke_user_sessions-SameAccounts e authed.user.id password_change addr own' base in
        let row = record authed.user { password_hash = e.hash_password new } in
        record {
          signed_out = record {
            closed =
                subst (All (λ (r : Session). is_open_of authed.user.id own' r ≡ false)) (sym s)
                  out.closed;
            cut =
                subst
                  (All (λ (r : RefreshToken).
                    any (λ (x : Session). is_open_of authed.user.id own' x && x.id == r.session_id)
                        db.sessions
                      ≡ true
                    → is_some r.revoked_at ≡ true))
                  (sym t) out.cut;
          };
          own =
              ap (find? (λ (x : Session). x.id == authed.session.id)) s
              ∙ spared authed.user.id authed.session.id password_change addr base;
          user = row;
          held = ground (
            arith,
            u,
            same.same_users,
            lookup-put user_key authed.user.id row db.users,
            known,
            ==_refl authed.user.id,
          );
          verifies = sound;
        },
    λ wrong. ground arith,
  )
