-- ===== src/Admin/Users/Ended.antt =====
-- Which changes of admin/routes/users.py sign the user out, and when deleting one is refused.
-- The request ends the sessions of this user: by name, or by turning an active user off.
use hyproxy.Store.{Db, get_user}
use hyproxy.Idp.Passkeys.{refused}
use hyproxy.Store.Changes.{PolicyChange}
use hyproxy.Admin.Deps.{http_error}
use hyproxy.Admin.Users.Protected.{user_key}
use hyproxy.Admin.Users.Revoked.{
  IsSignedOut, revoke_user_sessions-IsSignedOut, revoke_user_sessions-SameAccounts,
}
use hyproxy.Idp.Request.{AuthedRequest}
use hyproxy.Settings.{Env}
use hyproxy.Store.Accounts.{RefreshToken, Session, User, admin_action}
use hyproxy.Admin.Users.{
  users_route, UserRequest, creates, delete_user, deletes, deletes_credential, patch_user, patches,
  reset_password, reset_totp, resets_password, resets_totp, revoke_sessions, revoke_user_sessions,
  revokes_sessions,
}
use hyproxy.Admin.Accounts.{
  UserPatch, delete_user_row, given_or, is_disabled, is_open_of, patch_allowed, patched, save_user,
  without_totp,
}
use hyproxy.Base.{
  codes, ==_iff, All, Bool, Ip, Result-cases, Text, Uuid, any, arith, false, inl, inr, is_some,
  lookup-key, none, not, ok, some, sym, true, ◌&&◌, ◌==◌, ◌≡◌,
}
use mathlib.Core.Path.{subst}

abbrev pub ends_sessions : Uuid → User → UserRequest → Bool
ends_sessions id user (creates body new random) = false
ends_sessions id user (patches other body) =
    other == id && not (is_disabled user.status) && is_disabled (given_or body.status user.status)
ends_sessions id user (deletes other) = false
ends_sessions id user (deletes_credential other credential) = false
ends_sessions id user (revokes_sessions other) = other == id
ends_sessions id user (resets_totp other) = other == id
ends_sessions id user (resets_password other word) = other == id

IsSignedOut-same :
    {id : Uuid} {db a b : Db}
    → b.sessions ≡ a.sessions
    → b.refresh_tokens ≡ a.refresh_tokens
    → IsSignedOut id none db a
    → IsSignedOut id none db b
IsSignedOut-same {id} {db} s t h = record {
  closed = subst (All (λ (r : Session). is_open_of id none r ≡ false)) (sym s) h.closed;
  cut =
      subst
        (All (λ (r : RefreshToken).
          any (λ (x : Session). is_open_of id none x && x.id == r.session_id) db.sessions ≡ true
          → is_some r.revoked_at ≡ true))
        (sym t) h.cut;
}

module _ (e : Env) (authed : AuthedRequest) (addr : Ip) (db : Db) where
  abbrev signed_out : Uuid → Db → Db
  signed_out id before' = revoke_user_sessions e id admin_action addr none before'

  revoke_sessions-tables :
      (id : Uuid) (out : Unit {0} × Db)
      → revoke_sessions e authed id addr db ≡ ok out
      → (out.1.sessions ≡ (signed_out id db).sessions)
        × (out.1.refresh_tokens ≡ (signed_out id db).refresh_tokens)
  unfolding revoke_sessions
  revoke_sessions-tables id out k = (ground arith, ground arith)

  reset_totp-tables :
      (id : Uuid) (out : Unit {0} × Db)
      → reset_totp e authed id addr db ≡ ok out
      → (out.1.sessions ≡ (signed_out id (without_totp id db)).sessions)
        × (out.1.refresh_tokens ≡ (signed_out id (without_totp id db)).refresh_tokens)
  unfolding reset_totp
  reset_totp-tables id out k = (ground arith, ground arith)

  abbrev with_password : User → Text → Db
  with_password user word = save_user (record user { password_hash = e.hash_password word }) db

  reset_password-tables :
      (id : Uuid) (word : Text) (user : User) (out : Unit {0} × Db)
      → get_user id db ≡ some user
      → reset_password e authed id word addr db ≡ ok out
      → (out.1.sessions ≡ (signed_out id (with_password user word)).sessions)
        × (out.1.refresh_tokens ≡ (signed_out id (with_password user word)).refresh_tokens)
  unfolding reset_password
  reset_password-tables id word user out known k = (ground arith, ground arith)

  patch_user-tables :
      (id : Uuid) (body : UserPatch) (user : User) (out : User × Db)
      → get_user id db ≡ some user
      → (not (is_disabled user.status) && is_disabled (given_or body.status user.status)) ≡ true
      → patch_user e authed id body addr db ≡ ok out
      → (out.1.sessions ≡ (signed_out user.id (save_user (patched user body) db)).sessions)
        × (out.1.refresh_tokens
            ≡ (signed_out user.id (save_user (patched user body) db)).refresh_tokens)
  unfolding patch_user
  patch_user-tables id body user out known off k =
      elim (Result-cases (
        patch_allowed user (given_or body.auth_tier user.auth_tier)
          (given_or body.status user.status) db)) [
            | inr (x, refused) ↦ let no : ⊥ = ground arith in elim no [ ]
            | inl (u, good) ↦ (ground arith, ground arith)
          ]

  -- Revoking a user's sessions, resetting their one-time code or their password, and turning an active user off:
  -- where the request is granted, no session of the user is left that is not revoked, and no refresh token of a
  -- session that was open.
  pub users_route-IsSignedOut :
      (id : Uuid) (user : User) (request : UserRequest) (out : Unit {0} × Db)
      → get_user id db ≡ some user
      → ends_sessions id user request ≡ true
      → users_route e authed request addr db ≡ ok out
      → IsSignedOut id none db out.1
  unfolding users_route
  users_route-IsSignedOut id user (creates body new random) out known asked k =
      let no : ⊥ = ground arith in elim no [ ]
  users_route-IsSignedOut id user (deletes other) out known asked k =
      let no : ⊥ = ground arith in elim no [ ]
  users_route-IsSignedOut id user (deletes_credential other credential) out known asked k =
      let no : ⊥ = ground arith in elim no [ ]
  users_route-IsSignedOut id user (revokes_sessions other) out known asked k =
      let mine : other ≡ id = (==_iff other id).0 asked in
      let (s, t) =
        revoke_sessions-tables id out
          (subst (λ i. revoke_sessions e authed i addr db ≡ ok out) mine k) in
      IsSignedOut-same s t (revoke_user_sessions-IsSignedOut e id admin_action addr none db)
  users_route-IsSignedOut id user (resets_totp other) out known asked k =
      let mine : other ≡ id = (==_iff other id).0 asked in
      let (s, t) =
        reset_totp-tables id out (subst (λ i. reset_totp e authed i addr db ≡ ok out) mine k) in
      let h = revoke_user_sessions-IsSignedOut e id admin_action addr none (without_totp id db) in
      IsSignedOut-same {a = signed_out id (without_totp id db)} {b = out.1} s t
        (record { closed = h.closed; cut = h.cut })
  users_route-IsSignedOut id user (resets_password other word) out known asked k =
      let mine : other ≡ id = (==_iff other id).0 asked in
      let (s, t) =
        reset_password-tables id word user out known
          (subst (λ i. reset_password e authed i word addr db ≡ ok out) mine k) in
      let h =
        revoke_user_sessions-IsSignedOut e id admin_action addr none (with_password user word) in
      IsSignedOut-same {a = signed_out id (with_password user word)} {b = out.1} s t
        (record { closed = h.closed; cut = h.cut })
  users_route-IsSignedOut id user (patches other body) out known asked k =
      elim (Result-cases (patch_user e authed other body addr db)) [
        | inr (x, refused) ↦ let no : ⊥ = ground arith in elim no [ ]
        | inl (made, good) ↦
            let mine : other ≡ id = ground arith in
            let here : user.id ≡ id = lookup-key user_key id db.users known in
            let (s, t) =
              patch_user-tables id body user made known (ground arith)
                (subst (λ i. patch_user e authed i body addr db ≡ ok made) mine good) in
            let saved = save_user (patched user body) db in
            let h =
              subst (λ i. IsSignedOut i none saved (signed_out user.id saved)) here
                (revoke_user_sessions-IsSignedOut e user.id admin_action addr none saved) in
            IsSignedOut-same {db = db} {a = made.1} {b = out.1} (ground arith) (ground arith) (
              IsSignedOut-same {db = db} {a = signed_out user.id saved} {b = made.1} s t
                (record { closed = h.closed; cut = h.cut }))
      ]

  -- The database refuses to delete a user who is the actor of a recorded change.
  pub delete_user-actor :
      (id : Uuid) (user : User)
      → any (λ (c : PolicyChange). c.actor_id == id) db.policy_changes ≡ true
      → get_user id db ≡ some user
      → (id == authed.user.id) ≡ false
      → user.is_protected ≡ false
      → delete_user e authed id addr db ≡ http_error 500 (codes "Internal Server Error")
  unfolding delete_user delete_user_row
  delete_user-actor id user acted known distinct ordinary =
      let mine : user.id ≡ id = lookup-key user_key id db.users known in
      let same = revoke_user_sessions-SameAccounts e user.id admin_action addr none db in
      let still : any (λ (c : PolicyChange). c.actor_id == user.id)
            (signed_out user.id db).policy_changes
          ≡ true =
        subst (λ cs. any (λ (c : PolicyChange). c.actor_id == user.id) cs ≡ true)
          (sym same.same_changes)
          (subst (λ i. any (λ (c : PolicyChange). c.actor_id == i) db.policy_changes ≡ true)
            (sym mine) acted) in
      let apart : (user.id == authed.user.id) ≡ false = rw mine distinct in
      ground (arith, known, apart, ordinary, still)
