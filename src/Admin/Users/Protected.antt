-- ===== src/Admin/Users/Protected.antt =====
-- The bootstrap administrator, over every change that admin/routes/users.py makes.
-- The user is in the table, protected, of the administrators' tier, and active.
use hyproxy.Admin.Users.Revoked.{revoke_user_sessions-SameAccounts}
use hyproxy.Idp.Passkeys.{refused}
use hyproxy.Admin.Deps.{is_admin_tier}
use hyproxy.Idp.Request.{AuthedRequest}
use hyproxy.Settings.{Env}
use hyproxy.Store.{Db, get_user}
use hyproxy.Store.Accounts.{admin_action, User}
use hyproxy.Admin.Users.{
  users_route, UserRequest, creates, delete_credential, deletes, deletes_credential, patches,
  reset_password, reset_totp, resets_password, resets_totp, revoke_sessions, revokes_sessions,
  delete_user, revoke_user_sessions, patch_user, create_user,
}
use hyproxy.Admin.Accounts.{
  credential_of, without_totp, cascade_user, delete_user_row, given_or, UserCreate, UserPatch,
  is_disabled, patch_allowed, patched, save_user,
}
use hyproxy.Base.{
  ==_iff, ap, lookup-filter, lookup-key, ◌∙◌, Ip, Option-cases, Result-cases, [], lookup-snoc, none,
  ◌++◌, ◌∷◌, Bool-cases, Text, Uuid, arith, false, find?, inl, inr, lookup-put, ok, some, sym, true,
  ℕ, ◌==◌, ◌≡◌,
}
use mathlib.Core.Path.{subst}

pub record IsBootstrap (id : Uuid) (db : Db) : Type 0 where
  pub row : User
  pub held : get_user id db ≡ some row
  pub guarded : row.is_protected ≡ true
  pub top_tier : is_admin_tier row.auth_tier ≡ true
  pub on : is_disabled row.status ≡ false

abbrev pub user_key : User → ℕ
user_key u = u.id

pub IsBootstrap-same :
    {id : Uuid} {db db' : Db} → db'.users ≡ db.users → IsBootstrap id db → IsBootstrap id db'
IsBootstrap-same {id} same h = record {
  row = h.row;
  held = subst (λ us. find? (λ (u : User). u.id == id) us ≡ some h.row) (sym same) h.held;
  guarded = h.guarded;
  top_tier = h.top_tier;
  on = h.on;
}

-- A row that is written back, and is itself a bootstrap administrator's if it is the one.
IsBootstrap-put :
    (id : Uuid) (row : User) (db : Db)
    → (row.id ≡ id
        → (row.is_protected ≡ true)
          × (is_admin_tier row.auth_tier ≡ true)
          × (is_disabled row.status ≡ false))
    → IsBootstrap id db
    → IsBootstrap id (save_user row db)
IsBootstrap-put id row db fits h = elim (Bool-cases (row.id == id)) [
  | inl mine ↦
      let (p, t, o) = fits (ground arith) in
      record {
        row = row;
        held = ground (arith, lookup-put user_key id row db.users, h.held);
        guarded = p;
        top_tier = t;
        on = o;
      }
  | inr other ↦ record {
    row = h.row;
    held = ground (arith, lookup-put user_key id row db.users, h.held);
    guarded = h.guarded;
    top_tier = h.top_tier;
    on = h.on;
  }
]

module _ (e : Env) (authed : AuthedRequest) (id : Uuid) where
  create_user-users :
      (body : UserCreate) (new : Uuid) (random : Text) (db : Db) (out : User × Db)
      → create_user e authed body new random db ≡ ok out
      → out.1.users ≡ db.users ++ out.0 ∷ []
  unfolding create_user
  create_user-users body new random db out k = ground arith

  create_user-IsBootstrap :
      (body : UserCreate) (new : Uuid) (random : Text) (db : Db) (out : User × Db)
      → IsBootstrap id db
      → create_user e authed body new random db ≡ ok out
      → IsBootstrap id out.1
  create_user-IsBootstrap body new random db out h k = record {
    row = h.row;
    held = ground (
      arith,
      lookup-snoc user_key id out.0 db.users,
      h.held,
      create_user-users body new random db out k,
    );
    guarded = h.guarded;
    top_tier = h.top_tier;
    on = h.on;
  }

  -- The row that `patch_user` writes.
  patched-fits :
      (user : User) (body : UserPatch) (db : Db)
      → patch_allowed user
          (given_or body.auth_tier user.auth_tier)
          (given_or body.status user.status)
          db
        ≡ ok tt
      → user.is_protected ≡ true
      → (is_admin_tier (patched user body).auth_tier ≡ true)
        × (is_disabled (patched user body).status ≡ false)
  unfolding patch_allowed
  patched-fits user body db h k = (ground arith, ground arith)

  pub patch_user-users :
      (user_id : Uuid) (body : UserPatch) (addr : Ip) (db : Db) (out : User × Db)
      → patch_user e authed user_id body addr db ≡ ok out
      → (user : User) × (get_user user_id db ≡ some user)
        × (out.0 ≡ patched user body)
        × (patch_allowed user
              (given_or body.auth_tier user.auth_tier)
              (given_or body.status user.status)
              db
            ≡ ok tt)
        × (out.1.users ≡ (save_user (patched user body) db).users)
        × (out.1.webauthn_credentials ≡ db.webauthn_credentials)
  unfolding patch_user
  patch_user-users user_id body addr db out k = elim (Option-cases (get_user user_id db)) [
    | inl unknown ↦ let no : ⊥ = ground arith in elim no [ ]
    | inr (user, known) ↦
        let verdict =
          patch_allowed user (given_or body.auth_tier user.auth_tier)
            (given_or body.status user.status) db in
        let saved = save_user (patched user body) db in
        let ended = revoke_user_sessions-SameAccounts e user.id admin_action addr none saved in
        elim (Result-cases verdict) [
          | inr (x, refused) ↦ let no : ⊥ = ground arith in elim no [ ]
          | inl (u, good) ↦ (
            user,
            known,
            ground arith,
            good,
            ground (arith, ended.same_users),
            ground (arith, ended.same_credentials),
          )
        ]
  ]

  patch_user-IsBootstrap :
      (user_id : Uuid) (body : UserPatch) (addr : Ip) (db : Db) (out : User × Db)
      → IsBootstrap id db
      → patch_user e authed user_id body addr db ≡ ok out
      → IsBootstrap id out.1
  patch_user-IsBootstrap user_id body addr db out h k =
      let (user, known, made, good, users', creds') = patch_user-users user_id body addr db out k in
      let mine : user.id ≡ user_id = lookup-key user_key user_id db.users known in
      IsBootstrap-same users' (
        IsBootstrap-put id (patched user body) db
          (λ same.
            let one : user ≡ h.row =
              cc (known, h.held, ap (λ i. get_user i db) (sym mine ∙ same)) in
            let guarded : user.is_protected ≡ true =
              ap (λ (u : User). u.is_protected) one ∙ h.guarded in
            let (tier, on') = patched-fits user body db good guarded in (guarded, tier, on'))
          h)

  delete_user-IsBootstrap :
      (user_id : Uuid) (addr : Ip) (db : Db) (out : Unit {0} × Db)
      → IsBootstrap id db
      → delete_user e authed user_id addr db ≡ ok out
      → IsBootstrap id out.1
  unfolding delete_user delete_user_row cascade_user
  delete_user-IsBootstrap user_id addr db out h k = elim (Option-cases (get_user user_id db)) [
    | inl unknown ↦ let no : ⊥ = ground arith in elim no [ ]
    | inr (user, known) ↦
        let mine : user.id ≡ user_id = lookup-key user_key user_id db.users known in
        let ended = revoke_user_sessions e user.id admin_action addr none db in
        let same = revoke_user_sessions-SameAccounts e user.id admin_action addr none db in
        let base = IsBootstrap-same {id = id} {db = db} {db' = ended} same.same_users h in
        elim (Bool-cases (user.id == id)) [
          | inl target ↦
              let one : user ≡ h.row = cc (
                known,
                h.held,
                ap (λ i. get_user i db) (sym mine ∙ (==_iff user.id id).0 target),
              ) in
              let no : ⊥ = ground (arith, h.guarded, one) in elim no [ ]
          | inr other ↦ elim (Bool-cases user.is_protected) [
            | inl kept ↦ let no : ⊥ = ground arith in elim no [ ]
            | inr free ↦ record {
              row = h.row;
              held =
                  ground (arith, lookup-filter user_key id user db.users, h.held, same.same_users);
              guarded = h.guarded;
              top_tier = h.top_tier;
              on = h.on;
            }
          ]
        ]
  ]

  delete_credential-users :
      (user_id credential : Uuid) (db : Db) (out : Unit {0} × Db)
      → delete_credential e authed user_id credential db ≡ ok out
      → out.1.users ≡ db.users
  unfolding delete_credential credential_of
  delete_credential-users user_id credential db out k = ground arith

  pub revoke_sessions-users :
      (user_id : Uuid) (addr : Ip) (db : Db) (out : Unit {0} × Db)
      → revoke_sessions e authed user_id addr db ≡ ok out
      → out.1.users ≡ db.users
  unfolding revoke_sessions
  revoke_sessions-users user_id addr db out k =
      let same = revoke_user_sessions-SameAccounts e user_id admin_action addr none db in
      ground (arith, same.same_users)

  pub reset_totp-users :
      (user_id : Uuid) (addr : Ip) (db : Db) (out : Unit {0} × Db)
      → reset_totp e authed user_id addr db ≡ ok out
      → out.1.users ≡ db.users
  unfolding reset_totp
  reset_totp-users user_id addr db out k =
      let same =
        revoke_user_sessions-SameAccounts e user_id admin_action addr none
          (without_totp user_id db) in
      ground (arith, same.same_users)

  pub reset_password-users :
      (user_id : Uuid) (word : Text) (addr : Ip) (db : Db) (out : Unit {0} × Db)
      → reset_password e authed user_id word addr db ≡ ok out
      → (user : User) × (get_user user_id db ≡ some user)
        × (out.1.users
            ≡ (save_user (record user { password_hash = e.hash_password word }) db).users)
  unfolding reset_password
  reset_password-users user_id word addr db out k = elim (Option-cases (get_user user_id db)) [
    | inl unknown ↦ let no : ⊥ = ground arith in elim no [ ]
    | inr (user, known) ↦
        let saved = save_user (record user { password_hash = e.hash_password word }) db in
        let same = revoke_user_sessions-SameAccounts e user_id admin_action addr none saved in
        (user, known, ground (arith, same.same_users))
  ]

  reset_password-IsBootstrap :
      (user_id : Uuid) (word : Text) (addr : Ip) (db : Db) (out : Unit {0} × Db)
      → IsBootstrap id db
      → reset_password e authed user_id word addr db ≡ ok out
      → IsBootstrap id out.1
  reset_password-IsBootstrap user_id word addr db out h k =
      let (user, known, users') = reset_password-users user_id word addr db out k in
      let mine : user.id ≡ user_id = lookup-key user_key user_id db.users known in
      IsBootstrap-same users' (
        IsBootstrap-put id (record user { password_hash = e.hash_password word }) db
          (λ same.
            let one : h.row ≡ user =
              cc (known, h.held, ap (λ i. get_user i db) (sym mine ∙ same)) in
            subst
              (λ (u : User).
                (u.is_protected ≡ true)
                × (is_admin_tier u.auth_tier ≡ true)
                × (is_disabled u.status ≡ false))
              one (h.guarded, h.top_tier, h.on))
          h)

  pub users_route-IsBootstrap :
      (request : UserRequest) (addr : Ip) (db : Db) (out : Unit {0} × Db)
      → IsBootstrap id db
      → users_route e authed request addr db ≡ ok out
      → IsBootstrap id out.1
  unfolding users_route
  users_route-IsBootstrap (creates body new random) addr db out h k =
      elim (Result-cases (create_user e authed body new random db)) [
        | inr (x, refused) ↦ let no : ⊥ = ground arith in elim no [ ]
        | inl (made, good) ↦
            IsBootstrap-same (ground arith) (create_user-IsBootstrap body new random db made h good)
      ]
  users_route-IsBootstrap (patches user_id body) addr db out h k =
      elim (Result-cases (patch_user e authed user_id body addr db)) [
        | inr (x, refused) ↦ let no : ⊥ = ground arith in elim no [ ]
        | inl (made, good) ↦
            IsBootstrap-same (ground arith)
              (patch_user-IsBootstrap user_id body addr db made h good)
      ]
  users_route-IsBootstrap (deletes user_id) addr db out h k =
      delete_user-IsBootstrap user_id addr db out h k
  users_route-IsBootstrap (deletes_credential user_id credential) addr db out h k =
      IsBootstrap-same (delete_credential-users user_id credential db out k) h
  users_route-IsBootstrap (revokes_sessions user_id) addr db out h k =
      IsBootstrap-same (revoke_sessions-users user_id addr db out k) h
  users_route-IsBootstrap (resets_totp user_id) addr db out h k =
      IsBootstrap-same (reset_totp-users user_id addr db out k) h
  users_route-IsBootstrap (resets_password user_id word) addr db out h k =
      reset_password-IsBootstrap user_id word addr db out h k
