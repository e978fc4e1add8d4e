-- ===== src/Admin/Users/Strong.antt =====
-- The strong passkeys of an administrator, over the changes of admin/routes/users.py.
use hyproxy.Admin.Changes.{record_change}
use hyproxy.Idp.Passkeys.{refused}
use mathlib.Core.Path.{subst}
use hyproxy.Admin.Users.Protected.{
  reset_password-users, reset_totp-users, revoke_sessions-users, patch_user-users, user_key,
}
use hyproxy.Admin.Users.Revoked.{revoke_user_sessions-SameAccounts}
use hyproxy.Settings.{Env}
use hyproxy.Store.Accounts.{active, admin_action, User, WebAuthnCredential}
use hyproxy.Idp.Request.{AuthedRequest}
use hyproxy.Admin.Deps.{is_admin_tier}
use hyproxy.Admin.Users.{
  UserRequest, creates, deletes, deletes_credential, patches, reset_password, reset_totp,
  resets_password, resets_totp, revoke_sessions, revokes_sessions, users_route, create_user,
  delete_credential, delete_user, patch_user,
}
use hyproxy.Admin.Accounts.{
  save_user, user_snapshot, without_totp, UserCreate, UserPatch, cascade_user, credential_of,
  delete_user_row, patch_allowed, patched, is_disabled, is_strong_of, strong_credential_count,
}
use hyproxy.Store.{Db, get_user}
use hyproxy.Base.{
  Result-cases, ==_iff, Ip, Option-cases, Text, lookup-filter, lookup-key, lookup-put, lookup-snoc,
  none, ok, sym, ◌++◌, ◌∙◌, Bool, Bool-cases, List, Uuid, [], ap, arith, count_where, false, filter,
  find?, if◌then◌else◌, inl, inr, not, refl, some, true, ◌+◌, ◌==◌, ◌∷◌, ◌≡◌, ◌≤◌,
}

abbrev has_id : Uuid → WebAuthnCredential → Bool
has_id id row = row.id == id

abbrev without : Uuid → List WebAuthnCredential → List WebAuthnCredential
without id = filter (λ (c : WebAuthnCredential). not (c.id == id))

without_absent :
    (id : Uuid) (p : WebAuthnCredential → Bool) (cs : List WebAuthnCredential)
    → count_where (has_id id) cs ≡ 0
    → count_where p (without id cs) ≡ count_where p cs
without_absent id p [] h = refl
without_absent id p (c ∷ cs) h = ground (arith, without_absent id p cs)

-- Taking out the one row under a key.
without_one :
    (id : Uuid) (p : WebAuthnCredential → Bool) (cs : List WebAuthnCredential)
    {row : WebAuthnCredential}
    → count_where (has_id id) cs ≤ 1
    → find? (has_id id) cs ≡ some row
    → count_where p (without id cs) + (if p row then 1 else 0) ≡ count_where p cs
without_one id p [] le f = ground arith
without_one id p (c ∷ cs) {row} le f = elim (Bool-cases (c.id == id)) [
  | inl here ↦ ground (arith, without_absent id p cs)
  | inr later ↦ ground (arith, without_one id p cs {row = row})
]

others_stay :
    (user id : Uuid) (cs : List WebAuthnCredential)
    → (user == id) ≡ false
    → count_where
        (is_strong_of id)
        (filter (λ (c : WebAuthnCredential). not (c.user_id == user)) cs)
      ≡ count_where (is_strong_of id) cs
others_stay user id [] other = refl
others_stay user id (c ∷ cs) other = ground (arith, others_stay user id cs)

-- Each passkey has a key of its own.
abbrev pub HasOwnKeys : Db → Type 0
HasOwnKeys db = (k : Uuid) → count_where (has_id k) db.webauthn_credentials ≤ 1

-- An administrator, if the user is one, is active and has two strong passkeys.
abbrev pub IsEquipped : Uuid → User → Db → Type 0
IsEquipped id user db =
    is_admin_tier user.auth_tier ≡ true
    → (is_disabled user.status ≡ false) × (2 ≤ strong_credential_count id db)

module _ (e : Env) (authed : AuthedRequest) (id : Uuid) (db : Db) (user : User)
    (known : get_user id db ≡ some user) (equipped : IsEquipped id user db) where
  -- The user's tier is what it was, and so are the passkeys.
  same_user :
      (out : Db) (user' : User)
      → out.users ≡ db.users
      → out.webauthn_credentials ≡ db.webauthn_credentials
      → get_user id out ≡ some user'
      → is_admin_tier user'.auth_tier ≡ true
      → 2 ≤ strong_credential_count id out
  same_user out user' us cs found top =
      let one : user' ≡ user = cc (found, known, ap (λ r. find? (λ (u : User). u.id == id) r) us) in
      ground (arith, equipped)

  creates_two :
      (body : UserCreate) (new : Uuid) (random : Text) (out : User × Db) (user' : User)
      → create_user e authed body new random db ≡ ok out
      → get_user id out.1 ≡ some user'
      → is_admin_tier user'.auth_tier ≡ true
      → 2 ≤ strong_credential_count id out.1
  unfolding create_user
  creates_two body new random out user' k found top =
      let us : out.1.users ≡ db.users ++ out.0 ∷ [] = ground arith in
      let cs : out.1.webauthn_credentials ≡ db.webauthn_credentials = ground arith in
      let one : user' ≡ user =
        ground (arith, lookup-snoc user_key id out.0 db.users, known, found, us) in
      ground (arith, equipped)

  patches_two :
      (other : Uuid) (body : UserPatch) (addr : Ip) (out : User × Db) (user' : User)
      → patch_user e authed other body addr db ≡ ok out
      → get_user id out.1 ≡ some user'
      → is_admin_tier user'.auth_tier ≡ true
      → 2 ≤ strong_credential_count id out.1
  unfolding patch_allowed
  patches_two other body addr out user' k found top =
      let (target, stored, made, good, us, cs) =
        patch_user-users e authed id other body addr db out k in
      let row = patched target body in
      let mine : target.id ≡ other = lookup-key user_key other db.users stored in
      elim (Bool-cases (target.id == id)) [
        | inr another ↦
            let one : user' ≡ user =
              ground (arith, lookup-put user_key id row db.users, known, found, us) in
            ground (arith, equipped)
        | inl this ↦
            let new : user' ≡ row =
              ground (arith, lookup-put user_key id row db.users, known, found, us) in
            let old : target ≡ user =
              cc (
                stored,
                known,
                ap (λ i. get_user i db) (sym mine ∙ (==_iff target.id id).0 this),
              ) in
            elim (Bool-cases (is_admin_tier target.auth_tier)) [
              | inl before' ↦ ground (arith, equipped)
              | inr promoted ↦ ground arith
            ]
      ]

  deletes_two :
      (other : Uuid) (addr : Ip) (out : Unit {0} × Db) (user' : User)
      → delete_user e authed other addr db ≡ ok out
      → get_user id out.1 ≡ some user'
      → is_admin_tier user'.auth_tier ≡ true
      → 2 ≤ strong_credential_count id out.1
  unfolding delete_user delete_user_row cascade_user
  deletes_two other addr out user' k found top = elim (Option-cases (get_user other db)) [
    | inl unknown ↦ let no : ⊥ = ground arith in elim no [ ]
    | inr (target, stored) ↦
        let same = revoke_user_sessions-SameAccounts e target.id admin_action addr none db in
        elim (Bool-cases (target.id == id)) [
          | inl this ↦
              let no : ⊥ =
                ground (arith, lookup-filter user_key id target db.users, same.same_users) in
              elim no [ ]
          | inr another ↦
              let one : user' ≡ user =
                ground (arith, lookup-filter user_key id target db.users, same.same_users, known) in
              ground (
                arith,
                equipped,
                others_stay target.id id db.webauthn_credentials,
                same.same_credentials,
              )
        ]
  ]

  deletes_credential_two :
      (other credential : Uuid) (out : Unit {0} × Db) (user' : User)
      → HasOwnKeys db
      → delete_credential e authed other credential db ≡ ok out
      → get_user id out.1 ≡ some user'
      → is_admin_tier user'.auth_tier ≡ true
      → 2 ≤ strong_credential_count id out.1
  unfolding delete_credential credential_of
  deletes_credential_two other credential out user' keyed k found top =
      elim (Option-cases (get_user other db)) [
        | inl unknown ↦ let no : ⊥ = ground arith in elim no [ ]
        | inr (target, stored) ↦
            elim (Option-cases (find? (has_id credential) db.webauthn_credentials)) [
              | inl missing ↦ let no : ⊥ = ground arith in elim no [ ]
              | inr (row, held) ↦
                  let one : user' ≡ user = ground (arith, known, found) in
                  elim (Bool-cases (other == id)) [
                    | inr another ↦ ground (
                      arith,
                      equipped,
                      keyed credential,
                      without_one credential (is_strong_of id) db.webauthn_credentials {row = row},
                    )
                    | inl this ↦
                        let old : target ≡ user =
                          cc (stored, known, ap (λ i. get_user i db) ((==_iff other id).0 this)) in
                        ground (
                          arith,
                          equipped,
                          keyed credential,
                          without_one credential (is_strong_of id) db.webauthn_credentials
                              {row = row},
                        )
                  ]
            ]
      ]

  revoke_sessions-credentials :
      (other : Uuid) (addr : Ip) (out : Unit {0} × Db)
      → revoke_sessions e authed other addr db ≡ ok out
      → out.1.webauthn_credentials ≡ db.webauthn_credentials
  unfolding revoke_sessions
  revoke_sessions-credentials other addr out k =
      let same = revoke_user_sessions-SameAccounts e other admin_action addr none db in
      ground (arith, same.same_credentials)

  reset_totp-credentials :
      (other : Uuid) (addr : Ip) (out : Unit {0} × Db)
      → reset_totp e authed other addr db ≡ ok out
      → out.1.webauthn_credentials ≡ db.webauthn_credentials
  unfolding reset_totp
  reset_totp-credentials other addr out k =
      let same =
        revoke_user_sessions-SameAccounts e other admin_action addr none (without_totp other db) in
      ground (arith, same.same_credentials)

  reset_password-credentials :
      (other : Uuid) (word : Text) (addr : Ip) (out : Unit {0} × Db)
      → reset_password e authed other word addr db ≡ ok out
      → out.1.webauthn_credentials ≡ db.webauthn_credentials
  unfolding reset_password
  reset_password-credentials other word addr out k = elim (Option-cases (get_user other db)) [
    | inl unknown ↦ let no : ⊥ = ground arith in elim no [ ]
    | inr (target, stored) ↦
        let saved = save_user (record target { password_hash = e.hash_password word }) db in
        let same = revoke_user_sessions-SameAccounts e other admin_action addr none saved in
        ground (arith, same.same_credentials)
  ]

  -- Where each passkey has a key of its own, and a user is not an administrator, or an active one with two
  -- passkeys that are not for break-glass: after any change that admin/routes/users.py grants, if the user is there
  -- and an administrator, two such passkeys are left.
  pub users_route-two_passkeys :
      (request : UserRequest) (addr : Ip) (out : Unit {0} × Db) (user' : User)
      → HasOwnKeys db
      → users_route e authed request addr db ≡ ok out
      → get_user id out.1 ≡ some user'
      → is_admin_tier user'.auth_tier ≡ true
      → 2 ≤ strong_credential_count id out.1
  unfolding users_route
  users_route-two_passkeys (creates body new random) addr out user' keyed k found top =
      elim (Result-cases (create_user e authed body new random db)) [
        | inr (x, refused) ↦ let no : ⊥ = ground arith in elim no [ ]
        | inl (made, good) ↦
            let same : made.1 ≡ out.1 = ground arith in
            subst (λ d. 2 ≤ strong_credential_count id d) same
              (creates_two body new random made user' good (ap (get_user id) same ∙ found) top)
      ]
  users_route-two_passkeys (patches other body) addr out user' keyed k found top =
      elim (Result-cases (patch_user e authed other body addr db)) [
        | inr (x, refused) ↦ let no : ⊥ = ground arith in elim no [ ]
        | inl (made, good) ↦
            let same : made.1 ≡ out.1 = ground arith in
            subst (λ d. 2 ≤ strong_credential_count id d) same
              (patches_two other body addr made user' good (ap (get_user id) same ∙ found) top)
      ]
  users_route-two_passkeys (deletes other) addr out user' keyed k found top =
      deletes_two other addr out user' k found top
  users_route-two_passkeys (deletes_credential other credential) addr out user' keyed k found top =
      deletes_credential_two other credential out user' keyed k found top
  users_route-two_passkeys (revokes_sessions other) addr out user' keyed k found top =
      same_user out.1 user' (revoke_sessions-users e authed id other addr db out k)
        (revoke_sessions-credentials other addr out k) found top
  users_route-two_passkeys (resets_totp other) addr out user' keyed k found top =
      same_user out.1 user' (reset_totp-users e authed id other addr db out k)
        (reset_totp-credentials other addr out k) found top
  users_route-two_passkeys (resets_password other word) addr out user' keyed k found top =
      let (target, stored, us) = reset_password-users e authed id other word addr db out k in
      let mine : target.id ≡ other = lookup-key user_key other db.users stored in
      let row = record target { password_hash = e.hash_password word } in
      let cs = reset_password-credentials other word addr out k in
      elim (Bool-cases (target.id == id)) [
        | inr another ↦
            let one : user' ≡ user =
              ground (arith, lookup-put user_key id row db.users, known, found, us) in
            ground (arith, equipped)
        | inl this ↦
            let new : user' ≡ row =
              ground (arith, lookup-put user_key id row db.users, known, found, us) in
            let old : target ≡ user =
              cc (
                stored,
                known,
                ap (λ i. get_user i db) (sym mine ∙ (==_iff target.id id).0 this),
              ) in
            ground (arith, equipped)
      ]

-- A disabled administrator who is not the bootstrap one is made active again whatever passkeys are left of
-- them: the request is granted, and the table then holds the user as active and an administrator, with the
-- number of strong passkeys that they had, two or not.
pub patch_user-reactivates :
    (e : Env) (authed : AuthedRequest) (id : Uuid) (user : User) (addr : Ip) (db : Db)
    → get_user id db ≡ some user
    → is_admin_tier user.auth_tier ≡ true
    → user.is_protected ≡ false
    → is_disabled user.status ≡ true
    → let body : UserPatch = record {
      display_name = none;
      status = some active;
      auth_tier = none;
    } in
      (user' : User) × (db' : Db) × (patch_user e authed id body addr db ≡ ok (user', db'))
      × (get_user id db' ≡ some user')
      × (is_disabled user'.status ≡ false)
      × (is_admin_tier user'.auth_tier ≡ true)
      × (strong_credential_count id db' ≡ strong_credential_count id db)
unfolding patch_user patch_allowed
patch_user-reactivates e authed id user addr db known top ordinary off =
    let body : UserPatch = record { display_name = none; status = some active; auth_tier = none } in
    let user' = patched user body in
    let db' =
      record_change authed.user.id "user" (some user.id) "update" (user_snapshot user)
        (user_snapshot user') (save_user user' db) in
    let mine : user.id ≡ id = lookup-key user_key id db.users known in
    (
      user',
      db',
      ground arith,
      ground (arith, lookup-put user_key id user' db.users, known, mine),
      refl,
      top,
      refl,
    )
