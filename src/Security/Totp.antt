-- ===== src/Security/Totp.antt =====
-- security/totp.py: the rows of `user_totp`. The check of a code is the library's, by the wall clock.
use hyproxy.Store.{Db}
use hyproxy.Store.Accounts.{UserTotp}
use hyproxy.Settings.{Env}
use hyproxy.Base.{
  Bool, Option, Text, Uuid, [], filter, find?, if◌then◌else◌, is_some, none, not, some, ◌&&◌, ◌++◌,
  ◌==◌, ◌∷◌,
}

unfoldable pub get_totp_row : Uuid → Bool → Db → Option UserTotp
get_totp_row user confirmed_only db =
    elim (find? (λ (t : UserTotp). t.user_id == user) db.user_totp) [
      | none ↦ none
      | some row ↦ if confirmed_only && not (is_some row.confirmed_at) then none else some row
    ]

-- `session.delete(row)`
abbrev pub delete_totp : Uuid → Db → Db
delete_totp user db = record db {
  user_totp = filter (λ (t : UserTotp). not (t.user_id == user)) db.user_totp;
}

module _ (e : Env) where
  unfoldable pub verify_code : Text → Text → Bool
  verify_code secret code = e.totp_verify secret code e.utcnow

  unfoldable pub decrypt_secret : UserTotp → Text
  decrypt_secret row = e.unseal row.secret_ciphertext

  -- The row that is there is deleted first.
  unfoldable pub store_pending_secret : Uuid → Text → Db → UserTotp × Db
  store_pending_secret user secret db =
      let row : UserTotp = record {
        user_id = user;
        secret_ciphertext = e.seal secret;
        created_at = e.utcnow;
        confirmed_at = none;
      } in
      let cleared = delete_totp user db in
      (row, record cleared { user_totp = cleared.user_totp ++ row ∷ [] })
