-- ===== src/Security/Recovery.antt =====
-- security/recovery.py: recovery codes, each good once. The codes are drawn at random, with their ids.
-- `code.strip().upper().replace("-", "").replace(" ", "")`
pub mod Spent
use hyproxy.Settings.{Env}
use hyproxy.Store.Accounts.{RecoveryCode}
use hyproxy.Store.{Db}
use hyproxy.Base.{
  Bool, List, Text, Time, Uuid, false, filter, find?, is_some, map, none, not, some, strip, true,
  update_where, ◌&&◌, ◌++◌, ◌==◌,
}

unfoldable pub normalize : Env → Text → Text
normalize e code =
    filter (λ c. not (c == b' ')) (filter (λ c. not (c == b'-')) (e.upper (strip code)))

abbrev pub is_unused_of : Uuid → RecoveryCode → Bool
is_unused_of user row = row.user_id == user && not (is_some row.used_at)

module _ (e : Env) where
  abbrev pub fresh_codes : Uuid → Uuid → List (Uuid × Text) → List RecoveryCode
  fresh_codes user batch = map (λ (d : Uuid × Text). record {
    id = d.0;
    user_id = user;
    batch_id = batch;
    code_hash = e.hash_password (normalize e d.1);
    used_at = none;
  })

  unfoldable pub issue_batch : Uuid → Uuid → List (Uuid × Text) → Db → List Text × Db
  issue_batch user batch drawn db =
      let kept = filter (λ (r : RecoveryCode). not (is_unused_of user r)) db.recovery_codes in
      (
        map (λ (d : Uuid × Text). d.1) drawn,
        record db { recovery_codes = kept ++ fresh_codes user batch drawn },
      )

  -- The rows that the loop would mark: unused, the user's, and the code verifies.
  abbrev pub fits : Uuid → Text → RecoveryCode → Bool
  fits user normalized row = is_unused_of user row && e.verify_hash row.code_hash normalized

  unfoldable pub consume : Uuid → Text → Time → Db → Bool × Db
  consume user code now db = elim (find? (fits user (normalize e code)) db.recovery_codes) [
    | none ↦ (false, db)
    | some row ↦ (
      true,
      record db {
        recovery_codes =
            update_where (λ (r : RecoveryCode). r.id == row.id)
              (λ (r : RecoveryCode). record r { used_at = some now }) db.recovery_codes;
      },
    )
  ]
