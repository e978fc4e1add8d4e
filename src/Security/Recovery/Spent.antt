-- ===== src/Security/Recovery/Spent.antt =====
-- Recovery codes are good once: what attempts to use them leave of a batch, security/recovery.py.
use mathlib.Core.Path.{subst}
use hyproxy.Security.Recovery.{normalize, fits}
use hyproxy.Settings.{Env}
use hyproxy.Store.Accounts.{RecoveryCode}
use hyproxy.Security.Recovery.{fits, consume, is_unused_of}
use hyproxy.Store.{Db}
use hyproxy.Base.{
  Option-cases, false, refl, true, Bool-cases, List, Text, Time, Uuid, [], arith, count_where,
  find?, if◌then◌else◌, inl, inr, some, suc, update_where, ℕ, ◌<◌, ◌==◌, ◌∷◌, ◌≡◌, ◌≤◌,
}

abbrev mark : Uuid → Time → List RecoveryCode → List RecoveryCode
mark id now =
    update_where (λ (r : RecoveryCode). r.id == id)
      (λ (r : RecoveryCode). record r { used_at = some now })

mark-count :
    (user id : Uuid) (now : Time) (rows : List RecoveryCode)
    → count_where (is_unused_of user) (mark id now rows) ≤ count_where (is_unused_of user) rows
mark-count user id now [] = omega arith
mark-count user id now (r ∷ rows) = ground (arith, mark-count user id now rows)

mark-spends :
    (e : Env) (user : Uuid) (given : Text) (now : Time) (rows : List RecoveryCode)
    {row : RecoveryCode}
    → find? (fits e user given) rows ≡ some row
    → count_where (is_unused_of user) (mark row.id now rows) < count_where (is_unused_of user) rows
mark-spends e user given now [] h = ground arith
mark-spends e user given now (r ∷ rows) {row} h = elim (Bool-cases (fits e user given r)) [
  | inl this ↦ ground (arith, mark-count user row.id now rows)
  | inr later ↦ ground (arith, mark-spends e user given now rows {row = row})
]

module _ (e : Env) (user : Uuid) where
  -- How many of a list of attempts, each with its own code and time, are let through.
  unfoldable pub accepted : List (Text × Time) → Db → ℕ
  accepted [] db = 0
  accepted ((code, now) ∷ rest) db =
      let (used, db') = consume e user code now db in
      let later = accepted rest db' in if used then suc later else later

  -- An attempt that is let through leaves the user fewer unused codes, and one that is not leaves the
  -- database as it was.
  pub consume-spends :
      (code : Text) (now : Time) (db : Db)
      → ((consume e user code now db).0 ≡ true
          → count_where (is_unused_of user) (consume e user code now db).1.recovery_codes
            < count_where (is_unused_of user) db.recovery_codes)
        × ((consume e user code now db).0 ≡ false → (consume e user code now db).1 ≡ db)
  unfolding consume
  consume-spends code now db =
      elim (Option-cases (find? (fits e user (normalize e code)) db.recovery_codes)) [
        | inl unknown ↦ (λ h. ground arith, λ h. rw (unknown, consume) refl)
        | inr (row, found) ↦ (
          λ h.
              rw (found, consume)
                (mark-spends e user (normalize e code) now db.recovery_codes found),
          λ h. ground arith,
        )
      ]

  -- Of any attempts, in any order and with any codes, at most as many are let through as the user has unused
  -- codes to start with.
  pub accepted-le-unused :
      (tries : List (Text × Time)) (db : Db)
      → accepted tries db ≤ count_where (is_unused_of user) db.recovery_codes
  unfolding accepted
  accepted-le-unused [] db = omega arith
  accepted-le-unused ((code, now) ∷ rest) db =
      let later = accepted-le-unused rest (consume e user code now db).1 in
      let spends = consume-spends code now db in
      elim (Bool-cases (consume e user code now db).0) [
        | inl used ↦ rw used (ground (arith, later, spends.0 used))
        | inr refused ↦
            let same = spends.1 refused in
            rw refused (
              subst
                (λ (d : Db).
                  accepted rest (consume e user code now db).1
                  ≤ count_where (is_unused_of user) d.recovery_codes)
                same later)
      ]
