-- ===== src/Idp/Codes/Once.antt =====
-- A code is exchanged at most once.
use hyproxy.Base.{
  ◌<◌, inr, none, inl, ◌≤◌, some, ◌==◌, Text, count_where, Bool-cases, ◌≡◌, refl, true, false, List,
  [], ◌∷◌, Time, Hash, arith, is_some, any, All, update_where,
}
use hyproxy.Store.{AuthCode}
use hyproxy.Idp.Codes.{Db, consume_code, find_code, Env, is_usable, mark_consumed}

-- Every row of the digest has been consumed.
abbrev pub IsSpent : Hash → List AuthCode → Type 0
IsSpent h = All (λ c. c.code_hash ≡ h → is_some c.consumed_at ≡ true)

IsSpent-not_usable :
    (h : Hash) (now : Time) (codes : List AuthCode)
    → IsSpent h codes
    → any (is_usable h now) codes ≡ false
IsSpent-not_usable h now [] s = refl
IsSpent-not_usable h now (c ∷ codes) (s, ss) = ground (arith, IsSpent-not_usable h now codes ss)

IsSpent-update :
    (h k : Hash) (now : Time) (codes : List AuthCode)
    → IsSpent h codes
    → IsSpent h (update_where (is_usable k now) (mark_consumed now) codes)
IsSpent-update h k now [] s = tt
IsSpent-update h k now (c ∷ codes) (s, ss) = (λ e. ground arith, IsSpent-update h k now codes ss)

-- The digest is the primary key of the table.
abbrev pub IsKeyed : Hash → List AuthCode → Type 0
IsKeyed h codes = count_where (λ c. c.code_hash == h) codes ≤ 1

absent-IsSpent :
    (h : Hash) (now : Time) (codes : List AuthCode)
    → count_where (λ c. c.code_hash == h) codes ≡ 0
    → IsSpent h (update_where (is_usable h now) (mark_consumed now) codes)
absent-IsSpent h now [] n = tt
absent-IsSpent h now (c ∷ codes) n = (λ e. ground arith, absent-IsSpent h now codes (ground arith))

no_rows :
    (h : Hash) (now : Time) (codes : List AuthCode)
    → count_where (λ c. c.code_hash == h) codes ≡ 0
    → any (is_usable h now) codes ≡ false
no_rows h now [] n = refl
no_rows h now (c ∷ codes) n = ground (arith, no_rows h now codes)

used-IsSpent :
    (h : Hash) (now : Time) (codes : List AuthCode)
    → IsKeyed h codes
    → any (is_usable h now) codes ≡ true
    → IsSpent h (update_where (is_usable h now) (mark_consumed now) codes)
used-IsSpent h now [] k u = tt
used-IsSpent h now (c ∷ codes) k u = elim (Bool-cases (c.code_hash == h)) [
  | inl mine ↦
      let alone : count_where (λ c. c.code_hash == h) codes ≡ 0 = ground arith in
      (λ e. ground (arith, no_rows h now codes alone), absent-IsSpent h now codes alone)
  | inr other ↦ (λ e. ground arith, used-IsSpent h now codes (ground arith) (ground arith))
]

module _ (e : Env) where
  -- Later attempts to exchange codes, each at its own time.
  pub consume_all : List (Text × Time) → Db → Db
  consume_all [] db = db
  consume_all ((code, now) ∷ attempts) db = consume_all attempts (consume_code e code now db).1

  consume_code-IsSpent :
      (h : Hash) (code : Text) (now : Time) (db : Db)
      → IsSpent h db.auth_codes
      → IsSpent h (consume_code e code now db).1.auth_codes
  unfolding consume_code
  consume_code-IsSpent h code now db s =
      elim (Bool-cases (any (is_usable (e.sha256_hex code) now) db.auth_codes)) [
        | inl hit ↦ rw hit (IsSpent-update h (e.sha256_hex code) now db.auth_codes s)
        | inr miss ↦ rw miss s
      ]

  consume_all-IsSpent :
      (h : Hash) (attempts : List (Text × Time)) (db : Db)
      → IsSpent h db.auth_codes
      → IsSpent h (consume_all attempts db).auth_codes
  unfolding consume_all
  consume_all-IsSpent h [] db s = s
  consume_all-IsSpent h ((code, now) ∷ attempts) db s =
      consume_all-IsSpent h attempts (consume_code e code now db).1
        (consume_code-IsSpent h code now db s)

  -- After a code was exchanged, no attempt to exchange it succeeds, whatever was tried in between.
  pub consume_code-once :
      (code : Text) (now now' : Time) (attempts : List (Text × Time)) (db : Db) {row : AuthCode}
      → IsKeyed (e.sha256_hex code) db.auth_codes
      → (consume_code e code now db).0 ≡ some row
      → (consume_code e code now' (consume_all attempts (consume_code e code now db).1)).0 ≡ none
  unfolding consume_code
  consume_code-once code now now' attempts db {row} keyed got =
      let h = e.sha256_hex code in
      let used : any (is_usable h now) db.auth_codes ≡ true = ground arith in
      let spent : IsSpent h (consume_code e code now db).1.auth_codes =
        rw used (used-IsSpent h now db.auth_codes keyed used) in
      let later = consume_all attempts (consume_code e code now db).1 in
      let dead =
        IsSpent-not_usable h now' later.auth_codes (consume_all-IsSpent h attempts _ spent) in
      rw dead

  find_code-update :
      (h : Hash) (now : Time) (codes : List AuthCode)
      → any (is_usable h now) codes ≡ true
      → IsKeyed h codes
      → (c : AuthCode) × (find_code h codes ≡ some c)
        × (is_usable h now c ≡ true)
        × (find_code h (update_where (is_usable h now) (mark_consumed now) codes)
            ≡ some (mark_consumed now c))
  find_code-update h now [] u k = ground arith
  find_code-update h now (c ∷ codes) u k = elim (Bool-cases (c.code_hash == h)) [
    | inl mine ↦
        let alone = no_rows h now codes (ground arith) in
        let usable : is_usable h now c ≡ true = ground arith in
        (c, rw mine, usable, rw usable (rw mine))
    | inr other ↦
        let (x, found, usable, found') =
          find_code-update h now codes (ground arith) (ground arith) in
        (x, ground arith, usable, ground arith)
  ]

  -- A code that is exchanged is the stored row, not consumed before and not expired, and comes back marked
  -- with the time.
  pub consume_code-some :
      (code : Text) (now : Time) (db : Db) {row : AuthCode}
      → IsKeyed (e.sha256_hex code) db.auth_codes
      → (consume_code e code now db).0 ≡ some row
      → (c : AuthCode) × (find_code (e.sha256_hex code) db.auth_codes ≡ some c)
        × (c.consumed_at ≡ none)
        × (now < c.expires_at)
        × (row ≡ record c { consumed_at = some now })
  unfolding consume_code
  consume_code-some code now db {row} keyed got =
      let h = e.sha256_hex code in
      let used : any (is_usable h now) db.auth_codes ≡ true = ground arith in
      let (c, found, usable, found') = find_code-update h now db.auth_codes used keyed in
      (c, found, ground arith, ground arith, ground arith)
