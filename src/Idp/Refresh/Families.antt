-- ===== src/Idp/Refresh/Families.antt =====
-- What a family of refresh tokens keeps.
use hyproxy.Base.{
  ◌+◌, ◌≤◌, ◌≡◌, refl, Bool, true, not, ◌&&◌, none, some, List, [], ◌∷◌, ◌++◌, Text, Uuid, Time,
  Hash, Name, arith, ◌==◌, is_some, find?, update_where, All, count_where, count_where-append,
  Bool-cases, inl, inr,
}
use hyproxy.Settings.{Env}
use hyproxy.Store.{Db, Session, RefreshToken}
use hyproxy.Idp.Refresh.{
  of_session, revoke_for_session, in_family, use_at, revoke_at, issue_family, find, child_of,
  rotate, revoke_family,
}

-- A token of the family that has not been used.
abbrev pub is_unused : Uuid → RefreshToken → Bool
is_unused family t = t.family_id == family && not (is_some t.used_at)

-- In every family at most one token has not been used.
abbrev pub IsLinear : Db → Type 0
IsLinear db = (family : Uuid) → count_where (is_unused family) db.refresh_tokens ≤ 1

abbrev same_id : Uuid → RefreshToken → Bool
same_id id t = t.id == id

-- Marking a token used takes it out of the count of its family, and raises no other count.
use_one :
    (family id : Uuid) (now : Time) (ts : List RefreshToken)
    → count_where (is_unused family) (update_where (same_id id) (use_at now) ts)
      ≤ count_where (is_unused family) ts
use_one family id now [] = omega arith
use_one family id now (t ∷ ts) = ground (arith, use_one family id now ts)

use_mine :
    (h : Hash) (now : Time) (ts : List RefreshToken) {row : RefreshToken}
    → find? (λ (t : RefreshToken). t.token_hash == h) ts ≡ some row
    → row.used_at ≡ none
    → count_where (is_unused row.family_id) (update_where (same_id row.id) (use_at now) ts) + 1
      ≤ count_where (is_unused row.family_id) ts
use_mine h now [] f u = ground arith
use_mine h now (t ∷ ts) {row} f u = elim (Bool-cases (t.token_hash == h)) [
  | inl mine ↦ ground (arith, use_one row.family_id row.id now ts)
  | inr other ↦ ground (arith, use_mine h now ts {row = row})
]

-- A family without tokens has no unused ones.
none_unused_in :
    {family f : Uuid}
    → family ≡ f
    → (ts : List RefreshToken) → count_where (λ (t : RefreshToken). t.family_id == family) ts ≡ 0
    → count_where (is_unused f) ts ≡ 0
none_unused_in same [] absent = refl
none_unused_in {family} {f} same (t ∷ ts) absent =
    ground (arith, none_unused_in {family = family} {f = f} same ts)

-- One more row, of a family that had no unused token or that is not counted.
add_one :
    (f : Uuid) (row : RefreshToken) (ts : List RefreshToken)
    → count_where (is_unused f) ts ≤ 1
    → (row.family_id ≡ f → count_where (is_unused f) ts ≡ 0)
    → count_where (is_unused f) (ts ++ row ∷ []) ≤ 1
add_one f row ts le z = ground (arith, z, count_where-append (is_unused f) ts (row ∷ []))

revoked_rows :
    (family : Uuid) (now : Time) (ts : List RefreshToken)
    → All
        (λ (t : RefreshToken). t.family_id ≡ family → is_some t.revoked_at ≡ true)
        (update_where (in_family family) (revoke_at now) ts)
revoked_rows family now [] = tt
revoked_rows family now (t ∷ ts) = (λ same. ground arith, revoked_rows family now ts)

revoked_of :
    (session : Uuid) (now : Time) (ts : List RefreshToken)
    → All
        (λ (t : RefreshToken). t.session_id ≡ session → is_some t.revoked_at ≡ true)
        (update_where (of_session session) (revoke_at now) ts)
revoked_of session now [] = tt
revoked_of session now (t ∷ ts) = (λ same. ground arith, revoked_of session now ts)

module _ (e : Env) where
  -- Rotation keeps every family linear: the token that is used up is replaced by its child.
  pub rotate-IsLinear :
      (old new : Text) (row : RefreshToken) (now : Time) (id : Uuid) (db : Db)
      → find e old db ≡ some row
      → row.used_at ≡ none
      → IsLinear db
      → IsLinear (rotate e row now new id db).1
  unfolding find rotate
  rotate-IsLinear old new row now id db found unused linear family = ground (
    arith,
    linear family,
    use_one family row.id now db.refresh_tokens,
    use_mine (e.sha256_hex old) now db.refresh_tokens {row = row},
    count_where-append (is_unused family)
        (update_where (same_id row.id) (use_at now) db.refresh_tokens)
        (child_of e row now new id ∷ []),
  )

  -- A new family under an id that no token carries keeps every family linear.
  pub issue_family-IsLinear :
      (session : Session) (client : Name) (scope : Text) (jkt : Name) (now : Time) (token : Text)
      (id family : Uuid) (db : Db)
      → count_where (λ (t : RefreshToken). t.family_id == family) db.refresh_tokens ≡ 0
      → IsLinear db
      → IsLinear (issue_family e session client scope jkt now token id family db).1
  unfolding issue_family
  issue_family-IsLinear session client scope jkt now token id family db fresh linear f =
      add_one f _ db.refresh_tokens (linear f) (λ same. none_unused_in same db.refresh_tokens fresh)

  -- After a family is revoked, every token of it carries a time of revocation.
  pub revoke_family-revokes :
      (family : Uuid) (db : Db)
      → All
          (λ (t : RefreshToken). t.family_id ≡ family → is_some t.revoked_at ≡ true)
          (revoke_family e family db).refresh_tokens
  unfolding revoke_family
  revoke_family-revokes family db = revoked_rows family e.utcnow db.refresh_tokens

  -- After the tokens of a session are revoked, every one of them carries a time of revocation.
  pub revoke_for_session-revokes :
      (session : Uuid) (db : Db)
      → All
          (λ (t : RefreshToken). t.session_id ≡ session → is_some t.revoked_at ≡ true)
          (revoke_for_session e session db).refresh_tokens
  unfolding revoke_for_session
  revoke_for_session-revokes session db = revoked_of session e.utcnow db.refresh_tokens
