-- ===== src/Authz/Grants/Once.antt =====
-- A grant is consumed at most once.
use hyproxy.Base.{
  refl, ◌≤◌, ◌==◌, count_where, update_where, is_some, Hash, true, false, [], ◌∷◌, Option, List,
  Text, Uuid, Ip, Time, arith, All, ◌≡◌, inl, inr, Bool-cases,
}
use hyproxy.Settings.{Env}
use hyproxy.Store.{GuacGrant}
use hyproxy.Authz.Grants.{is_some, count_where, update_where, Hash, is_open, take, consume_grant}

-- Every row of the digest has been consumed.
abbrev IsTaken : Hash → List GuacGrant → Type 0
IsTaken h = All (λ g. g.token_hash ≡ h → is_some g.consumed_at ≡ true)

-- The digest is the primary key of the table.
abbrev pub IsKeyedGrant : Hash → List GuacGrant → Type 0
IsKeyedGrant h grants = count_where (λ g. g.token_hash == h) grants ≤ 1

IsTaken-closed :
    (h : Hash) (addr : Ip) (now : Time) (owner : Option Uuid) (grants : List GuacGrant)
    → IsTaken h grants
    → count_where (is_open h addr now owner) grants ≡ 0
IsTaken-closed h addr now owner [] t = refl
IsTaken-closed h addr now owner (g ∷ grants) (t, ts) =
    ground (arith, IsTaken-closed h addr now owner grants ts)

IsTaken-update :
    (h k : Hash) (addr : Ip) (now : Time) (owner : Option Uuid) (grants : List GuacGrant)
    → IsTaken h grants
    → IsTaken h (update_where (is_open k addr now owner) (take now) grants)
IsTaken-update h k addr now owner [] t = tt
IsTaken-update h k addr now owner (g ∷ grants) (t, ts) =
    (λ e. ground arith, IsTaken-update h k addr now owner grants ts)

absent_row_closed :
    (h : Hash) (addr : Ip) (now : Time) (owner : Option Uuid) (grants : List GuacGrant)
    → count_where (λ g. g.token_hash == h) grants ≡ 0
    → count_where (is_open h addr now owner) grants ≡ 0
absent_row_closed h addr now owner [] n = refl
absent_row_closed h addr now owner (g ∷ grants) n =
    ground (arith, absent_row_closed h addr now owner grants)

absent_row-IsTaken :
    (h : Hash) (addr : Ip) (now : Time) (owner : Option Uuid) (grants : List GuacGrant)
    → count_where (λ g. g.token_hash == h) grants ≡ 0
    → IsTaken h (update_where (is_open h addr now owner) (take now) grants)
absent_row-IsTaken h addr now owner [] n = tt
absent_row-IsTaken h addr now owner (g ∷ grants) n =
    (λ e. ground arith, absent_row-IsTaken h addr now owner grants (ground arith))

used_row-IsTaken :
    (h : Hash) (addr : Ip) (now : Time) (owner : Option Uuid) (grants : List GuacGrant)
    → IsKeyedGrant h grants
    → count_where (is_open h addr now owner) grants ≡ 1
    → IsTaken h (update_where (is_open h addr now owner) (take now) grants)
used_row-IsTaken h addr now owner [] k n = tt
used_row-IsTaken h addr now owner (g ∷ grants) k n = elim (Bool-cases (g.token_hash == h)) [
  | inl mine ↦
      let alone : count_where (λ g. g.token_hash == h) grants ≡ 0 = ground arith in
      (
        λ e. ground (arith, absent_row_closed h addr now owner grants alone),
        absent_row-IsTaken h addr now owner grants alone,
      )
  | inr other ↦
      (λ e. ground arith, used_row-IsTaken h addr now owner grants (ground arith) (ground arith))
]

-- One attempt to consume a grant.
pub record Attempt : Type 0 where
  pub token : Text
  pub addr : Ip
  pub now : Time
  pub owner : Option Uuid

module _ (e : Env) where
  pub attempt_all : List Attempt → List GuacGrant → List GuacGrant
  attempt_all [] grants = grants
  attempt_all (a ∷ attempts) grants =
      attempt_all attempts (consume_grant e a.token a.addr a.now a.owner grants).1

  attempt_all-IsTaken :
      (h : Hash) (attempts : List Attempt) (grants : List GuacGrant)
      → IsTaken h grants
      → IsTaken h (attempt_all attempts grants)
  unfolding attempt_all consume_grant
  attempt_all-IsTaken h [] grants t = t
  attempt_all-IsTaken h (a ∷ attempts) grants t =
      attempt_all-IsTaken h attempts _
        (IsTaken-update h (e.sha256_hex a.token) a.addr a.now a.owner grants t)

  -- After a token of a broker was accepted, no attempt with it is, from any address, at any time and for
  -- any user, whatever was tried in between.
  pub consume_grant-once :
      (first again : Attempt) (between : List Attempt) (grants : List GuacGrant)
      → IsKeyedGrant (e.sha256_hex first.token) grants
      → (consume_grant e first.token first.addr first.now first.owner grants).0 ≡ true
      → again.token ≡ first.token
      → (consume_grant e again.token again.addr again.now again.owner (
          attempt_all between
            (consume_grant e first.token first.addr first.now first.owner grants).1)).0
        ≡ false
  unfolding consume_grant
  consume_grant-once first again between grants keyed ok same =
      let h = e.sha256_hex first.token in
      let spent = used_row-IsTaken h first.addr first.now first.owner grants keyed (ground arith) in
      let later = attempt_all-IsTaken h between _ spent in
      rw same (ground (arith, IsTaken-closed h again.addr again.now again.owner _ later))
