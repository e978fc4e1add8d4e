-- ===== src/Idp/Keys.antt =====
-- core/keys.py: the states of the signing keys. What the library generates is an argument: the id of the key.
pub mod Rotation
use hyproxy.Settings.{Env}
use hyproxy.Store.{Db}
use hyproxy.Store.Accounts.{KeyState, SigningKey}
use hyproxy.Base.{
  ◌||◌, Bool, List, Name, Option, Time, [], count_where, false, filter, if◌then◌else◌, leb, ltb,
  none, not, seconds, some, true, update_where, ℕ, ◌&&◌, ◌++◌, ◌+◌, ◌==◌, ◌∷◌,
}

abbrev pub state_eq : KeyState → KeyState → Bool
state_eq KeyState.pending KeyState.pending = true
state_eq KeyState.active KeyState.active = true
state_eq KeyState.retiring KeyState.retiring = true
state_eq KeyState.retired KeyState.retired = true
state_eq _ _ = false

abbrev pub in_state : KeyState → SigningKey → Bool
in_state state k = state_eq k.state state

unfoldable pub create_pending : Env → Name → Db → SigningKey × Db
create_pending e kid db =
    let row : SigningKey = record {
      kid = kid;
      state = KeyState.pending;
      created_at = e.utcnow;
      activated_at = none;
      retiring_at = none;
      retired_at = none;
    } in
    (row, record db { signing_keys = db.signing_keys ++ row ∷ [] })

-- The newest pending key: of two of the same age, the first.
unfoldable pub newest_pending : List SigningKey → Option SigningKey
newest_pending [] = none
newest_pending (k ∷ ks) =
    let rest = newest_pending ks in
    if in_state KeyState.pending k
    then elim rest [
      | none ↦ some k
      | some newer ↦ if ltb k.created_at newer.created_at then some newer else some k
    ]
    else rest

abbrev pub retire_active : Time → SigningKey → SigningKey
retire_active now k = record k { state = KeyState.retiring; retiring_at = some now }

abbrev pub activate : Time → SigningKey → SigningKey
activate now k = record k { state = KeyState.active; activated_at = some now }

-- Nothing where the code raises.
unfoldable pub activate_pending : Time → Db → Option (SigningKey × Db)
activate_pending now db = elim (newest_pending db.signing_keys) [
  | none ↦ none
  | some key ↦
      let demoted = update_where (in_state KeyState.active) (retire_active now) db.signing_keys in
      some (
        activate now key,
        record db {
          signing_keys = update_where (λ (k : SigningKey). k.kid == key.kid) (activate now) demoted;
        },
      )
]

unfoldable pub bootstrap_if_empty : Env → Name → Time → Db → Option Db
bootstrap_if_empty e kid now db = elim db.signing_keys [
  | k ∷ ks ↦ some db
  | [] ↦ elim (activate_pending now (create_pending e kid db).1) [ none ↦ none | some r ↦ some r.1 ]
]

abbrev pub is_published : SigningKey → Bool
is_published k = not (in_state KeyState.retired k)

-- `get_verification_jwks`, as the rows whose keys are published.
unfoldable pub verification_keys : Db → List SigningKey
verification_keys db = filter is_published db.signing_keys

-- The keys that a token may be signed under.
abbrev pub is_verifying : Name → SigningKey → Bool
is_verifying kid k = k.kid == kid && (in_state KeyState.active k || in_state KeyState.retiring k)

-- RETIRE_BUFFER
abbrev pub retire_buffer : ℕ
retire_buffer = seconds 900

-- A retiring key whose window is over. A key that is retiring has the time of it.
abbrev pub is_over : Time → SigningKey → Bool
is_over now k =
    in_state KeyState.retiring k
    && elim k.retiring_at [ none ↦ false | some at ↦ leb (at + retire_buffer) now ]

unfoldable pub gc_retired : Time → Db → ℕ × Db
gc_retired now db = (
  count_where (is_over now) db.signing_keys,
  record db {
    signing_keys =
        update_where (is_over now)
          (λ (k : SigningKey). record k { state = KeyState.retired; retired_at = some now })
          db.signing_keys;
  },
)
