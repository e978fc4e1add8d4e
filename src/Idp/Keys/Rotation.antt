-- ===== src/Idp/Keys/Rotation.antt =====
-- What the rotation of core/keys.py keeps of the table of keys.
use mathlib.Core.Path.{subst}
use hyproxy.Store.Accounts.{KeyState, SigningKey}
use hyproxy.Store.{Db}
use hyproxy.Idp.Keys.{
  is_verifying, gc_retired, retire_buffer, is_over, activate, activate_pending, in_state,
  newest_pending, retire_active,
}
use hyproxy.Base.{
  ◌+◌, ◌<◌, not, Bool, List, Name, Option-cases, Time, [], any, arith, count_where, inl, inr, refl,
  some, true, update_where, ◌&&◌, ◌==◌, ◌||◌, ◌∷◌, ◌≡◌, ◌≤◌,
}

abbrev with_kid : Name → SigningKey → Bool
with_kid kid k = k.kid == kid

abbrev demote : Time → List SigningKey → List SigningKey
demote now = update_where (in_state KeyState.active) (retire_active now)

none_active :
    (now : Time) (ks : List SigningKey) → count_where (in_state KeyState.active) (demote now ks) ≡ 0
none_active now [] = refl
none_active now (k ∷ ks) = ground (arith, none_active now ks)

demote-kid :
    (kid : Name) (now : Time) (ks : List SigningKey)
    → count_where (with_kid kid) (demote now ks) ≡ count_where (with_kid kid) ks
demote-kid kid now [] = refl
demote-kid kid now (k ∷ ks) = ground (arith, demote-kid kid now ks)

activated :
    (kid : Name) (now : Time) (ks : List SigningKey)
    → count_where (in_state KeyState.active) ks ≡ 0
    → count_where (in_state KeyState.active) (update_where (with_kid kid) (activate now) ks)
      ≡ count_where (with_kid kid) ks
activated kid now [] h = refl
activated kid now (k ∷ ks) h = ground (arith, activated kid now ks)

newest-there :
    (ks : List SigningKey) {key : SigningKey}
    → newest_pending ks ≡ some key
    → (1 ≤ count_where (with_kid key.kid) ks) × (in_state KeyState.pending key ≡ true)
unfolding newest_pending
newest-there [] h = ground arith
newest-there (k ∷ ks) {key} h = elim (Option-cases (newest_pending ks)) [
  | inl alone ↦ (ground arith, ground arith)
  | inr (other, found) ↦ let later = newest-there ks found in ground (arith, later)
]

-- Where no two keys share an id, exactly one key is active once `activate_pending` has returned, whatever was
-- active before, and the key that it returns is marked active at the time of the call.
pub activate_pending-one :
    (now : Time) (db : Db) (r : SigningKey × Db)
    → ((kid : Name) → count_where (λ (k : SigningKey). k.kid == kid) db.signing_keys ≤ 1)
    → activate_pending now db ≡ some r
    → (count_where (in_state KeyState.active) r.1.signing_keys ≡ 1)
      × (in_state KeyState.active r.0 ≡ true)
      × (r.0.activated_at ≡ some now)
unfolding activate_pending
activate_pending-one now db r distinct h = elim (Option-cases (newest_pending db.signing_keys)) [
  | inl absent ↦ ground arith
  | inr (new, found) ↦
      let there = newest-there db.signing_keys found in
      let only = distinct new.kid in
      let bare = none_active now db.signing_keys in
      let count = activated new.kid now (demote now db.signing_keys) bare in
      let same = demote-kid new.kid now db.signing_keys in
      let written = update_where (with_kid new.kid) (activate now) (demote now db.signing_keys) in
      let made : (activate now new, record db { signing_keys = written }) ≡ r = ground arith in
      let one : count_where (in_state KeyState.active) written ≡ 1 = ground arith in
      subst
        (λ (x : SigningKey × Db).
          (count_where (in_state KeyState.active) x.1.signing_keys ≡ 1)
          × (in_state KeyState.active x.0 ≡ true)
          × (x.0.activated_at ≡ some now))
        made (one, refl, refl)
]

-- The keys that `verify_access_token` accepts a signature of, by id.
abbrev pub verifies : Name → List SigningKey → Bool
verifies kid = any (is_verifying kid)

-- The test that survives a garbage collection at `later`.
abbrev lasts : Name → Time → SigningKey → Bool
lasts kid later k =
    with_kid kid k
    && (in_state KeyState.active k || (in_state KeyState.retiring k && not (is_over later k)))

demote-lasts :
    (kid : Name) (now later : Time) (ks : List SigningKey)
    → later < now + retire_buffer
    → any (λ (k : SigningKey). with_kid kid k && in_state KeyState.active k) ks ≡ true
    → any (lasts kid later) (demote now ks) ≡ true
demote-lasts kid now later [] soon h = ground arith
demote-lasts kid now later (k ∷ ks) soon h = ground (arith, demote-lasts kid now later ks soon)

activate-lasts :
    (kid new : Name) (now later : Time) (ks : List SigningKey)
    → any (lasts kid later) ks ≡ true
    → any (lasts kid later) (update_where (with_kid new) (activate now) ks) ≡ true
activate-lasts kid new now later [] h = ground arith
activate-lasts kid new now later (k ∷ ks) h = ground (arith, activate-lasts kid new now later ks)

collect-verifies :
    (kid : Name) (later : Time) (ks : List SigningKey)
    → any (lasts kid later) ks ≡ true
    → verifies kid (
        update_where
          (is_over later)
          (λ (k : SigningKey). record k { state = KeyState.retired; retired_at = some later })
          ks)
      ≡ true
collect-verifies kid later [] h = ground arith
collect-verifies kid later (k ∷ ks) h = ground (arith, collect-verifies kid later ks)

-- A key that is active when another one is activated is still there for verifiers after a garbage collection
-- less than fifteen minutes later: the tokens that it signed do not die with the rotation.
pub rotated_key-verifies :
    (kid : Name) (now later : Time) (db : Db) (r : SigningKey × Db)
    → any (λ (k : SigningKey). k.kid == kid && in_state KeyState.active k) db.signing_keys ≡ true
    → activate_pending now db ≡ some r
    → later < now + retire_buffer
    → verifies kid (gc_retired later r.1).1.signing_keys ≡ true
unfolding activate_pending gc_retired
rotated_key-verifies kid now later db r active_before h soon =
    elim (Option-cases (newest_pending db.signing_keys)) [
      | inl absent ↦ ground arith
      | inr (new, found) ↦
          let written =
            update_where (with_kid new.kid) (activate now) (demote now db.signing_keys) in
          let made : (activate now new, record db { signing_keys = written }) ≡ r = ground arith in
          subst (λ (x : SigningKey × Db). verifies kid (gc_retired later x.1).1.signing_keys ≡ true)
            made
            (collect-verifies kid later written (
              activate-lasts kid new.kid now later (demote now db.signing_keys)
                (demote-lasts kid now later db.signing_keys soon active_before)))
    ]
