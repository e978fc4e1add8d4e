-- ===== src/Idp/Replay.antt =====
-- idp/oidc/replay.py and the end of `verify_proof` (idp/oidc/dpop.py): a proof is accepted once. What
-- `verify_proof_offline` answers is an argument: a proof, or nothing where it raises.
use hyproxy.Base.{
  Bool-cases, filter, inl, inr, leb, not, ◌<◌, ◌+◌, ◌≡◌, Bool, true, false, ◌&&◌, Option, none,
  some, List, [], ◌∷◌, ◌++◌, Text, text_eq, text_eq_iff, Time, Name, seconds, ◌==◌, any, arith,
  if◌then◌else◌, any-append,
}
use hyproxy.Settings.{Env}
use hyproxy.Store.{Db, DpopJtiSeen}

pub record DpopProof : Type 0 where
  pub jkt : Name
  pub jti : Text
  pub iat : Time

abbrev pub is_seen : Name → Text → DpopJtiSeen → Bool
is_seen jkt jti row = row.jkt == jkt && text_eq row.jti jti

-- INSERT … ON CONFLICT DO NOTHING: True if the row is new.
unfoldable pub check_and_store : Name → Text → Time → Db → Bool × Db
check_and_store jkt jti expires_at db = if any (is_seen jkt jti) db.jti_seen then (false, db) else (
  true,
  record db {
    jti_seen = db.jti_seen ++ record { jkt = jkt; jti = jti; expires_at = expires_at } ∷ [];
  },
)

-- The part of `gc` (cli.py) that deletes the identifiers that are past.
unfoldable pub gc_jtis : Time → Db → Db
gc_jtis now db = record db {
  jti_seen = filter (λ (row : DpopJtiSeen). not (leb row.expires_at now)) db.jti_seen;
}

-- A proof that is presented, whatever the offline checks say of it, or a collection.
pub data Turn : Type 0 where
  presents : Option DpopProof → Time → Turn
  collects : Time → Turn

-- The row of a proof that is kept as long as no collection is at the end of its time or later.
abbrev is_kept : Name → Text → Time → DpopJtiSeen → Bool
is_kept jkt jti until row = is_seen jkt jti row && leb until row.expires_at

any-filter :
    (p q : DpopJtiSeen → Bool)
    → ((row : DpopJtiSeen) → p row ≡ true → q row ≡ true)
    → (rows : List DpopJtiSeen) → any p rows ≡ true
    → any p (filter q rows) ≡ true
any-filter p q le [] h = h
any-filter p q le (row ∷ rows) h = elim (Bool-cases (p row)) [
  | inl yes_p ↦ ground (arith, le row yes_p)
  | inr no_p ↦
      let rest = any-filter p q le rows (ground arith) in
      elim (Bool-cases (q row)) [ inl kept ↦ ground arith | inr dropped ↦ ground arith ]
]

any-more :
    (p q : DpopJtiSeen → Bool)
    → ((row : DpopJtiSeen) → p row ≡ true → q row ≡ true)
    → (rows : List DpopJtiSeen) → any p rows ≡ true
    → any q rows ≡ true
any-more p q le [] h = h
any-more p q le (row ∷ rows) h = elim (Bool-cases (p row)) [
  | inl yes_p ↦ ground (arith, le row yes_p)
  | inr no_p ↦ let rest = any-more p q le rows (ground arith) in ground arith
]

module _ (e : Env) where
  unfoldable pub verify_proof : Option DpopProof → Time → Db → Option DpopProof × Db
  unfolding check_and_store
  verify_proof none now db = (none, db)
  verify_proof (some proof) now db =
      let (fresh, db') = check_and_store proof.jkt proof.jti (now + seconds e.dpop_iat_window) db in
      (if fresh then some proof else none, db')

  pub turns : List Turn → Db → Db
  turns [] db = db
  turns (presents proof now ∷ rest) db = turns rest (verify_proof proof now db).1
  turns (collects now ∷ rest) db = turns rest (gc_jtis now db)

  abbrev pub CollectsBefore : Time → List Turn → Type 0
  CollectsBefore until [] = Unit
  CollectsBefore until (presents proof now ∷ rest) = CollectsBefore until rest
  CollectsBefore until (collects now ∷ rest) = (now < until) × CollectsBefore until rest

  kept-verify_proof :
      (jkt : Name) (jti : Text) (until : Time) (proof : Option DpopProof) (now : Time) (db : Db)
      → any (is_kept jkt jti until) db.jti_seen ≡ true
      → any (is_kept jkt jti until) (verify_proof proof now db).1.jti_seen ≡ true
  unfolding verify_proof
  kept-verify_proof jkt jti until none now db h = h
  kept-verify_proof jkt jti until (some p) now db h = ground (
    arith,
    any-append (is_kept jkt jti until) db.jti_seen
        (record { jkt = p.jkt; jti = p.jti; expires_at = now + seconds e.dpop_iat_window } ∷ []),
  )

  kept-gc_jtis :
      (jkt : Name) (jti : Text) (until now : Time) (db : Db)
      → now < until
      → any (is_kept jkt jti until) db.jti_seen ≡ true
      → any (is_kept jkt jti until) (gc_jtis now db).jti_seen ≡ true
  unfolding gc_jtis
  kept-gc_jtis jkt jti until now db early h =
      any-filter (is_kept jkt jti until) (λ (row : DpopJtiSeen). not (leb row.expires_at now))
        (λ row k. ground arith) db.jti_seen h

  kept-turns :
      (jkt : Name) (jti : Text) (until : Time) (later : List Turn) (db : Db)
      → CollectsBefore until later
      → any (is_kept jkt jti until) db.jti_seen ≡ true
      → any (is_kept jkt jti until) (turns later db).jti_seen ≡ true
  unfolding turns
  kept-turns jkt jti until [] db early h = h
  kept-turns jkt jti until (presents proof now ∷ rest) db early h =
      kept-turns jkt jti until rest (verify_proof proof now db).1 early
        (kept-verify_proof jkt jti until proof now db h)
  kept-turns jkt jti until (collects now ∷ rest) db early h =
      kept-turns jkt jti until rest (gc_jtis now db) early.1
        (kept-gc_jtis jkt jti until now db early.0 h)

  -- A proof that was accepted is refused when its key and its identifier are presented again, after any other
  -- proofs and any collections of the identifiers that are past, as long as each collection comes before the
  -- window on its acceptance has passed.
  pub verify_proof-once :
      (proof again : DpopProof) (now now' : Time) (later : List Turn) (db : Db)
      → (verify_proof (some proof) now db).0 ≡ some proof
      → again.jkt ≡ proof.jkt
      → again.jti ≡ proof.jti
      → CollectsBefore (now + seconds e.dpop_iat_window) later
      → (verify_proof (some again) now' (turns later (verify_proof (some proof) now db).1)).0 ≡ none
  unfolding verify_proof
  verify_proof-once proof again now now' later db got same_key same_id early =
      let until = now + seconds e.dpop_iat_window in
      let stored : any (is_kept proof.jkt proof.jti until)
            (verify_proof (some proof) now db).1.jti_seen
          ≡ true =
        ground (
          arith,
          any-append (is_kept proof.jkt proof.jti until) db.jti_seen
              (record { jkt = proof.jkt; jti = proof.jti; expires_at = until } ∷ []),
          text_eq_iff proof.jti proof.jti,
        ) in
      let after = turns later (verify_proof (some proof) now db).1 in
      let seen : any (is_seen proof.jkt proof.jti) after.jti_seen ≡ true =
        any-more (is_kept proof.jkt proof.jti until) (is_seen proof.jkt proof.jti)
          (λ row k. ground arith) after.jti_seen
          (kept-turns proof.jkt proof.jti until later (verify_proof (some proof) now db).1 early
            stored) in
      ground arith
