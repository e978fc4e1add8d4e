-- ===== src/Idp/Phases/Saves.antt =====
-- What the writes on the table of flows do to the phases.
use hyproxy.Store.{Db}
use hyproxy.Idp.Flows.{delete_flow, find_flow, save_flow}
use hyproxy.Store.Accounts.{User, LoginFlow}
use hyproxy.Idp.Phases.{broken, Act, Phase, phase_at, Advances, PhaseStep, SamePhases, phase, stay}
use hyproxy.Base.{
  List, ◌≢◌, lookup-filter, none, Option, ap, refl, Bool-cases, inl, inr, ◌==◌, arith, lookup-put,
  some, sym, ℕ, ◌∙◌, ◌≡◌,
}

abbrev pub flow_id_of : LoginFlow → ℕ
flow_id_of row = row.id

pub step-along :
    {users : List User} {act : Act} {p p' q q' : Option Phase}
    → p ≡ p'
    → q ≡ q'
    → PhaseStep users act p' q'
    → PhaseStep users act p q
step-along h k step = rw (h, k) step

pub Advances-SamePhases : {act : Act} {db db' : Db} → SamePhases db db' → Advances act db db'
Advances-SamePhases {act} {db} {db'} k = record {
  at = λ id sound. rw (k.same_phase id) stay;
  users_kept = k.same_users;
}

pub Advances-refl : {act : Act} (db : Db) → Advances act db db
Advances-refl db = record { at = λ id sound. stay; users_kept = refl }

pub SamePhases-trans : {a b c : Db} → SamePhases a b → SamePhases b c → SamePhases a c
SamePhases-trans h k = record {
  same_phase = λ id. k.same_phase id ∙ h.same_phase id;
  same_users = k.same_users ∙ h.same_users;
}

pub SamePhases-Advances :
    {act : Act} {a b c : Db} → SamePhases a b → Advances act b c → Advances act a c
SamePhases-Advances {act} {a} {b} {c} h k = record {
  at = λ id sound.
      rw (sym h.same_users, sym (h.same_phase id)) (k.at id (rw (h.same_phase id) sound));
  users_kept = k.users_kept ∙ h.same_users;
}

-- The writing back of a row that is held.
module _ (row row' : LoginFlow) (db : Db) where
  pub save_flow-Advances :
      {act : Act}
      → find_flow row.id db ≡ some row
      → row'.id ≡ row.id
      → (phase row ≢ broken → PhaseStep db.users act (some (phase row)) (some (phase row')))
      → Advances act db (save_flow row' db)
  save_flow-Advances held same step = record {
    users_kept = refl;
    at = λ id sound. elim (Bool-cases (row.id == id)) [
      | inl mine ↦
          let mine' : row.id ≡ id = ground arith in
          let before : find_flow id db ≡ some row = rw (sym mine') held in
          let after : find_flow id (save_flow row' db) ≡ some row' =
            ground (arith, lookup-put flow_id_of id row' db.login_flows) in
          step-along (ap phase_at before) (ap phase_at after)
            (step (λ bad. sound (ap phase_at before ∙ ap some bad)))
      | inr other ↦
          let after : find_flow id (save_flow row' db) ≡ find_flow id db =
            ground (arith, lookup-put flow_id_of id row' db.login_flows) in
          step-along refl (ap phase_at after) stay
    ];
  }

  -- A row that is written back at the same phase.
  pub save_flow-SamePhases :
      find_flow row.id db ≡ some row
      → row'.id ≡ row.id
      → phase row' ≡ phase row
      → SamePhases db (save_flow row' db)
  save_flow-SamePhases held same level = record {
    same_users = refl;
    same_phase = λ id. elim (Bool-cases (row.id == id)) [
      | inl mine ↦
          let mine' : row.id ≡ id = ground arith in
          let before : find_flow id db ≡ some row = rw (sym mine') held in
          let after : find_flow id (save_flow row' db) ≡ some row' =
            ground (arith, lookup-put flow_id_of id row' db.login_flows) in
          ap phase_at after ∙ ap some level ∙ sym (ap phase_at before)
      | inr other ↦
          let after : find_flow id (save_flow row' db) ≡ find_flow id db =
            ground (arith, lookup-put flow_id_of id row' db.login_flows) in
          ap phase_at after
    ];
  }

  -- A row that is held is held again once it is written back.
  pub save_flow-held :
      find_flow row.id db ≡ some row
      → row'.id ≡ row.id
      → find_flow row'.id (save_flow row' db) ≡ some row'
  save_flow-held held same =
      let before : find_flow row'.id db ≡ some row = rw same held in
      ground (arith, lookup-put flow_id_of row'.id row' db.login_flows)

  pub delete_flow-Advances :
      {act : Act}
      → find_flow row.id db ≡ some row
      → PhaseStep db.users act (some (phase row)) none
      → Advances act db (delete_flow row db)
  unfolding delete_flow
  delete_flow-Advances held step = record {
    users_kept = refl;
    at = λ id sound. elim (Bool-cases (row.id == id)) [
      | inl mine ↦
          let mine' : row.id ≡ id = ground arith in
          let before : find_flow id db ≡ some row = rw (sym mine') held in
          let after : find_flow id (delete_flow row db) ≡ none =
            ground (arith, lookup-filter flow_id_of id row db.login_flows) in
          step-along (ap phase_at before) (ap phase_at after) step
      | inr other ↦
          let after : find_flow id (delete_flow row db) ≡ find_flow id db =
            ground (arith, lookup-filter flow_id_of id row db.login_flows) in
          step-along refl (ap phase_at after) stay
    ];
  }
