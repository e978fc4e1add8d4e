-- ===== src/Idp/Phases.antt =====
-- The life of a login flow, for idp/flows.py and idp/web: the machine that the handlers are meant to run on
-- each row, told without the rows.
pub mod Kept
pub mod Saves
pub mod Passwords
pub mod Guards
pub mod Factors
pub mod Enrollment
pub mod Assertions
pub mod Runs
use hyproxy.Store.{Db}
use hyproxy.Idp.Login.{stage_eq}
use hyproxy.Idp.Flows.{required_second_factor, find_flow}
use hyproxy.Store.Accounts.{User, LoginFlow, Stage, password, totp}
use hyproxy.Base.{List, Memᴰ, Option, Uuid, if◌then◌else◌, is_some, none, some, ◌||◌, ◌≡◌, ◌≢◌}

-- `broken` is a row that no handler is meant to leave.
pub data Phase : Type 0 where
  started broken : Phase
  waiting : Uuid → Stage → Phase
  completed : Uuid → Stage → Uuid → Phase

-- What a request is for: to begin a login, to tell who it is, to show or to enroll the second factor.
pub data Act : Type 0 where
  begins identifies enrolls unrelated : Act
  shows : Stage → Act

-- What a request may do to the phase of a flow. Only a request to begin leaves a flow that knows its user,
-- which is then gone, as it is once its user has enrolled; and only the factor of the stage completes it.
pub data PhaseStep (users : List User) : Act → Option Phase → Option Phase → Type 0 where
  stay : {act : Act} {p : Option Phase} → PhaseStep users act p p
  open_flow : PhaseStep users begins none (some started)
  abandon : {user : Uuid} {stage : Stage} → PhaseStep users begins (some (waiting user stage)) none
  sign_in_anew :
      {user : Uuid} {stage : Stage} {session : Uuid}
      → PhaseStep users begins (some (completed user stage session)) none
  identify :
      (who : User)
      → Memᴰ who users
      → PhaseStep users identifies
          (some started)
          (some (waiting who.id (required_second_factor who)))
  complete :
      {user : Uuid} {stage : Stage} {session : Uuid}
      → PhaseStep users
          (shows stage)
          (some (waiting user stage))
          (some (completed user stage session))
  enroll : {user : Uuid} → PhaseStep users enrolls (some (waiting user totp)) none
  enroll_again :
      {user session : Uuid} → PhaseStep users enrolls (some (completed user totp session)) none

abbrev pub phase : LoginFlow → Phase
phase row =
    if stage_eq row.stage password
    then (if is_some row.user_id || is_some row.completed_session_id then broken else started)
    else elim row.user_id [
      | none ↦ broken
      | some user ↦ elim row.completed_session_id [
        | none ↦ waiting user row.stage
        | some session ↦ completed user row.stage session
      ]
    ]

abbrev pub phase_at : Option LoginFlow → Option Phase
phase_at none = none
phase_at (some row) = some (phase row)

abbrev pub phase_of : Uuid → Db → Option Phase
phase_of id db = phase_at (find_flow id db)

-- Every flow makes at most one step of the machine, and no user changes.
pub record Advances (act : Act) (db db' : Db) : Type 0 where
  pub at :
      (id : Uuid)
      → phase_of id db ≢ some broken
      → PhaseStep db.users act (phase_of id db) (phase_of id db')
  pub users_kept : db'.users ≡ db.users

-- No flow changes its phase, and no user changes.
pub record SamePhases (db db' : Db) : Type 0 where
  pub same_phase : (id : Uuid) → phase_of id db' ≡ phase_of id db
  pub same_users : db'.users ≡ db.users
