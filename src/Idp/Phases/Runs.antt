-- ===== src/Idp/Phases/Runs.antt =====
-- The requests of a login, in any order and from any browser, and the flows after them.
-- One constructor per handler, with what the handler reads of the request.
use hyproxy.Json.{Fields}
use hyproxy.Store.Accounts.{Stage, totp, User}
use hyproxy.Idp.Phases.Assertions.{
  enroll_webauthn_options-Advances, enroll_webauthn_page-Advances, enroll_webauthn_verify-Advances,
  webauthn_options-Advances, webauthn_page-Advances, webauthn_verify-Advances,
}
use hyproxy.Idp.SecondFactor.{
  enroll_totp_form, enroll_totp_submit, recovery_form, recovery_submit, totp_form, totp_submit,
}
use hyproxy.Settings.{Env}
use hyproxy.Idp.Login.{stage_eq, Browser, LoginDraws, Response, login_form, login_submit}
use hyproxy.Idp.Phases.Factors.{totp_form-Advances, totp_submit-Advances}
use hyproxy.Idp.Phases.Enrollment.{
  enroll_totp_form-Advances, enroll_totp_submit-Advances, recovery_form-Advances,
  recovery_submit-Advances,
}
use hyproxy.Idp.Flows.{required_second_factor}
use hyproxy.Store.{Db}
use hyproxy.Idp.Phases.{
  phase_of, Act, begins, identifies, enrolls, unrelated, shows, enroll, enroll_again, abandon,
  sign_in_anew, Advances, Phase, PhaseStep, broken, complete, completed, identify, open_flow,
  started, stay, waiting,
}
use hyproxy.Idp.Passkeys.{
  enroll_webauthn_options, enroll_webauthn_page, enroll_webauthn_verify, webauthn_options,
  webauthn_page, webauthn_verify,
}
use hyproxy.Base.{
  any, false, true, ◌||◌, arith, none, Bool, List, Memᴰ, Name, Option, Text, Time, Uuid, [], refl,
  some, ◌∷◌, ◌≡◌, ◌≢◌,
}
use mathlib.Core.Path.{subst}
use hyproxy.Idp.Phases.Passwords.{login_form-Advances, login_submit-Advances}

pub data Request : Type 0 where
  get_login get_totp get_enroll_totp get_recovery get_webauthn get_enroll_webauthn :
      LoginDraws → Option Text → Request
  post_login : Text → Text → Text → Text → Request
  post_totp post_enroll_totp post_recovery : LoginDraws → Text → Text → Text → Request
  webauthn_challenge enroll_challenge : Name → Text → Text → Request
  webauthn_answer : LoginDraws → Text → Text → Fields → Request
  enroll_answer : Uuid → Text → Text → Fields → Text → Bool → Request

abbrev pub act_of : Request → Act
act_of (get_login draws flow) = begins
act_of (post_login flow csrf email given) = identifies
act_of (post_totp draws flow csrf code) = shows totp
act_of (webauthn_answer draws flow csrf credential) = shows Stage.webauthn
act_of (post_enroll_totp draws flow csrf code) = enrolls
act_of _ = unrelated

abbrev pub is_shown : Stage → Act → Bool
is_shown stage (shows factor) = stage_eq stage factor
is_shown stage _ = false

-- The id that a new flow is given is the id of none.
abbrev pub IsFresh : Request → Db → Type 0
IsFresh (get_login draws flow) db = phase_of draws.flow_id db ≡ none
IsFresh _ db = Unit

-- Whether some request of a run was there to show the factor.
abbrev pub asked : Stage → List (Request × Browser × Time) → Bool
asked stage rs = any (λ (r : Request × Browser × Time). is_shown stage (act_of r.0)) rs

-- A phase that the pages may leave, after requests that showed some factors: not broken, and a flow that
-- knows its user waits for the factor of that user's tier, or was completed after that factor was shown.
abbrev pub IsSound : (Stage → Bool) → List User → Option Phase → Type 0
IsSound shown users none = Unit
IsSound shown users (some started) = Unit
IsSound shown users (some broken) = ⊥
IsSound shown users (some (waiting user stage)) =
    (who : User) × Memᴰ who users × (who.id ≡ user) × (required_second_factor who ≡ stage)
IsSound shown users (some (completed user stage session)) =
    (shown stage ≡ true)
    × ((who : User) × Memᴰ who users × (who.id ≡ user) × (required_second_factor who ≡ stage))

abbrev also : (Stage → Bool) → Act → Stage → Bool
also shown act stage = shown stage || is_shown stage act

IsSound-more :
    (shown more : Stage → Bool)
    → ((stage : Stage) → shown stage ≡ true → more stage ≡ true)
    → (users : List User) (p : Option Phase) → IsSound shown users p
    → IsSound more users p
IsSound-more shown more le users none s = tt
IsSound-more shown more le users (some started) s = tt
IsSound-more shown more le users (some broken) s = s
IsSound-more shown more le users (some (waiting user stage)) s = s
IsSound-more shown more le users (some (completed user stage session)) s = (le stage s.0, s.1)

is_shown-shows : (stage : Stage) → is_shown stage (shows stage) ≡ true
is_shown-shows Stage.password = refl
is_shown-shows Stage.totp = refl
is_shown-shows Stage.webauthn = refl
is_shown-shows Stage.done = refl

step-IsSound :
    {users : List User} {act : Act} {p q : Option Phase} (shown : Stage → Bool)
    → PhaseStep users act p q
    → IsSound shown users p
    → IsSound (also shown act) users q
step-IsSound {users} {act} {p} shown stay s =
    IsSound-more shown (also shown act) (λ stage h. ground arith) users p s
step-IsSound shown open_flow s = tt
step-IsSound shown abandon s = tt
step-IsSound shown sign_in_anew s = tt
step-IsSound shown (identify who mem) s = (who, mem, refl, refl)
step-IsSound shown (complete {stage = stage}) s = (ground (arith, is_shown-shows stage), s)
step-IsSound shown enroll s = tt
step-IsSound shown enroll_again s = tt

IsSound-unbroken :
    (shown : Stage → Bool) (users : List User) (p : Option Phase)
    → IsSound shown users p
    → p ≢ some broken
IsSound-unbroken shown users none s h = ground arith
IsSound-unbroken shown users (some started) s h = ground arith
IsSound-unbroken shown users (some broken) s h = s
IsSound-unbroken shown users (some (waiting user stage)) s h = ground arith
IsSound-unbroken shown users (some (completed user stage session)) s h = ground arith

module _ (e : Env) where
  unfoldable pub handle : Request → Browser → Time → Db → Response × Db
  handle (get_login draws flow) b now db = login_form e draws flow b now db
  handle (get_totp draws flow) b now db = totp_form e draws flow b now db
  handle (get_enroll_totp draws flow) b now db = enroll_totp_form e draws flow b now db
  handle (get_recovery draws flow) b now db = recovery_form e draws flow b now db
  handle (get_webauthn draws flow) b now db = webauthn_page e draws flow b now db
  handle (get_enroll_webauthn draws flow) b now db = enroll_webauthn_page e draws flow b now db
  handle (post_login flow csrf email given) b now db = login_submit e flow csrf email given b now db
  handle (post_totp draws flow csrf code) b now db = totp_submit e draws flow csrf code b now db
  handle (post_enroll_totp draws flow csrf code) b now db =
      enroll_totp_submit e draws flow csrf code b now db
  handle (post_recovery draws flow csrf code) b now db =
      recovery_submit e draws flow csrf code b now db
  handle (webauthn_challenge challenge flow csrf) b now db =
      webauthn_options e challenge flow csrf b now db
  handle (enroll_challenge challenge flow csrf) b now db =
      enroll_webauthn_options e challenge flow csrf b now db
  handle (webauthn_answer draws flow csrf credential) b now db =
      webauthn_verify e draws flow csrf credential b now db
  handle (enroll_answer id flow csrf credential friendly break_glass) b now db =
      enroll_webauthn_verify e id flow csrf credential friendly break_glass b now db

  -- Each request of the login pages, whatever it carries and whatever its answer, takes every flow that is
  -- not broken at most one step of the machine, where the id that a new flow is given is not in use. Opening
  -- the sign-in page may start a flow or delete one that is past the password; the password ties a started
  -- flow to a user and the factor of that user's tier; a one-time code completes only a flow that waits for a
  -- code, and a passkey one that waits for a passkey; enrolling a code may delete a flow at that stage; the
  -- other requests move no flow, none goes back to the password, and no request changes a user.
  pub handle-Advances :
      (r : Request) (b : Browser) (now : Time) (db : Db)
      → IsFresh r db
      → Advances (act_of r) db (handle r b now db).1
  unfolding handle
  handle-Advances (get_login draws flow) b now db new =
      login_form-Advances e draws flow b now db new
  handle-Advances (get_totp draws flow) b now db new = totp_form-Advances e draws flow b now db
  handle-Advances (get_enroll_totp draws flow) b now db new =
      enroll_totp_form-Advances e draws flow b now db
  handle-Advances (get_recovery draws flow) b now db new =
      recovery_form-Advances e draws flow b now db
  handle-Advances (get_webauthn draws flow) b now db new =
      webauthn_page-Advances e draws flow b now db
  handle-Advances (get_enroll_webauthn draws flow) b now db new =
      enroll_webauthn_page-Advances e draws flow b now db
  handle-Advances (post_login flow csrf email given) b now db new =
      login_submit-Advances e flow csrf email given b now db
  handle-Advances (post_totp draws flow csrf code) b now db new =
      totp_submit-Advances e draws flow csrf code b now db
  handle-Advances (post_enroll_totp draws flow csrf code) b now db new =
      enroll_totp_submit-Advances e draws flow csrf code b now db
  handle-Advances (post_recovery draws flow csrf code) b now db new =
      recovery_submit-Advances e draws flow csrf code b now db
  handle-Advances (webauthn_challenge challenge flow csrf) b now db new =
      webauthn_options-Advances e challenge flow csrf b now db
  handle-Advances (enroll_challenge challenge flow csrf) b now db new =
      enroll_webauthn_options-Advances e challenge flow csrf b now db
  handle-Advances (webauthn_answer draws flow csrf credential) b now db new =
      webauthn_verify-Advances e draws flow csrf credential b now db
  handle-Advances (enroll_answer id flow csrf credential friendly break_glass) b now db new =
      enroll_webauthn_verify-Advances e id flow csrf credential friendly break_glass b now db

  unfoldable pub run : List (Request × Browser × Time) → Db → Db
  run [] db = db
  run ((r, b, now) ∷ rs) db = run rs (handle r b now db).1

  -- The ids that the flows of a run are given are not in use when they are.
  abbrev pub AllFresh : List (Request × Browser × Time) → Db → Type 0
  AllFresh [] db = Unit
  AllFresh ((r, b, now) ∷ rs) db = IsFresh r db × AllFresh rs (handle r b now db).1

  run-IsSound_after :
      (shown : Stage → Bool) (rs : List (Request × Browser × Time)) (db : Db)
      → AllFresh rs db
      → ((id : Uuid) → IsSound shown db.users (phase_of id db))
      → (id : Uuid)
      → IsSound (λ stage. shown stage || asked stage rs) db.users (phase_of id (run rs db))
  unfolding run
  run-IsSound_after shown [] db new s id =
      IsSound-more shown (λ stage. shown stage || false) (λ stage h. ground arith) db.users
        (phase_of id db) (s id)
  run-IsSound_after shown ((r, b, now) ∷ rs) db new s id =
      let db' = (handle r b now db).1 in
      let moved = handle-Advances r b now db new.0 in
      let next : (j : Uuid) → IsSound (also shown (act_of r)) db'.users (phase_of j db') = λ j.
        rw moved.users_kept (
          step-IsSound shown (moved.at j (IsSound-unbroken shown db.users (phase_of j db) (s j)))
            (s j)) in
      let after = run-IsSound_after (also shown (act_of r)) rs db' new.1 next id in
      IsSound-more (λ stage. also shown (act_of r) stage || asked stage rs)
        (λ stage. shown stage || asked stage ((r, b, now) ∷ rs)) (λ stage h. ground arith) db.users
        (phase_of id (run rs db'))
        (subst
          (λ users.
            IsSound (λ stage. also shown (act_of r) stage || asked stage rs) users
              (phase_of id (run rs db')))
          moved.users_kept after)

  -- After any run of requests, from a database in which no flow is completed and each that knows its user
  -- waits for the factor of that user's tier, and where new flows are given ids that are not in use: no flow
  -- is broken, each flow that waits waits for the second factor of its user's tier, and each that is completed
  -- was so at that stage and in a run that holds a request to show that very factor.
  pub run-IsSound :
      (rs : List (Request × Browser × Time)) (db : Db)
      → AllFresh rs db
      → ((id : Uuid) → IsSound (λ _. false) db.users (phase_of id db))
      → (id : Uuid) → IsSound (λ stage. asked stage rs) db.users (phase_of id (run rs db))
  run-IsSound rs db new s id = run-IsSound_after (λ _. false) rs db new s id
