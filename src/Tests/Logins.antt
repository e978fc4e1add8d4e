-- ===== src/Tests/Logins.antt =====
-- The theorems on logins and recovery codes, at the small deployment with a flow for each factor.
use hyproxy.Security.Recovery.{normalize, consume}
use hyproxy.Security.Totp.{verify_code, decrypt_secret, get_totp_row}
use hyproxy.Idp.Sessions.{
  create_session, split_cookie, revoke, live_session, check_liveness, get_session_from_cookie,
  holder, touch, reissue_cookie,
}
use hyproxy.Security.Ratelimit.{
  register_one, count_failure, check, reset_account, delay_seconds, register_failure,
}
use hyproxy.Tests.{db, digest, env, reader}
use hyproxy.Idp.Flows.{
  required_second_factor, flow_fits, rotate_csrf, get_valid_flow, verify_flow_csrf,
}
use hyproxy.Idp.Login.{
  cookie_is, resume_completed_login, redirect_if_authenticated, continue_url, flow_user,
  complete_second_factor, finalize_login, second_factor_throttle, login_response, onward, Browser,
  LoginDraws, get_stage_flow,
}
use hyproxy.Idp.SecondFactor.{unless_throttled, on_submit, check_totp, replay_login, totp_submit}
use hyproxy.Store.{Db}
use hyproxy.Security.Recovery.Spent.{accepted, accepted-le-unused}
use hyproxy.Store.Accounts.{LoginFlow, RecoveryCode, Stage, User, admin, totp}
use hyproxy.Idp.Minted.{IsCoded, IsReplayed, totp_submit-IsCoded}
use hyproxy.Json.{end, Fields, field, str}
use hyproxy.Idp.Phases.{Advances, phase_of}
use hyproxy.Idp.Phases.Runs.{
  act_of, asked, get_login, IsSound, Request, handle, handle-Advances, post_totp, run, run-IsSound,
}
use hyproxy.Base.{
  Bool-cases, Memᴰ, Uuid, inl, inr, ◌==◌, contains, drop_while_end, before, after, drop_while,
  strip, text_eq, List, Text, Time, [], codes, false, is_some, none, refl, some, true, ℕ, ◌∷◌, ◌≡◌,
  ◌≤◌, ◌⊎◌,
}

abbrev boss : User
boss = record reader { id = 8; email = codes "b@example"; auth_tier = admin }

abbrev waiting_totp : LoginFlow
waiting_totp = record {
  id = b'f';
  csrf_token_hash = digest (codes "k");
  source_ip = 9;
  stage = totp;
  user_id = some 7;
  webauthn_challenge = none;
  recovery_used = false;
  oidc_request = [];
  completed_session_id = none;
  created_at = 100;
  expires_at = 5000;
}

abbrev waiting_passkey : LoginFlow
waiting_passkey = record waiting_totp {
  id = b'w';
  stage = Stage.webauthn;
  user_id = some 8;
  webauthn_challenge = some 3;
}

abbrev spare_code : ℕ → RecoveryCode
spare_code id = record {
  id = id;
  user_id = 7;
  batch_id = 1;
  code_hash = digest (codes "ABC");
  used_at = none;
}

abbrev logins : Db
logins = record db {
  users = reader ∷ boss ∷ [];
  login_flows = waiting_totp ∷ waiting_passkey ∷ [];
  user_totp =
      record { user_id = 7; secret_ciphertext = 0; created_at = 50; confirmed_at = some 60 } ∷ [];
  recovery_codes = spare_code 1 ∷ spare_code 2 ∷ [];
  webauthn_credentials =
      record {
        id = 1;
        user_id = 8;
        credential_id = codes "x===";
        public_key = 2;
        sign_count = 0;
        friendly_name = [];
        break_glass = false;
        created_at = 50;
        last_used_at = none;
      }
      ∷ [];
}

abbrev at_home : Browser
at_home = record { addr = 9; flow_cookie = some (codes "f"); session_cookie = none }

abbrev with_passkey : Browser
with_passkey = record at_home { flow_cookie = some (codes "w") }

abbrev draws : LoginDraws
draws = record {
  flow_id = b'n';
  csrf = codes "c";
  session_id = b'j';
  session_secret = codes "z";
  totp_secret = codes "123456";
  batch = 2;
  codes = [];
}

abbrev assertion : Fields
assertion = field (codes "id") (str (codes "x")) end

abbrev submit : Request
submit = post_totp draws (codes "f") (codes "k") (codes "123456")

handle-Advances_example : Advances (act_of submit) logins (handle env submit at_home 1000 logins).1
handle-Advances_example = handle-Advances env submit at_home 1000 logins tt

abbrev begin : Request
begin = get_login draws none

abbrev requests : List (Request × Browser × Time)
requests = (begin, at_home, 999) ∷ (submit, at_home, 1000) ∷ (submit, at_home, 1001) ∷ []

-- Both flows wait for the factor of their user.
logins-IsSound : (id : Uuid) → IsSound (λ _. false) logins.users (phase_of id logins)
unfolding required_second_factor
logins-IsSound id = elim (Bool-cases (b'f' == id)) [
  | inl first ↦ rw first (reader, Memᴰ.head refl, refl, refl)
  | inr not_first ↦ elim (Bool-cases (b'w' == id)) [
    | inl second ↦ rw (not_first, second) (boss, Memᴰ.tail (Memᴰ.head refl), refl, refl)
    | inr neither ↦ rw (not_first, neither) tt
  ]
]

run-IsSound_example :
    IsSound (λ stage. asked stage requests) logins.users (phase_of b'f' (run env requests logins))
run-IsSound_example = run-IsSound env requests logins (refl, (tt, (tt, tt))) logins-IsSound b'f'

coded :
    is_some
      (totp_submit env draws
        (codes "f")
        (codes "k")
        (codes "123456")
        at_home
        1000
        logins).0.session_cookie
    ≡ true
unfolding totp_submit on_submit get_stage_flow get_valid_flow flow_fits text_eq verify_flow_csrf
    flow_user unless_throttled second_factor_throttle check check_totp get_totp_row verify_code
    decrypt_secret strip complete_second_factor after before contains drop_while drop_while_end
    rotate_csrf continue_url finalize_login login_response onward redirect_if_authenticated
    resume_completed_login replay_login check_liveness create_session get_session_from_cookie holder
    live_session reissue_cookie revoke split_cookie touch count_failure delay_seconds
    register_failure register_one reset_account
coded = refl

totp_submit-IsCoded_example :
    (row : LoginFlow) × (get_stage_flow env (some (codes "f")) totp at_home 1000 logins ≡ some row)
    × (cookie_is at_home.flow_cookie (env.uuid_str row.id) ≡ true)
    × (verify_flow_csrf env row (codes "k") ≡ true)
    × (IsReplayed env row at_home 1000 logins
        ⊎ IsCoded env row (codes "123456") at_home 1000 logins)
totp_submit-IsCoded_example =
    totp_submit-IsCoded env draws (codes "f") (codes "k") (codes "123456") at_home 1000 logins coded

abbrev tries : List (Text × Time)
tries = (codes "a-bc", 1000) ∷ (codes "ABC", 1001) ∷ (codes " ABC", 1002) ∷ []

accepted-le-unused_example : accepted env 7 tries logins ≤ 2
accepted-le-unused_example = accepted-le-unused env 7 tries logins

-- Of the three attempts, the first is in lower case, and the others use the two codes up.
two_accepted : accepted env 7 tries logins ≡ 2
unfolding accepted consume normalize strip
two_accepted = refl
