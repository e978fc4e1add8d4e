-- ===== src/Settings.antt =====
-- config.py: the settings that the modelled code reads, and what it calls outside the repository.
use hyproxy.Json.{Fields}
use hyproxy.Base.{Ip, List, Name, ℕ, Bool, Option, Text, Uuid, Time, Hash}

-- Times to live and the like are in seconds.
pub record Settings : Type 0 where
  pub issuer : Text
  pub access_ttl : ℕ
  pub refresh_abs_ttl : ℕ
  pub idle_ttl : ℕ
  pub stepup_max_age : ℕ
  pub dpop_iat_window : ℕ
  pub dpop_iat_future_skew : ℕ
  pub auth_code_ttl : ℕ
  pub login_flow_ttl : ℕ
  pub session_touch_interval : ℕ
  pub authz_cache_ttl : ℕ
  pub auth_host : Text
  pub external_scheme : Text
  pub gateway_state_ttl : ℕ
  pub public_session_ttl : ℕ
  pub public_session_bind_ip : Bool
  pub public_gate_csrf_ttl : ℕ
  pub admin_ui_origin : Text
  pub portal_origin : Text
  pub admin_lan_cidrs : Text
  pub qbit_savepath_shows : Text
  pub qbit_savepath_movies : Text
  pub gateway_client_id : Name
  pub guac_enabled : Bool
  pub guac_grant_ttl : ℕ
  pub rtsp_enabled : Bool
  pub rtsp_grant_ttl : ℕ
  pub throttle_window : ℕ
  pub throttle_account_free_failures : ℕ
  pub throttle_account_max_delay : ℕ
  pub throttle_ip_free_failures : ℕ
  pub throttle_ip_max_delay : ℕ

-- The settings of the process, the wall clock where a helper reads it by itself, and the functions of
-- the libraries: digests, UUIDs, password hashes, the parts of a URL, networks of addresses, base64, JSON, one-time codes, sealed
-- secrets, and the checks on a passkey's answers.
pub record Env : Type 0 where
  pub settings : Settings
  pub open settings use *
  pub utcnow : Time
  pub sha256_hex : Text → Hash
  pub sha256_b64url : Text → Text
  pub uuid_str : Uuid → Text
  pub parse_uuid : Text → Option Uuid
  pub verify_hash : Hash → Text → Bool
  pub percent_encode : Text → Text
  pub lower : Text → Text
  pub upper : Text → Text
  pub url_host : Text → Option Text
  pub url_scheme : Text → Text
  pub url_netloc : Text → Text
  pub url_user : Text → Option Text
  pub urlencode : List (Text × Text) → Text
  pub b64_decode : Text → Option Text
  pub dump : Fields → Text
  pub hash_password : Text → Hash
  pub totp_verify : Text → Text → Time → Bool
  pub seal : Text → Name
  pub unseal : Name → Text
  pub isdigit : ℕ → Bool
  pub current_key_id : Name
  pub ip_in_network : Ip → Text → Bool
  pub verify_assertion : Text → Name → Name → ℕ → Option ℕ
  pub verify_registration : Text → Name → Option (Text × Name × ℕ)
