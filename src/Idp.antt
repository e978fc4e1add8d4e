-- ===== src/Idp.antt =====
-- idp/: sessions, codes, refresh tokens and the token endpoint.
pub mod Sessions
pub mod Codes
pub mod Refresh
pub mod Replay
pub mod Token
pub mod Flows
pub mod Login
pub mod SecondFactor
pub mod Passkeys
pub mod Stepup
pub mod Authorize
pub mod Keys
pub mod Request
pub mod Phases
pub mod Minted
