-- ===== src/Admin/Users/Revoked.antt =====
-- What signing a user out leaves: `_revoke_user_sessions` of admin/routes/users.py.
-- The tables of accounts, which ending sessions does not touch.
use hyproxy.Idp.Refresh.Families.{revoke_for_session-revokes}
use hyproxy.Idp.Token.Reuse.{revoke-tokens}
use mathlib.Core.Path.{subst}
use hyproxy.Store.{Db}
use hyproxy.Idp.Sessions.{revoke}
use hyproxy.Idp.Sessions.Rows.{session_id}
use hyproxy.Settings.{Env}
use hyproxy.Admin.Users.{revoke_rows, revoke_user_sessions}
use hyproxy.Admin.Accounts.{is_open_of}
use hyproxy.Idp.Token.{live}
use hyproxy.Store.Accounts.{RefreshToken, RevokeReason, Session}
use hyproxy.Idp.Refresh.{of_session, revoke_at, revoke_for_session}
use hyproxy.Base.{
  All-update_where, ==_refl, All-filter, All-zip, Memᴰ→All, Memᴰ→any, any-filter, false, ◌&&◌, All,
  Bool-cases, Ip, List, Option, Option-cases, Uuid, [], any, arith, filter, inl, inr, is_some, none,
  put, refl, some, sym, true, ◌==◌, ◌∙◌, ◌∷◌, ◌≡◌,
}

pub record SameAccounts (db db' : Db) : Type 0 where
  pub same_users : db'.users ≡ db.users
  pub same_credentials : db'.webauthn_credentials ≡ db.webauthn_credentials
  pub same_changes : db'.policy_changes ≡ db.policy_changes
  pub same_downloads : db'.download_requests ≡ db.download_requests

-- What the loop has still to do: a session is another user's, or revoked, or of a row that is to come.
abbrev IsDue : Uuid → Option Uuid → List Session → Session → Type 0
IsDue user exclude rows s =
    is_open_of user exclude s ≡ true → any (λ (r : Session). r.id == s.id) rows ≡ true

-- What is left of a user who was signed out everywhere, but in the session that is spared: no session that is
-- not revoked, and no refresh token of one that was open.
pub record IsSignedOut (user : Uuid) (exclude : Option Uuid) (before after : Db) : Type 0 where
  pub closed : All (λ (s : Session). is_open_of user exclude s ≡ false) after.sessions
  pub cut :
      All
        (λ (t : RefreshToken).
          any (λ (s : Session). is_open_of user exclude s && s.id == t.session_id) before.sessions
            ≡ true
          → is_some t.revoked_at ≡ true)
        after.refresh_tokens

module _ (e : Env) where
  revoke-SameAccounts :
      (row : Session) (reason : RevokeReason) (addr : Ip) (db : Db)
      → SameAccounts db (revoke e row reason addr (revoke_for_session e row.id db)).1
  unfolding revoke revoke_for_session
  revoke-SameAccounts row reason addr db = elim (Option-cases row.revoked_at) [
    | inl live ↦
        rw (revoke, live)
          (record {
            same_users = refl;
            same_credentials = refl;
            same_changes = refl;
            same_downloads = refl;
          })
    | inr (at, gone) ↦
        rw (revoke, gone)
          (record {
            same_users = refl;
            same_credentials = refl;
            same_changes = refl;
            same_downloads = refl;
          })
  ]

  pub revoke_rows-SameAccounts :
      (rows : List Session) (reason : RevokeReason) (addr : Ip) (db : Db)
      → SameAccounts db (revoke_rows e rows reason addr db)
  unfolding revoke_rows
  revoke_rows-SameAccounts [] reason addr db = record {
    same_users = refl;
    same_credentials = refl;
    same_changes = refl;
    same_downloads = refl;
  }
  revoke_rows-SameAccounts (row ∷ rows) reason addr db =
      let once = revoke-SameAccounts row reason addr db in
      let rest =
        revoke_rows-SameAccounts rows reason addr
          (revoke e row reason addr (revoke_for_session e row.id db)).1 in
      record {
        same_users = rest.same_users ∙ once.same_users;
        same_credentials = rest.same_credentials ∙ once.same_credentials;
        same_changes = rest.same_changes ∙ once.same_changes;
        same_downloads = rest.same_downloads ∙ once.same_downloads;
      }

  pub revoke_user_sessions-SameAccounts :
      (user : Uuid) (reason : RevokeReason) (addr : Ip) (exclude : Option Uuid) (db : Db)
      → SameAccounts db (revoke_user_sessions e user reason addr exclude db)
  unfolding revoke_user_sessions
  revoke_user_sessions-SameAccounts user reason addr exclude db =
      revoke_rows-SameAccounts (filter (is_open_of user exclude) db.sessions) reason addr db

  written :
      (row : Session) (reason : RevokeReason) (addr : Ip) (db : Db)
      → row.revoked_at ≡ none
      → (revoke e row reason addr (revoke_for_session e row.id db)).1.sessions
        ≡ put session_id
            (record row { revoked_at = some e.utcnow; revoke_reason = some reason })
            db.sessions
  unfolding revoke revoke_for_session
  written row reason addr db live = rw (revoke, live) refl

  put-IsDue :
      (user : Uuid) (exclude : Option Uuid) (row row' : Session) (rows ss : List Session)
      → row'.id ≡ row.id
      → is_some row'.revoked_at ≡ true
      → All (IsDue user exclude (row ∷ rows)) ss
      → All (IsDue user exclude rows) (put session_id row' ss)
  put-IsDue user exclude row row' rows [] same dead h = tt
  put-IsDue user exclude row row' rows (s ∷ ss) same dead h = (
    λ live. elim (Bool-cases (s.id == row'.id)) [
      | inl mine ↦ ground arith
      | inr other ↦ ground (arith, h.0)
    ],
    put-IsDue user exclude row row' rows ss same dead h.1,
  )

  revoke_rows-IsDue :
      (user : Uuid) (exclude : Option Uuid) (rows : List Session) (reason : RevokeReason)
      (addr : Ip) (db : Db)
      → All (λ (r : Session). r.revoked_at ≡ none) rows
      → All (IsDue user exclude rows) db.sessions
      → All (IsDue user exclude []) (revoke_rows e rows reason addr db).sessions
  unfolding revoke_rows
  revoke_rows-IsDue user exclude [] reason addr db unrevoked h = h
  revoke_rows-IsDue user exclude (row ∷ rows) reason addr db unrevoked h =
      revoke_rows-IsDue user exclude rows reason addr
        (revoke e row reason addr (revoke_for_session e row.id db)).1 unrevoked.1
        (subst (All (IsDue user exclude rows)) (sym (written row reason addr db unrevoked.0)) (
          put-IsDue user exclude row
            (record row { revoked_at = some e.utcnow; revoke_reason = some reason }) rows
            db.sessions refl refl h))

  -- Signing a user out leaves no session of the user that is not revoked, but the one that is spared.
  pub revoke_user_sessions-closes :
      (user : Uuid) (reason : RevokeReason) (addr : Ip) (exclude : Option Uuid) (db : Db)
      → All
          (λ (s : Session). is_open_of user exclude s ≡ false)
          (revoke_user_sessions e user reason addr exclude db).sessions
  unfolding revoke_user_sessions
  revoke_user_sessions-closes user reason addr exclude db =
      let due = is_open_of user exclude in
      let rows = filter due db.sessions in
      let started : All (IsDue user exclude rows) db.sessions =
        Memᴰ→All (IsDue user exclude rows) db.sessions (λ s m live.
          any-filter (λ (r : Session). r.id == s.id) due db.sessions
          ∙ Memᴰ→any (λ (r : Session). due r && r.id == s.id) db.sessions m
              (ground (arith, ==_refl s.id))) in
      let ended =
        revoke_rows-IsDue user exclude rows reason addr db
          (All-filter (λ (r : Session). r.revoked_at ≡ none) due db.sessions (λ x h. ground arith))
          started in
      All-zip (IsDue user exclude []) (IsDue user exclude [])
        (λ (s : Session). is_open_of user exclude s ≡ false)
        (revoke_rows e rows reason addr db).sessions (λ s h k. ground (arith, h)) ended ended

  -- A refresh token of one session is revoked.
  abbrev IsCut : Uuid → RefreshToken → Type 0
  IsCut session t = t.session_id ≡ session → is_some t.revoked_at ≡ true

  tokens-step :
      (session : Uuid) (row : Session) (reason : RevokeReason) (addr : Ip) (db : Db)
      → All (IsCut session) db.refresh_tokens
      → All
          (IsCut session)
          (revoke e row reason addr (revoke_for_session e row.id db)).1.refresh_tokens
  unfolding revoke_for_session
  tokens-step session row reason addr db h =
      rw (revoke-tokens e row reason addr (revoke_for_session e row.id db)) (
        All-update_where (IsCut session) (of_session row.id) (revoke_at e.utcnow) db.refresh_tokens
          (λ t cut same. refl) h)

  revoke_rows-keeps_IsCut :
      (session : Uuid) (rows : List Session) (reason : RevokeReason) (addr : Ip) (db : Db)
      → All (IsCut session) db.refresh_tokens
      → All (IsCut session) (revoke_rows e rows reason addr db).refresh_tokens
  unfolding revoke_rows
  revoke_rows-keeps_IsCut session [] reason addr db h = h
  revoke_rows-keeps_IsCut session (row ∷ rows) reason addr db h =
      revoke_rows-keeps_IsCut session rows reason addr
        (revoke e row reason addr (revoke_for_session e row.id db)).1
        (tokens-step session row reason addr db h)

  -- The loop cuts the tokens of every row that it passes.
  revoke_rows-cuts :
      (rows : List Session) (reason : RevokeReason) (addr : Ip) (db : Db)
      → All
          (λ (t : RefreshToken).
            any (λ (r : Session). r.id == t.session_id) rows ≡ true → is_some t.revoked_at ≡ true)
          (revoke_rows e rows reason addr db).refresh_tokens
  unfolding revoke_rows
  revoke_rows-cuts [] reason addr db =
      Memᴰ→All (λ (t : RefreshToken). false ≡ true → is_some t.revoked_at ≡ true) db.refresh_tokens
        (λ t m h. ground arith)
  revoke_rows-cuts (row ∷ rows) reason addr db =
      let once = (revoke e row reason addr (revoke_for_session e row.id db)).1 in
      let this : All (IsCut row.id) once.refresh_tokens =
        rw (revoke-tokens e row reason addr (revoke_for_session e row.id db))
          (revoke_for_session-revokes e row.id db) in
      All-zip (IsCut row.id)
        (λ (t : RefreshToken).
          any (λ (r : Session). r.id == t.session_id) rows ≡ true → is_some t.revoked_at ≡ true)
        (λ (t : RefreshToken).
          any (λ (r : Session). r.id == t.session_id) (row ∷ rows) ≡ true
          → is_some t.revoked_at ≡ true)
        (revoke_rows e rows reason addr once).refresh_tokens
        (λ t mine others h. ground (arith, mine, others))
        (revoke_rows-keeps_IsCut row.id rows reason addr once this)
        (revoke_rows-cuts rows reason addr once)

  pub revoke_user_sessions-IsSignedOut :
      (user : Uuid) (reason : RevokeReason) (addr : Ip) (exclude : Option Uuid) (db : Db)
      → IsSignedOut user exclude db (revoke_user_sessions e user reason addr exclude db)
  unfolding revoke_user_sessions
  revoke_user_sessions-IsSignedOut user reason addr exclude db =
      let due = is_open_of user exclude in
      let cut = revoke_rows-cuts (filter due db.sessions) reason addr db in
      record {
        closed = revoke_user_sessions-closes user reason addr exclude db;
        cut =
            All-zip
              (λ (t : RefreshToken).
                any (λ (r : Session). r.id == t.session_id) (filter due db.sessions) ≡ true
                → is_some t.revoked_at ≡ true)
              (λ (t : RefreshToken).
                any (λ (r : Session). r.id == t.session_id) (filter due db.sessions) ≡ true
                → is_some t.revoked_at ≡ true)
              (λ (t : RefreshToken).
                any (λ (s : Session). due s && s.id == t.session_id) db.sessions ≡ true
                → is_some t.revoked_at ≡ true)
              (revoke_rows e (filter due db.sessions) reason addr db).refresh_tokens
              (λ t h k open'.
                h (any-filter (λ (r : Session). r.id == t.session_id) due db.sessions ∙ open'))
              cut cut;
      }
