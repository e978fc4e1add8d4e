-- ===== src/Admin/Portal.antt =====
-- admin/routes/portal.py: the portal of the users. A JSONResponse, unlike an exception, keeps what the
-- transaction wrote. The ids are drawn outside.
pub mod Actors
pub mod Rows
pub mod Reviews
pub mod Magnets
pub mod Passwords
pub mod Listed
use hyproxy.Store.Changes.{pending, denied}
use hyproxy.Policy.Engine.{Action, allow, deny}
use hyproxy.Idp.Request.{AuthedRequest}
use hyproxy.Store.Accounts.{UserRole, password_change}
use hyproxy.Admin.Deps.{is_admin_call, present}
use hyproxy.Settings.{Env}
use hyproxy.Store.Access.{Policy, Resource}
use hyproxy.Admin.Changes.{one_field, record_change, text}
use hyproxy.Store.Changes.{DownloadRequest, DownloadStatus, DownloadTarget, approved, movies, shows}
use hyproxy.Json.{end, field, null, obj, str}
use hyproxy.Admin.Users.{revoke_user_sessions}
use hyproxy.Admin.Accounts.{save_user}
use hyproxy.Store.{
  AuthEvent, AuthEventType, Db, download_approved, download_denied, download_requested,
  download_submit_failed, download_submitted, emit, user_password_change_failed,
  user_password_changed,
}
use hyproxy.Base.{
  zero, Bool, Ip, List, Option, Result, Text, Time, Uuid, [], any, codes, err, false, filter,
  if◌then◌else◌, is_space, leb, lookup, none, not, ok, put, skip, some, starts_with, strip, suc,
  text_eq, true, ℕ, ◌&&◌, ◌++◌, ◌==◌, ◌||◌, ◌∷◌,
}

-- `MAGNET_RE`: 40 hexadecimal digits or 32 of base 32, then nothing or parameters without white space. The `$`
-- also holds before a newline that ends the text.
abbrev magnet_prefix : Text
magnet_prefix = codes "magnet:?xt=urn:btih:"

abbrev pub is_hex : ℕ → Bool
is_hex c = (leb b'0' c && leb c b'9') || (leb b'a' c && leb c b'f') || (leb b'A' c && leb c b'F')

abbrev pub is_base32 : ℕ → Bool
is_base32 c = (leb b'a' c && leb c b'z') || (leb b'A' c && leb c b'Z') || (leb b'2' c && leb c b'7')

-- The text after `n` characters that pass the test.
unfoldable pub after_exactly : (ℕ → Bool) → ℕ → Text → Option Text
after_exactly p zero t = some t
after_exactly p (suc n) [] = none
after_exactly p (suc n) (c ∷ t) = let rest = after_exactly p n t in if p c then rest else none

unfoldable pub solid : Text → Bool
solid [] = true
solid (c ∷ []) = not (is_space c) || c == 10
solid (c ∷ d ∷ t) = not (is_space c) && solid (d ∷ t)

abbrev parameters : Option Text → Bool
parameters none = false
parameters (some []) = true
parameters (some (c ∷ t)) = (c == 10 && text_eq t []) || (c == b'&' && solid t)

unfoldable pub is_magnet : Text → Bool
unfolding solid after_exactly
is_magnet v =
    starts_with magnet_prefix v
    && (let rest = skip 20 v in
        parameters (after_exactly is_hex 40 rest) || parameters (after_exactly is_base32 32 rest))

pub record DownloadRequestIn : Type 0 where
  pub magnet : Text
  pub target : DownloadTarget

-- `_magnet_uri_only`
unfoldable pub read_download : DownloadRequestIn → Option DownloadRequestIn
read_download body =
    let v = strip body.magnet in if is_magnet v then some (record body { magnet = v }) else none

abbrev pub target_text : DownloadTarget → Text
target_text shows = codes "shows"
target_text movies = codes "movies"

abbrev pub status_name : DownloadStatus → Text
status_name pending = codes "pending"
status_name approved = codes "approved"
status_name denied = codes "denied"

abbrev pub is_pending : DownloadStatus → Bool
is_pending pending = true
is_pending approved = false
is_pending denied = false

-- An answer: a status and a detail, or the row.
pub data PortalReply : Type 0 where
  problem : ℕ → Text → PortalReply
  row_out : DownloadRequest → PortalReply
  no_content : PortalReply

abbrev pub download_key : DownloadRequest → ℕ
download_key d = d.id

abbrev pub save_download : DownloadRequest → Db → Db
save_download row db = record db { download_requests = put download_key row db.download_requests }

abbrev pub download_event : AuthEventType → Uuid → Ip → Bool → AuthEvent
download_event type user addr success = record {
  event_type = type;
  user_id = some user;
  session_id = none;
  client_id = none;
  source_ip = addr;
  success = success;
}

unfoldable pub take_first : ℕ → Text → Text
take_first zero t = []
take_first (suc n) [] = []
take_first (suc n) (c ∷ t) = c ∷ take_first n t

-- The guards on the request that is reviewed.
unfoldable pub pending_or_error : Uuid → Db → Result PortalReply DownloadRequest
pending_or_error id db = elim (lookup download_key id db.download_requests) [
  | none ↦ err (problem 404 (codes "request not found"))
  | some row ↦
      if is_pending row.status
      then ok row
      else err (problem 409 (codes "request already " ++ status_name row.status))
]

module _ (e : Env) where
  abbrev pub savepath : DownloadTarget → Text
  savepath shows = e.qbit_savepath_shows
  savepath movies = e.qbit_savepath_movies

  -- qBittorrent, which is given a magnet and a path: none where it takes them, or what went wrong.
  module _ (add_torrent : Text → Text → Option Text) where
    unfit : DownloadRequest → Text → Db → Option PortalReply × DownloadRequest × Db
    unfit row reason db =
        let row' = record row { error = some reason } in
        (
          some (problem 503 (codes "download target unavailable: " ++ reason)),
          row',
          save_download row' db,
        )

    sent :
        Option Text → DownloadRequest → Uuid → Ip → Db → Option PortalReply × DownloadRequest × Db
    sent (some reason) row reviewer addr db =
        let row' = record row { error = some reason } in
        (
          some (problem 502 (codes "qbittorrent submission failed")),
          row',
          emit (download_event download_submit_failed reviewer addr false) (save_download row' db),
        )
    sent none row reviewer addr db =
        let row' = record row {
          status = approved;
          reviewed_by = some reviewer;
          reviewed_at = some e.utcnow;
          submitted_at = some e.utcnow;
          error = none;
        } in
        (
          none,
          row',
          emit (download_event download_submitted reviewer addr true) (save_download row' db),
        )

    unfoldable pub submit :
        DownloadRequest → Uuid → Ip → Db → Option PortalReply × DownloadRequest × Db
    unfolding unfit sent
    submit row reviewer addr db =
        let path = savepath row.target in
        if not (present path)
        then unfit row (codes "savepath not configured") db
        else if not (is_magnet row.magnet)
        then unfit row (codes "invalid magnet") db
        else sent (add_torrent row.magnet path) row reviewer addr db

    unfoldable pub create_download :
        AuthedRequest → DownloadRequestIn → Uuid → Time → Ip → Db → PortalReply × Db
    create_download authed body id at addr db =
        let row : DownloadRequest = record {
          id = id;
          user_id = authed.user.id;
          magnet = body.magnet;
          target = body.target;
          status = pending;
          created_at = at;
          reviewed_by = none;
          reviewed_at = none;
          submitted_at = none;
          error = none;
        } in
        let queued =
          record_change authed.user.id "download_request" (some id) "create" null
            (obj (
              field (codes "target") (str (target_text row.target))
                (field (codes "magnet") (str (take_first 256 row.magnet)) end)))
            (record db { download_requests = db.download_requests ++ row ∷ [] }) in
        if is_admin_call authed
        then (let (failed, row', db') = submit row authed.user.id addr queued in
            (elim failed [ none ↦ row_out row' | some reply ↦ reply ], db'))
        else (row_out row, emit (download_event download_requested authed.user.id addr true) queued)

    unfoldable pub approve_download : AuthedRequest → Uuid → Ip → Db → PortalReply × Db
    approve_download authed id addr db = elim (pending_or_error id db) [
      | err reply ↦ (reply, db)
      | ok row ↦
          let (failed, row', db') = submit row authed.user.id addr db in
          elim failed [
            | some reply ↦ (reply, db')
            | none ↦ (
              row_out row',
              emit (download_event download_approved authed.user.id addr true) (
                  record_change authed.user.id "download_request" (some row.id) "update" null
                    (one_field "status" (text "approved")) db'),
            )
          ]
    ]

  unfoldable pub deny_download : AuthedRequest → Uuid → Ip → Db → PortalReply × Db
  deny_download authed id addr db = elim (pending_or_error id db) [
    | err reply ↦ (reply, db)
    | ok row ↦
        let row' = record row {
          status = denied;
          reviewed_by = some authed.user.id;
          reviewed_at = some e.utcnow;
        } in
        (
          row_out row',
          emit (download_event download_denied authed.user.id addr true) (
              record_change authed.user.id "download_request" (some row.id) "update" null
                (one_field "status" (text "denied")) (save_download row' db)),
        )
  ]

  abbrev session_user_event : AuthEventType → AuthedRequest → Ip → Bool → AuthEvent
  session_user_event type authed addr success = record {
    event_type = type;
    user_id = some authed.user.id;
    session_id = some authed.session.id;
    client_id = none;
    source_ip = addr;
    success = success;
  }

  unfoldable pub change_password : AuthedRequest → Text → Text → Ip → Db → PortalReply × Db
  change_password authed current new addr db =
      let user = authed.user in
      if not (e.verify_hash user.password_hash current)
      then (
        problem 403 (codes "current password incorrect"),
        emit (session_user_event user_password_change_failed authed addr false) db,
      )
      else (
        no_content,
        emit (session_user_event user_password_changed authed addr true) (
            record_change user.id "password_change" (some user.id) "update" null null (
              revoke_user_sessions e user.id password_change addr (some authed.session.id)
                (save_user (record user { password_hash = e.hash_password new }) db))),
      )

abbrev pub allows_action : Action → Bool
allows_action allow = true
allows_action deny = false

-- `my_resources`, before the order by name: the rows that the joins select, each once.
abbrev pub listed : Uuid → Db → Resource → Bool
listed user db r =
    r.enabled
    && any
        (λ (p : Policy).
          p.resource_id == r.id
          && allows_action p.action
          && p.enabled
          && any (λ (u : UserRole). u.user_id == user && u.role_id == p.role_id) db.user_roles)
        db.policies

unfoldable pub my_resources : Uuid → Db → List Resource
my_resources user db = filter (listed user db) db.resources

-- The rows that `list_downloads` shows, before their order and their limit.
unfoldable pub list_downloads : AuthedRequest → Db → List DownloadRequest
list_downloads authed db =
    if is_admin_call authed
    then db.download_requests
    else filter (λ (d : DownloadRequest). d.user_id == authed.user.id) db.download_requests
