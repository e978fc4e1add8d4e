-- ===== src/Admin/Portal/Reviews.antt =====
-- The requests for downloads of admin/routes/portal.py, from the queue to their review.
-- The answers of qBittorrent are arguments.
use hyproxy.Admin.Portal.Rows.{
  denies, KeepsReviewed, KeepsReviewed-add, KeepsReviewed-put, KeepsReviewed-same,
  KeepsReviewed-trans, PortalRequest, approves, queues,
}
use hyproxy.Store.Changes.{pending}
use hyproxy.Admin.Changes.{record_change}
use hyproxy.Json.{end, field, null, obj, str}
use hyproxy.Idp.Request.{AuthedRequest}
use hyproxy.Idp.Passkeys.{refused}
use hyproxy.Store.{Db}
use hyproxy.Store.Changes.{DownloadRequest}
use hyproxy.Settings.{Env}
use hyproxy.Admin.Deps.{is_admin_call, present}
use hyproxy.Admin.Portal.{
  pending, take_first, target_text, approve_download, create_download, denied, PortalReply,
  deny_download, pending_or_error, problem, read_download, submit, DownloadRequestIn, download_key,
  is_magnet, is_pending, save_download, savepath,
}
use hyproxy.Base.{
  ==_refl, Result-cases, codes, none, ok, Bool-cases, Ip, Option, Option-cases, Text, Time, Uuid,
  [], arith, inl, inr, lookup, lookup-snoc, refl, some, true, ◌++◌, ◌∷◌, ◌≡◌,
}

module _ (e : Env) (add_torrent : Text → Text → Option Text) where
  -- The row that a submission writes.
  submit-wrote :
      (row : DownloadRequest) (reviewer : Uuid) (addr : Ip) (db : Db)
      → let out = submit e add_torrent row reviewer addr db in
        (out.2.download_requests ≡ (save_download out.1 db).download_requests)
        × (out.1.id ≡ row.id)
        × (out.1.user_id ≡ row.user_id)
        × (out.1.magnet ≡ row.magnet)
        × (out.1.target ≡ row.target)
  unfolding submit
  submit-wrote row reviewer addr db = elim (Bool-cases (present (savepath e row.target))) [
    | inr missing ↦ (ground arith, ground arith, ground arith, ground arith, ground arith)
    | inl there ↦ elim (Bool-cases (is_magnet row.magnet)) [
      | inr bad ↦ (ground arith, ground arith, ground arith, ground arith, ground arith)
      | inl good ↦ elim (Option-cases (add_torrent row.magnet (savepath e row.target))) [
        | inl taken ↦ (ground arith, ground arith, ground arith, ground arith, ground arith)
        | inr (reason, failed) ↦
            (ground arith, ground arith, ground arith, ground arith, ground arith)
      ]
    ]
  ]

  pending_row :
      (id : Uuid) (db : Db) (row : DownloadRequest)
      → pending_or_error id db ≡ ok row
      → (lookup download_key id db.download_requests ≡ some row) × (is_pending row.status ≡ true)
  unfolding pending_or_error
  pending_row id db row h = elim (Option-cases (lookup download_key id db.download_requests)) [
    | inl unknown ↦ let no : ⊥ = ground arith in elim no [ ]
    | inr (old, held) ↦ elim (Bool-cases (is_pending old.status)) [
      | inl waits ↦ (ground arith, ground arith)
      | inr reviewed ↦ let no : ⊥ = ground arith in elim no [ ]
    ]
  ]

  submit-KeepsReviewed :
      (id : Uuid) (row : DownloadRequest) (reviewer : Uuid) (addr : Ip) (db : Db)
      → lookup download_key id db.download_requests ≡ some row
      → is_pending row.status ≡ true
      → KeepsReviewed db (submit e add_torrent row reviewer addr db).2
  submit-KeepsReviewed id row reviewer addr db held waits =
      let out = submit e add_torrent row reviewer addr db in
      let (same, i, u, m, t) = submit-wrote row reviewer addr db in
      KeepsReviewed-put id row out.1 db out.2 held waits i u m t same

  unfoldable pub portal_route : AuthedRequest → PortalRequest → Ip → Db → PortalReply × Db
  portal_route authed (queues body id at) addr db = elim (read_download body) [
    | none ↦ (problem 422 (codes "must be a magnet:?xt=urn:btih: URI"), db)
    | some read ↦ create_download e add_torrent authed read id at addr db
  ]
  portal_route authed (approves id) addr db = approve_download e add_torrent authed id addr db
  portal_route authed (denies id) addr db = deny_download e authed id addr db

  approve-KeepsReviewed :
      (authed : AuthedRequest) (id : Uuid) (addr : Ip) (db : Db)
      → KeepsReviewed db (approve_download e add_torrent authed id addr db).1
  unfolding approve_download
  approve-KeepsReviewed authed id addr db = elim (Result-cases (pending_or_error id db)) [
    | inr (reply, refused) ↦ KeepsReviewed-same (ground arith)
    | inl (row, due) ↦
        let (held, waits) = pending_row id db row due in
        let done' = submit-KeepsReviewed id row authed.user.id addr db held waits in
        let out = submit e add_torrent row authed.user.id addr db in
        KeepsReviewed-trans done' (
          KeepsReviewed-same (elim (Option-cases out.0) [
            | inl fine ↦ ground arith
            | inr (reply, failed) ↦ ground arith
          ]))
  ]

  deny-KeepsReviewed :
      (authed : AuthedRequest) (id : Uuid) (addr : Ip) (db : Db)
      → KeepsReviewed db (deny_download e authed id addr db).1
  unfolding deny_download
  deny-KeepsReviewed authed id addr db = elim (Result-cases (pending_or_error id db)) [
    | inr (reply, refused) ↦ KeepsReviewed-same (ground arith)
    | inl (row, due) ↦
        let (held, waits) = pending_row id db row due in
        let row' = record row {
          status = denied;
          reviewed_by = some authed.user.id;
          reviewed_at = some e.utcnow;
        } in
        KeepsReviewed-put id row row' db (deny_download e authed id addr db).1 held waits refl refl
          refl refl (ground arith)
  ]

  -- A new request is under an id that no request has.
  create-KeepsReviewed :
      (authed : AuthedRequest) (body : DownloadRequestIn) (id : Uuid) (at : Time) (addr : Ip)
      (db : Db)
      → lookup download_key id db.download_requests ≡ none
      → KeepsReviewed db (create_download e add_torrent authed body id at addr db).1
  unfolding create_download
  create-KeepsReviewed authed body id at addr db fresh =
      let row : DownloadRequest = record {
        id = id;
        user_id = authed.user.id;
        magnet = body.magnet;
        target = body.target;
        status = pending;
        created_at = at;
        reviewed_by = none;
        reviewed_at = none;
        submitted_at = none;
        error = none;
      } in
      let queued =
        record_change authed.user.id "download_request" (some id) "create" null
          (obj (
            field (codes "target") (str (target_text row.target))
              (field (codes "magnet") (str (take_first 256 row.magnet)) end)))
          (record db { download_requests = db.download_requests ++ row ∷ [] }) in
      let added : KeepsReviewed db queued = KeepsReviewed-add row db queued refl in
      let held : lookup download_key id queued.download_requests ≡ some row =
        ground (arith, lookup-snoc download_key id row db.download_requests, ==_refl id) in
      elim (Bool-cases (is_admin_call authed)) [
        | inr user_tier ↦ KeepsReviewed-trans added (KeepsReviewed-same (ground arith))
        | inl admin_tier' ↦ KeepsReviewed-trans added (
            KeepsReviewed-trans (submit-KeepsReviewed id row authed.user.id addr queued held refl)
              (KeepsReviewed-same (ground arith)))
      ]

  -- Whatever is asked of the portal's queue, by anyone, and whatever qBittorrent answers: a request that was
  -- approved or denied stays as it was decided, and one that waits keeps its owner, its magnet and its target. New
  -- requests are under ids that are not in use.
  pub portal_route-KeepsReviewed :
      (authed : AuthedRequest) (request : PortalRequest) (addr : Ip) (db : Db)
      → ((body : DownloadRequestIn) (id : Uuid) (at : Time)
          → request ≡ queues body id at
          → lookup download_key id db.download_requests ≡ none)
      → KeepsReviewed db (portal_route authed request addr db).1
  unfolding portal_route
  portal_route-KeepsReviewed authed (queues body id at) addr db fresh =
      elim (Option-cases (read_download body)) [
        | inl bad ↦ KeepsReviewed-same (ground arith)
        | inr (read, good) ↦
            KeepsReviewed-trans
              (create-KeepsReviewed authed read id at addr db (fresh body id at refl))
              (KeepsReviewed-same (ground arith))
      ]
  portal_route-KeepsReviewed authed (approves id) addr db fresh =
      approve-KeepsReviewed authed id addr db
  portal_route-KeepsReviewed authed (denies id) addr db fresh = deny-KeepsReviewed authed id addr db
