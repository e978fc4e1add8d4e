-- ===== src/Admin/Portal/Magnets.antt =====
-- What qBittorrent is asked, in the submission and the approval of admin/routes/portal.py.
use hyproxy.Admin.Portal.Reviews.{portal_route}
use hyproxy.Idp.Passkeys.{refused}
use hyproxy.Idp.Request.{AuthedRequest}
use hyproxy.Store.{Db}
use hyproxy.Settings.{Env}
use hyproxy.Admin.Deps.{is_admin_call, present}
use hyproxy.Admin.Portal.{
  submit, approve_download, create_download, DownloadRequestIn, PortalReply, is_magnet,
  pending_or_error, read_download, row_out, savepath,
}
use hyproxy.Store.Changes.{DownloadRequest}
use hyproxy.Admin.Portal.Rows.{denies, PortalRequest, approves, queues}
use hyproxy.Base.{
  Bool-cases, Ip, Option, Option-cases, Result-cases, Text, Time, Uuid, ap, arith, inl, inr, none,
  refl, some, true, ◌≡◌,
}

module _ (e : Env) (f g : Text → Text → Option Text)
    (same : (m p : Text) → is_magnet m ≡ true → present p ≡ true → f m p ≡ g m p) where
  submit-same :
      (row : DownloadRequest) (reviewer : Uuid) (addr : Ip) (db : Db)
      → submit e f row reviewer addr db ≡ submit e g row reviewer addr db
  unfolding submit
  submit-same row reviewer addr db = elim (Bool-cases (present (savepath e row.target))) [
    | inr missing ↦ ground arith
    | inl there ↦ elim (Bool-cases (is_magnet row.magnet)) [
      | inr bad ↦ ground arith
      | inl good ↦ ground (arith, same row.magnet (savepath e row.target) good there)
    ]
  ]

  abbrev reply_of : Option PortalReply × DownloadRequest × Db → PortalReply × Db
  reply_of out = (elim out.0 [ none ↦ row_out out.1 | some reply ↦ reply ], out.2)

  create-same :
      (authed : AuthedRequest) (body : DownloadRequestIn) (id : Uuid) (at : Time) (addr : Ip)
      (db : Db)
      → create_download e f authed body id at addr db
        ≡ create_download e g authed body id at addr db
  unfolding create_download
  create-same authed body id at addr db = elim (Bool-cases (is_admin_call authed)) [
    | inr user_tier ↦ ground arith
    | inl admin_tier' ↦ rw admin_tier' (ap reply_of (submit-same _ authed.user.id addr _))
  ]

  approve-same :
      (authed : AuthedRequest) (id : Uuid) (addr : Ip) (db : Db)
      → approve_download e f authed id addr db ≡ approve_download e g authed id addr db
  unfolding approve_download
  approve-same authed id addr db = elim (Result-cases (pending_or_error id db)) [
    | inr (reply, refused) ↦ ground arith
    | inl (row, due) ↦ ground (arith, submit-same row authed.user.id addr db)
  ]

  -- qBittorrent is asked about nothing but a magnet link with a path to save it under: two of them that agree on
  -- those leave the portal with the same answers and the same database.
  pub portal_route-magnets :
      (authed : AuthedRequest) (request : PortalRequest) (addr : Ip) (db : Db)
      → portal_route e f authed request addr db ≡ portal_route e g authed request addr db
  unfolding portal_route
  portal_route-magnets authed (queues body id at) addr db =
      elim (Option-cases (read_download body)) [
        | inl bad ↦ ground arith
        | inr (read, good) ↦ ground (arith, create-same authed read id at addr db)
      ]
  portal_route-magnets authed (approves id) addr db = approve-same authed id addr db
  portal_route-magnets authed (denies id) addr db = refl
