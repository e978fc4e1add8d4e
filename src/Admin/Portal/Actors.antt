-- ===== src/Admin/Portal/Actors.antt =====
-- What admin/routes/portal.py writes to the change log, and what admin/routes/users.py makes of it.
use hyproxy.Admin.Users.Ended.{delete_user-actor}
use hyproxy.Admin.Users.{delete_user}
use hyproxy.Admin.Deps.{http_error, is_admin_call}
use hyproxy.Admin.Portal.{[], List, DownloadRequest, DownloadRequestIn, create_download, submit}
use hyproxy.Store.Changes.{PolicyChange}
use hyproxy.Idp.Request.{AuthedRequest}
use hyproxy.Settings.{Env}
use hyproxy.Store.Accounts.{User}
use hyproxy.Store.{Db, get_user}
use mathlib.Core.Path.{subst}
use hyproxy.Base.{
  [], ◌∷◌, ◌++◌, List, sym, ==_refl, any-append, Bool, Bool-cases, Ip, Option, Text, Time, Uuid,
  any, arith, codes, false, inl, inr, some, true, ◌==◌, ◌≡◌,
}

abbrev acted : Uuid → Db → Bool
acted id db = any (λ (c : PolicyChange). c.actor_id == id) db.policy_changes

any-last :
    (p : PolicyChange → Bool) (changes : List PolicyChange) (change : PolicyChange)
    → p change ≡ true
    → any p (changes ++ change ∷ []) ≡ true
any-last p changes change last = ground (arith, any-append p changes (change ∷ []), last)

module _ (e : Env) (add_torrent : Text → Text → Option Text) where
  submit-changes :
      (row : DownloadRequest) (reviewer : Uuid) (addr : Ip) (db : Db)
      → (submit e add_torrent row reviewer addr db).2.policy_changes ≡ db.policy_changes
  unfolding submit
  submit-changes row reviewer addr db = ground arith

  create_download-acted :
      (mine : AuthedRequest) (body : DownloadRequestIn) (id : Uuid) (at : Time) (addr : Ip)
      (db : Db)
      → acted mine.user.id (create_download e add_torrent mine body id at addr db).1 ≡ true
  unfolding create_download
  create_download-acted mine body id at addr db =
      let listed =
        any-last (λ (c : PolicyChange). c.actor_id == mine.user.id) db.policy_changes _
          (==_refl mine.user.id) in
      elim (Bool-cases (is_admin_call mine)) [
        | inl top ↦ rw top (
            subst (λ cs. any (λ (c : PolicyChange). c.actor_id == mine.user.id) cs ≡ true)
              (sym (submit-changes _ mine.user.id addr _)) listed)
        | inr plain ↦ rw plain listed
      ]

  -- A user whose request for a download was taken down, whatever came of it, is not deleted by anyone else: where
  -- they are still in the table and not the bootstrap administrator, DELETE is answered 500, from any address.
  pub delete_user-create_download :
      (mine other : AuthedRequest) (body : DownloadRequestIn) (id : Uuid) (at : Time)
      (addr from : Ip) (db : Db) (user : User)
      → let after = (create_download e add_torrent mine body id at addr db).1 in
        get_user mine.user.id after ≡ some user
        → (mine.user.id == other.user.id) ≡ false
        → user.is_protected ≡ false
        → delete_user e other mine.user.id from after
          ≡ http_error 500 (codes "Internal Server Error")
  delete_user-create_download mine other body id at addr from db user known distinct ordinary =
      delete_user-actor e other from (create_download e add_torrent mine body id at addr db).1
        mine.user.id user (create_download-acted mine body id at addr db) known distinct ordinary
