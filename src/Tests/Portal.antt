-- ===== src/Tests/Portal.antt =====
-- The theorems on the users' portal, at the small deployment.
use hyproxy.Authz.Decision.{evaluate_access}
use hyproxy.Json.{get}
use hyproxy.Policy.Engine.{rule_applies, time_window_matches, evaluate}
use hyproxy.Tests.{reader, session, env, app}
use hyproxy.Tests.Administration.{office, ticket, by_boss}
use hyproxy.Store.Changes.{pending}
use hyproxy.Admin.Portal.Listed.{my_resources-complete}
use hyproxy.Idp.Request.{AuthedRequest}
use hyproxy.Store.{pending, Db}
use hyproxy.Admin.Portal.Passwords.{IsChanged, change_password-IsChanged}
use hyproxy.Admin.Portal.Reviews.{portal_route, portal_route-KeepsReviewed}
use hyproxy.Admin.Portal.Rows.{KeepsReviewed, approves}
use hyproxy.Store.Changes.{DownloadRequest, shows}
use hyproxy.Admin.Portal.Actors.{delete_user-create_download}
use hyproxy.Admin.Users.{delete_user}
use hyproxy.Admin.Deps.{http_error}
use hyproxy.Admin.Portal.{
  DownloadRequestIn, create_download, change_password, is_magnet, my_resources, problem,
}
use hyproxy.Base.{
  starts_with, Memᴰ, Option, Text, [], arith, codes, false, if◌then◌else◌, none, refl, some, true,
  ◌++◌, ◌∷◌, ◌≡◌,
}

abbrev by_reader : AuthedRequest
by_reader = record {
  session = session;
  user = reader;
  claims = record ticket { sid = b'i'; sub = codes "u7" };
}

abbrev link : Text
link = codes "magnet:?xt=urn:btih:0123456789abcdef0123456789abcdef01234567&dn=x"

abbrev wanted : DownloadRequest
wanted = record {
  id = 40;
  user_id = 7;
  magnet = link;
  target = shows;
  status = pending;
  created_at = 500;
  reviewed_by = none;
  reviewed_at = none;
  submitted_at = none;
  error = none;
}

abbrev queue : Db
queue = record office { download_requests = wanted ∷ [] }

abbrev takes_all : Text → Text → Option Text
takes_all magnet path = none

-- The links that the schema lets through, and one with a space.
link_fits : is_magnet link ≡ true
unfolding is_magnet starts_with
link_fits = refl

spaced_out : is_magnet (link ++ codes "& y") ≡ false
unfolding is_magnet starts_with
spaced_out = refl

portal_route-KeepsReviewed_example :
    KeepsReviewed queue (portal_route env takes_all by_boss (approves 40) 10 queue).1
portal_route-KeepsReviewed_example =
    portal_route-KeepsReviewed env takes_all by_boss (approves 40) 10 queue
      (λ body id at h. ground arith)

abbrev takes_magnets : Text → Text → Option Text
takes_magnets magnet path = if is_magnet magnet then none else some (codes "no magnet")

change_password-IsChanged_example :
    (env.verify_hash reader.password_hash [] ≡ true
      → IsChanged env by_reader
          (codes "new")
          office
          (change_password env by_reader [] (codes "new") 9 office).1)
    × (env.verify_hash reader.password_hash [] ≡ false
        → change_password env by_reader [] (codes "new") 9 office ≡ (
          problem 403 (codes "current password incorrect"),
          record office {
            auth_events = (change_password env by_reader [] (codes "new") 9 office).1.auth_events;
          },
        ))
change_password-IsChanged_example =
    change_password-IsChanged env by_reader [] (codes "new") 9 office reader refl refl

my_resources-complete_example : Memᴰ app (my_resources 7 office)
unfolding evaluate_access evaluate rule_applies time_window_matches get
my_resources-complete_example =
    my_resources-complete 7 2 443 (codes "/x") 1000 office app refl refl refl

abbrev asks : DownloadRequestIn
asks = record { magnet = link; target = shows }

abbrev asked_for : Db
asked_for = (create_download env takes_all by_reader asks 41 600 9 office).1

delete_user-create_download_example :
    delete_user env by_boss 7 10 asked_for ≡ http_error 500 (codes "Internal Server Error")
unfolding create_download
delete_user-create_download_example =
    delete_user-create_download env takes_all by_reader by_boss asks 41 600 9 10 office reader refl
      refl refl
