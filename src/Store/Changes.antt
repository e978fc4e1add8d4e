-- ===== src/Store/Changes.antt =====
-- db/models.py: the trail of the administrators' changes, and the download requests of the portal.
use hyproxy.Base.{Option, Uuid, Time, Text}
use hyproxy.Json.{Json}

-- A row of `policy_changes`: its column `change_json` is the object of `before` and `after`.
pub record PolicyChange : Type 0 where
  pub actor_id : Uuid
  pub entity_type : Text
  pub entity_id : Option Uuid
  pub action : Text
  pub before : Json
  pub after : Json

pub data DownloadTarget : Type 0 where
  shows movies : DownloadTarget

pub data DownloadStatus : Type 0 where
  pending approved denied : DownloadStatus

pub record DownloadRequest : Type 0 where
  pub id : Uuid
  pub user_id : Uuid
  pub magnet : Text
  pub target : DownloadTarget
  pub status : DownloadStatus
  pub created_at : Time
  pub reviewed_by : Option Uuid
  pub reviewed_at : Option Time
  pub submitted_at : Option Time
  pub error : Option Text
