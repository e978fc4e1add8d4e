-- ===== src/Admin/Targets.antt =====
-- admin/routes/resources.py and connections.py: the rows, the guards on them, how a patch is merged, and what
-- needs no settings.
use hyproxy.Idp.Request.{AuthedRequest}
use hyproxy.Admin.Changes.{items, numbers, or_null, record_change}
use hyproxy.Store.{Db}
use hyproxy.Admin.Shapes.{ResourceConnectionUpsert, ResourcePatch, filled, has_items, is_http}
use hyproxy.Store.Access.{
  GuacGrant, Policy, Protocol, PublicSession, Resource, ResourceConnection, RtspGrant, http, https,
  rdp, rtsp, ssh, tcp, vnc,
}
use hyproxy.Json.{Fields, Json, arr, bool, end, field, null, num, obj, str}
use hyproxy.Admin.Deps.{HttpException, http_error}
use hyproxy.Base.{
  Bool, List, Option, Result, Text, Uuid, [], any, codes, false, filter, find?, if◌then◌else◌,
  is_some, lookup, none, not, ok, put, some, text_eq, true, ◌&&◌, ◌==◌, ◌>>=◌, ◌||◌, ◌∷◌,
}

abbrev pub protocol_text : Protocol → Text
protocol_text http = codes "http"
protocol_text https = codes "https"
protocol_text tcp = codes "tcp"
protocol_text vnc = codes "vnc"
protocol_text rdp = codes "rdp"
protocol_text ssh = codes "ssh"
protocol_text rtsp = codes "rtsp"

abbrev pub paths_or_none : Option (List Text) → Json
paths_or_none none = null
paths_or_none (some []) = null
paths_or_none (some (p ∷ ps)) = arr (items (p ∷ ps))

abbrev pub resource_snapshot : Resource → Json
resource_snapshot r = obj (
    field (codes "name") (str r.name) (
      field (codes "protocol") (str (protocol_text r.protocol)) (
        field (codes "public_host") (or_null r.public_host) (
          field (codes "host") (str r.host) (
            field (codes "ports") (arr (numbers r.ports)) (
              field (codes "path_prefix") (or_null r.path_prefix) (
                field (codes "enabled") (bool r.enabled) (
                  field (codes "public_access") (bool r.public_access) (
                    field (codes "public_paths") (paths_or_none r.public_paths) (
                      field (codes "public_password_set") (bool (is_some r.public_password_hash))
                        end))))))))))

abbrev pub get_resource : Uuid → Db → Option Resource
get_resource id db = lookup (λ (r : Resource). r.id) id db.resources

abbrev pub save_resource : Resource → Db → Db
save_resource row db = record db { resources = put (λ (r : Resource). r.id) row db.resources }

abbrev pub get_resource_or_404 : Uuid → Db → Result HttpException Resource
get_resource_or_404 id db = elim (get_resource id db) [
  | none ↦ http_error 404 (codes "resource not found")
  | some row ↦ ok row
]

unfoldable pub validate_public_shape : Resource → Result HttpException (Unit {0})
validate_public_shape row =
    if not row.public_access
    then ok tt
    else if not (is_http row.protocol)
    then http_error 422 (codes "public access is only available for http/https resources")
    else if not (filled row.public_host)
    then http_error 422 (codes "a public resource needs a public_host to be reached on")
    else if not (has_items row.public_paths)
    then http_error 422 (codes "a public resource needs at least one public path pattern")
    else ok tt

abbrev pub is_other : Option Uuid → Uuid → Bool
is_other none id = true
is_other (some own) id = not (id == own)

-- The object of a connection, as the change log holds it: the names of the secrets only.
abbrev pub connection_snapshot : ResourceConnection → Json
connection_snapshot row = obj (
    field (codes "protocol") (str (protocol_text row.protocol)) (
      field (codes "hostname") (str row.hostname) (
        field (codes "port") (num row.port) (
          field (codes "params") (obj row.params_json) (
            field (codes "secret_keys") (arr (items row.secret_keys))
              (field (codes "has_secret") (bool (is_some row.secret_ciphertext)) end))))))

unfoldable pub param_names : Fields → List Text
param_names end = []
param_names (field k v d) = k ∷ param_names d

-- What `setattr` writes for a field of a patch.
abbrev pub set_or {ℓ} : {A : Type ℓ} → Option A → A → A
set_or none old = old
set_or (some new) old = new

abbrev pub merged : Resource → ResourcePatch → Resource
merged row patch = record row {
  name = set_or patch.name row.name;
  public_host = set_or patch.public_host row.public_host;
  host = set_or patch.host row.host;
  ports = set_or patch.ports row.ports;
  path_prefix = set_or patch.path_prefix row.path_prefix;
  description = set_or patch.description row.description;
  enabled = set_or patch.enabled row.enabled;
  public_access = set_or patch.public_access row.public_access;
  public_paths = set_or patch.public_paths row.public_paths;
}

unfoldable pub same_texts : List Text → List Text → Bool
same_texts [] [] = true
same_texts [] (t ∷ ts) = false
same_texts (s ∷ ss) [] = false
same_texts (s ∷ ss) (t ∷ ts) = text_eq s t && same_texts ss ts

abbrev pub paths_list : Option (List Text) → List Text
paths_list none = []
paths_list (some ps) = ps

abbrev pub grant_changed : Resource → Resource → ResourcePatch → Bool
grant_changed old new patch =
    (old.public_access && not new.public_access)
    || (new.public_access
        && not (same_texts (paths_list new.public_paths) (paths_list old.public_paths)))
    || (old.public_access && is_some patch.enabled && not new.enabled)

-- Leave no usable password behind on a resource that is no longer public.
abbrev pub without_password : Resource → Resource
without_password row =
    if row.public_access
    then row
    else record row { public_password_hash = none; public_password_set_at = none }

-- ON DELETE CASCADE
unfoldable pub cascade_resource : Uuid → Db → Db
cascade_resource id db = record db {
  resources = filter (λ (r : Resource). not (r.id == id)) db.resources;
  connections = filter (λ (c : ResourceConnection). not (c.resource_id == id)) db.connections;
  guac_grants = filter (λ (g : GuacGrant). not (g.resource_id == id)) db.guac_grants;
  rtsp_grants = filter (λ (g : RtspGrant). not (g.resource_id == id)) db.rtsp_grants;
  policies = filter (λ (p : Policy). not (p.resource_id == id)) db.policies;
  public_sessions = filter (λ (s : PublicSession). not (s.resource_id == id)) db.public_sessions;
}

abbrev pub load : Uuid → Db → Option ResourceConnection
load resource_id db =
    find? (λ (c : ResourceConnection). c.resource_id == resource_id) db.connections

abbrev pub fresh_connection : Uuid → Uuid → ResourceConnectionUpsert → ResourceConnection
fresh_connection conn_id id body = record {
  id = conn_id;
  resource_id = id;
  protocol = body.protocol;
  hostname = body.hostname;
  port = body.port;
  params_json = body.params;
  key_id = none;
  secret_ciphertext = none;
  secret_keys = [];
}

unfoldable pub delete_resource : AuthedRequest → Uuid → Db → Result HttpException (Unit {0} × Db)
delete_resource authed id db = do
  row ← get_resource_or_404 id db
  ok (
    tt,
    record_change authed.user.id "resource" (some id) "delete" (resource_snapshot row) null
        (cascade_resource id db),
  )

unfoldable pub delete_connection : AuthedRequest → Uuid → Db → Result HttpException (Unit {0} × Db)
delete_connection authed id db = elim (load id db) [
  | none ↦ http_error 404 (codes "no connection configured")
  | some row ↦ ok (
    tt,
    record_change authed.user.id "resource_connection" (some row.id) "delete"
        (connection_snapshot row) null
        (record db {
          connections = filter (λ (c : ResourceConnection). not (c.id == row.id)) db.connections;
        }),
  )
]

-- `resources.name` is unique: the database refuses the name of another row.
unfoldable pub flush_name : Resource → Db → Result HttpException (Unit {0})
flush_name row db =
    if any (λ (r : Resource). text_eq r.name row.name && not (r.id == row.id)) db.resources
    then http_error 500 (codes "Internal Server Error")
    else ok tt
