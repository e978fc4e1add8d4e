-- ===== src/Admin/Resources.antt =====
-- admin/routes/resources.py and admin/routes/connections.py: the resources, their connections, and the
-- passwords of public ones. Ids, passwords and hashes' salts are drawn outside. The bodies are those that
-- admin/schemas.py lets through.
pub mod Coherent
pub mod Closed
use hyproxy.Admin.Targets.{
  is_other, connection_snapshot, flush_name, fresh_connection, get_resource_or_404, grant_changed,
  load, merged, param_names, resource_snapshot, save_resource, validate_public_shape,
  without_password,
}
use hyproxy.Settings.{Env}
use hyproxy.Store.{Db}
use hyproxy.Authz.PublicGate.{revoke_public_sessions}
use hyproxy.Store.Accounts.{}
use hyproxy.Admin.Deps.{HttpException, http_error}
use hyproxy.Idp.Request.{AuthedRequest}
use hyproxy.Admin.Changes.{items, numbers, or_null, record_change}
use hyproxy.Authz.Callback.{plain}
use hyproxy.Authz.Decision.{sorted}
use hyproxy.Json.{end, Fields, Json, arr, bool, field, null, num, obj, str}
use hyproxy.Admin.Shapes.{
  ResourceConnectionIn, ResourceConnectionUpsert, ResourceCreate, ResourcePatch, filled, has_items,
  is_http, is_tunnel,
}
use hyproxy.Store.Access.{
  GuacGrant, Policy, Protocol, PublicSession, Resource, ResourceConnection, RtspGrant, http, https,
  rdp, rtsp, ssh, tcp, vnc,
}
use hyproxy.Base.{
  Bool, List, Option, Result, Text, Uuid, [], any, codes, drop_while_end, false, filter, find?,
  if◌then◌else◌, is_some, lookup, none, not, ok, put, raise_if, some, strip, text_eq, true, ◌&&◌,
  ◌++◌, ◌==◌, ◌>>=◌, ◌>>◌, ◌||◌, ◌∷◌,
}

module _ (e : Env) where
  abbrev pub is_host : Text → Option Text → Bool
  is_host host none = false
  is_host host (some h) = text_eq (e.lower h) (e.lower host)

  unfoldable pub validate_public_host :
      Option Text → Option Uuid → Db → Result HttpException (Unit {0})
  validate_public_host none exclude db = ok tt
  validate_public_host (some host) exclude db =
      if text_eq host (drop_while_end (λ c. c == b'.') (e.lower (strip e.auth_host)))
      then http_error 409 (codes "public_host is reserved (auth host)")
      else if any (λ (r : Resource). is_host host r.public_host && is_other exclude r.id)
          db.resources
      then http_error 409 (codes "public_host already in use")
      else ok tt

  abbrev pub set_public_password : Text → Resource → Resource
  set_public_password word row = record row {
    public_password_hash = some (e.hash_password word);
    public_password_set_at = some e.utcnow;
  }

  -- `seal_secret_params` of guac/connections.py, on the row.
  abbrev pub with_secrets : Fields → ResourceConnection → ResourceConnection
  with_secrets params row = record row {
    key_id = some e.current_key_id;
    secret_ciphertext = some (e.seal (e.dump params));
    secret_keys = sorted (param_names params);
  }

  abbrev given_secrets : Option Fields → ResourceConnection → ResourceConnection
  given_secrets none row = row
  given_secrets (some end) row = record row {
    key_id = none;
    secret_ciphertext = none;
    secret_keys = [];
  }
  given_secrets (some (field k v d)) row = with_secrets (field k v d) row

  abbrev pub resource_of : ResourceCreate → Uuid → Resource
  resource_of body id = record {
    id = id;
    name = body.name;
    protocol = body.protocol;
    public_host = body.public_host;
    host = elim body.connection [ none ↦ body.host | some c ↦ c.hostname ];
    path_prefix = body.path_prefix;
    description = body.description;
    ports = elim body.connection [ none ↦ body.ports | some c ↦ c.port ∷ [] ];
    enabled = body.enabled;
    public_access = body.public_access;
    public_paths = body.public_paths;
    public_password_hash = none;
    public_password_set_at = none;
  }

  abbrev pub created : ResourceCreate → Uuid → Text → Resource
  created body id word =
      if body.public_access
      then set_public_password word (resource_of body id)
      else resource_of body id

  create_connection : Uuid → ResourceCreate → Uuid → Uuid → Option ResourceConnectionIn → Db → Db
  create_connection actor body id conn_id none db = db
  create_connection actor body id conn_id (some c) db =
      let plain : ResourceConnection = record {
        id = conn_id;
        resource_id = id;
        protocol = body.protocol;
        hostname = c.hostname;
        port = c.port;
        params_json = c.params;
        key_id = none;
        secret_ciphertext = none;
        secret_keys = [];
      } in
      let row = given_secrets c.secret_params plain in
      record_change actor "resource_connection" (some conn_id) "create" null
        (connection_snapshot row) (record db { connections = db.connections ++ row ∷ [] })

  unfoldable pub create_resource :
      AuthedRequest
      → ResourceCreate
      → Uuid
      → Uuid
      → Text
      → Db
      → Result HttpException ((Resource × Option Text) × Db)
  unfolding create_connection
  create_resource authed body id conn_id word db = do
    raise_if (any (λ (r : Resource). text_eq r.name body.name) db.resources)
        (record { status_code = 409; detail = codes "resource name exists" })
    validate_public_host body.public_host none db
    let row = created body id word
    let added =
        record_change authed.user.id "resource" (some id) "create" null (resource_snapshot row)
          (record db { resources = db.resources ++ row ∷ [] })
    ok (
      (row, if row.public_access then some word else none),
      create_connection authed.user.id body id conn_id body.connection added,
    )

  unfoldable pub patch_host : Resource → Option (Option Text) → Db → Result HttpException (Unit {0})
  patch_host row none db = ok tt
  patch_host row (some host) db =
      if is_some host && is_tunnel row.protocol
      then http_error 422
          (codes "tunnelled resources are reached via the portal and cannot have a public_host")
      else validate_public_host host (some row.id) db

  unfoldable pub patch_resource :
      AuthedRequest → Uuid → ResourcePatch → Db → Result HttpException (Resource × Db)
  patch_resource authed id patch db = do
    row ← get_resource_or_404 id db
    patch_host row patch.public_host db
    let new = merged row patch
    validate_public_shape new
    flush_name new db
    let closed = if grant_changed row new patch then (revoke_public_sessions e id db).1 else db
    let row' = without_password new
    ok (
      row',
      record_change authed.user.id "resource" (some id) "update" (resource_snapshot row)
          (resource_snapshot row') (save_resource row' closed),
    )

  unfoldable pub rotate_public_password :
      AuthedRequest → Uuid → Text → Db → Result HttpException (Text × Db)
  rotate_public_password authed id word db = do
    row ← get_resource_or_404 id db
    raise_if (not row.public_access)
        (record { status_code = 422; detail = codes "resource is not public" })
    let row' = set_public_password word row
    ok (
      word,
      record_change authed.user.id "resource" (some id) "rotate_public_password" null
          (obj (
            field (codes "public_password_set") (bool true)
              (field (codes "public_password_set_at") (num e.utcnow) end)))
          (save_resource row' (revoke_public_sessions e id db).1),
    )

  write_connection :
      Uuid
      → Uuid
      → Uuid
      → ResourceConnectionUpsert
      → Option ResourceConnection
      → Db
      → ResourceConnection × Db
  write_connection actor id conn_id body none db =
      let row = given_secrets body.secret_params (fresh_connection conn_id id body) in
      (
        row,
        record_change actor "resource_connection" (some row.id) "create" null
            (connection_snapshot row) (record db { connections = db.connections ++ row ∷ [] }),
      )
  write_connection actor id conn_id body (some old) db =
      let row = given_secrets body.secret_params (record old {
        protocol = body.protocol;
        hostname = body.hostname;
        port = body.port;
        params_json = body.params;
      }) in
      (
        row,
        record_change actor "resource_connection" (some row.id) "update" (connection_snapshot old)
            (connection_snapshot row)
            (record db { connections = put (λ (c : ResourceConnection). c.id) row db.connections }),
      )

  unfoldable pub put_connection :
      AuthedRequest
      → Uuid
      → Uuid
      → ResourceConnectionUpsert
      → Db
      → Result HttpException (ResourceConnection × Db)
  unfolding write_connection
  put_connection authed id conn_id body db = do
    resource ← get_resource_or_404 id db
    let synced = save_resource (record resource { host = body.hostname; ports = body.port ∷ [] }) db
    ok (write_connection authed.user.id id conn_id body (load id db) synced)
