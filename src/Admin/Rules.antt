-- ===== src/Admin/Rules.antt =====
-- admin/routes/policies.py, roles.py and user_roles.py: who may reach what. The ids are drawn outside.
pub mod Effects
use hyproxy.Policy.Engine.{allow, deny}
use hyproxy.Store.Accounts.{Role, UserRole}
use hyproxy.Idp.Request.{AuthedRequest}
use hyproxy.Policy.Engine.{Action}
use hyproxy.Admin.Deps.{HttpException, http_error}
use hyproxy.Store.{Db, get_user}
use hyproxy.Admin.Targets.{get_resource, set_or}
use hyproxy.Store.Access.{Policy}
use hyproxy.Admin.Changes.{items, numbers, one_field, record_change}
use hyproxy.Settings.{Env}
use hyproxy.Json.{Fields, Json, arr, bool, end, field, null, obj, str}
use hyproxy.Base.{
  Bool, List, Option, Result, String, Text, Uuid, [], any, codes, filter, if◌then◌else◌, is_some,
  lookup, none, not, ok, put, raise_if, some, text_eq, ℕ, ◌&&◌, ◌++◌, ◌==◌, ◌>>=◌, ◌>>◌, ◌||◌, ◌∷◌,
}

abbrev pub action_text : Action → Text
action_text allow = codes "allow"
action_text deny = codes "deny"

abbrev pub ports_json : Option (List ℕ) → Json
ports_json none = null
ports_json (some ports) = arr (numbers ports)

abbrev pub paths_json : Option (List Text) → Json
paths_json none = null
paths_json (some paths) = arr (items paths)

abbrev pub get_role : Uuid → Db → Option Role
get_role id db = lookup (λ (r : Role). r.id) id db.roles

abbrev pub get_policy : Uuid → Db → Option Policy
get_policy id db = lookup (λ (p : Policy). p.id) id db.policies

-- `raise HTTPException(404)` where a row is missing
abbrev pub or_404 : {A : Type 0} → String → Option A → Result HttpException A
or_404 detail none = http_error 404 (codes detail)
or_404 detail (some a) = ok a

pub record PolicyPatch : Type 0 where
  pub action : Option Action
  pub allowed_ports : Option (Option (List ℕ))
  pub allowed_paths : Option (Option (List Text))
  pub conditions_json : Option Fields
  pub enabled : Option Bool

-- What `setattr` writes for the fields of a patch that are set.
abbrev pub patched_policy : Policy → PolicyPatch → Policy
patched_policy row body = record row {
  action = set_or body.action row.action;
  allowed_ports = set_or body.allowed_ports row.allowed_ports;
  allowed_paths = set_or body.allowed_paths row.allowed_paths;
  conditions_json = set_or body.conditions_json row.conditions_json;
  enabled = set_or body.enabled row.enabled;
}

-- ON DELETE CASCADE
unfoldable pub cascade_role : Uuid → Db → Db
cascade_role id db = record db {
  roles = filter (λ (r : Role). not (r.id == id)) db.roles;
  user_roles = filter (λ (u : UserRole). not (u.role_id == id)) db.user_roles;
  policies = filter (λ (p : Policy). not (p.role_id == id)) db.policies;
}

unfoldable pub create_role :
    AuthedRequest → Text → Option Text → Uuid → Db → Result HttpException (Role × Db)
create_role authed name description id db = do
  raise_if (any (λ (r : Role). text_eq r.name name) db.roles)
      (record { status_code = 409; detail = codes "role name exists" })
  let role : Role = record { id = id; name = name; description = description }
  ok (
    role,
    record_change authed.user.id "role" (some id) "create" null (one_field "name" (str name))
        (record db { roles = db.roles ++ role ∷ [] }),
  )

unfoldable pub delete_role : AuthedRequest → Uuid → Db → Result HttpException (Unit {0} × Db)
delete_role authed id db = do
  role ← or_404 "role not found" (get_role id db)
  ok (
    tt,
    record_change authed.user.id "role" (some id) "delete" (one_field "name" (str role.name)) null
        (cascade_role id db),
  )

abbrev pub is_assigned : Uuid → Uuid → UserRole → Bool
is_assigned user role row = row.user_id == user && row.role_id == role

module _ (e : Env) where
  abbrev pub policy_snapshot : Policy → Json
  policy_snapshot p = obj (
      field (codes "role_id") (str (e.uuid_str p.role_id)) (
        field (codes "resource_id") (str (e.uuid_str p.resource_id)) (
          field (codes "action") (str (action_text p.action)) (
            field (codes "allowed_ports") (ports_json p.allowed_ports) (
              field (codes "allowed_paths") (paths_json p.allowed_paths) (
                field (codes "conditions_json") (obj p.conditions_json)
                  (field (codes "enabled") (bool p.enabled) end)))))))

  -- The policy that the body names; its id is the database's.
  unfoldable pub create_policy : AuthedRequest → Policy → Db → Result HttpException (Policy × Db)
  create_policy authed row db = do
    role ← or_404 "role not found" (get_role row.role_id db)
    resource ← or_404 "resource not found" (get_resource row.resource_id db)
    ok (
      row,
      record_change authed.user.id "policy" (some row.id) "create" null (policy_snapshot row)
          (record db { policies = db.policies ++ row ∷ [] }),
    )

  unfoldable pub patch_policy :
      AuthedRequest → Uuid → PolicyPatch → Db → Result HttpException (Policy × Db)
  patch_policy authed id body db = do
    row ← or_404 "policy not found" (get_policy id db)
    let row' = patched_policy row body
    ok (
      row',
      record_change authed.user.id "policy" (some id) "update" (policy_snapshot row)
          (policy_snapshot row')
          (record db { policies = put (λ (p : Policy). p.id) row' db.policies }),
    )

  unfoldable pub delete_policy : AuthedRequest → Uuid → Db → Result HttpException (Unit {0} × Db)
  delete_policy authed id db = do
    row ← or_404 "policy not found" (get_policy id db)
    ok (
      tt,
      record_change authed.user.id "policy" (some id) "delete" (policy_snapshot row) null
          (record db { policies = filter (λ (p : Policy). not (p.id == id)) db.policies }),
    )

  unfoldable pub attach_role :
      AuthedRequest → Uuid → Uuid → Db → Result HttpException (Unit {0} × Db)
  attach_role authed user role db =
      if not (is_some (get_user user db)) || not (is_some (get_role role db))
      then http_error 404 (codes "user or role not found")
      else if any (is_assigned user role) db.user_roles
      then ok (tt, db)
      else ok (
        tt,
        record_change authed.user.id "user_role" (some user) "create" null
            (one_field "role_id" (str (e.uuid_str role)))
            (record db {
              user_roles = db.user_roles ++ (record { user_id = user; role_id = role }) ∷ [];
            }),
      )

  unfoldable pub detach_role :
      AuthedRequest → Uuid → Uuid → Db → Result HttpException (Unit {0} × Db)
  detach_role authed user role db =
      if not (any (is_assigned user role) db.user_roles)
      then http_error 404 (codes "assignment not found")
      else ok (
        tt,
        record_change authed.user.id "user_role" (some user) "delete"
            (one_field "role_id" (str (e.uuid_str role))) null
            (record db { user_roles = filter (λ u. not (is_assigned user role u)) db.user_roles }),
      )
