-- ===== src/Admin/Resources/Coherent.antt =====
-- What the resources of the table keep over the changes of admin/routes/resources.py and connections.py.
-- A public resource is an http one with a host and paths; one that is not public has no password.
use hyproxy.Authz.PublicGate.{revoke_public_sessions}
use hyproxy.Idp.Authorize.{given}
use hyproxy.Store.{Db}
use hyproxy.Admin.Deps.{HttpException, http_error}
use hyproxy.Store.Access.{ResourceConnection, Resource}
use hyproxy.Idp.Request.{AuthedRequest}
use hyproxy.Settings.{Env}
use hyproxy.Admin.Shapes.{
  ResourceConnectionUpsert, ResourceCreate, ResourcePatch, ShapeError, check_connection,
  check_protocol_shape, check_public_shape, check_secrets, filled, has_items, is_http,
  normalize_public_host, normalize_public_paths, read_create, read_patch,
}
use hyproxy.Admin.Resources.{
  created, patch_host, set_public_password, create_resource, patch_resource, put_connection,
  rotate_public_password,
}
use hyproxy.Admin.Targets.{
  cascade_resource, flush_name, get_resource, grant_changed, load, merged, save_resource,
  delete_connection, delete_resource, validate_public_shape, without_password,
}
use hyproxy.Base.{
  All-append, All-find?, Option, Option-cases, some, sym, ◌++◌, All, All-update_where, Bool,
  Bool-cases, List, Result, Result-cases, Text, Uuid, [], arith, codes, err, filter, if◌then◌else◌,
  inl, inr, is_some, not, ok, put, true, ◌&&◌, ◌==◌, ◌>>=◌, ◌∷◌, ◌≡◌,
}
use mathlib.Core.Path.{subst}

abbrev pub is_coherent : Resource → Bool
is_coherent row =
    if row.public_access
    then is_http row.protocol && filled row.public_host && has_items row.public_paths
    else not (is_some row.public_password_hash)

abbrev pub AllCoherent : Db → Type 0
AllCoherent db = All (λ (r : Resource). is_coherent r ≡ true) db.resources

All-filtered :
    (p : Resource → Bool) (rs : List Resource)
    → All (λ (r : Resource). is_coherent r ≡ true) rs
    → All (λ (r : Resource). is_coherent r ≡ true) (filter p rs)
All-filtered p [] h = tt
All-filtered p (r ∷ rs) h = elim (Bool-cases (p r)) [
  | inl stays ↦ rw stays (h.0, All-filtered p rs h.1)
  | inr goes ↦ rw goes (All-filtered p rs h.1)
]

put-coherent :
    (row : Resource) (rs : List Resource)
    → is_coherent row ≡ true
    → All (λ (r : Resource). is_coherent r ≡ true) rs
    → All (λ (r : Resource). is_coherent r ≡ true) (put (λ (r : Resource). r.id) row rs)
put-coherent row rs fine h =
    All-update_where (λ (r : Resource). is_coherent r ≡ true) (λ (r : Resource). r.id == row.id)
      (λ r. row) rs (λ r old. fine) h

-- The bodies of admin/schemas.py that make a public resource are coherent ones.
check_protocol_shape-public :
    (body : ResourceCreate)
    → check_protocol_shape body ≡ ok tt
    → body.public_access ≡ true
    → (is_http body.protocol && filled body.public_host && has_items body.public_paths) ≡ true
unfolding check_protocol_shape check_public_shape
check_protocol_shape-public body h public =
    elim (Result-cases (check_connection body.protocol body.public_host body.connection)) [
      | inr (x, bad) ↦ ground arith
      | inl (u, good) ↦ ground arith
    ]

read_create-shape :
    (e : Env) (given body : ResourceCreate)
    → read_create e given ≡ ok body
    → check_protocol_shape body ≡ ok tt
unfolding read_create
read_create-shape e given body h = elim (Result-cases (normalize_public_host e given.public_host)) [
  | inr (x, bad) ↦ ground arith
  | inl (host, good) ↦ elim (Result-cases (normalize_public_paths given.public_paths)) [
    | inr (x, bad) ↦ ground arith
    | inl (paths, fine) ↦
        let read = record given { public_host = host; public_paths = paths } in
        elim (Result-cases (check_protocol_shape read)) [
          | inr (x, bad) ↦ ground arith
          | inl (u, shaped) ↦
              let same : read ≡ body = ground arith in
              subst (λ (b : ResourceCreate). check_protocol_shape b ≡ ok tt) same (ground arith)
        ]
  ]
]

-- The merged row of a patch, without the password where it is not public.
patched-coherent :
    (row : Resource) → validate_public_shape row ≡ ok tt → is_coherent (without_password row) ≡ true
unfolding validate_public_shape
patched-coherent row h = ground arith

-- The changes to resources and connections, with their arguments; the bodies are as they come.
pub data ResourceRequest : Type 0 where
  makes : ResourceCreate → Uuid → Uuid → Text → ResourceRequest
  edits : Uuid → ResourcePatch → ResourceRequest
  rotates : Uuid → Text → ResourceRequest
  removes : Uuid → ResourceRequest
  connects : Uuid → Uuid → ResourceConnectionUpsert → ResourceRequest
  disconnects : Uuid → ResourceRequest

-- A body that does not have its shape is answered 422.
abbrev pub read_body : {A : Type 0} → Result ShapeError A → Result HttpException A
read_body (ok body) = ok body
read_body (err x) = http_error 422 (codes "validation error")

abbrev pub done_with : {A : Type 0} → Result HttpException (A × Db) → Result HttpException Db
done_with (ok (a, db)) = ok db
done_with (err x) = err x

module _ (e : Env) (authed : AuthedRequest) where
  unfoldable pub resources_route : ResourceRequest → Db → Result HttpException Db
  resources_route (makes given id conn_id word) db = read_body (read_create e given) >>= λ body.
      done_with (create_resource e authed body id conn_id word db)
  resources_route (edits id given) db =
      read_body (read_patch e given) >>= λ patch. done_with (patch_resource e authed id patch db)
  resources_route (rotates id word) db = done_with (rotate_public_password e authed id word db)
  resources_route (removes id) db = done_with (delete_resource authed id db)
  resources_route (connects id conn_id body) db =
      read_body (check_secrets body) >>= λ u. done_with (put_connection e authed id conn_id body db)
  resources_route (disconnects id) db = done_with (delete_connection authed id db)

  create_resource-AllCoherent :
      (given body : ResourceCreate) (id conn_id : Uuid) (word : Text) (db : Db)
      (out : (Resource × Option Text) × Db)
      → read_create e given ≡ ok body
      → AllCoherent db
      → create_resource e authed body id conn_id word db ≡ ok out
      → AllCoherent out.1
  unfolding create_resource
  create_resource-AllCoherent given body id conn_id word db out read h k =
      let shaped = check_protocol_shape-public body (read_create-shape e given body read) in
      let row = created e body id word in
      let fine : is_coherent row ≡ true = ground (arith, shaped) in
      let rows : out.1.resources ≡ db.resources ++ row ∷ [] = elim (Option-cases body.connection) [
        | inl bare ↦ ground arith
        | inr (c, wired) ↦ ground arith
      ] in
      subst (All (λ (r : Resource). is_coherent r ≡ true)) (sym rows)
        (All-append (λ (r : Resource). is_coherent r ≡ true) db.resources (row ∷ []) h (fine, tt))

  -- What a granted patch read, and wrote in the table of resources.
  pub patch_resource-wrote :
      (id : Uuid) (patch : ResourcePatch) (db : Db) (out : Resource × Db)
      → patch_resource e authed id patch db ≡ ok out
      → (row : Resource) × (get_resource id db ≡ some row)
        × (patch_host e row patch.public_host db ≡ ok tt)
        × (validate_public_shape (merged row patch) ≡ ok tt)
        × (out.0 ≡ without_password (merged row patch))
        × (out.1.resources ≡ (save_resource out.0 db).resources)
        × (out.1.public_sessions
            ≡ (if grant_changed row (merged row patch) patch
                then (revoke_public_sessions e id db).1
                else db).public_sessions)
  unfolding patch_resource revoke_public_sessions
  patch_resource-wrote id patch db out k = elim (Option-cases (get_resource id db)) [
    | inl unknown ↦ let no : ⊥ = ground arith in elim no [ ]
    | inr (row, known) ↦ elim (Result-cases (patch_host e row patch.public_host db)) [
      | inr (x, bad) ↦ let no : ⊥ = ground arith in elim no [ ]
      | inl (u, fits_host) ↦ elim (Result-cases (validate_public_shape (merged row patch))) [
        | inr (x, bad) ↦ let no : ⊥ = ground arith in elim no [ ]
        | inl (u', shaped) ↦ elim (Result-cases (flush_name (merged row patch) db)) [
          | inr (x, bad) ↦ let no : ⊥ = ground arith in elim no [ ]
          | inl (u'', unique) ↦
              let made : out.0 ≡ without_password (merged row patch) = ground arith in
              (row, known, fits_host, shaped, made, ground arith, ground arith)
        ]
      ]
    ]
  ]

  patch_resource-AllCoherent :
      (id : Uuid) (patch : ResourcePatch) (db : Db) (out : Resource × Db)
      → AllCoherent db
      → patch_resource e authed id patch db ≡ ok out
      → AllCoherent out.1
  patch_resource-AllCoherent id patch db out h k =
      let (row, known, fits_host, shaped, made, rows, sessions') =
        patch_resource-wrote id patch db out k in
      let fine : is_coherent out.0 ≡ true =
        subst (λ (r : Resource). is_coherent r ≡ true) (sym made)
          (patched-coherent (merged row patch) shaped) in
      subst (All (λ (r : Resource). is_coherent r ≡ true)) (sym rows)
        (put-coherent out.0 db.resources fine h)

  rotate-AllCoherent :
      (id : Uuid) (word : Text) (db : Db) (out : Text × Db)
      → AllCoherent db
      → rotate_public_password e authed id word db ≡ ok out
      → AllCoherent out.1
  unfolding rotate_public_password revoke_public_sessions
  rotate-AllCoherent id word db out h k = elim (Option-cases (get_resource id db)) [
    | inl unknown ↦ let no : ⊥ = ground arith in elim no [ ]
    | inr (row, known) ↦
        let new = set_public_password e word row in
        let old : is_coherent row ≡ true =
          All-find? (λ (r : Resource). is_coherent r ≡ true) (λ (r : Resource). r.id == id)
            db.resources known h in
        let fine : is_coherent new ≡ true = ground arith in
        let rows : out.1.resources ≡ (save_resource new db).resources = ground arith in
        subst (All (λ (r : Resource). is_coherent r ≡ true)) (sym rows)
          (put-coherent new db.resources fine h)
  ]

  put_connection-AllCoherent :
      (id conn_id : Uuid) (body : ResourceConnectionUpsert) (db : Db)
      (out : ResourceConnection × Db)
      → AllCoherent db
      → put_connection e authed id conn_id body db ≡ ok out
      → AllCoherent out.1
  unfolding put_connection
  put_connection-AllCoherent id conn_id body db out h k = elim (Option-cases (get_resource id db)) [
    | inl unknown ↦ let no : ⊥ = ground arith in elim no [ ]
    | inr (row, known) ↦
        let new = record row { host = body.hostname; ports = body.port ∷ [] } in
        let old : is_coherent row ≡ true =
          All-find? (λ (r : Resource). is_coherent r ≡ true) (λ (r : Resource). r.id == id)
            db.resources known h in
        let rows : out.1.resources ≡ (save_resource new db).resources =
          elim (Option-cases (load id db)) [
            | inl first ↦ ground arith
            | inr (c, held) ↦ ground arith
          ] in
        subst (All (λ (r : Resource). is_coherent r ≡ true)) (sym rows)
          (put-coherent new db.resources old h)
  ]

  delete_connection-resources :
      (id : Uuid) (db : Db) (out : Unit {0} × Db)
      → delete_connection authed id db ≡ ok out
      → out.1.resources ≡ db.resources
  unfolding delete_connection
  delete_connection-resources id db out k = ground arith

  delete_resource-resources :
      (id : Uuid) (db : Db) (out : Unit {0} × Db)
      → delete_resource authed id db ≡ ok out
      → out.1.resources ≡ filter (λ (r : Resource). not (r.id == id)) db.resources
  unfolding delete_resource cascade_resource
  delete_resource-resources id db out k = ground arith

  -- Every change to resources and connections that is granted leaves a table in which each public resource is an
  -- http or https one with a host and at least one path, and no other resource has a password, if it found such a
  -- table.
  pub resources_route-AllCoherent :
      (request : ResourceRequest) (db db' : Db)
      → AllCoherent db
      → resources_route request db ≡ ok db'
      → AllCoherent db'
  unfolding resources_route
  resources_route-AllCoherent (makes given id conn_id word) db db' h k =
      elim (Result-cases (read_create e given)) [
        | inr (x, bad) ↦ let no : ⊥ = ground arith in elim no [ ]
        | inl (body, read) ↦
            elim (Result-cases (create_resource e authed body id conn_id word db)) [
              | inr (x, bad) ↦ let no : ⊥ = ground arith in elim no [ ]
              | inl (out, good) ↦
                  let same : out.1 ≡ db' = ground arith in
                  subst AllCoherent same
                    (create_resource-AllCoherent given body id conn_id word db out read h good)
            ]
      ]
  resources_route-AllCoherent (edits id given) db db' h k =
      elim (Result-cases (read_patch e given)) [
        | inr (x, bad) ↦ let no : ⊥ = ground arith in elim no [ ]
        | inl (patch, read) ↦ elim (Result-cases (patch_resource e authed id patch db)) [
          | inr (x, bad) ↦ let no : ⊥ = ground arith in elim no [ ]
          | inl (out, good) ↦
              let same : out.1 ≡ db' = ground arith in
              subst AllCoherent same (patch_resource-AllCoherent id patch db out h good)
        ]
      ]
  resources_route-AllCoherent (rotates id word) db db' h k =
      elim (Result-cases (rotate_public_password e authed id word db)) [
        | inr (x, bad) ↦ let no : ⊥ = ground arith in elim no [ ]
        | inl (out, good) ↦
            let same : out.1 ≡ db' = ground arith in
            subst AllCoherent same (rotate-AllCoherent id word db out h good)
      ]
  resources_route-AllCoherent (removes id) db db' h k =
      elim (Result-cases (delete_resource authed id db)) [
        | inr (x, bad) ↦ let no : ⊥ = ground arith in elim no [ ]
        | inl (out, good) ↦
            let same : out.1 ≡ db' = ground arith in
            subst AllCoherent same (
              subst (All (λ (r : Resource). is_coherent r ≡ true))
                (sym (delete_resource-resources id db out good))
                (All-filtered (λ (r : Resource). not (r.id == id)) db.resources h))
      ]
  resources_route-AllCoherent (connects id conn_id body) db db' h k =
      elim (Result-cases (check_secrets body)) [
        | inr (x, bad) ↦ let no : ⊥ = ground arith in elim no [ ]
        | inl (u, read) ↦ elim (Result-cases (put_connection e authed id conn_id body db)) [
          | inr (x, bad) ↦ let no : ⊥ = ground arith in elim no [ ]
          | inl (out, good) ↦
              let same : out.1 ≡ db' = ground arith in
              subst AllCoherent same (put_connection-AllCoherent id conn_id body db out h good)
        ]
      ]
  resources_route-AllCoherent (disconnects id) db db' h k =
      elim (Result-cases (delete_connection authed id db)) [
        | inr (x, bad) ↦ let no : ⊥ = ground arith in elim no [ ]
        | inl (out, good) ↦
            let same : out.1 ≡ db' = ground arith in
            subst AllCoherent same (
              subst (All (λ (r : Resource). is_coherent r ≡ true))
                (sym (delete_connection-resources id db out good)) h)
      ]
