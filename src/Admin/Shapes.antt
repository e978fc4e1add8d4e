-- ===== src/Admin/Shapes.antt =====
-- admin/schemas.py: what the bodies of the requests on resources have to look like. The bounds on the
-- lengths of single fields are declared there for the library that reads a body, and are left out.
use hyproxy.Settings.{Env}
use hyproxy.Admin.Deps.{present}
use hyproxy.Store.Access.{Protocol, http, https, rdp, rtsp, ssh, vnc}
use hyproxy.Policy.Glob.{PatternError, validate_patterns}
use hyproxy.Json.{end, Fields, field}
use hyproxy.Base.{
  Bool, List, Option, Result, Text, [], drop_while_end, err, false, if◌then◌else◌, is_some, leb,
  length, ltb, none, not, ok, raise_if, some, split_on, strip, true, ℕ, ◌&&◌, ◌==◌, ◌>>=◌, ◌>>◌,
  ◌||◌, ◌∷◌,
}

pub data ShapeError : Type 0 where
  bad_host_length bad_label hyphen_at_edge bad_character : ShapeError
  bad_paths : PatternError → ShapeError
  tunnel_with_host no_connection_details stored_rtsp_secret needless_connection : ShapeError
  not_http no_public_host no_public_paths : ShapeError

abbrev pub is_guac : Protocol → Bool
is_guac vnc = true
is_guac rdp = true
is_guac ssh = true
is_guac _ = false

abbrev pub is_rtsp : Protocol → Bool
is_rtsp rtsp = true
is_rtsp _ = false

abbrev pub is_tunnel : Protocol → Bool
is_tunnel p = is_guac p || is_rtsp p

abbrev pub is_http : Protocol → Bool
is_http http = true
is_http https = true
is_http _ = false

-- `bool(v)`, of a text or a list that may be missing
abbrev pub filled : Option Text → Bool
filled none = false
filled (some t) = present t

abbrev pub has_items : Option (List Text) → Bool
has_items none = false
has_items (some []) = false
has_items (some (p ∷ ps)) = true

unfoldable pub last_of : ℕ → Text → ℕ
last_of c [] = c
last_of c (d ∷ t) = last_of d t

module _ (e : Env) where
  abbrev host_character : ℕ → Bool
  host_character c = c == b'-' || e.isdigit c || (leb b'a' c && leb c b'z')

  unfoldable pub all_host_characters : Text → Bool
  all_host_characters [] = true
  all_host_characters (c ∷ t) = host_character c && all_host_characters t

  unfoldable pub check_label : Text → Result ShapeError (Unit {0})
  check_label [] = err bad_label
  check_label (c ∷ t) =
      if ltb 63 (length (c ∷ t))
      then err bad_label
      else if c == b'-' || last_of c t == b'-'
      then err hyphen_at_edge
      else if not (all_host_characters (c ∷ t))
      then err bad_character
      else ok tt

  unfoldable pub check_labels : List Text → Result ShapeError (Unit {0})
  check_labels [] = ok tt
  check_labels (l ∷ ls) = check_label l >>= λ u. check_labels ls

  unfoldable pub normalize_host : Text → Result ShapeError Text
  normalize_host v =
      let host = drop_while_end (λ c. c == b'.') (e.lower (strip v)) in
      if not (present host) || ltb 253 (length host)
      then err bad_host_length
      else check_labels (split_on b'.' host) >>= λ u. ok host

  unfoldable pub normalize_public_host : Option Text → Result ShapeError (Option Text)
  normalize_public_host none = ok none
  normalize_public_host (some v) = normalize_host v >>= λ host. ok (some host)

abbrev paths_error : Result PatternError (List Text) → Result ShapeError (Option (List Text))
paths_error (ok ps) = ok (some ps)
paths_error (err x) = err (bad_paths x)

unfoldable pub normalize_public_paths : Option (List Text) → Result ShapeError (Option (List Text))
normalize_public_paths none = ok none
normalize_public_paths (some ps) = paths_error (validate_patterns ps)

unfoldable pub check_public_shape :
    Bool → Protocol → Option Text → Option (List Text) → Result ShapeError (Unit {0})
check_public_shape public_access protocol public_host public_paths =
    if not public_access
    then ok tt
    else if not (is_http protocol)
    then err not_http
    else if not (filled public_host)
    then err no_public_host
    else if not (has_items public_paths)
    then err no_public_paths
    else ok tt

pub record ResourceConnectionIn : Type 0 where
  pub hostname : Text
  pub port : ℕ
  pub params : Fields
  pub secret_params : Option Fields

abbrev pub is_empty_object : Fields → Bool
is_empty_object end = true
is_empty_object (field k v d) = false

-- `bool(self.connection.secret_params)`
abbrev pub has_secrets : Option Fields → Bool
has_secrets none = false
has_secrets (some d) = not (is_empty_object d)

pub record ResourceCreate : Type 0 where
  pub name : Text
  pub protocol : Protocol
  pub public_host : Option Text
  pub host : Text
  pub ports : List ℕ
  pub path_prefix : Option Text
  pub description : Option Text
  pub enabled : Bool
  pub public_access : Bool
  pub public_paths : Option (List Text)
  pub connection : Option ResourceConnectionIn

unfoldable pub check_connection :
    Protocol → Option Text → Option ResourceConnectionIn → Result ShapeError (Unit {0})
check_connection protocol public_host none =
    if is_tunnel protocol
    then (if is_some public_host then err tunnel_with_host else err no_connection_details)
    else ok tt
check_connection protocol public_host (some c) =
    if not (is_tunnel protocol)
    then err needless_connection
    else if is_some public_host
    then err tunnel_with_host
    else if is_rtsp protocol && has_secrets c.secret_params
    then err stored_rtsp_secret
    else ok tt

unfoldable pub check_protocol_shape : ResourceCreate → Result ShapeError (Unit {0})
check_protocol_shape body = check_connection body.protocol body.public_host body.connection >>= λ u.
    check_public_shape body.public_access body.protocol body.public_host body.public_paths

-- A body of `POST /api/v1/resources` as the model reads it: the fields first, then the whole.
unfoldable pub read_create : Env → ResourceCreate → Result ShapeError ResourceCreate
read_create e body = do
  host ← normalize_public_host e body.public_host
  paths ← normalize_public_paths body.public_paths
  let read = record body { public_host = host; public_paths = paths }
  check_protocol_shape read
  ok read

-- The fields of a patch that are set. A null for a column that is NOT NULL is left out.
pub record ResourcePatch : Type 0 where
  pub name : Option Text
  pub public_host : Option (Option Text)
  pub host : Option Text
  pub ports : Option (List ℕ)
  pub path_prefix : Option (Option Text)
  pub description : Option (Option Text)
  pub enabled : Option Bool
  pub public_access : Option Bool
  pub public_paths : Option (Option (List Text))

abbrev read_field :
    {A : Type 0} → (A → Result ShapeError A) → Option A → Result ShapeError (Option A)
read_field read none = ok none
read_field read (some v) = read v >>= λ w. ok (some w)

unfoldable pub read_patch : Env → ResourcePatch → Result ShapeError ResourcePatch
read_patch e body = do
  host ← read_field (normalize_public_host e) body.public_host
  paths ← read_field normalize_public_paths body.public_paths
  ok (record body { public_host = host; public_paths = paths })

pub record ResourceConnectionUpsert : Type 0 where
  pub protocol : Protocol
  pub hostname : Text
  pub port : ℕ
  pub params : Fields
  pub secret_params : Option Fields

unfoldable pub check_secrets : ResourceConnectionUpsert → Result ShapeError (Unit {0})
check_secrets body =
    raise_if (is_rtsp body.protocol && has_secrets body.secret_params) stored_rtsp_secret
