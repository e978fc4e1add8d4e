-- ===== src/Admin/Changes.antt =====
-- admin/changes.py, and the JSON that the change log holds.
use hyproxy.Base.{none, some}
use hyproxy.Store.Changes.{PolicyChange}
use hyproxy.Json.{end, Items, Json, cons, field, nil, null, num, obj, str}
use hyproxy.Store.{Db}
use hyproxy.Base.{List, Option, String, Text, Uuid, [], after, before, codes, some, ℕ, ◌++◌, ◌∷◌}

abbrev pub text : String → Json
text s = str (codes s)

abbrev pub or_null : Option Text → Json
or_null none = null
or_null (some t) = str t

unfoldable pub items : List Text → Items
items [] = nil
items (t ∷ ts) = cons (str t) (items ts)

unfoldable pub numbers : List ℕ → Items
numbers [] = nil
numbers (n ∷ ns) = cons (num n) (numbers ns)

abbrev pub one_field : String → Json → Json
one_field k v = obj (field (codes k) v end)

abbrev pub record_change : Uuid → String → Option Uuid → String → Json → Json → Db → Db
record_change actor entity id action before after db =
    let change : PolicyChange = record {
      actor_id = actor;
      entity_type = codes entity;
      entity_id = id;
      action = codes action;
      before = before;
      after = after;
    } in
    record db { policy_changes = db.policy_changes ++ change ∷ [] }
