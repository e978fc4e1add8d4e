-- ===== src/Authz/Decision.antt =====
-- authz/decision.py: the roles and the policies of a user and a resource, gathered for the engine.
pub mod Stability
use hyproxy.Base.{
  ℕ, Bool, true, false, not, ◌&&◌, ◌||◌, Option, none, some, List, [], ◌∷◌, ◌++◌, map, Text, codes,
  Uuid, Time, any, filter, find?, ltb, ◌==◌, is_some, if◌then◌else◌,
}
use hyproxy.Json.{Fields, get, truthy, has_other_key}
use hyproxy.Policy.Engine.{PolicyRule, Decision, is_deny, is_allow, mem_nat, port_allowed, evaluate}
use hyproxy.Store.{Db, Role, UserRole, Policy}

pub record AccessDecision : Type 0 where
  pub decision : Decision
  pub role_names : List Text
  pub host_stable : Bool

-- The rules that only the path and the time can keep from applying.
pub is_relevant : List Uuid → Uuid → ℕ → PolicyRule → Bool
unfolding port_allowed mem_nat
is_relevant role_ids resource_id port r =
    r.enabled
    && r.resource_id == resource_id
    && mem_nat r.role_id role_ids
    && port_allowed r.allowed_ports port

-- Whether the conditions hold a non-empty list of windows.
windowed : Fields → Bool
windowed conditions = elim (get (codes "time_windows") conditions) [
  | none ↦ false
  | some w ↦ truthy w
]

-- One round of the loop over the relevant rules: whether it returns True.
pub is_unconstrained : PolicyRule → Bool
unfolding windowed
is_unconstrained r =
    if not (is_allow r) || is_some r.allowed_paths
    then false
    else if windowed r.conditions
    then false
    else if has_other_key (codes "time_windows") r.conditions
    then false
    else true

unfoldable pub host_stable : List PolicyRule → Bool → List Uuid → Uuid → ℕ → Bool
unfolding is_relevant is_unconstrained
host_stable rules allowed role_ids resource_id port =
    if not allowed
    then false
    else (let relevant = filter (is_relevant role_ids resource_id port) rules in
        if any is_deny relevant then false else any is_unconstrained relevant)

-- `sorted` on texts, by insertion.
text_less : Text → Text → Bool
text_less [] [] = false
text_less [] (d ∷ t) = true
text_less (c ∷ s) [] = false
text_less (c ∷ s) (d ∷ t) = ltb c d || (c == d && text_less s t)

insert_sorted : Text → List Text → List Text
insert_sorted t [] = t ∷ []
insert_sorted t (s ∷ ss) = if text_less s t then s ∷ insert_sorted t ss else t ∷ s ∷ ss

pub sorted : List Text → List Text
unfolding insert_sorted text_less
sorted [] = []
sorted (t ∷ ts) = insert_sorted t (sorted ts)

abbrev with_role : Option Role → List Role → List Role
with_role none rest = rest
with_role (some role) rest = role ∷ rest

-- The join of the roles with the user's rows of `user_roles`.
unfoldable pub roles_from : Uuid → List Role → List UserRole → List Role
roles_from user_id roles [] = []
roles_from user_id roles (ur ∷ urs) =
    let rest = roles_from user_id roles urs in
    if ur.user_id == user_id
    then with_role (find? (λ (r : Role). r.id == ur.role_id) roles) rest
    else rest

unfoldable pub role_rows : Uuid → Db → List Role
unfolding roles_from
role_rows user_id db = roles_from user_id db.roles db.user_roles

abbrev pub to_rule : Policy → PolicyRule
to_rule p = record {
  role_id = p.role_id;
  resource_id = p.resource_id;
  action = p.action;
  allowed_ports = p.allowed_ports;
  allowed_paths = p.allowed_paths;
  conditions = p.conditions_json;
  enabled = p.enabled;
}

unfoldable pub rules_for : Uuid → Db → List PolicyRule
rules_for resource_id db =
    map to_rule (filter (λ (p : Policy). p.resource_id == resource_id) db.policies)

unfoldable pub evaluate_access : Db → Uuid → Uuid → ℕ → Text → Time → AccessDecision
unfolding role_rows rules_for sorted
evaluate_access db user_id resource_id port path now =
    let found = role_rows user_id db in
    let role_ids = map (λ (r : Role). r.id) found in
    let rules = rules_for resource_id db in
    let decision = evaluate rules role_ids resource_id port path now in
    record {
      decision = decision;
      role_names = sorted (map (λ (r : Role). r.name) found);
      host_stable = host_stable rules decision.allowed role_ids resource_id port;
    }
