-- ===== src/Admin/Rules/Effects.antt =====
-- What the changes of admin/routes/policies.py and user_roles.py do to the decisions.
use mathlib.Core.Path.{subst}
use hyproxy.Admin.Rules.{deny, create_policy, get_role}
use hyproxy.Json.{end}
use hyproxy.Store.Access.{Policy}
use hyproxy.Store.Accounts.{Role}
use hyproxy.Admin.Targets.{get_resource}
use hyproxy.Authz.Decision.{evaluate_access, role_rows, rules_for, to_rule}
use hyproxy.Store.{Db}
use hyproxy.Idp.Passkeys.{refused}
use hyproxy.Policy.Engine.Verdicts.{denies, evaluate-any}
use hyproxy.Settings.{Env}
use hyproxy.Json.{get}
use hyproxy.Policy.Engine.{
  allow, Action, is_deny, path_allowed, port_allowed, PolicyRule, rule_applies, time_window_matches,
}
use hyproxy.Idp.Request.{AuthedRequest}
use hyproxy.Base.{
  ==_iff, ap, sym, ==_refl, Bool, Bool-cases, List, Option-cases, Text, Time, Uuid, [], any,
  any-append, any-filter, arith, false, filter, inl, inr, map, none, ok, refl, true, ℕ, ◌&&◌, ◌++◌,
  ◌==◌, ◌∙◌, ◌∷◌, ◌≡◌,
}

any-map :
    (p : PolicyRule → Bool) (ps : List Policy)
    → any p (map to_rule ps) ≡ any (λ (x : Policy). p (to_rule x)) ps
any-map p [] = refl
any-map p (x ∷ xs) = ground (arith, any-map p xs)

-- A policy that denies without ports, paths or times.
pub record IsFlatDeny (row : Policy) : Type 0 where
  pub denying : row.action ≡ deny
  pub on : row.enabled ≡ true
  pub any_port : row.allowed_ports ≡ none
  pub any_path : row.allowed_paths ≡ none
  pub any_time : row.conditions_json ≡ end

flat_rule :
    (r : PolicyRule) (roles : List Uuid) (id : Uuid) (port : ℕ) (path : Text) (now : Time)
    → r.enabled ≡ true
    → r.resource_id ≡ id
    → any (λ m. m == r.role_id) roles ≡ true
    → r.allowed_ports ≡ none
    → r.allowed_paths ≡ none
    → r.conditions ≡ end
    → rule_applies roles id port path now r ≡ true
unfolding rule_applies time_window_matches get
flat_rule r roles id port path now on mine has ports paths times =
    let clear : time_window_matches r.conditions now ≡ true =
      subst (λ c. time_window_matches c now ≡ true) (sym times) refl in
    let wide : port_allowed r.allowed_ports port ≡ true =
      subst (λ c. port_allowed c port ≡ true) (sym ports) refl in
    let deep : path_allowed r.allowed_paths path ≡ true =
      subst (λ c. path_allowed c path ≡ true) (sym paths) refl in
    ground (arith, (==_iff r.resource_id id).1 mine)

any-snoc :
    (p : Policy → Bool) (ps : List Policy) (x : Policy) → p x ≡ true → any p (ps ++ x ∷ []) ≡ true
any-snoc p ps x h = ground (arith, any-append p ps (x ∷ []))

denies-flat :
    (row : Policy) (roles : List Uuid) (port : ℕ) (path : Text) (now : Time)
    → IsFlatDeny row
    → any (λ m. m == row.role_id) roles ≡ true
    → denies roles row.resource_id port path now (to_rule row) ≡ true
denies-flat row roles port path now flat has =
    let applied =
      flat_rule (to_rule row) roles row.resource_id port path now flat.on refl has flat.any_port
        flat.any_path flat.any_time in
    let bad : is_deny (to_rule row) ≡ true =
      ap (λ (a : Action). elim a [ deny ↦ true | allow ↦ false ]) flat.denying in
    rw (applied, bad) refl

create_policy-adds :
    (e : Env) (authed : AuthedRequest) (row : Policy) (db : Db) (out : Policy × Db)
    → create_policy e authed row db ≡ ok out
    → out.1.policies ≡ db.policies ++ row ∷ []
unfolding create_policy
create_policy-adds e authed row db out k = elim (Option-cases (get_role row.role_id db)) [
  | inl none' ↦ let no : ⊥ = ground arith in elim no [ ]
  | inr (role, there) ↦ elim (Option-cases (get_resource row.resource_id db)) [
    | inl none' ↦ let no : ⊥ = ground arith in elim no [ ]
    | inr (resource, known) ↦ ground arith
  ]
]

-- An enabled policy that denies without ports, paths or times is in force at once: after it is created for a
-- role, no user with that role is let through to its resource, on any port and path, at any time, whatever else allows it.
pub create_policy-denies :
    (e : Env) (authed : AuthedRequest) (row : Policy) (db : Db) (out : Policy × Db)
    → IsFlatDeny row
    → create_policy e authed row db ≡ ok out
    → (user : Uuid) (port : ℕ) (path : Text) (now : Time)
    → any (λ m. m == row.role_id) (map (λ (r : Role). r.id) (role_rows user out.1)) ≡ true
    → (evaluate_access out.1 user row.resource_id port path now).decision.allowed ≡ false
unfolding evaluate_access rules_for
create_policy-denies e authed row db out flat k user port path now has =
    let roles = map (λ (r : Role). r.id) (role_rows user out.1) in
    let mine = λ (p : Policy). p.resource_id == row.resource_id in
    let bad = denies roles row.resource_id port path now in
    let added : out.1.policies ≡ db.policies ++ row ∷ [] =
      create_policy-adds e authed row db out k in
    let hit : any (λ (p : Policy). mine p && bad (to_rule p)) out.1.policies ≡ true = rw added (
      any-snoc (λ (p : Policy). mine p && bad (to_rule p)) db.policies row
        (rw (==_refl row.resource_id, denies-flat row roles port path now flat has) refl)) in
    let denied' : any bad (rules_for row.resource_id out.1) ≡ true =
      any-map bad (filter mine out.1.policies)
      ∙ any-filter (λ (p : Policy). bad (to_rule p)) mine out.1.policies
      ∙ hit in
    elim (Bool-cases (evaluate_access out.1 user row.resource_id port path now).decision.allowed) [
      | inr refused ↦ refused
      | inl let_through ↦
          let clear =
            ((evaluate-any roles row.resource_id port path now (rules_for row.resource_id out.1)).0
              let_through).0 in
          let no : ⊥ = ground arith in elim no [ ]
    ]
