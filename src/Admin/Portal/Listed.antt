-- ===== src/Admin/Portal/Listed.antt =====
-- The list of one's own resources, beside the decision engine.
-- A role that the join finds is one that a row of `user_roles` gives to the user.
use hyproxy.Store.{Db}
use hyproxy.Admin.Portal.{allows_action, listed, my_resources}
use hyproxy.Policy.Engine.Verdicts.{allows, evaluate-any}
use hyproxy.Admin.Targets.{get_resource}
use hyproxy.Store.Access.{Policy, Resource}
use hyproxy.Policy.Engine.{PolicyRule, rule_applies}
use hyproxy.Authz.Decision.{evaluate_access, role_rows, roles_from, rules_for, to_rule}
use hyproxy.Store.Accounts.{Role, UserRole}
use hyproxy.Base.{
  Bool, Memᴰ, Text, Time, any-filter, ap, filter, find?→Memᴰ, lookup-key, some, sym, ℕ, ◌∙◌,
  Bool-cases, List, Option-cases, Uuid, [], any, arith, find?, find?-holds, inl, inr, map, true,
  ◌&&◌, ◌==◌, ◌∷◌, ◌≡◌,
}

roles_from-assigned :
    (user id : Uuid) (roles : List Role) (urs : List UserRole)
    → any (λ i. i == id) (map (λ (r : Role). r.id) (roles_from user roles urs)) ≡ true
    → any (λ (u : UserRole). u.user_id == user && u.role_id == id) urs ≡ true
unfolding roles_from
roles_from-assigned user id roles [] h = ground arith
roles_from-assigned user id roles (ur ∷ urs) h = elim (Bool-cases (ur.user_id == user)) [
  | inr other ↦ ground (arith, roles_from-assigned user id roles urs)
  | inl mine ↦ elim (Option-cases (find? (λ (r : Role). r.id == ur.role_id) roles)) [
    | inl missing ↦ ground (arith, roles_from-assigned user id roles urs)
    | inr (role, there) ↦
        let same = find?-holds (λ (r : Role). r.id == ur.role_id) roles there in
        ground (arith, roles_from-assigned user id roles urs)
  ]
]

-- A rule of the decision engine is of a policy of the table.
rule_of :
    (p : PolicyRule → Bool) (ps : List Policy)
    → any p (map to_rule ps) ≡ true
    → any (λ (x : Policy). p (to_rule x)) ps ≡ true
rule_of p [] h = ground arith
rule_of p (x ∷ xs) h = ground (arith, rule_of p xs)

any-weaken :
    (p q : Policy → Bool) (ps : List Policy)
    → ((x : Policy) → p x ≡ true → q x ≡ true)
    → any p ps ≡ true
    → any q ps ≡ true
any-weaken p q [] h a = ground arith
any-weaken p q (x ∷ xs) h a = ground (arith, any-weaken p q xs h, h x)

Memᴰ-filter :
    (p : Resource → Bool) {r : Resource} (rs : List Resource)
    → Memᴰ r rs
    → p r ≡ true
    → Memᴰ r (filter p rs)
Memᴰ-filter p [] m h = elim m [ ]
Memᴰ-filter p {r} (x ∷ rs) (Memᴰ.head same) h = rw (ap p (sym same) ∙ h) (Memᴰ.head same)
Memᴰ-filter p {r} (x ∷ rs) (Memᴰ.tail m) h = elim (Bool-cases (p x)) [
  | inl stays ↦ rw stays (Memᴰ.tail (Memᴰ-filter p rs m h))
  | inr goes ↦ rw goes (Memᴰ-filter p rs m h)
]

applies-assigned :
    (user : Uuid) (id : Uuid) (port : ℕ) (path : Text) (now : Time) (db : Db) (p : Policy)
    → allows (map (λ (r : Role). r.id) (role_rows user db)) id port path now (to_rule p) ≡ true
    → (p.resource_id == id
        && allows_action p.action
        && p.enabled
        && any (λ (u : UserRole). u.user_id == user && u.role_id == p.role_id) db.user_roles)
      ≡ true
unfolding role_rows rule_applies
applies-assigned user id port path now db p h =
    ground (arith, roles_from-assigned user p.role_id db.roles db.user_roles)

-- What the decision engine lets a user reach on some port and path, at some time, is in the list that the portal
-- shows to them, if it is a resource of the table that is enabled.
pub my_resources-complete :
    (user id : Uuid) (port : ℕ) (path : Text) (now : Time) (db : Db) (r : Resource)
    → (evaluate_access db user id port path now).decision.allowed ≡ true
    → get_resource id db ≡ some r
    → r.enabled ≡ true
    → Memᴰ r (my_resources user db)
unfolding evaluate_access my_resources rules_for
my_resources-complete user id port path now db r granted known on =
    let roles = map (λ (x : Role). x.id) (role_rows user db) in
    let rules = rules_for id db in
    let some_rule = ((evaluate-any roles id port path now rules).0 granted).1 in
    let ps = filter (λ (p : Policy). p.resource_id == id) db.policies in
    let some_policy = rule_of (allows roles id port path now) ps some_rule in
    let there : r.id ≡ id = lookup-key (λ (x : Resource). x.id) id db.resources known in
    let reach =
      any-weaken (λ (p : Policy). p.resource_id == id && allows roles id port path now (to_rule p))
        (λ (p : Policy).
          p.resource_id == r.id
          && allows_action p.action
          && p.enabled
          && any (λ (u : UserRole). u.user_id == user && u.role_id == p.role_id) db.user_roles)
        db.policies (λ p h. ground (arith, applies-assigned user id port path now db p))
        (sym (
            any-filter (λ (p : Policy). allows roles id port path now (to_rule p))
              (λ (p : Policy). p.resource_id == id) db.policies)
          ∙ some_policy) in
    Memᴰ-filter (listed user db) db.resources
      (find?→Memᴰ (λ (x : Resource). x.id == id) db.resources known) (ground (arith, reach))
