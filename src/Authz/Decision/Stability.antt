-- ===== src/Authz/Decision/Stability.antt =====
-- Why the data plane may cache an allow decision for a whole host.
use hyproxy.Base.{
  ℕ, ◌≡◌, Bool, true, false, ◌&&◌, List, [], ◌∷◌, Text, Uuid, Time, any, arith, any-filter,
}
use hyproxy.Json.{Fields}
use hyproxy.Policy.Engine.{
  PolicyRule, is_deny, is_allow, path_allowed, time_window_matches, rule_applies, evaluate,
}
use hyproxy.Policy.Engine.Verdicts.{evaluate-any, denies, allows}
use hyproxy.Store.{Db, Role}
use hyproxy.Authz.Decision.{
  map, is_relevant, windowed, is_unconstrained, host_stable, evaluate_access, role_rows, rules_for,
}

any_mono {ℓ} :
    {A : Type ℓ} (p q : A → Bool) (xs : List A)
    → ((x : A) → p x ≡ true → q x ≡ true)
    → any p xs ≡ true
    → any q xs ≡ true
any_mono p q [] h e = e
any_mono p q (x ∷ xs) h e = ground (arith, h x, any_mono p q xs h)

module _ (roles : List Uuid) (resource : Uuid) (port : ℕ) (path : Text) (now : Time) where
  applies→relevant :
      (r : PolicyRule)
      → rule_applies roles resource port path now r ≡ true
      → is_relevant roles resource port r ≡ true
  unfolding rule_applies is_relevant
  applies→relevant r h = ground arith

  unwindowed :
      (conditions : Fields)
      → windowed conditions ≡ false
      → time_window_matches conditions now ≡ true
  unfolding windowed time_window_matches
  unwindowed conditions h = ground arith

  unconstrained→applies :
      (r : PolicyRule)
      → (is_relevant roles resource port r && is_unconstrained r) ≡ true
      → (rule_applies roles resource port path now r && is_allow r) ≡ true
  unfolding rule_applies is_relevant is_unconstrained path_allowed
  unconstrained→applies r h = ground (arith, unwindowed r.conditions)

  denies→relevant :
      (r : PolicyRule)
      → denies roles resource port path now r ≡ true
      → (is_relevant roles resource port r && is_deny r) ≡ true
  denies→relevant r h = ground (arith, applies→relevant r)

  not_true : {b : Bool} → (b ≡ true → ⊥) → b ≡ false
  not_true {b} h = ground arith

  only_allowed :
      (rules : List PolicyRule)
      → host_stable rules (evaluate rules roles resource port path now).allowed roles resource port
        ≡ true
      → host_stable rules true roles resource port ≡ true
  unfolding host_stable
  only_allowed rules h = ground arith

  -- A host-stable verdict is an allow for this path and this time, whatever they are.
  host_stable_sound :
      (rules : List PolicyRule)
      → host_stable rules true roles resource port ≡ true
      → (evaluate rules roles resource port path now).allowed ≡ true
  unfolding host_stable
  host_stable_sound rules h =
      let no_deny : any (λ r. is_relevant roles resource port r && is_deny r) rules ≡ false =
        ground (arith, any-filter is_deny (is_relevant roles resource port) rules) in
      let some_allow : any (λ r. is_relevant roles resource port r && is_unconstrained r) rules
          ≡ true =
        ground (
          arith,
          any-filter is_deny (is_relevant roles resource port) rules,
          any-filter is_unconstrained (is_relevant roles resource port) rules,
        ) in
      let denied : any (denies roles resource port path now) rules ≡ true → ⊥ = λ d. cc (
        no_deny,
        any_mono (denies roles resource port path now) _ rules (λ r e. denies→relevant r e) d,
      ) in
      (evaluate-any roles resource port path now rules).1 (
        not_true denied,
        any_mono _ (allows roles resource port path now) rules unconstrained→applies some_allow,
      )

-- When a decision is marked host-stable, the same user on the same resource and port is allowed for
-- every path and at every time, by the same tables.
pub host_stable-allows :
    (db : Db) (user resource : Uuid) (port : ℕ) (path path' : Text) (now now' : Time)
    → (evaluate_access db user resource port path now).host_stable ≡ true
    → (evaluate_access db user resource port path' now').decision.allowed ≡ true
unfolding evaluate_access
host_stable-allows db user resource port path path' now now' h =
    let roles = map (λ (r : Role). r.id) (role_rows user db) in
    let rules = rules_for resource db in
    host_stable_sound roles resource port path' now' rules
      (only_allowed roles resource port path now rules h)
