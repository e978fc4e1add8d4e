-- ===== src/Policy/Engine/Verdicts.antt =====
-- What the verdict of `evaluate` depends on.
use hyproxy.Base.{
  Uuid, Time, ℕ, ◌≡◌, ◌≢◌, ◌↔◌, Bool, true, false, ◌&&◌, List, Text, arith, any, any→Memᴰ, Memᴰ→any,
  any-eq-false, any-false→, any-filter, any-perm, Memᴰ, Permᴰ,
}
use hyproxy.Policy.Engine.{PolicyRule, allow, deny, is_deny, is_allow, rule_applies, evaluate}

module _ (roles : List Uuid) (resource : Uuid) (port : ℕ) (path : Text) (now : Time) where
  abbrev pub applies : PolicyRule → Bool
  applies = rule_applies roles resource port path now

  -- A rule of the list that applies, with a given action.
  abbrev pub denies : PolicyRule → Bool
  denies r = applies r && is_deny r

  abbrev pub allows : PolicyRule → Bool
  allows r = applies r && is_allow r

  pub evaluate-any :
      (rules : List PolicyRule)
      → ((evaluate rules roles resource port path now).allowed ≡ true)
        ↔ ((any denies rules ≡ false) × (any allows rules ≡ true))
  unfolding evaluate
  evaluate-any rules = (
    ground (arith, any-filter is_deny applies rules, any-filter is_allow applies rules),
    ground (arith, any-filter is_deny applies rules, any-filter is_allow applies rules),
  )

  -- Access is granted exactly when some rule of the list applies and allows, and no rule that
  -- applies denies.
  pub evaluate-allowed_iff :
      (rules : List PolicyRule)
      → ((evaluate rules roles resource port path now).allowed ≡ true) ↔ (
          ((r : PolicyRule) × Memᴰ r rules × (applies r ≡ true) × (r.action ≡ allow))
          × ((r : PolicyRule) → Memᴰ r rules → applies r ≡ true → r.action ≢ deny))
  evaluate-allowed_iff rules = (forward, backward)
    where
      forward :
          (evaluate rules roles resource port path now).allowed ≡ true
          → ((r : PolicyRule) × Memᴰ r rules × (applies r ≡ true) × (r.action ≡ allow))
            × ((r : PolicyRule) → Memᴰ r rules → applies r ≡ true → r.action ≢ deny)
      forward h =
          let (none_denies, some_allows) = (evaluate-any rules).0 h in
          let (r, m, e) = any→Memᴰ allows rules some_allows in
          (
            (r, m, ground arith, ground arith),
            λ q k a. ground (arith, any-false→ denies rules none_denies k),
          )

      backward :
          ((r : PolicyRule) × Memᴰ r rules × (applies r ≡ true) × (r.action ≡ allow))
            × ((r : PolicyRule) → Memᴰ r rules → applies r ≡ true → r.action ≢ deny)
          → (evaluate rules roles resource port path now).allowed ≡ true
      backward ((r, m, a, e), no_deny) = (evaluate-any rules).1 (
        any-eq-false denies rules (λ q k. ground (arith, no_deny q k)),
        Memᴰ→any allows rules m (ground arith),
      )

  -- The order in which the rules are read does not matter, neither to the verdict nor to its reason.
  pub evaluate-perm :
      {rules rules' : List PolicyRule}
      → Permᴰ rules rules'
      → evaluate rules roles resource port path now ≡ evaluate rules' roles resource port path now
  unfolding evaluate
  evaluate-perm {rules} {rules'} h = ground (
    arith,
    any-filter is_deny applies rules,
    any-filter is_allow applies rules,
    any-filter is_deny applies rules',
    any-filter is_allow applies rules',
    any-perm (λ x. applies x && is_deny x) h,
    any-perm (λ x. applies x && is_allow x) h,
  )
