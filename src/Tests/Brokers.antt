-- ===== src/Tests/Brokers.antt =====
-- The theorem on the grants of the brokers, at a concrete grant.
use hyproxy.Base.{none, some, true, false, [], ◌∷◌, ◌≡◌, refl, arith, codes}
use hyproxy.Tests.{env, digest}
use hyproxy.Store.{GuacGrant}
use hyproxy.Authz.Grants.{consume_grant}
use hyproxy.Authz.Grants.Once.{Attempt, attempt_all, consume_grant-once}

abbrev grant : GuacGrant
grant = record {
  token_hash = digest (codes "k");
  user_id = 7;
  resource_id = 2;
  connection_id = 1;
  source_ip = 9;
  expires_at = 5000;
  consumed_at = none;
}

abbrev first : Attempt
first = record { token = codes "k"; addr = 9; now = 1000; owner = some 7 }

abbrev again : Attempt
again = record { token = codes "k"; addr = 9; now = 1500; owner = none }

grant-taken : (consume_grant env (codes "k") 9 1000 (some 7) (grant ∷ [])).0 ≡ true
unfolding consume_grant
grant-taken = refl

consume_grant-once_example :
    (consume_grant env (codes "k") 9 1500 none (
      attempt_all env
        (again ∷ [])
        (consume_grant env (codes "k") 9 1000 (some 7) (grant ∷ [])).1)).0
    ≡ false
consume_grant-once_example =
    consume_grant-once env first again (again ∷ []) (grant ∷ []) (omega arith) grant-taken refl
