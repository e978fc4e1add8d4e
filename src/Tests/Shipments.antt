-- ===== src/Tests/Shipments.antt =====
-- The theorem on the shipping of the trails, on three short ones.
use hyproxy.Store.{AuthEvent, login_break_glass_used}
use hyproxy.Audit.Shipping.Drained.{HasOwnNumbers, rounds-drain}
use hyproxy.Audit.Shipping.{
  send, limit, last_id, ship, insert_by_id, order_by_id, Cursors, Stream, Trails, is_past, rounds,
}
use hyproxy.Base.{Bool, List, [], arith, count_where, none, refl, some, true, ℕ, ◌∷◌, ◌≡◌}

abbrev login : AuthEvent
login = record {
  event_type = login_break_glass_used;
  user_id = some 7;
  session_id = none;
  client_id = none;
  source_ip = 9;
  success = true;
}

abbrev trails : Trails
trails = record {
  auth_rows = record { id = 5; row = login } ∷ record { id = 3; row = login } ∷ [];
  audit_rows = [];
  change_rows = [];
}

abbrev from_start : Cursors
from_start = record { auth_cursor = 0; audit_cursor = 0; change_cursor = 0 }

abbrev takes_it : Stream → List ℕ → Bool
takes_it stream ids = true

-- The lower number goes first, though its row stands second.
in_order : (rounds takes_it 1 1 trails from_start).auth_cursor ≡ 3
unfolding rounds ship send limit order_by_id insert_by_id last_id
in_order = refl

own_numbers : HasOwnNumbers trails.auth_rows
own_numbers k = ground arith

rounds-drain_example :
    (count_where (is_past (rounds takes_it 2 1 trails from_start).auth_cursor) trails.auth_rows ≡ 0)
    × (count_where (is_past (rounds takes_it 2 1 trails from_start).audit_cursor) trails.audit_rows
        ≡ 0)
    × (count_where
          (is_past (rounds takes_it 2 1 trails from_start).change_cursor)
          trails.change_rows
        ≡ 0)
rounds-drain_example =
    rounds-drain takes_it (λ stream ids. refl) 2 1 trails from_start own_numbers (λ k. omega arith)
      (λ k. omega arith) (omega arith) (omega arith) (omega arith)
