-- ===== src/Audit/Shipping/Drained.antt =====
-- How far a round of audit/shipping.py moves the cursors.
use hyproxy.Store.Changes.{PolicyChange}
use hyproxy.Store.{AuthEvent}
use hyproxy.Audit.Shipping.{
  Cursors, ShipResult, Stream, Trails, audit_stream, auth_stream, batch, change_stream, is_deny_row,
  is_high_severity, rounds, send, ship, Numbered, insert_by_id, is_past, last_id, limit,
  order_by_id,
}
use hyproxy.Base.{
  false, map, some, true, ◌*◌, ◌+◌, ==_refl, Bool, Bool-cases, List, [], arith, count_where, filter,
  inl, inr, leb, length, refl, suc, zero, ℕ, ◌-◌, ◌<◌, ◌==◌, ◌∷◌, ◌≡◌, ◌≤◌,
}

module _ {A : Type 0} where
  count-insert :
      (p : Numbered A → Bool) (r : Numbered A) (ss : List (Numbered A))
      → count_where p (insert_by_id r ss) ≡ count_where p (r ∷ ss)
  unfolding insert_by_id
  count-insert p r [] = refl
  count-insert p r (s ∷ ss) = ground (arith, count-insert p r ss)

  count-order :
      (p : Numbered A → Bool) (rs : List (Numbered A))
      → count_where p (order_by_id rs) ≡ count_where p rs
  unfolding order_by_id
  count-order p [] = refl
  count-order p (r ∷ rs) = ground (arith, count-insert p r (order_by_id rs), count-order p rs)

  -- Strictly ascending ids, all above a bound.
  abbrev IsAscending : ℕ → List (Numbered A) → Type 0
  IsAscending lo [] = Unit
  IsAscending lo (r ∷ rs) = (lo < r.id) × IsAscending r.id rs

  abbrev has_number : ℕ → Numbered A → Bool
  has_number k r = r.id == k

  insert-IsAscending :
      (lo : ℕ) (r : Numbered A) (ss : List (Numbered A))
      → lo < r.id
      → count_where (has_number r.id) ss ≡ 0
      → IsAscending lo ss
      → IsAscending lo (insert_by_id r ss)
  unfolding insert_by_id
  insert-IsAscending lo r [] above new asc = (above, tt)
  insert-IsAscending lo r (s ∷ ss) above new asc = elim (Bool-cases (leb r.id s.id)) [
    | inl first ↦ rw first (above, (ground arith, asc.1))
    | inr later ↦ rw later (asc.0, insert-IsAscending s.id r ss (ground arith) (ground arith) asc.1)
  ]

  -- Each row of a table has a number of its own.
  abbrev pub HasOwnNumbers : List (Numbered A) → Type 0
  HasOwnNumbers rs = (k : ℕ) → count_where (has_number k) rs ≤ 1

  count-past :
      (p : Numbered A → Bool) (cursor : ℕ) (rs : List (Numbered A))
      → count_where p (filter (is_past cursor) rs) ≤ count_where p rs
  count-past p cursor [] = omega arith
  count-past p cursor (r ∷ rs) = ground (arith, count-past p cursor rs)

  order-IsAscending :
      (cursor : ℕ) (rs : List (Numbered A))
      → HasOwnNumbers rs
      → IsAscending cursor (order_by_id (filter (is_past cursor) rs))
  unfolding order_by_id
  order-IsAscending cursor [] own = tt
  order-IsAscending cursor (r ∷ rs) own = elim (Bool-cases (is_past cursor r)) [
    | inr shipped' ↦ rw shipped' (order-IsAscending cursor rs (λ k. ground (arith, own k)))
    | inl past ↦ rw past (
        insert-IsAscending cursor r (order_by_id (filter (is_past cursor) rs)) (ground arith)
          (ground (
            arith,
            own r.id,
            ==_refl r.id,
            count-order (has_number r.id) (filter (is_past cursor) rs),
            count-past (has_number r.id) cursor rs,
          ))
          (order-IsAscending cursor rs (λ k. ground (arith, own k))))
  ]

  all_past :
      (lo bound : ℕ) (rs : List (Numbered A))
      → lo ≤ bound
      → IsAscending bound rs
      → count_where (is_past lo) rs ≡ length rs
  all_past lo bound [] le asc = refl
  all_past lo bound (r ∷ rs) le asc = ground (arith, all_past lo r.id rs)

  last-above :
      (n lo : ℕ) (rs : List (Numbered A)) → IsAscending lo rs → lo ≤ last_id lo (limit n rs)
  unfolding last_id limit
  last-above zero lo rs asc = omega arith
  last-above (suc n) lo [] asc = omega arith
  last-above (suc n) lo (r ∷ rs) asc = ground (arith, last-above n r.id rs asc.1)

  -- What a batch leaves of an ascending list.
  left-after :
      (n lo : ℕ) (rs : List (Numbered A))
      → IsAscending lo rs
      → count_where (is_past (last_id lo (limit n rs))) rs ≡ length rs - n
  unfolding last_id limit
  left-after zero lo rs asc = ground (arith, all_past lo lo rs)
  left-after (suc n) lo [] asc = omega arith
  left-after (suc n) lo (r ∷ rs) asc =
      ground (arith, left-after n r.id rs asc.1, last-above n r.id rs asc.1)

  length-past :
      (cursor : ℕ) (rs : List (Numbered A))
      → length (filter (is_past cursor) rs) ≡ count_where (is_past cursor) rs
  length-past cursor [] = refl
  length-past cursor (r ∷ rs) = ground (arith, length-past cursor rs)

  past-past :
      (lo hi : ℕ) (rs : List (Numbered A))
      → lo ≤ hi
      → count_where (is_past hi) (filter (is_past lo) rs) ≡ count_where (is_past hi) rs
  past-past lo hi [] le = refl
  past-past lo hi (r ∷ rs) le = ground (arith, past-past lo hi rs)

  batch-leaves :
      (size cursor : ℕ) (rows : List (Numbered A))
      → HasOwnNumbers rows
      → count_where (is_past (last_id cursor (batch size cursor rows))) rows
        ≡ count_where (is_past cursor) rows - size
  batch-leaves size cursor rows own =
      let todo = filter (is_past cursor) rows in
      let asc = order-IsAscending cursor rows own in
      let at = last_id cursor (batch size cursor rows) in
      ground (
        arith,
        left-after size cursor (order_by_id todo) asc,
        past-past cursor at rows (last-above size cursor (order_by_id todo) asc),
        count-order (is_past at) todo,
        all_past cursor cursor (order_by_id todo) (omega arith) asc,
        count-order (is_past cursor) todo,
        past-past cursor cursor rows (omega arith),
      )

module _ (accepts : Stream → List ℕ → Bool)
    (up : (stream : Stream) (ids : List ℕ) → accepts stream ids ≡ true) where
  sent_all :
      {A : Type 0} (stream : Stream) (is_high : A → Bool) (cursor : ℕ) (rs : List (Numbered A))
      → send accepts stream is_high cursor rs
        ≡ some (length rs, count_where (λ x. is_high x.row) rs, last_id cursor rs)
  unfolding send last_id
  sent_all stream is_high cursor [] = refl
  sent_all stream is_high cursor (r ∷ rs) = rw (up stream (map (λ x. x.id) (r ∷ rs))) refl

  abbrev next_cursors : ℕ → Trails → Cursors → Cursors
  next_cursors size t c = record {
    auth_cursor = last_id c.auth_cursor (batch size c.auth_cursor t.auth_rows);
    audit_cursor = last_id c.audit_cursor (batch size c.audit_cursor t.audit_rows);
    change_cursor = last_id c.change_cursor (batch size c.change_cursor t.change_rows);
  }

  ship-moves :
      (size : ℕ) (t : Trails) (c : Cursors)
      → (result : ShipResult) × (ship accepts size t c ≡ some (result, next_cursors size t c))
  unfolding ship
  ship-moves size t c =
      let a = batch size c.auth_cursor t.auth_rows in
      let b = batch size c.audit_cursor t.audit_rows in
      let p = batch size c.change_cursor t.change_rows in
      let high_auth = λ (e : AuthEvent). is_high_severity e.event_type in
      (
        record {
          shipped =
              (auth_stream, length a) ∷ (audit_stream, length b) ∷ (change_stream, length p) ∷ [];
          high_severity =
              count_where (λ x. high_auth x.row) a
              + count_where (λ x. is_deny_row x.row) b
              + count_where (λ (x : Numbered PolicyChange). false) p;
        },
        rw
            (
              ship,
              sent_all auth_stream high_auth c.auth_cursor a,
              sent_all audit_stream is_deny_row c.audit_cursor b,
              sent_all change_stream (λ (x : PolicyChange). false) c.change_cursor p,
            )
            refl,
      )

  -- While the sink takes what it is sent and no row is added, each round ships a batch of every trail, so that as
  -- many rounds as the longest backlog has batches leave nothing to ship. Each row has a number of its own.
  pub rounds-drain :
      (k size : ℕ) (t : Trails) (c : Cursors)
      → HasOwnNumbers t.auth_rows
      → HasOwnNumbers t.audit_rows
      → HasOwnNumbers t.change_rows
      → count_where (is_past c.auth_cursor) t.auth_rows ≤ k * size
      → count_where (is_past c.audit_cursor) t.audit_rows ≤ k * size
      → count_where (is_past c.change_cursor) t.change_rows ≤ k * size
      → let end_state = rounds accepts k size t c in
        (count_where (is_past end_state.auth_cursor) t.auth_rows ≡ 0)
        × (count_where (is_past end_state.audit_cursor) t.audit_rows ≡ 0)
        × (count_where (is_past end_state.change_cursor) t.change_rows ≡ 0)
  unfolding rounds
  rounds-drain zero size t c o1 o2 o3 h1 h2 h3 = (ground arith, ground arith, ground arith)
  rounds-drain (suc k) size t c o1 o2 o3 h1 h2 h3 =
      let (result, moved) = ship-moves size t c in
      let b1 = batch-leaves size c.auth_cursor t.auth_rows o1 in
      let b2 = batch-leaves size c.audit_cursor t.audit_rows o2 in
      let b3 = batch-leaves size c.change_cursor t.change_rows o3 in
      rw (rounds, moved)
        (rounds-drain k size t (next_cursors size t c) o1 o2 o3 (ground arith) (ground arith)
          (ground arith))
