-- ===== src/Audit/Shipping.antt =====
-- audit/shipping.py: one batch of each trail past its cursor. A row is numbered by its table; of the record that
-- is made of it only the severity is read here.
pub mod Drained
use hyproxy.Store.Access.{denied}
use hyproxy.Store.Changes.{PolicyChange}
use hyproxy.Policy.Glob.{accepts}
use hyproxy.Store.{
  AuthEvent, AuthEventType, admin_totp_reset, login_break_glass_used, oidc_code_replay_detected,
  oidc_refresh_reuse_detected, session_stale_ip, stepup_failure,
}
use hyproxy.Store.Access.{AuditLog, allowed}
use hyproxy.Base.{
  Bool, List, Option, [], count_where, false, filter, if◌then◌else◌, leb, length, ltb, map, none,
  some, suc, true, zero, ℕ, ◌+◌, ◌∷◌,
}

pub record Numbered (A : Type 0) : Type 0 where
  pub id : ℕ
  pub row : A

pub data Stream : Type 0 where
  auth_stream audit_stream change_stream : Stream

-- `HIGH_SEVERITY`
abbrev pub is_high_severity : AuthEventType → Bool
is_high_severity login_break_glass_used = true
is_high_severity oidc_code_replay_detected = true
is_high_severity oidc_refresh_reuse_detected = true
is_high_severity session_stale_ip = true
is_high_severity stepup_failure = true
is_high_severity admin_totp_reset = true
is_high_severity _ = false

abbrev pub is_deny_row : AuditLog → Bool
is_deny_row row = elim row.decision [ allowed ↦ false | denied ↦ true ]

-- ORDER BY id, and LIMIT
module _ {A : Type 0} where
  unfoldable pub insert_by_id : Numbered A → List (Numbered A) → List (Numbered A)
  insert_by_id r [] = r ∷ []
  insert_by_id r (s ∷ ss) =
      let rest = insert_by_id r ss in if leb r.id s.id then r ∷ s ∷ ss else s ∷ rest

  unfoldable pub order_by_id : List (Numbered A) → List (Numbered A)
  order_by_id [] = []
  order_by_id (r ∷ rs) = insert_by_id r (order_by_id rs)

  unfoldable pub limit : ℕ → List (Numbered A) → List (Numbered A)
  limit zero rs = []
  limit (suc n) [] = []
  limit (suc n) (r ∷ rs) = r ∷ limit n rs

  unfoldable pub last_id : ℕ → List (Numbered A) → ℕ
  last_id cursor [] = cursor
  last_id cursor (r ∷ rs) = last_id r.id rs

  abbrev pub is_past : ℕ → Numbered A → Bool
  is_past cursor r = ltb cursor r.id

  abbrev pub batch : ℕ → ℕ → List (Numbered A) → List (Numbered A)
  batch size cursor rows = limit size (order_by_id (filter (is_past cursor) rows))

pub record Cursors : Type 0 where
  pub auth_cursor : ℕ
  pub audit_cursor : ℕ
  pub change_cursor : ℕ

pub record Trails : Type 0 where
  pub auth_rows : List (Numbered AuthEvent)
  pub audit_rows : List (Numbered AuditLog)
  pub change_rows : List (Numbered PolicyChange)

pub record ShipResult : Type 0 where
  pub shipped : List (Stream × ℕ)
  pub high_severity : ℕ

-- The sink, which takes the rows of a batch by their ids or fails.
module _ (accepts : Stream → List ℕ → Bool) where
  -- What is shipped of one trail, how much of that is of high severity, and its cursor then.
  unfoldable pub send :
      {A : Type 0} → Stream → (A → Bool) → ℕ → List (Numbered A) → Option (ℕ × ℕ × ℕ)
  send stream is_high cursor [] = some (0, 0, cursor)
  send stream is_high cursor (r ∷ rs) =
      if accepts stream (map (λ x. x.id) (r ∷ rs))
      then some
          (length (r ∷ rs), count_where (λ x. is_high x.row) (r ∷ rs), last_id cursor (r ∷ rs))
      else none

  abbrev pub ship_stream :
      {A : Type 0} → Stream → (A → Bool) → ℕ → ℕ → List (Numbered A) → Option (ℕ × ℕ × ℕ)
  ship_stream stream is_high size cursor rows = send stream is_high cursor (batch size cursor rows)

  -- None where the sink fails: the transaction is rolled back, and no cursor moves.
  unfoldable pub ship : ℕ → Trails → Cursors → Option (ShipResult × Cursors)
  ship size trails c =
      elim (ship_stream auth_stream (λ (e : AuthEvent). is_high_severity e.event_type) size
        c.auth_cursor trails.auth_rows) [
          | none ↦ none
          | some (n, high, at) ↦
              elim (ship_stream audit_stream is_deny_row size c.audit_cursor trails.audit_rows) [
                | none ↦ none
                | some (n', high', at') ↦
                    elim (ship_stream change_stream (λ (p : PolicyChange). false) size
                      c.change_cursor trails.change_rows) [
                        | none ↦ none
                        | some (n'', high'', at'') ↦ some (
                          record {
                            shipped =
                                (auth_stream, n) ∷ (audit_stream, n') ∷ (change_stream, n'') ∷ [];
                            high_severity = high + high' + high'';
                          },
                          record { auth_cursor = at; audit_cursor = at'; change_cursor = at'' },
                        )
                      ]
              ]
        ]

  -- `ship-logs` of cli.py, run again and again; a round that fails leaves the cursors.
  unfoldable pub rounds : ℕ → ℕ → Trails → Cursors → Cursors
  rounds zero size trails c = c
  rounds (suc k) size trails c =
      rounds k size trails (elim (ship size trails c) [ none ↦ c | some (result, c') ↦ c' ])
