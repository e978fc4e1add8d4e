-- ===== src/Authz/Callback/Once.antt =====
-- A state of the gateway's sign-in, authz/gateway.py, is good for one callback.
use hyproxy.Authz.Callback.Returned.{Backchannel-cases}
use hyproxy.Settings.{Env}
use hyproxy.Idp.Token.{AccessToken}
use hyproxy.Authz.Callback.{
  GatewayMessage, missing_code_or_state, sign_in_failed, exchanged, open_session, callback,
  Backchannel, GatewayDraws, IdToken, accept_tokens, delete_state, find_state, gateway_redirect_uri,
  plain, state_expired,
}
use hyproxy.Store.{Db}
use hyproxy.Store.Access.{GatewayLoginState}
use hyproxy.Base.{
  Bool-cases, List, Option-cases, ◌∷◌, Ip, Option, Text, Time, [], arith, false, find?, inl, inr,
  leb, lookup-filter, lookup-key, none, not, refl, some, sym, text_eq, ℕ, ◌<◌, ◌==◌, ◌||◌, ◌∙◌, ◌≡◌,
}
use mathlib.Core.Path.{subst}

abbrev hash_of : GatewayLoginState → ℕ
hash_of s = s.state_hash

module _ (e : Env) (exchange_code : Text → Text → Text → Db → Backchannel × Db) where
  accept_tokens-states :
      (draws : GatewayDraws) (row : GatewayLoginState) (a : Option AccessToken) (i : Option IdToken)
      (addr : Ip) (now : Time) (db : Db)
      → (accept_tokens e draws row a i addr now db).1.gateway_states ≡ db.gateway_states
  unfolding accept_tokens open_session
  accept_tokens-states draws row a i addr now db = ground arith

  -- The identity provider, on the other side of the exchange, leaves the states of the gateway alone.
  abbrev pub KeepsStates : Type 0
  KeepsStates =
      (code uri verifier : Text) (db : Db)
      → (exchange_code code uri verifier db).1.gateway_states ≡ db.gateway_states

  exchanged-states :
      (draws : GatewayDraws) (row : GatewayLoginState) (code : Text) (addr : Ip) (now : Time)
      (db : Db)
      → KeepsStates
      → (exchanged e exchange_code draws row code addr now db).1.gateway_states
        ≡ (delete_state row.state_hash db).gateway_states
  unfolding exchanged
  exchanged-states draws row code addr now db keeps =
      let before = delete_state row.state_hash db in
      let out = exchange_code code (gateway_redirect_uri e) row.code_verifier before in
      let kept_states = keeps code (gateway_redirect_uri e) row.code_verifier before in
      elim (Backchannel-cases out.0) [
        | inl down ↦ rw (down, exchanged) kept_states
        | inr (inl no_tokens) ↦ rw (no_tokens, exchanged) kept_states
        | inr (inr (a, i, good)) ↦
            rw (good, exchanged) (accept_tokens-states draws row a i addr now out.1 ∙ kept_states)
      ]

  -- What a browser brings back, and when.
  abbrev pub Return : Type 0
  Return = GatewayDraws × Text × Text × Text × Ip × Time

  pub callbacks : List Return → Db → Db
  callbacks [] db = db
  callbacks ((draws, code, state, failure, addr, now) ∷ rest) db =
      callbacks rest (callback e exchange_code draws code state failure addr now db).1

  -- A state that is gone does not come back.
  callback-gone :
      (h : ℕ) (draws : GatewayDraws) (code state failure : Text) (addr : Ip) (now : Time) (db : Db)
      → KeepsStates
      → find_state h db ≡ none
      → find_state h (callback e exchange_code draws code state failure addr now db).1 ≡ none
  unfolding callback
  callback-gone h draws code state failure addr now db keeps absent =
      elim (Bool-cases (text_eq failure [])) [
        | inr failed ↦ rw (failed) absent
        | inl fine ↦ elim (Bool-cases (text_eq code [] || text_eq state [])) [
          | inl missing ↦ rw (fine, missing) absent
          | inr sent ↦ elim (Option-cases (find_state (e.sha256_hex state) db)) [
            | inl unknown ↦ rw (fine, sent, unknown) absent
            | inr (row, stored) ↦
                elim (Bool-cases (leb row.expires_at now || not (row.source_ip == addr))) [
                  | inl stale ↦ rw (fine, sent, stored, stale) absent
                  | inr good ↦
                      rw (fine, sent, stored, good)
                        (subst
                          (λ ss. find? (λ (s : GatewayLoginState). s.state_hash == h) ss ≡ none)
                          (sym (exchanged-states draws row code addr now db keeps))
                          (ground (arith, lookup-filter hash_of h row db.gateway_states, absent)))
                ]
          ]
        ]
      ]

  callbacks-gone :
      (h : ℕ) (rs : List Return) (db : Db)
      → KeepsStates
      → find_state h db ≡ none
      → find_state h (callbacks rs db) ≡ none
  unfolding callbacks
  callbacks-gone h [] db keeps absent = absent
  callbacks-gone h ((draws, code, state, failure, addr, now) ∷ rest) db keeps absent =
      callbacks-gone h rest (callback e exchange_code draws code state failure addr now db).1 keeps
        (callback-gone h draws code state failure addr now db keeps absent)

  -- A callback with a state that is not stored is refused and changes nothing.
  callback-refused :
      (draws : GatewayDraws) (code state failure : Text) (addr : Ip) (now : Time) (db : Db)
      → find_state (e.sha256_hex state) db ≡ none
      → (m : GatewayMessage) × (callback e exchange_code draws code state failure addr now db
          ≡ (plain 400 m, db))
  unfolding callback
  callback-refused draws code state failure addr now db absent =
      elim (Bool-cases (text_eq failure [])) [
        | inr failed ↦ (sign_in_failed, rw (failed, callback) refl)
        | inl fine ↦ elim (Bool-cases (text_eq code [] || text_eq state [])) [
          | inl missing ↦ (missing_code_or_state, rw (fine, missing, callback) refl)
          | inr sent ↦ (state_expired, rw (fine, sent, absent, callback) refl)
        ]
      ]

  -- After a callback with a code and without an error, whose state was stored, in time and from its address,
  -- whatever the exchange of the code came to, and after any further callbacks: every callback with that state,
  -- whatever else it carries, is answered 400 and changes nothing. The identity provider is taken to leave the
  -- stored states alone.
  pub callback-once :
      (draws later_draws : GatewayDraws) (code again state failure : Text) (addr other : Ip)
      (now later : Time) (between : List Return) (db : Db) (row : GatewayLoginState)
      → KeepsStates
      → text_eq code [] ≡ false
      → text_eq state [] ≡ false
      → find_state (e.sha256_hex state) db ≡ some row
      → now < row.expires_at
      → row.source_ip ≡ addr
      → let after =
          callbacks between (callback e exchange_code draws code state [] addr now db).1 in
        (m : GatewayMessage) × (callback e exchange_code later_draws again state failure other later
            after
          ≡ (plain 400 m, after))
  unfolding callback exchanged text_eq
  callback-once draws later_draws code again state failure addr other now later between db row keeps
        c s stored in_time mine =
      let h = e.sha256_hex state in
      let open_state : (leb row.expires_at now || not (row.source_ip == addr)) ≡ false =
        ground arith in
      let first : callback e exchange_code draws code state [] addr now db
          ≡ exchanged e exchange_code draws row code addr now db =
        rw (callback, c, s, stored, open_state) refl in
      let own : row.state_hash ≡ h = lookup-key hash_of h db.gateway_states stored in
      let gone : find_state h (exchanged e exchange_code draws row code addr now db).1 ≡ none =
        subst (λ ss. find? (λ (s : GatewayLoginState). s.state_hash == h) ss ≡ none)
          (sym (exchanged-states draws row code addr now db keeps))
          (ground (arith, lookup-filter hash_of h row db.gateway_states)) in
      callback-refused later_draws again state failure other later
        (callbacks between (callback e exchange_code draws code state [] addr now db).1)
        (callbacks-gone h between (callback e exchange_code draws code state [] addr now db).1 keeps
          (rw (first) gone))
