-- ===== src/Tests/Gates.antt =====
-- The theorems on the form of a public resource, at the small deployment.
use hyproxy.Policy.Glob.{literal_prefix, matches}
use hyproxy.Security.Ratelimit.{register_one, register_failure, check, count_failure, delay_seconds}
use hyproxy.Tests.{env, db, shared}
use hyproxy.Authz.PublicGate.{safe_rd, resolve_public_session}
use hyproxy.Authz.PublicForm.Opened.{
  IsFreshId, IsOpened, gate_submit-IsOpened, gate_submit-resolves,
}
use hyproxy.Authz.PublicForm.{
  text_of, resource_for_request, right_gate_password, check_gate, find_public, bare_host, GateDraws,
  GateRequest, gate_page, gate_submit, incorrect_password, opened, opened_session,
}
use hyproxy.Base.{
  text_eq, starts_with, drop_while, before, strip, contains, drop_while_end, after, Text, [], arith,
  codes, refl, some, ◌∷◌, ◌≡◌,
}

abbrev to_gate : GateRequest
to_gate = record {
  forwarded_host = some (codes "pub:443, inner");
  csrf_cookie = some (codes "f");
  addr = 9;
}

abbrev gate_draws : GateDraws
gate_draws = record { csrf = codes "n"; session_id = b'q'; secret = codes "w" }

finds_shared : resource_for_request env to_gate db ≡ some shared
unfolding resource_for_request text_eq drop_while_end strip before text_of bare_host starts_with
    contains after find_public
finds_shared = refl

-- The one text whose digest the resource holds.
abbrev word : Text
word = 4 ∷ []

accepts_word :
    (gate_submit env to_gate word (codes "/a/b") (codes "f") gate_draws 1000 db).0
    ≡ opened (codes "/a/b") (codes "q.w")
unfolding gate_submit resource_for_request text_eq drop_while_end strip before text_of bare_host
    starts_with contains after find_public check_gate check right_gate_password safe_rd matches
    drop_while literal_prefix count_failure delay_seconds register_failure register_one
accepts_word = refl

refuses_other :
    (gate_submit env to_gate (codes "x") (codes "/a/b") (codes "f") gate_draws 1000 db).0
    ≡ gate_page 401 (codes "/a/b") (codes "n") (some incorrect_password) 0
unfolding gate_submit resource_for_request text_eq drop_while_end strip before text_of bare_host
    starts_with contains after find_public check_gate check right_gate_password safe_rd matches
    drop_while literal_prefix count_failure delay_seconds register_failure register_one
refuses_other = refl

gate_submit-IsOpened_example :
    IsOpened env to_gate word
      (codes "/a/b")
      (codes "f")
      gate_draws
      1000
      db
      (codes "/a/b")
      (codes "q.w")
gate_submit-IsOpened_example =
    gate_submit-IsOpened env to_gate word (codes "/a/b") (codes "f") gate_draws 1000 db
      (codes "/a/b") (codes "q.w") accepts_word

new_id : IsFreshId env to_gate word (codes "/a/b") (codes "f") gate_draws 1000 db
unfolding contains
new_id = record { dotless = refl; parsed = refl; unused = refl }

gate_submit-resolves_example :
    (resolve_public_session env
      (some (codes "q.w"))
      1
      9
      2000
      (gate_submit env to_gate word (codes "/a/b") (codes "f") gate_draws 1000 db).1).0
    ≡ some (record (opened_session env shared gate_draws 9 1000) { last_seen_at = 2000 })
gate_submit-resolves_example =
    gate_submit-resolves env to_gate word (codes "/a/b") (codes "f") gate_draws 1000 db shared
      (codes "/a/b") (codes "q.w") 2000 finds_shared accepts_word new_id (omega arith)
