-- ===== src/Tests/Identity.antt =====
-- The theorems on sessions, codes, tokens and proofs, at the small deployment.
use hyproxy.Base.{
  List, none, some, true, false, [], ◌∷◌, ◌≢◌, before, after, contains, some, true, false, codes,
  ◌≡◌, refl, arith,
}
use hyproxy.Idp.Codes.{consume_code}
use hyproxy.Idp.Codes.Once.{consume_all, consume_code-once}
use hyproxy.Idp.Replay.{DpopProof, Turn, collects, presents, turns, verify_proof, verify_proof-once}
use hyproxy.Idp.Refresh.{find}
use hyproxy.Idp.Refresh.Families.{IsLinear}
use hyproxy.Tests.{env, db, session, code, token}
use hyproxy.Store.{Session, Db}
use hyproxy.Idp.Sessions.{
  holder, split_cookie, live_session, revoke, check_liveness, get_session_from_cookie,
}
use hyproxy.Idp.Sessions.Traces.{dead_session_unusable, check, Reach, here, next, end_session}
use hyproxy.Store.Accounts.{logout}

-- A request from another address.
moved : (check_liveness env session 8 1000 true db).0 ≡ false
unfolding check_liveness
moved = refl

at_home : (check_liveness env session 9 1000 true db).0 ≡ true
unfolding check_liveness
at_home = refl

abbrev signed_out : Db
signed_out = (revoke env session logout 9 db).1

to_signed_out : Reach env db signed_out
to_signed_out = next here (end_session session logout 9 refl refl)

cookie-found : (get_session_from_cookie env (some (codes "i.s")) 9 1000 db).0 ≡ some session
unfolding get_session_from_cookie holder split_cookie contains before after live_session
    check_liveness
cookie-found = refl

-- A revoked session beside the live one.
abbrev dead : Session
dead = record session { id = b'd'; revoked_at = some 500 }

abbrev two : Db
two = record db { sessions = dead ∷ session ∷ [] }

abbrev after_check : Db
after_check = (check_liveness env session 9 1000 true two).2

to_after_check : Reach env two after_check
to_after_check = next here (check session 9 1000 true refl refl)

other-found : (get_session_from_cookie env (some (codes "i.s")) 9 1500 after_check).0 ≡ some session
unfolding get_session_from_cookie holder split_cookie contains before check_liveness after
    live_session
other-found = refl

dead_session_unusable_example : session.id ≢ b'd'
dead_session_unusable_example =
    dead_session_unusable env b'd' dead session (codes "i.s") 9 1500 refl refl to_after_check
      other-found

code-consumed :
    (consume_code env (codes "c") 1000 db).0 ≡ some (record code { consumed_at = some 1000 })
unfolding consume_code
code-consumed = refl

consume_code-once_example :
    (consume_code env (codes "c") 1200 (
      consume_all env
        ((codes "c", 1100) ∷ (codes "x", 1150) ∷ [])
        (consume_code env (codes "c") 1000 db).1)).0
    ≡ none
consume_code-once_example =
    consume_code-once env (codes "c") 1000 1200 ((codes "c", 1100) ∷ (codes "x", 1150) ∷ []) db
      (omega arith) code-consumed

abbrev proof : DpopProof
proof = record { jkt = 4; jti = codes "j"; iat = 900 }

proof-accepted : (verify_proof env (some proof) 1000 db).0 ≡ some proof
unfolding verify_proof
proof-accepted = refl

abbrev turned : List Turn
turned = presents none 1100 ∷ collects 1200 ∷ []

verify_proof-once_example :
    (verify_proof env
      (some proof)
      1250
      (turns env turned (verify_proof env (some proof) 1000 db).1)).0
    ≡ none
verify_proof-once_example =
    verify_proof-once env proof proof 1000 1250 turned db proof-accepted refl refl (omega arith)

db-IsLinear : IsLinear db
db-IsLinear family = ground arith

token-found : find env (codes "t") db ≡ some token
unfolding find
token-found = refl
