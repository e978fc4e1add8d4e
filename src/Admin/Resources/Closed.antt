-- ===== src/Admin/Resources/Closed.antt =====
-- What a change to a public resource does to the sessions that its password opened.
use hyproxy.Idp.Sessions.{split_cookie}
use hyproxy.Idp.Request.{AuthedRequest}
use hyproxy.Store.Access.{PublicSession, Resource}
use hyproxy.Store.{Db}
use hyproxy.Authz.PublicGate.{resolve_public_session, revoke_public_sessions}
use hyproxy.Settings.{Env}
use hyproxy.Admin.Resources.Coherent.{patch_resource-wrote}
use hyproxy.Admin.Shapes.{ResourcePatch}
use hyproxy.Authz.PublicGate.Isolation.{revoke_public_sessions-closes}
use hyproxy.Admin.Resources.{patch_resource, rotate_public_password}
use mathlib.Core.Path.{subst}
use hyproxy.Admin.Targets.{
  get_resource, grant_changed, merged, paths_list, same_texts, without_password,
}
use hyproxy.Base.{
  Bool-cases, List, [], false, refl, text_eq_iff, ◌∷◌, ◌≢◌, ◌⊎◌, ap, find?, ◌==◌, ◌∙◌, Ip, Option,
  Option-cases, Text, Time, Uuid, arith, inl, inr, none, ok, some, true, ◌≡◌,
}

-- The cookie of a public resource is looked up in that table alone.
resolve-same :
    (e : Env) (cookie : Option Text) (id : Uuid) (addr : Ip) (now : Time) (db db' : Db)
    → db'.public_sessions ≡ db.public_sessions
    → (resolve_public_session e cookie id addr now db').0
      ≡ (resolve_public_session e cookie id addr now db).0
unfolding resolve_public_session
resolve-same e cookie id addr now db db' same = elim (Option-cases (split_cookie e cookie)) [
  | inl bad ↦ ground arith
  | inr ((key, secret), parsed) ↦
      elim (Option-cases (find? (λ (s : PublicSession). s.id == key) db.public_sessions)) [
        | inl missing ↦ ground (arith, ap (find? (λ (s : PublicSession). s.id == key)) same)
        | inr (old, held) ↦ ground (arith, ap (find? (λ (s : PublicSession). s.id == key)) same)
      ]
]

-- What a change of a row narrows: a public resource that was is none, a public one shows other paths, or a
-- public one that was on is off.
abbrev pub IsNarrowed : Resource → Resource → Type 0
IsNarrowed old new =
    ((old.public_access ≡ true) × (new.public_access ≡ false))
    ⊎ ((new.public_access ≡ true) × (paths_list new.public_paths ≢ paths_list old.public_paths))
    ⊎ ((old.public_access ≡ true) × (old.enabled ≡ true) × (new.enabled ≡ false))

same_texts-≡ : (ss ts : List Text) → same_texts ss ts ≡ true → ss ≡ ts
unfolding same_texts
same_texts-≡ [] [] h = refl
same_texts-≡ [] (t ∷ ts) h = ground arith
same_texts-≡ (s ∷ ss) [] h = ground arith
same_texts-≡ (s ∷ ss) (t ∷ ts) h =
    let one : s ≡ t = (text_eq_iff s t).0 (ground arith) in
    let rest : ss ≡ ts = same_texts-≡ ss ts (ground arith) in ground arith

-- The flag that the code computes is up for each of these.
grant_changed-IsNarrowed :
    (row : Resource) (patch : ResourcePatch)
    → IsNarrowed row (without_password (merged row patch))
    → grant_changed row (merged row patch) patch ≡ true
grant_changed-IsNarrowed row patch (inl (was, off)) =
    elim (Bool-cases (merged row patch).public_access) [
      | inl stays ↦ ground arith
      | inr ends ↦ ground arith
    ]
grant_changed-IsNarrowed row patch (inr (inl (on, differ))) =
    elim (Bool-cases (merged row patch).public_access) [
      | inr ends ↦ ground arith
      | inl stays ↦
          let old = paths_list row.public_paths in
          let new = paths_list (merged row patch).public_paths in
          elim (Bool-cases (same_texts new old)) [
            | inr changed ↦ ground arith
            | inl same ↦ let one : new ≡ old = same_texts-≡ new old same in absurd (ground arith)
          ]
    ]
grant_changed-IsNarrowed row patch (inr (inr (was, up, down))) = elim (Option-cases patch.enabled) [
  | inl unset ↦ ground arith
  | inr (given, set) ↦ ground arith
]

module _ (e : Env) (authed : AuthedRequest) (id : Uuid) (db : Db) where
  -- A patch that turns a public resource private, changes the paths of one that is public then, or turns one
  -- off that was public and on, leaves no session on it: no cookie resolves, from any address, at any time.
  pub patch_resource-closes :
      (patch : ResourcePatch) (row : Resource) (out : Resource × Db)
      → get_resource id db ≡ some row
      → patch_resource e authed id patch db ≡ ok out
      → IsNarrowed row out.0
      → (cookie : Option Text) (addr : Ip) (now : Time)
      → (resolve_public_session e cookie id addr now out.1).0 ≡ none
  patch_resource-closes patch row out known k narrowed cookie addr now =
      let (row', known', h, s, made, rows, sessions') =
        patch_resource-wrote e authed id patch db out k in
      let one : row' ≡ row = cc (known, known') in
      let changed : grant_changed row (merged row patch) patch ≡ true =
        grant_changed-IsNarrowed row patch (
          subst (IsNarrowed row) (made ∙ ap (λ r. without_password (merged r patch)) one)
            narrowed) in
      let closed : out.1.public_sessions ≡ (revoke_public_sessions e id db).1.public_sessions =
        ground arith in
      resolve-same e cookie id addr now (revoke_public_sessions e id db).1 out.1 closed
      ∙ revoke_public_sessions-closes e cookie id addr now db

  -- A new password ends every session that the old one opened.
  pub rotate_public_password-closes :
      (word : Text) (out : Text × Db)
      → rotate_public_password e authed id word db ≡ ok out
      → (cookie : Option Text) (addr : Ip) (now : Time)
      → (resolve_public_session e cookie id addr now out.1).0 ≡ none
  unfolding rotate_public_password
  rotate_public_password-closes word out k cookie addr now =
      elim (Option-cases (get_resource id db)) [
        | inl unknown ↦ let no : ⊥ = ground arith in elim no [ ]
        | inr (row, known) ↦
            let closed : out.1.public_sessions
                ≡ (revoke_public_sessions e id db).1.public_sessions =
              ground arith in
            resolve-same e cookie id addr now (revoke_public_sessions e id db).1 out.1 closed
            ∙ revoke_public_sessions-closes e cookie id addr now db
      ]
