-- ===== src/Admin/Portal/Rows.antt =====
-- What a row of the queue of downloads keeps, and what writing one back or adding one does to the others.
-- The operations on the table, with their arguments.
use hyproxy.Store.{Db}
use hyproxy.Store.Changes.{DownloadRequest}
use hyproxy.Admin.Portal.{DownloadRequestIn, download_key, is_pending, save_download}
use hyproxy.Base.{
  ==_iff, Bool-cases, Time, Uuid, [], ap, arith, false, inl, inr, lookup, lookup-key, lookup-put,
  lookup-snoc, refl, some, sym, true, ◌++◌, ◌==◌, ◌∙◌, ◌∷◌, ◌≡◌,
}
use mathlib.Core.Path.{subst}

pub data PortalRequest : Type 0 where
  queues : DownloadRequestIn → Uuid → Time → PortalRequest
  approves : Uuid → PortalRequest
  denies : Uuid → PortalRequest

-- A request that was reviewed is as it was; one that was not keeps its owner, its magnet and its target.
abbrev pub IsLater : DownloadRequest → DownloadRequest → Type 0
IsLater old new =
    (is_pending old.status ≡ false → new ≡ old)
    × (new.id ≡ old.id)
    × (new.user_id ≡ old.user_id)
    × (new.magnet ≡ old.magnet)
    × (new.target ≡ old.target)

pub record KeepsReviewed (db db' : Db) : Type 0 where
  pub at :
      (k : Uuid) (old : DownloadRequest)
      → lookup download_key k db.download_requests ≡ some old
      → (new : DownloadRequest) × (lookup download_key k db'.download_requests ≡ some new)
        × IsLater old new

pub KeepsReviewed-same :
    {db db' : Db} → db'.download_requests ≡ db.download_requests → KeepsReviewed db db'
KeepsReviewed-same same = record {
  at = λ k old h. (
    old,
    subst (λ ds. lookup download_key k ds ≡ some old) (sym same) h,
    (λ f. refl, refl, refl, refl, refl),
  );
}

pub KeepsReviewed-put :
    (id : Uuid) (row new : DownloadRequest) (db db' : Db)
    → lookup download_key id db.download_requests ≡ some row
    → is_pending row.status ≡ true
    → new.id ≡ row.id
    → new.user_id ≡ row.user_id
    → new.magnet ≡ row.magnet
    → new.target ≡ row.target
    → db'.download_requests ≡ (save_download new db).download_requests
    → KeepsReviewed db db'
KeepsReviewed-put id row new db db' held due i u m t same = record {
  at = λ k old h. elim (Bool-cases (new.id == k)) [
    | inr other ↦ (
      old,
      ground (arith, same, lookup-put download_key k new db.download_requests),
      (λ f. refl, refl, refl, refl, refl),
    )
    | inl mine ↦
        let here : row.id ≡ id = lookup-key download_key id db.download_requests held in
        let one : old ≡ row = cc (
          h,
          held,
          ap (λ j. lookup download_key j db.download_requests)
              (sym ((==_iff new.id k).0 mine) ∙ i ∙ here),
        ) in
        (
          new,
          ground (arith, same, lookup-put download_key k new db.download_requests),
          (λ f. ground arith, ground arith, ground arith, ground arith, ground arith),
        )
  ];
}

pub KeepsReviewed-add :
    (row : DownloadRequest) (db db' : Db)
    → db'.download_requests ≡ db.download_requests ++ row ∷ []
    → KeepsReviewed db db'
KeepsReviewed-add row db db' same = record {
  at = λ k old h. (
    old,
    ground (arith, same, lookup-snoc download_key k row db.download_requests),
    (λ f. refl, refl, refl, refl, refl),
  );
}

pub KeepsReviewed-trans : {a b c : Db} → KeepsReviewed a b → KeepsReviewed b c → KeepsReviewed a c
KeepsReviewed-trans h k = record {
  at = λ i old e.
      let (mid, e', x) = h.at i old e in
      let (new, e'', y) = k.at i mid e' in
      (
        new,
        e'',
        (
          λ f. ground (arith, x.0, y.0),
          ground (arith, x, y),
          ground (arith, x, y),
          ground (arith, x, y),
          ground (arith, x, y),
        ),
      );
}
