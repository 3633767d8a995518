-- ===== src/Http/Reedit.antt =====
-- An asset that is read over HTTP, and written back with the ETag of the answer.
use flooks.Common.{
  ℕ, String, ◌≡◌, ◌≢◌, refl, ap, ◌∙◌, inl, inr, none, some, Option-cases, Result-cases, Result, ok,
  err, arith,
}
use flooks.Common.Int.{ℤ, pos}
use flooks.Common.Text.{codes}
use flooks.Assets.Tables.{AssetRow, Tables, StoreError, conflict, no_rows, failed, empty, asset_at}
use flooks.Assets.Store.{Asset, Codec, Env, get}
use flooks.Assets.History.{Reach}
use flooks.Assets.Bounds.{Reach-IsNumbered}
use flooks.Assets.Conflict.{conflict_lem}
use flooks.Http.Wire.{Request, Response, Readers, atoi, etag, etag_text, valid_document}
use flooks.Http.Handlers.{get_asset, update_asset, got, updated, write_body}
use flooks.Http.Etag.{etag-etag_text}

-- What `Get` returns carries the latest revision of the asset.
latest-get :
    (codec : Codec) (env : Env) (id : ℕ) (r : ℤ) (t : Tables) (a : Asset)
    → get codec env id r t ≡ ok a
    → (x : AssetRow) × (asset_at id t ≡ some x) × (a.latest_revision ≡ x.latest_revision)
unfolding get
latest-get codec env id r t a h = ground arith

module _ (readers : Readers) (codec : Codec) (env : Env) (t : Tables) where
  updated_status :
      (p : Result StoreError Asset × Tables)
      → p.0 ≢ err conflict
      → (updated readers codec env p).0.status ≢ 412
  updated_status (ok a, u) n = λ k. omega arith
  updated_status (err conflict, u) n = absurd (n refl)
  updated_status (err no_rows, u) n = λ k. omega arith
  updated_status (err (failed e), u) n = λ k. omega arith

  body_status : (r : Request) (e : Response) → write_body readers r ≡ err e → e.status ≢ 412
  unfolding valid_document
  body_status r e h = λ k. ground arith

  got_ok :
      (x : Result StoreError Asset) (tag : String)
      → (got readers codec env x).etag ≡ some tag
      → (a : Asset) × (x ≡ ok a) × (tag ≡ etag_text a.latest_revision)
  got_ok (ok a) tag h = (a, refl, ground arith)
  got_ok (err conflict) tag h = absurd (ground arith)
  got_ok (err no_rows) tag h = absurd (ground arith)
  got_ok (err (failed e)) tag h = absurd (ground arith)

  read_tag :
      (r : Request) (tag : String)
      → (get_asset readers codec env r t).0.etag ≡ some tag
      → (id : ℕ) × (readers.uuid r.id ≡ some id)
        × (x : AssetRow) × (asset_at id t ≡ some x)
        × (tag ≡ etag_text x.latest_revision)
  unfolding get_asset
  read_tag r tag h = elim (Option-cases (readers.uuid r.id)) [
    | inl e ↦ absurd (unread (rw e at h))
    | inr (id, e) ↦
        let (a, got, same) =
          got_ok (get codec env id (atoi (codes r.revision)).0 t) tag (rw e at h) in
        let (x, found, latest) = latest-get codec env id (atoi (codes r.revision)).0 t a got in
        (id, e, x, found, same ∙ ap etag_text latest)
  ]
    where
      unread : none ≡ some tag → ⊥
      unread k = cc

-- In tables that the store's methods made: an update with the ETag that reading the asset was
-- answered with, before anyone else writes, is not answered 412, whatever its document and whatever fails.
pub update_asset-get_asset :
    (readers : Readers) (codec : Codec) (env env' : Env) (r q : Request) (t : Tables) (tag : String)
    → Reach codec empty t
    → (get_asset readers codec env r t).0.etag ≡ some tag
    → q.id ≡ r.id
    → q.if_match ≡ tag
    → (update_asset readers codec env' q t).0.status ≢ 412
unfolding update_asset
update_asset-get_asset readers codec env env' r q t tag reach seen ids tags =
    let (id, hi, x, found, same) = read_tag readers codec env t r tag seen in
    let (low, high) = Reach-IsNumbered codec t id x reach found in
    let base : etag q ≡ ok (pos x.latest_revision) =
      etag-etag_text q x.latest_revision (tags ∙ same) low (omega arith) in
    let there : readers.uuid q.id ≡ some id = ap readers.uuid ids ∙ hi in
    rw (there, base)
      (elim (Result-cases (write_body readers q)) [
        | inr (e, he) ↦ rw he (body_status readers codec env' t q e he)
        | inl (body, hw) ↦ rw hw (
            updated_status readers codec env' t _ (λ k.
              conflict_lem codec env' id (pos x.latest_revision) body.title body.summary
                body.document t x k found refl))
      ])
