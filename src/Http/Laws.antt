-- ===== src/Http/Laws.antt =====
-- When the handlers of the assets write, and what they answer.
use flooks.Common.{
  ℕ, String, ◌≡◌, refl, ◌≤◌, ◌⊎◌, inl, inr, Option, none, some, Option-cases, Result, Result-cases,
  ok, err, arith, eq_iff,
}
use flooks.Common.Int.{ℤ}
use flooks.Assets.Tables.{Tables, StoreError, conflict, no_rows, failed}
use flooks.Assets.Store.{Asset, Codec, Env, update}
use flooks.Assets.Conflict.{IsUndone, failed-unchanged}
use flooks.Http.Wire.{
  AssetWrite, Request, Response, write_asset_json, etag, singular_kind, Readers, valid_document,
  expected_kind,
}
use flooks.Http.Handlers.{write_body, update_asset, updated}

-- What a request to write an asset has to be: its body is read, and the document in it is of the
-- version and of the kind that the path names.
pub record IsAccepted (readers : Readers) (r : Request) (body : AssetWrite) : Type 0 where
  pub read : readers.asset_write r.body ≡ ok body
  pub header :
      readers.header body.document
      ≡ some ("flooks.io/v1alpha1", expected_kind (singular_kind r.kind))

valid_document_ok :
    (kind : String) (o : Option (String × String))
    → valid_document kind o ≡ ok tt
    → o ≡ some ("flooks.io/v1alpha1", expected_kind kind)
unfolding valid_document
valid_document_ok kind none h = cc
valid_document_ok kind (some (version, document_kind)) h =
    ground (arith, eq_iff version "flooks.io/v1alpha1", eq_iff document_kind (expected_kind kind))

write_body_steps :
    (readers : Readers) (r : Request) (body : AssetWrite)
    → write_body readers r ≡ ok body
    → (readers.asset_write r.body ≡ ok body)
      × (valid_document (singular_kind r.kind) (readers.header body.document) ≡ ok tt)
write_body_steps readers r body h = ground arith

pub write_body-IsAccepted :
    (readers : Readers) (r : Request) (body : AssetWrite)
    → write_body readers r ≡ ok body
    → IsAccepted readers r body
write_body-IsAccepted readers r body h =
    let (read, checked) = write_body_steps readers r body h in
    record {
      read = read;
      header = valid_document_ok (singular_kind r.kind) (readers.header body.document) checked;
    }

module _ (readers : Readers) (codec : Codec) (env : Env) (r : Request) (t : Tables) where
  -- The request was accepted, the store wrote, and the response says so.
  pub record IsWritten (out : Response × Tables) : Type 0 where
    pub id : ℕ
    pub base : ℤ
    pub body : AssetWrite
    pub item : Asset
    pub has_id : readers.uuid r.id ≡ some id
    pub has_base : etag r ≡ ok base
    pub accepted : IsAccepted readers r body
    pub wrote : update codec env id base body.title body.summary body.document t ≡ (ok item, out.1)
    pub answer : out.0 ≡ write_asset_json 200 item

  -- The response is an error's, and nothing changed but behind a lost answer.
  pub record IsRefused (out : Response × Tables) : Type 0 where
    pub status : 400 ≤ out.0.status
    pub undone : IsUndone env t out.1

  etag_status : (e : Response) → etag r ≡ err e → 400 ≤ e.status
  unfolding etag
  etag_status e h = ground arith

  body_status : (e : Response) → write_body readers r ≡ err e → 400 ≤ e.status
  unfolding valid_document
  body_status e h = ground arith

  store_outcome :
      (id : ℕ) (base : ℤ) (body : AssetWrite) (p : Result StoreError Asset × Tables)
      → readers.uuid r.id ≡ some id
      → etag r ≡ ok base
      → write_body readers r ≡ ok body
      → update codec env id base body.title body.summary body.document t ≡ p
      → IsWritten (updated readers codec env p) ⊎ IsRefused (updated readers codec env p)
  store_outcome id base body (ok item, u) hi hb hw h = inl (record {
    id = id;
    base = base;
    body = body;
    item = item;
    has_id = hi;
    has_base = hb;
    accepted = write_body-IsAccepted readers r body hw;
    wrote = h;
    answer = refl;
  })
  store_outcome id base body (err conflict, u) hi hb hw h = inr (record {
    status = omega arith;
    undone = (failed-unchanged codec env t u conflict).1 id base _ _ _ h;
  })
  store_outcome id base body (err no_rows, u) hi hb hw h = inr (record {
    status = omega arith;
    undone = (failed-unchanged codec env t u no_rows).1 id base _ _ _ h;
  })
  store_outcome id base body (err (failed x), u) hi hb hw h = inr (record {
    status = omega arith;
    undone = (failed-unchanged codec env t u (failed x)).1 id base _ _ _ h;
  })

  -- `updateAsset` answers 200 when the path's id and the If-Match header are read, the document is
  -- of the version and of the kind that the path names, and the store wrote it over the revision of
  -- the header; then the response is the asset that the store returned. Otherwise it answers
  -- a status of 400 or more and leaves the tables as they were, unless the answer to the commit was
  -- lost.
  pub update_asset_outcome :
      IsWritten (update_asset readers codec env r t)
      ⊎ IsRefused (update_asset readers codec env r t)
  unfolding update_asset
  update_asset_outcome = elim (Option-cases (readers.uuid r.id)) [
    | inl e ↦ rw e (inr (record { status = omega arith; undone = inl refl }))
    | inr (id, hi) ↦ rw hi (elim (Result-cases (etag r)) [
      | inr (e, he) ↦ rw he (inr (record { status = etag_status e he; undone = inl refl }))
      | inl (base, hb) ↦ rw hb (elim (Result-cases (write_body readers r)) [
        | inr (e, he) ↦ rw he (inr (record { status = body_status e he; undone = inl refl }))
        | inl (body, hw) ↦ rw hw (store_outcome id base body _ hi hb hw refl)
      ])
    ])
  ]
