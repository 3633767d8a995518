-- ===== src/Http/Keeps.antt =====
-- What requests keep of the tables.
use flooks.Common.{
  ℕ, String, ◌≡◌, ◌⊎◌, inl, inr, refl, ap, ◌∙◌, Option, some, Result, ok, err, ◌==◌, Bool-cases,
}
use flooks.Common.Int.{ℤ}
use flooks.Common.Text.{codes}
use flooks.Assets.Tables.{Tables, StoreError, conflict, no_rows, failed}
use flooks.Assets.Store.{Asset, create, update, archive, restore}
use flooks.Http.Wire.{
  AssetWrite, Request, Response, Readers, found_id, etag, atoi, singular_kind, expected_kind,
}
use flooks.Http.Handlers.{
  write_body, created, updated, restored, archived, revision_number, create_asset, update_asset,
  restore_revision, get_asset, list_assets, list_revisions, stop_or,
}
use flooks.Http.Handlers as by_id
use flooks.Http.Safety.{get_asset-Leaves, list_revisions-Leaves}
use flooks.Http.Laws.{write_body-IsAccepted}
use flooks.Http.Routes.{Endpoint, Server, serve}

-- The document is of the one version and of one of the two kinds.
abbrev pub IsDocument : (String → Option (String × String)) → String → Type 0
IsDocument header document =
    (header document ≡ some ("flooks.io/v1alpha1", "Chart"))
    ⊎ (header document ≡ some ("flooks.io/v1alpha1", "Dashboard"))

expected_kind_cases :
    (kind : String) → (expected_kind kind ≡ "Chart") ⊎ (expected_kind kind ≡ "Dashboard")
expected_kind_cases kind = elim (Bool-cases (kind == "dashboard")) [
  | inl e ↦ rw e (inr refl)
  | inr e ↦ rw e (inl refl)
]

body-IsDocument :
    (readers : Readers) (r : Request) (body : AssetWrite)
    → write_body readers r ≡ ok body
    → IsDocument readers.header body.document
body-IsDocument readers r body h =
    let accepted = write_body-IsAccepted readers r body h in
    elim (expected_kind_cases (singular_kind r.kind)) [
      | inl e ↦ inl (accepted.header ∙ ap (λ k. some ("flooks.io/v1alpha1", k)) e)
      | inr e ↦ inr (accepted.header ∙ ap (λ k. some ("flooks.io/v1alpha1", k)) e)
    ]

stop_or_keeps :
    {A : Type 0} (P : Tables → Type 0) (t : Tables) (x : Result Response A)
    (k : A → Response × Tables)
    → P t
    → ((a : A) → x ≡ ok a → P (k a).1)
    → P (stop_or x t k).1
stop_or_keeps P t (ok a) k h n = n a refl
stop_or_keeps P t (err e) k h n = h

module _ {W E : Type 0} (s : Server W E) (r : Request) (seen t : Tables) (P : Tables → Type 0)
    (h : P t)
    (creates : (body : AssetWrite)
      → IsDocument s.readers.header body.document
      → P
          (create s.codec s.env
            (singular_kind r.kind)
            body.slug
            body.title
            body.summary
            body.document
            t).1)
    (updates : (id : ℕ) (base : ℤ) (body : AssetWrite)
      → IsDocument s.readers.header body.document
      → P (update s.codec s.env id base body.title body.summary body.document t).1)
    (archives : (id : ℕ) → P (archive s.codec s.env id t).1)
    (restores : (id : ℕ) (source base : ℤ)
      → P (restore s.codec s.env id source base seen t).1) where
  created_keeps :
      (p : Result StoreError Asset × Tables) → P p.1 → P (created s.readers s.codec s.env p).1
  created_keeps (ok a, u) k = k
  created_keeps (err e, u) k = k

  updated_keeps :
      (p : Result StoreError Asset × Tables) → P p.1 → P (updated s.readers s.codec s.env p).1
  updated_keeps (ok a, u) k = k
  updated_keeps (err conflict, u) k = k
  updated_keeps (err no_rows, u) k = k
  updated_keeps (err (failed e), u) k = k

  restored_keeps :
      (p : Result StoreError Asset × Tables) → P p.1 → P (restored s.readers s.codec s.env p).1
  restored_keeps (ok a, u) k = k
  restored_keeps (err conflict, u) k = k
  restored_keeps (err no_rows, u) k = k
  restored_keeps (err (failed e), u) k = k

  archived_keeps :
      (p : Result StoreError (Unit {0}) × Tables) → P p.1 → P (archived s.readers s.codec s.env p).1
  archived_keeps (ok a, u) k = k
  archived_keeps (err e, u) k = k

  create_asset_keeps : P (create_asset s.readers s.codec s.env r t).1
  unfolding create_asset
  create_asset_keeps =
      stop_or_keeps P t (write_body s.readers r) _ h
        (λ body e. created_keeps _ (creates body (body-IsDocument s.readers r body e)))

  update_asset_keeps : P (update_asset s.readers s.codec s.env r t).1
  unfolding update_asset
  update_asset_keeps = stop_or_keeps P t (found_id (s.readers.uuid r.id)) _ h (λ id a.
      stop_or_keeps P t (etag r) _ h (λ base b.
        stop_or_keeps P t (write_body s.readers r) _ h
          (λ body e. updated_keeps _ (updates id base body (body-IsDocument s.readers r body e)))))

  archive_asset_keeps : P (by_id.archive_asset s.readers s.codec s.env r t).1
  unfolding by_id.archive_asset
  archive_asset_keeps =
      stop_or_keeps P t (found_id (s.readers.uuid r.id)) _ h
        (λ id a. archived_keeps _ (archives id))

  restore_revision_keeps : P (restore_revision s.readers s.codec s.env r seen t).1
  unfolding restore_revision
  restore_revision_keeps = stop_or_keeps P t (found_id (s.readers.uuid r.id)) _ h (λ id a.
      stop_or_keeps P t (etag r) _ h (λ base b.
        stop_or_keeps P t (revision_number s.readers s.codec s.env (atoi (codes r.revision))) _ h
          (λ source c. restored_keeps _ (restores id source base))))

  -- What the store's methods keep, for documents that were accepted, a request keeps.
  pub serve_keeps : (e : Endpoint) (w : W) → P (serve s e r seen t w).1
  unfolding serve
  serve_keeps Endpoint.live w = h
  serve_keeps Endpoint.ready w = h
  serve_keeps Endpoint.status w = h
  serve_keeps Endpoint.datasets w = h
  serve_keeps Endpoint.dataset w = h
  serve_keeps Endpoint.validate_query w = h
  serve_keeps Endpoint.execute_query w = h
  serve_keeps Endpoint.stream_events w = h
  serve_keeps Endpoint.list_assets w = unfold list_assets in h
  serve_keeps Endpoint.get_asset w = rw (get_asset-Leaves s r t) h
  serve_keeps Endpoint.list_revisions w = rw (list_revisions-Leaves s r t) h
  serve_keeps Endpoint.get_revision w = rw (get_asset-Leaves s r t) h
  serve_keeps Endpoint.create_asset w = create_asset_keeps
  serve_keeps Endpoint.update_asset w = update_asset_keeps
  serve_keeps Endpoint.archive_asset w = archive_asset_keeps
  serve_keeps Endpoint.restore_revision w = restore_revision_keeps
