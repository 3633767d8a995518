-- ===== src/Contract/Statuses.antt =====
-- The statuses of the server's answers, by the operations of the contract.
use flooks.Common.{
  ℕ, ◌≤◌, String, ◌≡◌, ◌⊎◌, refl, inl, inr, Bool, true, false, Option, none, some, List, Result, ok,
  err, arith,
}
use flooks.Common.Text.{codes}
use flooks.Assets.Tables.{Tables, StoreError, conflict, no_rows, failed}
use flooks.Assets.Store.{Asset, Revision}
use flooks.Http.Wire.{Request, Response, found_id, decoded, etag, atoi}
use flooks.Domain.Manifest.{DatasetManifest}
use flooks.Domain.Spec.{QuerySpec, QueryResult}
use flooks.Query.Validate.Defs.{Invalid}
use flooks.Query.Service.{ExecuteError}
use flooks.Http.Announced.{found_id_status, etag_status, body_status, revision_status}
use flooks.Http.Handlers
use flooks.Http.Stream
use flooks.Http.Routes.{Server, serve}
use flooks.Contract.{Operation, declared}
use flooks.Contract.Routed.{endpoint}

-- The declared status, or an error's.
abbrev pub HasStatus : ℕ → Response → Type 0
HasStatus n out = (out.status ≡ n) ⊎ (400 ≤ out.status)

stop_or-HasStatus :
    {A T : Type 0} (n : ℕ) (t : T) (x : Result Response A) (k : A → Response × T)
    → ((e : Response) → x ≡ err e → 400 ≤ e.status)
    → ((a : A) → HasStatus n (k a).0)
    → HasStatus n (Handlers.stop_or x t k).0
stop_or-HasStatus n t (ok a) k bad h = h a
stop_or-HasStatus n t (err e) k bad h = inr (bad e refl)

decoded_status :
    {A : Type 0} (o : Result String A) (e : Response) → decoded o ≡ err e → 400 ≤ e.status
decoded_status o e h = ground arith

module _ {W E : Type 0} (s : Server W E) (r : Request) (t : Tables) where
  found : (o : Option ℕ) (e : Response) → found_id o ≡ err e → 400 ≤ e.status
  found = found_id_status s.readers s.codec s.env r t

  listed-HasStatus :
      (x : Result StoreError (List Asset))
      → HasStatus 200 (Handlers.listed s.readers s.codec s.env x)
  listed-HasStatus (ok items) = inl refl
  listed-HasStatus (err e) = inr (omega arith)

  created-HasStatus :
      (p : Result StoreError Asset × Tables)
      → HasStatus 201 (Handlers.created s.readers s.codec s.env p).0
  created-HasStatus (ok item, u) = inl refl
  created-HasStatus (err e, u) = inr (omega arith)

  got-HasStatus :
      (x : Result StoreError Asset) → HasStatus 200 (Handlers.got s.readers s.codec s.env x)
  got-HasStatus (ok item) = inl refl
  got-HasStatus (err conflict) = inr (omega arith)
  got-HasStatus (err no_rows) = inr (omega arith)
  got-HasStatus (err (failed e)) = inr (omega arith)

  updated-HasStatus :
      (p : Result StoreError Asset × Tables)
      → HasStatus 200 (Handlers.updated s.readers s.codec s.env p).0
  updated-HasStatus (ok item, u) = inl refl
  updated-HasStatus (err conflict, u) = inr (omega arith)
  updated-HasStatus (err no_rows, u) = inr (omega arith)
  updated-HasStatus (err (failed e), u) = inr (omega arith)

  archived-HasStatus :
      (p : Result StoreError (Unit {0}) × Tables)
      → HasStatus 204 (Handlers.archived s.readers s.codec s.env p).0
  archived-HasStatus (ok _, u) = inl refl
  archived-HasStatus (err e, u) = inr (omega arith)

  restored-HasStatus :
      (p : Result StoreError Asset × Tables)
      → HasStatus 200 (Handlers.restored s.readers s.codec s.env p).0
  restored-HasStatus (ok item, u) = inl refl
  restored-HasStatus (err conflict, u) = inr (omega arith)
  restored-HasStatus (err no_rows, u) = inr (omega arith)
  restored-HasStatus (err (failed e), u) = inr (omega arith)

  revisions-HasStatus :
      (x : Result StoreError (List Revision))
      → HasStatus 200 (Handlers.revisions_listed s.readers s.codec s.env x)
  revisions-HasStatus (ok items) = inl refl
  revisions-HasStatus (err e) = inr (omega arith)

  dataset-HasStatus :
      (o : Option DatasetManifest)
      → HasStatus 200
          (Handlers.dataset_found s.readers s.services s.service s.invalid_text s.execute_text o)
  dataset-HasStatus none = inr (omega arith)
  dataset-HasStatus (some m) = inl refl

  validity-HasStatus :
      (x : Result Invalid (QuerySpec × DatasetManifest))
      → HasStatus 200
          (Handlers.validity s.readers s.services s.service s.invalid_text s.execute_text x)
  validity-HasStatus (ok (spec, m)) = inl refl
  validity-HasStatus (err e) = inr (omega arith)

  answered-HasStatus :
      (p : Result (ExecuteError E) QueryResult × W)
      → HasStatus 200
          (Handlers.answered s.readers s.services s.service s.invalid_text s.execute_text p).0
  answered-HasStatus (ok x, w) = inl refl
  answered-HasStatus (err e, w) = inr (omega arith)

  ready-HasStatus : (a b : Option String) → HasStatus 200 (Handlers.ready a b)
  unfolding Handlers.ready
  ready-HasStatus (some e) b = inr (omega arith)
  ready-HasStatus none (some e) = inr (omega arith)
  ready-HasStatus none none = inl refl

  events-HasStatus : (b : Bool) → HasStatus 200 (Stream.events b s.signals)
  unfolding Stream.events
  events-HasStatus true = inl refl
  events-HasStatus false = inr (omega arith)

  pub serve-HasStatus :
      (op : Operation) (seen : Tables) (w : W)
      → HasStatus (declared op) (serve s (endpoint op) r seen t w).0
  unfolding serve endpoint declared Handlers.list_assets Handlers.create_asset
      Handlers.archive_asset Handlers.get_asset Handlers.update_asset Handlers.list_revisions
      Handlers.restore_revision Handlers.list_datasets Handlers.get_dataset Handlers.execute_query
      Handlers.validate_query Handlers.system_status
  serve-HasStatus Operation.list_assets seen w = listed-HasStatus _
  serve-HasStatus Operation.create_asset seen w =
      stop_or-HasStatus 201 t (Handlers.write_body s.readers r) _
        (body_status s.readers s.codec s.env r t) (λ body. created-HasStatus _)
  serve-HasStatus Operation.archive_asset seen w =
      stop_or-HasStatus 204 t (found_id (s.readers.uuid r.id)) _ (found _)
        (λ id. archived-HasStatus _)
  serve-HasStatus Operation.get_asset seen w =
      stop_or-HasStatus 200 t (found_id (s.readers.uuid r.id)) _ (found _) (λ id. got-HasStatus _)
  serve-HasStatus Operation.update_asset seen w =
      stop_or-HasStatus 200 t (found_id (s.readers.uuid r.id)) _ (found _) (λ id.
        stop_or-HasStatus 200 t (etag r) _ (etag_status s.readers s.codec s.env r t) (λ base.
          stop_or-HasStatus 200 t (Handlers.write_body s.readers r) _
            (body_status s.readers s.codec s.env r t) (λ body. updated-HasStatus _)))
  serve-HasStatus Operation.list_revisions seen w =
      stop_or-HasStatus 200 t (found_id (s.readers.uuid r.id)) _ (found _)
        (λ id. revisions-HasStatus _)
  serve-HasStatus Operation.restore_revision seen w =
      stop_or-HasStatus 200 t (found_id (s.readers.uuid r.id)) _ (found _) (λ id.
        stop_or-HasStatus 200 t (etag r) _ (etag_status s.readers s.codec s.env r t) (λ base.
          stop_or-HasStatus 200 t
            (Handlers.revision_number s.readers s.codec s.env (atoi (codes r.revision))) _
            (revision_status s.readers s.codec s.env r t _) (λ source. restored-HasStatus _)))
  serve-HasStatus Operation.list_datasets seen w = inl refl
  serve-HasStatus Operation.get_dataset seen w = dataset-HasStatus _
  serve-HasStatus Operation.events seen w = events-HasStatus s.can_flush
  serve-HasStatus Operation.live seen w = inl refl
  serve-HasStatus Operation.ready seen w = ready-HasStatus s.metadata s.redis
  serve-HasStatus Operation.execute_query seen w =
      stop_or-HasStatus 200 w (decoded (s.readers.query_spec r.body)) _ (decoded_status _)
        (λ spec. answered-HasStatus _)
  serve-HasStatus Operation.validate_query seen w =
      stop_or-HasStatus 200 w (decoded (s.readers.query_spec r.body)) _ (decoded_status _)
        (λ spec. validity-HasStatus _)
  serve-HasStatus Operation.system_status seen w = inl refl
