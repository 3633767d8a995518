-- ===== src/Http/Handlers.antt =====
-- internal/httpapi/server.go: the handlers. A handler of the assets runs from the tables that it
-- finds and returns its response and the tables that it leaves.
use flooks.Common.{
  String, Bool, true, false, Option, none, some, List, Result, ok, err, ◌>>=◌, ◌==◌,
}
use flooks.Common.Int.{ℤ}
use flooks.Common.Text.{codes}
use flooks.Domain.Manifest.{DatasetManifest}
use flooks.Domain.Spec.{QuerySpec, QueryResult}
use flooks.Assets.Tables.{Tables, StoreError, conflict, no_rows, failed}
use flooks.Assets.Store.{Asset, Revision, Codec, Env, create, update, archive, get, restore}
use flooks.Assets.Listing.{list, revisions}
use flooks.Query.Validate.Defs.{Invalid, validate}
use flooks.Query.Service.{Services, Service, ExecuteError, execute, manifest}
use flooks.Query.Service.Listing.{manifests}
use flooks.Http.Wire.{
  datasets, AssetWrite, Request, Response, no_body, write_json, write_asset_json, problem, assets,
  revisions as revision_list, valid, result, dataset, state, services, etag, atoi, singular_kind,
  Readers, found_id, decoded, valid_document,
}

-- `err.Error()`
abbrev pub error_text : StoreError → String
error_text conflict = "revision conflict"
error_text no_rows = "no rows in result set"
error_text (failed e) = e

-- A response that ends the handler early leaves the tables alone.
abbrev pub stop_or : {A T : Type 0} → Result Response A → T → (A → Response × T) → Response × T
stop_or (err r) t k = (r, t)
stop_or (ok a) t k = k a

-- `decode` and `validDocument`
abbrev pub write_body : Readers → Request → Result Response AssetWrite
write_body readers r = do
  body ← decoded (readers.asset_write r.body)
  checked ← valid_document (singular_kind r.kind) (readers.header body.document)
  ok body

module _ (readers : Readers) (codec : Codec) (env : Env) where
  abbrev pub listed : Result StoreError (List Asset) → Response
  listed (err e) = problem 500 "list failed" (error_text e)
  listed (ok items) = write_json 200 (assets items)

  unfoldable pub list_assets : Request → Tables → Response × Tables
  list_assets r t = (listed (list env (singular_kind r.kind) t), t)

  abbrev pub created : Result StoreError Asset × Tables → Response × Tables
  created (err e, t) = (problem 409 "create failed" (error_text e), t)
  created (ok item, t) = (write_asset_json 201 item, t)

  unfoldable pub create_asset : Request → Tables → Response × Tables
  create_asset r t = stop_or (write_body readers r) t λ body.
      created
        (create codec env (singular_kind r.kind) body.slug body.title body.summary body.document t)

  abbrev pub got : Result StoreError Asset → Response
  got (err conflict) = problem 500 "read failed" (error_text conflict)
  got (err no_rows) = problem 404 "asset not found" ""
  got (err (failed e)) = problem 500 "read failed" e
  got (ok item) = write_asset_json 200 item

  -- `getAsset`, and `getRevision`, which calls it. The error of `Atoi` is dropped.
  unfoldable pub get_asset : Request → Tables → Response × Tables
  get_asset r t =
      stop_or (found_id (readers.uuid r.id)) t
        λ id. (got (get codec env id (atoi (codes r.revision)).0 t), t)

  abbrev pub updated : Result StoreError Asset × Tables → Response × Tables
  updated (err conflict, t) = (problem 412 "revision conflict" "다른 사용자가 먼저 저장했습니다", t)
  updated (err no_rows, t) = (problem 500 "update failed" (error_text no_rows), t)
  updated (err (failed e), t) = (problem 500 "update failed" e, t)
  updated (ok item, t) = (write_asset_json 200 item, t)

  unfoldable pub update_asset : Request → Tables → Response × Tables
  update_asset r t = stop_or (found_id (readers.uuid r.id)) t λ id. stop_or (etag r) t λ base.
      stop_or (write_body readers r) t
        λ body. updated (update codec env id base body.title body.summary body.document t)

  abbrev pub archived : Result StoreError (Unit {0}) × Tables → Response × Tables
  archived (err e, t) = (problem 500 "archive failed" (error_text e), t)
  archived (ok _, t) = (write_json 204 no_body, t)

  unfoldable pub archive_asset : Request → Tables → Response × Tables
  archive_asset r t =
      stop_or (found_id (readers.uuid r.id)) t λ id. archived (archive codec env id t)

  abbrev pub revisions_listed : Result StoreError (List Revision) → Response
  revisions_listed (err e) = problem 500 "revision list failed" (error_text e)
  revisions_listed (ok items) = write_json 200 (revision_list items)

  unfoldable pub list_revisions : Request → Tables → Response × Tables
  list_revisions r t =
      stop_or (found_id (readers.uuid r.id)) t λ id. (revisions_listed (revisions env id t), t)

  abbrev pub restored : Result StoreError Asset × Tables → Response × Tables
  restored (err conflict, t) = (problem 412 "revision conflict" "", t)
  restored (err no_rows, t) = (problem 500 "restore failed" (error_text no_rows), t)
  restored (err (failed e), t) = (problem 500 "restore failed" e, t)
  restored (ok item, t) = (write_asset_json 200 item, t)

  abbrev pub revision_number : ℤ × Bool → Result Response ℤ
  revision_number (n, false) = err (problem 400 "invalid revision" "")
  revision_number (n, true) = ok n

  -- `seen` is what the restore reads, before the tables that it writes to.
  unfoldable pub restore_revision : Request → Tables → Tables → Response × Tables
  restore_revision r seen t = stop_or (found_id (readers.uuid r.id)) t λ id.
      stop_or (etag r) t λ base.
        stop_or (revision_number (atoi (codes r.revision))) t
          λ source. restored (restore codec env id source base seen t)

-- `/health/live`
abbrev pub live : Response
live = write_json 200 (state "ok")

-- The pings of `ready` and of `checkDependencyAvailability`; `none` is a ping that was answered.
unfoldable pub ready : Option String → Option String → Response
ready (some e) redis = problem 503 "metadata unavailable" e
ready none (some e) = problem 503 "redis unavailable" e
ready none none = write_json 200 (state "ready")

abbrev pub service_state : String → Option String → String
service_state bad none = "ok"
service_state bad (some e) = bad

-- The ping of the analytics data source in `checkDependencyAvailability`, if there is one.
unfoldable pub analytics_error : Option (Option String) → Option String
analytics_error none = some "analytics datasource unavailable"
analytics_error (some ping) = ping

-- `status`
unfoldable pub system_status : Option String → Option String → Option String → Response
system_status metadata redis analytics = write_json 200 (
    services (service_state "down" metadata) (service_state "down" redis)
      (service_state "degraded" analytics))

module _ {W E : Type 0} (readers : Readers) (x : Services W E) (s : Service W E)
    (invalid_text : Invalid → String) (execute_text : ExecuteError E → String) where
  -- `datasets`, from the entries in the order in which `range` has the service's manifests.
  unfoldable pub list_datasets : List (String × DatasetManifest) → Response
  list_datasets entries = write_json 200 (datasets (manifests entries))

  abbrev pub dataset_found : Option DatasetManifest → Response
  dataset_found none = problem 404 "dataset not found" ""
  dataset_found (some m) = write_json 200 (dataset m)

  -- `dataset`
  unfoldable pub get_dataset : Request → Response
  get_dataset r = dataset_found (manifest s r.key)

  abbrev pub validity : Result Invalid (QuerySpec × DatasetManifest) → Response
  validity (err e) = problem 422 "invalid query" (invalid_text e)
  validity (ok (spec, m)) = write_json 200 (valid spec m.key)

  unfoldable pub validate_query : Request → W → Response × W
  validate_query r w =
      stop_or (decoded (readers.query_spec r.body)) w
        λ spec. (validity (validate s.manifests spec), w)

  abbrev pub answered : Result (ExecuteError E) QueryResult × W → Response × W
  answered (err e, w) = (problem 422 "query failed" (execute_text e), w)
  answered (ok r, w) = (write_json 200 (result r), w)

  unfoldable pub execute_query : Request → W → Response × W
  execute_query r w =
      stop_or (decoded (readers.query_spec r.body)) w
        λ spec. answered (execute x s spec (r.refresh == "true") w)
