-- ===== src/Http/Routes.antt =====
-- internal/httpapi/server.go: `New`, the table of the routes and the handlers behind it. How chi
-- matches a path with a pattern is not modelled: a request comes with the parameters of its path.
use flooks.Common.{String, Bool, Option, List, [], ◌∷◌}
use flooks.Assets.Tables.{Tables}
use flooks.Assets.Store.{Codec, Env}
use flooks.Domain.Manifest.{DatasetManifest}
use flooks.Query.Validate.Defs.{Invalid}
use flooks.Query.Service.{Services, Service, ExecuteError}
use flooks.Http.Wire.{Request, Response, Readers}
use flooks.Http.Handlers
use flooks.Http.Stream.{Signal, events}

pub data Method : Type 0 where
  get post put delete : Method

pub data Endpoint : Type 0 where
  live ready status datasets dataset validate_query execute_query stream_events : Endpoint
  list_assets create_asset get_asset update_asset archive_asset : Endpoint
  list_revisions get_revision restore_revision : Endpoint

-- The routes, with their patterns in full.
abbrev pub routes : List (Method × String × Endpoint)
routes =
    (get, "/api/v1/health/live", live)
    ∷ (get, "/api/v1/health/ready", ready)
    ∷ (get, "/api/v1/system/status", status)
    ∷ (get, "/api/v1/datasets", datasets)
    ∷ (get, "/api/v1/datasets/{key}", dataset)
    ∷ (post, "/api/v1/query/validate", validate_query)
    ∷ (post, "/api/v1/query/execute", execute_query)
    ∷ (get, "/api/v1/events", stream_events)
    ∷ (get, "/api/v1/assets/{kind}/", list_assets)
    ∷ (post, "/api/v1/assets/{kind}/", create_asset)
    ∷ (get, "/api/v1/assets/{kind}/{id}/", get_asset)
    ∷ (put, "/api/v1/assets/{kind}/{id}/", update_asset)
    ∷ (delete, "/api/v1/assets/{kind}/{id}/", archive_asset)
    ∷ (get, "/api/v1/assets/{kind}/{id}/revisions", list_revisions)
    ∷ (get, "/api/v1/assets/{kind}/{id}/revisions/{revision}", get_revision)
    ∷ (post, "/api/v1/assets/{kind}/{id}/revisions/{revision}/restore", restore_revision)
    ∷ (get, "/api/v1/assets/{kind}/{id}/export", get_asset)
    ∷ []

-- `Server`, with what one request meets: the answers to the pings (`none` is a success; there may be no
-- analytics pool at all), the entries
-- of the manifests in the order of Go's `range`, and the signals of the event stream.
pub record Server (W E : Type 0) : Type 0 where
  pub readers : Readers
  pub codec : Codec
  pub env : Env
  pub services : Services W E
  pub service : Service W E
  pub invalid_text : Invalid → String
  pub execute_text : ExecuteError E → String
  pub metadata : Option String
  pub redis : Option String
  pub analytics : Option (Option String)
  pub entries : List (String × DatasetManifest)
  pub can_flush : Bool
  pub signals : List Signal

abbrev pub beside : {W : Type 0} → W → Response × Tables → Response × Tables × W
beside w (out, t) = (out, t, w)

abbrev pub with_tables : {W : Type 0} → Tables → Response × W → Response × Tables × W
with_tables t (out, w) = (out, t, w)

module _ {W E : Type 0} (s : Server W E) where
  -- The handler of an endpoint. `seen` is what a restore reads before it writes.
  unfoldable pub serve : Endpoint → Request → Tables → Tables → W → Response × Tables × W
  serve live r seen t w = (Handlers.live, t, w)
  serve ready r seen t w = (Handlers.ready s.metadata s.redis, t, w)
  serve status r seen t w =
      (Handlers.system_status s.metadata s.redis (Handlers.analytics_error s.analytics), t, w)
  serve datasets r seen t w = (
    Handlers.list_datasets s.readers s.services s.service s.invalid_text s.execute_text s.entries,
    t,
    w,
  )
  serve dataset r seen t w =
      (Handlers.get_dataset s.readers s.services s.service s.invalid_text s.execute_text r, t, w)
  serve validate_query r seen t w =
      with_tables t
        (Handlers.validate_query s.readers s.services s.service s.invalid_text s.execute_text r w)
  serve execute_query r seen t w =
      with_tables t
        (Handlers.execute_query s.readers s.services s.service s.invalid_text s.execute_text r w)
  serve stream_events r seen t w = (events s.can_flush s.signals, t, w)
  serve list_assets r seen t w = beside w (Handlers.list_assets s.readers s.codec s.env r t)
  serve create_asset r seen t w = beside w (Handlers.create_asset s.readers s.codec s.env r t)
  serve get_asset r seen t w = beside w (Handlers.get_asset s.readers s.codec s.env r t)
  serve update_asset r seen t w = beside w (Handlers.update_asset s.readers s.codec s.env r t)
  serve archive_asset r seen t w = beside w (Handlers.archive_asset s.readers s.codec s.env r t)
  serve list_revisions r seen t w = beside w (Handlers.list_revisions s.readers s.codec s.env r t)
  serve get_revision r seen t w = beside w (Handlers.get_asset s.readers s.codec s.env r t)
  serve restore_revision r seen t w =
      beside w (Handlers.restore_revision s.readers s.codec s.env r seen t)
