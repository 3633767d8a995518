-- ===== src/Tests/Whole.antt =====
-- The properties of whole requests: what reaches the analytics database, and what reaches Redis.
use flooks.Common.{ℕ, arith, String, ◌≡◌, refl, true, none, length, [], ◌∷◌, ok}
use flooks.Common.Text.{split}
use flooks.Common.Dict.{lookup, insert}
use flooks.Assets.Tables.{
  EventRow, Tables, empty, asset_at, revision_at, insert_asset, insert_revision_row,
  insert_event_row,
}
use flooks.Assets.Store.{Asset, create, create_tx}
use flooks.Events.{tick, stop, run_dispatcher}
use flooks.Events.Followed.{IsFollowed}
use flooks.Http.Announced.{IsAbout, serve-IsFollowed}
use flooks.Http.Wire.{Response, asset, valid_document, singular_kind}
use flooks.Http.Routes.{Server, serve}
use flooks.Http.Routes as routing
use flooks.Http.Noted.{Sent, noting, noting_services, AreMeant}
use flooks.Http.Sent.{start, request, Requests-AreMeant}
use flooks.Postgres.Compile.{
  compile, select_metrics, select_metric, metric_sql, filter_loop, filter_step, filter_eq,
  filter_between,
}
use flooks.Postgres.Execute.{
  ConnectorError, connector, collect, read_rows, fill_row, normalize, type_name,
}
use flooks.Postgres.Execute as postgres
use flooks.Http.Handlers.{execute_query, create_asset}
use flooks.Domain.Manifest.{dimension, metric}
use flooks.Domain.Value.{as_array}
use flooks.Domain.Spec.{cache_key}
use flooks.Domain.Dates.Defs.{dates, parse_day, before}
use flooks.Query.Validate.Defs.{
  validate, validate_with, clamp_limit, check_dimension, check_metric, check_filter, check_sort,
  contains,
}
use flooks.Postgres.Identifier.{identifier, check_part, check_char, validate_manifest}
use flooks.Query.Service.{
  Service, new_service, register, check_manifest, add_manifests, execute, cached, fly, run_query,
  keep_result,
}
use flooks.Tests.Data.{sales, manifests, by_region, printer, codec, call}
use flooks.Tests.Connector.{database, redis}
use flooks.Tests.Requests.{readers, request as plain, run, refusing}

abbrev noted_service : Service (ℕ × Sent) (ConnectorError String)
noted_service = record {
  manifests = manifests;
  connectors = ("analytics", connector (noting database) printer "analytics") ∷ [];
  has_cache = true;
}

noted_service_made :
    new_service (sales ∷ []) (connector (noting database) printer "analytics" ∷ []) true
    ≡ ok noted_service
unfolding new_service register add_manifests check_manifest lookup insert validate_manifest
    identifier split check_part check_char
noted_service_made = refl

-- Every body that asks for a query asks for the one by region.
abbrev noted_server : Server (ℕ × Sent) (ConnectorError String)
noted_server = record {
  readers = record readers { query_spec = λ body. ok by_region };
  codec = codec;
  env = call 2;
  services = noting_services redis;
  service = noted_service;
  invalid_text = λ e. "invalid";
  execute_text = λ e. "failed";
  metadata = none;
  redis = none;
  analytics = none;
  entries = manifests;
  can_flush = true;
  signals = [];
}

abbrev asked : Response × Tables × (ℕ × Sent)
asked = serve noted_server routing.execute_query plain empty empty (7, [])

Requests-AreMeant_example : AreMeant printer manifests asked.2.1
Requests-AreMeant_example =
    Requests-AreMeant database printer redis (sales ∷ []) "analytics" true noted_service
      noted_service_made asked.1 asked.2
      (request noted_server routing.execute_query plain empty asked.0 start (refl, refl) refl)

-- That request sent one text.
asked_once : length asked.2.1 ≡ 1
unfolding serve execute_query execute validate validate_with dates parse_day before clamp_limit
    check_dimension check_metric check_filter check_sort dimension metric contains lookup cache_key
    cached fly run_query keep_result postgres.execute collect read_rows fill_row normalize type_name
    insert compile identifier split check_part check_char select_metrics select_metric metric_sql
    filter_loop filter_step filter_eq filter_between as_array
asked_once = refl

-- A chart is created; a first run of the dispatcher finds Redis gone, and a second one does not.
abbrev drawn : Response × Tables × (ℕ × Sent)
drawn = serve noted_server routing.create_asset plain empty empty (7, [])

drawn_status : drawn.0.status ≡ 201
unfolding serve create_asset valid_document singular_kind create create_tx insert_asset
    insert_revision_row insert_event_row asset_at revision_at
drawn_status = refl

serve-IsFollowed_example :
    (item : Asset) × (drawn.0.body ≡ asset item)
    × (event : EventRow) × IsAbout item "created" event
    × IsFollowed event (
        run_dispatcher
          (tick run ∷ [])
          (run_dispatcher (tick refusing ∷ stop ∷ []) (record { tables = drawn.1; channel = [] })))
serve-IsFollowed_example =
    serve-IsFollowed noted_server routing.create_asset plain empty empty (7, []) "created" []
      (tick refusing ∷ stop ∷ []) (tick run ∷ []) refl (omega (arith, drawn_status))
