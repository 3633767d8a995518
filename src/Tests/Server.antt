-- ===== src/Tests/Server.antt =====
-- The properties of the requests, the ETag and the dispatcher.
use flooks.Common.{
  List, map, ℕ, ◌≡◌, ◌≢◌, ◌≤◌, String, refl, true, false, none, some, [], ◌∷◌, All, arith,
}
use flooks.Common.Text.{itoa}
use flooks.Assets.Tables.{
  Tables, empty, asset_at, revision_at, insert_asset, insert_revision_row, insert_event_row,
  AssetRow, EventRow,
}
use flooks.Assets.Tables as assets
use flooks.Assets.History.{by_create}
use flooks.Assets.Store.{update, update_tx, create, create_tx, get}
use flooks.Assets.Invariant.{IsConsistent}
use flooks.Assets.Bounds.{IsNumbered, Reach-IsNumbered}
use flooks.Assets.Conflict.{IsUndone}
use flooks.Http.Wire.{
  Request, valid_document, singular_kind, etag, etag_text, trim_quotes, drop_quotes, atoi,
  scan_digits,
}
use flooks.Http.Handlers.{get_asset, update_asset}
use flooks.Http.Reedit.{update_asset-get_asset}
use flooks.Http.Routes.{Method, get as get_method, Endpoint, Server, serve, routes}
use flooks.Http.Routes as routing
use flooks.Http.Safety.{serve_refused}
use flooks.Http.Stream.{Signal, done, message, events}
use flooks.Http.Received.{lines, received, messages, asset_event, IsOneLine, received-events}
use flooks.Events.{World, send, mark, unpublished, stop, tick}
use flooks.Events.Distinct.{AreDistinct}
use flooks.Events.Marks.{IsPublished}
use flooks.Events.Once.{restarted, run_dispatcher-once}
use flooks.Events.Delivery.{IsDelivered}
use flooks.Events.Interleaved.{
  idle, Moves, start as begin, move, client, query, publish, mark_sent, Moves-IsDelivered,
}
use flooks.Contract.{Operation, declared}
use flooks.Contract.Routed.{endpoint, IsRouted}
use flooks.Contract.Statuses.{HasStatus}
use flooks.Contract.Laws.{HasStates, serve-conforms}
use flooks.Tests.Data.{codec, call}
use flooks.Tests.Queries.{services, service}
use flooks.Tests.Stores.{one_chart, one_chart_reached}
use flooks.Tests.Requests.{readers, request, run, refusing}

chart_read : (get_asset readers codec (call 2) request one_chart).0.etag ≡ some "\"1\""
unfolding get_asset etag_text itoa get create create_tx insert_asset insert_revision_row
    insert_event_row asset_at revision_at atoi
chart_read = refl

update_asset-get_asset_example :
    (update_asset readers codec (call 3) request one_chart).0.status ≢ 412
update_asset-get_asset_example =
    update_asset-get_asset readers codec (call 2) (call 3) request request one_chart "\"1\""
      one_chart_reached chart_read refl refl

abbrev chart_row : AssetRow
chart_row = record {
  id = 1;
  kind = "chart";
  slug = "sales";
  title = "Sales";
  latest_revision = 1;
  archived_at = none;
  created_at = 1;
  updated_at = 1;
}

chart_stored : asset_at 1 one_chart ≡ some chart_row
unfolding create create_tx insert_asset insert_revision_row insert_event_row asset_at revision_at
chart_stored = refl

Reach-IsNumbered_example : IsNumbered chart_row
Reach-IsNumbered_example =
    Reach-IsNumbered codec one_chart 1 chart_row one_chart_reached chart_stored

-- A server whose query service is that of the tests and whose dependencies answer.
abbrev pub server : Server ℕ String
server = record {
  readers = readers;
  codec = codec;
  env = call 2;
  services = services;
  service = service;
  invalid_text = λ e. "invalid";
  execute_text = λ e. "failed";
  metadata = none;
  redis = none;
  analytics = none;
  entries = service.manifests;
  can_flush = true;
  signals = [];
}

-- One message, and the end of the request.
abbrev one_message : List Signal
one_message = message "{}" ∷ done ∷ message "late" ∷ []

one_line : All IsOneLine (messages one_message)
unfolding messages
one_line = (((λ h. cc, λ h. cc), ((λ h. cc, λ h. cc), tt)), tt)

-- "a", CR LF, "b", CR, "c", LF.
ends_of_lines :
    lines false [] (97 ∷ 13 ∷ 10 ∷ 98 ∷ 13 ∷ 99 ∷ 10 ∷ []) ≡ (97 ∷ []) ∷ (98 ∷ []) ∷ (99 ∷ []) ∷ []
unfolding lines
ends_of_lines = refl

received-events_example :
    received (events true one_message).body ≡ map asset_event (messages one_message)
received-events_example = received-events one_message one_line

-- An update behind one that another client made.
abbrev late_request : Request
late_request = record request { if_match = "\"7\"" }

late_answer : (serve server routing.update_asset late_request one_chart one_chart 0).0.status ≡ 412
unfolding serve update_asset update update_tx assets.update_asset etag trim_quotes drop_quotes atoi
    scan_digits create create_tx insert_asset insert_revision_row insert_event_row asset_at
    revision_at valid_document singular_kind
late_answer = refl

late_status : 400 ≤ (serve server routing.update_asset late_request one_chart one_chart 0).0.status
late_status = omega (arith, late_answer)

serve_refused_example :
    IsUndone
      (call 2)
      one_chart
      (serve server routing.update_asset late_request one_chart one_chart 0).1
serve_refused_example =
    serve_refused server routing.update_asset late_request one_chart one_chart 0 late_status

-- A chart is created, and its event is published and marked.
abbrev pub event : EventRow
event = record {
  id = 1;
  topic = "flooks:asset-events";
  payload = record {
    resource_type = "chart";
    resource_id = 1;
    revision = 1;
    event_type = "created";
  };
  created_at = 1;
  published_at = none;
}

abbrev started : World
started = record { tables = one_chart; channel = [] }

abbrev finished : World
finished = mark 9 event (send event started)

finished_reached : Moves codec (idle finished)
unfolding unpublished create create_tx insert_asset insert_revision_row insert_event_row asset_at
    revision_at
finished_reached =
    move
      (move
        (move
          (move begin
            (client one_chart (by_create (call 1) "chart" "sales" "Sales" "first" "{}" refl) refl))
          (query (λ e. true) refl refl refl))
        (publish event [] refl refl refl))
      (mark_sent event 9 refl refl)

Moves-IsDelivered_example : IsDelivered finished × IsConsistent finished.tables
Moves-IsDelivered_example = Moves-IsDelivered codec (idle finished) finished_reached

-- A dispatcher that Redis refuses, and one behind it that it does not.
run_dispatcher-once_example :
    AreDistinct (restarted (tick refusing ∷ stop ∷ []) (tick run ∷ tick run ∷ []) one_chart).channel
    × All
        (λ (m : EventRow).
          IsPublished m.id
            (restarted
              (tick refusing ∷ stop ∷ [])
              (tick run ∷ tick run ∷ [])
              one_chart).tables.outbox)
        (restarted (tick refusing ∷ stop ∷ []) (tick run ∷ tick run ∷ []) one_chart).channel
run_dispatcher-once_example =
    run_dispatcher-once codec one_chart (tick refusing ∷ stop ∷ []) (tick run ∷ tick run ∷ [])
      one_chart_reached (record { answers = λ e h. cc; marks = λ e. refl }, (tt, tt))
      (
        record { answers = λ e h. cc; marks = λ e. refl },
        (record { answers = λ e h. cc; marks = λ e. refl }, tt),
      )

serve-conforms_example :
    IsRouted Operation.update_asset
    × HasStatus
        (declared Operation.update_asset)
        (serve server (endpoint Operation.update_asset) late_request one_chart one_chart 0).0
    × HasStates Operation.update_asset
        (serve server (endpoint Operation.update_asset) late_request one_chart one_chart 0).0.body
serve-conforms_example =
    serve-conforms server late_request one_chart one_chart 0 Operation.update_asset
