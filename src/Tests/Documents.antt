-- ===== src/Tests/Documents.antt =====
-- The documents that requests leave in the tables.
use flooks.Common.{ℕ, String, ◌≡◌, refl, length}
use flooks.Assets.Tables.{
  Tables, empty, asset_at, revision_at, insert_asset, insert_revision_row, insert_event_row,
  update_asset, update_row,
}
use flooks.Assets.Store.{create, create_tx, update, update_tx, restore, restore_item, get}
use flooks.Assets.Invariant.{IsConsistent}
use flooks.Events.{mark_row}
use flooks.Http.Wire.{
  valid_document, singular_kind, etag, trim_quotes, drop_quotes, atoi, scan_digits,
}
use flooks.Http.Handlers.{create_asset, restore_revision}
use flooks.Http.Routes.{Server, serve}
use flooks.Http.Routes as routing
use flooks.Http.Documents.{AreAccepted, start, request, marked, Served-IsSound}
use flooks.Tests.Data.{codec, call}
use flooks.Tests.Requests.{readers, request as plain}
use flooks.Tests.Server.{server, event}
use flooks.Tests.Stores.{same_normal}

-- A chart is created, its first revision restored, and the first event marked.
abbrev first : Server ℕ String
first = record server { env = call 1 }

abbrev drawn : Tables
drawn = (serve first routing.create_asset plain empty empty 0).1

abbrev restored : Tables
restored = (serve server routing.restore_revision (record plain { revision = "1" }) drawn drawn 0).1

abbrev published : Tables
published = record restored { outbox = mark_row 9 event.id restored.outbox }

-- There are two revisions then.
restored_twice : length published.revisions ≡ 2
unfolding mark_row serve restore_revision restore restore_item get update update_tx update_asset
    etag trim_quotes drop_quotes atoi scan_digits create_asset valid_document singular_kind create
    create_tx insert_asset insert_revision_row insert_event_row asset_at revision_at update_row
restored_twice = refl

Served-IsSound_example : IsConsistent published × AreAccepted codec readers.header published
Served-IsSound_example = Served-IsSound codec readers.header same_normal ℕ String published (
    marked 9 event (
      request server routing.restore_revision (record plain { revision = "1" }) 0 refl refl
        (request first routing.create_asset plain 0 refl refl start start)
        (request first routing.create_asset plain 0 refl refl start start)))
