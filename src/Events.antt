-- ===== src/Events.antt =====
-- internal/events/dispatcher.go: the dispatcher that publishes the outbox to Redis.
pub mod Delivery
pub mod Marks
pub mod Batch
pub mod Interleaved
pub mod Followed
pub mod Distinct
pub mod Once
use flooks.Common.{
  ℕ, String, Bool, true, false, ◌&&◌, not, Option, none, some, List, [], ◌∷◌, take, keep, leb,
  nat_eq, if◌then◌else◌,
}
use flooks.Assets.Tables.{EventRow, Tables, is_some}

-- The tables, and the events that Redis was handed, newest first.
pub record World : Type 0 where
  pub tables : Tables
  pub channel : List EventRow

-- What go-redis makes of `Publish`, which is not in the repository, and of the `json.RawMessage` that it
-- is given: the call is answered, or refused, before or by Redis, or done with its answer lost.
pub data Published : Type 0 where
  answered refused unanswered : Published

-- The clock, and which calls fail in one run of `flush`: the query, the scan of a row, the
-- publication of an event, and the update that marks it.
pub record Run : Type 0 where
  pub now : ℕ
  pub query_fails : Bool
  pub scans : EventRow → Bool
  pub publish : EventRow → Published
  pub marks : EventRow → Bool

-- `ORDER BY id`
unfoldable pub insert_by_id : EventRow → List EventRow → List EventRow
insert_by_id e [] = e ∷ []
insert_by_id e (x ∷ xs) = if leb e.id x.id then e ∷ x ∷ xs else x ∷ insert_by_id e xs

unfoldable pub sort_by_id : List EventRow → List EventRow
unfolding insert_by_id
sort_by_id [] = []
sort_by_id (e ∷ es) = insert_by_id e (sort_by_id es)

-- `SELECT … WHERE published_at IS NULL ORDER BY id LIMIT 100`
unfoldable pub unpublished : List EventRow → List EventRow
unfolding sort_by_id
unpublished rows = take 100 (sort_by_id (keep (λ e. not (is_some e.published_at)) rows))

-- `UPDATE outbox_events SET published_at=now() WHERE id=$1`
unfoldable pub mark_row : ℕ → ℕ → List EventRow → List EventRow
mark_row now id [] = []
mark_row now id (e ∷ es) =
    (if nat_eq e.id id then record e { published_at = some now } else e) ∷ mark_row now id es

abbrev pub send : EventRow → World → World
send e w = record w { channel = e ∷ w.channel }

abbrev pub mark : ℕ → EventRow → World → World
mark now e w = record w { tables = record w.tables { outbox = mark_row now e.id w.tables.outbox } }

-- The loop over the pending events.
unfoldable pub publish_all : Run → List EventRow → World → World
unfolding mark_row
publish_all run [] w = w
publish_all run (e ∷ es) w = elim (run.publish e) [
  | answered ↦ publish_all run es (if run.marks e then mark run.now e (send e w) else send e w)
  | refused ↦ w
  | unanswered ↦ send e w
]

-- `flush`
unfoldable pub flush : Run → World → World
unfolding unpublished publish_all
flush run w =
    if run.query_fails then w else publish_all run (keep run.scans (unpublished w.tables.outbox)) w

-- What the `select` of `Run` meets: a tick, at which `flush` meets a run, or the end of the context.
pub data Tick : Type 0 where
  stop : Tick
  tick : Run → Tick

-- `Run`
unfoldable pub run_dispatcher : List Tick → World → World
unfolding flush
run_dispatcher [] w = w
run_dispatcher (stop ∷ ticks) w = w
run_dispatcher (tick run ∷ ticks) w = run_dispatcher ticks (flush run w)
