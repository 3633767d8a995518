-- ===== src/Events/Interleaved.antt =====
-- internal/events/dispatcher.go: `Run`, with the statements of `flush` between those of the clients
-- that use the store.
use flooks.Common.{
  ℕ, ◌≡◌, sym, subst, ap, inl, Bool, Option, none, some, List, [], ◌∷◌, All, Any, keep,
}
use flooks.Assets.Tables.{EventRow, Tables, empty, archive_asset}
use flooks.Assets.Store.{Codec}
use flooks.Assets.Store.Writes.{create_tx_writes, update_tx_writes}
use flooks.Assets.Invariant.{
  IsConsistent, create_tx-IsConsistent, update_tx-IsConsistent, archive-IsConsistent,
}
use flooks.Assets.History.{Step, Step_keeps, here, Reach-IsConsistent}
use flooks.Events.{World, mark, send, unpublished}
use flooks.Events.Delivery.{
  WasSent, IsDelivered, sent-IsDelivered, mark-IsDelivered, mark-IsConsistent,
}

-- The world, the rest of the rows that the loop of `flush` goes through, and an event that was handed
-- to Redis and is still to be marked.
pub record Dispatch : Type 0 where
  pub world : World
  pub pending : List EventRow
  pub sent : Option EventRow

abbrev pub idle : World → Dispatch
idle w = record { world = w; pending = []; sent = none }

-- A client's method, or the next statement of the dispatcher: at a tick of its clock the query, with
-- the rows that could be scanned; the publication of a row, whose answer may be lost, which ends the
-- run; a publication that is refused; and the update behind a publication, which may fail.
pub data Move (codec : Codec) (s : Dispatch) (t : Dispatch) : Type 0 where
  client :
      (u : Tables)
      → Step codec s.world.tables u
      → t ≡ record s { world = record s.world { tables = u } }
      → Move codec s t
  query :
      (scans : EventRow → Bool)
      → s.pending ≡ []
      → s.sent ≡ none
      → t ≡ record s { pending = keep scans (unpublished s.world.tables.outbox) }
      → Move codec s t
  publish :
      (e : EventRow) (rest : List EventRow)
      → s.pending ≡ e ∷ rest
      → s.sent ≡ none
      → t ≡ record { world = send e s.world; pending = rest; sent = some e }
      → Move codec s t
  lose :
      (e : EventRow) (rest : List EventRow)
      → s.pending ≡ e ∷ rest
      → s.sent ≡ none
      → t ≡ idle (send e s.world)
      → Move codec s t
  refuse : s.sent ≡ none → t ≡ idle s.world → Move codec s t
  mark_sent :
      (e : EventRow) (now : ℕ)
      → s.sent ≡ some e
      → t ≡ record s { world = mark now e s.world; sent = none }
      → Move codec s t
  leave_unmarked : t ≡ record s { sent = none } → Move codec s t

pub data Moves (codec : Codec) : Dispatch → Type 0 where
  start : Moves codec (idle (record { tables = empty; channel = [] }))
  move : {s t : Dispatch} → Moves codec s → Move codec s t → Moves codec t

-- An event that is still to be marked was handed to Redis.
abbrev SentFirst : Dispatch → Type 0
SentFirst s = (e : EventRow) → s.sent ≡ some e → Any (λ m. m.id ≡ e.id) s.world.channel

record IsSound (s : Dispatch) : Type 0 where
  consistent : IsConsistent s.world.tables
  delivered : IsDelivered s.world
  first : SentFirst s

some_is : (x y : EventRow) → ◌≡◌ {A = Option EventRow} (some x) (some y) → x ≡ y
some_is x y h = cc

module _ (codec : Codec) where
  client-WasSent :
      (channel : List EventRow) {t u : Tables}
      → Step codec t u
      → All (WasSent channel) t.outbox
      → All (WasSent channel) u.outbox
  unfolding archive_asset
  client-WasSent channel st h =
      Step_keeps codec (λ t. All (WasSent channel) t.outbox)
        (λ env kind slug title summary document t u a k e.
          let (d, hd, fresh, hk, ht, hr, ha, hu) =
            create_tx_writes codec env kind slug title summary document t u a e in
          rw hu (λ j. cc, k))
        (λ env id base title summary document t u a k e.
          let (x, found, hb, low, hr, d, hd, ha, hu) =
            update_tx_writes codec env id base title summary document t u a e in
          rw hu (λ j. cc, k))
        (λ env id t k. k) st h

  pub client-IsConsistent : {t u : Tables} → Step codec t u → IsConsistent t → IsConsistent u
  client-IsConsistent st c =
      Step_keeps codec IsConsistent
        (λ env kind slug title summary document t u a k e.
          create_tx-IsConsistent codec env kind slug title summary document t u a k e)
        (λ env id base title summary document t u a k e.
          update_tx-IsConsistent codec env id base title summary document t u a k e)
        (λ env id t k. archive-IsConsistent codec env id t k) st c

  Move-IsSound : (s t : Dispatch) → Move codec s t → IsSound s → IsSound t
  Move-IsSound s t (client u st e) v = subst IsSound (sym e) (record {
    consistent = client-IsConsistent st v.consistent;
    delivered = client-WasSent s.world.channel st v.delivered;
    first = v.first;
  })
  Move-IsSound s t (query scans p q e) v =
      subst IsSound (sym e)
        (record { consistent = v.consistent; delivered = v.delivered; first = v.first })
  Move-IsSound s t (publish x rest p q e) v = subst IsSound (sym e) (record {
    consistent = v.consistent;
    delivered = sent-IsDelivered x s.world v.delivered;
    first = λ y same. inl (ap (λ (z : EventRow). z.id) (some_is x y same));
  })
  Move-IsSound s t (lose x rest p q e) v = subst IsSound (sym e) (record {
    consistent = v.consistent;
    delivered = sent-IsDelivered x s.world v.delivered;
    first = λ y same. cc;
  })
  Move-IsSound s t (refuse q e) v =
      subst IsSound (sym e)
        (record { consistent = v.consistent; delivered = v.delivered; first = λ y same. cc })
  Move-IsSound s t (mark_sent x now q e) v = subst IsSound (sym e) (record {
    consistent = mark-IsConsistent now x s.world v.consistent;
    delivered = mark-IsDelivered now x s.world (v.first x q) v.delivered;
    first = λ y same. cc;
  })
  Move-IsSound s t (leave_unmarked e) v =
      subst IsSound (sym e)
        (record { consistent = v.consistent; delivered = v.delivered; first = λ y same. cc })

  Moves-IsSound : (s : Dispatch) → Moves codec s → IsSound s
  Moves-IsSound s start = record {
    consistent = Reach-IsConsistent codec empty here;
    delivered = tt;
    first = λ e h. cc;
  }
  Moves-IsSound s (move r st) = Move-IsSound _ s st (Moves-IsSound _ r)

-- However the statements of the dispatcher fall between the methods of the clients, and whatever
-- fails: every event that the outbox marks as published was handed to Redis, and the revisions of each
-- asset are 1 to its latest with exactly one event each.
pub Moves-IsDelivered :
    (codec : Codec) (s : Dispatch)
    → Moves codec s
    → IsDelivered s.world × IsConsistent s.world.tables
Moves-IsDelivered codec s r = let v = Moves-IsSound codec s r in (v.delivered, v.consistent)
