-- ===== src/Events/Followed.antt =====
-- One event on its way through the outbox to Redis.
use flooks.Common.{
  ℕ, ◌≡◌, ◌⊎◌, inl, inr, Bool, true, false, Bool-cases, List, [], ◌∷◌, All, Any, nat_eq, nat_eq_iff,
  arith, if◌then◌else◌, some,
}
use flooks.Assets.Tables.{EventRow, is_some}
use flooks.Events.{World, Run, Tick, stop, tick, mark_row, mark, send, flush, run_dispatcher}
use flooks.Events.Delivery.{flush_keeps}

-- The event as the outbox has it, but for when it was published.
abbrev pub IsCopy : EventRow → EventRow → Type 0
IsCopy event e = (e.id ≡ event.id) × (e.topic ≡ event.topic) × (e.payload ≡ event.payload)

module _ (event : EventRow) where
  -- No other event has that id.
  abbrev pub IsOwn : EventRow → Type 0
  IsOwn e = e.id ≡ event.id → IsCopy event e

  -- The event was handed to Redis.
  abbrev pub WasHanded : World → Type 0
  WasHanded w = Any (IsCopy event) w.channel

  abbrev pub IsUnpublished : List EventRow → Type 0
  IsUnpublished rows =
      All (λ (row : EventRow). row.id ≡ event.id → is_some row.published_at ≡ false) rows

  -- The event is in the outbox, under an id of its own, and was handed to Redis or is unpublished.
  pub record IsFollowed (w : World) : Type 0 where
    pub own : All IsOwn w.tables.outbox
    pub there : Any (λ row. row.id ≡ event.id) w.tables.outbox
    pub state : WasHanded w ⊎ IsUnpublished w.tables.outbox

  sent-IsFollowed : (e : EventRow) (w : World) → IsFollowed w → IsFollowed (send e w)
  sent-IsFollowed e w h = record { own = h.own; there = h.there; state = still h.state }
    where
      still :
          WasHanded w ⊎ IsUnpublished w.tables.outbox
          → WasHanded (send e w) ⊎ IsUnpublished w.tables.outbox
      still (inl k) = inl (inr k)
      still (inr k) = inr k

  mark_row-IsOwn :
      (now k : ℕ) (rows : List EventRow) → All IsOwn rows → All IsOwn (mark_row now k rows)
  unfolding mark_row
  mark_row-IsOwn now k [] h = tt
  mark_row-IsOwn now k (row ∷ rows) (p, h) = (one (nat_eq row.id k), mark_row-IsOwn now k rows h)
    where
      one : (b : Bool) → IsOwn (if b then record row { published_at = some now } else row)
      one true = p
      one false = p

  mark_row_there :
      (now k : ℕ) (rows : List EventRow)
      → Any (λ row. row.id ≡ event.id) rows
      → Any (λ row. row.id ≡ event.id) (mark_row now k rows)
  unfolding mark_row
  mark_row_there now k [] h = h
  mark_row_there now k (row ∷ rows) (inl p) = inl (one (nat_eq row.id k))
    where
      one : (b : Bool) → (if b then record row { published_at = some now } else row).id ≡ event.id
      one true = p
      one false = p
  mark_row_there now k (row ∷ rows) (inr h) = inr (mark_row_there now k rows h)

  -- Marking another event.
  mark_row-IsUnpublished :
      (now k : ℕ) (rows : List EventRow)
      → nat_eq k event.id ≡ false
      → IsUnpublished rows
      → IsUnpublished (mark_row now k rows)
  unfolding mark_row
  mark_row-IsUnpublished now k [] n h = tt
  mark_row-IsUnpublished now k (row ∷ rows) n (p, h) = (
    λ q. ground (arith, nat_eq_iff row.id k, nat_eq_iff k event.id, p),
    mark_row-IsUnpublished now k rows n h,
  )

  marked-IsFollowed :
      (b : Bool) (now : ℕ) (e : EventRow) (w : World)
      → IsOwn e
      → IsFollowed w
      → IsFollowed (if b then mark now e (send e w) else send e w)
  marked-IsFollowed false now e w q h = sent-IsFollowed e w h
  marked-IsFollowed true now e w q h = record {
    own = mark_row-IsOwn now e.id w.tables.outbox h.own;
    there = mark_row_there now e.id w.tables.outbox h.there;
    state = either h.state;
  }
    where
      either :
          WasHanded w ⊎ IsUnpublished w.tables.outbox
          → WasHanded (send e w) ⊎ IsUnpublished (mark_row now e.id w.tables.outbox)
      either (inl k) = inl (inr k)
      either (inr k) = elim (Bool-cases (nat_eq e.id event.id)) [
        | inl same ↦ inl (inl (q ((nat_eq_iff e.id event.id).0 same)))
        | inr other ↦ inr (mark_row-IsUnpublished now e.id w.tables.outbox other k)
      ]

  flush-IsFollowed : (run : Run) (w : World) → IsFollowed w → IsFollowed (flush run w)
  flush-IsFollowed run w h =
      flush_keeps IsFollowed IsOwn (λ e v q. sent-IsFollowed e v) marked-IsFollowed run w h.own h

  pub run_dispatcher-IsFollowed :
      (ticks : List Tick) (w : World) → IsFollowed w → IsFollowed (run_dispatcher ticks w)
  unfolding run_dispatcher
  run_dispatcher-IsFollowed [] w h = h
  run_dispatcher-IsFollowed (stop ∷ ticks) w h = h
  run_dispatcher-IsFollowed (tick run ∷ ticks) w h =
      run_dispatcher-IsFollowed ticks (flush run w) (flush-IsFollowed run w h)
