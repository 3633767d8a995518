-- ===== src/Events/Batch.antt =====
-- What one run of the dispatcher hands to Redis.
use mathlib.Core.List.{reverse, Perm}
use mathlib.Core.List.Perm
use flooks.Common.{◌≤◌, ◌≡◌, ◌≢◌, ◌⊎◌, false, List, [], ◌∷◌, ◌++◌, All, keep, not, length}
use flooks.Assets.Tables.{EventRow, is_some}
use flooks.Events.{World, Run, answered, refused, unanswered}
use flooks.Events.Marks.{IsPublished}

-- Each id is at most the next one.
abbrev pub IsAscending : List EventRow → Type 0
IsAscending [] = Unit
IsAscending (e ∷ []) = Unit
IsAscending (e ∷ f ∷ es) = (e.id ≤ f.id) × IsAscending (f ∷ es)

-- A hundred of the unpublished events, or all of them, with the least ids, in their order.
pub record IsBatch (rows batch : List EventRow) : Type 0 where
  pub later : List EventRow
  pub all : Perm (batch ++ later) (keep (λ (e : EventRow). not (is_some e.published_at)) rows)
  pub ascending : IsAscending (batch ++ later)
  pub full : (later ≡ []) ⊎ (length batch ≡ 100)

-- How far a run comes: to the first event that Redis refuses, or whose answer is lost.
pub data AreSent (run : Run) : List EventRow → List EventRow → Type 0 where
  finished : AreSent run [] []
  stopped : {e : EventRow} {es : List EventRow} → run.publish e ≡ refused → AreSent run (e ∷ es) []
  lost :
      {e : EventRow} {es : List EventRow}
      → run.publish e ≡ unanswered
      → AreSent run (e ∷ es) (e ∷ [])
  handed :
      {e : EventRow} {es sent : List EventRow}
      → run.publish e ≡ answered
      → AreSent run es sent
      → AreSent run (e ∷ es) (e ∷ sent)

-- Redis was handed those events, in their order, and each that was answered is marked as published,
-- unless that update failed.
pub record AreHanded (run : Run) (batch : List EventRow) (w v : World) : Type 0 where
  pub sent : List EventRow
  pub reach : AreSent run batch sent
  pub channel : v.channel ≡ reverse sent ++ w.channel
  pub marked :
      All
        (λ (e : EventRow).
          (run.publish e ≢ answered) ⊎ (run.marks e ≡ false) ⊎ IsPublished e.id v.tables.outbox)
        sent
