-- ===== src/Events/Delivery.antt =====
-- Which events a run of the dispatcher marks as published.
use flooks.Common.{
  ℕ, ◌≡◌, refl, sym, ◌∙◌, inl, inr, Bool, true, false, Bool-cases, some, List, [], ◌∷◌, All, Any,
  Any-map, nat_eq, nat_eq_iff, arith, if◌then◌else◌, leb, All-keep, All-take,
}
use flooks.Assets.Tables.{EventRow, is_some, asset_at}
use flooks.Assets.Invariant.{IsConsistent, events_of}
use flooks.Events.{
  World, Run, Published, answered, refused, unanswered, mark_row, mark, send, publish_all, flush,
  unpublished, insert_by_id, sort_by_id,
}

abbrev pub WasSent : List EventRow → EventRow → Type 0
WasSent channel row = is_some row.published_at ≡ true → Any (λ m. m.id ≡ row.id) channel

-- Every row that is marked as published was handed to Redis.
abbrev pub IsDelivered : World → Type 0
IsDelivered w = All (WasSent w.channel) w.tables.outbox

send-WasSent :
    (e : EventRow) (channel rows : List EventRow)
    → All (WasSent channel) rows
    → All (WasSent (e ∷ channel)) rows
send-WasSent e channel [] h = tt
send-WasSent e channel (row ∷ rows) (p, h) = (λ k. inr (p k), send-WasSent e channel rows h)

mark_one :
    (b : Bool) (now : ℕ) (e row : EventRow) (channel : List EventRow)
    → Any (λ m. m.id ≡ e.id) channel
    → (b ≡ true → e.id ≡ row.id)
    → WasSent channel row
    → WasSent channel (if b then record row { published_at = some now } else row)
mark_one true now e row channel there same h = λ k. Any-map (λ m q. q ∙ same refl) channel there
mark_one false now e row channel there same h = h

mark-WasSent :
    (now : ℕ) (e : EventRow) (channel rows : List EventRow)
    → Any (λ m. m.id ≡ e.id) channel
    → All (WasSent channel) rows
    → All (WasSent channel) (mark_row now e.id rows)
unfolding mark_row
mark-WasSent now e channel [] there h = tt
mark-WasSent now e channel (row ∷ rows) there (p, h) = (
  mark_one (nat_eq row.id e.id) now e row channel there (λ q. sym ((nat_eq_iff row.id e.id).0 q)) p,
  mark-WasSent now e channel rows there h,
)

-- Marking an event that was handed to Redis.
pub mark-IsDelivered :
    (now : ℕ) (e : EventRow) (w : World)
    → Any (λ m. m.id ≡ e.id) w.channel
    → IsDelivered w
    → IsDelivered (mark now e w)
mark-IsDelivered now e w there h = mark-WasSent now e w.channel w.tables.outbox there h

pub sent-IsDelivered : (e : EventRow) (w : World) → IsDelivered w → IsDelivered (send e w)
sent-IsDelivered e w h = send-WasSent e w.channel w.tables.outbox h

marked-IsDelivered :
    (b : Bool) (now : ℕ) (e : EventRow) (w : World)
    → IsDelivered w
    → IsDelivered (if b then mark now e (send e w) else send e w)
marked-IsDelivered true now e w h =
    mark-IsDelivered now e (send e w) (inl refl) (sent-IsDelivered e w h)
marked-IsDelivered false now e w h = sent-IsDelivered e w h

-- What holds of every row holds of a batch.
module _ (Q : EventRow → Type 0) where
  pub insert_by_id-All :
      (e : EventRow) (es : List EventRow) → Q e → All Q es → All Q (insert_by_id e es)
  unfolding insert_by_id
  insert_by_id-All e [] q h = (q, tt)
  insert_by_id-All e (x ∷ xs) q (p, h) = placed (leb e.id x.id) (insert_by_id-All e xs q h)
    where
      placed :
          (b : Bool)
          → All Q (insert_by_id e xs)
          → All Q (if b then e ∷ x ∷ xs else x ∷ insert_by_id e xs)
      placed true k = (q, (p, h))
      placed false k = (p, k)

  pub sort_by_id-All : (es : List EventRow) → All Q es → All Q (sort_by_id es)
  unfolding sort_by_id
  sort_by_id-All [] h = tt
  sort_by_id-All (e ∷ es) (q, h) = insert_by_id-All e (sort_by_id es) q (sort_by_id-All es h)

  pub unpublished-All : (rows : List EventRow) → All Q rows → All Q (unpublished rows)
  unfolding unpublished
  unpublished-All rows h = All-take Q 100 _ (sort_by_id-All _ (All-keep Q _ rows h))

-- What sending and marking an event of which Q holds keep, a run keeps, if Q holds of the outbox.
module _ (P : World → Type 0) (Q : EventRow → Type 0)
    (sends : (e : EventRow) (w : World) → Q e → P w → P (send e w))
    (marks : (b : Bool) (now : ℕ) (e : EventRow) (w : World)
      → Q e
      → P w
      → P (if b then mark now e (send e w) else send e w)) where
  pub publish_all_keeps :
      (run : Run) (es : List EventRow) (w : World) → All Q es → P w → P (publish_all run es w)
  unfolding publish_all
  publish_all_keeps run [] w q h = h
  publish_all_keeps run (e ∷ es) w (q, qs) h =
      go (run.publish e) (publish_all_keeps run es _ qs (marks (run.marks e) run.now e w q h))
        (sends e w q h)
    where
      go :
          (p : Published)
          → P (publish_all run es (if run.marks e then mark run.now e (send e w) else send e w))
          → P (send e w)
          → P (elim p [
            | answered ↦
                publish_all run es (if run.marks e then mark run.now e (send e w) else send e w)
            | refused ↦ w
            | unanswered ↦ send e w
          ])
      go answered on sent = on
      go refused on sent = h
      go unanswered on sent = sent

  pub flush_keeps : (run : Run) (w : World) → All Q w.tables.outbox → P w → P (flush run w)
  unfolding flush
  flush_keeps run w q h = elim (Bool-cases run.query_fails) [
    | inl e ↦ rw e h
    | inr e ↦ rw e (publish_all_keeps run _ w (All-keep Q run.scans _ (unpublished-All Q _ q)) h)
  ]

abbrev pub Anything : EventRow → Type 0
Anything e = Unit

pub all_of : (es : List EventRow) → All Anything es
all_of [] = tt
all_of (e ∷ es) = (tt, all_of es)

events_of-mark_row :
    (id now k : ℕ) (rows : List EventRow) → events_of id (mark_row now k rows) ≡ events_of id rows
unfolding mark_row
events_of-mark_row id now k [] = refl
events_of-mark_row id now k (e ∷ es) = ground (arith, events_of-mark_row id now k es)

abbrev pub HasConsistentTables : World → Type 0
HasConsistentTables w = IsConsistent w.tables

pub mark-IsConsistent :
    (now : ℕ) (e : EventRow) (w : World)
    → HasConsistentTables w
    → HasConsistentTables (mark now e w)
unfolding asset_at
mark-IsConsistent now e w h = record {
  revisions = h.revisions;
  events = λ id. events_of-mark_row id now e.id w.tables.outbox ∙ h.events id;
}

marked-IsConsistent :
    (b : Bool) (now : ℕ) (e : EventRow) (w : World)
    → HasConsistentTables w
    → HasConsistentTables (if b then mark now e (send e w) else send e w)
marked-IsConsistent true now e w h = mark-IsConsistent now e (send e w) h
marked-IsConsistent false now e w h = h

-- Whatever fails in a run of the dispatcher, every event that the outbox marks as published was
-- handed to Redis, if that was so before; and the tables stay consistent.
flush-IsDelivered :
    (run : Run) (w : World)
    → IsDelivered w
    → IsConsistent w.tables
    → IsDelivered (flush run w) × IsConsistent (flush run w).tables
flush-IsDelivered run w h c = (
  flush_keeps IsDelivered Anything (λ e v q. sent-IsDelivered e v)
      (λ b now e v q. marked-IsDelivered b now e v) run w (all_of w.tables.outbox) h,
  flush_keeps HasConsistentTables Anything (λ e v q k. k)
      (λ b now e v q. marked-IsConsistent b now e v) run w (all_of w.tables.outbox) c,
)
