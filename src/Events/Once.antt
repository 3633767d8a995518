-- ===== src/Events/Once.antt =====
-- How often the dispatcher hands an event to Redis.
use flooks.Common.{
  ℕ, ◌≡◌, ◌≢◌, refl, sym, subst, Bool, true, false, Bool-cases, inl, inr, not, List, [], ◌∷◌, All,
  All-map, All-keep, All-take, keep, arith, if◌then◌else◌,
}
use flooks.Assets.Tables.{EventRow, Tables, empty, is_some, archive_asset}
use flooks.Assets.Store.{Codec}
use flooks.Assets.Noted.{create_tx-IsNoted, update_tx-IsNoted, others_apart}
use flooks.Assets.History.{Reach, Reach_keeps}
use flooks.Events.{
  World, Run, Tick, stop, tick, Published, answered, refused, unanswered, mark, send, publish_all,
  unpublished, flush, run_dispatcher,
}
use flooks.Events.Delivery.{sort_by_id-All, unpublished-All}
use flooks.Events.Distinct.{
  IsApart, AreDistinct, keep-AreDistinct, unpublished-AreDistinct, mark_row-AreDistinct,
}
use flooks.Events.Marks.{IsPublished, mark_row-IsPublished, mark_row_self}

-- Every answer of Redis arrives, and every update behind it is done.
pub record IsLossless (run : Run) : Type 0 where
  pub answers : (e : EventRow) → run.publish e ≢ unanswered
  pub marks : (e : EventRow) → run.marks e ≡ true

-- No event was handed to Redis twice, those that were are marked, and the events of a batch, each
-- there once, were not.
record IsOnce (es : List EventRow) (w : World) : Type 0 where
  rows : AreDistinct w.tables.outbox
  sent : All (λ (m : EventRow). IsPublished m.id w.tables.outbox) w.channel
  once : AreDistinct w.channel
  batch : AreDistinct es
  later : All (λ (m : EventRow). All (IsApart m.id) es) w.channel

marked-IsOnce :
    (now : ℕ) (e : EventRow) (es : List EventRow) (w : World)
    → IsOnce (e ∷ es) w
    → IsOnce es (mark now e (send e w))
marked-IsOnce now e es w h = record {
  rows = mark_row-AreDistinct now e.id w.tables.outbox h.rows;
  sent = (
    mark_row_self now e.id w.tables.outbox,
    All-map (λ m p. mark_row-IsPublished m.id now e.id w.tables.outbox p) w.channel h.sent,
  );
  once = (All-map (λ m p q. p.0 (sym q)) w.channel h.later, h.once);
  batch = h.batch.1;
  later = (h.batch.0, All-map (λ m p. p.1) w.channel h.later);
}

stopped-IsOnce : (es : List EventRow) (w : World) → IsOnce es w → IsOnce [] w
stopped-IsOnce es w h = record {
  rows = h.rows;
  sent = h.sent;
  once = h.once;
  batch = tt;
  later = All-map (λ m p. tt) w.channel h.later;
}

publish_all-IsOnce :
    (run : Run) (es : List EventRow) (w : World)
    → IsLossless run
    → IsOnce es w
    → IsOnce [] (publish_all run es w)
unfolding publish_all
publish_all-IsOnce run [] w c h = h
publish_all-IsOnce run (e ∷ es) w c h =
    go (run.publish e) (run.marks e) (c.marks e) (c.answers e)
      (publish_all-IsOnce run es (mark run.now e (send e w)) c (marked-IsOnce run.now e es w h))
  where
    go :
        (p : Published) (b : Bool)
        → b ≡ true
        → p ≢ unanswered
        → IsOnce [] (publish_all run es (mark run.now e (send e w)))
        → IsOnce [] (elim p [
          | answered ↦ publish_all run es (if b then mark run.now e (send e w) else send e w)
          | refused ↦ w
          | unanswered ↦ send e w
        ])
    go answered true q n on = on
    go answered false q n on = cc
    go refused b q n on = stopped-IsOnce (e ∷ es) w h
    go unanswered b q n on = absurd (n refl)

-- The rows that pass a test pass it.
keep_passes :
    (p : EventRow → Bool) (es : List EventRow) → All (λ (e : EventRow). p e ≡ true) (keep p es)
keep_passes p [] = tt
keep_passes p (e ∷ es) = kept (p e) refl (keep_passes p es)
  where
    kept :
        (b : Bool)
        → p e ≡ b
        → All (λ (x : EventRow). p x ≡ true) (keep p es)
        → All (λ (x : EventRow). p x ≡ true) (if b then e ∷ keep p es else keep p es)
    kept true q k = (q, k)
    kept false q k = k

abbrev Waits : EventRow → Type 0
Waits e = not (is_some e.published_at) ≡ true

unpublished_passes :
    (rows : List EventRow)
    → All (λ (e : EventRow). not (is_some e.published_at) ≡ true) (unpublished rows)
unfolding unpublished
unpublished_passes rows = All-take Waits 100 _ (sort_by_id-All Waits _ (keep_passes _ rows))

abbrev Marked : ℕ → EventRow → Type 0
Marked id e = e.id ≡ id → is_some e.published_at ≡ true

-- An event whose rows are all marked is not among those that wait.
published-IsApart :
    (id : ℕ) (es : List EventRow)
    → IsPublished id es
    → All (λ (e : EventRow). not (is_some e.published_at) ≡ true) es
    → All (IsApart id) es
published-IsApart id [] h k = tt
published-IsApart id (e ∷ es) (p, h) (q, k) =
    (λ same. ground (arith, p same, q), published-IsApart id es h k)

batch-IsOnce :
    (run : Run) (w : World) → IsOnce [] w → IsOnce (keep run.scans (unpublished w.tables.outbox)) w
batch-IsOnce run w h = record {
  rows = h.rows;
  sent = h.sent;
  once = h.once;
  batch = keep-AreDistinct run.scans _ (unpublished-AreDistinct w.tables.outbox h.rows);
  later =
      All-map
        (λ m p. All-keep (IsApart m.id) run.scans _ (
          published-IsApart m.id _ (unpublished-All (Marked m.id) w.tables.outbox p)
            (unpublished_passes w.tables.outbox)))
        w.channel h.sent;
}

flush-IsOnce : (run : Run) (w : World) → IsLossless run → IsOnce [] w → IsOnce [] (flush run w)
unfolding flush
flush-IsOnce run w c h = elim (Bool-cases run.query_fails) [
  | inl e ↦ rw e h
  | inr e ↦ rw e (publish_all-IsOnce run _ w c (batch-IsOnce run w h))
]

abbrev pub IsLosslessTick : Tick → Type 0
IsLosslessTick stop = Unit
IsLosslessTick (tick run) = IsLossless run

run_dispatcher-IsOnce :
    (ticks : List Tick) (w : World)
    → All IsLosslessTick ticks
    → IsOnce [] w
    → IsOnce [] (run_dispatcher ticks w)
unfolding run_dispatcher
run_dispatcher-IsOnce [] w c h = h
run_dispatcher-IsOnce (stop ∷ ticks) w c h = h
run_dispatcher-IsOnce (tick run ∷ ticks) w (c, cs) h =
    run_dispatcher-IsOnce ticks (flush run w) cs (flush-IsOnce run w c h)

Reach-AreDistinct : (codec : Codec) (t : Tables) → Reach codec empty t → AreDistinct t.outbox
Reach-AreDistinct codec t reach =
    Reach_keeps codec (λ u. AreDistinct u.outbox)
      (λ env kind slug title summary document w u a h e.
        let noted = create_tx-IsNoted codec env kind slug title summary document w u a e in
        subst AreDistinct (sym noted.added) (others_apart noted.event.id w.outbox noted.fresh, h))
      (λ env id base title summary document w u a h e.
        let noted = update_tx-IsNoted codec env id base title summary document w u a e in
        subst AreDistinct (sym noted.added) (others_apart noted.event.id w.outbox noted.fresh, h))
      (λ env id w h. unfold archive_asset in h) reach tt

-- A dispatcher, and one that is started behind it, over tables whose events Redis was not handed.
abbrev pub restarted : List Tick → List Tick → Tables → World
restarted before ticks t =
    run_dispatcher ticks (run_dispatcher before (record { tables = t; channel = [] }))

-- Over tables that the store's methods made: where no answer of Redis is lost and no update of the
-- dispatcher fails, whatever else does, and though the dispatcher stops and another starts, no event is
-- handed to Redis twice, and each that was handed is marked as published.
pub run_dispatcher-once :
    (codec : Codec) (t : Tables) (before ticks : List Tick)
    → Reach codec empty t
    → All IsLosslessTick before
    → All IsLosslessTick ticks
    → AreDistinct (restarted before ticks t).channel
      × All
          (λ (m : EventRow). IsPublished m.id (restarted before ticks t).tables.outbox)
          (restarted before ticks t).channel
run_dispatcher-once codec t before ticks reach c d =
    let h = run_dispatcher-IsOnce ticks _ d (
      run_dispatcher-IsOnce before _ c (record {
        rows = Reach-AreDistinct codec t reach;
        sent = tt;
        once = tt;
        batch = tt;
        later = tt;
      })) in
    (h.once, h.sent)
