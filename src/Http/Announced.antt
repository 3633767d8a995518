-- ===== src/Http/Announced.antt =====
-- From a request that writes an asset to the event that the dispatcher hands to Redis.
use flooks.Common.{
  ℕ, ◌≤◌, ◌<◌, String, ◌≡◌, refl, sym, ap, subst, inl, inr, Bool, Option, none, some, List, ◌∷◌,
  All, Any, find_first, nat_eq, Result, ok, err, arith, All-map,
}
use flooks.Common.Int.{ℤ}
use flooks.Common.Text.{codes}
use flooks.Assets.Tables.{EventRow, Tables, StoreError, conflict, no_rows, failed, is_some}
use flooks.Assets.Store.{Asset, Codec, Env, create, update, restore}
use flooks.Assets.Noted.{
  others_apart, IsNoted, payload_of, create-IsNoted, update-IsNoted, restore-IsNoted,
}
use flooks.Events.{World, Tick, run_dispatcher}
use flooks.Events.Followed.{IsOwn, IsFollowed, IsUnpublished, run_dispatcher-IsFollowed}
use flooks.Http.Wire.{
  Request, Response, Readers, asset, found_id, etag, atoi, singular_kind, valid_document,
}
use flooks.Http.Handlers.{
  write_body, created, updated, restored, revision_number, create_asset, update_asset,
  restore_revision, stop_or,
}
use flooks.Http.Routes.{Endpoint, Server, serve}

-- An answer that is no error carries an asset, whose event was added.
abbrev IsAnnounced : String → Tables → Response × Tables → Type 0
IsAnnounced type t (out, u) =
    out.status < 400 → (item : Asset) × (out.body ≡ asset item) × IsNoted type t item u

stop_or-IsAnnounced :
    {A : Type 0} (type : String) (t : Tables) (x : Result Response A) (k : A → Response × Tables)
    → ((e : Response) → x ≡ err e → 400 ≤ e.status)
    → ((a : A) → IsAnnounced type t (k a))
    → IsAnnounced type t (stop_or x t k)
stop_or-IsAnnounced type t (ok a) k bad h = h a
stop_or-IsAnnounced type t (err e) k bad h = λ n. absurd (omega (arith, bad e refl))

module _ (readers : Readers) (codec : Codec) (env : Env) (r : Request) (t : Tables) where
  pub found_id_status : (o : Option ℕ) (e : Response) → found_id o ≡ err e → 400 ≤ e.status
  found_id_status o e h = ground arith

  pub etag_status : (e : Response) → etag r ≡ err e → 400 ≤ e.status
  unfolding etag
  etag_status e h = ground arith

  pub body_status : (e : Response) → write_body readers r ≡ err e → 400 ≤ e.status
  unfolding valid_document
  body_status e h = ground arith

  pub revision_status :
      (n : ℤ × Bool) (e : Response) → revision_number readers codec env n ≡ err e → 400 ≤ e.status
  revision_status n e h = ground arith

  created-IsAnnounced :
      (kind slug title summary document : String) (p : Result StoreError Asset × Tables)
      → create codec env kind slug title summary document t ≡ p
      → IsAnnounced "created" t (created readers codec env p)
  created-IsAnnounced kind slug title summary document (err e, u) h = λ n. absurd (omega arith)
  created-IsAnnounced kind slug title summary document (ok a, u) h =
      λ n. (a, refl, create-IsNoted codec env kind slug title summary document t u a h)

  updated-IsAnnounced :
      (id : ℕ) (base : ℤ) (title summary document : String) (p : Result StoreError Asset × Tables)
      → update codec env id base title summary document t ≡ p
      → IsAnnounced "updated" t (updated readers codec env p)
  updated-IsAnnounced id base title summary document (err conflict, u) h = λ n. absurd (omega arith)
  updated-IsAnnounced id base title summary document (err no_rows, u) h = λ n. absurd (omega arith)
  updated-IsAnnounced id base title summary document (err (failed e), u) h =
      λ n. absurd (omega arith)
  updated-IsAnnounced id base title summary document (ok a, u) h =
      λ n. (a, refl, update-IsNoted codec env id base title summary document t u a h)

  restored-IsAnnounced :
      (id : ℕ) (source base : ℤ) (seen : Tables) (p : Result StoreError Asset × Tables)
      → restore codec env id source base seen t ≡ p
      → IsAnnounced "updated" t (restored readers codec env p)
  restored-IsAnnounced id source base seen (err conflict, u) h = λ n. absurd (omega arith)
  restored-IsAnnounced id source base seen (err no_rows, u) h = λ n. absurd (omega arith)
  restored-IsAnnounced id source base seen (err (failed e), u) h = λ n. absurd (omega arith)
  restored-IsAnnounced id source base seen (ok a, u) h =
      λ n. (a, refl, restore-IsNoted codec env id source base seen t u a h)

  create_asset-IsAnnounced : IsAnnounced "created" t (create_asset readers codec env r t)
  unfolding create_asset
  create_asset-IsAnnounced =
      stop_or-IsAnnounced "created" t (write_body readers r) _ body_status (λ body.
        created-IsAnnounced (singular_kind r.kind) body.slug body.title body.summary body.document _
          refl)

  update_asset-IsAnnounced : IsAnnounced "updated" t (update_asset readers codec env r t)
  unfolding update_asset
  update_asset-IsAnnounced =
      stop_or-IsAnnounced "updated" t (found_id (readers.uuid r.id)) _ (found_id_status _) (λ id.
        stop_or-IsAnnounced "updated" t (etag r) _ etag_status (λ base.
          stop_or-IsAnnounced "updated" t (write_body readers r) _ body_status
            (λ body. updated-IsAnnounced id base body.title body.summary body.document _ refl)))

  restore_revision-IsAnnounced :
      (seen : Tables) → IsAnnounced "updated" t (restore_revision readers codec env r seen t)
  unfolding restore_revision
  restore_revision-IsAnnounced seen =
      stop_or-IsAnnounced "updated" t (found_id (readers.uuid r.id)) _ (found_id_status _) (λ id.
        stop_or-IsAnnounced "updated" t (etag r) _ etag_status (λ base.
          stop_or-IsAnnounced "updated" t
            (revision_number readers codec env (atoi (codes r.revision))) _ (revision_status _)
            (λ source. restored-IsAnnounced id source base seen _ refl)))

-- The event that an endpoint's writes have, if it writes documents.
abbrev pub event_of : Endpoint → Option String
event_of Endpoint.create_asset = some "created"
event_of Endpoint.update_asset = some "updated"
event_of Endpoint.restore_revision = some "updated"
event_of _ = none

some_inj : (a b : String) → some a ≡ some b → a ≡ b
some_inj a b h = cc

serve-IsAnnounced :
    {W E : Type 0} (s : Server W E) (e : Endpoint) (r : Request) (seen t : Tables) (w : W)
    (type : String)
    → event_of e ≡ some type
    → IsAnnounced type t ((serve s e r seen t w).0, (serve s e r seen t w).1)
unfolding serve
serve-IsAnnounced s Endpoint.live r seen t w type h = cc
serve-IsAnnounced s Endpoint.ready r seen t w type h = cc
serve-IsAnnounced s Endpoint.status r seen t w type h = cc
serve-IsAnnounced s Endpoint.datasets r seen t w type h = cc
serve-IsAnnounced s Endpoint.dataset r seen t w type h = cc
serve-IsAnnounced s Endpoint.validate_query r seen t w type h = cc
serve-IsAnnounced s Endpoint.execute_query r seen t w type h = cc
serve-IsAnnounced s Endpoint.stream_events r seen t w type h = cc
serve-IsAnnounced s Endpoint.list_assets r seen t w type h = cc
serve-IsAnnounced s Endpoint.get_asset r seen t w type h = cc
serve-IsAnnounced s Endpoint.archive_asset r seen t w type h = cc
serve-IsAnnounced s Endpoint.list_revisions r seen t w type h = cc
serve-IsAnnounced s Endpoint.get_revision r seen t w type h = cc
serve-IsAnnounced s Endpoint.create_asset r seen t w type h =
    rw (sym (some_inj "created" type h)) (create_asset-IsAnnounced s.readers s.codec s.env r t)
serve-IsAnnounced s Endpoint.update_asset r seen t w type h =
    rw (sym (some_inj "updated" type h)) (update_asset-IsAnnounced s.readers s.codec s.env r t)
serve-IsAnnounced s Endpoint.restore_revision r seen t w type h =
    rw (sym (some_inj "updated" type h))
      (restore_revision-IsAnnounced s.readers s.codec s.env r t seen)

IsNoted-IsFollowed :
    (e : EventRow) (t u : Tables) (channel : List EventRow)
    → u.outbox ≡ e ∷ t.outbox
    → find_first (λ (x : EventRow). nat_eq x.id e.id) t.outbox ≡ none
    → e.published_at ≡ none
    → IsFollowed e (record { tables = u; channel = channel })
IsNoted-IsFollowed e t u channel h fresh waiting =
    let apart = others_apart e.id t.outbox fresh in
    record {
      own =
          subst (All (IsOwn e)) (sym h)
            (λ same. (refl, refl, refl), All-map (λ row n same. absurd (n same)) t.outbox apart);
      there = subst (Any (λ (row : EventRow). row.id ≡ e.id)) (sym h) (inl refl);
      state = inr (
          subst (IsUnpublished e) (sym h)
            (λ same. ap is_some waiting, All-map (λ row n same. absurd (n same)) t.outbox apart));
    }

-- An event on the topic of the assets that names the kind, the id and the revision of the asset, and
-- what was done.
abbrev pub IsAbout : Asset → String → EventRow → Type 0
IsAbout item type m = (m.topic ≡ "flooks:asset-events") × (m.payload ≡ payload_of item type)

-- The event of a write that is answered without an error is not lost: the answer carries the asset, and
-- after any ticks of the dispatcher, with whatever fails at them, the dispatcher stopping and starting
-- again, if no client writes meanwhile, an event about that asset is in the outbox, alone under its id,
-- and either Redis was handed it or it is unpublished still.
pub serve-IsFollowed :
    {W E : Type 0} (s : Server W E) (e : Endpoint) (r : Request) (seen t : Tables) (w : W)
    (type : String) (channel : List EventRow) (ticks more : List Tick)
    → event_of e ≡ some type
    → (serve s e r seen t w).0.status < 400
    → (item : Asset) × ((serve s e r seen t w).0.body ≡ asset item)
      × (event : EventRow) × IsAbout item type event
      × IsFollowed event (
          run_dispatcher more (
            run_dispatcher ticks (record { tables = (serve s e r seen t w).1; channel = channel })))
serve-IsFollowed s e r seen t w type channel ticks more writes good =
    let (item, body, noted) = serve-IsAnnounced s e r seen t w type writes good in
    let started : World = record { tables = (serve s e r seen t w).1; channel = channel } in
    let followed =
      IsNoted-IsFollowed noted.event t started.tables channel noted.added noted.fresh
        noted.waiting in
    (
      item,
      body,
      noted.event,
      (noted.topic, noted.payload),
      run_dispatcher-IsFollowed noted.event more (run_dispatcher ticks started)
          (run_dispatcher-IsFollowed noted.event ticks started followed),
    )
