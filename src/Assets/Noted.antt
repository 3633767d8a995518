-- ===== src/Assets/Noted.antt =====
-- The event that a method of the store adds to the outbox.
use flooks.Common.{
  All, List, [], ◌≢◌, nat_eq_iff, ℕ, String, ◌≡◌, refl, sym, ap, Option, none, some, ◌∷◌,
  find_first, nat_eq, ok, arith, Bool, false,
}
use flooks.Common.Int.{ℤ}
use flooks.Assets.Tables.{
  EventRow, EventPayload, Tables, insert_asset, update_asset, retitled, insert_revision_row,
  insert_event_row, is_some,
}
use flooks.Assets.Store.Writes.{create_tx_writes, update_tx_writes, event_row, new_asset}
use flooks.Assets.Store.{Asset, Codec, Env, create, create_tx, update, update_tx, restore, get}
use flooks.Assets.Conflict.{finish_ok}
use flooks.Assets.Restore.{restore_item_ok}

abbrev pub payload_of : Asset → String → EventPayload
payload_of a type = record {
  resource_type = a.kind;
  resource_id = a.id;
  revision = a.latest_revision;
  event_type = type;
}

-- One event was added, under a new id, for the asset, unpublished.
pub record IsNoted (type : String) (t : Tables) (a : Asset) (u : Tables) : Type 0 where
  pub event : EventRow
  pub added : u.outbox ≡ event ∷ t.outbox
  pub fresh : find_first (λ (x : EventRow). nat_eq x.id event.id) t.outbox ≡ none
  pub waiting : event.published_at ≡ none
  pub topic : event.topic ≡ "flooks:asset-events"
  pub payload : event.payload ≡ payload_of a type

is_none : {A : Type 0} (o : Option A) → is_some o ≡ false → o ≡ none
is_none none h = refl
is_none (some a) h = cc

module _ (codec : Codec) (env : Env) where
  abbrev is_used : Tables → Bool
  is_used t = is_some (find_first (λ (x : EventRow). nat_eq x.id env.event_id) t.outbox)

  create_tx_fresh :
      (kind slug title summary document : String) (t u : Tables) (a : Asset)
      → create_tx codec env kind slug title summary document t ≡ ok (a, u)
      → is_used t ≡ false
  unfolding create_tx insert_asset insert_revision_row insert_event_row
  create_tx_fresh kind slug title summary document t u a h = ground arith

  update_tx_fresh :
      (id : ℕ) (base : ℤ) (title summary document : String) (t u : Tables) (a : Asset)
      → update_tx codec env id base title summary document t ≡ ok (a, u)
      → is_used t ≡ false
  unfolding update_tx update_asset insert_revision_row insert_event_row
  update_tx_fresh id base title summary document t u a h = ground arith

  pub create_tx-IsNoted :
      (kind slug title summary document : String) (t u : Tables) (a : Asset)
      → create_tx codec env kind slug title summary document t ≡ ok (a, u)
      → IsNoted "created" t a u
  create_tx-IsNoted kind slug title summary document t u a h =
      let (d, hd, free, hk, ht, hr, ha, hu) =
        create_tx_writes codec env kind slug title summary document t u a h in
      record {
        event = event_row codec env (new_asset codec env kind slug title) "created";
        added = ap (λ (v : Tables). v.outbox) hu;
        fresh = is_none _ (create_tx_fresh kind slug title summary document t u a h);
        waiting = refl;
        topic = refl;
        payload = sym (ap (λ b. payload_of b "created") ha);
      }

  pub update_tx-IsNoted :
      (id : ℕ) (base : ℤ) (title summary document : String) (t u : Tables) (a : Asset)
      → update_tx codec env id base title summary document t ≡ ok (a, u)
      → IsNoted "updated" t a u
  update_tx-IsNoted id base title summary document t u a h =
      let (x, found, hb, low, hr, d, hd, ha, hu) =
        update_tx_writes codec env id base title summary document t u a h in
      record {
        event = event_row codec env (retitled env.now title x) "updated";
        added = ap (λ (v : Tables). v.outbox) hu;
        fresh = is_none _ (update_tx_fresh id base title summary document t u a h);
        waiting = refl;
        topic = refl;
        payload = sym (ap (λ b. payload_of b "updated") ha);
      }

  -- What a method of the store that succeeds adds to the outbox.
  pub create-IsNoted :
      (kind slug title summary document : String) (t u : Tables) (a : Asset)
      → create codec env kind slug title summary document t ≡ (ok a, u)
      → IsNoted "created" t a u
  unfolding create
  create-IsNoted kind slug title summary document t u a h =
      create_tx-IsNoted kind slug title summary document t u a (finish_ok env.commit t _ a u h)

  pub update-IsNoted :
      (id : ℕ) (base : ℤ) (title summary document : String) (t u : Tables) (a : Asset)
      → update codec env id base title summary document t ≡ (ok a, u)
      → IsNoted "updated" t a u
  unfolding update
  update-IsNoted id base title summary document t u a h =
      update_tx-IsNoted id base title summary document t u a (finish_ok env.commit t _ a u h)

  pub restore-IsNoted :
      (id : ℕ) (source base : ℤ) (seen t u : Tables) (a : Asset)
      → restore codec env id source base seen t ≡ (ok a, u)
      → IsNoted "updated" t a u
  unfolding restore
  restore-IsNoted id source base seen t u a h =
      let (item, got, done) =
        restore_item_ok codec env id source base (get codec env id source seen) t u a h in
      update-IsNoted id base _ _ _ t u a done

-- No other event has the id of the one that was added.
pub others_apart :
    (id : ℕ) (rows : List EventRow)
    → find_first (λ (x : EventRow). nat_eq x.id id) rows ≡ none
    → All (λ (row : EventRow). row.id ≢ id) rows
others_apart id [] h = tt
others_apart id (row ∷ rows) h =
    (λ same. ground (arith, nat_eq_iff row.id id), others_apart id rows (ground arith))
