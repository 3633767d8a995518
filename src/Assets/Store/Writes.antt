-- ===== src/Assets/Store/Writes.antt =====
-- What a transaction of the store wrote when it succeeded.
use flooks.Common.{ℕ, ◌+◌, ◌<◌, String, ◌≡◌, true, false, none, some, ◌∷◌, ok, arith}
use flooks.Common.Int.{ℤ, pos}
use flooks.Assets.Tables.{
  AssetRow, RevisionRow, EventRow, Tables, asset_at, revision_at, is_kind, is_taken, max_int4,
  retitled, update_row, insert_asset, update_asset, insert_revision_row, insert_event_row,
}
use flooks.Assets.Store.{Asset, Codec, Env, scanned, create_tx, update_tx}

module _ (codec : Codec) (env : Env) where
  abbrev pub revision_row : ℕ → ℕ → String → String → String → RevisionRow
  revision_row id revision summary document d = record {
    asset_id = id;
    revision = revision;
    document = d;
    summary = summary;
    actor = "anonymous";
    checksum = codec.checksum document;
    created_at = env.now;
  }

  abbrev pub event_row : AssetRow → String → EventRow
  event_row item event_type = record {
    id = env.event_id;
    topic = "flooks:asset-events";
    payload = record {
      resource_type = item.kind;
      resource_id = item.id;
      revision = item.latest_revision;
      event_type = event_type;
    };
    created_at = env.now;
    published_at = none;
  }

  abbrev pub new_asset : String → String → String → AssetRow
  new_asset kind slug title = record {
    id = env.asset_id;
    kind = kind;
    slug = slug;
    title = title;
    latest_revision = 1;
    archived_at = none;
    created_at = env.now;
    updated_at = env.now;
  }

  -- A transaction of `Create` that succeeded found neither its id nor its kind and slug, and wrote an
  -- asset at revision 1, that revision and its event.
  pub create_tx_writes :
      (kind slug title summary document : String) (t u : Tables) (a : Asset)
      → create_tx codec env kind slug title summary document t ≡ ok (a, u)
      → (d : String) × (codec.jsonb document ≡ some d)
        × (asset_at env.asset_id t ≡ none)
        × (is_kind kind ≡ true)
        × (is_taken kind slug t ≡ false)
        × (revision_at env.asset_id (pos 1) t ≡ none)
        × (a ≡ scanned (new_asset kind slug title) (some document))
        × (u ≡ record {
          assets = new_asset kind slug title ∷ t.assets;
          revisions = revision_row env.asset_id 1 summary document d ∷ t.revisions;
          outbox = event_row (new_asset kind slug title) "created" ∷ t.outbox;
        })
  unfolding create_tx revision_at insert_asset insert_revision_row insert_event_row
  create_tx_writes kind slug title summary document t u a h = ground arith

  pub update_tx_writes :
      (id : ℕ) (base : ℤ) (title summary document : String) (t u : Tables) (a : Asset)
      → update_tx codec env id base title summary document t ≡ ok (a, u)
      → (x : AssetRow) × (asset_at id t ≡ some x)
        × (base ≡ pos x.latest_revision)
        × (x.latest_revision < max_int4)
        × (revision_at id (pos (x.latest_revision + 1)) t ≡ none)
        × (d : String) × (codec.jsonb document ≡ some d)
        × (a ≡ scanned (retitled env.now title x) (some document))
        × (u ≡ record {
          assets = update_row id (retitled env.now title) t.assets;
          revisions = revision_row id (x.latest_revision + 1) summary document d ∷ t.revisions;
          outbox = event_row (retitled env.now title x) "updated" ∷ t.outbox;
        })
  unfolding update_tx revision_at update_asset insert_revision_row insert_event_row
  update_tx_writes id base title summary document t u a h = ground arith
