-- ===== src/Assets/Store.antt =====
-- internal/assets/store.go: the store's methods. Each runs from the tables that it finds, in an
-- environment that fixes the clock, the new ids and the statements that fail, and returns its
-- result and the tables that it leaves.
pub mod Writes
use flooks.Common.{
  ℕ, String, Bool, true, false, ◌&&◌, Option, none, some, List, [], ◌∷◌, map, Result, ok, err,
  ◌>>=◌, keep, leb, ltb, nat_eq, ◌==◌, if◌then◌else◌,
}
use flooks.Common.Int.{ℤ, pos, eq_ℤ}
use flooks.Common.Text.{◌+++◌, itoa_ℤ}
use flooks.Assets.Tables.{
  AssetRow, RevisionRow, EventPayload, EventRow, Tables, StoreError, conflict, no_rows, failed,
  asset_at, revision_at, is_some, fits_int4, insert_asset, update_asset, archive_asset,
  insert_revision_row, insert_event_row,
}

-- `document` is left out of a list's items.
pub record Asset : Type 0 where
  pub id : ℕ
  pub kind : String
  pub slug : String
  pub title : String
  pub latest_revision : ℕ
  pub archived : Bool
  pub document : Option String
  pub created_at : ℕ
  pub updated_at : ℕ

pub record Revision : Type 0 where
  pub revision : ℕ
  pub summary : String
  pub actor : String
  pub created : ℕ

-- The calls of the database, each of which may fail on the way.
pub data Statement : Type 0 where
  query_rows begin_tx write_asset write_revision write_event : Statement

-- A commit is done, or refused, or done with its answer lost.
pub data Commit : Type 0 where
  committed : Commit
  refused unanswered : String → Commit

pub record Env : Type 0 where
  pub now : ℕ
  pub asset_id : ℕ
  pub event_id : ℕ
  pub fault : Statement → Option String
  pub commit : Commit

-- `jsonb` is PostgreSQL's reading of a JSON text, `checksum` the hexadecimal SHA-256.
pub record Codec : Type 0 where
  pub jsonb : String → Option String
  pub checksum : String → String

abbrev pub attempt : {A : Type 0} → Option String → Result StoreError A → Result StoreError A
attempt none r = r
attempt (some e) r = err (failed e)

abbrev pub scanned : AssetRow → Option String → Asset
scanned a document = record {
  id = a.id;
  kind = a.kind;
  slug = a.slug;
  title = a.title;
  latest_revision = a.latest_revision;
  archived = is_some a.archived_at;
  document = document;
  created_at = a.created_at;
  updated_at = a.updated_at;
}

-- The end of a transaction: `Commit`, or the deferred `Rollback`.
abbrev pub finish :
    Commit → Tables → Result StoreError (Asset × Tables) → Result StoreError Asset × Tables
finish c old (err e) = (err e, old)
finish committed old (ok (a, t)) = (ok a, t)
finish (refused e) old (ok (a, t)) = (err (failed e), old)
finish (unanswered e) old (ok (a, t)) = (err (failed e), t)

-- The end of a statement outside any transaction, which commits itself.
abbrev pub autocommit : Commit → Tables → Tables → Result StoreError (Unit {0}) × Tables
autocommit committed old new = (ok tt, new)
autocommit (refused e) old new = (err (failed e), old)
autocommit (unanswered e) old new = (err (failed e), new)

-- `errors.Is(err, pgx.ErrNoRows)` of `Update`
abbrev pub or_conflict : {A : Type 0} → Result StoreError A → Result StoreError A
or_conflict (ok a) = ok a
or_conflict (err conflict) = err conflict
or_conflict (err no_rows) = err conflict
or_conflict (err (failed e)) = err (failed e)

abbrev pub joined : Option AssetRow → Option RevisionRow → Result StoreError Asset
joined (some a) (some v) = ok (scanned a (some v.document))
joined _ _ = err no_rows

-- The revision that a query asks for: 0 stands for the latest.
abbrev pub wanted : Option AssetRow → ℤ → ℤ
wanted none r = r
wanted (some a) r = if eq_ℤ r (pos 0) then pos a.latest_revision else r

abbrev pub document_of : Asset → String
document_of a = elim a.document [ none ↦ "" | some d ↦ d ]

module _ (codec : Codec) (env : Env) where
  -- `insertRevision`
  unfoldable pub insert_revision : ℕ → ℕ → String → String → Tables → Result StoreError Tables
  insert_revision id revision summary document t = attempt (env.fault write_revision) (
      insert_revision_row codec.jsonb
        (record {
          asset_id = id;
          revision = revision;
          document = document;
          summary = summary;
          actor = "anonymous";
          checksum = codec.checksum document;
          created_at = env.now;
        })
        t)

  -- `insertEvent`
  unfoldable pub insert_event : AssetRow → String → Tables → Result StoreError Tables
  insert_event item event_type t = attempt (env.fault write_event) (
      insert_event_row
        (record {
          id = env.event_id;
          topic = "flooks:asset-events";
          payload = record {
            resource_type = item.kind;
            resource_id = item.id;
            revision = item.latest_revision;
            event_type = event_type;
          };
          created_at = env.now;
          published_at = none;
        })
        t)

  -- `Store.Create`
  unfoldable pub create_tx :
      String → String → String → String → String → Tables → Result StoreError (Asset × Tables)
  unfolding insert_revision insert_event
  create_tx kind slug title summary document t = do
    begun ← attempt (env.fault begin_tx) (ok t)
    (item, t₁) ←
        attempt (env.fault write_asset) (insert_asset env.now env.asset_id kind slug title begun)
    t₂ ← insert_revision item.id 1 summary document t₁
    t₃ ← insert_event item "created" t₂
    ok (scanned item (some document), t₃)

  unfoldable pub create :
      String → String → String → String → String → Tables → Result StoreError Asset × Tables
  create kind slug title summary document t =
      finish env.commit t (create_tx kind slug title summary document t)

  -- `Store.Update`
  unfoldable pub update_tx :
      ℕ → ℤ → String → String → String → Tables → Result StoreError (Asset × Tables)
  unfolding insert_revision insert_event
  update_tx id base title summary document t = do
    begun ← attempt (env.fault begin_tx) (ok t)
    (item, t₁) ←
        or_conflict (attempt (env.fault write_asset) (update_asset env.now id base title begun))
    t₂ ← insert_revision id item.latest_revision summary document t₁
    t₃ ← insert_event item "updated" t₂
    ok (scanned item (some document), t₃)

  unfoldable pub update :
      ℕ → ℤ → String → String → String → Tables → Result StoreError Asset × Tables
  update id base title summary document t =
      finish env.commit t (update_tx id base title summary document t)

  -- `Store.Archive`, one statement outside any transaction.
  unfoldable pub archive : ℕ → Tables → Result StoreError (Unit {0}) × Tables
  archive id t = elim (env.fault write_asset) [
    | none ↦ autocommit env.commit t (archive_asset env.now id t)
    | some e ↦ (err (failed e), t)
  ]

  -- `Store.Get`
  unfoldable pub get : ℕ → ℤ → Tables → Result StoreError Asset
  get id r t = attempt (env.fault query_rows) (
      if fits_int4 r
      then joined (asset_at id t) (revision_at id (wanted (asset_at id t) r) t)
      else err (failed "cannot encode an int4"))

  unfoldable pub restore_item :
      ℕ → ℤ → ℤ → Result StoreError Asset → Tables → Result StoreError Asset × Tables
  restore_item id source base (err e) t = (err e, t)
  restore_item id source base (ok item) t =
      update id base item.title ("revision " +++ itoa_ℤ source +++ " 복원") (document_of item) t

  -- `Store.Restore`. It reads in `seen` and writes in the tables that it finds then.
  unfoldable pub restore : ℕ → ℤ → ℤ → Tables → Tables → Result StoreError Asset × Tables
  unfolding restore_item
  restore id source base seen t = restore_item id source base (get id source seen) t
