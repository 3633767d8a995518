-- ===== src/Assets/Tables.antt =====
-- The three tables of db/migrations, and what the SQL statements of internal/assets/store.go do to
-- them. An id is the 128-bit number of its UUID, a time the number of its instant. A table lists its
-- newest row first; no statement depends on that order but for rows that it calls equal.
use flooks.Common.{
  ℕ, ◌+◌, String, Bool, true, false, ◌&&◌, ◌||◌, Option, none, some, List, [], ◌∷◌, Result, ok, err,
  find_first, leb, nat_eq, ◌==◌, if◌then◌else◌,
}
use flooks.Common.Int.{ℤ, pos, negsuc, eq_ℤ}

pub record AssetRow : Type 0 where
  pub id : ℕ
  pub kind : String
  pub slug : String
  pub title : String
  pub latest_revision : ℕ
  pub archived_at : Option ℕ
  pub created_at : ℕ
  pub updated_at : ℕ

pub record RevisionRow : Type 0 where
  pub asset_id : ℕ
  pub revision : ℕ
  pub document : String
  pub summary : String
  pub actor : String
  pub checksum : String
  pub created_at : ℕ

-- The JSON object that `insertEvent` marshals.
pub record EventPayload : Type 0 where
  pub resource_type : String
  pub resource_id : ℕ
  pub revision : ℕ
  pub event_type : String

pub record EventRow : Type 0 where
  pub id : ℕ
  pub topic : String
  pub payload : EventPayload
  pub created_at : ℕ
  pub published_at : Option ℕ

pub record Tables : Type 0 where
  pub assets : List AssetRow
  pub revisions : List RevisionRow
  pub outbox : List EventRow

abbrev pub empty : Tables
empty = record { assets = []; revisions = []; outbox = [] }

-- The errors that callers tell apart: `ErrConflict`, `pgx.ErrNoRows`, and any other.
pub data StoreError : Type 0 where
  conflict no_rows : StoreError
  failed : String → StoreError

-- The row of an asset, and of a revision.
unfoldable pub asset_at : ℕ → Tables → Option AssetRow
asset_at id t = find_first (λ a. nat_eq a.id id) t.assets

unfoldable pub revision_at : ℕ → ℤ → Tables → Option RevisionRow
revision_at id r t = find_first (λ v. nat_eq v.asset_id id && eq_ℤ (pos v.revision) r) t.revisions

abbrev pub is_some {ℓ} : {A : Type ℓ} → Option A → Bool
is_some none = false
is_some (some _) = true

-- The columns of type `integer`: pgx refuses to send a number that does not fit.
abbrev pub max_int4 : ℕ
max_int4 = 2147483647

abbrev pub fits_int4 : ℤ → Bool
fits_int4 (pos n) = leb n max_int4
fits_int4 (negsuc n) = leb n max_int4

-- `CHECK (kind IN ('chart', 'dashboard'))`
abbrev pub is_kind : String → Bool
is_kind k = k == "chart" || k == "dashboard"

-- `UNIQUE (kind, slug)`
unfoldable pub is_taken : String → String → Tables → Bool
is_taken kind slug t = is_some (find_first (λ a. a.kind == kind && a.slug == slug) t.assets)

-- `INSERT INTO assets(kind,slug,title) … RETURNING …`: the default of `id` is a random UUID.
unfoldable pub insert_asset :
    ℕ → ℕ → String → String → String → Tables → Result StoreError (AssetRow × Tables)
unfolding is_taken
insert_asset now id kind slug title t =
    let row : AssetRow = record {
      id = id;
      kind = kind;
      slug = slug;
      title = title;
      latest_revision = 1;
      archived_at = none;
      created_at = now;
      updated_at = now;
    } in
    if is_some (asset_at id t)
    then err (failed "assets_pkey")
    else if is_kind kind
    then (if is_taken kind slug t
        then err (failed "assets_kind_slug_key")
        else ok (row, record t { assets = row ∷ t.assets }))
    else err (failed "assets_kind_check")

-- What `UPDATE assets` writes to the row that it selects.
abbrev pub retitled : ℕ → String → AssetRow → AssetRow
retitled now title a = record a {
  title = title;
  latest_revision = a.latest_revision + 1;
  updated_at = now;
}

abbrev pub coalesce : Option ℕ → ℕ → ℕ
coalesce none d = d
coalesce (some n) d = n

abbrev pub archived_row : ℕ → AssetRow → AssetRow
archived_row now a = record a { archived_at = some (coalesce a.archived_at now); updated_at = now }

unfoldable pub update_row : ℕ → (AssetRow → AssetRow) → List AssetRow → List AssetRow
update_row id f [] = []
update_row id f (a ∷ rows) = (if nat_eq a.id id then f a else a) ∷ update_row id f rows

abbrev matched :
    ℕ → ℤ → ℕ → String → Tables → Option AssetRow → Result StoreError (AssetRow × Tables)
matched id base now title t none = err no_rows
matched id base now title t (some a) =
    if eq_ℤ (pos a.latest_revision) base
    then (if leb max_int4 a.latest_revision
        then err (failed "integer out of range")
        else ok (
          retitled now title a,
          record t { assets = update_row id (retitled now title) t.assets },
        ))
    else err no_rows

-- `UPDATE assets SET title=$3, latest_revision=latest_revision+1, updated_at=now()
-- WHERE id=$1 AND latest_revision=$2 RETURNING …`
unfoldable pub update_asset : ℕ → ℕ → ℤ → String → Tables → Result StoreError (AssetRow × Tables)
unfolding update_row
update_asset now id base title t =
    if fits_int4 base
    then matched id base now title t (asset_at id t)
    else err (failed "cannot encode an int4")

-- `UPDATE assets SET archived_at=COALESCE(archived_at,now()), updated_at=now() WHERE id=$1`
unfoldable pub archive_asset : ℕ → ℕ → Tables → Tables
unfolding update_row
archive_asset now id t = record t { assets = update_row id (archived_row now) t.assets }

abbrev stored : RevisionRow → Tables → Option String → Result StoreError Tables
stored row t none = err (failed "invalid input syntax for type json")
stored row t (some document) =
    ok (record t { revisions = record row { document = document } ∷ t.revisions })

-- `INSERT INTO asset_revisions(…)`. `jsonb` is PostgreSQL's reading of a JSON text, which it keeps in
-- a normal form; `none` refuses the text.
unfoldable pub insert_revision_row :
    (String → Option String) → RevisionRow → Tables → Result StoreError Tables
insert_revision_row jsonb row t =
    if is_some (asset_at row.asset_id t)
    then (if is_some (revision_at row.asset_id (pos row.revision) t)
        then err (failed "asset_revisions_pkey")
        else stored row t (jsonb row.document))
    else err (failed "asset_revisions_asset_id_fkey")

-- `INSERT INTO outbox_events(topic,payload)`
unfoldable pub insert_event_row : EventRow → Tables → Result StoreError Tables
insert_event_row e t =
    if is_some (find_first (λ x. nat_eq x.id e.id) t.outbox)
    then err (failed "outbox_events_pkey")
    else ok (record t { outbox = e ∷ t.outbox })
