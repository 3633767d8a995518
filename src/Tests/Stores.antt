-- ===== src/Tests/Stores.antt =====
-- The store's properties, on a chart that is created, updated by two clients and restored.
use flooks.Common.{ℕ, ◌+◌, String, ◌≡◌, refl, ◌↔◌, false, some, List, map, ok, err, arith}
use flooks.Common.Int.{pos}
use flooks.Assets.Tables.{
  RevisionRow, Tables, conflict, empty, asset_at, revision_at, insert_asset, update_asset,
  insert_revision_row, insert_event_row,
}
use flooks.Assets.Store.{
  Asset, Revision, create, create_tx, update, update_tx, get, restore, wanted,
}
use flooks.Assets.Invariant.{IsConsistent}
use flooks.Assets.History.{
  Reach, here, next, by_create, by_update, by_restore, Reach-IsConsistent, Reach-revision_at,
}
use flooks.Assets.Conflict.{HasBase, update-update, update-conflict_iff}
use flooks.Assets.Restore.{restore_copies, get-update}
use flooks.Assets.Listing.{revisions, revisions-countdown}
use flooks.Assets.Invariant.{countdown, latest}
use flooks.Tests.Data.{codec, call}

abbrev pub one_chart : Tables
one_chart = (create codec (call 1) "chart" "sales" "Sales" "first" "{}" empty).1

abbrev pub two_revisions : Tables
two_revisions = (update codec (call 2) 1 (pos 1) "Sales 2" "second" "[]" one_chart).1

abbrev restored : Tables
restored = (restore codec (call 3) 1 (pos 1) (pos 2) two_revisions two_revisions).1

abbrev chart : ℕ → String → String → Asset
chart n title document = record {
  id = 1;
  kind = "chart";
  slug = "sales";
  title = title;
  latest_revision = n;
  archived = false;
  document = some document;
  created_at = 1;
  updated_at = n;
}

abbrev first_revision : RevisionRow
first_revision = record {
  asset_id = 1;
  revision = 1;
  document = "{}";
  summary = "first";
  actor = "anonymous";
  checksum = "{}";
  created_at = 1;
}

pub one_chart_reached : Reach codec empty one_chart
one_chart_reached = next here (by_create (call 1) "chart" "sales" "Sales" "first" "{}" refl)

two_revisions_reached : Reach codec one_chart two_revisions
two_revisions_reached = next here (by_update (call 2) 1 (pos 1) "Sales 2" "second" "[]" refl)

pub all_reached : Reach codec empty two_revisions
all_reached = next one_chart_reached (by_update (call 2) 1 (pos 1) "Sales 2" "second" "[]" refl)

restored_reached : Reach codec empty restored
restored_reached = next all_reached (by_restore (call 3) 1 (pos 1) (pos 2) two_revisions refl)

first_update :
    update codec (call 2) 1 (pos 1) "Sales 2" "second" "[]" one_chart
    ≡ (ok (chart 2 "Sales 2" "[]"), two_revisions)
unfolding update update_tx create create_tx insert_asset update_asset insert_revision_row
    insert_event_row asset_at revision_at
first_update = refl

first_restore :
    restore codec (call 3) 1 (pos 1) (pos 2) two_revisions two_revisions
    ≡ (ok (chart 3 "Sales 2" "{}"), restored)
unfolding restore get update update_tx create create_tx insert_asset update_asset
    insert_revision_row insert_event_row asset_at revision_at
first_restore = refl

first_stored : revision_at 1 (pos 1) one_chart ≡ some first_revision
unfolding create create_tx insert_asset insert_revision_row insert_event_row asset_at revision_at
first_stored = refl

pub same_normal : (s d : String) → codec.jsonb s ≡ some d → codec.jsonb d ≡ some d
same_normal s d h = ground arith

Reach-IsConsistent_example : IsConsistent restored
Reach-IsConsistent_example = Reach-IsConsistent codec restored restored_reached

update-update_example :
    update codec (call 4) 1 (pos 1) "Other" "mine" "0" two_revisions ≡ (err conflict, two_revisions)
update-update_example =
    update-update codec (call 2) (call 4) 1 (pos 1) "Sales 2" "Other" "second" "mine" "[]" "0"
      one_chart two_revisions (chart 2 "Sales 2" "[]") first_update
      (record { begins = refl; writes = refl })

Reach-revision_at_example : revision_at 1 (pos 1) two_revisions ≡ some first_revision
Reach-revision_at_example =
    Reach-revision_at codec one_chart two_revisions 1 (pos 1) first_revision first_stored
      two_revisions_reached

update-conflict_iff_example :
    (update codec (call 4) 1 (pos 7) "Other" "mine" "0" one_chart ≡ (err conflict, one_chart))
    ↔ (HasBase 1 (pos 7) one_chart → ⊥)
update-conflict_iff_example =
    update-conflict_iff codec (call 4) 1 (pos 7) "Other" "mine" "0" one_chart
      (record { begins = refl; writes = refl }) refl

get-update_example :
    (d : String) × (codec.jsonb "[]" ≡ some d)
    × (get codec (call 5) 1 (pos 0) two_revisions
        ≡ ok (record (chart 2 "Sales 2" "[]") { document = some d }))
    × (◌≡◌ {A = String} "Sales 2" "Sales 2")
    × (n : ℕ) × (pos 1 ≡ pos n)
    × (2 ≡ n + 1)
get-update_example =
    get-update codec (call 2) (call 5) 1 (pos 1) "Sales 2" "second" "[]" one_chart two_revisions
      (chart 2 "Sales 2" "[]") first_update refl

restore_copies_example :
    (v : RevisionRow) × (revision_at 1 (wanted (asset_at 1 two_revisions) (pos 1)) two_revisions
      ≡ some v)
    × (w : RevisionRow) × (n : ℕ) × (pos 2 ≡ pos n)
    × (revision_at 1 (pos (n + 1)) restored ≡ some w)
    × (w.document ≡ v.document)
restore_copies_example =
    restore_copies codec (call 3) 1 (pos 1) (pos 2) two_revisions two_revisions restored
      (chart 3 "Sales 2" "{}") same_normal all_reached first_restore

revisions-countdown_example :
    (vs : List Revision) × (revisions (call 5) 1 two_revisions ≡ ok vs)
    × (map (λ (v : Revision). v.revision) vs ≡ countdown (latest (asset_at 1 two_revisions)))
revisions-countdown_example = revisions-countdown codec (call 5) two_revisions 1 all_reached refl
