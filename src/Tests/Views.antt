-- ===== src/Tests/Views.antt =====
-- The properties of the store's view and listing.
use mathlib.Core.List.{Perm}
use flooks.Common.{false, arith, ◌≡◌, refl, some, List, [], ◌∷◌, map, keep, ok, ◌==◌}
use flooks.Common.Int.{pos}
use flooks.Assets.Tables.{
  Tables, AssetRow, asset_at, revision_at, insert_asset, update_asset, insert_revision_row,
  insert_event_row,
}
use flooks.Assets.Store.{Asset, get, create, create_tx, update, update_tx}
use flooks.Assets.Listing.{list}
use flooks.Assets.Recent.{listed_row, IsRecentFirst, list-perm}
use flooks.Assets.Versions.{View, put, append, restore, numbered, read, apply, ◌>>?◌}
use flooks.Assets.Versions.View.{view}
use flooks.Assets.Versions.Reads.{shown, get-read}
use flooks.Assets.Versions.Progress.{IsClear, update-proceeds}
use flooks.Assets.Versions.Refines.{run, Outcome, run-Outcome}
use flooks.Tests.Data.{codec, call}
use flooks.Tests.Stores.{one_chart, one_chart_reached, two_revisions, all_reached}

-- The first revision is restored by a client that read before the second was written.
run-Outcome_example :
    Outcome codec
      (call 3)
      (apply codec.jsonb 3 (restore 1 (pos 1) (pos 2)) (view one_chart) (view two_revisions))
      two_revisions
      (run codec (call 3) (restore 1 (pos 1) (pos 2)) one_chart two_revisions)
run-Outcome_example =
    run-Outcome codec (call 3) (restore 1 (pos 1) (pos 2)) one_chart two_revisions one_chart_reached
      all_reached

get-read_example :
    shown (get codec (call 3) 1 (pos 1) two_revisions)
    ≡ (view two_revisions 1 >>? λ x. read (pos 1) x >>? λ v. some (x.title, v.document))
get-read_example = get-read codec (call 3) 1 (pos 1) two_revisions all_reached refl refl

list-perm_example :
    (items : List Asset) × (list (call 3) "chart" two_revisions ≡ ok items)
    × Perm items (map listed_row (keep (λ (a : AssetRow). a.kind == "chart") two_revisions.assets))
    × IsRecentFirst items
list-perm_example = list-perm (call 3) "chart" two_revisions refl

-- The document that is restored is that of the first revision.
first_document : (view two_revisions 1 >>? λ x. read (pos 1) x >>? λ v. some v.document) ≡ some "{}"
unfolding view read numbered update update_tx create create_tx insert_asset update_asset
    insert_revision_row insert_event_row asset_at revision_at
first_document = refl

-- The view behind an update of the chart.
abbrev taller : View
taller =
    put 1
      (record {
        kind = "chart";
        slug = "sales";
        title = "Sales 2";
        archived = false;
        versions =
            record { document = "[]"; summary = "second" }
            ∷ record { document = "{}"; summary = "first" }
            ∷ [];
      })
      (view one_chart)

second_meant :
    append 1 (pos 1) "Sales 2" (record { document = "[]"; summary = "second" }) (view one_chart)
    ≡ some taller
unfolding append put view create create_tx insert_asset insert_revision_row insert_event_row
    asset_at revision_at
second_meant = refl

clear : IsClear (call 2) one_chart
unfolding create create_tx insert_asset insert_revision_row insert_event_row asset_at revision_at
clear = record { carried = λ s. refl; commits = refl; fresh = refl }

update-proceeds_example :
    (a : Asset) × (u : Tables) × (update codec (call 2) 1 (pos 1) "Sales 2" "second" "[]" one_chart
      ≡ (ok a, u))
    × (view u ≡ taller)
update-proceeds_example =
    update-proceeds codec (call 2) 1 1 "Sales 2" "second" "[]" "[]" one_chart taller
      one_chart_reached clear refl second_meant (omega arith)
