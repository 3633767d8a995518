-- ===== src/Tests/Requests.antt =====
-- The properties of the handlers, the dispatcher and the loader.
use flooks.Common.{
  String, ◌≡◌, ◌≢◌, ◌==◌, if◌then◌else◌, refl, true, false, some, [], ◌∷◌, Result, ok, err, ◌⊎◌,
}
use flooks.Http.Wire.{Request, Readers}
use flooks.Http.Handlers.{update_asset}
use flooks.Http.Laws.{IsWritten, IsRefused, update_asset_outcome}
use flooks.Events.{World, Run, answered, refused}
use flooks.Domain.Manifest.{DatasetManifest}
use flooks.Loader.{Entry, load_directory, load_entries, load_entry, has_suffix}
use flooks.Loader.Laws.{AreFilesOf, load_directory-AreFilesOf}
use flooks.Tests.Data.{sales, codec, call}
use flooks.Tests.Stores.{one_chart}

abbrev pub readers : Readers
readers = record {
  uuid = λ s. some 1;
  asset_write = λ s. ok (record { slug = "sales"; title = s; summary = ""; document = "{}" });
  query_spec = λ s. err s;
  header = λ s. some ("flooks.io/v1alpha1", "Chart");
}

abbrev pub request : Request
request = record {
  kind = "charts";
  id = "1";
  revision = "";
  key = "";
  if_match = "\"1\"";
  refresh = "";
  body = "Sales 2";
}

update_asset_outcome_example :
    IsWritten readers codec
      (call 2)
      request
      one_chart
      (update_asset readers codec (call 2) request one_chart)
    ⊎ IsRefused readers codec
        (call 2)
        request
        one_chart
        (update_asset readers codec (call 2) request one_chart)
update_asset_outcome_example = update_asset_outcome readers codec (call 2) request one_chart

abbrev pub world : World
world = record { tables = one_chart; channel = [] }

abbrev pub run : Run
run = record {
  now = 9;
  query_fails = false;
  scans = λ e. true;
  publish = λ e. answered;
  marks = λ e. true;
}

abbrev pub refusing : Run
refusing = record run { publish = λ e. refused }

abbrev minimal : DatasetManifest
minimal = record sales { label = "Minimal" }

abbrev pub file : Entry
file = record { name = "sales.yaml"; is_dir = false }

abbrev readme : Entry
readme = record { name = "README.md"; is_dir = false }

abbrev pub read_file : String → Result String String
read_file name = if name == "sales.yaml" then ok "version: 1" else err "no such file"

abbrev unmarshal : String → Result String DatasetManifest
unmarshal payload = ok minimal

loaded_once : load_directory read_file unmarshal (ok (readme ∷ file ∷ [])) ≡ ok (minimal ∷ [])
unfolding load_directory load_entries load_entry has_suffix
loaded_once = refl

load_directory-AreFilesOf_example :
    AreFilesOf read_file unmarshal (readme ∷ file ∷ []) (minimal ∷ []) × (minimal ∷ [] ≢ [])
load_directory-AreFilesOf_example =
    load_directory-AreFilesOf read_file unmarshal (readme ∷ file ∷ []) (minimal ∷ []) loaded_once
