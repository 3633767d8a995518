-- ===== src/Tests/Start.antt =====
-- The properties of the start and of the end.
use flooks.Common.{false, String, ◌≡◌, refl, none, List, [], ◌∷◌, Result, ok, true, ℕ}
use flooks.Common.Dict.{lookup, insert}
use flooks.Common.Text.{split}
use flooks.Domain.Manifest.{DatasetManifest}
use flooks.Query.Service.{register, check_manifest, add_manifests, new_service}
use flooks.Postgres.Identifier.{identifier, check_part, check_char, validate_manifest}
use flooks.Postgres.Execute.{connector}
use flooks.Loader.{Entry, load_directory, load_entries, load_entry, has_suffix}
use flooks.Startup.{Driver, Running, required, env, must_pool, start}
use flooks.Startup.Laws.{IsReady, start-IsReady}
use flooks.Startup.Life.{Life, ended, serving}
use flooks.Tests.Data.{sales, printer}
use flooks.Tests.Requests.{file, read_file}
use flooks.Tests.Connector.{database}

abbrev vars : List (String × String)
vars =
    ("METADATA_DATABASE_URL", "postgres://metadata")
    ∷ ("ANALYTICS_DATABASE_URL", "postgres://analytics")
    ∷ ("HTTP_ADDR", ":8080")
    ∷ []

abbrev driver : Driver String
driver = record { parse = λ dsn. none; make = λ dsn. none; ping = λ dsn. none }

abbrev read_dir : String → Result String (List Entry)
read_dir name = ok (file ∷ [])

abbrev published : DatasetManifest
published = record sales { connector = "analytics-postgres" }

abbrev unmarshal : String → Result String DatasetManifest
unmarshal payload = ok published

abbrev running : Running ℕ String
running = record {
  metadata = "postgres://metadata";
  analytics = "postgres://analytics";
  redis_address = "redis:6379";
  address = ":8080";
  service = record {
    manifests = ("sales", published) ∷ [];
    connectors = ("analytics-postgres", connector database printer "analytics-postgres") ∷ [];
    has_cache = true;
  };
}

started : start driver read_dir read_file unmarshal database printer vars ≡ ok running
unfolding start required env must_pool load_directory load_entries load_entry has_suffix new_service
    register add_manifests check_manifest lookup insert validate_manifest identifier split
    check_part check_char
started = refl

start-IsReady_example : IsReady driver read_dir read_file unmarshal database printer vars running
start-IsReady_example =
    start-IsReady driver read_dir read_file unmarshal database printer vars running started

-- A signal while a request runs; the request ends, and the deferred calls run.
abbrev over : Life
over = record serving { main = ended; listening = false; done = true; deferred = [] }
