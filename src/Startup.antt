-- ===== src/Startup.antt =====
-- cmd/api/main.go: the start of the server, up to the first request.
pub mod Laws
pub mod Life
use flooks.Common.{
  String, Bool, true, false, ◌&&◌, Option, none, some, List, [], ◌∷◌, Result, ok, err, ◌>>=◌, ◌>>◌,
  ◌==◌, if◌then◌else◌,
}
use flooks.Common.Text.{◌+++◌}
use flooks.Common.Dict.{lookup}
use flooks.Domain.Manifest.{DatasetManifest}
use flooks.Loader.{Entry, LoadError, load_directory}
use flooks.Query.Service.{Service, ServiceError, new_service}
use flooks.Postgres.Compile.{Printer}
use flooks.Postgres.Execute.{Database, ConnectorError, connector}

-- How the process ends before it serves: a panic with its text, or `os.Exit(1)` behind a log line.
pub data Failure (E F : Type 0) : Type 0 where
  missing : String → Failure E F
  bad_pool : E → Failure E F
  no_manifests : LoadError E → Failure E F
  no_service : ServiceError F → Failure E F

-- `os.Getenv`: an unset variable is empty.
abbrev pub get_env : List (String × String) → String → String
get_env vars key = elim (lookup key vars) [ none ↦ "" | some value ↦ value ]

-- `required`
unfoldable pub required :
    {E F : Type 0} → List (String × String) → String → Result (Failure E F) String
required vars key =
    let value = get_env vars key in if value == "" then err (missing key) else ok value

-- `env`
unfoldable pub env : List (String × String) → String → String → String
env vars key fallback = let value = get_env vars key in if value == "" then fallback else value

-- What `mustPool` calls: the parse of the address, the making of a pool, and the ping.
pub record Driver (E : Type 0) : Type 0 where
  pub parse : String → Option E
  pub make : String → Option E
  pub ping : String → Option E

abbrev pub must : {E F : Type 0} → Option E → Result (Failure E F) (Unit {0})
must none = ok tt
must (some e) = err (bad_pool e)

-- `mustPool`; the pool is the address that it was made for.
unfoldable pub must_pool : {E F : Type 0} → Driver E → String → Bool → Result (Failure E F) String
must_pool driver dsn ping = do
  must (driver.parse dsn)
  must (driver.make dsn)
  if ping then must (driver.ping dsn) else ok tt
  ok dsn

abbrev pub with_failure {ℓ} : {E F A : Type ℓ} → (E → F) → Result E A → Result F A
with_failure f (ok a) = ok a
with_failure f (err e) = err (f e)

-- What runs once the start is over.
pub record Running (W E : Type 0) : Type 0 where
  pub metadata : String
  pub analytics : String
  pub redis_address : String
  pub address : String
  pub service : Service W (ConnectorError E)

module _ {W E : Type 0} (driver : Driver E) (read_dir : String → Result E (List Entry))
    (read_file : String → Result E String) (unmarshal : String → Result E DatasetManifest)
    (db : Database W E) (p : Printer) where
  -- `main` behind the manifests.
  abbrev pub start_service :
      List (String × String)
      → String
      → String
      → List DatasetManifest
      → Result (Failure E (ConnectorError E)) (Running W E)
  start_service vars metadata analytics manifests = do
    service ←
        with_failure no_service
          (new_service manifests (connector db p "analytics-postgres" ∷ []) true)
    ok (record {
      metadata = metadata;
      analytics = analytics;
      redis_address = env vars "REDIS_ADDR" "redis:6379";
      address = env vars "HTTP_ADDR" ":5741";
      service = service;
    })

  -- `main` behind the pools. The files of the directory are read by their names.
  abbrev pub start_with :
      List (String × String) → String → String → Result (Failure E (ConnectorError E)) (Running W E)
  start_with vars metadata analytics = do
    manifests ← with_failure no_manifests (
        load_directory read_file unmarshal
          (read_dir (env vars "DATASET_MANIFEST_DIR" "contracts/datasets")))
    start_service vars metadata analytics manifests

  -- `main`, up to `ListenAndServe`.
  unfoldable pub start :
      List (String × String) → Result (Failure E (ConnectorError E)) (Running W E)
  unfolding required env must_pool
  start vars = do
    metadata_dsn ← required vars "METADATA_DATABASE_URL"
    metadata ← must_pool driver metadata_dsn true
    analytics_dsn ← required vars "ANALYTICS_DATABASE_URL"
    analytics ← must_pool driver analytics_dsn false
    start_with vars metadata analytics
