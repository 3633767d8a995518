-- ===== src/Startup/Laws.antt =====
-- What holds of a process that has come to serve.
use flooks.Common.{
  ◌∙◌, ◌>>=◌, String, ◌≡◌, ◌≢◌, refl, sym, ap, true, false, Bool, Option, none, some, List, [], ◌∷◌,
  Result, ok, err, >>=-eq-ok, ok_inj, arith, eq_iff,
}
use flooks.Common.Dict.{lookup}
use flooks.Domain.Manifest.{DatasetManifest}
use flooks.Domain.Spec.{QuerySpec}
use flooks.Loader.{Entry, load_directory}
use flooks.Query.Service.{
  Connector, Service, ServiceError, Services, new_service, register, execute,
}
use flooks.Query.Service.Registry.{new_service-IsRegistered, only_connector}
use flooks.Query.Service.Answers.{execute-ne-panicked}
use flooks.Query.Service as service
use flooks.Postgres.Identifier.{ManifestError, validate_manifest}
use flooks.Postgres.Compile.{Printer, with_error}
use flooks.Postgres.Execute.{Database, ConnectorError, unusable, connector}
use flooks.Startup.{
  Failure, no_manifests, no_service, Driver, Running, get_env, required, env, must, must_pool,
  with_failure, start_service, start_with, start,
}

with_failure_ok :
    {D F A : Type 0} (f : D → F) (x : Result D A) (a : A) → with_failure f x ≡ ok a → x ≡ ok a
with_failure_ok f (ok b) a h = ap ok (ok_inj b a h)
with_failure_ok f (err e) a h = absurd (ground arith)

module _ {E : Type 0} where
  required_ok :
      (vars : List (String × String)) (key value : String)
      → ◌≡◌ {A = Result (Failure E (ConnectorError E)) String} (required vars key) (ok value)
      → (get_env vars key ≡ value) × (value ≢ "")
  unfolding required
  required_ok vars key value h = ground (arith, eq_iff (get_env vars key) "")

  must_ok :
      (o : Option E)
      → ◌≡◌ {A = Result (Failure E (ConnectorError E)) (Unit {0})} (must o) (ok tt)
      → o ≡ none
  must_ok none h = refl
  must_ok (some e) h = cc

  pinged :
      (driver : Driver E) (dsn value : String)
      → ◌≡◌ {A = Result (Failure E (ConnectorError E)) String}
          (must_pool driver dsn true)
          (ok value)
      → (value ≡ dsn) × (driver.ping dsn ≡ none)
  unfolding must_pool
  pinged driver dsn value h =
      let (a, x, h1) = >>=-eq-ok (must (driver.parse dsn)) _ h in
      let (b, y, h2) = >>=-eq-ok (must (driver.make dsn)) _ h1 in
      let (c, z, h3) = >>=-eq-ok (must (driver.ping dsn)) _ h2 in
      (sym (ok_inj dsn value h3), must_ok (driver.ping dsn) z)

  pooled :
      (driver : Driver E) (dsn value : String)
      → ◌≡◌ {A = Result (Failure E (ConnectorError E)) String}
          (must_pool driver dsn false)
          (ok value)
      → value ≡ dsn
  unfolding must_pool
  pooled driver dsn value h =
      let (a, x, h1) = >>=-eq-ok (must (driver.parse dsn)) _ h in
      let (b, y, h2) = >>=-eq-ok (must (driver.make dsn)) _ h1 in sym (ok_inj dsn value h2)

module _ {W E : Type 0} (driver : Driver E) (read_dir : String → Result E (List Entry))
    (read_file : String → Result E String) (unmarshal : String → Result E DatasetManifest)
    (db : Database W E) (p : Printer) (vars : List (String × String)) where
  pub record IsReady (r : Running W E) : Type 0 where
    pub metadata : (get_env vars "METADATA_DATABASE_URL" ≡ r.metadata) × (r.metadata ≢ "")
    pub analytics : (get_env vars "ANALYTICS_DATABASE_URL" ≡ r.analytics) × (r.analytics ≢ "")
    pub reachable : driver.ping r.metadata ≡ none
    pub loaded :
        (ms : List DatasetManifest) × (load_directory read_file unmarshal
            (read_dir (env vars "DATASET_MANIFEST_DIR" "contracts/datasets"))
          ≡ ok ms)
        × (new_service ms (connector db p "analytics-postgres" ∷ []) true ≡ ok r.service)
    pub served :
        (key : String) (m : DatasetManifest)
        → lookup key r.service.manifests ≡ some m
        → (m.key ≡ key)
          × (m.connector ≡ "analytics-postgres")
          × (validate_manifest p.sanitize m ≡ ok tt)
    pub answers :
        (x : Services W (ConnectorError E)) (spec : QuerySpec) (refresh : Bool) (w : W)
        → (execute x r.service spec refresh w).0 ≢ err service.panicked

  served_by :
      (ms : List DatasetManifest) (s : Service W (ConnectorError E))
      → new_service ms (connector db p "analytics-postgres" ∷ []) true ≡ ok s
      → (key : String) (m : DatasetManifest) → lookup key s.manifests ≡ some m
      → (m.key ≡ key)
        × (m.connector ≡ "analytics-postgres")
        × (validate_manifest p.sanitize m ≡ ok tt)
  served_by ms s made key m h =
      let v = new_service-IsRegistered ms (connector db p "analytics-postgres" ∷ []) true s made in
      let (c, found, kind, valid) = v.served key m h in
      let (name, same) =
        only_connector ms (connector db p "analytics-postgres") c true s m.connector made found in
      (v.at_key key m h, name, usable (validate_manifest p.sanitize m) (rw (← same) at valid))
    where
      usable :
          (x : Result ManifestError (Unit {0}))
          → with_error {F = ConnectorError E} unusable x ≡ ok tt
          → x ≡ ok tt
      usable (ok tt) h = refl
      usable (err e) h = absurd (ground arith)

  start_service_ok :
      (r : Running W E) (metadata analytics : String) (ms : List DatasetManifest)
      → start_service driver read_dir read_file unmarshal db p vars metadata analytics ms ≡ ok r
      → (new_service ms (connector db p "analytics-postgres" ∷ []) true ≡ ok r.service)
        × (r.metadata ≡ metadata)
        × (r.analytics ≡ analytics)
  start_service_ok r metadata analytics ms h =
      let (s, made, same) =
        >>=-eq-ok (with_failure _ (new_service ms (connector db p "analytics-postgres" ∷ []) true))
          _ h in
      done s made (ok_inj _ r same)
    where
      done :
          (s : Service W (ConnectorError E))
          → with_failure {F = Failure E (ConnectorError E)} no_service
              (new_service ms (connector db p "analytics-postgres" ∷ []) true)
            ≡ ok s
          → (record {
            metadata = metadata;
            analytics = analytics;
            redis_address = env vars "REDIS_ADDR" "redis:6379";
            address = env vars "HTTP_ADDR" ":5741";
            service = s;
          })
            ≡ r
          → (new_service ms (connector db p "analytics-postgres" ∷ []) true ≡ ok r.service)
            × (r.metadata ≡ metadata)
            × (r.analytics ≡ analytics)
      done s made same = (
        with_failure_ok no_service _ s made ∙ ap (λ (x : Running W E). ok x.service) same,
        sym (ap (λ (x : Running W E). x.metadata) same),
        sym (ap (λ (x : Running W E). x.analytics) same),
      )

  start_with-IsReady :
      (r : Running W E) (metadata analytics : String)
      → get_env vars "METADATA_DATABASE_URL" ≡ metadata
      → metadata ≢ ""
      → get_env vars "ANALYTICS_DATABASE_URL" ≡ analytics
      → analytics ≢ ""
      → driver.ping metadata ≡ none
      → start_with driver read_dir read_file unmarshal db p vars metadata analytics ≡ ok r
      → IsReady r
  start_with-IsReady r metadata analytics a b c d ping h =
      let (ms, loaded, h1) =
        >>=-eq-ok (with_failure _ (load_directory read_file unmarshal _)) _ h in
      let (made, e, f) = start_service_ok r metadata analytics ms h1 in
      record {
        metadata = rw e (a, b);
        analytics = rw f (c, d);
        reachable = rw e ping;
        loaded = (ms, with_failure_ok no_manifests _ ms loaded, made);
        served = served_by ms r.service made;
        answers = λ x spec refresh w.
            execute-ne-panicked x ms (connector db p "analytics-postgres" ∷ []) true r.service spec
              refresh w made;
      }

  -- A process that comes to serve has both its addresses, not empty, from the environment, and its
  -- metadata database has answered a ping; its service is the one made of the manifests of its
  -- directory, each of them under its key, for the connector "analytics-postgres" and valid for it;
  -- and no query makes the service call a connector that is not there.
  pub start-IsReady :
      (r : Running W E) → start driver read_dir read_file unmarshal db p vars ≡ ok r → IsReady r
  unfolding start
  start-IsReady r h =
      let (dsn, a, h1) = >>=-eq-ok (required vars "METADATA_DATABASE_URL") _ h in first dsn a h1
    where
      second :
          (metadata dsn analytics : String)
          → ◌≡◌ {A = Result (Failure E (ConnectorError E)) String}
              (required vars "METADATA_DATABASE_URL")
              (ok metadata)
          → driver.ping metadata ≡ none
          → ◌≡◌ {A = Result (Failure E (ConnectorError E)) String}
              (required vars "ANALYTICS_DATABASE_URL")
              (ok dsn)
          → ◌≡◌ {A = Result (Failure E (ConnectorError E)) String}
              (must_pool driver dsn false)
              (ok analytics)
          → start_with driver read_dir read_file unmarshal db p vars metadata analytics ≡ ok r
          → IsReady r
      second metadata dsn analytics a ping b c k =
          let (x, y) = required_ok vars _ metadata a in
          let (u, v) = required_ok vars _ dsn b in
          let same = pooled driver dsn analytics c in
          start_with-IsReady r metadata analytics x y (u ∙ sym same) (rw same v) ping k

      first :
          (dsn : String)
          → ◌≡◌ {A = Result (Failure E (ConnectorError E)) String}
              (required vars "METADATA_DATABASE_URL")
              (ok dsn)
          → (do
            metadata ← must_pool driver dsn true
            analytics_dsn ← required vars "ANALYTICS_DATABASE_URL"
            analytics ← must_pool driver analytics_dsn false
            start_with driver read_dir read_file unmarshal db p vars metadata analytics)
            ≡ ok r
          → IsReady r
      first dsn a h =
          let (metadata, b, h1) = >>=-eq-ok (must_pool driver dsn true) _ h in
          let (same, ping) = pinged driver dsn metadata b in
          let (dsn', c, h2) = >>=-eq-ok (required vars "ANALYTICS_DATABASE_URL") _ h1 in
          let (analytics, d, h3) = >>=-eq-ok (must_pool driver dsn' false) _ h2 in
          second metadata dsn' analytics (rw same a) (rw same ping) c d h3
