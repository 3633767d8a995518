-- ===== src/Lib.antt =====
-- Flooks, the server in Go that answers analytic queries over declared datasets and keeps charts and
-- dashboards under revision control.
--
-- The parts, and the files that model them:
--
-- - internal/domain: manifest.go and query.go. Domain/Manifest has the dataset manifest and the
--   look-ups `DatasetManifest.Dimension` and `.Metric`; Domain/Spec the query specification, its
--   result and `CacheKey`; Domain/Value what Go's `any` holds; Domain/Dates `QuerySpec.Dates`.
-- - internal/manifest/loader.go: Loader has `LoadDirectory`, which reads the manifests at the start.
-- - internal/query/service.go: Query/Validate/Defs has `Service.Validate`, Query/Service has
--   `NewService`, `Manifest` and `Execute`, Query/Service/Listing `Manifests`. The service holds the
--   manifests and the connectors, asks the cache, and calls a connector for what the cache does not
--   have. Its Keeps is what a call of `Execute` leaves alone, its Repeat a query that is asked again,
--   its Genuine follows answers through any sequence of calls, and its Maps has Go's map of the
--   manifests as a quotient of its entries.
-- - internal/connector/postgres/postgres.go: Postgres/Identifier has `identifier` and
--   `ValidateManifest`, Postgres/Compile has `Compile` and `metricSQL`. Postgres/Compile/Tree, with
--   Selected for what is selected, is the independent description of the query that a specification
--   means; Loop and Refines compare the two, and Total says when there is a text. Postgres/Execute
--   has `Execute`, `normalize` and `typeName`; its Slots the semaphore, with the calls side by side.
-- - internal/assets/store.go, over db/migrations: Assets/Tables has the three tables and what each
--   SQL statement does to them; Assets/Store has the methods `Create`, `Update`, `Archive`, `Get` and
--   `Restore`, Assets/Listing `List` and `Revisions`. Assets/History has sequences of the methods.
--   Assets/Versions is what the store promises, stacks of versions without tables; its View takes the
--   tables to them, its Refines and Progress compare the methods with the commands.
-- - internal/events/dispatcher.go: Events has `flush`, which publishes the outbox that the store
--   fills, and `Run`. Events/Interleaved has the statements of `flush` one by one, between the
--   methods of the store's clients; Events/Batch has what one run hands to Redis, Events/Followed
--   follows one event, Events/Once counts.
-- - internal/httpapi/server.go: Http/Wire has requests, responses and the helpers of the handlers,
--   Http/Handlers the handlers, which call the store and the query service, Http/Stream the event
--   stream, Http/Routes the table of the routes with what `New` puts behind them. Http/Laws, Etag,
--   Reedit, Safety and Received are about what clients meet. Others are about the parts together:
--   Http/Documents on what requests leave in the tables, by Http/Keeps; Http/Sent, over the database
--   of Http/Noted, on the SQL that requests make the server send; Http/Announced follows a write
--   through the outbox to Redis.
-- - contracts/openapi.yaml and internal/openapi: Contract has the operations, their routes, the
--   statuses that the contract declares and the states of the dependencies; its Laws compares the
--   server with them.
-- - cmd/api/main.go: Startup has the start of the process, which puts the parts together,
--   Startup/Life the rest of `main`, with the signals, the requests, the dispatcher and the
--   connections that they take beside it; `Close` of a pool waits until its connections are back. Its
--   Order, Held and Laws say what is open when.
-- - cmd/migrate/main.go: Migrate has `main`, over the driver and goose.
-- - tools/loadtest/main.go: LoadTest has the tool's percentile and its verdict.
-- - Common has the helpers that the others share; Tests has runs at concrete inputs.
--
-- How state and failure stand: a method of the store takes the tables and returns its result with the
-- tables that it leaves, in an environment that fixes the clock, the new ids, which statements fail
-- and how the commit ends (done, refused, or done with its answer lost). A transaction is one step, as
-- its row lock makes it; `Restore` reads in one state of the tables and writes in another. The
-- query service runs over an arbitrary type of worlds that its connectors and the cache may change.
-- `singleflight` stands as the answer of a call in flight, if there is one.
--
-- What is a parameter: `pgx.Identifier.Sanitize`, `fmt.Sprint`, `strings.ToUpper`, `json.Marshal` and
-- `json.Unmarshal`, `yaml.Unmarshal`, SHA-256, `uuid.Parse`, PostgreSQL's reading of a `jsonb` text,
-- Redis, and the file system. Theorems hold for every choice of them; where one needs more, that is a
-- hypothesis of the theorem.
--
-- Bounds: numbers of the source are unbounded here, but for the 32-bit columns of the tables, which
-- refuse what does not fit, and `Atoi`, which reads 64 bits. Every loop runs over a list or a text: the
-- rows of a query, the ticks of the dispatcher and the messages of a stream are lists too. Only `itoa`
-- in Common/Text runs on fuel, one more than its number; Common/Text/Digits reads its digits back.
--
-- Not modelled: how chi matches a path with a pattern, the log of the requests and the headers other
-- than ETag in server.go; the socket behind `ListenAndServe`; the requests that tools/loadtest sends;
-- the rest of internal/openapi, which is generated and which nothing calls; and apps/ (the client).
-- `singleflight` is another project's library: its calls side by side are not modelled.
pub mod Assets
pub mod Common
pub mod Contract
pub mod Domain
pub mod Events
pub mod Http
pub mod LoadTest
pub mod Loader
pub mod Migrate
pub mod Postgres
pub mod Query
pub mod Startup
pub mod Tests
