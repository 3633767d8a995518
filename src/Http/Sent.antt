-- ===== src/Http/Sent.antt =====
-- The SQL that requests make the server send, over a database that notes what it is sent.
use flooks.Common.{
  ◌==◌, String, ◌≡◌, refl, subst, Bool, Option, none, some, inl, inr, List, [], ◌∷◌, Result,
  Result-cases, ok, err,
}
use flooks.Common.Int.{ℤ}
use flooks.Domain.Manifest.{DatasetManifest}
use flooks.Domain.Spec.{QuerySpec, QueryResult}
use flooks.Assets.Tables.{Tables}
use flooks.Query.Validate.Defs.{validate}
use flooks.Query.Validate.Normal.{validate_iff}
use flooks.Query.Service.{Connector, Service, Services, ExecuteError, new_service, execute}
use flooks.Query.Service.Registry.{only_connector}
use flooks.Query.Service.Keeps.{execute_keeps}
use flooks.Postgres.Compile.{Printer, Arg, CompileError, compile}
use flooks.Postgres.Compile.Tree.{Tree, meant}
use flooks.Postgres.Compile.Refines.{Refined, compile-Refined}
use flooks.Postgres.Execute.{Rows, Database, ConnectorError, connector, queried, compiled, waited}
use flooks.Postgres.Execute as postgres
use flooks.Http.Wire.{Request, Response}
use flooks.Http.Handlers.{validate_query, execute_query, answered}
use flooks.Http.Routes.{Endpoint, Server, serve}
use flooks.Http.Noted.{Sent, besides, noting, noting_services, IsMeant, AreMeant}

module _ {W E : Type 0} (db : Database W E) (p : Printer) (x : Services W (ConnectorError E))
    (ms : List DatasetManifest) (name : String) (has_cache : Bool)
    (service : Service (W × Sent) (ConnectorError E))
    (made : new_service ms (connector (noting db) p name ∷ []) has_cache ≡ ok service) where
  compile-IsMeant :
      (spec t : QuerySpec) (m : DatasetManifest) (sql : String) (args : List Arg)
      → validate service.manifests spec ≡ ok (t, m)
      → compile p m t ≡ ok (sql, args)
      → IsMeant p service.manifests sql args
  compile-IsMeant spec t m sql args v c =
      of_tree (meant p m t) refl (rw c at (compile-Refined p m t))
    where
      of_tree :
          (o : Result CompileError (Tree Arg))
          → meant p m t ≡ o
          → Refined (ok (sql, args)) o
          → IsMeant p service.manifests sql args
      of_tree (err e) q h = absurd h
      of_tree (ok tree) q (numbered, text, values) =
          let (known, allowed, limited) = (validate_iff service.manifests spec t m).0 v in
          record {
            asked = spec;
            normal = t;
            manifest = m;
            known = known;
            allowed = allowed;
            limited = limited;
            tree = tree;
            numbered = numbered;
            meaning = q;
            text = text;
            values = values;
          }

  abbrev Kept : W × Sent → Type 0
  Kept v = AreMeant p service.manifests v.1

  connector-Kept :
      (seconds : ℤ) (spec t : QuerySpec) (m : DatasetManifest) (v : W × Sent)
      → validate service.manifests spec ≡ ok (t, m)
      → Kept v
      → Kept (postgres.execute (noting db) p seconds m t v).1
  unfolding postgres.execute
  connector-Kept seconds spec t m (w, l) a h = admitted (db.wait seconds w)
    where
      queried_Kept :
          (start : W × Sent) (out : Result E (Rows E) × (W × Sent))
          → Kept out.1
          → Kept (queried (noting db) start out).1
      queried_Kept start (err e, v) k = k
      queried_Kept start (ok rows, v) k = k

      compiled_Kept :
          (w : W) (c : Result CompileError (String × List Arg))
          → compile p m t ≡ c
          → Kept (compiled (noting db) p seconds c (w, l)).1
      compiled_Kept w (err e) q = h
      compiled_Kept w (ok (sql, args)) q =
          queried_Kept (w, l) (besides ((sql, args) ∷ l) (db.query seconds sql args w))
            (noted (db.query seconds sql args w) (compile-IsMeant spec t m sql args a q, h))
        where
          noted :
              (out : Result E (Rows E) × W)
              → AreMeant p service.manifests ((sql, args) ∷ l)
              → Kept (besides ((sql, args) ∷ l) out).1
          noted (o, u) k = k

      admitted : (o : Option E × W) → Kept (waited (noting db) p seconds m t (besides l o)).1
      admitted (some e, u) = h
      admitted (none, u) = compiled_Kept u (compile p m t) refl

  execute-Kept :
      (spec : QuerySpec) (refresh : Bool) (v : W × Sent)
      → Kept v
      → Kept (execute (noting_services x) service spec refresh v).1
  execute-Kept spec refresh v h =
      execute_keeps (noting_services x) service Kept (λ u. Unit)
        (λ asked t m c r key payload u u' a b found ran e i k. k)
        (λ asked t m c u a found k.
          let same =
            (only_connector ms (connector (noting db) p name) c has_cache service m.connector made
              found).1 in
          subst
            (λ (d : Connector (W × Sent) (ConnectorError E)).
              Kept (d.execute m.limits.timeout_seconds m t u).1)
            same (connector-Kept m.limits.timeout_seconds asked t m u a k))
        spec refresh v tt h

  execute_query-Kept :
      (s : Server (W × Sent) (ConnectorError E)) (r : Request) (v : W × Sent)
      → Kept v
      → Kept
          (execute_query s.readers (noting_services x) service s.invalid_text s.execute_text r v).1
  unfolding execute_query
  execute_query-Kept s r v h = elim (Result-cases (s.readers.query_spec r.body)) [
    | inr (e, q) ↦ rw q h
    | inl (spec, q) ↦ rw q (
        answered_Kept (execute (noting_services x) service spec (r.refresh == "true") v)
          (execute-Kept spec (r.refresh == "true") v h))
  ]
    where
      answered_Kept :
          (out : Result (ExecuteError (ConnectorError E)) QueryResult × (W × Sent))
          → Kept out.1
          → Kept
              (answered s.readers (noting_services x) service s.invalid_text s.execute_text out).1
      answered_Kept (ok result, u) k = k
      answered_Kept (err e, u) k = k

  -- A server with that service. What else it is made of may differ from request to request.
  abbrev pub Serves : Server (W × Sent) (ConnectorError E) → Type 0
  Serves s = (s.services ≡ noting_services x) × (s.service ≡ service)

  serve-Kept :
      (s : Server (W × Sent) (ConnectorError E)) (e : Endpoint) (r : Request) (seen t : Tables)
      (v : W × Sent)
      → Serves s
      → Kept v
      → Kept (serve s e r seen t v).2
  unfolding serve
  serve-Kept s Endpoint.live r seen t v is h = h
  serve-Kept s Endpoint.ready r seen t v is h = h
  serve-Kept s Endpoint.status r seen t v is h = h
  serve-Kept s Endpoint.datasets r seen t v is h = h
  serve-Kept s Endpoint.dataset r seen t v is h = h
  serve-Kept s Endpoint.validate_query r seen t v is h =
      elim (Result-cases (s.readers.query_spec r.body)) [
        | inr (e, q) ↦ unfold validate_query in rw q h
        | inl (spec, q) ↦ unfold validate_query in rw q h
      ]
  serve-Kept s Endpoint.stream_events r seen t v is h = h
  serve-Kept s Endpoint.list_assets r seen t v is h = h
  serve-Kept s Endpoint.create_asset r seen t v is h = h
  serve-Kept s Endpoint.get_asset r seen t v is h = h
  serve-Kept s Endpoint.update_asset r seen t v is h = h
  serve-Kept s Endpoint.archive_asset r seen t v is h = h
  serve-Kept s Endpoint.list_revisions r seen t v is h = h
  serve-Kept s Endpoint.get_revision r seen t v is h = h
  serve-Kept s Endpoint.restore_revision r seen t v is h = h
  serve-Kept s Endpoint.execute_query r seen t v (same, is) h =
      rw (same, is) (execute_query-Kept s r v h)

  -- Requests, one after the other, from a log with nothing in it; between them anything may happen to
  -- the tables and to the world of the databases and the cache, but not through this server.
  pub data Requests : Tables → W × Sent → Type 0 where
    start : {t : Tables} {w : W} → Requests t (w, [])
    outside : {t u : Tables} {v : W × Sent} (w : W) → Requests t v → Requests u (w, v.1)
    request :
        {t u : Tables} {v v' : W × Sent} (s : Server (W × Sent) (ConnectorError E)) (e : Endpoint)
        (r : Request) (seen : Tables) (out : Response)
        → Requests t v
        → Serves s
        → serve s e r seen t v ≡ (out, u, v')
        → Requests u v'

  -- Whatever requests a server gets, and whatever fails: each text that it has sent to the analytics
  -- database is, with its arguments, the print of a query that the manifest of its dataset allows,
  -- the limit clamped; the values of the query stand in the arguments.
  pub Requests-AreMeant :
      (t : Tables) (v : W × Sent) → Requests t v → AreMeant p service.manifests v.1
  Requests-AreMeant t v start = tt
  Requests-AreMeant t v (outside w before) = Requests-AreMeant _ _ before
  Requests-AreMeant t v (request {t = t₀} {v = v₀} s e r seen out before is h) =
      subst (λ (x : Response × Tables × (W × Sent)). AreMeant p service.manifests x.2.1) h
        (serve-Kept s e r seen t₀ v₀ is (Requests-AreMeant t₀ v₀ before))
