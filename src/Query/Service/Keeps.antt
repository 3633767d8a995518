-- ===== src/Query/Service/Keeps.antt =====
-- What a call of `Execute` leaves alone.
use flooks.Common.{
  if◌then◌else◌, String, ◌≡◌, refl, Bool, Option, none, some, Option-cases, inl, inr, Result,
  Result-cases, ok, err,
}
use flooks.Common.Dict.{lookup}
use flooks.Domain.Manifest.{DatasetManifest}
use flooks.Domain.Spec.{QuerySpec, QueryResult, cache_key}
use flooks.Query.Validate.Defs.{validate}
use flooks.Query.Service.{
  Connector, Service, Services, keep_payload, keep_result, kept, run_query, fly, cached, or_fly,
  execute,
}

-- What the connectors keep, and the cache's writes behind them, `Execute` keeps. A connector is called
-- for a query in the form that `Validate` returned, in the world in which `Execute` was called, of which
-- R holds; and the cache is given what it returned, under the query's key.
module _ {W E : Type 0} (x : Services W E) (s : Service W E) (P R : W → Type 0)
    (sets : (spec t : QuerySpec) (m : DatasetManifest) (c : Connector W E) (r : QueryResult)
        (key payload : String) (u v : W)
      → validate s.manifests spec ≡ ok (t, m)
      → cache_key x.marshal x.digest t m.version m.connector ≡ ok key
      → lookup m.connector s.connectors ≡ some c
      → c.execute m.limits.timeout_seconds m t u ≡ (ok r, v)
      → x.encode r ≡ some payload
      → R u
      → P v
      → P (x.set key payload m.cache.ttl_seconds v))
    (runs : (spec t : QuerySpec) (m : DatasetManifest) (c : Connector W E) (w : W)
      → validate s.manifests spec ≡ ok (t, m)
      → lookup m.connector s.connectors ≡ some c
      → P w
      → P (c.execute m.limits.timeout_seconds m t w).1) where
  module _ (spec t : QuerySpec) (m : DatasetManifest) (key : String) (w : W)
      (valid : validate s.manifests spec ≡ ok (t, m))
      (keyed : cache_key x.marshal x.digest t m.version m.connector ≡ ok key) (in_w : R w) where
    keep_result_keeps :
        (c : Connector W E) (r : QueryResult) (v : W)
        → lookup m.connector s.connectors ≡ some c
        → c.execute m.limits.timeout_seconds m t w ≡ (ok r, v)
        → P v
        → P (keep_result x s key m.cache.ttl_seconds r v)
    unfolding keep_result
    keep_result_keeps c r v found ran h = elim (Option-cases (x.encode r)) [
      | inl e ↦ rw e (by_cache s.has_cache none e)
      | inr (payload, e) ↦ rw e (by_cache s.has_cache (some payload) e)
    ]
      where
        by_cache :
            (b : Bool) (o : Option String)
            → x.encode r ≡ o
            → P (if b then keep_payload x s key m.cache.ttl_seconds o v else v)
        by_cache Bool.false o e = h
        by_cache Bool.true none e = h
        by_cache Bool.true (some payload) e =
            sets spec t m c r key payload w v valid keyed found ran e in_w h

    kept_keeps :
        (c : Connector W E) (p : Result E QueryResult × W)
        → lookup m.connector s.connectors ≡ some c
        → c.execute m.limits.timeout_seconds m t w ≡ p
        → P p.1
        → P (kept x s key m.cache.ttl_seconds p).1
    kept_keeps c (err e, v) found ran h = h
    kept_keeps c (ok r, v) found ran h = keep_result_keeps c r v found ran h

    or_fly_keeps : (o : Option QueryResult) → P w → P (or_fly x s o key m t w).1
    unfolding fly run_query
    or_fly_keeps (some r) h = h
    or_fly_keeps none h = elim (Option-cases (x.joined key w)) [
      | inr (r, e) ↦ rw e h
      | inl e ↦ rw e (elim (Option-cases (lookup m.connector s.connectors)) [
        | inl n ↦ rw n h
        | inr (c, found) ↦ rw found (kept_keeps c _ found refl (runs spec t m c w valid found h))
      ])
    ]

  pub execute_keeps :
      (spec : QuerySpec) (refresh : Bool) (w : W) → R w → P w → P (execute x s spec refresh w).1
  unfolding execute
  execute_keeps spec refresh w in_w h = elim (Result-cases (validate s.manifests spec)) [
    | inr (e, v) ↦ rw v h
    | inl ((t, m), v) ↦ elim (Result-cases (cache_key x.marshal x.digest t m.version m.connector)) [
      | inr (e, k) ↦ rw (v, k) h
      | inl (key, k) ↦ rw (v, k) (or_fly_keeps spec t m key w v k in_w (cached x s refresh key w) h)
    ]
  ]
