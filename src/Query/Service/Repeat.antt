-- ===== src/Query/Service/Repeat.antt =====
-- What `Execute` answers to a query that it was asked just before.
use flooks.Common.{String, ◌≡◌, ◌∙◌, refl, ap, true, false, none, some, ok}
use flooks.Common.Int.{ℤ}
use flooks.Domain.Manifest.{DatasetManifest}
use flooks.Domain.Spec.{QuerySpec, QueryResult, cache_key}
use flooks.Query.Validate.Defs.{validate}
use flooks.Query.Service.{Service, Services, execute, cached, keep_result}
use flooks.Query.Service.Answers.{Source, from_cache, from_flight, from_database, execute_source}

module _ {W E : Type 0} (x : Services W E) (s : Service W E)
    (back : QueryResult → QueryResult) where
  kept_payload :
      (key payload : String) (ttl : ℤ) (r : QueryResult) (v : W)
      → s.has_cache ≡ true
      → x.encode r ≡ some payload
      → keep_result x s key ttl r v ≡ x.set key payload ttl v
  unfolding keep_result
  kept_payload key payload ttl r v on e = rw (on, e) refl

  -- Over a cache that returns what was just set, and texts that decode to what was encoded as it comes
  -- back from JSON: once a refreshed query has an answer that can be encoded, and no call was in
  -- flight, the same query without a refresh is answered from the cache with that answer, marked as
  -- cached, and runs nothing.
  pub execute-execute :
      (spec : QuerySpec) (w w' : W) (r : QueryResult) (payload : String)
      → s.has_cache ≡ true
      → ((key payload : String) (ttl : ℤ) (v : W)
          → x.get key (x.set key payload ttl v) ≡ some payload)
      → ((q : QueryResult) (payload : String)
          → x.encode q ≡ some payload
          → x.decode payload ≡ some (back q))
      → ((key : String) → x.joined key w ≡ none)
      → x.encode r ≡ some payload
      → execute x s spec true w ≡ (ok r, w')
      → execute x s spec false w' ≡ (ok (record (back r) { cached = true }), w')
  unfolding execute cached
  execute-execute spec w w' r payload on reads decodes alone encoded ran =
      let (t, m, key, accepted, keyed, source) = execute_source x s spec true w w' r ran in
      from t m key accepted keyed source
    where
      from :
          (t : QuerySpec) (m : DatasetManifest) (key : String)
          → validate s.manifests spec ≡ ok (t, m)
          → cache_key x.marshal x.digest t m.version m.connector ≡ ok key
          → Source x s t m key true w r w'
          → execute x s spec false w' ≡ (ok (record (back r) { cached = true }), w')
      from t m key a k (from_cache p found q b c d e f) = cc
      from t m key a k (from_flight q e) = cc (alone key)
      from t m key a k (from_database c v q answered e) =
          let ttl = m.cache.ttl_seconds in
          let found : x.get key w' ≡ some payload =
            ap (x.get key) (e ∙ kept_payload key payload ttl r v on encoded)
            ∙ reads key payload ttl v in
          rw (a, k, on, found, decodes r payload encoded) refl
