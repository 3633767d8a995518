-- ===== src/Query/Service/Answers.antt =====
-- Where the results of `Execute` come from.
use flooks.Common.{
  String, ◌≡◌, ◌≢◌, refl, sym, ap, Bool, true, false, Option, none, some, List, Result,
  Result-cases, ok, err, arith, inl, inr,
}
use flooks.Common.Int.{ℤ}
use flooks.Common.Dict.{lookup}
use flooks.Domain.Manifest.{DatasetManifest}
use flooks.Domain.Spec.{QuerySpec, QueryResult, cache_key}
use flooks.Query.Validate.Defs.{Invalid, validate}
use flooks.Query.Validate.Normal.{validate_iff}
use flooks.Query.Service.{
  Connector, Service, Services, ExecuteError, no_key, panicked, new_service, run_query, kept,
  keep_result, fly, cached, or_fly, keyed, validated, execute,
}
use flooks.Query.Service.Registry.{IsRegistered, new_service-IsRegistered}

module _ {W E : Type 0} (x : Services W E) (s : Service W E) where
  -- Where a result of a query on the normal form `t`, under its key, comes from.
  pub data Source (t : QuerySpec) (m : DatasetManifest) (key : String) (refresh : Bool) (w : W)
      (r : QueryResult) (w' : W) : Type 0 where
    from_cache :
        (payload : String) (found : QueryResult)
        → refresh ≡ false
        → s.has_cache ≡ true
        → x.get key w ≡ some payload
        → x.decode payload ≡ some found
        → r ≡ record found { cached = true }
        → w' ≡ w
        → Source t m key refresh w r w'
    from_flight : x.joined key w ≡ some (ok r) → w' ≡ w → Source t m key refresh w r w'
    from_database :
        (c : Connector W E) (v : W)
        → lookup m.connector s.connectors ≡ some c
        → c.execute m.limits.timeout_seconds m t w ≡ (ok r, v)
        → w' ≡ keep_result x s key m.cache.ttl_seconds r v
        → Source t m key refresh w r w'

  kept_ok :
      (key : String) (ttl : ℤ) (p : Result E QueryResult × W) (r : QueryResult) (w' : W)
      → kept x s key ttl p ≡ (ok r, w')
      → (v : W) × (p ≡ (ok r, v)) × (w' ≡ keep_result x s key ttl r v)
  kept_ok key ttl (ok q, v) r w' h =
      let same : q ≡ r = cc in
      (
        v,
        rw same refl,
        rw (← same) (sym (ap (λ (z : Result (ExecuteError E) QueryResult × W). z.1) h)),
      )
  kept_ok key ttl (err e, v) r w' h = cc

  fly_source :
      (key : String) (refresh : Bool) (m : DatasetManifest) (t : QuerySpec) (w w' : W)
      (r : QueryResult) (o : Option (Result E QueryResult)) (c : Option (Connector W E))
      → x.joined key w ≡ o
      → lookup m.connector s.connectors ≡ c
      → fly x s o key m t w ≡ (ok r, w')
      → Source t m key refresh w r w'
  unfolding fly
  fly_source key refresh m t w w' r (some (ok q)) c e l h =
      let same : q ≡ r = cc in
      from_flight (rw (← same) e)
        (sym (ap (λ (z : Result (ExecuteError E) QueryResult × W). z.1) h))
  fly_source key refresh m t w w' r (some (err q)) c e l h = absurd (cc)
  fly_source key refresh m t w w' r none none e l h = absurd (no_connector (rw l at h))
    where
      no_connector : run_query x s key m t none w ≡ (ok r, w') → ⊥
      no_connector k = cc
  fly_source key refresh m t w w' r none (some c) e l h =
      let (v, ran, kept) =
        kept_ok key m.cache.ttl_seconds (c.execute m.limits.timeout_seconds m t w) r w'
          (rw l at h) in
      from_database c v l ran kept

  cached_source :
      (key : String) (refresh : Bool) (w : W) (found : QueryResult)
      → cached x s refresh key w ≡ some found
      → (payload : String) × (refresh ≡ false)
        × (s.has_cache ≡ true)
        × (x.get key w ≡ some payload)
        × (x.decode payload ≡ some found)
  unfolding cached
  cached_source key refresh w found h = ground arith

  -- Whatever `Execute` returns is a result of the query in its normal form, for the dataset's
  -- manifest: decoded from the cache under the query's key, when no refresh is asked for, and marked
  -- as cached; or that of a call in flight for the same key; or what the manifest's connector
  -- returned within the manifest's timeout, and then it is what the cache is given under the key.
  pub execute_source :
      (spec : QuerySpec) (refresh : Bool) (w w' : W) (r : QueryResult)
      → execute x s spec refresh w ≡ (ok r, w')
      → (t : QuerySpec) × (m : DatasetManifest) × (key : String) × (validate s.manifests spec
          ≡ ok (t, m))
        × (cache_key x.marshal x.digest t m.version m.connector ≡ ok key)
        × Source t m key refresh w r w'
  unfolding execute
  execute_source spec refresh w w' r h = elim (Result-cases (validate s.manifests spec)) [
    | inr (e, he) ↦ absurd (invalid_answer e (rw he at h))
    | inl ((t, m), hv) ↦
        elim (Result-cases (cache_key x.marshal x.digest t m.version m.connector)) [
          | inr (e, he) ↦ absurd (keyless e (rw (hv, he) at h))
          | inl (key, hk) ↦
              (t, m, key, hv, hk, answer t m key (cached x s refresh key w) refl (rw (hv, hk) at h))
        ]
  ]
    where
      ok_inj :
          {a b : QueryResult} → ◌≡◌ {A = Result (ExecuteError E) QueryResult} (ok a) (ok b) → a ≡ b
      ok_inj k = cc

      invalid_answer : (e : Invalid) → validated x s (err e) refresh w ≡ (ok r, w') → ⊥
      invalid_answer e k = cc

      keyless :
          (e : E)
          → Path (Result (ExecuteError E) QueryResult × W) (err (no_key e), w) (ok r, w')
          → ⊥
      keyless e k = cc

      answer :
          (t : QuerySpec) (m : DatasetManifest) (key : String) (o : Option QueryResult)
          → cached x s refresh key w ≡ o
          → or_fly x s o key m t w ≡ (ok r, w')
          → Source t m key refresh w r w'
      answer t m key none e k =
          fly_source key refresh m t w w' r (x.joined key w) (lookup m.connector s.connectors) refl
            refl k
      answer t m key (some found) e k =
          let (payload, fresh, on, got, read) = cached_source key refresh w found e in
          from_cache payload found fresh on got read
            (ok_inj (ap (λ (z : Result (ExecuteError E) QueryResult × W). z.0) (sym k)))
            (sym (ap (λ (z : Result (ExecuteError E) QueryResult × W). z.1) k))

  fly-ne-panicked :
      (key : String) (m : DatasetManifest) (t : QuerySpec) (w : W)
      (o : Option (Result E QueryResult)) (c : Connector W E)
      → lookup m.connector s.connectors ≡ some c
      → (fly x s o key m t w).0 ≢ err panicked
  unfolding fly
  fly-ne-panicked key m t w (some (ok r)) c h = λ k. cc
  fly-ne-panicked key m t w (some (err e)) c h = λ k. cc
  fly-ne-panicked key m t w none c h = rw h (ran (c.execute m.limits.timeout_seconds m t w))
    where
      ran : (p : Result E QueryResult × W) → (kept x s key m.cache.ttl_seconds p).0 ≢ err panicked
      ran (ok r, v) = λ k. cc
      ran (err e, v) = λ k. cc

-- A service that `NewService` returned never calls a connector that is not there, whatever the query.
pub execute-ne-panicked :
    {W E : Type 0} (x : Services W E) (ms : List DatasetManifest) (cs : List (Connector W E))
    (has_cache : Bool) (s : Service W E) (spec : QuerySpec) (refresh : Bool) (w : W)
    → new_service ms cs has_cache ≡ ok s
    → (execute x s spec refresh w).0 ≢ err panicked
unfolding execute
execute-ne-panicked {W} {E} x ms cs has_cache s spec refresh w h =
    elim (Result-cases (validate s.manifests spec)) [
      | inr (e, he) ↦ rw he (λ k. cc)
      | inl ((t, m), hv) ↦
          rw hv (with_key t m hv (cache_key x.marshal x.digest t m.version m.connector))
    ]
  where
    registered : IsRegistered ms s
    registered = new_service-IsRegistered ms cs has_cache s h

    with_cache :
        (t : QuerySpec) (m : DatasetManifest) (key : String) (o : Option QueryResult)
        → validate s.manifests spec ≡ ok (t, m)
        → (or_fly x s o key m t w).0 ≢ err panicked
    with_cache t m key (some r) hv = λ k. cc
    with_cache t m key none hv =
        let (l, allowed, n) = (validate_iff s.manifests spec t m).0 hv in
        let (c, found, kind, valid) = registered.served spec.dataset_key m l in
        fly-ne-panicked x s key m t w (x.joined key w) c found

    with_key :
        (t : QuerySpec) (m : DatasetManifest)
        → validate s.manifests spec ≡ ok (t, m)
        → (r : Result E String) → (keyed x s r refresh m t w).0 ≢ err panicked
    with_key t m hv (err e) = λ k. cc
    with_key t m hv (ok key) = with_cache t m key (cached x s refresh key w) hv
