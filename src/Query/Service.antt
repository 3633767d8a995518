-- ===== src/Query/Service.antt =====
-- internal/query/service.go: `NewService`, `Manifest` and `Execute`.
pub mod Registry
pub mod Answers
pub mod Listing
pub mod Keeps
pub mod Genuine
pub mod Repeat
pub mod Maps
use flooks.Common.{
  String, Bool, true, false, ◌&&◌, not, Option, none, some, List, [], ◌∷◌, Result, ok, err, ◌>>=◌,
  ◌==◌, if◌then◌else◌,
}
use flooks.Common.Int.{ℤ}
use flooks.Common.Dict.{lookup, insert}
use flooks.Domain.Manifest.{DatasetManifest}
use flooks.Domain.Spec.{QuerySpec, QueryResult, KeyPayload, cache_key}
use flooks.Query.Validate.Defs.{Invalid, validate}

-- The interface `Connector`, over a world W that queries may change and errors E. `execute` takes
-- the seconds of its timeout.
pub record Connector (W : Type 0) (E : Type 0) : Type 0 where
  pub kind : String
  pub validate_manifest : DatasetManifest → Result E (Unit {0})
  pub execute : ℤ → DatasetManifest → QuerySpec → W → Result E QueryResult × W

-- `Service`. `has_cache` is `cache != nil`.
pub record Service (W : Type 0) (E : Type 0) : Type 0 where
  pub manifests : List (String × DatasetManifest)
  pub connectors : List (String × Connector W E)
  pub has_cache : Bool

pub data ServiceError (E : Type 0) : Type 0 where
  unregistered : String → String → ServiceError E
  dataset : String → E → ServiceError E

-- `panicked` is the call of a method of a nil connector.
pub data ExecuteError (E : Type 0) : Type 0 where
  invalid : Invalid → ExecuteError E
  no_key : E → ExecuteError E
  from_connector : E → ExecuteError E
  panicked : ExecuteError E

-- Redis and JSON. A missing key, and an error, is `none`. `joined` is what a call of
-- `singleflight.Group.Do` returns that finds another in flight for its key; `none` if none is.
pub record Services (W : Type 0) (E : Type 0) : Type 0 where
  pub get : String → W → Option String
  pub set : String → String → ℤ → W → W
  pub encode : QueryResult → Option String
  pub decode : String → Option QueryResult
  pub joined : String → W → Option (Result E QueryResult)
  pub marshal : KeyPayload → Result E String
  pub digest : String → String

abbrev pub tagged :
    {E : Type 0} → DatasetManifest → Result E (Unit {0}) → Result (ServiceError E) (Unit {0})
tagged m (ok _) = ok tt
tagged m (err e) = err (dataset m.key e)

module _ {W E : Type 0} where
  -- The two loops of `NewService`.
  unfoldable pub register :
      List (Connector W E) → List (String × Connector W E) → List (String × Connector W E)
  register [] m = m
  register (c ∷ cs) m = register cs (insert c.kind c m)

  unfoldable pub check_manifest :
      DatasetManifest → Option (Connector W E) → Result (ServiceError E) (Unit {0})
  check_manifest m none = err (unregistered m.key m.connector)
  check_manifest m (some c) = tagged m (c.validate_manifest m)

  unfoldable pub add_manifests :
      List (String × Connector W E)
      → List DatasetManifest
      → List (String × DatasetManifest)
      → Result (ServiceError E) (List (String × DatasetManifest))
  add_manifests connectors [] known = ok known
  add_manifests connectors (m ∷ ms) known = do
    checked ← check_manifest m (lookup m.connector connectors)
    add_manifests connectors ms (insert m.key m known)

  unfoldable pub new_service :
      List DatasetManifest → List (Connector W E) → Bool → Result (ServiceError E) (Service W E)
  unfolding register add_manifests
  new_service manifests connectors has_cache =
      let registered = register connectors [] in
      do
        known ← add_manifests registered manifests []
        ok (record { manifests = known; connectors = registered; has_cache = has_cache })

  -- `Service.Manifest`
  unfoldable pub manifest : Service W E → String → Option DatasetManifest
  manifest s key = lookup key s.manifests

  module _ (x : Services W E) (s : Service W E) where
    -- `s.cache.Set`, if there is a cache and the result can be encoded.
    abbrev pub keep_payload : String → ℤ → Option String → W → W
    keep_payload key ttl none w = w
    keep_payload key ttl (some payload) w = x.set key payload ttl w

    unfoldable pub keep_result : String → ℤ → QueryResult → W → W
    keep_result key ttl r w = if s.has_cache then keep_payload key ttl (x.encode r) w else w

    abbrev pub kept :
        String → ℤ → Result E QueryResult × W → Result (ExecuteError E) QueryResult × W
    kept key ttl (err e, w) = (err (from_connector e), w)
    kept key ttl (ok r, w) = (ok r, keep_result key ttl r w)

    -- The function that `Execute` hands to `singleflight`.
    unfoldable pub run_query :
        String
        → DatasetManifest
        → QuerySpec
        → Option (Connector W E)
        → W
        → Result (ExecuteError E) QueryResult × W
    run_query key m spec none w = (err panicked, w)
    run_query key m spec (some c) w =
        kept key m.cache.ttl_seconds (c.execute m.limits.timeout_seconds m spec w)

    abbrev pub shared : Result E QueryResult → Result (ExecuteError E) QueryResult
    shared (ok r) = ok r
    shared (err e) = err (from_connector e)

    -- `s.group.Do`
    unfoldable pub fly :
        Option (Result E QueryResult)
        → String
        → DatasetManifest
        → QuerySpec
        → W
        → Result (ExecuteError E) QueryResult × W
    unfolding run_query keep_result
    fly (some r) key m spec w = (shared r, w)
    fly none key m spec w = run_query key m spec (lookup m.connector s.connectors) w

    abbrev pub decoded : Option String → Option QueryResult
    decoded none = none
    decoded (some payload) = x.decode payload

    -- What the cache answers, if it is asked.
    unfoldable pub cached : Bool → String → W → Option QueryResult
    cached refresh key w = if not refresh && s.has_cache then decoded (x.get key w) else none

    abbrev pub or_fly :
        Option QueryResult
        → String
        → DatasetManifest
        → QuerySpec
        → W
        → Result (ExecuteError E) QueryResult × W
    or_fly (some r) key m spec w = (ok (record r { cached = true }), w)
    or_fly none key m spec w = fly (x.joined key w) key m spec w

    abbrev pub keyed :
        Result E String
        → Bool
        → DatasetManifest
        → QuerySpec
        → W
        → Result (ExecuteError E) QueryResult × W
    keyed (err e) refresh m spec w = (err (no_key e), w)
    keyed (ok key) refresh m spec w = or_fly (cached refresh key w) key m spec w

    abbrev pub validated :
        Result Invalid (QuerySpec × DatasetManifest)
        → Bool
        → W
        → Result (ExecuteError E) QueryResult × W
    validated (err e) refresh w = (err (invalid e), w)
    validated (ok (spec, m)) refresh w =
        keyed (cache_key x.marshal x.digest spec m.version m.connector) refresh m spec w

    -- `Service.Execute`
    unfoldable pub execute : QuerySpec → Bool → W → Result (ExecuteError E) QueryResult × W
    unfolding cached fly
    execute spec refresh w = validated (validate s.manifests spec) refresh w
