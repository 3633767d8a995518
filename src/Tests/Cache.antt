-- ===== src/Tests/Cache.antt =====
-- The properties of the cache in front of the connectors.
use flooks.Common.{
  String, ◌≡◌, refl, subst, true, false, none, some, List, [], ◌∷◌, ok, arith, eq_iff,
}
use flooks.Common.Dict.{lookup}
use flooks.Domain.Manifest.{DatasetManifest, dimension, metric}
use flooks.Domain.Spec.{QuerySpec, QueryResult, cache_key}
use flooks.Domain.Dates.Defs.{dates, parse_day, before}
use flooks.Query.Validate.Defs.{
  validate, validate_with, clamp_limit, check_dimension, check_metric, check_filter, check_sort,
  contains,
}
use flooks.Query.Service.{
  Connector, Service, Services, execute, cached, fly, run_query, keep_result,
}
use flooks.Query.Service.Genuine.{start, call, IsHonest, IsGenuine, Runs-IsGenuine}
use flooks.Query.Service.Repeat.{execute-execute}
use flooks.Common.Int.{ℤ}
use flooks.Tests.Data.{manifests, by_region}

-- Redis, as what was set, the latest first.
abbrev Store : Type 0
Store = List (String × String)

abbrev answer : QueryResult
answer = record { columns = []; rows = []; row_count = 0; duration_ms = 12; cached = false }

abbrev steady : Connector Store String
steady = record {
  kind = "analytics";
  validate_manifest = λ m. ok tt;
  execute = λ seconds m t w. (ok answer, w);
}

abbrev store : Services Store String
store = record {
  get = lookup;
  set = λ key payload ttl w. (key, payload) ∷ w;
  encode = λ r. some "{}";
  decode = λ payload. some answer;
  joined = λ key w. none;
  marshal = λ p. ok p.connector;
  digest = λ text. text;
}

abbrev stored_service : Service Store String
stored_service = record {
  manifests = manifests;
  connectors = ("analytics", steady) ∷ [];
  has_cache = true;
}

only_steady :
    (kind : String) (c : Connector Store String)
    → lookup kind stored_service.connectors ≡ some c
    → steady ≡ c
unfolding lookup
only_steady kind c h = ground arith

honest : IsHonest store stored_service
unfolding lookup
honest = record {
  reads = λ key written payload p ttl w h. ground (arith, eq_iff written key);
  leaves = λ c kind seconds m t w found key payload h.
      subst
        (λ (d : Connector Store String).
          lookup key (d.execute seconds m t w).1 ≡ some payload → lookup key w ≡ some payload)
        (only_steady kind c found) (λ k. k) h;
  shares = λ key w r h. cc;
}

cold : (key : String) → store.get key [] ≡ none
unfolding lookup
cold key = refl

-- What is there after a first call.
abbrev warm : Store
warm = (execute store stored_service by_region false []).1

-- The second call is answered from it.
warm_answer :
    execute store stored_service by_region false warm ≡ (ok (record answer { cached = true }), warm)
unfolding execute validate validate_with dates parse_day before clamp_limit check_dimension
    check_metric check_filter check_sort dimension metric contains lookup cache_key cached fly
    run_query keep_result
warm_answer = refl

Runs-IsGenuine_example :
    (t : QuerySpec) × (m : DatasetManifest) × (validate manifests by_region ≡ ok (t, m))
    × IsGenuine store stored_service t m (record answer { cached = true })
Runs-IsGenuine_example =
    Runs-IsGenuine store stored_service honest by_region false warm warm
      (record answer { cached = true }) (call by_region false (start cold)) warm_answer

-- The first call again, with a refresh.
abbrev fresh : Store
fresh = (execute store stored_service by_region true []).1

fresh_answer : execute store stored_service by_region true [] ≡ (ok answer, fresh)
unfolding execute validate validate_with dates parse_day before clamp_limit check_dimension
    check_metric check_filter check_sort dimension metric contains lookup cache_key cached fly
    run_query keep_result
fresh_answer = refl

just_set :
    (key payload : String) (ttl : ℤ) (v : Store)
    → store.get key (store.set key payload ttl v) ≡ some payload
unfolding lookup
just_set key payload ttl v = ground (arith, eq_iff key key)

execute-execute_example :
    execute store stored_service by_region false fresh
    ≡ (ok (record answer { cached = true }), fresh)
execute-execute_example =
    execute-execute store stored_service (λ q. answer) by_region [] fresh answer "{}" refl just_set
      (λ q payload h. refl) (λ key. refl) refl fresh_answer
