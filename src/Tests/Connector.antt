-- ===== src/Tests/Connector.antt =====
-- The properties of the connector's calls, of the service over it, and of the start.
use flooks.Common.{
  ℕ, suc, String, ◌≡◌, ◌≢◌, ◌≤◌, refl, true, false, none, some, List, [], ◌∷◌, ◌++◌, ◌⊎◌, inl, ◌==◌,
  ok, All, arith, eq_iff,
}
use flooks.Common.Int.{pos}
use flooks.Common.Dict.{lookup, insert}
use flooks.Common.Text.{split}
use flooks.Domain.Manifest.{DatasetManifest, dimension, metric}
use flooks.Domain.Value.{Value, str, time, as_array}
use flooks.Domain.Spec.{QueryResult, cache_key}
use flooks.Domain.Dates.Defs.{dates, parse_day, before}
use flooks.Query.Validate.Defs.{
  validate, validate_with, clamp_limit, check_dimension, check_metric, check_filter, check_sort,
  contains,
}
use flooks.Query.Service.{
  Service, Services, register, check_manifest, add_manifests, new_service, cached, fly, run_query,
  keep_result, manifest,
}
use flooks.Query.Service as service_errors
use flooks.Query.Service.Listing.{
  manifests as listed, at_key, IsRange, IsAscending, manifests-new_service,
}
use flooks.Postgres.Identifier.{identifier, check_part, check_char, validate_manifest}
use flooks.Postgres.Compile.{
  Arg, compile, select_metrics, select_metric, metric_sql, filter_loop, filter_step, filter_eq,
  filter_between,
}
use flooks.Postgres.Compile.Total.{HasShape, compile-validate}
use flooks.Postgres.Execute.{
  Rows, Database, ConnectorError, connector, execute, collect, read_rows, fill_row, normalize,
  type_name,
}
use flooks.Postgres.Execute.Outcome.{IsExecuted, execute-IsExecuted}
use flooks.Postgres.Execute.Slots.{
  Call, waiting, running, Slots, acquire, running_calls, Reach, here, next, arrive, enter,
  Reach-slots,
}
use flooks.Tests.Data.{sales, manifests, by_region, by_region_normal, printer}
use flooks.Tests.Queries.{by_region_valid, counting}

-- Two columns, the second a timestamp, and two rows.
abbrev table : Rows String
table = record {
  fields = record { name = "region"; oid = 25 } ∷ record { name = "day"; oid = 1184 } ∷ [];
  values = ok (str "jeju" ∷ time (pos 5) ∷ []) ∷ ok (str "seoul" ∷ time (pos 6) ∷ []) ∷ [];
  failure = none;
}

-- A database that counts its queries and answers each with the table.
abbrev pub database : Database ℕ String
database = record {
  wait = λ seconds n. (none, n);
  query = λ seconds sql args n. (ok table, suc n);
  duration = λ start end. 12;
  rfc3339 = λ t. "2024-02-28T00:00:00Z";
  text = λ b. "";
}

abbrev day : Value
day = str "2024-02-28T00:00:00Z"

abbrev answer : QueryResult
answer = record {
  columns =
      record { name = "region"; type = "string" } ∷ record { name = "day"; type = "datetime" } ∷ [];
  rows =
      (("day", day) ∷ ("region", str "jeju") ∷ [])
      ∷ (("day", day) ∷ ("region", str "seoul") ∷ [])
      ∷ [];
  row_count = 2;
  duration_ms = 12;
  cached = false;
}

executed : execute database printer (pos 30) sales by_region_normal 7 ≡ (ok answer, 8)
unfolding execute collect read_rows fill_row normalize type_name insert compile identifier split
    check_part check_char select_metrics select_metric metric_sql metric filter_loop filter_step
    filter_eq filter_between dimension as_array
executed = refl

execute-IsExecuted_example : IsExecuted database printer (pos 30) sales by_region_normal 7 8 answer
execute-IsExecuted_example =
    execute-IsExecuted database printer (pos 30) sales by_region_normal 7 8 answer executed

abbrev pub redis : Services ℕ (ConnectorError String)
redis = record {
  get = λ key w. none;
  set = λ key payload ttl w. suc w;
  encode = λ r. some "{}";
  decode = λ payload. none;
  joined = λ key w. none;
  marshal = λ p. ok p.connector;
  digest = λ text. text;
}

abbrev live_service : Service ℕ (ConnectorError String)
live_service = record {
  manifests = manifests;
  connectors = ("analytics", connector database printer "analytics") ∷ [];
  has_cache = true;
}

live_service_made :
    new_service (sales ∷ []) (connector database printer "analytics" ∷ []) true ≡ ok live_service
unfolding new_service register add_manifests check_manifest lookup insert validate_manifest
    identifier split check_part check_char
live_service_made = refl

live_answer : service_errors.execute redis live_service by_region true 7 ≡ (ok answer, 9)
unfolding service_errors.execute validate validate_with dates parse_day before clamp_limit
    check_dimension check_metric check_filter check_sort dimension metric contains lookup cache_key
    cached fly run_query keep_result execute collect read_rows fill_row normalize type_name insert
    compile identifier split check_part check_char select_metrics select_metric metric_sql
    filter_loop filter_step filter_eq filter_between as_array
live_answer = refl

-- Two calls for one slot.
abbrev busy : Slots
busy = record { calls = running ∷ waiting ∷ []; used = 1 }

busy_reached : Reach 1 busy
unfolding acquire
busy_reached =
    next (next (next here (arrive refl)) (arrive refl)) (enter [] (waiting ∷ []) 1 refl refl refl)

Reach-slots_example :
    (running_calls busy.calls ≤ 1)
    × ((before after : List Call) → busy.calls ≡ before ++ running ∷ after → 1 ≤ busy.used)
    × ((running_calls busy.calls ≡ 1) ⊎ ((used : ℕ) × (acquire 1 busy.used ≡ some used)))
Reach-slots_example = Reach-slots 1 busy busy_reached

abbrev orders : DatasetManifest
orders = record sales { key = "orders" }

abbrev both : Service ℕ String
both = record {
  manifests = ("orders", orders) ∷ ("sales", sales) ∷ [];
  connectors = ("analytics", counting) ∷ [];
  has_cache = true;
}

both_made : new_service (sales ∷ orders ∷ []) (counting ∷ []) true ≡ ok both
unfolding new_service register add_manifests check_manifest lookup insert
both_made = refl

abbrev turned : List (String × DatasetManifest)
turned = ("sales", sales) ∷ ("orders", orders) ∷ []

both-IsRange : IsRange both.manifests both.manifests
unfolding lookup
both-IsRange = record { distinct = (refl, (refl, tt)); same = λ key. refl }

turned-IsRange : IsRange both.manifests turned
unfolding lookup
turned-IsRange = record {
  distinct = (refl, (refl, tt));
  same = λ key. ground (arith, eq_iff "sales" key, eq_iff "orders" key);
}

manifests-new_service_example :
    (listed both.manifests ≡ listed turned)
    × IsAscending (listed both.manifests)
    × ((key : String) → at_key key (listed both.manifests) ≡ manifest both key)
manifests-new_service_example =
    manifests-new_service (sales ∷ orders ∷ []) (counting ∷ []) true both both.manifests turned
      both_made both-IsRange turned-IsRange

sales_usable : validate_manifest printer.sanitize sales ≡ ok tt
unfolding validate_manifest identifier split check_part check_char
sales_usable = refl

differ : (a b : String) → (a == b) ≡ false → a ≢ b
differ a b other h = ground (arith, eq_iff a b)

by_region_shaped : All HasShape by_region.filters
unfolding as_array
by_region_shaped = (
  record {
    in_array = λ h. absurd (differ "between" "in" refl h);
    between_pair = λ h. (str "a", str "m", refl);
  },
  (
    record {
      in_array = λ h. absurd (differ "eq" "in" refl h);
      between_pair = λ h. absurd (differ "eq" "between" refl h);
    },
    tt,
  ),
)

compile-validate_example :
    (sql : String) × (args : List Arg) × (compile printer sales by_region_normal ≡ ok (sql, args))
compile-validate_example =
    compile-validate printer manifests by_region by_region_normal sales by_region_valid sales_usable
      (inl refl, tt) by_region_shaped
