-- ===== src/Tests/Queries.antt =====
-- The properties of the query service and of the connector, on `by_region`.
use flooks.Common.{
  ℕ, suc, String, ◌≡◌, refl, ◌↔◌, true, false, none, some, List, [], ◌∷◌, Result, ok, err,
}
use flooks.Common.Int.{pos}
use flooks.Common.Dict.{lookup, insert}
use flooks.Domain.Manifest.{dimension, metric}
use flooks.Domain.Spec.{QuerySpec, Filter, QueryResult, cache_key}
use flooks.Domain.Dates.Defs.{dates, parse_day, before}
use flooks.Domain.Dates.Laws.{IsRange, dates_iff}
use flooks.Query.Validate.Defs.{
  validate, validate_with, clamp_limit, check_dimension, check_metric, check_filter, check_sort,
  contains,
}
use flooks.Query.Validate.Accepts.{IsAllowed}
use flooks.Query.Validate.Normal.{IsNormal, validate_iff}
use flooks.Query.Service.{
  Connector, Service, Services, register, check_manifest, add_manifests, new_service, cached, fly,
  run_query, keep_result, execute,
}
use flooks.Query.Service.Registry.{IsRegistered, new_service-IsRegistered}
use flooks.Postgres.Identifier.{identifier, check_part, check_char}
use flooks.Postgres.Identifier.Laws.{IsQualified, identifier_iff}
use flooks.Common.Text.{split}
use flooks.Domain.Value.{str, arr, cons, nil, as_array, as_bool}
use flooks.Postgres.Compile.{
  compile, Arg, CompileError, select_metrics, select_metric, metric_sql, filter_loop, filter_step,
  filter_eq, filter_between,
}
use flooks.Postgres.Compile.Alike.{AreVariants}
use flooks.Postgres.Compile.Injection.{text-compile}
use flooks.Postgres.Compile.Tree.{meant}
use flooks.Postgres.Compile.Refines.{Refined, compile-Refined}
use flooks.Tests.Data.{
  sales, manifests, by_region, by_region_normal, first_day, last_day, quoted, printer,
}

compile-Refined_example :
    Refined (compile printer sales by_region_normal) (meant printer sales by_region_normal)
compile-Refined_example = compile-Refined printer sales by_region_normal

abbrev other_filters : List Filter
other_filters =
    record {
      field = "region";
      op = "between";
      value = arr (cons (str "n") (cons (str "' OR 1=1 --") nil));
    }
    ∷ record { field = "region"; op = "eq"; value = str "seoul" }
    ∷ []

abbrev other_query : QuerySpec
other_query = record by_region_normal { filters = other_filters; limit = pos 10; offset = pos 0 }

abbrev text_of : Result CompileError (String × List Arg) → String
text_of (err e) = ""
text_of (ok (t, a)) = t

abbrev args_of : Result CompileError (String × List Arg) → List Arg
args_of (err e) = []
args_of (ok (t, a)) = a

pub by_region_compiled :
    compile printer sales by_region_normal
    ≡ ok (
      text_of (compile printer sales by_region_normal),
      args_of (compile printer sales by_region_normal),
    )
unfolding compile identifier split check_part check_char select_metrics select_metric metric_sql
    metric filter_loop filter_step filter_eq filter_between dimension as_array
by_region_compiled = refl

pub other_query_compiled :
    compile printer sales other_query
    ≡ ok (text_of (compile printer sales other_query), args_of (compile printer sales other_query))
unfolding compile identifier split check_part check_char select_metrics select_metric metric_sql
    metric filter_loop filter_step filter_eq filter_between dimension as_array
other_query_compiled = refl

same_shape : AreVariants by_region_normal.filters other_filters
unfolding as_bool
same_shape = (
  record { field = refl; op = refl; null = λ h. refl },
  (record { field = refl; op = refl; null = λ h. refl }, tt),
)

text-compile_example :
    text_of (compile printer sales by_region_normal) ≡ text_of (compile printer sales other_query)
text-compile_example =
    text-compile printer sales by_region_normal by_region_normal.time_range other_filters (pos 10)
      (pos 0) (text_of (compile printer sales by_region_normal))
      (text_of (compile printer sales other_query))
      (args_of (compile printer sales by_region_normal))
      (args_of (compile printer sales other_query)) same_shape by_region_compiled
      other_query_compiled

validate_iff_example : (validate manifests by_region ≡ ok (by_region_normal, sales)) ↔ (
    (lookup "sales" manifests ≡ some sales)
    × IsAllowed sales by_region
    × IsNormal sales by_region by_region_normal)
validate_iff_example = validate_iff manifests by_region by_region_normal sales

pub by_region_valid : validate manifests by_region ≡ ok (by_region_normal, sales)
unfolding validate validate_with dates parse_day before clamp_limit check_dimension check_metric
    check_filter check_sort dimension metric contains lookup
by_region_valid = refl

dates_iff_example :
    (dates by_region ≡ ok (first_day, last_day)) ↔ IsRange by_region first_day last_day
dates_iff_example = dates_iff by_region first_day last_day

identifier_iff_example : (identifier quoted "mart.sales" ≡ ok "\"mart\".\"sales\"") ↔ (
    (parts : List String) × IsQualified "mart.sales" parts × ("\"mart\".\"sales\"" ≡ quoted parts))
identifier_iff_example = identifier_iff quoted "mart.sales" "\"mart\".\"sales\""

-- A connector that counts its calls and returns no rows.
abbrev no_rows : ℕ → QueryResult
no_rows n = record { columns = []; rows = []; row_count = 0; duration_ms = n; cached = false }

abbrev pub counting : Connector ℕ String
counting = record {
  kind = "analytics";
  validate_manifest = λ m. ok tt;
  execute = λ seconds m spec calls. (ok (no_rows calls), suc calls);
}

-- Redis without a key, and no other call in flight.
abbrev pub services : Services ℕ String
services = record {
  get = λ key w. none;
  set = λ key payload ttl w. w;
  encode = λ r. some "{}";
  decode = λ payload. none;
  joined = λ key w. none;
  marshal = λ p. ok p.connector;
  digest = λ text. text;
}

abbrev pub service : Service ℕ String
service = record {
  manifests = manifests;
  connectors = ("analytics", counting) ∷ [];
  has_cache = true;
}

service_made : new_service (sales ∷ []) (counting ∷ []) true ≡ ok service
unfolding new_service register add_manifests check_manifest lookup insert
service_made = refl

by_region_answered : execute services service by_region false 7 ≡ (ok (no_rows 7), 8)
unfolding execute validate validate_with dates parse_day before clamp_limit check_dimension
    check_metric check_filter check_sort dimension metric contains lookup cache_key cached fly
    run_query keep_result
by_region_answered = refl

new_service-IsRegistered_example : IsRegistered (sales ∷ []) service
new_service-IsRegistered_example =
    new_service-IsRegistered (sales ∷ []) (counting ∷ []) true service service_made
