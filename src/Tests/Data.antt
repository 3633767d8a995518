-- ===== src/Tests/Data.antt =====
-- The inputs of the tests: a dataset, a query, an environment of the store and a printer.
use flooks.Common.{ℕ, String, none, some, List, [], ◌∷◌, ◌==◌, if◌then◌else◌}
use flooks.Common.Int.{pos}
use flooks.Common.Text.{◌+++◌, join}
use flooks.Domain.Manifest.{DatasetManifest, Dimension, Metric}
use flooks.Domain.Value.{Value, str, arr, cons, nil}
use flooks.Domain.Spec.{QuerySpec}
use flooks.Domain.Dates.Defs.{Day}
use flooks.Assets.Store.{Env, Codec, committed}
use flooks.Postgres.Compile.{Printer}

abbrev region : Dimension
region = record {
  key = "region";
  label = "Region";
  type = "string";
  column = "region_name";
  filter_operators = "eq" ∷ "between" ∷ [];
}

abbrev revenue : Metric
revenue = record {
  key = "revenue";
  label = "Revenue";
  type = "sum";
  column = "amount";
  numerator = "";
  denominator = "";
  format = "currency";
}

abbrev pub sales : DatasetManifest
sales = record {
  version = pos 1;
  key = "sales";
  label = "Sales";
  connector = "analytics";
  source = record { kind = "table_function"; identifier = "mart.sales"; parameters = [] };
  dimensions = region ∷ [];
  metrics = revenue ∷ [];
  limits = record { default_rows = pos 100; max_rows = pos 1000; timeout_seconds = pos 30 };
  cache = record { ttl_seconds = pos 60 };
}

abbrev pub manifests : List (String × DatasetManifest)
manifests = ("sales", sales) ∷ []

abbrev pub by_region : QuerySpec
by_region = record {
  dataset_key = "sales";
  time_range = record { start = "2024-02-28"; end = "2024-02-29" };
  dimensions = "region" ∷ [];
  metrics = "revenue" ∷ [];
  filters =
      record { field = "region"; op = "between"; value = arr (cons (str "a") (cons (str "m") nil)) }
      ∷ record { field = "region"; op = "eq"; value = str "jeju" }
      ∷ [];
  sort = record { field = "revenue"; direction = "desc" } ∷ [];
  limit = pos 5000;
  offset = pos 20;
}

abbrev pub first_day : Day
first_day = record { year = 2024; month = 2; day = 28 }

abbrev pub last_day : Day
last_day = record { year = 2024; month = 2; day = 29 }

-- `by_region` as `Validate` returns it.
abbrev pub by_region_normal : QuerySpec
by_region_normal = record by_region { limit = pos 1000 }

abbrev pub quoted : List String → String
quoted parts = "\"" +++ join "\".\"" parts +++ "\""

abbrev print_string : Value → String
print_string (str s) = s
print_string _ = ""

abbrev pub printer : Printer
printer = record {
  sanitize = quoted;
  sprint = print_string;
  to_upper = λ s. if s == "asc" then "ASC" else "DESC";
}

abbrev pub codec : Codec
codec = record { jsonb = λ s. if s == "" then none else some s; checksum = λ s. s }

-- The n-th call, which nothing stops.
abbrev pub call : ℕ → Env
call n = record { now = n; asset_id = n; event_id = n; fault = λ s. none; commit = committed }
