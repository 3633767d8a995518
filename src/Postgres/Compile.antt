-- ===== src/Postgres/Compile.antt =====
-- internal/connector/postgres/postgres.go: `Compile` and `metricSQL`.
pub mod Selected
pub mod Tree
pub mod Numbers
pub mod Loop
pub mod Refines
pub mod Alike
pub mod Injection
pub mod Total
use flooks.Common.{
  ℕ, suc, ◌+◌, ◌-◌, String, Bool, true, false, ◌&&◌, not, Option, none, some, List, [], ◌∷◌, ◌++◌,
  map, Result, ok, err, ◌>>=◌, length, ltb, nat_eq, ◌==◌, if◌then◌else◌,
}
use flooks.Common.Int.{ℤ}
use flooks.Common.Text.{◌+++◌, join, itoa}
use flooks.Domain.Manifest.{DatasetManifest, Dimension, Metric, dimension, metric}
use flooks.Domain.Value.{Value, as_array, as_bool}
use flooks.Domain.Spec.{QuerySpec, Filter, Sort}
use flooks.Postgres.Identifier.{IdentifierError, identifier}

-- What `Compile` calls outside the repository: `pgx.Identifier.Sanitize`, and `fmt.Sprint` and
-- `strings.ToUpper` of the standard library, whose tables of numbers and letters are not modelled.
pub record Printer : Type 0 where
  pub sanitize : List String → String
  pub sprint : Value → String
  pub to_upper : String → String

-- An argument of the query, `any` in Go.
pub data Arg : Type 0 where
  text : String → Arg
  any : Value → Arg
  texts : List String → Arg
  number : ℤ → Arg

pub data CompileError : Type 0 where
  bad_source : IdentifierError → CompileError
  unknown_numerator : String → CompileError
  unknown_denominator : String → CompileError
  metric_type : String → CompileError
  non_empty_array : String → CompileError
  two_values : String → CompileError

-- Go's zero values, which a failed look-up returns.
abbrev pub no_dimension : Dimension
no_dimension = record { key = ""; label = ""; type = ""; column = ""; filter_operators = [] }

abbrev pub no_metric : Metric
no_metric = record {
  key = "";
  label = "";
  type = "";
  column = "";
  numerator = "";
  denominator = "";
  format = "";
}

abbrev pub get_or {ℓ} : {A : Type ℓ} → A → Option A → A
get_or d none = d
get_or d (some a) = a

abbrev pub with_error {ℓ} : {E F A : Type ℓ} → (E → F) → Result E A → Result F A
with_error f (ok a) = ok a
with_error f (err e) = err (f e)

abbrev pub some_or {ℓ} : {E A : Type ℓ} → E → Option A → Result E A
some_or e none = err e
some_or e (some a) = ok a

-- The variables of the loop over the filters.
pub record Clauses : Type 0 where
  pub args : List Arg
  pub predicates : List String

-- `append(args, new...)`, and a predicate that is made once the arguments are there.
abbrev pub push : Clauses → List Arg → (ℕ → String) → Clauses
push c new predicate =
    let args = c.args ++ new in
    record { args = args; predicates = c.predicates ++ predicate (length args) ∷ [] }

abbrev pub is_nonempty {ℓ} : {A : Type ℓ} → List A → Bool
is_nonempty [] = false
is_nonempty (x ∷ xs) = true

abbrev pub quote : Printer → String → String
quote p name = p.sanitize (name ∷ [])

module _ (p : Printer) (m : DatasetManifest) where
  -- `metricSQL`
  unfoldable pub metric_sql : Metric → Result CompileError String
  metric_sql t =
      if t.type == "sum"
      then ok ("COALESCE(SUM(" +++ quote p t.column +++ "), 0)")
      else if t.type == "ratio"
      then (do
        numerator ← some_or (unknown_numerator t.numerator) (metric m t.numerator)
        denominator ← some_or (unknown_denominator t.denominator) (metric m t.denominator)
        ok (
            "COALESCE(SUM("
            +++ quote p numerator.column
            +++ ") / NULLIF(SUM("
            +++ quote p denominator.column
            +++ "), 0), 0)"))
      else err (metric_type t.type)

  -- The bodies of the loops over the dimensions and over the metrics.
  unfoldable pub select_dimension : String → String
  select_dimension key =
      let field = get_or no_dimension (dimension m key) in
      quote p field.column +++ " AS " +++ quote p field.key

  unfoldable pub group_dimension : String → String
  group_dimension key = quote p (get_or no_dimension (dimension m key)).column

  unfoldable pub select_metric : String → Result CompileError String
  unfolding metric_sql
  select_metric key =
      let found = get_or no_metric (metric m key) in
      do expression ← metric_sql found; ok (expression +++ " AS " +++ quote p found.key)

  unfoldable pub select_metrics : List String → Result CompileError (List String)
  unfolding select_metric
  select_metrics [] = ok []
  select_metrics (key ∷ keys) = do
    one ← select_metric key
    others ← select_metrics keys
    ok (one ∷ others)

  -- The cases of the switch on the operator, at a column and the value of the filter.
  unfoldable pub filter_eq : String → Value → Clauses → Clauses
  filter_eq column v c = push c (any v ∷ []) (λ n. column +++ " = $" +++ itoa n)

  unfoldable pub filter_in :
      String → String → Option (List Value) → Clauses → Result CompileError Clauses
  filter_in column field none c = err (non_empty_array field)
  filter_in column field (some []) c = err (non_empty_array field)
  filter_in column field (some (v ∷ vs)) c = ok (
      push c (texts (map p.sprint (v ∷ vs)) ∷ [])
        (λ n. column +++ " = ANY($" +++ itoa n +++ "::text[])"))

  unfoldable pub filter_contains : String → Value → Clauses → Clauses
  filter_contains column v c =
      push c (text ("%" +++ p.sprint v +++ "%") ∷ []) (λ n. column +++ " ILIKE $" +++ itoa n)

  unfoldable pub filter_between :
      String → String → Option (List Value) → Clauses → Result CompileError Clauses
  filter_between column field (some (low ∷ high ∷ [])) c = ok (
      push c (any low ∷ any high ∷ [])
        (λ n. column +++ " BETWEEN $" +++ itoa (n - 1) +++ " AND $" +++ itoa n))
  filter_between column field _ c = err (two_values field)

  unfoldable pub filter_null : String → Bool → Clauses → Clauses
  filter_null column true c = push c [] (λ n. column +++ " IS NULL")
  filter_null column false c = push c [] (λ n. column +++ " IS NOT NULL")

  -- The body of the loop over the filters. The switch has no default.
  unfoldable pub filter_step : Filter → Clauses → Result CompileError Clauses
  filter_step f c =
      let column = quote p (get_or no_dimension (dimension m f.field)).column in
      if f.op == "eq"
      then ok (filter_eq column f.value c)
      else if f.op == "in"
      then filter_in column f.field (as_array f.value) c
      else if f.op == "contains"
      then ok (filter_contains column f.value c)
      else if f.op == "between"
      then filter_between column f.field (as_array f.value) c
      else if f.op == "isNull"
      then ok (filter_null column (as_bool f.value) c)
      else ok c

  unfoldable pub filter_loop : List Filter → Clauses → Result CompileError Clauses
  filter_loop [] c = ok c
  filter_loop (f ∷ fs) c = do next ← filter_step f c; filter_loop fs next

  unfoldable pub sort_text : Sort → String
  sort_text s = quote p s.field +++ " " +++ p.to_upper s.direction

  -- `Compile`: the text of the query and its arguments.
  unfoldable pub compile : QuerySpec → Result CompileError (String × List Arg)
  unfolding select_dimension group_dimension sort_text
  compile spec = do
    source ← with_error bad_source (identifier p.sanitize m.source.identifier)
    measures ← select_metrics spec.metrics
    c ← filter_loop spec.filters (record {
      args = text spec.time_range.start ∷ text spec.time_range.end ∷ [];
      predicates = [];
    })
    let from =
        if m.source.kind == "table_function" then source +++ "($1::date, $2::date)" else source
    let selects = map select_dimension spec.dimensions ++ measures
    let groups = map group_dimension spec.dimensions
    let args = c.args ++ number spec.limit ∷ number spec.offset ∷ []
    let parts =
        ("SELECT " +++ join ", " selects) ∷ ("FROM " +++ from) ∷ []
        ++ (if is_nonempty spec.filters then ("WHERE " +++ join " AND " c.predicates) ∷ [] else [])
        ++ (if is_nonempty groups && is_nonempty spec.metrics
            then ("GROUP BY " +++ join ", " groups) ∷ []
            else [])
        ++ (if is_nonempty spec.sort
            then ("ORDER BY " +++ join ", " (map sort_text spec.sort)) ∷ []
            else [])
        ++ ("LIMIT $" +++ itoa (length args - 1) +++ " OFFSET $" +++ itoa (length args)) ∷ []
    ok (join "\n" parts, args)
