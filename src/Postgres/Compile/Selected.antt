-- ===== src/Postgres/Compile/Selected.antt =====
-- What a query selects and how it sorts, in SQL's words, and how that is printed.
use package.text.Mathlib.TextLemmas.{append_assoc}
use flooks.Common.{
  String, ◌≡◌, refl, ap, Bool-cases, inl, inr, Option, none, some, Option-cases, List, [], ◌∷◌, map,
  Result, Result-cases, ok, err, ◌>>=◌, ◌==◌, if◌then◌else◌,
}
use flooks.Common.Text.{◌+++◌}
use flooks.Domain.Manifest.{DatasetManifest, Metric, dimension, metric}
use flooks.Domain.Spec.{Sort}
use flooks.Postgres.Compile.{
  Printer, CompileError, unknown_numerator, unknown_denominator, metric_type, no_dimension,
  no_metric, get_or, quote, metric_sql, select_dimension, select_metric, select_metrics, sort_text,
}

pub data Expression : Type 0 where
  column : String → Expression
  sum_of : Expression → Expression
  quotient : Expression → Expression → Expression
  null_if_zero : Expression → Expression
  zero_if_null : Expression → Expression

unfoldable pub print_expression : Expression → String
print_expression (column c) = c
print_expression (sum_of e) = "SUM(" +++ print_expression e +++ ")"
print_expression (quotient a b) = print_expression a +++ " / " +++ print_expression b
print_expression (null_if_zero e) = "NULLIF(" +++ print_expression e +++ ", 0)"
print_expression (zero_if_null e) = "COALESCE(" +++ print_expression e +++ ", 0)"

-- An expression under a name.
pub record Selected : Type 0 where
  pub expression : Expression
  pub name : String

unfoldable pub print_selected : Selected → String
unfolding print_expression
print_selected s = print_expression s.expression +++ " AS " +++ s.name

pub record Order : Type 0 where
  pub column : String
  pub direction : String

unfoldable pub print_order : Order → String
print_order o = o.column +++ " " +++ o.direction

-- The sum of a column, which is 0 of no row.
abbrev pub total : String → Expression
total c = zero_if_null (sum_of (column c))

-- The sum of a column over that of another, which is 0 where the other's sum is.
abbrev pub ratio : String → String → Expression
ratio a b = zero_if_null (quotient (sum_of (column a)) (null_if_zero (sum_of (column b))))

abbrev pub printed {ℓ} : {E A B : Type ℓ} → (A → B) → Result E A → Result E B
printed f (ok a) = ok (f a)
printed f (err e) = err e

total_glue : (a b x c d : String) → a +++ (b +++ x +++ c) +++ d ≡ (a +++ b) +++ x +++ (c +++ d)
total_glue a b x c d = simp append_assoc

ratio_glue :
    (a b x c d e y f : String)
    → a +++ ((b +++ x +++ c) +++ d +++ e +++ (b +++ y +++ c) +++ f) +++ f
      ≡ (a +++ b) +++ x +++ (c +++ d +++ e +++ b) +++ y +++ (c +++ f +++ f)
ratio_glue a b x c d e y f = simp append_assoc

module _ (p : Printer) (m : DatasetManifest) where
  -- A ratio is of two metrics of the manifest.
  unfoldable pub meant_ratio :
      Metric → Option Metric → Option Metric → Result CompileError Expression
  meant_ratio t none _ = err (unknown_numerator t.numerator)
  meant_ratio t (some a) none = err (unknown_denominator t.denominator)
  meant_ratio t (some a) (some b) = ok (ratio (quote p a.column) (quote p b.column))

  unfoldable pub meant_metric : Metric → Result CompileError Expression
  unfolding meant_ratio
  meant_metric t =
      if t.type == "sum"
      then ok (total (quote p t.column))
      else if t.type == "ratio"
      then meant_ratio t (metric m t.numerator) (metric m t.denominator)
      else err (metric_type t.type)

  abbrev named : Metric → Result CompileError Expression → Result CompileError Selected
  named t (ok e) = ok (record { expression = e; name = quote p t.key })
  named t (err e) = err e

  unfoldable pub meant_metrics : List String → Result CompileError (List Selected)
  unfolding meant_metric
  meant_metrics [] = ok []
  meant_metrics (key ∷ keys) = do
    let found = get_or no_metric (metric m key)
    one ← named found (meant_metric found)
    others ← meant_metrics keys
    ok (one ∷ others)

  -- A dimension is its column under its key.
  unfoldable pub meant_dimension : String → Selected
  meant_dimension key =
      let found = get_or no_dimension (dimension m key) in
      record { expression = column (quote p found.column); name = quote p found.key }

  unfoldable pub meant_order : Sort → Order
  meant_order s = record { column = quote p s.field; direction = p.to_upper s.direction }

  print-total : (x : String) → print_expression (total x) ≡ "COALESCE(SUM(" +++ x +++ "), 0)"
  unfolding print_expression
  print-total x = total_glue "COALESCE(" "SUM(" x ")" ", 0)"

  print-ratio :
      (x y : String)
      → print_expression (ratio x y)
        ≡ "COALESCE(SUM(" +++ x +++ ") / NULLIF(SUM(" +++ y +++ "), 0), 0)"
  unfolding print_expression
  print-ratio x y = ratio_glue "COALESCE(" "SUM(" x ")" " / " "NULLIF(" y ", 0)"

  metric_sql-print : (t : Metric) → metric_sql p m t ≡ printed print_expression (meant_metric t)
  unfolding metric_sql meant_metric meant_ratio
  metric_sql-print t = elim (Bool-cases (t.type == "sum")) [
    | inl e ↦ rw (e, print-total (quote p t.column)) refl
    | inr e ↦ elim (Bool-cases (t.type == "ratio")) [
      | inr k ↦ rw (e, k) refl
      | inl k ↦ elim (Option-cases (metric m t.numerator)) [
        | inl n ↦ rw (e, k, n) refl
        | inr (a, n) ↦ elim (Option-cases (metric m t.denominator)) [
          | inl d ↦ rw (e, k, n, d) refl
          | inr (b, d) ↦ rw (e, k, n, d, print-ratio (quote p a.column) (quote p b.column)) refl
        ]
      ]
    ]
  ]

  pub select_metrics-print :
      (keys : List String)
      → select_metrics p m keys ≡ printed (map print_selected) (meant_metrics keys)
  unfolding select_metrics select_metric meant_metrics print_selected
  select_metrics-print [] = refl
  select_metrics-print (key ∷ keys) =
      let found = get_or no_metric (metric m key) in
      elim (Result-cases (meant_metric found)) [
        | inr (e, h) ↦ rw (metric_sql-print found, h) refl
        | inl (x, h) ↦ elim (Result-cases (meant_metrics keys)) [
          | inr (e, k) ↦ rw (metric_sql-print found, h, select_metrics-print keys, k) refl
          | inl (xs, k) ↦ rw (metric_sql-print found, h, select_metrics-print keys, k) refl
        ]
      ]

  pub map-select_dimension :
      (keys : List String)
      → map (select_dimension p m) keys ≡ map print_selected (map meant_dimension keys)
  unfolding select_dimension meant_dimension print_selected print_expression
  map-select_dimension [] = refl
  map-select_dimension (key ∷ keys) =
      ap (λ xs. select_dimension p m key ∷ xs) (map-select_dimension keys)

  pub map-sort_text :
      (sorts : List Sort) → map (sort_text p m) sorts ≡ map print_order (map meant_order sorts)
  unfolding sort_text meant_order print_order
  map-sort_text [] = refl
  map-sort_text (s ∷ sorts) = ap (λ xs. sort_text p m s ∷ xs) (map-sort_text sorts)
