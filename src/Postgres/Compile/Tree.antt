-- ===== src/Postgres/Compile/Tree.antt =====
-- The query that a specification means, as a tree: with its values in place (`Tree Arg`), and with
-- numbered placeholders in their place (`Tree ℕ`), as it is printed.
use flooks.Common.{
  ℕ, zero, suc, String, ◌≡◌, Bool, true, false, Option, none, some, List, [], ◌∷◌, ◌++◌, map,
  Result, ok, err, ◌>>=◌, get_elem?, ◌==◌, if◌then◌else◌,
}
use flooks.Common.Text.{◌+++◌, join, itoa}
use flooks.Domain.Manifest.{DatasetManifest, dimension}
use flooks.Domain.Value.{Value, as_array, as_bool}
use flooks.Domain.Spec.{QuerySpec, Filter}
use flooks.Postgres.Identifier.{identifier}
use flooks.Postgres.Compile.{
  Printer, Arg, text, any, texts, number, CompileError, bad_source, non_empty_array, two_values,
  no_dimension, get_or, with_error, quote, is_nonempty,
}
use flooks.Postgres.Compile.Selected.{
  Selected, Order, print_selected, print_order, meant_metrics, meant_dimension, meant_order,
}

-- A condition on a column, in SQL's words.
pub data Predicate (P : Type 0) : Type 0 where
  equals : String → P → Predicate P
  any_of : String → P → Predicate P
  like : String → P → Predicate P
  between : String → P → P → Predicate P
  null : String → Predicate P
  not_null : String → Predicate P

-- `range` is there for a table function, which takes the two dates.
pub record Tree (P : Type 0) : Type 0 where
  pub selects : List Selected
  pub source : String
  pub range : Option (P × P)
  pub predicates : Option (List (Predicate P))
  pub groups : List String
  pub sorts : List Order
  pub limit : P
  pub offset : P

-- What is printed of a tree with numbered placeholders.
unfoldable pub print_predicate : Predicate ℕ → String
print_predicate (equals c n) = c +++ " = $" +++ itoa n
print_predicate (any_of c n) = c +++ " = ANY($" +++ itoa n +++ "::text[])"
print_predicate (like c n) = c +++ " ILIKE $" +++ itoa n
print_predicate (between c n k) = c +++ " BETWEEN $" +++ itoa n +++ " AND $" +++ itoa k
print_predicate (null c) = c +++ " IS NULL"
print_predicate (not_null c) = c +++ " IS NOT NULL"

abbrev pub print_range : Option (ℕ × ℕ) → String
print_range none = ""
print_range (some (a, b)) = "($" +++ itoa a +++ "::date, $" +++ itoa b +++ "::date)"

abbrev pub print_where : Option (List (Predicate ℕ)) → List String
print_where none = []
print_where (some ps) = ("WHERE " +++ join " AND " (map print_predicate ps)) ∷ []

abbrev pub print_list : String → List String → List String
print_list word [] = []
print_list word (x ∷ xs) = (word +++ join ", " (x ∷ xs)) ∷ []

unfoldable pub print : Tree ℕ → String
unfolding print_selected print_order
print t = join "\n" (
    ("SELECT " +++ join ", " (map print_selected t.selects))
      ∷ ("FROM " +++ t.source +++ print_range t.range)
      ∷ []
    ++ print_where t.predicates
    ++ print_list "GROUP BY " t.groups
    ++ print_list "ORDER BY " (map print_order t.sorts)
    ++ ("LIMIT $" +++ itoa t.limit +++ " OFFSET $" +++ itoa t.offset) ∷ [])

-- The argument that `$n` stands for; PostgreSQL counts from 1.
abbrev pub argument : List Arg → ℕ → Option Arg
argument args zero = none
argument args (suc n) = get_elem? args n

-- A printed condition, read with the arguments, is the condition with its values.
abbrev pub Reads : List Arg → Predicate ℕ → Predicate Arg → Type 0
Reads args (equals c n) (equals d a) = (c ≡ d) × (argument args n ≡ some a)
Reads args (any_of c n) (any_of d a) = (c ≡ d) × (argument args n ≡ some a)
Reads args (like c n) (like d a) = (c ≡ d) × (argument args n ≡ some a)
Reads args (between c n k) (between d a b) =
    (c ≡ d) × (argument args n ≡ some a) × (argument args k ≡ some b)
Reads args (null c) (null d) = c ≡ d
Reads args (not_null c) (not_null d) = c ≡ d
Reads args _ _ = ⊥

abbrev pub ReadsAll : List Arg → List (Predicate ℕ) → List (Predicate Arg) → Type 0
ReadsAll args [] [] = Unit
ReadsAll args (p ∷ ps) (q ∷ qs) = Reads args p q × ReadsAll args ps qs
ReadsAll args _ _ = ⊥

abbrev pub ReadsWhere :
    List Arg → Option (List (Predicate ℕ)) → Option (List (Predicate Arg)) → Type 0
ReadsWhere args none none = Unit
ReadsWhere args (some ps) (some qs) = ReadsAll args ps qs
ReadsWhere args _ _ = ⊥

abbrev pub ReadsRange : List Arg → Option (ℕ × ℕ) → Option (Arg × Arg) → Type 0
ReadsRange args none none = Unit
ReadsRange args (some (n, k)) (some (a, b)) =
    (argument args n ≡ some a) × (argument args k ≡ some b)
ReadsRange args _ _ = ⊥

-- The tree with placeholders, read with the arguments, is the tree with the values.
pub record Binds (args : List Arg) (q : Tree ℕ) (t : Tree Arg) : Type 0 where
  pub selects : q.selects ≡ t.selects
  pub source : q.source ≡ t.source
  pub range : ReadsRange args q.range t.range
  pub predicates : ReadsWhere args q.predicates t.predicates
  pub groups : q.groups ≡ t.groups
  pub sorts : q.sorts ≡ t.sorts
  pub limit : argument args q.limit ≡ some t.limit
  pub offset : argument args q.offset ≡ some t.offset

module _ (p : Printer) (m : DatasetManifest) where
  -- `in` wants an array that is not empty, `between` one of two values.
  unfoldable pub meant_in :
      String → String → Option (List Value) → Result CompileError (List (Predicate Arg))
  meant_in column field (some (v ∷ vs)) = ok (any_of column (texts (map p.sprint (v ∷ vs))) ∷ [])
  meant_in column field _ = err (non_empty_array field)

  unfoldable pub meant_between :
      String → String → Option (List Value) → Result CompileError (List (Predicate Arg))
  meant_between column field (some (low ∷ high ∷ [])) =
      ok (between column (any low) (any high) ∷ [])
  meant_between column field _ = err (two_values field)

  unfoldable pub meant_null : String → Bool → Predicate Arg
  meant_null column true = null column
  meant_null column false = not_null column

  -- A filter means a condition on the column of its dimension, or none if its operator is not one
  -- of the five.
  unfoldable pub meant_filter : Filter → Result CompileError (List (Predicate Arg))
  unfolding meant_in meant_between meant_null
  meant_filter f =
      let column = quote p (get_or no_dimension (dimension m f.field)).column in
      if f.op == "eq"
      then ok (equals column (any f.value) ∷ [])
      else if f.op == "in"
      then meant_in column f.field (as_array f.value)
      else if f.op == "contains"
      then ok (like column (text ("%" +++ p.sprint f.value +++ "%")) ∷ [])
      else if f.op == "between"
      then meant_between column f.field (as_array f.value)
      else if f.op == "isNull"
      then ok (meant_null column (as_bool f.value) ∷ [])
      else ok []

  unfoldable pub meant_filters : List Filter → Result CompileError (List (Predicate Arg))
  unfolding meant_filter
  meant_filters [] = ok []
  meant_filters (f ∷ fs) = do qs ← meant_filter f; rs ← meant_filters fs; ok (qs ++ rs)

  -- What is grouped by is the column of a dimension.
  unfoldable pub meant_group : String → String
  meant_group key = quote p (get_or no_dimension (dimension m key)).column

  -- The query that a specification means: what to select and to group by, the source at the range
  -- of dates, all the conditions, the order and the page.
  unfoldable pub meant : QuerySpec → Result CompileError (Tree Arg)
  unfolding meant_filters meant_group
  meant spec = do
    source ← with_error bad_source (identifier p.sanitize m.source.identifier)
    measures ← meant_metrics p m spec.metrics
    qs ← meant_filters spec.filters
    ok (record {
      selects = map (meant_dimension p m) spec.dimensions ++ measures;
      source = source;
      range =
          if m.source.kind == "table_function"
          then some (text spec.time_range.start, text spec.time_range.end)
          else none;
      predicates = if is_nonempty spec.filters then some qs else none;
      groups = if is_nonempty spec.metrics then map meant_group spec.dimensions else [];
      sorts = map (meant_order p m) spec.sort;
      limit = number spec.limit;
      offset = number spec.offset;
    })
