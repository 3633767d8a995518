-- ===== src/Postgres/Compile/Refines.antt =====
-- What `Compile` returns, beside the query that a specification means.
use package.text.Mathlib.TextLemmas.{append-nil as text_append-nil}
use mathlib.Core.List.{map-append}
use flooks.Common.{
  ℕ, ◌-◌, String, ◌≡◌, refl, sym, ap, ◌∙◌, Bool, true, false, ◌&&◌, Result-cases, inl, inr, none,
  some, List, [], ◌∷◌, ◌++◌, map, Result, ok, err, length, length-append, arith, ◌==◌,
  if◌then◌else◌,
}
use flooks.Common.Text.{itoa, ◌+++◌, join}
use flooks.Domain.Manifest.{DatasetManifest}
use flooks.Domain.Spec.{QuerySpec, Sort}
use flooks.Postgres.Identifier.{identifier}
use flooks.Postgres.Compile.{
  Printer, Arg, text, number, CompileError, Clauses, compile, is_nonempty, sort_text,
  select_dimension, group_dimension, bad_source, with_error,
}
use flooks.Postgres.Compile.Tree.{
  Predicate, Tree, print_predicate, print, Binds, meant_filters, meant, print_range, print_where,
  print_list, meant_group, ReadsWhere, ReadsAll, ReadsRange,
}
use flooks.Postgres.Compile.Selected.{
  Selected, print_selected, print_order, meant_metrics, meant_dimension, meant_order,
  select_metrics-print, map-select_dimension, map-sort_text,
}
use flooks.Postgres.Compile.Numbers.{ReadsAll-number_all, values_all, number_all, argument-append}
use flooks.Postgres.Compile.Loop.{filter_loop-advance, advance}

-- The clauses of the text, one by one.
from-print :
    (b : Bool) (source : String) (range : Arg × Arg)
    → (if b then source +++ "($1::date, $2::date)" else source)
      ≡ source +++ print_range (if b then some (1, 2) else none)
unfolding itoa
from-print true source range = refl
from-print false source range = sym (text_append-nil source)

where-print :
    (b : Bool) (qs : List (Predicate ℕ))
    → (if b then ("WHERE " +++ join " AND " (map print_predicate qs)) ∷ [] else [])
      ≡ print_where (if b then some qs else none)
where-print true qs = refl
where-print false qs = refl

group-print :
    (b : Bool) (groups : List String)
    → (if is_nonempty groups && b then ("GROUP BY " +++ join ", " groups) ∷ [] else [])
      ≡ print_list "GROUP BY " (if b then groups else [])
group-print true [] = refl
group-print true (g ∷ groups) = refl
group-print false [] = refl
group-print false (g ∷ groups) = refl

order-print :
    (p : Printer) (m : DatasetManifest) (sorts : List Sort)
    → (if is_nonempty sorts
        then ("ORDER BY " +++ join ", " (map (sort_text p m) sorts)) ∷ []
        else [])
      ≡ print_list "ORDER BY " (map print_order (map (meant_order p m) sorts))
order-print p m [] = refl
order-print p m (x ∷ sorts) = rw (map-sort_text p m (x ∷ sorts)) refl

-- What is selected is printed as the text has it.
select-print :
    (p : Printer) (m : DatasetManifest) (keys : List String) (measures : List Selected)
    → map (select_dimension p m) keys ++ map print_selected measures
      ≡ map print_selected (map (meant_dimension p m) keys ++ measures)
select-print p m keys measures =
    ap (λ xs. xs ++ map print_selected measures) (map-select_dimension p m keys)
    ∙ sym (map-append print_selected (map (meant_dimension p m) keys) measures)

-- What `Compile` returns, beside what the specification means.
abbrev pub Refined :
    Result CompileError (String × List Arg) → Result CompileError (Tree Arg) → Type 0
Refined (ok (sql, args)) (ok t) = (q : Tree ℕ) × (sql ≡ print q) × Binds args q t
Refined (err e) (err f) = e ≡ f
Refined _ _ = ⊥

module _ (p : Printer) (m : DatasetManifest) (spec : QuerySpec) where
  -- The text and the arguments, from the parts that may fail.
  abbrev start_clauses : Clauses
  start_clauses = record {
    args = text spec.time_range.start ∷ text spec.time_range.end ∷ [];
    predicates = [];
  }

  abbrev page : List Arg
  page = number spec.limit ∷ number spec.offset ∷ []

  numbered_tree : String → List Selected → List (Predicate Arg) → Tree ℕ
  numbered_tree source measures qs =
      let all = (advance start_clauses qs).args ++ page in
      record {
        selects = map (meant_dimension p m) spec.dimensions ++ measures;
        source = source;
        range = if m.source.kind == "table_function" then some (1, 2) else none;
        predicates = if is_nonempty spec.filters then some (number_all 2 qs) else none;
        groups = if is_nonempty spec.metrics then map (meant_group p m) spec.dimensions else [];
        sorts = map (meant_order p m) spec.sort;
        limit = length all - 1;
        offset = length all;
      }

  range-Reads :
      (rest : List Arg) (b : Bool)
      → ReadsRange
          (text spec.time_range.start ∷ text spec.time_range.end ∷ rest)
          (if b then some (1, 2) else none)
          (if b then some (text spec.time_range.start, text spec.time_range.end) else none)
  range-Reads rest true = (refl, refl)
  range-Reads rest false = tt

  where-Reads :
      (args : List Arg) (b : Bool) (qs : List (Predicate Arg))
      → ReadsAll args (number_all 2 qs) qs
      → ReadsWhere args (if b then some (number_all 2 qs) else none) (if b then some qs else none)
  where-Reads args true qs h = h
  where-Reads args false qs h = tt

  -- One case of the theorem below: the fallible parts succeed.
  compile_parts :
      (source : String) (measures : List Selected) (qs : List (Predicate Arg))
      → with_error bad_source (identifier p.sanitize m.source.identifier) ≡ ok source
      → meant_metrics p m spec.metrics ≡ ok measures
      → meant_filters p m spec.filters ≡ ok qs
      → compile p m spec
        ≡ ok (print (numbered_tree source measures qs), (advance start_clauses qs).args ++ page)
  unfolding compile numbered_tree print advance group_dimension meant_group
  compile_parts source measures qs hs hm hf = rw (
    hs,
    select_metrics-print p m spec.metrics,
    hm,
    filter_loop-advance p m spec.filters start_clauses,
    hf,
    from-print _ source (text spec.time_range.start, text spec.time_range.end),
    where-print,
    group-print,
    order-print,
    select-print,
  )

  meant_parts :
      (source : String) (measures : List Selected) (qs : List (Predicate Arg))
      → with_error bad_source (identifier p.sanitize m.source.identifier) ≡ ok source
      → meant_metrics p m spec.metrics ≡ ok measures
      → meant_filters p m spec.filters ≡ ok qs
      → (t : Tree Arg) × (meant p m spec ≡ ok t)
        × Binds ((advance start_clauses qs).args ++ page) (numbered_tree source measures qs) t
  unfolding meant numbered_tree advance
  meant_parts source measures qs hs hm hf =
      let pre : List Arg = text spec.time_range.start ∷ text spec.time_range.end ∷ [] in
      (
        record {
          selects = map (meant_dimension p m) spec.dimensions ++ measures;
          source = source;
          range =
              if m.source.kind == "table_function"
              then some (text spec.time_range.start, text spec.time_range.end)
              else none;
          predicates = if is_nonempty spec.filters then some qs else none;
          groups = if is_nonempty spec.metrics then map (meant_group p m) spec.dimensions else [];
          sorts = map (meant_order p m) spec.sort;
          limit = number spec.limit;
          offset = number spec.offset;
        },
        rw (hs, hm, hf),
        record {
          selects = refl;
          source = refl;
          range = range-Reads (values_all qs ++ page) (m.source.kind == "table_function");
          predicates =
              where-Reads ((pre ++ values_all qs) ++ page) (is_nonempty spec.filters) qs
                (ReadsAll-number_all pre page qs);
          groups = refl;
          sorts = refl;
          limit =
              argument-append (pre ++ values_all qs) page
                (length ((pre ++ values_all qs) ++ page) - 1) 0
                (omega (arith, length-append (pre ++ values_all qs) page));
          offset =
              argument-append (pre ++ values_all qs) page (length ((pre ++ values_all qs) ++ page))
                1 (omega (arith, length-append (pre ++ values_all qs) page));
        },
      )

  -- On a specification that means a query, `Compile` returns its print, with placeholders for all
  -- its values, and arguments from which each placeholder reads its value; and it fails exactly
  -- where the meaning does, with the same error. The meaning selects the columns of the dimensions and,
  -- of each metric, the sum of its column or the ratio of two sums, as expressions of SQL, and it sorts
  -- by columns and directions.
  pub compile-Refined : Refined (compile p m spec) (meant p m spec)
  compile-Refined =
      elim (Result-cases (with_error bad_source (identifier p.sanitize m.source.identifier))) [
        | inr (e, he) ↦ unfold compile meant in rw (he) refl
        | inl (source, hs) ↦ elim (Result-cases (meant_metrics p m spec.metrics)) [
          | inr (e, he) ↦
              unfold compile meant in rw (hs, select_metrics-print p m spec.metrics, he) refl
          | inl (measures, hm) ↦ elim (Result-cases (meant_filters p m spec.filters)) [
            | inr (e, he) ↦
                unfold compile meant in
                rw
                  (
                    hs,
                    select_metrics-print p m spec.metrics,
                    hm,
                    filter_loop-advance p m spec.filters start_clauses,
                    he,
                  )
                  refl
            | inl (qs, hf) ↦
                let (t, ht, b) = meant_parts source measures qs hs hm hf in
                rw (compile_parts source measures qs hs hm hf, ht)
                  (numbered_tree source measures qs, refl, b)
          ]
        ]
      ]
