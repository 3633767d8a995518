-- ===== src/Postgres/Compile/Total.antt =====
-- When `Compile` succeeds.
use flooks.Common.{
  String, ◌≡◌, ◌≢◌, ◌⊎◌, inl, inr, Bool-cases, some, List, [], ◌∷◌, ok, err, Result-cases, All,
  All-Any, find_first_sound, arith, ◌==◌, eq_iff,
}
use flooks.Domain.Manifest.{DatasetManifest, Metric, metric, metric_iff}
use flooks.Domain.Value.{Value, as_array}
use flooks.Domain.Spec.{QuerySpec, Filter}
use flooks.Query.Validate.Defs.{validate}
use flooks.Query.Validate.Accepts.{IsMetric}
use flooks.Query.Validate.Normal.{validate_iff}
use flooks.Postgres.Identifier.{identifier, validate_manifest}
use flooks.Postgres.Compile.{
  Printer, Arg, text, CompileError, Clauses, metric_sql, select_metric, select_metrics, filter_in,
  filter_between, filter_step, filter_loop, compile,
}

-- A metric of one of the two types, whose parts the manifest declares.
abbrev pub IsTyped : DatasetManifest → Metric → Type 0
IsTyped m t =
    (t.type ≡ "sum")
    ⊎ ((t.type ≡ "ratio")
        × (n : Metric) × (metric m t.numerator ≡ some n)
        × (d : Metric) × (metric m t.denominator ≡ some d))

-- A filter whose value has the shape that its operator asks for.
pub record HasShape (f : Filter) : Type 0 where
  pub in_array : f.op ≡ "in" → (v : Value) × (vs : List Value) × (as_array f.value ≡ some (v ∷ vs))
  pub between_pair :
      f.op ≡ "between" → (v : Value) × (u : Value) × (as_array f.value ≡ some (v ∷ u ∷ []))

abbrev start : QuerySpec → Clauses
start t = record { args = text t.time_range.start ∷ text t.time_range.end ∷ []; predicates = [] }

module _ (p : Printer) (m : DatasetManifest) where
  metric_sql-ne-err : (t : Metric) (e : CompileError) → IsTyped m t → metric_sql p m t ≢ err e
  unfolding metric_sql
  metric_sql-ne-err t e (inl sum) = λ k. ground (arith, eq_iff t.type "sum")
  metric_sql-ne-err t e (inr (ratio, n, hn, d, hd)) =
      λ k. ground (arith, eq_iff t.type "sum", eq_iff t.type "ratio")

  select_metrics-ne-err :
      (keys : List String) (e : CompileError)
      → All (IsTyped m) m.metrics
      → All (IsMetric m) keys
      → select_metrics p m keys ≢ err e
  unfolding select_metrics select_metric
  select_metrics-ne-err [] e typed h = λ k. cc
  select_metrics-ne-err (key ∷ keys) e typed (one, h) =
      let (t, found) = (metric_iff m key).1 one in
      let typed_one : IsTyped m t =
        All-Any (IsTyped m) m.metrics t typed
          (unfold metric in (find_first_sound _ m.metrics t found).1) in
      λ k.
        ground (arith, found, metric_sql-ne-err t e typed_one, select_metrics-ne-err keys e typed h)

  filter_step-ne-err :
      (f : Filter) (c : Clauses) (e : CompileError) → HasShape f → filter_step p m f c ≢ err e
  unfolding filter_step filter_in filter_between
  filter_step-ne-err f c e s = λ k. elim (Bool-cases (f.op == "in")) [
    | inl q ↦ let (v, vs, h) = s.in_array ((eq_iff f.op "in").0 q) in ground arith
    | inr q ↦ elim (Bool-cases (f.op == "between")) [
      | inl b ↦ let (v, u, h) = s.between_pair ((eq_iff f.op "between").0 b) in ground arith
      | inr b ↦ ground arith
    ]
  ]

  filter_loop-ne-err :
      (fs : List Filter) (c : Clauses) (e : CompileError)
      → All HasShape fs
      → filter_loop p m fs c ≢ err e
  unfolding filter_loop
  filter_loop-ne-err [] c e h = λ k. cc
  filter_loop-ne-err (f ∷ fs) c e (s, h) = elim (Result-cases (filter_step p m f c)) [
    | inl (d, q) ↦ rw q (filter_loop-ne-err fs d e h)
    | inr (x, q) ↦ absurd (filter_step-ne-err f c x s q)
  ]

  identifier-validate_manifest :
      validate_manifest p.sanitize m ≡ ok tt
      → (source : String) × (identifier p.sanitize m.source.identifier ≡ ok source)
  unfolding validate_manifest
  identifier-validate_manifest h = elim (Result-cases (identifier p.sanitize m.source.identifier)) [
    | inl found ↦ found
    | inr (e, q) ↦ absurd (ground arith)
  ]

-- A query that `Validate` accepted compiles, if the connector accepts its manifest, each metric of the
-- manifest is a sum or a ratio of declared metrics, and the value of an `in` filter is an array that
-- is not empty and that of a `between` filter an array of two.
pub compile-validate :
    (p : Printer) (manifests : List (String × DatasetManifest)) (s t : QuerySpec)
    (m : DatasetManifest)
    → validate manifests s ≡ ok (t, m)
    → validate_manifest p.sanitize m ≡ ok tt
    → All (IsTyped m) m.metrics
    → All HasShape s.filters
    → (sql : String) × (args : List Arg) × (compile p m t ≡ ok (sql, args))
unfolding compile
compile-validate p manifests s t m accepted usable typed shaped =
    let (found, allowed, normal) = (validate_iff manifests s t m).0 accepted in
    let (source, hs) = identifier-validate_manifest p m usable in
    let metrics : All (IsMetric m) t.metrics = rw normal.others allowed.metrics in
    let filters : All HasShape t.filters = rw normal.others shaped in
    elim (Result-cases (select_metrics p m t.metrics)) [
      | inr (e, he) ↦ absurd (select_metrics-ne-err p m t.metrics e typed metrics he)
      | inl (measures, hm) ↦ elim (Result-cases (filter_loop p m t.filters (start t))) [
        | inr (e, he) ↦ absurd (filter_loop-ne-err p m t.filters (start t) e filters he)
        | inl (c, hc) ↦ elim (Result-cases (compile p m t)) [
          | inl ((sql, args), made) ↦ (sql, args, made)
          | inr (e, he) ↦ absurd (ground arith)
        ]
      ]
    ]
