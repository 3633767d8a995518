-- ===== src/Query/Validate/Accepts.antt =====
-- Which specifications `Validate` accepts.
use flooks.Common.{
  String, ◌≡◌, refl, ◌≢◌, ◌↔◌, ◌⊎◌, inl, inr, true, false, ◌&&◌, Option, none, some, Result-cases,
  iff_trans, List, [], ◌∷◌, ok, for_each, for_each-All, ⊎-both, ×-right, All, Any, arith, eq_iff,
}
use flooks.Common.Int.{pos, ◌≤ℤ◌, ltb_ℤ}
use flooks.Domain.Manifest.{
  DatasetManifest, Dimension, Metric, dimension, metric, dimension_iff, metric_iff,
}
use flooks.Domain.Spec.{QuerySpec, Filter, Sort}
use flooks.Domain.Dates.Defs.{Day, dates}
use flooks.Domain.Dates.Laws.{IsRange, dates_iff}
use flooks.Query.Validate.Defs.{
  contains, allow, check_dimension, check_metric, check_filter, check_sort, clamp_limit, is_some,
  is_empty, lift_dates, validate_with,
}

abbrev pub IsDimension : DatasetManifest → String → Type 0
IsDimension m key = Any (λ (d : Dimension). d.key ≡ key) m.dimensions

abbrev pub IsMetric : DatasetManifest → String → Type 0
IsMetric m key = Any (λ (d : Metric). d.key ≡ key) m.metrics

-- The operator of the filter is one that its dimension lists.
abbrev pub IsFilterable : DatasetManifest → Filter → Type 0
IsFilterable m f =
    (d : Dimension) × (dimension m f.field ≡ some d) × Any (λ o. o ≡ f.op) d.filter_operators

abbrev pub IsSortable : DatasetManifest → Sort → Type 0
IsSortable m s =
    ((s.direction ≡ "asc") ⊎ (s.direction ≡ "desc")) × (IsDimension m s.field ⊎ IsMetric m s.field)

-- What the manifest allows.
pub record IsAllowed (m : DatasetManifest) (s : QuerySpec) : Type 0 where
  pub range : (a : Day) × (b : Day) × IsRange s a b
  pub selects : (s.dimensions ≢ []) ⊎ (s.metrics ≢ [])
  pub dimensions : All (IsDimension m) s.dimensions
  pub metrics : All (IsMetric m) s.metrics
  pub filters : All (IsFilterable m) s.filters
  pub sort : All (IsSortable m) s.sort
  pub offset : pos 0 ≤ℤ s.offset

is_some_iff {ℓ} : {A : Type ℓ} (o : Option A) → (is_some o ≡ true) ↔ ((a : A) × (o ≡ some a))
is_some_iff none = (λ h. absurd (cc), λ (a, h). cc)
is_some_iff (some a) = (λ h. (a, refl), λ h. refl)

contains_iff : (xs : List String) (s : String) → (contains xs s ≡ true) ↔ Any (λ o. o ≡ s) xs
unfolding contains
contains_iff [] s = (λ h. absurd (cc), λ h. absurd h)
contains_iff (x ∷ xs) s = ground (arith, eq_iff x s, contains_iff xs s)

allow_iff :
    (f : Filter) (o : Option Dimension)
    → (allow f o ≡ ok tt)
      ↔ ((d : Dimension) × (o ≡ some d) × Any (λ p. p ≡ f.op) d.filter_operators)
allow_iff f none = (λ h. absurd (cc), λ (d, e, h). cc)
allow_iff f (some field) = (
  λ h. (field, refl, (contains_iff _ _).0 (ground arith)),
  λ (d, e, h). ground (arith, (contains_iff d.filter_operators f.op).1 h),
)

module _ (m : DatasetManifest) where
  check_dimension_iff : (key : String) → (check_dimension m key ≡ ok tt) ↔ IsDimension m key
  unfolding check_dimension
  check_dimension_iff key = iff_trans (ground arith) (dimension_iff m key)

  check_metric_iff : (key : String) → (check_metric m key ≡ ok tt) ↔ IsMetric m key
  unfolding check_metric
  check_metric_iff key = iff_trans (ground arith) (metric_iff m key)

  check_filter_iff : (f : Filter) → (check_filter m f ≡ ok tt) ↔ IsFilterable m f
  unfolding check_filter
  check_filter_iff f = allow_iff f (dimension m f.field)

  check_sort_steps :
      (s : Sort)
      → (check_sort m s ≡ ok tt) ↔ (
          ((s.direction ≡ "asc") ⊎ (s.direction ≡ "desc"))
          × (((d : Dimension) × (dimension m s.field ≡ some d))
              ⊎ ((d : Metric) × (metric m s.field ≡ some d))))
  unfolding check_sort
  check_sort_steps s = ground (arith, eq_iff s.direction "asc", eq_iff s.direction "desc")

  check_sort_iff : (s : Sort) → (check_sort m s ≡ ok tt) ↔ IsSortable m s
  unfolding check_sort
  check_sort_iff s =
      iff_trans (check_sort_steps s)
        (×-right (⊎-both (dimension_iff m s.field) (metric_iff m s.field)))

  -- The sequence of checks succeeds when each does.
  validate_with_steps :
      (s t : QuerySpec)
      → (validate_with m s ≡ ok t) ↔ (
          (lift_dates (dates s) ≡ ok tt)
          × (is_empty s.dimensions && is_empty s.metrics ≡ false)
          × (for_each (check_dimension m) s.dimensions ≡ ok tt)
          × (for_each (check_metric m) s.metrics ≡ ok tt)
          × (for_each (check_filter m) s.filters ≡ ok tt)
          × (for_each (check_sort m) s.sort ≡ ok tt)
          × (ltb_ℤ s.offset (pos 0) ≡ false)
          × (t ≡ record s { limit = clamp_limit m s.limit }))
  unfolding validate_with
  validate_with_steps s t = ground arith

lift_dates_iff :
    (s : QuerySpec) → (lift_dates (dates s) ≡ ok tt) ↔ ((a : Day) × (b : Day) × IsRange s a b)
lift_dates_iff s = (to, λ (a, b, r). rw ((dates_iff s a b).1 r))
  where
    to : lift_dates (dates s) ≡ ok tt → (a : Day) × (b : Day) × IsRange s a b
    to h = elim (Result-cases (dates s)) [
      | inl ((a, b), e) ↦ (a, b, (dates_iff s a b).0 e)
      | inr (x, e) ↦ absurd (cc)
    ]

selects_iff : (xs ys : List String) → (is_empty xs && is_empty ys ≡ false) ↔ ((xs ≢ []) ⊎ (ys ≢ []))
selects_iff [] [] = (λ h. absurd (cc), elim [ inl h ↦ absurd (h refl) | inr h ↦ absurd (h refl) ])
selects_iff [] (y ∷ ys) = (λ h. inr (λ e. cc), λ h. refl)
selects_iff (x ∷ xs) ys = (λ h. inl (λ e. cc), λ h. refl)

offset_iff : (s : QuerySpec) → (ltb_ℤ s.offset (pos 0) ≡ false) ↔ (pos 0 ≤ℤ s.offset)
offset_iff s = ground arith

-- `Validate` behind the look-up accepts exactly what the manifest allows.
pub validate_with_iff :
    (m : DatasetManifest) (s t : QuerySpec)
    → (validate_with m s ≡ ok t)
      ↔ (IsAllowed m s × (t ≡ record s { limit = clamp_limit m s.limit }))
validate_with_iff m s t = iff_trans (validate_with_steps m s t) (
  λ (d, e, a, b, c, f, o, n). (
    record {
      range = (lift_dates_iff s).0 d;
      selects = (selects_iff s.dimensions s.metrics).0 e;
      dimensions = dims.0 a;
      metrics = mets.0 b;
      filters = fils.0 c;
      sort = srts.0 f;
      offset = (offset_iff s).0 o;
    },
    n,
  ),
  λ (r, n). (
    (lift_dates_iff s).1 r.range,
    (selects_iff s.dimensions s.metrics).1 r.selects,
    dims.1 r.dimensions,
    mets.1 r.metrics,
    fils.1 r.filters,
    srts.1 r.sort,
    (offset_iff s).1 r.offset,
    n,
  ),
)
  where
    dims : (for_each (check_dimension m) s.dimensions ≡ ok tt) ↔ All (IsDimension m) s.dimensions
    dims = for_each-All (check_dimension m) (check_dimension_iff m) s.dimensions

    mets : (for_each (check_metric m) s.metrics ≡ ok tt) ↔ All (IsMetric m) s.metrics
    mets = for_each-All (check_metric m) (check_metric_iff m) s.metrics

    fils : (for_each (check_filter m) s.filters ≡ ok tt) ↔ All (IsFilterable m) s.filters
    fils = for_each-All (check_filter m) (check_filter_iff m) s.filters

    srts : (for_each (check_sort m) s.sort ≡ ok tt) ↔ All (IsSortable m) s.sort
    srts = for_each-All (check_sort m) (check_sort_iff m) s.sort
