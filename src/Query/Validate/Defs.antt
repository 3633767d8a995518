-- ===== src/Query/Validate/Defs.antt =====
-- internal/query/service.go: `Validate`. On an error Go returns the specification and the manifest
-- too, which no caller reads; here an error comes alone.
use flooks.Common.{
  String, Bool, true, false, ◌&&◌, ◌||◌, not, Option, none, some, List, [], ◌∷◌, Result, ok, err,
  ◌>>◌, for_each, ◌==◌, if◌then◌else◌,
}
use flooks.Common.Int.{ℤ, pos, leb_ℤ, ltb_ℤ}
use flooks.Common.Dict.{lookup}
use flooks.Domain.Manifest.{DatasetManifest, Dimension, dimension, metric}
use flooks.Domain.Spec.{QuerySpec, Filter, Sort}
use flooks.Domain.Dates.Defs.{Day, DateError, dates}

-- The error texts of `Validate`.
pub data Invalid : Type 0 where
  unknown_dataset : String → Invalid
  bad_dates : DateError → Invalid
  nothing_selected : Invalid
  unknown_field : String → Invalid
  unknown_metric : String → Invalid
  filter_field : String → Invalid
  filter_operator : String → String → Invalid
  sort_direction : String → Invalid
  sort_field : String → Invalid
  negative_offset : Invalid

-- `slices.Contains`
unfoldable pub contains : List String → String → Bool
contains [] s = false
contains (x ∷ xs) s = x == s || contains xs s

abbrev pub is_empty : List String → Bool
is_empty [] = true
is_empty (x ∷ xs) = false

abbrev pub lift_dates : Result DateError (Day × Day) → Result Invalid (Unit {0})
lift_dates (ok _) = ok tt
lift_dates (err e) = err (bad_dates e)

abbrev pub is_some {ℓ} : {A : Type ℓ} → Option A → Bool
is_some none = false
is_some (some _) = true

unfoldable pub check_dimension : DatasetManifest → String → Result Invalid (Unit {0})
check_dimension m key = if is_some (dimension m key) then ok tt else err (unknown_field key)

unfoldable pub check_metric : DatasetManifest → String → Result Invalid (Unit {0})
check_metric m key = if is_some (metric m key) then ok tt else err (unknown_metric key)

abbrev pub allow : Filter → Option Dimension → Result Invalid (Unit {0})
allow f none = err (filter_field f.field)
allow f (some field) =
    if contains field.filter_operators f.op then ok tt else err (filter_operator f.op f.field)

unfoldable pub check_filter : DatasetManifest → Filter → Result Invalid (Unit {0})
check_filter m f = allow f (dimension m f.field)

unfoldable pub check_sort : DatasetManifest → Sort → Result Invalid (Unit {0})
check_sort m s =
    if not (s.direction == "asc") && not (s.direction == "desc")
    then err (sort_direction s.direction)
    else if is_some (dimension m s.field)
    then ok tt
    else if is_some (metric m s.field)
    then ok tt
    else err (sort_field s.field)

-- The two assignments to `spec.Limit`.
unfoldable pub clamp_limit : DatasetManifest → ℤ → ℤ
clamp_limit m limit =
    let given = if leb_ℤ limit (pos 0) then m.limits.default_rows else limit in
    if ltb_ℤ m.limits.max_rows given then m.limits.max_rows else given

-- `Validate` behind the look-up of the manifest.
unfoldable pub validate_with : DatasetManifest → QuerySpec → Result Invalid QuerySpec
validate_with m spec = do
  lift_dates (dates spec)
  if is_empty spec.dimensions && is_empty spec.metrics then err nothing_selected else ok tt
  for_each (check_dimension m) spec.dimensions
  for_each (check_metric m) spec.metrics
  for_each (check_filter m) spec.filters
  for_each (check_sort m) spec.sort
  if ltb_ℤ spec.offset (pos 0) then err negative_offset else ok tt
  ok (record spec { limit = clamp_limit m spec.limit })

abbrev pub with_manifest :
    DatasetManifest → Result Invalid QuerySpec → Result Invalid (QuerySpec × DatasetManifest)
with_manifest m (ok s) = ok (s, m)
with_manifest m (err e) = err e

abbrev pub found_manifest :
    QuerySpec → Option DatasetManifest → Result Invalid (QuerySpec × DatasetManifest)
found_manifest spec none = err (unknown_dataset spec.dataset_key)
found_manifest spec (some m) = with_manifest m (validate_with m spec)

-- `Service.Validate`, over the service's map of manifests.
unfoldable pub validate :
    List (String × DatasetManifest) → QuerySpec → Result Invalid (QuerySpec × DatasetManifest)
validate manifests spec = found_manifest spec (lookup spec.dataset_key manifests)
