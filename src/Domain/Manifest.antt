-- ===== src/Domain/Manifest.antt =====
-- internal/domain/manifest.go: what a dataset allows.
use flooks.Common.{
  String, Option, some, List, ◌==◌, find_first, Any, Any-map, Any-find_first, find_first-Any,
  find_first_sound, ◌≡◌, ◌↔◌, eq_iff,
}
use flooks.Common.Int.{ℤ}

pub record Source : Type 0 where
  pub kind : String
  pub identifier : String
  pub parameters : List String

pub record Dimension : Type 0 where
  pub key : String
  pub label : String
  pub type : String
  pub column : String
  pub filter_operators : List String

pub record Metric : Type 0 where
  pub key : String
  pub label : String
  pub type : String
  pub column : String
  pub numerator : String
  pub denominator : String
  pub format : String

pub record LimitPolicy : Type 0 where
  pub default_rows : ℤ
  pub max_rows : ℤ
  pub timeout_seconds : ℤ

pub record CachePolicy : Type 0 where
  pub ttl_seconds : ℤ

pub record DatasetManifest : Type 0 where
  pub version : ℤ
  pub key : String
  pub label : String
  pub connector : String
  pub source : Source
  pub dimensions : List Dimension
  pub metrics : List Metric
  pub limits : LimitPolicy
  pub cache : CachePolicy

-- `DatasetManifest.Dimension`; `none` is its `false`.
unfoldable pub dimension : DatasetManifest → String → Option Dimension
dimension m key = find_first (λ field. field.key == key) m.dimensions

-- `DatasetManifest.Metric`
unfoldable pub metric : DatasetManifest → String → Option Metric
metric m key = find_first (λ field. field.key == key) m.metrics

-- A dimension is found exactly for the keys that the manifest declares.
pub dimension_iff :
    (m : DatasetManifest) (key : String)
    → ((d : Dimension) × (dimension m key ≡ some d))
      ↔ Any (λ (d : Dimension). d.key ≡ key) m.dimensions
unfolding dimension
dimension_iff m key = (
  λ (d, h). Any-map (λ x. (eq_iff x.key key).0) m.dimensions (Any-find_first _ m.dimensions d h),
  λ h. find_first-Any _ m.dimensions (Any-map (λ x. (eq_iff x.key key).1) m.dimensions h),
)

pub metric_iff :
    (m : DatasetManifest) (key : String)
    → ((d : Metric) × (metric m key ≡ some d)) ↔ Any (λ (d : Metric). d.key ≡ key) m.metrics
unfolding metric
metric_iff m key = (
  λ (d, h). Any-map (λ x. (eq_iff x.key key).0) m.metrics (Any-find_first _ m.metrics d h),
  λ h. find_first-Any _ m.metrics (Any-map (λ x. (eq_iff x.key key).1) m.metrics h),
)

-- What is found has the key that was looked for.
pub key-dimension :
    (m : DatasetManifest) (key : String) (d : Dimension) → dimension m key ≡ some d → d.key ≡ key
unfolding dimension
key-dimension m key d h = (eq_iff d.key key).0 (find_first_sound _ m.dimensions d h).0

pub key-metric :
    (m : DatasetManifest) (key : String) (d : Metric) → metric m key ≡ some d → d.key ≡ key
unfolding metric
key-metric m key d h = (eq_iff d.key key).0 (find_first_sound _ m.metrics d h).0
