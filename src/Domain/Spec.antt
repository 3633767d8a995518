-- ===== src/Domain/Spec.antt =====
-- internal/domain/query.go: the query specification, its result and its cache key.
use Prim.Native.String.{◌++◌}
use flooks.Common.{String, Bool, List, Result, ok, ◌>>=◌, ℕ}
use flooks.Common.Int.{ℤ}
use flooks.Domain.Value.{Value}

pub record TimeRange : Type 0 where
  pub start : String
  pub end : String

pub record Filter : Type 0 where
  pub field : String
  pub op : String
  pub value : Value

pub record Sort : Type 0 where
  pub field : String
  pub direction : String

pub record QuerySpec : Type 0 where
  pub dataset_key : String
  pub time_range : TimeRange
  pub dimensions : List String
  pub metrics : List String
  pub filters : List Filter
  pub sort : List Sort
  pub limit : ℤ
  pub offset : ℤ

pub record Column : Type 0 where
  pub name : String
  pub type : String

-- A row, `map[string]any`, is a dictionary.
pub record QueryResult : Type 0 where
  pub columns : List Column
  pub rows : List (List (String × Value))
  pub row_count : ℕ
  pub duration_ms : ℕ
  pub cached : Bool

-- The anonymous struct that `CacheKey` marshals.
pub record KeyPayload : Type 0 where
  pub version : ℤ
  pub connector : String
  pub spec : QuerySpec

-- `CacheKey`. `marshal` is `json.Marshal` of the payload, `digest` the hexadecimal SHA-256 of a text.
module _ {E : Type 0} (marshal : KeyPayload → Result E String) (digest : String → String) where
  unfoldable pub cache_key : QuerySpec → ℤ → String → Result E String
  cache_key s manifest_version connector = do
    payload ← marshal (record { version = manifest_version; connector = connector; spec = s })
    ok ("flooks:query:" ++ digest payload)
