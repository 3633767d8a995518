-- ===== src/Contract.antt =====
-- contracts/openapi.yaml, and internal/openapi/openapi.gen.go, which oapi-codegen made of it: the
-- operations, their routes, the statuses of their successes and the states of the dependencies.
pub mod Routed
pub mod Statuses
pub mod Laws
use flooks.Common.{ℕ, String, Bool, true, false, ◌==◌, if◌then◌else◌}
use flooks.Common.Text.{◌+++◌}
use flooks.Http.Routes.{Method, get, post, put, delete}

-- `ServerInterface`
pub data Operation : Type 0 where
  list_assets create_asset archive_asset get_asset update_asset : Operation
  list_revisions restore_revision list_datasets get_dataset events : Operation
  live ready execute_query validate_query system_status : Operation

-- `HandlerWithOptions`: the method and the path behind `options.BaseURL`.
unfoldable pub route : String → Operation → Method × String
route base list_assets = (get, base +++ "/assets/{kind}")
route base create_asset = (post, base +++ "/assets/{kind}")
route base archive_asset = (delete, base +++ "/assets/{kind}/{id}")
route base get_asset = (get, base +++ "/assets/{kind}/{id}")
route base update_asset = (put, base +++ "/assets/{kind}/{id}")
route base list_revisions = (get, base +++ "/assets/{kind}/{id}/revisions")
route base restore_revision = (post, base +++ "/assets/{kind}/{id}/revisions/{revision}/restore")
route base list_datasets = (get, base +++ "/datasets")
route base get_dataset = (get, base +++ "/datasets/{key}")
route base events = (get, base +++ "/events")
route base live = (get, base +++ "/health/live")
route base ready = (get, base +++ "/health/ready")
route base execute_query = (post, base +++ "/query/execute")
route base validate_query = (post, base +++ "/query/validate")
route base system_status = (get, base +++ "/system/status")

-- The status of the answer that the contract declares for a success.
unfoldable pub declared : Operation → ℕ
declared create_asset = 201
declared archive_asset = 204
declared _ = 200

-- `SystemStatusDependenciesAnalyticsDatasource.Valid`
unfoldable pub is_analytics_state : String → Bool
is_analytics_state e = if e == "degraded" then true else if e == "ok" then true else false

-- `SystemStatusDependenciesMetadata.Valid`
unfoldable pub is_metadata_state : String → Bool
is_metadata_state e = if e == "down" then true else if e == "ok" then true else false

-- `SystemStatusDependenciesRedis.Valid`
unfoldable pub is_redis_state : String → Bool
is_redis_state e = if e == "down" then true else if e == "ok" then true else false
