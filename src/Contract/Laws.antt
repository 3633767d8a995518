-- ===== src/Contract/Laws.antt =====
-- What the server makes of the contract.
use flooks.Common.{String, ◌≡◌, refl, true, Option, none, some}
use flooks.Assets.Tables.{Tables}
use flooks.Http.Wire.{Request, Body, services}
use flooks.Http.Handlers
use flooks.Http.Routes.{Server, serve}
use flooks.Contract.{Operation, declared, is_analytics_state, is_metadata_state, is_redis_state}
use flooks.Contract.Routed.{endpoint, IsRouted, operation-IsRouted}
use flooks.Contract.Statuses.{HasStatus, serve-HasStatus}

-- The states of the dependencies are among those of the contract.
abbrev pub HasStates : Operation → Body → Type 0
HasStates Operation.system_status (services metadata redis analytics) =
    (is_metadata_state metadata ≡ true)
    × (is_redis_state redis ≡ true)
    × (is_analytics_state analytics ≡ true)
HasStates Operation.system_status _ = ⊥
HasStates _ body = Unit

service_state-valid :
    (metadata redis analytics : Option String)
    → HasStates Operation.system_status (Handlers.system_status metadata redis analytics).body
unfolding Handlers.system_status is_metadata_state is_redis_state is_analytics_state
service_state-valid metadata redis analytics =
    (metadata_state metadata, redis_state redis, analytics_state analytics)
  where
    metadata_state :
        (o : Option String) → is_metadata_state (Handlers.service_state "down" o) ≡ true
    metadata_state none = refl
    metadata_state (some e) = refl

    redis_state : (o : Option String) → is_redis_state (Handlers.service_state "down" o) ≡ true
    redis_state none = refl
    redis_state (some e) = refl

    analytics_state :
        (o : Option String) → is_analytics_state (Handlers.service_state "degraded" o) ≡ true
    analytics_state none = refl
    analytics_state (some e) = refl

module _ {W E : Type 0} (s : Server W E) (r : Request) (seen t : Tables) (w : W) where
  serve-HasStates : (op : Operation) → HasStates op (serve s (endpoint op) r seen t w).0.body
  unfolding serve endpoint
  serve-HasStates Operation.list_assets = tt
  serve-HasStates Operation.create_asset = tt
  serve-HasStates Operation.archive_asset = tt
  serve-HasStates Operation.get_asset = tt
  serve-HasStates Operation.update_asset = tt
  serve-HasStates Operation.list_revisions = tt
  serve-HasStates Operation.restore_revision = tt
  serve-HasStates Operation.list_datasets = tt
  serve-HasStates Operation.get_dataset = tt
  serve-HasStates Operation.events = tt
  serve-HasStates Operation.live = tt
  serve-HasStates Operation.ready = tt
  serve-HasStates Operation.execute_query = tt
  serve-HasStates Operation.validate_query = tt
  serve-HasStates Operation.system_status =
      service_state-valid s.metadata s.redis (Handlers.analytics_error s.analytics)

  -- Every operation of the contract is on a route of the server, by its method and path, to a handler
  -- that answers each request with the status that the contract declares for a success, or with an
  -- error's; and the states of the dependencies that the server reports are among those of the contract.
  pub serve-conforms :
      (op : Operation)
      → IsRouted op
        × HasStatus (declared op) (serve s (endpoint op) r seen t w).0
        × HasStates op (serve s (endpoint op) r seen t w).0.body
  serve-conforms op = (operation-IsRouted op, serve-HasStatus s r t op seen w, serve-HasStates op)
