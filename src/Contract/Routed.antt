-- ===== src/Contract/Routed.antt =====
-- The operations of the contract among the server's routes.
use flooks.Common.{String, ◌≡◌, refl, inl, inr, Any, Bool, true, false, if◌then◌else◌}
use flooks.Common.Text.{◌+++◌}
use flooks.Http.Routes.{Endpoint, Method, routes}
use flooks.Contract.{Operation, route}

-- The endpoint of an operation.
unfoldable pub endpoint : Operation → Endpoint
endpoint Operation.list_assets = Endpoint.list_assets
endpoint Operation.create_asset = Endpoint.create_asset
endpoint Operation.archive_asset = Endpoint.archive_asset
endpoint Operation.get_asset = Endpoint.get_asset
endpoint Operation.update_asset = Endpoint.update_asset
endpoint Operation.list_revisions = Endpoint.list_revisions
endpoint Operation.restore_revision = Endpoint.restore_revision
endpoint Operation.list_datasets = Endpoint.datasets
endpoint Operation.get_dataset = Endpoint.dataset
endpoint Operation.events = Endpoint.stream_events
endpoint Operation.live = Endpoint.live
endpoint Operation.ready = Endpoint.ready
endpoint Operation.execute_query = Endpoint.execute_query
endpoint Operation.validate_query = Endpoint.validate_query
endpoint Operation.system_status = Endpoint.status

-- The operations at a path of a sub-router that `Routes` mounts there: the sub-router's route is "/",
-- which chi serves at the mounted path itself and at that path and a slash.
unfoldable pub is_mounted : Operation → Bool
is_mounted Operation.list_assets = true
is_mounted Operation.create_asset = true
is_mounted Operation.get_asset = true
is_mounted Operation.update_asset = true
is_mounted Operation.archive_asset = true
is_mounted _ = false

-- The path as the router's table has it.
unfoldable pub table_path : Operation → String
unfolding is_mounted
table_path op = let path = (route "/api/v1" op).1 in if is_mounted op then path +++ "/" else path

-- The server has the operation on a route, with its method and at its path.
abbrev pub IsRouted : Operation → Type 0
IsRouted op =
    Any
      (λ (x : Method × String × Endpoint).
        (x.0 ≡ (route "/api/v1" op).0) × (x.1 ≡ table_path op) × (x.2 ≡ endpoint op))
      routes

pub operation-IsRouted : (op : Operation) → IsRouted op
unfolding route endpoint table_path is_mounted
operation-IsRouted Operation.list_assets =
    inr (inr (inr (inr (inr (inr (inr (inr (inl (refl, refl, refl)))))))))
operation-IsRouted Operation.create_asset =
    inr (inr (inr (inr (inr (inr (inr (inr (inr (inl (refl, refl, refl))))))))))
operation-IsRouted Operation.archive_asset =
    inr (inr (inr (inr (inr (inr (inr (inr (inr (inr (inr (inr (inl (refl, refl, refl)))))))))))))
operation-IsRouted Operation.get_asset =
    inr (inr (inr (inr (inr (inr (inr (inr (inr (inr (inl (refl, refl, refl)))))))))))
operation-IsRouted Operation.update_asset =
    inr (inr (inr (inr (inr (inr (inr (inr (inr (inr (inr (inl (refl, refl, refl))))))))))))
operation-IsRouted Operation.list_revisions =
    inr (
      inr
        (inr (inr (inr (inr (inr (inr (inr (inr (inr (inr (inr (inl (refl, refl, refl))))))))))))))
operation-IsRouted Operation.restore_revision = inr (
    inr (
      inr (
        inr (
          inr
            (inr (inr (inr (inr (inr (inr (inr (inr (inr (inr (inl (refl, refl, refl))))))))))))))))
operation-IsRouted Operation.list_datasets = inr (inr (inr (inl (refl, refl, refl))))
operation-IsRouted Operation.get_dataset = inr (inr (inr (inr (inl (refl, refl, refl)))))
operation-IsRouted Operation.events =
    inr (inr (inr (inr (inr (inr (inr (inl (refl, refl, refl))))))))
operation-IsRouted Operation.live = inl (refl, refl, refl)
operation-IsRouted Operation.ready = inr (inl (refl, refl, refl))
operation-IsRouted Operation.execute_query =
    inr (inr (inr (inr (inr (inr (inl (refl, refl, refl)))))))
operation-IsRouted Operation.validate_query = inr (inr (inr (inr (inr (inl (refl, refl, refl))))))
operation-IsRouted Operation.system_status = inr (inr (inl (refl, refl, refl)))
