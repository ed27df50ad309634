-- ===== src/Router/Removal.antt =====
-- deleteRouters and deleteRouterInterfaces (internal/controller/cloudscalecluster_router.go).
use cluster_api_provider_clo.Base.{
  String, Bool, true, false, not, Option, none, some, List, [], ◌∷◌, ◌++◌, ◌==◌, if◌then◌else◌,
  ◌<>◌,
}
use cluster_api_provider_clo.Errors.{
  Error, wrap, error_text, error_is_not_found, join_errors, quote,
}
use cluster_api_provider_clo.Api.Conditions.{condition_false, router_ready_condition}
use cluster_api_provider_clo.Api.Cluster.{
  NetworkStatus, RouterInterfaceStatus, RouterStatus, get_network_status,
}
use cluster_api_provider_clo.Sdk.{
  RouterInterface, Router, Answer, reply, failure, Resource, get_call, delete_call,
  delete_interface_call,
}
use cluster_api_provider_clo.Scope.{
  Scope, Env, error_of, Reconcile, ◌>>=◌, ◌>>◌, pure, gets, deferred, call, modify, emit,
  set_condition, unit_of,
}
use cluster_api_provider_clo.Network.Status.{networks_of}
use cluster_api_provider_clo.Router.Status.{
  index_by, has_managed_interface, routers_of, put_routers,
}

-- liveUUIDs of deleteRouterInterfaces
unfoldable pub is_live : String → List RouterInterface → Bool
is_live id [] = false
is_live id (i ∷ rest) = if i.uuid == id then true else is_live id rest

abbrev pub uuid_of : Option RouterInterface → String
uuid_of none = ""
uuid_of (some i) = i.uuid

-- The interface on a network, as far as the network is in the status.
abbrev pub attached_on : Option NetworkStatus → Router → String
attached_on none router = ""
attached_on (some ns) router =
    uuid_of (index_by (λ (i : RouterInterface). i.network) router.interfaces ns.network_id)

module _ {W : Type 0} (env : Env W) where
  unfoldable pub interface_deleted :
      RouterStatus
      → RouterInterfaceStatus
      → String
      → Option Error
      → Reconcile W (List RouterInterfaceStatus × List Error)
  unfolding error_is_not_found
  interface_deleted rs iface interface_id none = pure ([], [])
  interface_deleted rs iface interface_id (some e) =
      if error_is_not_found e
      then pure ([], [])
      else pure (
        record iface { interface_id = interface_id } ∷ [],
        wrap ("deleting router interface for " <> rs.name <> "/" <> iface.network) e ∷ [],
      )

  unfoldable pub detach :
      RouterStatus
      → Router
      → RouterInterfaceStatus
      → String
      → Reconcile W (List RouterInterfaceStatus × List Error)
  unfolding interface_deleted is_live ◌>>=◌
  detach rs router iface interface_id =
      if not (is_live interface_id router.interfaces) then pure ([], []) else do
        error ←
            call (delete_interface_call rs.router_id interface_id)
              (env.client.delete_interface rs.router_id interface_id)
        interface_deleted rs iface interface_id error

  -- One round of the loop over rs.Interfaces: what it keeps, and its error.
  unfoldable pub detach_interface :
      RouterStatus
      → Router
      → RouterInterfaceStatus
      → Reconcile W (List RouterInterfaceStatus × List Error)
  unfolding detach get_network_status index_by ◌>>=◌
  detach_interface rs router iface = if not iface.managed then pure (iface ∷ [], []) else do
    ns ← gets (λ s. get_network_status (networks_of s) iface.network)
    detach rs router iface
        (if iface.interface_id == "" then attached_on ns router else iface.interface_id)

  unfoldable pub detach_interfaces :
      RouterStatus
      → Router
      → List RouterInterfaceStatus
      → Reconcile W (List RouterInterfaceStatus × List Error)
  unfolding detach_interface ◌>>=◌
  detach_interfaces rs router [] = pure ([], [])
  detach_interfaces rs router (i ∷ rest) = do
    (kept, errs) ← detach_interface rs router i
    (later_kept, later_errs) ← detach_interfaces rs router rest
    pure (kept ++ later_kept, errs ++ later_errs)

  unfoldable pub detach_from :
      RouterStatus → Answer Router → Reconcile W (List RouterInterfaceStatus × List Error)
  unfolding detach_interfaces error_is_not_found
  detach_from rs (reply router) = detach_interfaces rs router rs.interfaces
  detach_from rs (failure e) =
      if error_is_not_found e
      then pure ([], [])
      else pure (
        rs.interfaces,
        wrap ("getting router " <> quote rs.name <> " to detach its interfaces") e ∷ [],
      )

  -- The interfaces that stay in the entry, and the errors.
  unfoldable pub delete_router_interfaces :
      RouterStatus → Reconcile W (List RouterInterfaceStatus × List Error)
  unfolding detach_from has_managed_interface ◌>>=◌
  delete_router_interfaces rs =
      if not (has_managed_interface rs.interfaces) then pure (rs.interfaces, []) else do
        answer ← call (get_call Resource.router rs.router_id) (env.client.routers.get rs.router_id)
        detach_from rs answer

  unfoldable pub router_deleted : RouterStatus → Reconcile W (List RouterStatus × List Error)
  unfolding ◌>>=◌
  router_deleted rs = do
    modify (emit "RouterDeleted" ("Deleted router " <> rs.name <> " (" <> rs.router_id <> ")"))
    pure ([], [])

  unfoldable pub after_router_delete :
      RouterStatus → Option Error → Reconcile W (List RouterStatus × List Error)
  unfolding router_deleted error_is_not_found
  after_router_delete rs none = router_deleted rs
  after_router_delete rs (some e) =
      if error_is_not_found e
      then router_deleted rs
      else pure (rs ∷ [], wrap ("deleting router " <> quote rs.name) e ∷ [])

  -- What follows the interfaces of a router, whose entry has what is left of them.
  unfoldable pub delete_detached :
      RouterStatus → List Error → Reconcile W (List RouterStatus × List Error)
  unfolding after_router_delete ◌>>=◌
  delete_detached rs (e ∷ errs) = pure (rs ∷ [], e ∷ errs)
  delete_detached rs [] = if not rs.managed then pure (rs ∷ [], []) else do
    error ← call (delete_call Resource.router rs.router_id) (env.client.delete_router rs.router_id)
    after_router_delete rs error

  -- One round of the loop of deleteRouters: what it appends to `remaining` and to `errs`.
  unfoldable pub delete_one_router : RouterStatus → Reconcile W (List RouterStatus × List Error)
  unfolding delete_router_interfaces delete_detached ◌>>=◌
  delete_one_router rs = if rs.router_id == "" then pure ([], []) else do
    (interfaces, errs) ← delete_router_interfaces rs
    delete_detached (record rs { interfaces = interfaces }) errs

  unfoldable pub delete_router_list :
      List RouterStatus → Reconcile W (List RouterStatus × List Error)
  unfolding delete_one_router ◌>>=◌
  delete_router_list [] = pure ([], [])
  delete_router_list (rs ∷ rest) = do
    (kept, errs) ← delete_one_router rs
    (later_kept, later_errs) ← delete_router_list rest
    pure (kept ++ later_kept, errs ++ later_errs)

  unfoldable pub delete_routers_condition : Option Error → Scope W → Scope W
  unfolding set_condition error_text
  delete_routers_condition (some e) =
      set_condition env router_ready_condition condition_false "RouterError"
        ("Failed to delete routers: " <> error_text e)
  delete_routers_condition none =
      set_condition env router_ready_condition condition_false "RouterDeleting"
        "Routers have been deleted"

  unfoldable pub delete_routers : Reconcile W (Unit {0})
  unfolding delete_router_list delete_routers_condition join_errors ◌>>=◌
  delete_routers =
      deferred
        (do
          routers ← gets routers_of
          (remaining, errs) ← delete_router_list routers
          modify (put_routers remaining)
          (λ s. (unit_of (join_errors errs), s)))
        (λ r. delete_routers_condition (error_of r))
