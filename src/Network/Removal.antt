-- ===== src/Network/Removal.antt =====
-- deleteNetwork (internal/controller/cloudscalecluster_network.go).
use cluster_api_provider_clo.Base.{
  not, Option, none, some, List, [], ◌∷◌, ◌++◌, ◌==◌, if◌then◌else◌, ◌<>◌,
}
use cluster_api_provider_clo.Errors.{
  Error, wrap, network_not_ready, error_text, error_is_not_found, is_lb_pool_members_error,
  join_errors,
}
use cluster_api_provider_clo.Api.Conditions.{condition_false, network_ready_condition}
use cluster_api_provider_clo.Api.Cluster.{NetworkStatus}
use cluster_api_provider_clo.Sdk.{Resource, delete_call}
use cluster_api_provider_clo.Scope.{
  Scope, Env, error_of, Reconcile, ◌>>=◌, ◌>>◌, pure, raise, gets, deferred, call, modify, emit,
  set_condition, unit_of,
}
use cluster_api_provider_clo.Network.Status.{networks_of, put_networks}

module _ {W : Type 0} (env : Env W) where
  unfoldable pub network_deleted : NetworkStatus → Reconcile W (List NetworkStatus × List Error)
  unfolding ◌>>=◌
  network_deleted ns = do
    modify (emit "NetworkDeleted" ("Deleted network " <> ns.name <> " (" <> ns.network_id <> ")"))
    pure ([], [])

  unfoldable pub delete_failed :
      NetworkStatus → Option Error → Reconcile W (List NetworkStatus × List Error)
  unfolding network_deleted error_is_not_found
  delete_failed ns none = network_deleted ns
  delete_failed ns (some e) =
      if error_is_not_found e
      then network_deleted ns
      else pure (ns ∷ [], wrap ("deleting network " <> ns.name) e ∷ [])

  unfoldable pub after_delete :
      NetworkStatus → Option Error → Reconcile W (List NetworkStatus × List Error)
  unfolding delete_failed is_lb_pool_members_error
  after_delete ns error =
      if is_lb_pool_members_error error then raise network_not_ready else delete_failed ns error

  -- One round of the loop of deleteNetwork: what it appends to `remaining` and to `errs`.
  unfoldable pub delete_one_network : NetworkStatus → Reconcile W (List NetworkStatus × List Error)
  unfolding after_delete ◌>>=◌
  delete_one_network ns =
      if not ns.managed
      then pure (ns ∷ [], [])
      else if ns.network_id == ""
      then pure ([], [])
      else do
        error ←
            call (delete_call Resource.network ns.network_id)
              (env.client.delete_network ns.network_id)
        after_delete ns error

  unfoldable pub delete_networks :
      List NetworkStatus → Reconcile W (List NetworkStatus × List Error)
  unfolding delete_one_network ◌>>=◌
  delete_networks [] = pure ([], [])
  delete_networks (ns ∷ rest) = do
    (kept, errs) ← delete_one_network ns
    (later_kept, later_errs) ← delete_networks rest
    pure (kept ++ later_kept, errs ++ later_errs)

  -- The deferred function of deleteNetwork.
  unfoldable pub delete_network_condition : Option Error → Scope W → Scope W
  unfolding set_condition error_text
  delete_network_condition (some e) =
      set_condition env network_ready_condition condition_false "NetworkError"
        ("Failed to delete network: " <> error_text e)
  delete_network_condition none =
      set_condition env network_ready_condition condition_false "NetworkDeleting"
        "Networks have been deleted"

  unfoldable pub delete_network : Reconcile W (Unit {0})
  unfolding delete_networks delete_network_condition join_errors ◌>>=◌
  delete_network =
      deferred
        (do
          networks ← gets networks_of
          (remaining, errs) ← delete_networks networks
          modify (put_networks remaining)
          (λ s. (unit_of (join_errors errs), s)))
        (λ r. delete_network_condition (error_of r))
