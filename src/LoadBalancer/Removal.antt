-- ===== src/LoadBalancer/Removal.antt =====
-- deleteLoadBalancer (internal/controller/cloudscalecluster_loadbalancer.go).
use cluster_api_provider_clo.Base.{String, Option, none, some, [], ◌==◌, if◌then◌else◌, ◌<>◌}
use cluster_api_provider_clo.Errors.{Error, wrap, error_text, error_is_not_found}
use cluster_api_provider_clo.Api.Conditions.{condition_false, load_balancer_ready_condition}
use cluster_api_provider_clo.Sdk.{Resource, delete_call}
use cluster_api_provider_clo.Scope.{
  Scope, Env, error_of, Reconcile, ◌>>=◌, ◌>>◌, pure, raise, gets, deferred, call, update_status,
  modify, emit, set_condition,
}
use cluster_api_provider_clo.FloatingIp.Target.{lb_enabled}

module _ {W : Type 0} (env : Env W) where
  abbrev pub clear_load_balancer : Scope W → Scope W
  clear_load_balancer = update_status λ st. record st {
    load_balancer_id = "";
    load_balancer_pool_id = "";
    load_balancer_listener_id = "";
    load_balancer_health_monitor_id = "";
    load_balancer_member_ids = [];
  }

  unfoldable pub lb_deleted : String → Option Error → Reconcile W (Unit {0})
  unfolding error_is_not_found
  lb_deleted lb_id none = modify (emit "LoadBalancerDeleted" ("Deleted load balancer " <> lb_id))
  lb_deleted lb_id (some e) =
      if error_is_not_found e
      then modify (emit "LoadBalancerDeleted" ("Deleted load balancer " <> lb_id))
      else raise (wrap "deleting load balancer" e)

  unfoldable pub delete_recorded_lb : String → Reconcile W (Unit {0})
  unfolding lb_deleted ◌>>=◌
  delete_recorded_lb lb_id = if lb_id == "" then pure tt else do
    error ← call (delete_call Resource.load_balancer lb_id) (env.client.delete_load_balancer lb_id)
    lb_deleted lb_id error

  unfoldable pub delete_load_balancer_condition : Option Error → Scope W → Scope W
  unfolding set_condition error_text
  delete_load_balancer_condition (some e) =
      set_condition env load_balancer_ready_condition condition_false "LoadBalancerError"
        ("Failed to delete load balancer: " <> error_text e)
  delete_load_balancer_condition none =
      set_condition env load_balancer_ready_condition condition_false "LoadBalancerDeleting"
        "Load balancer has been deleted"

  unfoldable pub delete_enabled_load_balancer : Reconcile W (Unit {0})
  unfolding delete_recorded_lb delete_load_balancer_condition ◌>>=◌
  delete_enabled_load_balancer =
      deferred
        (do
          lb_id ← gets (λ s. s.cluster.status.load_balancer_id)
          delete_recorded_lb lb_id
          modify clear_load_balancer)
        (λ r. delete_load_balancer_condition (error_of r))

  unfoldable pub delete_load_balancer : Reconcile W (Unit {0})
  unfolding delete_enabled_load_balancer lb_enabled ◌>>=◌
  delete_load_balancer = do
    spec ← gets (λ s. s.cluster.spec)
    if lb_enabled spec then delete_enabled_load_balancer else pure tt
