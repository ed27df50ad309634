-- ===== src/Cluster/Normal.antt =====
-- reconcileNormal (internal/controller/cloudscalecluster_controller.go).
use cluster_api_provider_clo.Base.{String, Bool, false, not, ◌||◌, some, if◌then◌else◌, deref_or}
use cluster_api_provider_clo.Scope.{
  Scope, Env, CtrlResult, no_requeue, requeue, is_zero, Reconcile, ◌>>=◌, ◌>>◌, pure, gets,
  deferred, annotate, update_status, modify,
}
use cluster_api_provider_clo.Cluster.Endpoint.{reconcile_control_plane_endpoint}
use cluster_api_provider_clo.Cluster.Readiness.{is_infrastructure_provisioned, set_ready_condition}
use cluster_api_provider_clo.FloatingIp.Provision.{reconcile_floating_ip}
use cluster_api_provider_clo.LoadBalancer.Provision.{LbStatus, reconcile_load_balancer}
use cluster_api_provider_clo.Network.Provision.{reconcile_network}
use cluster_api_provider_clo.Router.Provision.{reconcile_routers}

module _ {W : Type 0} where
  abbrev pub put_provisioned : Bool → Scope W → Scope W
  put_provisioned provisioned =
      update_status
        λ st. record st { initialization = some (record { provisioned = some provisioned }) }

  unfoldable pub mark_provisioned : Scope W → Scope W
  unfolding is_infrastructure_provisioned
  mark_provisioned s = put_provisioned (is_infrastructure_provisioned s.cluster) s

  -- The end of the function, once every part has been reconciled.
  unfoldable pub finish_normal : LbStatus → Reconcile W CtrlResult
  unfolding reconcile_control_plane_endpoint mark_provisioned ◌>>=◌
  finish_normal lb = do
    modify (reconcile_control_plane_endpoint lb.ip_address)
    modify mark_provisioned
    initialized ← gets (λ s. deref_or s.owner.control_plane_initialized false)
    pure (if not lb.ready || not initialized then requeue 10 else no_requeue)

  -- A step of the function: its error is annotated, and a requeue ends the function.
  unfoldable pub reconcile_step :
      String → Reconcile W CtrlResult → Reconcile W CtrlResult → Reconcile W CtrlResult
  unfolding annotate ◌>>=◌
  reconcile_step context part rest = do
    result ← annotate context part
    if is_zero result then rest else pure result

module _ {W : Type 0} (env : Env W) where
  unfoldable pub after_load_balancer : LbStatus → Reconcile W CtrlResult
  unfolding reconcile_step reconcile_floating_ip finish_normal
  after_load_balancer lb =
      reconcile_step "reconciling floating IP" (reconcile_floating_ip env) (finish_normal lb)

  unfoldable pub load_balancer_step : Reconcile W CtrlResult
  unfolding reconcile_load_balancer after_load_balancer annotate ◌>>=◌
  load_balancer_step = do
    (lb, result) ← annotate "reconciling load balancer" (reconcile_load_balancer env)
    if is_zero result then after_load_balancer lb else pure result

  unfoldable pub reconcile_normal : Reconcile W CtrlResult
  unfolding reconcile_step reconcile_network reconcile_routers load_balancer_step
      set_ready_condition
  reconcile_normal =
      deferred
        (reconcile_step "reconciling network" (reconcile_network env)
          (reconcile_step "reconciling routers" (reconcile_routers env) load_balancer_step))
        (λ _. set_ready_condition env)
