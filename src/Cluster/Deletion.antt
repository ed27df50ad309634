-- ===== src/Cluster/Deletion.antt =====
-- reconcileDelete (internal/controller/cloudscalecluster_controller.go).
use cluster_api_provider_clo.Base.{String, Bool, false, if◌then◌else◌}
use cluster_api_provider_clo.Errors.{Error, wrap, is_network_not_ready, is_server_group_not_empty}
use cluster_api_provider_clo.Api.Conditions.{
  condition_true, condition_false, ready_condition, deleting_condition,
}
use cluster_api_provider_clo.Api.Cluster.{cluster_finalizer}
use cluster_api_provider_clo.Scope.{
  Scope, Env, Outcome, ok, err, panic, CtrlResult, no_requeue, requeue, Reconcile, ◌>>=◌, ◌>>◌,
  pure, raise, gets, update_cluster, modify, set_condition,
}
use cluster_api_provider_clo.Cluster.Normal.{reconcile_normal}
use cluster_api_provider_clo.FloatingIp.Removal.{delete_floating_ip}
use cluster_api_provider_clo.LoadBalancer.Removal.{delete_load_balancer}
use cluster_api_provider_clo.Network.Removal.{delete_network}
use cluster_api_provider_clo.Router.Removal.{delete_routers}
use cluster_api_provider_clo.ServerGroup.{delete_server_groups}

module _ {W : Type 0} (env : Env W) where
  -- A part of the deletion: an error that the test accepts is a requeue, another one is returned.
  unfoldable pub after_part :
      String → (Error → Bool) → Outcome (Unit {0}) → Reconcile W CtrlResult → Reconcile W CtrlResult
  after_part context waits (ok _) rest = rest
  after_part context waits (err e) rest =
      if waits e then pure (requeue 10) else raise (wrap context e)
  after_part context waits panic rest = λ s. (panic, s)

  unfoldable pub delete_part :
      String
      → (Error → Bool)
      → Reconcile W (Unit {0})
      → Reconcile W CtrlResult
      → Reconcile W CtrlResult
  unfolding after_part
  delete_part context waits part rest s = let (r, s') = part s in after_part context waits r rest s'

  abbrev pub drop_finalizer : Scope W → Scope W
  drop_finalizer =
      update_cluster
        λ c. record c { finalizers = env.remove_finalizer c.finalizers cluster_finalizer }

  unfoldable pub finish_delete : Reconcile W CtrlResult
  unfolding set_condition ◌>>=◌
  finish_delete = do
    modify (
        set_condition env ready_condition condition_false "Deleting"
          "Infrastructure has been deleted")
    modify drop_finalizer
    pure no_requeue

  unfoldable pub delete_parts : Reconcile W CtrlResult
  unfolding delete_part delete_floating_ip delete_load_balancer delete_server_groups delete_routers
      delete_network finish_delete is_server_group_not_empty is_network_not_ready
  delete_parts =
      delete_part "deleting floating IP" (λ _. false) (delete_floating_ip env)
        (delete_part "deleting load balancer" (λ _. false) (delete_load_balancer env)
          (delete_part "deleting server groups" is_server_group_not_empty (delete_server_groups env)
            (delete_part "deleting routers" (λ _. false) (delete_routers env)
              (delete_part "deleting network" is_network_not_ready (delete_network env)
                finish_delete))))

  unfoldable pub reconcile_delete : Reconcile W CtrlResult
  unfolding set_condition delete_parts ◌>>=◌
  reconcile_delete = do
    modify (
        set_condition env deleting_condition condition_true "Deleting"
          "Deleting infrastructure resources")
    delete_parts

  abbrev pub ensure_finalizer : Scope W → Scope W
  ensure_finalizer = update_cluster λ c. record c {
    finalizers =
        if env.contains_finalizer c.finalizers cluster_finalizer
        then c.finalizers
        else env.add_finalizer c.finalizers cluster_finalizer;
  }

  -- The end of Reconcile, once it has a scope.
  unfoldable pub reconcile_scope : Reconcile W CtrlResult
  unfolding reconcile_delete reconcile_normal ◌>>=◌
  reconcile_scope = do
    deleted ← gets (λ s. s.cluster.deleted)
    if deleted then reconcile_delete else (modify ensure_finalizer >> reconcile_normal env)
