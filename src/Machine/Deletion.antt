-- ===== src/Machine/Deletion.antt =====
-- reconcileDelete, and Reconcile from the objects on
-- (internal/controller/cloudscalemachine_controller.go).
use cluster_api_provider_clo.Base.{String, Bool, false, if◌then◌else◌, Option, none, some}
use cluster_api_provider_clo.Api.Cluster.{ClusterInitializationStatus}
use cluster_api_provider_clo.Api.Conditions.{
  condition_true, condition_false, ready_condition, server_ready_condition, deleting_condition,
}
use cluster_api_provider_clo.Go.{CtrlResult, no_requeue, ◌>>=◌, ◌>>◌, pure, gets, annotate, modify}
use cluster_api_provider_clo.Scope.{Env}
use cluster_api_provider_clo.Machine.Scope.{
  MachineScope, MachineReconcile, update_machine, set_machine_condition,
}
use cluster_api_provider_clo.Machine.Server.{delete_server}
use cluster_api_provider_clo.Machine.Group.{delete_server_group}
use cluster_api_provider_clo.Machine.Normal.{set_machine_ready_condition, reconcile_machine_normal}

abbrev pub machine_finalizer : String
machine_finalizer = "cloudscalemachine.infrastructure.cluster.x-k8s.io"

abbrev pub flag_is_true : Option Bool → Bool
flag_is_true none = false
flag_is_true (some b) = b

abbrev pub infrastructure_ready : Option ClusterInitializationStatus → Bool
infrastructure_ready none = false
infrastructure_ready (some init) = flag_is_true init.provisioned

module _ {W : Type 0} (env : Env W) where
  abbrev pub drop_machine_finalizer : MachineScope W → MachineScope W
  drop_machine_finalizer =
      update_machine
        λ m. record m { finalizers = env.remove_finalizer m.finalizers machine_finalizer }

  unfoldable pub reconcile_machine_delete : MachineReconcile W CtrlResult
  unfolding delete_server delete_server_group set_machine_condition annotate ◌>>=◌
  reconcile_machine_delete = do
    modify
        (set_machine_condition env deleting_condition condition_true "Deleting" "Deleting server")
    _ ← annotate "deleting server" (delete_server env)
    modify delete_server_group
    modify (
        set_machine_condition env ready_condition condition_false "Deleting"
          "Machine infrastructure has been deleted")
    modify drop_machine_finalizer
    pure no_requeue

  abbrev pub ensure_machine_finalizer : MachineScope W → MachineScope W
  ensure_machine_finalizer = update_machine λ m. record m {
    finalizers =
        if env.contains_finalizer m.finalizers machine_finalizer
        then m.finalizers
        else env.add_finalizer m.finalizers machine_finalizer;
  }

  unfoldable pub reconcile_machine_present : MachineReconcile W CtrlResult
  unfolding reconcile_machine_normal ◌>>=◌
  reconcile_machine_present = modify ensure_machine_finalizer >> reconcile_machine_normal env

  -- The end of Reconcile, once it has a scope.
  unfoldable pub reconcile_machine_scope : MachineReconcile W CtrlResult
  unfolding reconcile_machine_delete reconcile_machine_present ◌>>=◌
  reconcile_machine_scope = do
    deleted ← gets (λ s. s.cloudscale_machine.deleted)
    if deleted then reconcile_machine_delete else reconcile_machine_present

  -- The test of the cluster's infrastructure, and what comes after it.
  unfoldable pub reconcile_machine : MachineReconcile W CtrlResult
  unfolding reconcile_machine_scope set_machine_condition set_machine_ready_condition ◌>>=◌
  reconcile_machine = do
    initialization ← gets (λ s. s.cloudscale_cluster.status.initialization)
    if infrastructure_ready initialization then reconcile_machine_scope else do
      modify (
          set_machine_condition env server_ready_condition condition_false
            "WaitingForClusterInfrastructure"
            "Waiting for cluster infrastructure to be provisioned")
      modify (set_machine_ready_condition env)
      pure no_requeue
