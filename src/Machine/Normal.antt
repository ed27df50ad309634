-- ===== src/Machine/Normal.antt =====
-- reconcileNormal and setReadyCondition (internal/controller/cloudscalemachine_controller.go).
use cluster_api_provider_clo.Base.{
  String, true, Option, none, some, List, [], ◌∷◌, if◌then◌else◌, ◌<>◌,
}
use cluster_api_provider_clo.Api.Conditions.{
  condition_true, condition_false, Condition, is_true, ready_condition, server_ready_condition,
}
use cluster_api_provider_clo.Api.Machine.{ServerGroupSpec}
use cluster_api_provider_clo.Go.{
  CtrlResult, no_requeue, is_zero, ◌>>=◌, ◌>>◌, pure, gets, deferred, annotate, modify,
}
use cluster_api_provider_clo.Scope.{Env}
use cluster_api_provider_clo.Machine.Scope.{
  MachineScope, MachineReconcile, update_machine_status, set_machine_condition,
}
use cluster_api_provider_clo.Machine.Server.{reconcile_server}
use cluster_api_provider_clo.Machine.Group.{reconcile_server_group}

abbrev pub machine_sub_conditions : List String
machine_sub_conditions = server_ready_condition ∷ []

module _ {W : Type 0} (env : Env W) where
  -- The Ready condition that a failing sub-condition gives.
  unfoldable pub machine_not_ready : String → Option Condition → MachineScope W → MachineScope W
  unfolding set_machine_condition
  machine_not_ready type none =
      set_machine_condition env ready_condition condition_false "NotReady" ("Waiting for " <> type)
  machine_not_ready type (some c) =
      set_machine_condition env ready_condition condition_false c.reason c.message

  unfoldable pub machine_ready_from : List String → MachineScope W → MachineScope W
  unfolding machine_not_ready set_machine_condition
  machine_ready_from [] s = set_machine_condition env ready_condition condition_true "Ready" "" s
  machine_ready_from (type ∷ rest) s =
      let later = machine_ready_from rest s in
      let conditions = s.cloudscale_machine.status.conditions in
      if is_true env.conditions conditions type
      then later
      else machine_not_ready type (env.conditions.get conditions type) s

  unfoldable pub set_machine_ready_condition : MachineScope W → MachineScope W
  unfolding machine_ready_from
  set_machine_ready_condition = machine_ready_from machine_sub_conditions

  -- Provisioned is set once the server is ready, and never taken back.
  unfoldable pub mark_machine_provisioned : MachineScope W → MachineScope W
  mark_machine_provisioned s =
      if is_true env.conditions s.cloudscale_machine.status.conditions server_ready_condition
      then update_machine_status
          (λ st. record st { initialization = some (record { provisioned = some true }) }) s
      else s

  unfoldable pub server_step : MachineReconcile W CtrlResult
  unfolding reconcile_server mark_machine_provisioned annotate ◌>>=◌
  server_step = do
    result ← annotate "reconciling server" (reconcile_server env)
    modify mark_machine_provisioned
    pure result

  unfoldable pub group_step : Option ServerGroupSpec → MachineReconcile W CtrlResult
  unfolding reconcile_server_group server_step ◌>>=◌
  group_step none = server_step
  group_step (some spec) = do
    result ← reconcile_server_group env
    if is_zero result then server_step else pure result

  unfoldable pub after_bootstrap : Option String → MachineReconcile W CtrlResult
  unfolding group_step set_machine_condition ◌>>=◌
  after_bootstrap none = do
    modify (
        set_machine_condition env server_ready_condition condition_false "WaitingForBootstrapData"
          "Waiting for bootstrap data to be available")
    pure no_requeue
  after_bootstrap (some name) = do
    spec ← gets (λ s. s.cloudscale_machine.spec.server_group)
    group_step spec

  unfoldable pub reconcile_machine_normal : MachineReconcile W CtrlResult
  unfolding after_bootstrap set_machine_ready_condition ◌>>=◌
  reconcile_machine_normal =
      deferred (do name ← gets (λ s. s.machine.data_secret_name); after_bootstrap name)
        (λ _. set_machine_ready_condition)
