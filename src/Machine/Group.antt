-- ===== src/Machine/Group.antt =====
-- reconcileServerGroup and deleteServerGroup (internal/controller/cloudscalemachine_servergroup.go).
use cluster_api_provider_clo.Base.{
  String, ◌&&◌, Option, none, some, List, [], ◌∷◌, ◌==◌, if◌then◌else◌,
}
use cluster_api_provider_clo.Errors.{error_text, wrap, error_is_not_found}
use cluster_api_provider_clo.Api.Conditions.{
  condition_true, condition_false, server_group_ready_condition,
}
use cluster_api_provider_clo.Api.Machine.{ServerGroupSpec}
use cluster_api_provider_clo.Sdk.{
  ServerGroup, ServerGroupRequest, Answer, reply, failure, Resource, server_group_request, get_call,
  list_call, create_call,
}
use cluster_api_provider_clo.Go.{
  Outcome, err, CtrlResult, no_requeue, ◌>>=◌, ◌>>◌, pure, raise, gets, deferred, or_wrap, modify,
  requeue_or_raise,
}
use cluster_api_provider_clo.Scope.{Env}
use cluster_api_provider_clo.Services.{cluster_ownership_tags}
use cluster_api_provider_clo.Machine.Scope.{
  MachineScope, MachineReconcile, machine_call, update_machine_status, set_machine_condition,
}

abbrev pub put_group_id : {W : Type 0} → String → MachineScope W → MachineScope W
put_group_id id = update_machine_status λ st. record st { server_group_id = id }

-- The loop over the listed groups: the first with the name and the zone.
unfoldable pub find_group : String → String → List ServerGroup → Option ServerGroup
find_group name zone [] = none
find_group name zone (g ∷ rest) =
    if (g.name == name) && (g.zone == zone) then some g else find_group name zone rest

module _ {W : Type 0} (env : Env W) where
  unfoldable pub after_group_create : Answer ServerGroup → MachineReconcile W CtrlResult
  unfolding requeue_or_raise ◌>>=◌
  after_group_create (reply group) = do modify (put_group_id group.uuid); pure no_requeue
  after_group_create (failure e) = requeue_or_raise 5 "creating server group" e

  unfoldable pub use_group : ServerGroupRequest → Option ServerGroup → MachineReconcile W CtrlResult
  unfolding after_group_create ◌>>=◌
  use_group req (some g) = do modify (put_group_id g.uuid); pure no_requeue
  use_group req none = do
    answer ←
        machine_call (create_call (server_group_request req)) (env.client.create_server_group req)
    after_group_create answer

  unfoldable pub find_or_create_group : String → MachineReconcile W CtrlResult
  unfolding cluster_ownership_tags find_group use_group ◌>>=◌
  find_or_create_group name = do
    cluster ← gets (λ s. s.cloudscale_cluster)
    answer ←
        machine_call (list_call Resource.server_group)
          (env.client.server_groups.list (cluster_ownership_tags cluster))
    groups ← or_wrap "listing server groups" answer
    use_group
        (record {
          name = name;
          type = "anti-affinity";
          zone = cluster.spec.zone;
          tags = cluster_ownership_tags cluster;
        })
        (find_group name cluster.spec.zone groups)

  unfoldable pub after_group_get : String → Answer ServerGroup → MachineReconcile W CtrlResult
  unfolding find_or_create_group error_is_not_found ◌>>=◌
  after_group_get name (reply group) = pure no_requeue
  after_group_get name (failure e) =
      if error_is_not_found e
      then (modify (put_group_id "") >> find_or_create_group name)
      else raise (wrap "getting server group" e)

  unfoldable pub reconcile_group_spec : Option ServerGroupSpec → MachineReconcile W CtrlResult
  unfolding after_group_get find_or_create_group ◌>>=◌
  reconcile_group_spec none = pure no_requeue
  reconcile_group_spec (some spec) = do
    id ← gets (λ s. s.cloudscale_machine.status.server_group_id)
    if id == "" then find_or_create_group spec.name else do
      answer ← machine_call (get_call Resource.server_group id) (env.client.server_groups.get id)
      after_group_get spec.name answer

  -- The deferred function of reconcileServerGroup.
  unfoldable pub server_group_condition : Outcome CtrlResult → MachineScope W → MachineScope W
  unfolding set_machine_condition error_text
  server_group_condition (err e) s =
      set_machine_condition env server_group_ready_condition condition_false "ServerGroupError"
        (error_text e) s
  server_group_condition r s =
      set_machine_condition env server_group_ready_condition condition_true "ServerGroupReady" "" s

  unfoldable pub reconcile_server_group : MachineReconcile W CtrlResult
  unfolding reconcile_group_spec server_group_condition ◌>>=◌
  reconcile_server_group =
      deferred
        (do spec ← gets (λ s. s.cloudscale_machine.spec.server_group); reconcile_group_spec spec)
        server_group_condition

abbrev pub clear_group : {W : Type 0} → Option ServerGroupSpec → MachineScope W → MachineScope W
clear_group none s = s
clear_group (some spec) s = put_group_id "" s

unfoldable pub delete_server_group : {W : Type 0} → MachineScope W → MachineScope W
delete_server_group s = clear_group s.cloudscale_machine.spec.server_group s
