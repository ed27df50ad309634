-- ===== src/LoadBalancer/Members.antt =====
-- reconcileLBMembers: the members of the pool follow the control plane machines
-- (internal/controller/cloudscalecluster_loadbalancer.go).
use cluster_api_provider_clo.Base.{
  String, Bool, true, false, Option, none, some, List, [], ◌∷◌, ◌++◌, ◌==◌, if◌then◌else◌, ◌<>◌,
}
use cluster_api_provider_clo.Errors.{Error, wrap, quote}
use cluster_api_provider_clo.Sdk.{
  LoadBalancerPoolMember, LoadBalancerPoolMemberRequest, Answer, reply, failure, Resource,
  pool_member_request, list_call, create_call, update_call, delete_call,
}
use cluster_api_provider_clo.Scope.{
  Scope, Env, CtrlResult, no_requeue, is_zero, Reconcile, ◌>>=◌, ◌>>◌, pure, raise, gets, call,
  or_wrap, annotate, update_status, modify, unit_answer, requeue_or_raise,
}
use cluster_api_provider_clo.Services.{cluster_ownership_tags}
use cluster_api_provider_clo.FloatingIp.Target.{list_control_plane_machines}
use cluster_api_provider_clo.LoadBalancer.Components.{or_return}
use cluster_api_provider_clo.LoadBalancer.Subnets.{
  get_pool_member_subnet_id, get_member_subnet_cidr, desired_members,
}
use cluster_api_provider_clo.Router.Status.{index_by}

-- desiredByName, as far as the loop asks it: whether a name is wanted.
unfoldable pub is_wanted : List LoadBalancerPoolMemberRequest → String → Bool
is_wanted [] name = false
is_wanted (d ∷ rest) name = if d.name == name then true else is_wanted rest name

-- slices.DeleteFunc(ids, func(id) { return id == uuid })
unfoldable pub without_id : String → List String → List String
without_id uuid [] = []
without_id uuid (id ∷ rest) =
    let later = without_id uuid rest in if id == uuid then later else id ∷ later

module _ {W : Type 0} (env : Env W) where
  abbrev pub update_member_ids : (List String → List String) → Scope W → Scope W
  update_member_ids f =
      update_status λ st. record st { load_balancer_member_ids = f st.load_balancer_member_ids }

  unfoldable pub get_desired_load_balancer_members :
      Reconcile W (List LoadBalancerPoolMemberRequest)
  unfolding get_pool_member_subnet_id get_member_subnet_cidr desired_members ◌>>=◌
  get_desired_load_balancer_members = do
    answer ← list_control_plane_machines env
    machines ← or_wrap "listing CloudscaleMachines" answer
    scope ← gets (λ s. s)
    subnet_id ← or_return (
        get_pool_member_subnet_id scope.cluster.spec.control_plane_load_balancer
          scope.cluster.status.networks)
    cidr ←
        or_wrap "resolving pool member subnet CIDR"
          (get_member_subnet_cidr scope.cluster.status.networks subnet_id)
    contains ← or_wrap ("parsing pool member subnet CIDR " <> quote cidr) (env.parse_cidr cidr)
    pure (
        desired_members contains subnet_id
          scope.cluster.spec.control_plane_load_balancer.api_server_port
          (cluster_ownership_tags scope.cluster) machines)

  unfoldable pub member_created : Answer LoadBalancerPoolMember → Reconcile W CtrlResult
  unfolding requeue_or_raise ◌>>=◌
  member_created (reply member) = do
    modify (update_member_ids (λ ids. ids ++ member.uuid ∷ []))
    pure no_requeue
  member_created (failure e) = requeue_or_raise 5 "creating load balancer member" e

  unfoldable pub create_load_balancer_member :
      LoadBalancerPoolMemberRequest → Reconcile W CtrlResult
  unfolding member_created ◌>>=◌
  create_load_balancer_member desired = do
    pool_id ← gets (λ s. s.cluster.status.load_balancer_pool_id)
    answer ←
        call (create_call (pool_member_request pool_id desired))
          (env.client.create_pool_member pool_id desired)
    member_created answer

  unfoldable pub update_load_balancer_member : String → String → Reconcile W (Unit {0})
  unfolding ◌>>=◌
  update_load_balancer_member uuid address = do
    pool_id ← gets (λ s. s.cluster.status.load_balancer_pool_id)
    error ←
        call (update_call Resource.pool_member uuid)
          (env.client.update_pool_member pool_id uuid address)
    or_wrap "updating load balancer member" (unit_answer error)

  unfoldable pub member_deleted : String → Option Error → Reconcile W (Unit {0})
  member_deleted uuid none = modify (update_member_ids (without_id uuid))
  member_deleted uuid (some e) = raise (wrap "deleting load balancer member" e)

  unfoldable pub delete_load_balancer_member : LoadBalancerPoolMember → Reconcile W (Unit {0})
  unfolding member_deleted without_id ◌>>=◌
  delete_load_balancer_member member = do
    pool_id ← gets (λ s. s.cluster.status.load_balancer_pool_id)
    error ←
        call (delete_call Resource.pool_member member.uuid)
          (env.client.delete_pool_member pool_id member.uuid)
    member_deleted member.uuid error

  -- One wanted member against the current one of its name.
  unfoldable pub add_or_update :
      LoadBalancerPoolMemberRequest → Option LoadBalancerPoolMember → Reconcile W CtrlResult
  unfolding create_load_balancer_member update_load_balancer_member annotate ◌>>=◌
  add_or_update desired none =
      annotate "failed to create load balancer member" (create_load_balancer_member desired)
  add_or_update desired (some current) =
      if current.address == desired.address
      then pure no_requeue
      else (annotate "failed to update load balancer member"
            (update_load_balancer_member current.uuid desired.address)
          >> pure no_requeue)

  unfoldable pub add_members :
      List LoadBalancerPoolMember → List LoadBalancerPoolMemberRequest → Reconcile W CtrlResult
  unfolding add_or_update index_by ◌>>=◌
  add_members current [] = pure no_requeue
  add_members current (d ∷ rest) = do
    result ← add_or_update d (index_by (λ (m : LoadBalancerPoolMember). m.name) current d.name)
    if is_zero result then add_members current rest else pure result

  unfoldable pub remove_members :
      List LoadBalancerPoolMemberRequest → List LoadBalancerPoolMember → Reconcile W CtrlResult
  unfolding delete_load_balancer_member is_wanted annotate ◌>>=◌
  remove_members desired [] = pure no_requeue
  remove_members desired (m ∷ rest) =
      (if is_wanted desired m.name
        then pure tt
        else annotate "failed to delete load balancer member" (delete_load_balancer_member m))
      >> remove_members desired rest

  unfoldable pub reconcile_lb_members : Reconcile W CtrlResult
  unfolding get_desired_load_balancer_members add_members remove_members annotate ◌>>=◌
  reconcile_lb_members = do
    pool_id ← gets (λ s. s.cluster.status.load_balancer_pool_id)
    answer ← call (list_call Resource.pool_member) (env.client.list_pool_members pool_id)
    current ← or_wrap "failed to get current load balancer members" answer
    desired ←
        annotate "failed to get desired load balancer members" get_desired_load_balancer_members
    result ← add_members current desired
    if is_zero result then remove_members desired current else pure result
