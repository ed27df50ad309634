-- ===== src/Router/Provision.antt =====
-- reconcileRouters, reconcileRouter, adoptRouter and ensureManagedRouter
-- (internal/controller/cloudscalecluster_router.go).
use cluster_api_provider_clo.Base.{
  String, not, ◌&&◌, ◌||◌, Option, none, some, List, [], ◌∷◌, ◌==◌, ltb, if◌then◌else◌, ◌<>◌,
  is_set,
}
use cluster_api_provider_clo.Errors.{plain, error_text, quote}
use cluster_api_provider_clo.Api.Conditions.{
  condition_true, condition_false, router_ready_condition,
}
use cluster_api_provider_clo.Api.Cluster.{RouterSpec, RouterStatus, get_router_status}
use cluster_api_provider_clo.Sdk.{
  TagMap, Router, RouterCreateRequest, Answer, reply, failure, Resource, router_request, get_call,
  create_call,
}
use cluster_api_provider_clo.Scope.{
  Scope, Env, Outcome, ok, err, panic, CtrlResult, no_requeue, requeue, is_zero, Reconcile, ◌>>=◌,
  ◌>>◌, pure, raise, gets, deferred, call, deref, or_wrap, annotate, modify, emit, set_condition,
  Flow, proceed, then_with, requeue_on_timeout,
}
use cluster_api_provider_clo.Services.{ensure_resource}
use cluster_api_provider_clo.Router.Interfaces.{reconcile_router_interfaces}
use cluster_api_provider_clo.Router.Status.{
  router_requeue_after, set_router_status, routers_of, put_routers, router_tags,
}

-- The lower delay of the results so far and of one more router; zero is no requeue.
unfoldable pub lower_result : CtrlResult → CtrlResult → CtrlResult
lower_result result res =
    if not (is_zero res) && (is_zero result || ltb res.requeue_after result.requeue_after)
    then res
    else result

module _ {W : Type 0} (env : Env W) where
  unfoldable pub adopt_router : RouterSpec → Reconcile W Router
  unfolding ◌>>=◌
  adopt_router router_spec = do
    answer ←
        call (get_call Resource.router router_spec.uuid) (env.client.routers.get router_spec.uuid)
    router ← or_wrap ("getting pre-existing router " <> router_spec.uuid) answer
    zone ← gets (λ s. s.cluster.spec.zone)
    if router.zone == zone
        then pure router
        else raise (
            plain (
              "pre-existing router "
              <> router_spec.uuid
              <> " is in zone "
              <> quote router.zone
              <> ", expected zone "
              <> quote zone))

  abbrev pub router_create_request : Scope W → RouterSpec → TagMap → RouterCreateRequest
  router_create_request s router_spec tags = record {
    name = router_spec.name;
    internet_gateway = router_spec.internet_gateway;
    zone = s.cluster.spec.zone;
    tags = tags;
  }

  unfoldable pub router_created : RouterSpec → Answer Router → Reconcile W (Flow (Option Router))
  unfolding requeue_on_timeout ◌>>=◌
  router_created router_spec (reply router) = do
    modify (
        emit "RouterCreated" (
          "Created router " <> router_spec.name <> " (" <> router.uuid <> ") in zone "
          <> router.zone))
    pure (proceed (some router))
  router_created router_spec (failure e) =
      requeue_on_timeout router_requeue_after "creating router" e

  unfoldable pub resolve_router :
      RouterSpec → TagMap → Option Router × String → Reconcile W (Flow (Option Router))
  unfolding router_created ◌>>=◌
  resolve_router router_spec tags (found, id) = if is_set id then pure (proceed found) else do
    req ← gets (λ s. router_create_request s router_spec tags)
    answer ← call (create_call (router_request req)) (env.client.create_router req)
    router_created router_spec answer

  abbrev pub router_id_of : Option RouterStatus → String
  router_id_of none = ""
  router_id_of (some rs) = rs.router_id

  unfoldable pub ensure_managed_router : RouterSpec → Reconcile W (Flow (Option Router))
  unfolding ensure_resource resolve_router annotate get_router_status router_tags ◌>>=◌
  ensure_managed_router router_spec = do
    rs ← gets (λ s. get_router_status (routers_of s) router_spec.name)
    tags ← gets (λ s. router_tags s router_spec.name)
    found ← annotate "ensuring router" (
        ensure_resource Resource.router (router_id_of rs) ("router/" <> router_spec.name)
          env.client.routers (λ router. router.uuid) tags)
    resolve_router router_spec tags found

  -- What reconcileRouter does with the router; its fields are read through a pointer.
  unfoldable pub reconcile_resolved : RouterSpec → Option Router → Reconcile W CtrlResult
  unfolding set_router_status reconcile_router_interfaces ◌>>=◌
  reconcile_resolved router_spec found = do
    router ← deref found
    modify λ s. put_routers (set_router_status router_spec router.uuid (routers_of s)) s
    if router.status == env.router_active
        then reconcile_router_interfaces env router_spec router
        else pure (requeue router_requeue_after)

  unfoldable pub reconcile_router : RouterSpec → Reconcile W CtrlResult
  unfolding adopt_router ensure_managed_router reconcile_resolved ◌>>=◌
  reconcile_router router_spec =
      if is_set router_spec.uuid
      then (adopt_router router_spec >>= λ router. reconcile_resolved router_spec (some router))
      else (ensure_managed_router router_spec >>= λ flow.
          then_with flow (reconcile_resolved router_spec))

  unfoldable pub reconcile_router_list : CtrlResult → List RouterSpec → Reconcile W CtrlResult
  unfolding reconcile_router lower_result annotate ◌>>=◌
  reconcile_router_list result [] = pure result
  reconcile_router_list result (router_spec ∷ rest) = do
    res ← annotate ("reconciling router " <> quote router_spec.name) (reconcile_router router_spec)
    reconcile_router_list (lower_result result res) rest

  -- The named result where the loop is left: an error returns no requeue with it, and a panic leaves
  -- what the loop has so far.
  unfoldable pub named_result : CtrlResult → List RouterSpec → Scope W → CtrlResult
  unfolding reconcile_router lower_result
  named_result result [] s = result
  named_result result (router_spec ∷ rest) s =
      let run = reconcile_router router_spec s in
      elim run.0 [
        | ok res ↦ named_result (lower_result result res) rest run.1
        | err e ↦ no_requeue
        | panic ↦ result
      ]

  unfoldable pub settled_condition : List RouterSpec → Scope W → Scope W
  unfolding set_condition
  settled_condition [] = set_condition env router_ready_condition condition_true "RouterDisabled" ""
  settled_condition (r ∷ rs) =
      set_condition env router_ready_condition condition_true "RouterProvisioned" ""

  unfoldable pub result_condition : CtrlResult → Scope W → Scope W
  unfolding set_condition settled_condition
  result_condition result s =
      if is_zero result
      then settled_condition s.cluster.spec.routers s
      else set_condition env router_ready_condition condition_false "RouterNotReady"
          "Waiting for routers to become available" s

  -- The deferred function, which reads the named results.
  unfoldable pub routers_condition : CtrlResult → Outcome CtrlResult → Scope W → Scope W
  unfolding set_condition result_condition error_text
  routers_condition result (err e) s =
      set_condition env router_ready_condition condition_false "RouterError" (error_text e) s
  routers_condition result (ok returned) s = result_condition returned s
  routers_condition result panic s = result_condition result s

  unfoldable pub reconcile_routers : Reconcile W CtrlResult
  unfolding reconcile_router_list routers_condition named_result
  reconcile_routers s =
      let routers = s.cluster.spec.routers in
      deferred (reconcile_router_list no_requeue routers)
        (routers_condition (named_result no_requeue routers s)) s
