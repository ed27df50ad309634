-- ===== src/Cluster/Readiness.antt =====
-- isInfrastructureProvisioned and setReadyCondition
-- (internal/controller/cloudscalecluster_controller.go).
use cluster_api_provider_clo.Base.{
  String, Bool, true, false, not, ◌&&◌, ◌||◌, Option, none, some, List, [], ◌∷◌, ◌==◌,
  if◌then◌else◌, ◌<>◌, is_set, is_some,
}
use cluster_api_provider_clo.Api.Conditions.{
  condition_true, condition_false, Condition, is_true, ready_condition, network_ready_condition,
  load_balancer_ready_condition, router_ready_condition, floating_ip_ready_condition,
}
use cluster_api_provider_clo.Api.Cluster.{
  RouterInterfaceSpec, RouterSpec, NetworkStatus, RouterInterfaceStatus, RouterStatus,
  CloudscaleCluster, get_interface_status, get_router_status,
}
use cluster_api_provider_clo.Scope.{Scope, Env, set_condition}
use cluster_api_provider_clo.FloatingIp.Target.{lb_enabled}

unfoldable pub networks_provisioned : List NetworkStatus → Bool
networks_provisioned [] = true
networks_provisioned (ns ∷ rest) =
    if (ns.network_id == "") || (ns.subnet_id == "") then false else networks_provisioned rest

-- Whether an interface is in the status with its ID.
unfoldable pub attached : Option RouterInterfaceStatus → Bool
attached none = false
attached (some iface) = is_set iface.interface_id

unfoldable pub interfaces_provisioned : List RouterInterfaceStatus → List RouterInterfaceSpec → Bool
unfolding attached get_interface_status
interfaces_provisioned statuses [] = true
interfaces_provisioned statuses (i ∷ rest) =
    if attached (get_interface_status statuses i.network)
    then interfaces_provisioned statuses rest
    else false

unfoldable pub router_provisioned : RouterSpec → Option RouterStatus → Bool
unfolding interfaces_provisioned
router_provisioned spec none = false
router_provisioned spec (some rs) =
    if rs.router_id == "" then false else interfaces_provisioned rs.interfaces spec.interfaces

unfoldable pub routers_provisioned : List RouterStatus → List RouterSpec → Bool
unfolding router_provisioned get_router_status
routers_provisioned statuses [] = true
routers_provisioned statuses (spec ∷ rest) =
    if router_provisioned spec (get_router_status statuses spec.name)
    then routers_provisioned statuses rest
    else false

unfoldable pub is_empty_list {ℓ} : {A : Type ℓ} → List A → Bool
is_empty_list [] = true
is_empty_list (x ∷ xs) = false

unfoldable pub is_infrastructure_provisioned : CloudscaleCluster → Bool
unfolding networks_provisioned routers_provisioned is_empty_list lb_enabled
is_infrastructure_provisioned c =
    if is_empty_list c.status.networks
    then false
    else if not (networks_provisioned c.status.networks)
    then false
    else if not (routers_provisioned c.status.routers c.spec.routers)
    then false
    else if lb_enabled c.spec
        && ((c.status.load_balancer_id == "")
            || (c.status.load_balancer_pool_id == "")
            || (c.status.load_balancer_listener_id == ""))
    then false
    else if is_some c.spec.floating_ip && (c.status.floating_ip == "")
    then false
    else if c.spec.control_plane_endpoint.host == ""
    then false
    else true

abbrev pub sub_conditions : List String
sub_conditions =
    network_ready_condition ∷ router_ready_condition ∷ load_balancer_ready_condition
    ∷ floating_ip_ready_condition ∷ []

module _ {W : Type 0} (env : Env W) where
  -- The Ready condition that a failing sub-condition gives.
  unfoldable pub not_ready : String → Option Condition → Scope W → Scope W
  unfolding set_condition
  not_ready type none =
      set_condition env ready_condition condition_false "NotReady" ("Waiting for " <> type)
  not_ready type (some c) = set_condition env ready_condition condition_false c.reason c.message

  unfoldable pub ready_from : List String → Scope W → Scope W
  unfolding not_ready set_condition
  ready_from [] s = set_condition env ready_condition condition_true "Ready" "" s
  ready_from (type ∷ rest) s =
      let later = ready_from rest s in
      let conditions = s.cluster.status.conditions in
      if is_true env.conditions conditions type
      then later
      else not_ready type (env.conditions.get conditions type) s

  unfoldable pub set_ready_condition : Scope W → Scope W
  unfolding ready_from
  set_ready_condition = ready_from sub_conditions
