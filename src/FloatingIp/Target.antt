-- ===== src/FloatingIp/Target.antt =====
-- The target of the floating IP and its assignment
-- (internal/controller/cloudscalecluster_floatingip.go).
use cluster_api_provider_clo.Base.{
  String, Bool, true, not, ◌&&◌, Option, none, some, List, [], ◌∷◌, ◌==◌, if◌then◌else◌, ◌<>◌,
  is_set, deref_or,
}
use cluster_api_provider_clo.Errors.{Error, plain, wrap, is_floating_ip_no_public_interface}
use cluster_api_provider_clo.Api.Cluster.{CloudscaleClusterSpec}
use cluster_api_provider_clo.Api.Machine.{CloudscaleMachine}
use cluster_api_provider_clo.Sdk.{
  FloatingIp, FloatingIpUpdateRequest, Answer, Resource, list_call, update_call,
}
use cluster_api_provider_clo.Scope.{
  Env, Outcome, ok, err, panic, Reconcile, ◌>>=◌, pure, raise, gets, call, or_wrap, modify, emit,
}

pub record FloatingIpTarget : Type 0 where
  pub lb_uuid : String
  pub server_uuid : String

abbrev pub no_target : FloatingIpTarget
no_target = record { lb_uuid = ""; server_uuid = "" }

-- (t floatingIPTarget) String()
unfoldable pub target_text : FloatingIpTarget → String
target_text t = if is_set t.lb_uuid then "lb:" <> t.lb_uuid else "server:" <> t.server_uuid

unfoldable pub lb_enabled : CloudscaleClusterSpec → Bool
lb_enabled spec = deref_or spec.control_plane_load_balancer.enabled true

-- The first machine with a server.
unfoldable pub first_server : List CloudscaleMachine → Option String
first_server [] = none
first_server (m ∷ rest) =
    if is_set m.status.server_id then some m.status.server_id else first_server rest

-- Whether the floating IP is on another load balancer, or server, than the target, or on none.
unfoldable pub differs : Option String → String → Bool
differs none target = true
differs (some uuid) target = not (uuid == target)

-- What ensureFloatingIPAssignment asks for, if it has to ask.
unfoldable pub update_request : FloatingIpTarget → FloatingIp → Option FloatingIpUpdateRequest
unfolding differs
update_request target fip =
    if is_set target.lb_uuid && differs fip.load_balancer target.lb_uuid
    then some (record { load_balancer = target.lb_uuid; server = "" })
    else if is_set target.server_uuid && differs fip.server target.server_uuid
    then some (record { load_balancer = ""; server = target.server_uuid })
    else none

module _ {W : Type 0} (env : Env W) where
  -- List with MatchingLabels: the control plane machines of the cluster.
  abbrev pub list_control_plane_machines : Reconcile W (Answer (List CloudscaleMachine))
  list_control_plane_machines s =
      call (list_call Resource.machine)
        (env.client.list_machines s.cluster.namespace s.owner.name true) s

  unfoldable pub server_target : Option String → Reconcile W FloatingIpTarget
  server_target (some id) = pure (record { lb_uuid = ""; server_uuid = id })
  server_target none = raise (plain "waiting for a control plane server to be provisioned")

  unfoldable pub find_server_target : Reconcile W FloatingIpTarget
  unfolding server_target first_server ◌>>=◌
  find_server_target = do
    answer ← list_control_plane_machines
    machines ← or_wrap "listing CP machines" answer
    server_target (first_server machines)

  unfoldable pub load_balancer_target : String → Reconcile W FloatingIpTarget
  load_balancer_target lb_id =
      if lb_id == ""
      then raise (plain "waiting for load balancer to be provisioned")
      else pure (record { lb_uuid = lb_id; server_uuid = "" })

  unfoldable pub get_floating_ip_target : Reconcile W FloatingIpTarget
  unfolding find_server_target load_balancer_target lb_enabled ◌>>=◌
  get_floating_ip_target = do
    cluster ← gets (λ s. s.cluster)
    if lb_enabled cluster.spec
        then load_balancer_target cluster.status.load_balancer_id
        else find_server_target

  -- A call whose error the caller looks at instead of returning it.
  unfoldable pub attempt_target : Reconcile W (Outcome FloatingIpTarget)
  unfolding get_floating_ip_target
  attempt_target s = let (r, s') = get_floating_ip_target s in (ok r, s')

  unfoldable pub updated : FloatingIpTarget → Option Error → Reconcile W (Unit {0})
  unfolding is_floating_ip_no_public_interface target_text
  updated target none = modify λ s.
      emit "FloatingIPReassigned"
        ("Reassigned floating IP " <> s.cluster.status.floating_ip <> " to " <> target_text target)
        s
  updated target (some e) =
      if is_floating_ip_no_public_interface e
      then raise (
          plain
            "floating IP cannot be assigned to control plane server: server must have a public interface when the load balancer is disabled; add {type: public} to the control-plane machine template interfaces")
      else raise (wrap "updating floating IP assignment" e)

  unfoldable pub send_update :
      FloatingIpTarget → Option FloatingIpUpdateRequest → Reconcile W (Unit {0})
  unfolding updated ◌>>=◌
  send_update target none = pure tt
  send_update target (some req) = do
    floating_ip ← gets (λ s. s.cluster.status.floating_ip)
    error ←
        call (update_call Resource.floating_ip floating_ip)
          (env.client.update_floating_ip floating_ip req)
    updated target error

  unfoldable pub assign_target : FloatingIp → Outcome FloatingIpTarget → Reconcile W (Unit {0})
  unfolding send_update update_request
  assign_target fip (ok target) = send_update target (update_request target fip)
  assign_target fip (err e) = pure tt
  assign_target fip panic = λ s. (panic, s)

  unfoldable pub ensure_floating_ip_assignment : FloatingIp → Reconcile W (Unit {0})
  unfolding attempt_target assign_target ◌>>=◌
  ensure_floating_ip_assignment fip = do target ← attempt_target; assign_target fip target
