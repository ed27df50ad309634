-- ===== src/Webhook/LoadBalancers.antt =====
-- The rules for the load balancer (internal/webhook/v1beta2/cloudscalecluster_webhook.go).
use cluster_api_provider_clo.Base.{
  ℕ, String, Bool, true, not, ◌||◌, List, [], ◌++◌, ◌==◌, eqb, length, ltb, is_set, deref_or,
  if◌then◌else◌,
}
use cluster_api_provider_clo.Api.Cluster.{LoadBalancerSpec, CloudscaleClusterSpec}
use cluster_api_provider_clo.Webhook.Field.{
  FieldPath, child, FieldError, forbidden, required, report,
}
use cluster_api_provider_clo.Webhook.Networks.{immutable_text, validate_network_reference}

-- ptr.Deref(spec.ControlPlaneLoadBalancer.Enabled, true)
abbrev pub is_enabled : LoadBalancerSpec → Bool
is_enabled lb = deref_or lb.enabled true

-- forbidIfChanged for texts, and hmForbid for numbers.
abbrev pub forbid_if_changed : FieldPath → String → String → List FieldError
forbid_if_changed path old new = report (not (old == new)) (forbidden path immutable_text)

abbrev pub forbid_if_moved : FieldPath → ℕ → ℕ → List FieldError
forbid_if_moved path old new = report (not (eqb old new)) (forbidden path immutable_text)

unfoldable pub validate_lb_immutability :
    LoadBalancerSpec → LoadBalancerSpec → FieldPath → List FieldError
validate_lb_immutability old new path =
    let hm = child path "healthMonitor" in
    forbid_if_changed (child path "algorithm") old.algorithm new.algorithm
    ++ forbid_if_changed (child path "flavor") old.flavor new.flavor
    ++ forbid_if_moved (child path "apiServerPort") old.api_server_port new.api_server_port
    ++ forbid_if_changed (child path "poolMemberNetwork") old.pool_member_network
        new.pool_member_network
    ++ forbid_if_moved (child hm "delayS") old.health_monitor.delay_s new.health_monitor.delay_s
    ++ forbid_if_moved (child hm "timeoutS") old.health_monitor.timeout_s
        new.health_monitor.timeout_s
    ++ forbid_if_moved (child hm "upThreshold") old.health_monitor.up_threshold
        new.health_monitor.up_threshold
    ++ forbid_if_moved (child hm "downThreshold") old.health_monitor.down_threshold
        new.health_monitor.down_threshold

-- The references of the load balancer to networks, where they are set.
unfoldable pub validate_lb_references : CloudscaleClusterSpec → FieldPath → List FieldError
unfolding validate_network_reference
validate_lb_references spec path =
    let lb = spec.control_plane_load_balancer in
    (if is_set lb.network
      then validate_network_reference lb.network spec.networks
          (child (child path "controlPlaneLoadBalancer") "network")
      else [])
    ++ (if is_set lb.pool_member_network
        then validate_network_reference lb.pool_member_network spec.networks
            (child (child path "controlPlaneLoadBalancer") "poolMemberNetwork")
        else [])

unfoldable pub validate_lb_pool_member_network_resolvable :
    CloudscaleClusterSpec → FieldPath → List FieldError
validate_lb_pool_member_network_resolvable spec path =
    let lb = spec.control_plane_load_balancer in
    if not (is_enabled lb)
    then []
    else if is_set lb.network || is_set lb.pool_member_network
    then []
    else report (ltb 1 (length spec.networks)) (
        required (child path "controlPlaneLoadBalancer")
          "controlPlaneLoadBalancer.network or controlPlaneLoadBalancer.poolMemberNetwork must be set to one of spec.networks[].name when multiple networks are defined; the load balancer pool members need an explicit subnet to attach to")
