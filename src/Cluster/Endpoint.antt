-- ===== src/Cluster/Endpoint.antt =====
-- reconcileControlPlaneEndpoint (internal/controller/cloudscalecluster_controller.go).
use cluster_api_provider_clo.Base.{
  ℕ, String, Option, none, some, ◌==◌, if◌then◌else◌, ◌<>◌, decimal, is_set, is_some,
}
use cluster_api_provider_clo.Api.Cluster.{CloudscaleCluster}
use cluster_api_provider_clo.Scope.{Scope, update_cluster, emit}
use cluster_api_provider_clo.FloatingIp.Target.{lb_enabled}

-- The host and its source, or nothing where the user has to provide the endpoint.
unfoldable pub endpoint_source : CloudscaleCluster → String → Option (String × String)
unfolding lb_enabled
endpoint_source cluster lb_ip_address =
    if is_some cluster.spec.floating_ip
    then some (cluster.status.floating_ip, "floating IP")
    else if lb_enabled cluster.spec
    then some (lb_ip_address, "load balancer")
    else none

module _ {W : Type 0} where
  abbrev pub put_endpoint : String → ℕ → Scope W → Scope W
  put_endpoint host port = update_cluster λ c. record c {
    spec = record c.spec { control_plane_endpoint = record { host = host; port = port } };
  }

  unfoldable pub set_endpoint : Option (String × String) → Scope W → Scope W
  set_endpoint none s = s
  set_endpoint (some (host, source)) s =
      let port = s.cluster.spec.control_plane_load_balancer.api_server_port in
      if host == ""
      then s
      else emit "ControlPlaneSet"
          ("Control plane endpoint set to " <> host <> ":" <> decimal port <> " (" <> source <> ")")
          (put_endpoint host port s)

  unfoldable pub reconcile_control_plane_endpoint : String → Scope W → Scope W
  unfolding set_endpoint endpoint_source
  reconcile_control_plane_endpoint lb_ip_address s =
      if is_set s.cluster.spec.control_plane_endpoint.host
      then s
      else set_endpoint (endpoint_source s.cluster lb_ip_address) s
