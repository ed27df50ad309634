-- ===== src/Cluster/Endpoints.antt =====
-- What reconcileControlPlaneEndpoint does to the spec.
use cluster_api_provider_clo.Base.{
  String, Option, none, some, ◌≡◌, true, arith, eq_iff, if◌then◌else◌, is_set, is_some,
}
use cluster_api_provider_clo.Api.Cluster.{ApiEndpoint, CloudscaleCluster}
use cluster_api_provider_clo.Scope.{Scope}
use cluster_api_provider_clo.Cluster.Endpoint.{
  endpoint_source, set_endpoint, reconcile_control_plane_endpoint,
}
use cluster_api_provider_clo.FloatingIp.Target.{lb_enabled}

-- The endpoint that the controller would set: the floating IP's address where the spec has one, else
-- the load balancer's address where that is enabled.
abbrev pub expected_host : CloudscaleCluster → String → String
expected_host c lb_ip_address =
    if is_some c.spec.floating_ip
    then c.status.floating_ip
    else if lb_enabled c.spec
    then lb_ip_address
    else ""

abbrev pub endpoint_of : {W : Type 0} → Scope W → ApiEndpoint
endpoint_of s = s.cluster.spec.control_plane_endpoint

module _ {W : Type 0} where
  endpoint_source-host :
      (c : CloudscaleCluster) (lb_ip_address : String) (s : Scope W)
      → (endpoint_of s).host ≡ ""
      → (endpoint_of (set_endpoint (endpoint_source c lb_ip_address) s)).host
        ≡ expected_host c lb_ip_address
  unfolding endpoint_source set_endpoint
  endpoint_source-host c lb_ip_address s h =
      ground (arith, eq_iff (expected_host c lb_ip_address) "")

  -- An endpoint whose host is set stays; another one gets the floating IP's address, or without a
  -- floating IP the load balancer's where that is enabled, and stays without a host else.
  pub reconcile_control_plane_endpoint-host :
      (lb_ip_address : String) (s : Scope W)
      → (endpoint_of (reconcile_control_plane_endpoint lb_ip_address s)).host ≡ (
          if is_set (endpoint_of s).host
          then (endpoint_of s).host
          else expected_host s.cluster lb_ip_address)
  unfolding reconcile_control_plane_endpoint
  reconcile_control_plane_endpoint-host lb_ip_address s =
      ground (arith, eq_iff (endpoint_of s).host "", endpoint_source-host s.cluster lb_ip_address s)

  set_endpoint-whole :
      (o : Option (String × String)) (s : Scope W)
      → (endpoint_of s).host ≡ ""
      → is_set (endpoint_of (set_endpoint o s)).host ≡ true
      → endpoint_of (set_endpoint o s) ≡ record {
        host = (endpoint_of (set_endpoint o s)).host;
        port = s.cluster.spec.control_plane_load_balancer.api_server_port;
      }
  unfolding set_endpoint
  set_endpoint-whole none s e h = ground (arith, eq_iff (endpoint_of s).host "")
  set_endpoint-whole (some (host, source)) s e h =
      ground (arith, eq_iff host "", eq_iff (endpoint_of s).host "")

  -- Where the host was empty and is set afterwards, the endpoint is the expected host (the floating
  -- IP's address, or without a floating IP the load balancer's) with the port of the API server, and a
  -- second run, with whatever address, changes nothing.
  pub reconcile_control_plane_endpoint-settled :
      (first second : String) (s : Scope W)
      → (endpoint_of s).host ≡ ""
      → is_set (endpoint_of (reconcile_control_plane_endpoint first s)).host ≡ true
      → (endpoint_of (reconcile_control_plane_endpoint first s) ≡ record {
        host = expected_host s.cluster first;
        port = s.cluster.spec.control_plane_load_balancer.api_server_port;
      })
        × (reconcile_control_plane_endpoint second (reconcile_control_plane_endpoint first s)
            ≡ reconcile_control_plane_endpoint first s)
  unfolding reconcile_control_plane_endpoint
  reconcile_control_plane_endpoint-settled first second s e h = (
    ground (
      arith,
      eq_iff (endpoint_of s).host "",
      endpoint_source-host s.cluster first s e,
      set_endpoint-whole (endpoint_source s.cluster first) s e,
    ),
    ground arith,
  )
