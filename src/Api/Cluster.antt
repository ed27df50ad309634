-- ===== src/Api/Cluster.antt =====
-- CloudscaleCluster (api/v1beta2/cloudscalecluster_types.go). A Go pointer that may be nil is an
-- Option; an int with a minimum in its CRD marker is a natural number.
use cluster_api_provider_clo.Base.{
  ℕ, String, Bool, Option, none, some, List, [], ◌∷◌, ◌==◌, if◌then◌else◌, ◌<>◌,
}
use cluster_api_provider_clo.Api.Conditions.{Condition}

abbrev pub cluster_finalizer : String
cluster_finalizer = "cloudscalecluster.infrastructure.cluster.x-k8s.io"

-- IPFamily is a string type with these constants.
abbrev pub ip_family_ipv4 : String
ip_family_ipv4 = "IPv4"

abbrev pub ip_family_ipv6 : String
ip_family_ipv6 = "IPv6"

abbrev pub ip_family_dual_stack : String
ip_family_dual_stack = "DualStack"

pub record NetworkSpec : Type 0 where
  pub name : String
  pub uuid : String
  pub cidr : String
  pub mtu : ℕ
  pub gateway_address : String

pub record RouterInterfaceSpec : Type 0 where
  pub network : String
  pub uuid : String
  pub address : String

pub record RouterSpec : Type 0 where
  pub name : String
  pub uuid : String
  pub internet_gateway : Bool
  pub interfaces : List RouterInterfaceSpec

pub record HealthMonitorSpec : Type 0 where
  pub delay_s : ℕ
  pub timeout_s : ℕ
  pub up_threshold : ℕ
  pub down_threshold : ℕ

pub record LoadBalancerSpec : Type 0 where
  pub enabled : Option Bool
  pub algorithm : String
  pub flavor : String
  pub api_server_port : ℕ
  pub network : String
  pub pool_member_network : String
  pub health_monitor : HealthMonitorSpec

pub record FloatingIpSpec : Type 0 where
  pub ip_family : Option String
  pub address : String

-- clusterv1.APIEndpoint
pub record ApiEndpoint : Type 0 where
  pub host : String
  pub port : ℕ

pub record CredentialsReference : Type 0 where
  pub name : String
  pub namespace : String

pub record CloudscaleClusterSpec : Type 0 where
  pub region : String
  pub zone : String
  pub credentials_ref : CredentialsReference
  pub control_plane_endpoint : ApiEndpoint
  pub networks : List NetworkSpec
  pub routers : List RouterSpec
  pub control_plane_load_balancer : LoadBalancerSpec
  pub floating_ip : Option FloatingIpSpec

pub record NetworkStatus : Type 0 where
  pub name : String
  pub network_id : String
  pub subnet_id : String
  pub cidr : String
  pub mtu : ℕ
  pub managed : Bool
  pub gateway_address : String

pub record RouterInterfaceStatus : Type 0 where
  pub network : String
  pub interface_id : String
  pub managed : Bool

pub record RouterStatus : Type 0 where
  pub name : String
  pub router_id : String
  pub interfaces : List RouterInterfaceStatus
  pub managed : Bool

pub record ClusterInitializationStatus : Type 0 where
  pub provisioned : Option Bool

pub record CloudscaleClusterStatus : Type 0 where
  pub initialization : Option ClusterInitializationStatus
  pub networks : List NetworkStatus
  pub routers : List RouterStatus
  pub floating_ip : String
  pub load_balancer_id : String
  pub load_balancer_pool_id : String
  pub load_balancer_listener_id : String
  pub load_balancer_health_monitor_id : String
  pub load_balancer_member_ids : List String
  pub conditions : List Condition

-- The object, with the parts of its metadata that the controller reads or writes; `deleted` tells
-- whether the deletion timestamp is set.
pub record CloudscaleCluster : Type 0 where
  pub name : String
  pub namespace : String
  pub finalizers : List String
  pub deleted : Bool
  pub spec : CloudscaleClusterSpec
  pub status : CloudscaleClusterStatus

-- (rs *RouterStatus) GetInterfaceStatus, over rs.Interfaces
unfoldable pub get_interface_status :
    List RouterInterfaceStatus → String → Option RouterInterfaceStatus
get_interface_status [] network = none
get_interface_status (i ∷ is) network =
    if i.network == network then some i else get_interface_status is network

-- (s *CloudscaleClusterStatus) GetNetworkStatus, over s.Networks
unfoldable pub get_network_status : List NetworkStatus → String → Option NetworkStatus
get_network_status [] name = none
get_network_status (n ∷ ns) name = if n.name == name then some n else get_network_status ns name

-- (s *CloudscaleClusterStatus) GetRouterStatus, over s.Routers
unfoldable pub get_router_status : List RouterStatus → String → Option RouterStatus
get_router_status [] name = none
get_router_status (r ∷ rs) name = if r.name == name then some r else get_router_status rs name

-- NameCloudscaleProviderPrefix and NameCloudscaleProviderOwned (api/v1beta2/tags.go)
abbrev pub name_cloudscale_provider_prefix : String
name_cloudscale_provider_prefix = "capcs-"

abbrev pub name_cloudscale_provider_owned : String
name_cloudscale_provider_owned = "capcs-cluster-"

unfoldable pub cluster_tag_key : CloudscaleCluster → String
cluster_tag_key c = name_cloudscale_provider_owned <> c.name

-- CredentialsSecretRef: the namespace and the name of the secret
unfoldable pub credentials_secret_ref : CloudscaleCluster → CredentialsReference
credentials_secret_ref c = record {
  name = c.spec.credentials_ref.name;
  namespace =
      if c.spec.credentials_ref.namespace == ""
      then c.namespace
      else c.spec.credentials_ref.namespace;
}
