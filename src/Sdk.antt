-- ===== src/Sdk.antt =====
-- What the controllers use of the cloudscale.ch SDK and of the Kubernetes client: the resources with
-- the fields that they read, the requests that they send, and the services, which are parameters. A
-- service answers from a world of its own and leaves the next one, so an answer may be anything.
mod Servers
pub use Servers.*
use cluster_api_provider_clo.Base.{ℕ, String, Bool, Option, List}
use cluster_api_provider_clo.Errors.{Error}
use cluster_api_provider_clo.Api.Machine.{CloudscaleMachine}

pub record SubnetStub : Type 0 where
  pub uuid : String
  pub cidr : String

-- `zone` is Zone.Slug, here and below.
pub record Network : Type 0 where
  pub uuid : String
  pub zone : String
  pub subnets : List SubnetStub
  pub mtu : ℕ

pub record Subnet : Type 0 where
  pub uuid : String

-- `subnet` is Subnet.UUID.
pub record InterfaceAddress : Type 0 where
  pub subnet : String
  pub address : String

-- `network` is Network.UUID.
pub record RouterInterface : Type 0 where
  pub uuid : String
  pub network : String
  pub addresses : List InterfaceAddress

pub record Router : Type 0 where
  pub uuid : String
  pub zone : String
  pub status : String
  pub interfaces : List RouterInterface

-- `ip` is the answer of IP(); the others are Region.Slug, LoadBalancer.UUID and Server.UUID.
pub record FloatingIp : Type 0 where
  pub ip : String
  pub region : Option String
  pub load_balancer : Option String
  pub server : Option String

-- `vip_addresses` are the Address fields of VIPAddresses.
pub record LoadBalancer : Type 0 where
  pub uuid : String
  pub status : String
  pub vip_addresses : List String

pub record LoadBalancerPool : Type 0 where
  pub uuid : String

pub record LoadBalancerListener : Type 0 where
  pub uuid : String

pub record LoadBalancerHealthMonitor : Type 0 where
  pub uuid : String

pub record LoadBalancerPoolMember : Type 0 where
  pub uuid : String
  pub name : String
  pub address : String
  pub protocol_port : ℕ
  pub monitor_status : String

pub record NetworkCreateRequest : Type 0 where
  pub name : String
  pub auto_create_ipv4_subnet : Bool
  pub zone : String
  pub mtu : Option ℕ
  pub tags : TagMap

pub record SubnetCreateRequest : Type 0 where
  pub network : String
  pub cidr : String
  pub gateway_address : String
  pub tags : TagMap

pub record RouterCreateRequest : Type 0 where
  pub name : String
  pub internet_gateway : Bool
  pub zone : String
  pub tags : TagMap

pub record CreateInterfaceRequest : Type 0 where
  pub network : String
  pub addresses : List InterfaceAddress

-- An empty `load_balancer` or `server` is a field that the request leaves out.
pub record FloatingIpCreateRequest : Type 0 where
  pub ip_version : ℕ
  pub region : String
  pub load_balancer : String
  pub server : String
  pub tags : TagMap

pub record FloatingIpUpdateRequest : Type 0 where
  pub load_balancer : String
  pub server : String

pub record LoadBalancerRequest : Type 0 where
  pub name : String
  pub flavor : String
  pub zone : String
  pub vip_subnet : Option String
  pub tags : TagMap

pub record LoadBalancerPoolRequest : Type 0 where
  pub name : String
  pub load_balancer : String
  pub algorithm : String
  pub protocol : String
  pub tags : TagMap

pub record LoadBalancerListenerRequest : Type 0 where
  pub name : String
  pub pool : String
  pub protocol : String
  pub protocol_port : ℕ
  pub tags : TagMap

pub record LoadBalancerHealthMonitorRequest : Type 0 where
  pub pool : String
  pub type : String
  pub delay_s : ℕ
  pub timeout_s : ℕ
  pub up_threshold : ℕ
  pub down_threshold : ℕ
  pub tags : TagMap

pub record LoadBalancerPoolMemberRequest : Type 0 where
  pub name : String
  pub subnet : String
  pub protocol_port : ℕ
  pub address : String
  pub tags : TagMap

-- What a call that returns a value and an error returns.
pub data Answer (A : Type 0) : Type 0 where
  reply : A → Answer A
  failure : Error → Answer A

-- getListService[T] of internal/controller/cloudscale_services.go
pub record GetListService (W T : Type 0) : Type 0 where
  pub get : String → W → Answer T × W
  pub list : TagMap → W → Answer (List T) × W

-- The services of cloudscale.Client that the controllers call, and the machines that the Kubernetes
-- client lists: in a namespace, of a cluster, and of its control plane only if the flag is set. Of a
-- secret, by its namespace and name, the client reads the value under the key "value", if it is there.
pub record Client (W : Type 0) : Type 0 where
  pub networks : GetListService W Network
  pub create_network : NetworkCreateRequest → W → Answer Network × W
  pub delete_network : String → W → Option Error × W
  pub subnets : GetListService W Subnet
  pub create_subnet : SubnetCreateRequest → W → Answer Subnet × W
  pub routers : GetListService W Router
  pub create_router : RouterCreateRequest → W → Answer Router × W
  pub delete_router : String → W → Option Error × W
  pub create_interface : String → CreateInterfaceRequest → W → Answer RouterInterface × W
  pub delete_interface : String → String → W → Option Error × W
  pub floating_ips : GetListService W FloatingIp
  pub create_floating_ip : FloatingIpCreateRequest → W → Answer FloatingIp × W
  pub update_floating_ip : String → FloatingIpUpdateRequest → W → Option Error × W
  pub delete_floating_ip : String → W → Option Error × W
  pub server_groups : GetListService W ServerGroup
  pub delete_server_group : String → W → Option Error × W
  pub load_balancers : GetListService W LoadBalancer
  pub create_load_balancer : LoadBalancerRequest → W → Answer LoadBalancer × W
  pub delete_load_balancer : String → W → Option Error × W
  pub load_balancer_pools : GetListService W LoadBalancerPool
  pub create_pool : LoadBalancerPoolRequest → W → Answer LoadBalancerPool × W
  pub load_balancer_listeners : GetListService W LoadBalancerListener
  pub create_listener : LoadBalancerListenerRequest → W → Answer LoadBalancerListener × W
  pub load_balancer_health_monitors : GetListService W LoadBalancerHealthMonitor
  pub create_health_monitor :
      LoadBalancerHealthMonitorRequest → W → Answer LoadBalancerHealthMonitor × W
  pub list_pool_members : String → W → Answer (List LoadBalancerPoolMember) × W
  pub create_pool_member :
      String → LoadBalancerPoolMemberRequest → W → Answer LoadBalancerPoolMember × W
  pub update_pool_member : String → String → String → W → Option Error × W
  pub delete_pool_member : String → String → W → Option Error × W
  pub servers : GetListService W Server
  pub create_server : ServerRequest → W → Answer Server × W
  pub delete_server : String → W → Option Error × W
  pub create_server_group : ServerGroupRequest → W → Answer ServerGroup × W
  pub get_secret : String → String → W → Answer (Option String) × W
  pub list_machines : String → String → Bool → W → Answer (List CloudscaleMachine) × W

-- The calls, as they are recorded.
pub data Resource : Type 0 where
  network subnet router router_interface floating_ip server_group load_balancer : Resource
  pool listener health_monitor pool_member machine server secret : Resource

pub data Request : Type 0 where
  network_request : NetworkCreateRequest → Request
  subnet_request : SubnetCreateRequest → Request
  router_request : RouterCreateRequest → Request
  interface_request : String → CreateInterfaceRequest → Request
  floating_ip_request : FloatingIpCreateRequest → Request
  load_balancer_request : LoadBalancerRequest → Request
  pool_request : LoadBalancerPoolRequest → Request
  listener_request : LoadBalancerListenerRequest → Request
  health_monitor_request : LoadBalancerHealthMonitorRequest → Request
  pool_member_request : String → LoadBalancerPoolMemberRequest → Request
  server_request : ServerRequest → Request
  server_group_request : ServerGroupRequest → Request

pub data Call : Type 0 where
  get_call : Resource → String → Call
  list_call : Resource → Call
  create_call : Request → Call
  update_call : Resource → String → Call
  delete_call : Resource → String → Call
  delete_interface_call : (router_id interface_id : String) → Call
