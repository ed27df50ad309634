-- ===== src/Examples/World.antt =====
-- Packages that answer every call in the same way, and a cluster for them.
use cluster_api_provider_clo.Base.{
  String, ◌≡◌, refl, Bool, true, false, ◌||◌, Option, none, some, List, [], ◌∷◌, arith, ◌==◌,
  eq_iff, if◌then◌else◌,
}
use cluster_api_provider_clo.Errors.{Error, response, url_error}
use cluster_api_provider_clo.Api.Conditions.{Condition, ConditionsPackage, ConditionsLaws}
use cluster_api_provider_clo.Api.Cluster.{
  cluster_finalizer, NetworkSpec, RouterSpec, CloudscaleClusterSpec, NetworkStatus, RouterStatus,
  CloudscaleClusterStatus,
}
use cluster_api_provider_clo.Sdk.{
  Network, Router, FloatingIp, LoadBalancer, Server, ServerGroup, reply, failure, GetListService,
  Client,
}
use cluster_api_provider_clo.Scope.{Scope, Env}
use cluster_api_provider_clo.Network.Written.{ReturnsIds}

abbrev find_condition : List Condition → String → Option Condition
find_condition [] t = none
find_condition (c ∷ cs) t = if c.type == t then some c else find_condition cs t

abbrev drop_condition : List Condition → String → List Condition
drop_condition [] d = []
drop_condition (c ∷ cs) d = let rest = drop_condition cs d in if c.type == d then rest else c ∷ rest

abbrev pub conditions_package : ConditionsPackage
conditions_package = record { set = λ c cs. c ∷ cs; get = find_condition; delete = drop_condition }

find-drop :
    (cs : List Condition) (d t : String)
    → find_condition (drop_condition cs d) t ≡ (if d == t then none else find_condition cs t)
find-drop [] d t = ground arith
find-drop (c ∷ cs) d t =
    ground (arith, find-drop cs d t, eq_iff c.type d, eq_iff c.type t, eq_iff d t)

pub package_laws : ConditionsLaws conditions_package
package_laws = record { get-set = λ c cs t. refl; get-delete = find-drop }

abbrev pub lan : Network
lan = record {
  uuid = "n-1";
  zone = "rma1";
  subnets = record { uuid = "s-1"; cidr = "10.0.0.0/24" } ∷ [];
  mtu = 9000;
}

abbrev pub gateway : Router
gateway = record {
  uuid = "r-1";
  zone = "rma1";
  status = "active";
  interfaces = record { uuid = "i-1"; network = "n-1"; addresses = [] } ∷ [];
}

abbrev pub public_ip : FloatingIp
public_ip = record { ip = "192.0.2.1"; region = some "rma"; load_balancer = none; server = none }

abbrev pub balancer : LoadBalancer
balancer = record { uuid = "lb-1"; status = "running"; vip_addresses = "10.0.0.2" ∷ [] }

abbrev pub group : ServerGroup
group = record { uuid = "g-1"; name = "g"; zone = "rma1"; servers = [] }

abbrev pub node : Server
node = record {
  uuid = "srv-1";
  status = "running";
  interfaces = record { type = "public"; addresses = "192.0.2.7" ∷ [] } ∷ [];
}

abbrev missing : Error
missing = response 404 "not found"

-- A service whose listings are empty, and that has one resource.
abbrev pub one_service : {T : Type 0} → T → GetListService (Unit {0}) T
one_service t = record { get = λ id w. (reply t, w); list = λ tags w. (reply [], w) }

abbrev pub client : Client (Unit {0})
client = record {
  networks = one_service lan;
  create_network = λ req w. (reply lan, w);
  delete_network = λ id w. (none, w);
  subnets = one_service (record { uuid = "s-1" });
  create_subnet = λ req w. (reply (record { uuid = "s-1" }), w);
  routers = one_service gateway;
  create_router = λ req w. (reply gateway, w);
  delete_router = λ id w. (none, w);
  create_interface = λ id req w. (failure (url_error true "timeout awaiting response"), w);
  delete_interface = λ id i w. (some missing, w);
  floating_ips = one_service public_ip;
  create_floating_ip = λ req w. (reply public_ip, w);
  update_floating_ip = λ ip req w. (none, w);
  delete_floating_ip = λ ip w. (none, w);
  server_groups = one_service group;
  delete_server_group = λ id w. (none, w);
  load_balancers = one_service balancer;
  create_load_balancer = λ req w. (reply balancer, w);
  delete_load_balancer = λ id w. (some missing, w);
  load_balancer_pools = one_service (record { uuid = "p-1" });
  create_pool = λ req w. (reply (record { uuid = "p-1" }), w);
  load_balancer_listeners = one_service (record { uuid = "l-1" });
  create_listener = λ req w. (reply (record { uuid = "l-1" }), w);
  load_balancer_health_monitors = one_service (record { uuid = "h-1" });
  create_health_monitor = λ req w. (reply (record { uuid = "h-1" }), w);
  list_pool_members = λ id w. (reply [], w);
  create_pool_member = λ id req w. (failure missing, w);
  update_pool_member = λ id m a w. (none, w);
  delete_pool_member = λ id m w. (none, w);
  servers = one_service node;
  create_server = λ req w. (reply node, w);
  delete_server = λ id w. (none, w);
  create_server_group = λ req w. (reply group, w);
  get_secret = λ namespace name w. (reply (some "#cloud-config"), w);
  list_machines = λ namespace cluster control_plane w. (reply [], w);
}

abbrev has_text : List String → String → Bool
has_text [] t = false
has_text (x ∷ xs) t = (x == t) || has_text xs t

abbrev drop_text : List String → String → List String
drop_text [] t = []
drop_text (x ∷ xs) t = let rest = drop_text xs t in if x == t then rest else x ∷ rest

abbrev pub env : Env (Unit {0})
env = record {
  client = client;
  conditions = conditions_package;
  router_active = "active";
  parse_cidr = λ cidr. reply (λ ip. true);
  contains_finalizer = has_text;
  add_finalizer = λ fs f. f ∷ fs;
  remove_finalizer = drop_text;
}

pub client-ReturnsIds : ReturnsIds client
client-ReturnsIds = record {
  got_network = λ id w. (refl, (refl, tt));
  created_network = λ req w. refl;
  created_subnet = λ req w. refl;
}

abbrev pub lan_spec : NetworkSpec
lan_spec = record {
  name = "lan";
  uuid = "";
  cidr = "10.0.0.0/24";
  mtu = 9000;
  gateway_address = "";
}

abbrev pub router_spec : RouterSpec
router_spec = record {
  name = "gw";
  uuid = "";
  internet_gateway = true;
  interfaces = record { network = "lan"; uuid = ""; address = "10.0.0.1" } ∷ [];
}

abbrev pub cluster_spec : CloudscaleClusterSpec
cluster_spec = record {
  region = "rma";
  zone = "rma1";
  credentials_ref = record { name = "token"; namespace = "" };
  control_plane_endpoint = record { host = ""; port = 0 };
  networks = lan_spec ∷ [];
  routers = [];
  control_plane_load_balancer = record {
    enabled = some true;
    algorithm = "round_robin";
    flavor = "lb-standard";
    api_server_port = 6443;
    network = "";
    pool_member_network = "";
    health_monitor = record { delay_s = 2; timeout_s = 1; up_threshold = 2; down_threshold = 3 };
  };
  floating_ip = some (record { ip_family = none; address = "" });
}

abbrev pub empty_status : CloudscaleClusterStatus
empty_status = record {
  initialization = none;
  networks = [];
  routers = [];
  floating_ip = "";
  load_balancer_id = "";
  load_balancer_pool_id = "";
  load_balancer_listener_id = "";
  load_balancer_health_monitor_id = "";
  load_balancer_member_ids = [];
  conditions = [];
}

abbrev pub lan_entry : NetworkStatus
lan_entry = record {
  name = "lan";
  network_id = "n-1";
  subnet_id = "s-1";
  cidr = "10.0.0.0/24";
  mtu = 9000;
  managed = true;
  gateway_address = "";
}

abbrev pub gateway_entry : RouterStatus
gateway_entry = record {
  name = "gw";
  router_id = "r-1";
  interfaces = record { network = "lan"; interface_id = "i-1"; managed = true } ∷ [];
  managed = true;
}

abbrev pub full_status : CloudscaleClusterStatus
full_status = record empty_status {
  networks =
      lan_entry ∷ record lan_entry { name = "shared"; network_id = "n-2"; managed = false } ∷ [];
  routers = gateway_entry ∷ [];
  floating_ip = "192.0.2.1";
  load_balancer_id = "lb-1";
  load_balancer_pool_id = "p-1";
  load_balancer_listener_id = "l-1";
}

abbrev pub scope_with : CloudscaleClusterStatus → Scope (Unit {0})
scope_with status = record {
  owner = record { name = "demo"; namespace = "default"; control_plane_initialized = none };
  cluster = record {
    name = "demo";
    namespace = "default";
    finalizers = cluster_finalizer ∷ [];
    deleted = false;
    spec = cluster_spec;
    status = status;
  };
  world = tt;
  calls = [];
  events = [];
}

abbrev pub fresh : Scope (Unit {0})
fresh = scope_with empty_status

abbrev pub provisioned : Scope (Unit {0})
provisioned = scope_with full_status
