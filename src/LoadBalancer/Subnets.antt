-- ===== src/LoadBalancer/Subnets.antt =====
-- The subnets that the load balancer and its members use, and the members that are wanted
-- (internal/controller/cloudscalecluster_loadbalancer.go).
use cluster_api_provider_clo.Base.{
  ℕ, String, Bool, true, false, ◌&&◌, Option, none, some, List, [], ◌∷◌, ◌++◌, ◌==◌, if◌then◌else◌,
  ◌<>◌, is_set,
}
use cluster_api_provider_clo.Errors.{plain, quote}
use cluster_api_provider_clo.Api.Cluster.{LoadBalancerSpec, NetworkStatus, get_network_status}
use cluster_api_provider_clo.Api.Machine.{
  AddressType, machine_internal_ip, MachineAddress, CloudscaleMachine,
}
use cluster_api_provider_clo.Sdk.{TagMap, LoadBalancerPoolMemberRequest, Answer, reply, failure}

-- What safeUseSubnet answers of the entry that it finds.
unfoldable pub subnet_of_found : String → Option NetworkStatus → Answer String
subnet_of_found network_name none =
    failure (plain ("network " <> quote network_name <> " not yet provisioned"))
subnet_of_found network_name (some ns) =
    if ns.subnet_id == ""
    then failure (plain ("network " <> quote network_name <> " not yet provisioned"))
    else reply ns.subnet_id

unfoldable pub safe_use_subnet : List NetworkStatus → String → Answer String
unfolding subnet_of_found get_network_status
safe_use_subnet networks network_name =
    subnet_of_found network_name (get_network_status networks network_name)

unfoldable pub first_subnet : List NetworkStatus → Answer String
first_subnet [] = failure (plain "no networks in cluster status")
first_subnet (ns ∷ rest) =
    if ns.subnet_id == ""
    then failure (plain ("first network " <> quote ns.name <> " has no subnet ID"))
    else reply ns.subnet_id

unfoldable pub get_pool_member_subnet_id : LoadBalancerSpec → List NetworkStatus → Answer String
unfolding safe_use_subnet first_subnet
get_pool_member_subnet_id lb_spec networks =
    if is_set lb_spec.pool_member_network
    then safe_use_subnet networks lb_spec.pool_member_network
    else if is_set lb_spec.network
    then safe_use_subnet networks lb_spec.network
    else first_subnet networks

unfoldable pub get_member_subnet_cidr : List NetworkStatus → String → Answer String
get_member_subnet_cidr [] subnet_id = failure (
    plain (
      "subnet " <> subnet_id
      <> " has no cached CIDR in status; ensure networks are reconciled first"))
get_member_subnet_cidr (ns ∷ rest) subnet_id =
    if (ns.subnet_id == subnet_id) && is_set ns.cidr
    then reply ns.cidr
    else get_member_subnet_cidr rest subnet_id

unfoldable pub is_internal : AddressType → Bool
is_internal machine_internal_ip = true
is_internal _ = false

-- The first internal address that lies in the subnet.
unfoldable pub member_address : (String → Bool) → List MachineAddress → Option String
unfolding is_internal
member_address contains [] = none
member_address contains (a ∷ rest) =
    if is_internal a.type && is_set a.address && contains a.address
    then some a.address
    else member_address contains rest

-- The request for a machine's member, where the machine has such an address.
unfoldable pub desired_member :
    String → ℕ → TagMap → String → Option String → List LoadBalancerPoolMemberRequest
desired_member subnet_id port tags name none = []
desired_member subnet_id port tags name (some address) =
    record { name = name; subnet = subnet_id; protocol_port = port; address = address; tags = tags }
    ∷ []

-- The members wanted, in the order of the machines.
unfoldable pub desired_members :
    (String → Bool)
    → String
    → ℕ
    → TagMap
    → List CloudscaleMachine
    → List LoadBalancerPoolMemberRequest
unfolding member_address desired_member
desired_members contains subnet_id port tags [] = []
desired_members contains subnet_id port tags (m ∷ rest) =
    desired_member subnet_id port tags m.name (member_address contains m.status.addresses)
    ++ desired_members contains subnet_id port tags rest
