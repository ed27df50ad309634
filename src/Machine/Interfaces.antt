-- ===== src/Machine/Interfaces.antt =====
-- buildInterfaceRequests, ipFamilyToUseIPV6 and the tags of a server
-- (internal/controller/cloudscalemachine_server.go).
use cluster_api_provider_clo.Base.{
  String, Bool, true, false, ◌||◌, Option, none, some, List, [], ◌∷◌, ◌==◌, if◌then◌else◌, ◌<>◌,
  is_set, items,
}
use cluster_api_provider_clo.Errors.{plain, quote}
use cluster_api_provider_clo.Api.Cluster.{
  NetworkStatus, get_network_status, name_cloudscale_provider_owned, ip_family_ipv4, ip_family_ipv6,
  ip_family_dual_stack,
}
use cluster_api_provider_clo.Api.Machine.{InterfaceSpec}
use cluster_api_provider_clo.Sdk.{TagMap, Answer, reply, failure, ServerInterfaceRequest}
use cluster_api_provider_clo.Machine.Scope.{MachineScope}

abbrev pub interface_type_public : String
interface_type_public = "public"

abbrev pub interface_request : String → ServerInterfaceRequest
interface_request network = record { network = network }

-- The request of an interface on a network, by the network's entry in the cluster's status.
unfoldable pub network_request_of : String → Option NetworkStatus → Answer ServerInterfaceRequest
network_request_of name none =
    failure (plain ("network " <> quote name <> " not found in cluster status"))
network_request_of name (some ns) =
    if ns.network_id == ""
    then failure (plain ("network " <> quote name <> " not yet provisioned"))
    else reply (interface_request ns.network_id)

-- One turn of the loop: the request of an interface.
unfoldable pub server_interface_request_of :
    List NetworkStatus → InterfaceSpec → Answer ServerInterfaceRequest
unfolding network_request_of get_network_status
server_interface_request_of networks iface =
    if iface.type == interface_type_public
    then reply (interface_request interface_type_public)
    else if is_set iface.network
    then network_request_of iface.network (get_network_status networks iface.network)
    else failure (plain "interface must have either type or network set")

-- The IP family after one turn of the loop.
unfoldable pub family_after : InterfaceSpec → Option String → Option String
family_after iface family = if iface.type == interface_type_public then iface.ip_family else family

abbrev pub add_request :
    ServerInterfaceRequest
    → Answer (List ServerInterfaceRequest × Option String)
    → Answer (List ServerInterfaceRequest × Option String)
add_request r (reply (rs, family)) = reply (r ∷ rs, family)
add_request r (failure e) = failure e

abbrev pub add_answer :
    Answer ServerInterfaceRequest
    → Answer (List ServerInterfaceRequest × Option String)
    → Answer (List ServerInterfaceRequest × Option String)
add_answer (reply r) rest = add_request r rest
add_answer (failure e) rest = failure e

-- The loop over the interfaces, with the IP family found so far.
unfoldable pub requests_from :
    List NetworkStatus
    → List InterfaceSpec
    → Option String
    → Answer (List ServerInterfaceRequest × Option String)
unfolding server_interface_request_of family_after
requests_from networks [] family = reply ([], family)
requests_from networks (iface ∷ rest) family =
    add_answer (server_interface_request_of networks iface)
      (requests_from networks rest (family_after iface family))

-- The interfaces where the spec has none: a public one and one on the cluster's first network.
unfoldable pub default_requests :
    List NetworkStatus → Answer (List ServerInterfaceRequest × Option String)
default_requests [] = failure (plain "cluster has no networks provisioned yet")
default_requests (ns ∷ rest) =
    reply (interface_request interface_type_public ∷ interface_request ns.network_id ∷ [], none)

unfoldable pub requests_for :
    List NetworkStatus → List InterfaceSpec → Answer (List ServerInterfaceRequest × Option String)
unfolding default_requests requests_from
requests_for networks [] = default_requests networks
requests_for networks (iface ∷ rest) = requests_from networks (iface ∷ rest) none

unfoldable pub build_interface_requests :
    {W : Type 0} → MachineScope W → Answer (List ServerInterfaceRequest × Option String)
unfolding requests_for
build_interface_requests s =
    requests_for s.cloudscale_cluster.status.networks (items s.cloudscale_machine.spec.interfaces)

unfoldable pub ip_family_to_use_ipv6 : Option String → Option Bool
ip_family_to_use_ipv6 none = none
ip_family_to_use_ipv6 (some family) =
    if (family == ip_family_dual_stack) || (family == ip_family_ipv6)
    then some true
    else if family == ip_family_ipv4
    then some false
    else none

-- MachineTagKey (api/v1beta2/cloudscalemachine_types.go)
unfoldable pub machine_tag_key : String → String
machine_tag_key cluster_name = name_cloudscale_provider_owned <> cluster_name

unfoldable pub machine_lookup_tag : {W : Type 0} → MachineScope W → TagMap
unfolding machine_tag_key
machine_lookup_tag s =
    (
      machine_tag_key s.cluster.name,
      s.cluster.namespace <> "/" <> s.cluster.name <> "/" <> s.cloudscale_machine.name,
    )
    ∷ []

-- m[key] = value, on a map of texts.
unfoldable pub put_tag : String → String → TagMap → TagMap
put_tag key value [] = (key, value) ∷ []
put_tag key value ((k, v) ∷ rest) =
    let later = put_tag key value rest in if k == key then (key, value) ∷ rest else (k, v) ∷ later

-- maps.Copy(dst, src)
unfoldable pub copy_tags : TagMap → TagMap → TagMap
unfolding put_tag
copy_tags dst [] = dst
copy_tags dst ((key, value) ∷ rest) = copy_tags (put_tag key value dst) rest

unfoldable pub machine_create_tags : {W : Type 0} → MachineScope W → TagMap
unfolding machine_lookup_tag copy_tags
machine_create_tags s = copy_tags (machine_lookup_tag s) s.cloudscale_machine.spec.tags
