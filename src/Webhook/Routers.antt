-- ===== src/Webhook/Routers.antt =====
-- The rules for routers, and the warnings on routers without a gateway
-- (internal/webhook/v1beta2/cloudscalecluster_webhook.go).
use cluster_api_provider_clo.Base.{
  ℕ, String, Bool, true, false, not, ◌&&◌, Option, none, some, List, [], ◌∷◌, ◌++◌, suc, ◌==◌,
  eq_bool, is_set, if◌then◌else◌, ◌<>◌,
}
use cluster_api_provider_clo.Errors.{quote}
use cluster_api_provider_clo.Api.Cluster.{
  NetworkSpec, RouterInterfaceSpec, RouterSpec, CloudscaleClusterSpec,
}
use cluster_api_provider_clo.Webhook.Field.{
  FieldPath, child, at_index, FieldError, invalid, not_found, forbidden, required, report, NetIp,
  find_last,
}
use cluster_api_provider_clo.Webhook.Networks.{
  immutable_text, validate_address_in_cidr, network_name,
}

-- An interface that is adopted by its UUID.
unfoldable pub adopted_interface : RouterInterfaceSpec → Bool → FieldPath → List FieldError
adopted_interface iface adopted path =
    report (not adopted) (
      forbidden (child path "uuid")
        "only a router referenced by uuid carries pre-existing interfaces to adopt")
    ++ report (is_set iface.address) (
        forbidden (child path "address")
          "the address of an adopted interface is read from the interface itself, so it cannot be requested")

module _ (ip : NetIp) where
  -- An interface that the controller attaches.
  unfoldable pub attached_interface :
      RouterInterfaceSpec → NetworkSpec → FieldPath → List FieldError
  unfolding validate_address_in_cidr
  attached_interface iface network path =
      if iface.address == ""
      then required (child path "address") "router interface address must be set explicitly" ∷ []
      else if network.cidr == ""
      then []
      else validate_address_in_cidr ip network.cidr iface.address (child path "address")

  -- The rules for an interface, by the network that it names.
  unfoldable pub interface_on_network :
      RouterInterfaceSpec → Option (NetworkSpec × ℕ) → Bool → FieldPath → List FieldError
  unfolding adopted_interface attached_interface
  interface_on_network iface none adopted path = not_found (child path "network") iface.network ∷ []
  interface_on_network iface (some (network, i)) adopted path =
      if is_set iface.uuid
      then adopted_interface iface adopted path
      else attached_interface iface network path

  -- indexNetworks and validateRouterInterface
  unfoldable pub validate_router_interface :
      RouterInterfaceSpec → List NetworkSpec → Bool → FieldPath → List FieldError
  unfolding interface_on_network find_last
  validate_router_interface iface networks adopted path =
      interface_on_network iface (find_last network_name iface.network 0 networks) adopted path

  unfoldable pub interfaces_from :
      List NetworkSpec → Bool → ℕ → FieldPath → List RouterInterfaceSpec → List FieldError
  unfolding validate_router_interface
  interfaces_from networks adopted j path [] = []
  interfaces_from networks adopted j path (iface ∷ rest) =
      validate_router_interface iface networks adopted (at_index (child path "interfaces") j)
      ++ interfaces_from networks adopted (suc j) path rest

  unfoldable pub validate_single_router :
      RouterSpec → List NetworkSpec → FieldPath → List FieldError
  unfolding interfaces_from
  validate_single_router r networks path =
      report (is_set r.uuid && r.internet_gateway)
        (invalid path r.name "uuid and internetGateway are mutually exclusive")
      ++ interfaces_from networks (is_set r.uuid) 0 path r.interfaces

  unfoldable pub routers_from : List NetworkSpec → ℕ → FieldPath → List RouterSpec → List FieldError
  unfolding validate_single_router
  routers_from networks i path [] = []
  routers_from networks i path (r ∷ rest) =
      validate_single_router r networks (at_index path i) ++ routers_from networks (suc i) path rest

  unfoldable pub validate_routers : List RouterSpec → List NetworkSpec → FieldPath → List FieldError
  unfolding routers_from
  validate_routers routers networks path = routers_from networks 0 path routers

abbrev pub router_name : RouterSpec → String
router_name r = r.name

abbrev pub interface_network : RouterInterfaceSpec → String
interface_network i = i.network

-- What an interface of an old router must find in the new one.
unfoldable pub interface_unchanged :
    FieldPath → RouterInterfaceSpec → Option (RouterInterfaceSpec × ℕ) → List FieldError
interface_unchanged path old none =
    forbidden (child path "interfaces")
      ("removing interface for network " <> quote old.network <> " is not allowed")
    ∷ []
interface_unchanged path old (some (new, j)) =
    report (not (new.address == old.address)) (
      forbidden (child path "interfaces")
        ("address for network " <> quote new.network <> " is immutable after cluster creation"))
    ++ report (not (new.uuid == old.uuid)) (
        forbidden (child path "interfaces")
          ("uuid for network " <> quote new.network <> " is immutable after cluster creation"))

unfoldable pub interfaces_unchanged :
    FieldPath → List RouterInterfaceSpec → List RouterInterfaceSpec → List FieldError
unfolding interface_unchanged find_last
interfaces_unchanged path [] new = []
interfaces_unchanged path (old ∷ rest) new =
    interface_unchanged path old (find_last interface_network old.network 0 new)
    ++ interfaces_unchanged path rest new

-- What a router of the old spec must find in the new one.
unfoldable pub router_unchanged : FieldPath → RouterSpec → Option (RouterSpec × ℕ) → List FieldError
unfolding interfaces_unchanged
router_unchanged path old none =
    forbidden path ("removing router " <> quote old.name <> " is not allowed") ∷ []
router_unchanged path old (some (new, i)) =
    report (not (new.uuid == old.uuid)) (forbidden (child (at_index path i) "uuid") immutable_text)
    ++ report (not (eq_bool new.internet_gateway old.internet_gateway))
        (forbidden (child (at_index path i) "internetGateway") immutable_text)
    ++ interfaces_unchanged (at_index path i) old.interfaces new.interfaces

unfoldable pub validate_router_diff :
    List RouterSpec → List RouterSpec → FieldPath → List FieldError
unfolding router_unchanged find_last
validate_router_diff [] new path = []
validate_router_diff (old ∷ rest) new path =
    router_unchanged path old (find_last router_name old.name 0 new)
    ++ validate_router_diff rest new path

-- The innermost loop of checkSNATConfiguration.
unfoldable pub network_has_gateway : RouterInterfaceSpec → List NetworkSpec → Bool
network_has_gateway iface [] = false
network_has_gateway iface (n ∷ rest) =
    if (n.name == iface.network) && is_set n.gateway_address
    then true
    else network_has_gateway iface rest

unfoldable pub router_has_gateway : List RouterInterfaceSpec → List NetworkSpec → Bool
unfolding network_has_gateway
router_has_gateway [] networks = false
router_has_gateway (iface ∷ rest) networks =
    if network_has_gateway iface networks then true else router_has_gateway rest networks

abbrev pub snat_warning : RouterSpec → String
snat_warning r =
    "Router "
    <> quote r.name
    <> " has internetGateway enabled but no gatewayAddress is set on its attached networks. "
    <> "Set networks[].gatewayAddress to enable SNAT for outbound internet access."

unfoldable pub snat_warnings : List RouterSpec → List NetworkSpec → List String
unfolding router_has_gateway
snat_warnings [] networks = []
snat_warnings (r ∷ rest) networks =
    (if r.internet_gateway && not (router_has_gateway r.interfaces networks)
      then snat_warning r ∷ []
      else [])
    ++ snat_warnings rest networks

unfoldable pub check_snat_configuration : CloudscaleClusterSpec → List String
unfolding snat_warnings
check_snat_configuration spec = snat_warnings spec.routers spec.networks
