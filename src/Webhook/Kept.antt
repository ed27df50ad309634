-- ===== src/Webhook/Kept.antt =====
-- What the immutability rules for networks and routers keep.
use cluster_api_provider_clo.Base.{
  IsIn, ℕ, ◌≡◌, refl, Option, none, some, List, [], ◌∷◌, All, append-empty,
}
use cluster_api_provider_clo.Api.Cluster.{NetworkSpec, RouterInterfaceSpec, RouterSpec}
use cluster_api_provider_clo.Webhook.Field.{FieldPath, at_index, find_last}
use cluster_api_provider_clo.Webhook.Networks.{
  network_name, network_unchanged, validate_network_immutability,
}
use cluster_api_provider_clo.Webhook.Routers.{
  router_name, interface_network, interface_unchanged, interfaces_unchanged, router_unchanged,
  validate_router_diff,
}
use cluster_api_provider_clo.Webhook.Reports.{Says, ◌also◌, says_itself}
use cluster_api_provider_clo.Webhook.Lookups.{find_last-IsIn}
use cluster_api_provider_clo.Webhook.Same.{text-same, number-same, flag-same}

-- A network of the new spec is the old one.
pub record NetworkKept (new : List NetworkSpec) (old : NetworkSpec) : Type 0 where
  pub network : NetworkSpec
  pub is_in : IsIn network new
  pub name : network.name ≡ old.name
  pub cidr : network.cidr ≡ old.cidr
  pub uuid : network.uuid ≡ old.uuid
  pub mtu : network.mtu ≡ old.mtu
  pub gateway_address : network.gateway_address ≡ old.gateway_address

-- An interface of the new router is the old one.
pub record InterfaceKept (new : List RouterInterfaceSpec) (old : RouterInterfaceSpec) : Type 0 where
  pub interface : RouterInterfaceSpec
  pub is_in : IsIn interface new
  pub network : interface.network ≡ old.network
  pub address : interface.address ≡ old.address
  pub uuid : interface.uuid ≡ old.uuid

-- A router of the new spec is the old one, but that it may have more interfaces.
pub record RouterKept (new : List RouterSpec) (old : RouterSpec) : Type 0 where
  pub router : RouterSpec
  pub is_in : IsIn router new
  pub name : router.name ≡ old.name
  pub uuid : router.uuid ≡ old.uuid
  pub internet_gateway : router.internet_gateway ≡ old.internet_gateway
  pub interfaces : All (InterfaceKept router.interfaces) old.interfaces

-- The fields of a network that are compared.
abbrev pub SameNetwork : NetworkSpec → NetworkSpec → Type 0
SameNetwork new old =
    (((new.cidr ≡ old.cidr) × (new.uuid ≡ old.uuid)) × (new.mtu ≡ old.mtu))
    × (new.gateway_address ≡ old.gateway_address)

pub network_unchanged_iff :
    (path : FieldPath) (old new : NetworkSpec) (i : ℕ)
    → Says (network_unchanged path old (some (new, i))) (SameNetwork new old)
unfolding network_unchanged
network_unchanged_iff path old new i =
    text-same new.cidr old.cidr _
    also text-same new.uuid old.uuid _
    also number-same new.mtu old.mtu _
    also text-same new.gateway_address old.gateway_address _

network-Kept :
    (path : FieldPath) (old : NetworkSpec) (new : List NetworkSpec) (o : Option (NetworkSpec × ℕ))
    → find_last network_name old.name 0 new ≡ o
    → network_unchanged path old o ≡ []
    → NetworkKept new old
unfolding network_unchanged
network-Kept path old new none e h = cc
network-Kept path old new (some (n, i)) e h =
    let found = find_last-IsIn network_name old.name 0 new n i e in
    let same = (network_unchanged_iff path old n i).0 h in
    record {
      network = n;
      is_in = found.0;
      name = found.1;
      cidr = same.0.0.0;
      uuid = same.0.0.1;
      mtu = same.0.1;
      gateway_address = same.1;
    }

-- Without an error of validateNetworkImmutability, each old network is in the new spec, with its name,
-- CIDR, UUID, MTU and gateway.
pub validate_network_immutability-Kept :
    (old new : List NetworkSpec) (path : FieldPath)
    → validate_network_immutability old new path ≡ []
    → All (NetworkKept new) old
unfolding validate_network_immutability
validate_network_immutability-Kept [] new path h = tt
validate_network_immutability-Kept (o ∷ rest) new path h =
    let both = append-empty (network_unchanged path o (find_last network_name o.name 0 new)) _ h in
    (
      network-Kept path o new (find_last network_name o.name 0 new) refl both.0,
      validate_network_immutability-Kept rest new path both.1,
    )

pub interface_unchanged_iff :
    (path : FieldPath) (old new : RouterInterfaceSpec) (j : ℕ)
    → Says
        (interface_unchanged path old (some (new, j)))
        ((new.address ≡ old.address) × (new.uuid ≡ old.uuid))
unfolding interface_unchanged
interface_unchanged_iff path old new j =
    text-same new.address old.address _ also text-same new.uuid old.uuid _

interface-Kept :
    (path : FieldPath) (old : RouterInterfaceSpec) (new : List RouterInterfaceSpec)
    (o : Option (RouterInterfaceSpec × ℕ))
    → find_last interface_network old.network 0 new ≡ o
    → interface_unchanged path old o ≡ []
    → InterfaceKept new old
unfolding interface_unchanged
interface-Kept path old new none e h = cc
interface-Kept path old new (some (n, j)) e h =
    let found = find_last-IsIn interface_network old.network 0 new n j e in
    let same = (interface_unchanged_iff path old n j).0 h in
    record { interface = n; is_in = found.0; network = found.1; address = same.0; uuid = same.1 }

interfaces-Kept :
    (path : FieldPath) (old new : List RouterInterfaceSpec)
    → interfaces_unchanged path old new ≡ []
    → All (InterfaceKept new) old
unfolding interfaces_unchanged
interfaces-Kept path [] new h = tt
interfaces-Kept path (o ∷ rest) new h =
    let both =
      append-empty (interface_unchanged path o (find_last interface_network o.network 0 new)) _ h in
    (
      interface-Kept path o new (find_last interface_network o.network 0 new) refl both.0,
      interfaces-Kept path rest new both.1,
    )

pub router_unchanged_iff :
    (path : FieldPath) (old new : RouterSpec) (i : ℕ)
    → Says (router_unchanged path old (some (new, i))) (
        ((new.uuid ≡ old.uuid) × (new.internet_gateway ≡ old.internet_gateway))
        × (interfaces_unchanged (at_index path i) old.interfaces new.interfaces ≡ []))
unfolding router_unchanged
router_unchanged_iff path old new i =
    text-same new.uuid old.uuid _
    also flag-same new.internet_gateway old.internet_gateway _
    also says_itself _

router-Kept :
    (path : FieldPath) (old : RouterSpec) (new : List RouterSpec) (o : Option (RouterSpec × ℕ))
    → find_last router_name old.name 0 new ≡ o
    → router_unchanged path old o ≡ []
    → RouterKept new old
unfolding router_unchanged
router-Kept path old new none e h = cc
router-Kept path old new (some (r, i)) e h =
    let found = find_last-IsIn router_name old.name 0 new r i e in
    let same = (router_unchanged_iff path old r i).0 h in
    record {
      router = r;
      is_in = found.0;
      name = found.1;
      uuid = same.0.0;
      internet_gateway = same.0.1;
      interfaces = interfaces-Kept (at_index path i) old.interfaces r.interfaces same.1;
    }

-- Without an error of validateRouterDiff, each old router is in the new spec, with its name, its UUID,
-- its internet gateway and all its interfaces as they were.
pub validate_router_diff-Kept :
    (old new : List RouterSpec) (path : FieldPath)
    → validate_router_diff old new path ≡ []
    → All (RouterKept new) old
unfolding validate_router_diff
validate_router_diff-Kept [] new path h = tt
validate_router_diff-Kept (o ∷ rest) new path h =
    let both = append-empty (router_unchanged path o (find_last router_name o.name 0 new)) _ h in
    (
      router-Kept path o new (find_last router_name o.name 0 new) refl both.0,
      validate_router_diff-Kept rest new path both.1,
    )
