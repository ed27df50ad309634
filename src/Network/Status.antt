-- ===== src/Network/Status.antt =====
-- The network entries of the status, and the tags of a network
-- (internal/controller/cloudscalecluster_network.go).
use cluster_api_provider_clo.Base.{
  ℕ, String, Bool, false, ◌&&◌, Option, none, some, List, [], ◌∷◌, ◌==◌, if◌then◌else◌, ◌<>◌,
  is_set,
}
use cluster_api_provider_clo.Api.Cluster.{NetworkStatus, name_cloudscale_provider_owned}
use cluster_api_provider_clo.Sdk.{TagMap}
use cluster_api_provider_clo.Scope.{Scope, Reconcile, update_status, modify}

unfoldable pub set_network_status :
    String → String → String → String → Bool → ℕ → List NetworkStatus → List NetworkStatus
set_network_status name network_id subnet_id cidr managed mtu [] =
    record {
      name = name;
      network_id = network_id;
      subnet_id = subnet_id;
      cidr = cidr;
      mtu = mtu;
      managed = managed;
      gateway_address = "";
    }
    ∷ []
set_network_status name network_id subnet_id cidr managed mtu (ns ∷ rest) =
    if ns.name == name
    then record ns {
      network_id = network_id;
      subnet_id = subnet_id;
      cidr = cidr;
      managed = managed;
      mtu = mtu;
    }
      ∷ rest
    else ns ∷ set_network_status name network_id subnet_id cidr managed mtu rest

abbrev pub id_of : Option NetworkStatus → String
id_of none = ""
id_of (some ns) = ns.network_id

abbrev pub subnet_of : Option NetworkStatus → String
subnet_of none = ""
subnet_of (some ns) = ns.subnet_id

-- Whether a pre-existing network has been discovered before.
abbrev pub is_discovered : Option NetworkStatus → Bool
is_discovered none = false
is_discovered (some ns) = is_set ns.network_id && is_set ns.subnet_id && is_set ns.cidr

module _ {W : Type 0} where
  abbrev pub networks_of : Scope W → List NetworkStatus
  networks_of s = s.cluster.status.networks

  abbrev pub put_networks : List NetworkStatus → Scope W → Scope W
  put_networks ns = update_status λ st. record st { networks = ns }

  -- The call r.setNetworkStatus(clusterScope, ...).
  abbrev pub write_network : String → String → String → String → Bool → ℕ → Reconcile W (Unit {0})
  write_network name network_id subnet_id cidr managed mtu = modify λ s.
      put_networks (set_network_status name network_id subnet_id cidr managed mtu (networks_of s)) s

  unfoldable pub network_tags : Scope W → String → TagMap
  network_tags s network_name = (name_cloudscale_provider_owned <> s.owner.name, network_name) ∷ []
