-- ===== src/Examples/Admission.antt =====
-- The theorems on the webhooks, at concrete inputs.
use cluster_api_provider_clo.Base.{
  String, ◌≡◌, ◌≢◌, refl, ◌⊎◌, ◌↔◌, true, not, if◌then◌else◌, some, [], ◌∷◌, ◌==◌, All,
}
use cluster_api_provider_clo.Api.Cluster.{RouterSpec, CloudscaleClusterSpec, CloudscaleCluster}
use cluster_api_provider_clo.Sdk.{reply, failure}
use cluster_api_provider_clo.Errors.{plain}
use cluster_api_provider_clo.Examples.World.{
  env, client-ReturnsIds, cluster_spec, lan_spec, router_spec, fresh,
}
use cluster_api_provider_clo.Scope.{Scope, no_requeue}
use cluster_api_provider_clo.Network.Provision.{reconcile_network}
use cluster_api_provider_clo.Network.Status.{networks_of}
use cluster_api_provider_clo.Webhook.Accepted.{Sound, validate_create-Sound}
use cluster_api_provider_clo.Webhook.Clusters.{
  default_cluster, spec_path, validate_create, validate_update,
}
use cluster_api_provider_clo.Webhook.Defaults.{Defaulted, default_cluster-Defaulted}
use cluster_api_provider_clo.Webhook.Field.{NetIp}
use cluster_api_provider_clo.Webhook.Lookups.{Distinct}
use cluster_api_provider_clo.Webhook.NetworkLists.{validate_networks-Ok}
use cluster_api_provider_clo.Webhook.NetworkRules.{NetworkOk}
use cluster_api_provider_clo.Webhook.Networks.{network_name, validate_networks}
use cluster_api_provider_clo.Webhook.Preserved.{Preserved, validate_update-Preserved}
use cluster_api_provider_clo.Webhook.Regions.{RegionInfo, new_region_info, zone_belongs_to_region}
use cluster_api_provider_clo.Webhook.RouterLists.{validate_routers-Ok}
use cluster_api_provider_clo.Webhook.RouterRules.{RouterOk}
use cluster_api_provider_clo.Webhook.Routers.{validate_routers, check_snat_configuration}
use cluster_api_provider_clo.Webhook.Served.{Served, reconcile_network-Served}
use cluster_api_provider_clo.Webhook.Unchanged.{validate_update-unchanged}
use cluster_api_provider_clo.Webhook.Warnings.{HasGateway, check_snat_configuration-HasGateway}

-- Prefixes and addresses are texts; a prefix contains each address but one.
abbrev net : NetIp
net = record {
  Prefix = String;
  Addr = String;
  parse_prefix = λ s. if s == "" then failure (plain "no prefix") else reply s;
  parse_addr = λ s. if s == "" then failure (plain "no address") else reply s;
  contains = λ p a. not (a == "192.0.2.1");
}

abbrev regions : RegionInfo
regions = new_region_info (record { slug = "rma"; zones = "rma1" ∷ [] } ∷ [])

abbrev admitted_spec : CloudscaleClusterSpec
admitted_spec = record cluster_spec {
  routers = router_spec ∷ [];
  floating_ip = some (record { ip_family = some "IPv4"; address = "" });
}

abbrev admitted : CloudscaleCluster
admitted = record fresh.cluster { spec = admitted_spec }

validate_create-Sound_example : ((validate_create net regions admitted).errors ≡ []) ↔ (
    ((admitted_spec.zone ≡ "")
      ⊎ (zone_belongs_to_region regions admitted_spec.zone admitted_spec.region ≡ true))
    × Sound net admitted_spec)
validate_create-Sound_example = validate_create-Sound net regions admitted

-- The cluster is admitted.
validate_create_test : (validate_create net regions admitted).errors ≡ []
unfolding validate_create new_region_info
validate_create_test = refl

admitted_spec-Sound : Sound net admitted_spec
unfolding validate_create new_region_info
admitted_spec-Sound = ((validate_create-Sound net regions admitted).0 refl).1

validate_update-Preserved_example : Preserved admitted_spec admitted_spec × Sound net admitted_spec
unfolding validate_update
validate_update-Preserved_example = validate_update-Preserved net admitted admitted refl

validate_update-unchanged_example : (validate_update net admitted admitted).errors ≡ []
validate_update-unchanged_example =
    validate_update-unchanged net admitted admitted_spec-Sound
      (record { names = (tt, tt); networks = ((tt, tt), tt) })

abbrev admitted_scope : Scope (Unit {0})
admitted_scope = record fresh { cluster = admitted }

reconcile_network-Served_example :
    Served (networks_of (reconcile_network env admitted_scope).1) admitted_spec.routers "" ""
unfolding reconcile_network
reconcile_network-Served_example =
    reconcile_network-Served net env client-ReturnsIds regions admitted_scope no_requeue
      validate_create_test refl refl

default_cluster-Defaulted_example :
    Defaulted regions admitted (default_cluster regions admitted)
    × (default_cluster regions (default_cluster regions admitted)
        ≡ default_cluster regions admitted)
default_cluster-Defaulted_example = default_cluster-Defaulted regions admitted

validate_networks-Ok_example :
    (validate_networks net (lan_spec ∷ []) spec_path ≡ [])
    ↔ (Distinct network_name (lan_spec ∷ []) × All (NetworkOk net) (lan_spec ∷ []))
validate_networks-Ok_example = validate_networks-Ok net (lan_spec ∷ []) spec_path

validate_routers-Ok_example :
    (validate_routers net (router_spec ∷ []) (lan_spec ∷ []) spec_path ≡ [])
    ↔ All (RouterOk net (lan_spec ∷ [])) (router_spec ∷ [])
validate_routers-Ok_example =
    validate_routers-Ok net (lan_spec ∷ []) admitted_spec-Sound.networks admitted_spec-Sound.names
      (router_spec ∷ []) spec_path

check_snat_configuration-HasGateway_example :
    (check_snat_configuration admitted_spec ≡ [])
    ↔ All
        (λ (r : RouterSpec).
          r.internet_gateway ≡ true → HasGateway admitted_spec.networks r.interfaces)
        admitted_spec.routers
check_snat_configuration-HasGateway_example = check_snat_configuration-HasGateway admitted_spec

-- A router without a gateway address is admitted with a warning.
check_snat_configuration_test : check_snat_configuration admitted_spec ≢ []
unfolding check_snat_configuration
check_snat_configuration_test h = cc
