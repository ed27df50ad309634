-- ===== src/Examples/Provisioning.antt =====
-- The theorems on what a reconcile provisions, at concrete inputs.
use cluster_api_provider_clo.Base.{◌≡◌, refl, ◌↔◌, true, false, some, [], ◌∷◌, All}
use cluster_api_provider_clo.Api.Conditions.{is_true, ready_condition, network_ready_condition}
use cluster_api_provider_clo.Api.Cluster.{NetworkSpec, get_router_status}
use cluster_api_provider_clo.Sdk.{Network, Resource}
use cluster_api_provider_clo.Scope.{Scope, ok, err, CtrlResult, is_zero, no_requeue}
use cluster_api_provider_clo.Errors.{Error}
use cluster_api_provider_clo.Services.{ensure_resource}
use cluster_api_provider_clo.Cluster.Endpoint.{reconcile_control_plane_endpoint}
use cluster_api_provider_clo.Cluster.Endpoints.{
  endpoint_of, reconcile_control_plane_endpoint-host, reconcile_control_plane_endpoint-settled,
}
use cluster_api_provider_clo.Cluster.Readiness.{
  is_infrastructure_provisioned, sub_conditions, set_ready_condition,
}
use cluster_api_provider_clo.Cluster.Ready.{
  InPlace, is_infrastructure_provisioned-InPlace, all_true, set_ready_condition-true,
}
use cluster_api_provider_clo.Examples.World.{
  conditions_package, package_laws, lan, gateway, client, env, client-ReturnsIds, lan_spec,
  router_spec, cluster_spec, lan_entry, fresh, provisioned,
}
use cluster_api_provider_clo.Network.Condition.{reconcile_network-condition}
use cluster_api_provider_clo.Network.Entries.{IsProvisioned}
use cluster_api_provider_clo.Network.Provision.{reconcile_network}
use cluster_api_provider_clo.Network.Ready.{reconcile_network-IsProvisioned}
use cluster_api_provider_clo.Network.Status.{networks_of}
use cluster_api_provider_clo.Router.Delays.{Earliest, reconcile_routers-Earliest}
use cluster_api_provider_clo.Router.Interfaces.{create_router_interface}
use cluster_api_provider_clo.Router.Provision.{reconcile_routers}
use cluster_api_provider_clo.Router.Recorded.{records_managed, create_router_interface-recorded}
use cluster_api_provider_clo.Router.Status.{routers_of}
use cluster_api_provider_clo.Services.Calls.{scope_calls}
use cluster_api_provider_clo.Services.Conditions.{conditions_of}
use cluster_api_provider_clo.Services.Ensure.{Ensured, ensure_resource-Ensured}

reconcile_network-IsProvisioned_example :
    All
      (λ (n : NetworkSpec). IsProvisioned n.name (networks_of (reconcile_network env fresh).1))
      (lan_spec ∷ [])
unfolding reconcile_network
reconcile_network-IsProvisioned_example =
    reconcile_network-IsProvisioned env client-ReturnsIds fresh no_requeue refl refl

ensure_resource-Ensured_example :
    (ensure_resource Resource.network "n-1" "network/lan" client.networks
        (λ (n : Network). n.uuid)
        []
        fresh).0
      ≡ ok (some lan, "n-1")
    ↔ Ensured client.networks (λ (n : Network). n.uuid) [] "n-1" tt (some lan) "n-1"
ensure_resource-Ensured_example =
    ensure_resource-Ensured Resource.network "network/lan" client.networks (λ (n : Network). n.uuid)
      [] "n-1" fresh (some lan) "n-1"

reconcile_network-condition_example :
    ((e : Error)
      → (reconcile_network env fresh).0 ≡ err e
      → is_true conditions_package
          (conditions_of env package_laws (reconcile_network env fresh).1)
          network_ready_condition
        ≡ false)
    × ((r : CtrlResult)
        → (reconcile_network env fresh).0 ≡ ok r
        → is_zero r ≡ true
        → (is_true conditions_package
              (conditions_of env package_laws (reconcile_network env fresh).1)
              network_ready_condition
            ≡ true)
          × All
              (λ (n : NetworkSpec).
                IsProvisioned n.name (networks_of (reconcile_network env fresh).1))
              (lan_spec ∷ []))
reconcile_network-condition_example =
    reconcile_network-condition env package_laws client-ReturnsIds fresh

is_infrastructure_provisioned-InPlace_example :
    (is_infrastructure_provisioned provisioned.cluster ≡ true → InPlace provisioned.cluster)
    × (InPlace provisioned.cluster → is_infrastructure_provisioned provisioned.cluster ≡ true)
is_infrastructure_provisioned-InPlace_example =
    is_infrastructure_provisioned-InPlace provisioned.cluster

set_ready_condition-true_example :
    is_true conditions_package
      (conditions_of env package_laws (set_ready_condition env fresh))
      ready_condition
    ≡ all_true env package_laws sub_conditions (conditions_of env package_laws fresh)
set_ready_condition-true_example = set_ready_condition-true env package_laws fresh

reconcile_control_plane_endpoint-host_example :
    (endpoint_of (reconcile_control_plane_endpoint "10.0.0.2" provisioned)).host ≡ "192.0.2.1"
reconcile_control_plane_endpoint-host_example =
    reconcile_control_plane_endpoint-host "10.0.0.2" provisioned

reconcile_control_plane_endpoint-settled_example :
    (endpoint_of (reconcile_control_plane_endpoint "10.0.0.2" provisioned)
      ≡ record { host = "192.0.2.1"; port = 6443 })
    × (reconcile_control_plane_endpoint "10.0.0.3"
          (reconcile_control_plane_endpoint "10.0.0.2" provisioned)
        ≡ reconcile_control_plane_endpoint "10.0.0.2" provisioned)
unfolding reconcile_control_plane_endpoint
reconcile_control_plane_endpoint-settled_example =
    reconcile_control_plane_endpoint-settled "10.0.0.2" "10.0.0.3" provisioned refl refl

create_router_interface-recorded_example :
    records_managed
      (get_router_status
        (routers_of
          (create_router_interface env router_spec gateway
            (record { network = "lan"; uuid = ""; address = "10.0.0.1" })
            lan_entry
            provisioned).1)
        "gw")
      "lan"
    ≡ true
unfolding get_router_status
create_router_interface-recorded_example =
    create_router_interface-recorded env router_spec gateway
      (record { network = "lan"; uuid = ""; address = "10.0.0.1" }) lan_entry provisioned refl

-- One router, which is in the status.
abbrev with_router : Scope (Unit {0})
with_router = record provisioned {
  cluster = record provisioned.cluster {
    spec = record cluster_spec { routers = router_spec ∷ [] };
  };
}

reconcile_routers-Earliest_example : Earliest env (router_spec ∷ []) with_router no_requeue
unfolding reconcile_routers
reconcile_routers-Earliest_example = reconcile_routers-Earliest env with_router no_requeue refl
