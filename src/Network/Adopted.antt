-- ===== src/Network/Adopted.antt =====
-- reconcilePreExistingNetwork (internal/controller/cloudscalecluster_network.go).
use cluster_api_provider_clo.Base.{String, false, List, [], ◌∷◌, ◌==◌, if◌then◌else◌, ◌<>◌}
use cluster_api_provider_clo.Errors.{plain, quote}
use cluster_api_provider_clo.Api.Cluster.{NetworkSpec, get_network_status}
use cluster_api_provider_clo.Sdk.{SubnetStub, Network, Resource, get_call}
use cluster_api_provider_clo.Scope.{Env, Reconcile, ◌>>=◌, pure, raise, gets, call, or_wrap}
use cluster_api_provider_clo.Network.Status.{is_discovered, networks_of, write_network}

module _ {W : Type 0} (env : Env W) where
  unfoldable pub record_discovered :
      NetworkSpec → Network → List SubnetStub → Reconcile W (Unit {0})
  record_discovered net_spec net [] =
      raise (plain ("pre-existing network " <> net_spec.uuid <> " has no subnets"))
  record_discovered net_spec net (subnet ∷ _) =
      write_network net_spec.name net.uuid subnet.uuid subnet.cidr false net.mtu

  unfoldable pub check_zone : NetworkSpec → Network → String → Reconcile W (Unit {0})
  unfolding record_discovered
  check_zone net_spec net zone =
      if net.zone == zone
      then record_discovered net_spec net net.subnets
      else raise (
          plain (
            "pre-existing network "
            <> net_spec.uuid
            <> " is in zone "
            <> quote net.zone
            <> ", expected zone "
            <> quote zone))

  unfoldable pub discover_network : NetworkSpec → Reconcile W (Unit {0})
  unfolding check_zone ◌>>=◌
  discover_network net_spec = do
    answer ← call (get_call Resource.network net_spec.uuid) (env.client.networks.get net_spec.uuid)
    net ← or_wrap ("getting pre-existing network " <> net_spec.uuid) answer
    zone ← gets (λ s. s.cluster.spec.zone)
    check_zone net_spec net zone

  unfoldable pub reconcile_pre_existing_network : NetworkSpec → Reconcile W (Unit {0})
  unfolding discover_network get_network_status
  reconcile_pre_existing_network net_spec = do
    ns ← gets (λ s. get_network_status (networks_of s) net_spec.name)
    if is_discovered ns then pure tt else discover_network net_spec
