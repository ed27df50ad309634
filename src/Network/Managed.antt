-- ===== src/Network/Managed.antt =====
-- reconcileManagedNetwork (internal/controller/cloudscalecluster_network.go).
use cluster_api_provider_clo.Base.{
  ℕ, String, true, false, Option, none, some, ltb, if◌then◌else◌, ◌<>◌, is_set,
}
use cluster_api_provider_clo.Api.Cluster.{NetworkSpec, NetworkStatus, get_network_status}
use cluster_api_provider_clo.Sdk.{
  TagMap, Network, Subnet, NetworkCreateRequest, SubnetCreateRequest, Answer, reply, failure,
  Resource, network_request, subnet_request, create_call,
}
use cluster_api_provider_clo.Scope.{
  Scope, Env, CtrlResult, no_requeue, Reconcile, ◌>>=◌, ◌>>◌, pure, gets, call, deref, modify, emit,
  Flow, proceed, then_with, requeue_on_timeout,
}
use cluster_api_provider_clo.Services.{ensure_resource}
use cluster_api_provider_clo.Network.Status.{
  id_of, subnet_of, networks_of, write_network, network_tags,
}

abbrev pub create_network_timeout_requeue_after : ℕ
create_network_timeout_requeue_after = 5

module _ {W : Type 0} (env : Env W) where
  unfoldable pub network_create_request : Scope W → NetworkSpec → TagMap → NetworkCreateRequest
  network_create_request s net_spec tags = record {
    name = net_spec.name;
    auto_create_ipv4_subnet = false;
    zone = s.cluster.spec.zone;
    mtu = if ltb 0 net_spec.mtu then some net_spec.mtu else none;
    tags = tags;
  }

  unfoldable pub network_created :
      NetworkSpec → Answer Network → Reconcile W (Flow (Option Network × String))
  unfolding requeue_on_timeout ◌>>=◌
  network_created net_spec (reply net) = do
    modify λ s.
        emit "NetworkCreated"
          ("Created network " <> net_spec.name <> " (" <> net.uuid <> ") in zone "
            <> s.cluster.spec.zone)
          s
    pure (proceed (some net, net.uuid))
  network_created net_spec (failure e) =
      requeue_on_timeout create_network_timeout_requeue_after "creating network" e

  -- The network that ensureResource found, or a new one.
  unfoldable pub resolve_network :
      NetworkSpec → TagMap → Option Network × String → Reconcile W (Flow (Option Network × String))
  unfolding network_create_request network_created ◌>>=◌
  resolve_network net_spec tags (found, id) = if is_set id then pure (proceed (found, id)) else do
    req ← gets (λ s. network_create_request s net_spec tags)
    answer ← call (create_call (network_request req)) (env.client.create_network req)
    network_created net_spec answer

  unfoldable pub subnet_created : NetworkSpec → Answer Subnet → Reconcile W (Flow String)
  unfolding requeue_on_timeout ◌>>=◌
  subnet_created net_spec (reply subnet) = do
    modify (
        emit "SubnetCreated" (
          "Created subnet " <> net_spec.name <> " (" <> subnet.uuid <> ") with CIDR "
          <> net_spec.cidr))
    pure (proceed subnet.uuid)
  subnet_created net_spec (failure e) =
      requeue_on_timeout create_network_timeout_requeue_after "creating subnet" e

  abbrev pub subnet_create_request : NetworkSpec → TagMap → String → SubnetCreateRequest
  subnet_create_request net_spec tags network_id = record {
    network = network_id;
    cidr = net_spec.cidr;
    gateway_address = net_spec.gateway_address;
    tags = tags;
  }

  unfoldable pub resolve_subnet : NetworkSpec → TagMap → String → String → Reconcile W (Flow String)
  unfolding subnet_created ◌>>=◌
  resolve_subnet net_spec tags network_id id = if is_set id then pure (proceed id) else do
    let req = subnet_create_request net_spec tags network_id
    answer ← call (create_call (subnet_request req)) (env.client.create_subnet req)
    subnet_created net_spec answer

  -- The status entry of a managed network; the MTU is read through the network's pointer.
  unfoldable pub record_managed :
      NetworkSpec → Option Network → String → String → Reconcile W CtrlResult
  unfolding ◌>>=◌
  record_managed net_spec found network_id subnet_id = do
    net ← deref found
    write_network net_spec.name network_id subnet_id net_spec.cidr true net.mtu
    pure no_requeue

  unfoldable pub reconcile_subnet :
      NetworkSpec → Option NetworkStatus → TagMap → Option Network × String → Reconcile W CtrlResult
  unfolding ensure_resource resolve_subnet record_managed ◌>>=◌
  reconcile_subnet net_spec ns tags (found, network_id) = do
    (_, id) ←
        ensure_resource Resource.subnet (subnet_of ns) ("subnet/" <> net_spec.name)
          env.client.subnets (λ subnet. subnet.uuid) tags
    flow ← resolve_subnet net_spec tags network_id id
    then_with flow λ subnet_id. record_managed net_spec found network_id subnet_id

  unfoldable pub reconcile_managed_network : NetworkSpec → Reconcile W CtrlResult
  unfolding ensure_resource resolve_network reconcile_subnet get_network_status network_tags ◌>>=◌
  reconcile_managed_network net_spec = do
    ns ← gets (λ s. get_network_status (networks_of s) net_spec.name)
    tags ← gets (λ s. network_tags s net_spec.name)
    found ←
        ensure_resource Resource.network (id_of ns) ("network/" <> net_spec.name)
          env.client.networks (λ net. net.uuid) tags
    flow ← resolve_network net_spec tags found
    then_with flow (reconcile_subnet net_spec ns tags)
