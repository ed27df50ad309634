-- ===== src/Webhook/Preserved.antt =====
-- What an admitted update keeps.
use cluster_api_provider_clo.Base.{
  ◌≡◌, ◌≢◌, refl, Bool-cases, inl, inr, Option, none, some, [], is_set, is_set-ne, unset-empty,
  deref_or, All,
}
use cluster_api_provider_clo.Api.Cluster.{
  LoadBalancerSpec, FloatingIpSpec, ApiEndpoint, CloudscaleClusterSpec, CloudscaleCluster,
}
use cluster_api_provider_clo.Webhook.Field.{FieldPath, child, NetIp}
use cluster_api_provider_clo.Webhook.Networks.{validate_networks, validate_network_immutability}
use cluster_api_provider_clo.Webhook.Routers.{validate_routers, validate_router_diff}
use cluster_api_provider_clo.Webhook.LoadBalancers.{
  is_enabled, validate_lb_immutability, validate_lb_references,
}
use cluster_api_provider_clo.Webhook.FloatingIps.{validate_floating_ip_immutability}
use cluster_api_provider_clo.Webhook.Clusters.{
  spec_path, validate_combinations, validate_endpoint, validate_lb_update,
  cluster_spec_validate_update, validate_update,
}
use cluster_api_provider_clo.Webhook.Reports.{Says, ◌also◌, says_itself}
use cluster_api_provider_clo.Webhook.Same.{text-same, number-same, flag-same}
use cluster_api_provider_clo.Webhook.Accepted.{Sound, spec_errors-Sound}
use cluster_api_provider_clo.Webhook.Kept.{
  NetworkKept, RouterKept, validate_network_immutability-Kept, validate_router_diff-Kept,
}

-- The load balancer is as it was.
pub record LbKept (new old : LoadBalancerSpec) : Type 0 where
  pub enabled : is_enabled new ≡ is_enabled old
  pub network : new.network ≡ old.network
  pub algorithm : old.algorithm ≡ new.algorithm
  pub flavor : old.flavor ≡ new.flavor
  pub api_server_port : old.api_server_port ≡ new.api_server_port
  pub pool_member_network : old.pool_member_network ≡ new.pool_member_network
  pub delay_s : old.health_monitor.delay_s ≡ new.health_monitor.delay_s
  pub timeout_s : old.health_monitor.timeout_s ≡ new.health_monitor.timeout_s
  pub up_threshold : old.health_monitor.up_threshold ≡ new.health_monitor.up_threshold
  pub down_threshold : old.health_monitor.down_threshold ≡ new.health_monitor.down_threshold

-- The endpoint is as it was, once its host is set.
abbrev pub EndpointKept : ApiEndpoint → ApiEndpoint → Type 0
EndpointKept new old = old.host ≢ "" → (new.host ≡ old.host) × (new.port ≡ old.port)

-- A floating IP is there where one was, with its address and its IP family.
abbrev pub FloatingIpKept : Option FloatingIpSpec → Option FloatingIpSpec → Type 0
FloatingIpKept none none = Unit
FloatingIpKept (some new) (some old) =
    (old.address ≡ new.address) × (deref_or old.ip_family "" ≡ deref_or new.ip_family "")
FloatingIpKept _ _ = ⊥

-- What an update may not change.
pub record Preserved (new old : CloudscaleClusterSpec) : Type 0 where
  pub region : new.region ≡ old.region
  pub zone : new.zone ≡ old.zone
  pub networks : All (NetworkKept new.networks) old.networks
  pub routers : All (RouterKept new.routers) old.routers
  pub load_balancer : LbKept new.control_plane_load_balancer old.control_plane_load_balancer
  pub endpoint : EndpointKept new.control_plane_endpoint old.control_plane_endpoint
  pub floating_ip : FloatingIpKept new.floating_ip old.floating_ip

pub lb_update_iff :
    (old new : CloudscaleClusterSpec)
    → Says
        (validate_lb_update old new)
        (LbKept new.control_plane_load_balancer old.control_plane_load_balancer)
unfolding validate_lb_update validate_lb_immutability
lb_update_iff old new =
    let n = new.control_plane_load_balancer in
    let o = old.control_plane_load_balancer in
    let fields =
      text-same o.algorithm n.algorithm _
      also text-same o.flavor n.flavor _
      also number-same o.api_server_port n.api_server_port _
      also text-same o.pool_member_network n.pool_member_network _
      also number-same o.health_monitor.delay_s n.health_monitor.delay_s _
      also number-same o.health_monitor.timeout_s n.health_monitor.timeout_s _
      also number-same o.health_monitor.up_threshold n.health_monitor.up_threshold _
      also number-same o.health_monitor.down_threshold n.health_monitor.down_threshold _ in
    let all =
      flag-same (is_enabled n) (is_enabled o) _ also text-same n.network o.network _ also fields in
    (
      λ h.
          let k = all.0 h in
          record {
            enabled = k.0.0;
            network = k.0.1;
            algorithm = k.1.0.0.0.0.0.0.0;
            flavor = k.1.0.0.0.0.0.0.1;
            api_server_port = k.1.0.0.0.0.0.1;
            pool_member_network = k.1.0.0.0.0.1;
            delay_s = k.1.0.0.0.1;
            timeout_s = k.1.0.0.1;
            up_threshold = k.1.0.1;
            down_threshold = k.1.1;
          },
      λ k. all.1 (
        (k.enabled, k.network),
        (
          (
            (
              ((((k.algorithm, k.flavor), k.api_server_port), k.pool_member_network), k.delay_s),
              k.timeout_s,
            ),
            k.up_threshold,
          ),
          k.down_threshold,
        ),
      ),
    )

pub endpoint_iff :
    (old new : ApiEndpoint) (path : FieldPath)
    → Says (validate_endpoint old new path) (EndpointKept new old)
unfolding validate_endpoint
endpoint_iff old new path =
    let both = text-same new.host old.host _ also number-same new.port old.port _ in
    elim (Bool-cases (is_set old.host)) [
      | inl s ↦ rw s (λ h n. both.0 h, λ k. both.1 (k (is_set-ne old.host s)))
      | inr s ↦ rw s (λ h n. absurd (n (unset-empty old.host s)), λ k. refl)
    ]

pub floating_ip_immutability_iff :
    (old new : Option FloatingIpSpec) (path : FieldPath)
    → Says (validate_floating_ip_immutability old new path) (FloatingIpKept new old)
unfolding validate_floating_ip_immutability
floating_ip_immutability_iff none none path = (λ h. tt, λ h. refl)
floating_ip_immutability_iff none (some new) path = (λ h. cc, λ h. absurd h)
floating_ip_immutability_iff (some old) none path = (λ h. cc, λ h. absurd h)
floating_ip_immutability_iff (some old) (some new) path =
    text-same old.address new.address _
    also text-same (deref_or old.ip_family "") (deref_or new.ip_family "") _

module _ (ip : NetIp) where
  -- What the errors of an update say, rule by rule.
  abbrev ListRules : CloudscaleClusterSpec → CloudscaleClusterSpec → Type 0
  ListRules old new =
      (((((new.region ≡ old.region) × (new.zone ≡ old.zone))
            × (validate_network_immutability old.networks new.networks (child spec_path "networks")
                ≡ []))
          × (validate_networks ip new.networks (child spec_path "networks") ≡ []))
        × (validate_routers ip new.routers new.networks (child spec_path "routers") ≡ []))
      × (validate_router_diff old.routers new.routers (child spec_path "routers") ≡ [])

  abbrev pub Rules : CloudscaleClusterSpec → CloudscaleClusterSpec → Type 0
  Rules old new =
      ((((ListRules old new
              × LbKept new.control_plane_load_balancer old.control_plane_load_balancer)
            × (validate_lb_references new spec_path ≡ []))
          × EndpointKept new.control_plane_endpoint old.control_plane_endpoint)
        × FloatingIpKept new.floating_ip old.floating_ip)
      × (validate_combinations ip new spec_path ≡ [])

  pub update-Rules :
      (old new : CloudscaleClusterSpec)
      → Says (cluster_spec_validate_update ip old new) (Rules old new)
  unfolding cluster_spec_validate_update
  update-Rules old new =
      text-same new.region old.region _
      also text-same new.zone old.zone _
      also says_itself _
      also says_itself _
      also says_itself _
      also says_itself _
      also lb_update_iff old new
      also says_itself _
      also endpoint_iff old.control_plane_endpoint new.control_plane_endpoint
          (child spec_path "controlPlaneEndpoint")
      also floating_ip_immutability_iff old.floating_ip new.floating_ip
          (child spec_path "floatingIP")
      also says_itself _

  -- An update that is admitted keeps the region, the zone, each network and each router with each of
  -- its interfaces, the load balancer, the endpoint once its host is set, and whether there is a
  -- floating IP and which; and its new spec is sound, as that of a new cluster.
  pub validate_update-Preserved :
      (old new : CloudscaleCluster)
      → (validate_update ip old new).errors ≡ []
      → Preserved new.spec old.spec × Sound ip new.spec
  unfolding validate_update
  validate_update-Preserved old new h =
      let k = (update-Rules old.spec new.spec).0 h in
      (
        record {
          region = k.0.0.0.0.0.0.0.0.0.0;
          zone = k.0.0.0.0.0.0.0.0.0.1;
          networks =
              validate_network_immutability-Kept old.spec.networks new.spec.networks
                (child spec_path "networks") k.0.0.0.0.0.0.0.0.1;
          routers =
              validate_router_diff-Kept old.spec.routers new.spec.routers
                (child spec_path "routers") k.0.0.0.0.0.1;
          load_balancer = k.0.0.0.0.1;
          endpoint = k.0.0.1;
          floating_ip = k.0.1;
        },
        (spec_errors-Sound ip new.spec spec_path).0
            (k.0.0.0.0.0.0.0.1, k.0.0.0.0.0.0.1, k.0.0.0.1, k.1),
      )
