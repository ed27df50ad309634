-- ===== src/Webhook/Clusters.antt =====
-- Default, ValidateCreate, ValidateUpdate and ValidateDelete of a cluster
-- (internal/webhook/v1beta2/cloudscalecluster_webhook.go).
use cluster_api_provider_clo.Base.{
  ℕ, String, Bool, true, not, Option, none, some, List, [], ◌∷◌, ◌++◌, ◌==◌, eqb, eq_bool, is_set,
  if◌then◌else◌, ◌<>◌,
}
use cluster_api_provider_clo.Errors.{quote}
use cluster_api_provider_clo.Api.Cluster.{
  NetworkSpec, LoadBalancerSpec, FloatingIpSpec, CloudscaleClusterSpec, CloudscaleCluster,
  ApiEndpoint, ip_family_ipv4,
}
use cluster_api_provider_clo.Webhook.Field.{
  FieldPath, child_step, child, FieldError, invalid, forbidden, report, NetIp,
}
use cluster_api_provider_clo.Webhook.Regions.{
  RegionInfo, zone_belongs_to_region, get_default_zone_for_region,
}
use cluster_api_provider_clo.Webhook.Networks.{
  immutable_text, validate_networks, validate_network_immutability,
}
use cluster_api_provider_clo.Webhook.Routers.{
  validate_routers, validate_router_diff, check_snat_configuration,
}
use cluster_api_provider_clo.Webhook.LoadBalancers.{
  is_enabled, validate_lb_immutability, validate_lb_references,
  validate_lb_pool_member_network_resolvable,
}
use cluster_api_provider_clo.Webhook.FloatingIps.{
  validate_floating_ip_if_set, validate_floating_ip_requires_lb_or_pre_existing,
  validate_floating_ip_requires_public_lb, validate_floating_ip_immutability,
}

abbrev pub default_subnet_cidr : String
default_subnet_cidr = "172.18.0.0/24"

abbrev pub or_text : String → String → String
or_text s d = if s == "" then d else s

abbrev pub or_number : ℕ → ℕ → ℕ
or_number n d = if eqb n 0 then d else n

abbrev pub or_true : Option Bool → Option Bool
or_true none = some true
or_true (some b) = some b

unfoldable pub lb_default : LoadBalancerSpec → LoadBalancerSpec
lb_default lb = record lb {
  enabled = or_true lb.enabled;
  algorithm = or_text lb.algorithm "round_robin";
  flavor = or_text lb.flavor "lb-standard";
  api_server_port = or_number lb.api_server_port 6443;
  health_monitor = record {
    delay_s = or_number lb.health_monitor.delay_s 5;
    timeout_s = or_number lb.health_monitor.timeout_s 3;
    up_threshold = or_number lb.health_monitor.up_threshold 2;
    down_threshold = or_number lb.health_monitor.down_threshold 3;
  };
}

abbrev pub family_default : Option String → String → Option String
family_default none address = if address == "" then some ip_family_ipv4 else none
family_default (some family) address = some family

unfoldable pub floating_ip_default : Option FloatingIpSpec → Option FloatingIpSpec
floating_ip_default none = none
floating_ip_default (some fip) =
    some (record fip { ip_family = family_default fip.ip_family fip.address })

unfoldable pub cluster_spec_default : CloudscaleClusterSpec → CloudscaleClusterSpec
unfolding lb_default floating_ip_default
cluster_spec_default spec = record spec {
  control_plane_load_balancer = lb_default spec.control_plane_load_balancer;
  floating_ip = floating_ip_default spec.floating_ip;
}

unfoldable pub networks_default : String → List NetworkSpec → List NetworkSpec
networks_default name [] =
    record { name = name; uuid = ""; cidr = default_subnet_cidr; mtu = 0; gateway_address = "" }
    ∷ []
networks_default name (n ∷ rest) = n ∷ rest

-- Default
unfoldable pub default_cluster : RegionInfo → CloudscaleCluster → CloudscaleCluster
unfolding cluster_spec_default networks_default get_default_zone_for_region
default_cluster info c = record c {
  spec = cluster_spec_default (record c.spec {
    zone = or_text c.spec.zone (get_default_zone_for_region info c.spec.region);
    networks = networks_default c.name c.spec.networks;
  });
}

-- The warnings, and the errors of the rejection; none is admission.
pub record Admission : Type 0 where
  pub warnings : List String
  pub errors : List FieldError

abbrev pub spec_path : FieldPath
spec_path = child_step "spec" ∷ []

unfoldable pub validate_zone : RegionInfo → CloudscaleClusterSpec → FieldPath → List FieldError
unfolding zone_belongs_to_region
validate_zone info spec path =
    if is_set spec.zone
    then report (not (zone_belongs_to_region info spec.zone spec.region))
        (invalid (child path "zone") spec.zone ("zone must belong to region " <> quote spec.region))
    else []

-- The endpoint is immutable once its host is set.
unfoldable pub validate_endpoint : ApiEndpoint → ApiEndpoint → FieldPath → List FieldError
validate_endpoint old new path =
    if is_set old.host
    then (report (not (new.host == old.host))
          (forbidden (child path "host") "field is immutable once set")
        ++ report (not (eqb new.port old.port))
            (forbidden (child path "port") "field is immutable once set"))
    else []

unfoldable pub validate_lb_update : CloudscaleClusterSpec → CloudscaleClusterSpec → List FieldError
unfolding validate_lb_immutability
validate_lb_update old new =
    let path = child spec_path "controlPlaneLoadBalancer" in
    let old_lb = old.control_plane_load_balancer in
    let new_lb = new.control_plane_load_balancer in
    report (not (eq_bool (is_enabled new_lb) (is_enabled old_lb)))
      (forbidden (child path "enabled") immutable_text)
    ++ report (not (new_lb.network == old_lb.network))
        (forbidden (child path "network") "field is immutable once set")
    ++ validate_lb_immutability old_lb new_lb path

unfoldable pub validate_delete : CloudscaleCluster → Admission
validate_delete c = record { warnings = []; errors = [] }

module _ (ip : NetIp) where
  -- The rules for the floating IP and the pool members, which a creation and an update share.
  unfoldable pub validate_combinations : CloudscaleClusterSpec → FieldPath → List FieldError
  unfolding validate_floating_ip_if_set validate_floating_ip_requires_lb_or_pre_existing
      validate_floating_ip_requires_public_lb validate_lb_pool_member_network_resolvable
  validate_combinations spec path =
      validate_floating_ip_if_set ip spec.floating_ip path
      ++ validate_floating_ip_requires_lb_or_pre_existing spec path
      ++ validate_floating_ip_requires_public_lb spec path
      ++ validate_lb_pool_member_network_resolvable spec path

  unfoldable pub cluster_spec_validate_create :
      CloudscaleClusterSpec → RegionInfo → FieldPath → List FieldError
  unfolding validate_zone validate_networks validate_routers validate_lb_references
      validate_combinations
  cluster_spec_validate_create spec info path =
      validate_zone info spec path
      ++ validate_networks ip spec.networks (child path "networks")
      ++ validate_routers ip spec.routers spec.networks (child path "routers")
      ++ validate_lb_references spec path
      ++ validate_combinations spec path

  unfoldable pub validate_create : RegionInfo → CloudscaleCluster → Admission
  unfolding cluster_spec_validate_create check_snat_configuration
  validate_create info c = record {
    warnings = check_snat_configuration c.spec;
    errors = cluster_spec_validate_create c.spec info spec_path;
  }

  unfoldable pub cluster_spec_validate_update :
      CloudscaleClusterSpec → CloudscaleClusterSpec → List FieldError
  unfolding validate_network_immutability validate_networks validate_routers validate_router_diff
      validate_lb_update validate_lb_references validate_endpoint validate_floating_ip_immutability
      validate_combinations
  cluster_spec_validate_update old new =
      report (not (new.region == old.region)) (forbidden (child spec_path "region") immutable_text)
      ++ report (not (new.zone == old.zone)) (forbidden (child spec_path "zone") immutable_text)
      ++ validate_network_immutability old.networks new.networks (child spec_path "networks")
      ++ validate_networks ip new.networks (child spec_path "networks")
      ++ validate_routers ip new.routers new.networks (child spec_path "routers")
      ++ validate_router_diff old.routers new.routers (child spec_path "routers")
      ++ validate_lb_update old new
      ++ validate_lb_references new spec_path
      ++ validate_endpoint old.control_plane_endpoint new.control_plane_endpoint
          (child spec_path "controlPlaneEndpoint")
      ++ validate_floating_ip_immutability old.floating_ip new.floating_ip
          (child spec_path "floatingIP")
      ++ validate_combinations new spec_path

  unfoldable pub validate_update : CloudscaleCluster → CloudscaleCluster → Admission
  unfolding cluster_spec_validate_update check_snat_configuration
  validate_update old new = record {
    warnings = check_snat_configuration new.spec;
    errors = cluster_spec_validate_update old.spec new.spec;
  }
