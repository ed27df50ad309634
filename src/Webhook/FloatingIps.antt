-- ===== src/Webhook/FloatingIps.antt =====
-- The rules for the floating IP (internal/webhook/v1beta2/cloudscalecluster_webhook.go).
use cluster_api_provider_clo.Base.{
  String, Bool, false, not, ◌&&◌, Option, none, some, List, [], ◌∷◌, ◌++◌, ◌==◌, eq_bool, is_set,
  is_some, deref_or, ◌<>◌,
}
use cluster_api_provider_clo.Errors.{error_text}
use cluster_api_provider_clo.Sdk.{Answer, reply, failure}
use cluster_api_provider_clo.Api.Cluster.{FloatingIpSpec, CloudscaleClusterSpec}
use cluster_api_provider_clo.Webhook.Field.{
  FieldPath, child, FieldError, invalid, forbidden, report, NetIp,
}
use cluster_api_provider_clo.Webhook.LoadBalancers.{is_enabled}

module _ (ip : NetIp) where
  unfoldable pub address_errors : String → Answer ip.Addr → FieldPath → List FieldError
  unfolding error_text
  address_errors address (reply a) path = []
  address_errors address (failure e) path =
      report (is_set address)
        (invalid (child path "ip") address ("must be a valid IP address: " <> error_text e))

  unfoldable pub validate_floating_ip : FloatingIpSpec → FieldPath → List FieldError
  unfolding address_errors
  validate_floating_ip fip path =
      report (eq_bool (is_some fip.ip_family) (is_set fip.address))
        (invalid path "" "exactly one of ipFamily or ip must be specified")
      ++ address_errors fip.address (ip.parse_addr fip.address) path

  -- The rules where a floating IP is set.
  unfoldable pub validate_floating_ip_if_set : Option FloatingIpSpec → FieldPath → List FieldError
  unfolding validate_floating_ip
  validate_floating_ip_if_set none path = []
  validate_floating_ip_if_set (some fip) path = validate_floating_ip fip (child path "floatingIP")

abbrev pub is_managed_fip : Option FloatingIpSpec → Bool
is_managed_fip none = false
is_managed_fip (some fip) = fip.address == ""

unfoldable pub validate_floating_ip_requires_lb_or_pre_existing :
    CloudscaleClusterSpec → FieldPath → List FieldError
validate_floating_ip_requires_lb_or_pre_existing spec path =
    report (is_managed_fip spec.floating_ip && not (is_enabled spec.control_plane_load_balancer)) (
      invalid (child path "floatingIP") ""
        "managed floating IP requires the load balancer to be enabled; use a pre-existing floating IP if you need a floating IP without a load balancer")

unfoldable pub validate_floating_ip_requires_public_lb :
    CloudscaleClusterSpec → FieldPath → List FieldError
validate_floating_ip_requires_public_lb spec path =
    report
      (is_some spec.floating_ip
        && is_enabled spec.control_plane_load_balancer
        && is_set spec.control_plane_load_balancer.network)
      (invalid (child path "floatingIP") ""
        "floating IPs cannot be attached to a load balancer with a private VIP; use a public load balancer or remove the floating IP")

unfoldable pub validate_floating_ip_immutability :
    Option FloatingIpSpec → Option FloatingIpSpec → FieldPath → List FieldError
validate_floating_ip_immutability none none path = []
validate_floating_ip_immutability none (some new) path =
    forbidden path "floating IP cannot be added after cluster creation" ∷ []
validate_floating_ip_immutability (some old) none path =
    forbidden path "floating IP cannot be removed after cluster creation" ∷ []
validate_floating_ip_immutability (some old) (some new) path =
    report (not (old.address == new.address))
      (forbidden (child path "ip") "field is immutable once set")
    ++ report (not (deref_or old.ip_family "" == deref_or new.ip_family ""))
        (forbidden (child path "ipFamily") "field is immutable once set")
