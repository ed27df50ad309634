-- ===== src/Webhook/Combinations.antt =====
-- What the rules that combine the floating IP, the load balancer and the networks accept.
use cluster_api_provider_clo.Base.{
  ℕ, String, ◌≡◌, ◌≢◌, refl, ◌⊎◌, inl, inr, Bool, true, false, not, ◌||◌, Bool-cases, Option, none,
  some, List, [], arith, eq_bool, is_set, is_some, is_set-ne, ne-is_set, unset-empty, empty-unset,
  length, ltb, if◌then◌else◌, ◌≤◌,
}
use cluster_api_provider_clo.Sdk.{Answer, reply, failure}
use cluster_api_provider_clo.Api.Cluster.{FloatingIpSpec, CloudscaleClusterSpec}
use cluster_api_provider_clo.Webhook.Field.{FieldPath, child, FieldError, report, NetIp}
use cluster_api_provider_clo.Webhook.LoadBalancers.{
  is_enabled, validate_lb_pool_member_network_resolvable,
}
use cluster_api_provider_clo.Webhook.FloatingIps.{
  address_errors, validate_floating_ip, validate_floating_ip_if_set, is_managed_fip,
  validate_floating_ip_requires_lb_or_pre_existing, validate_floating_ip_requires_public_lb,
}
use cluster_api_provider_clo.Webhook.Clusters.{validate_combinations}
use cluster_api_provider_clo.Webhook.Reports.{
  report-empty, Says, ◌also◌, report_unless, report_both,
}

-- A floating IP to create has an IP family; one that exists already has an address that parses.
abbrev pub FloatingIpOk : NetIp → Option FloatingIpSpec → Type 0
FloatingIpOk ip none = Unit
FloatingIpOk ip (some fip) =
    ((is_some fip.ip_family ≡ true) × (fip.address ≡ ""))
    ⊎ ((is_some fip.ip_family ≡ false)
        × (fip.address ≢ "")
        × ((a : ip.Addr) × (ip.parse_addr fip.address ≡ reply a)))

-- What the webhook demands of a spec that no other rule reads, in the rules that creations and updates
-- share.
pub record Combined (ip : NetIp) (spec : CloudscaleClusterSpec) : Type 0 where
  pub floating_ip : FloatingIpOk ip spec.floating_ip
  pub managed_with_lb :
      is_managed_fip spec.floating_ip ≡ true → is_enabled spec.control_plane_load_balancer ≡ true
  pub public_lb :
      is_some spec.floating_ip ≡ true
      → is_enabled spec.control_plane_load_balancer ≡ true
      → spec.control_plane_load_balancer.network ≡ ""
  pub pool_network :
      is_enabled spec.control_plane_load_balancer ≡ true
      → spec.control_plane_load_balancer.network ≡ ""
      → spec.control_plane_load_balancer.pool_member_network ≡ ""
      → length spec.networks ≤ 1

module _ (ip : NetIp) where
  address_errors_iff :
      (address : String) (answer : Answer ip.Addr) (path : FieldPath)
      → Says
          (address_errors ip address answer path)
          ((address ≡ "") ⊎ ((a : ip.Addr) × (answer ≡ reply a)))
  unfolding address_errors
  address_errors_iff address (reply a) path = (λ h. inr (a, refl), λ h. refl)
  address_errors_iff address (failure e) path =
      (λ h. inl (unset-empty address ((report-empty _ _).0 h)), λ k. (report-empty _ _).1 (unset k))
    where
      unset : (address ≡ "") ⊎ ((a : ip.Addr) × (failure e ≡ reply a)) → is_set address ≡ false
      unset (inl q) = empty-unset address q
      unset (inr (a, q)) = cc

  abbrev Choice : FloatingIpSpec → Type 0
  Choice fip =
      (eq_bool (is_some fip.ip_family) (is_set fip.address) ≡ false)
      × ((fip.address ≡ "") ⊎ ((a : ip.Addr) × (ip.parse_addr fip.address ≡ reply a)))

  parsed :
      (fip : FloatingIpSpec)
      → (fip.address ≡ "") ⊎ ((a : ip.Addr) × (ip.parse_addr fip.address ≡ reply a))
      → is_set fip.address ≡ true
      → (a : ip.Addr) × (ip.parse_addr fip.address ≡ reply a)
  parsed fip (inl q) s = absurd (is_set-ne fip.address s q)
  parsed fip (inr q) s = q

  Choice-Ok : (fip : FloatingIpSpec) → Choice fip → FloatingIpOk ip (some fip)
  Choice-Ok fip k = elim (Bool-cases (is_set fip.address)) [
    | inl s ↦ inr (ground arith, is_set-ne fip.address s, parsed fip k.1 s)
    | inr s ↦ inl (ground arith, unset-empty fip.address s)
  ]

  Ok-Choice : (fip : FloatingIpSpec) → FloatingIpOk ip (some fip) → Choice fip
  Ok-Choice fip (inl (f, a)) = (rw (f, empty-unset fip.address a) refl, inl a)
  Ok-Choice fip (inr (f, n, p)) = (rw (f, ne-is_set fip.address n) refl, inr p)

  pub floating_ip-Ok :
      (o : Option FloatingIpSpec) (path : FieldPath)
      → Says (validate_floating_ip_if_set ip o path) (FloatingIpOk ip o)
  unfolding validate_floating_ip_if_set validate_floating_ip
  floating_ip-Ok none path = (λ h. tt, λ h. refl)
  floating_ip-Ok (some fip) path =
      let both =
        report-empty (eq_bool (is_some fip.ip_family) (is_set fip.address)) _
        also address_errors_iff fip.address (ip.parse_addr fip.address) (child path "floatingIP") in
      (λ h. Choice-Ok fip (both.0 h), λ k. both.1 (Ok-Choice fip k))

  managed_iff :
      (spec : CloudscaleClusterSpec) (path : FieldPath)
      → Says (validate_floating_ip_requires_lb_or_pre_existing spec path) (
          is_managed_fip spec.floating_ip ≡ true
          → is_enabled spec.control_plane_load_balancer ≡ true)
  unfolding validate_floating_ip_requires_lb_or_pre_existing
  managed_iff spec path = report_unless _ _ _

  public_iff :
      (spec : CloudscaleClusterSpec) (path : FieldPath)
      → Says (validate_floating_ip_requires_public_lb spec path) (
          is_some spec.floating_ip ≡ true
          → is_enabled spec.control_plane_load_balancer ≡ true
          → spec.control_plane_load_balancer.network ≡ "")
  unfolding validate_floating_ip_requires_public_lb
  public_iff spec path =
      let rule =
        report_both (is_some spec.floating_ip) (is_enabled spec.control_plane_load_balancer)
          (is_set spec.control_plane_load_balancer.network) _ in
      (
        λ h f e. unset-empty spec.control_plane_load_balancer.network (rule.0 h f e),
        λ k. rule.1 λ f e. empty-unset spec.control_plane_load_balancer.network (k f e),
      )

  abbrev pool_errors : Bool → Bool → Bool → ℕ → FieldError → List FieldError
  pool_errors enabled network pool n e =
      if not enabled then [] else if network || pool then [] else report (ltb 1 n) e

  pool_rule :
      (enabled network pool : Bool) (n : ℕ) (e : FieldError)
      → pool_errors enabled network pool n e ≡ []
      → enabled ≡ true
      → network ≡ false
      → pool ≡ false
      → n ≤ 1
  pool_rule true false false n e h x y z = ground arith
  pool_rule true false true n e h x y z = cc
  pool_rule true true pool n e h x y z = cc
  pool_rule false network pool n e h x y z = cc

  rule_pool :
      (enabled network pool : Bool) (n : ℕ) (e : FieldError)
      → (enabled ≡ true → network ≡ false → pool ≡ false → n ≤ 1)
      → pool_errors enabled network pool n e ≡ []
  rule_pool true false false n e h = ground (arith, h refl refl refl)
  rule_pool true false true n e h = refl
  rule_pool true true pool n e h = refl
  rule_pool false network pool n e h = refl

  pool_iff :
      (spec : CloudscaleClusterSpec) (path : FieldPath)
      → Says (validate_lb_pool_member_network_resolvable spec path) (
          is_enabled spec.control_plane_load_balancer ≡ true
          → spec.control_plane_load_balancer.network ≡ ""
          → spec.control_plane_load_balancer.pool_member_network ≡ ""
          → length spec.networks ≤ 1)
  unfolding validate_lb_pool_member_network_resolvable
  pool_iff spec path =
      let lb = spec.control_plane_load_balancer in
      (
        λ h e n p.
            pool_rule (is_enabled lb) (is_set lb.network) (is_set lb.pool_member_network) _ _ h e
              (empty-unset lb.network n) (empty-unset lb.pool_member_network p),
        λ k.
            rule_pool (is_enabled lb) (is_set lb.network) (is_set lb.pool_member_network) _ _
              λ e n p. k e (unset-empty lb.network n) (unset-empty lb.pool_member_network p),
      )

  pub validate_combinations-Combined :
      (spec : CloudscaleClusterSpec) (path : FieldPath)
      → Says (validate_combinations ip spec path) (Combined ip spec)
  unfolding validate_combinations
  validate_combinations-Combined spec path =
      let all =
        floating_ip-Ok spec.floating_ip path
        also managed_iff spec path
        also public_iff spec path
        also pool_iff spec path in
      (
        λ h.
            let k = all.0 h in
            record {
              floating_ip = k.0.0.0;
              managed_with_lb = k.0.0.1;
              public_lb = k.0.1;
              pool_network = k.1;
            },
        λ k. all.1 (((k.floating_ip, k.managed_with_lb), k.public_lb), k.pool_network),
      )
