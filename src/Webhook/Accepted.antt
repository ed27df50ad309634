-- ===== src/Webhook/Accepted.antt =====
-- Which new clusters the webhook admits.
use cluster_api_provider_clo.Base.{
  String, ◌≡◌, refl, ◌⊎◌, inl, inr, ◌↔◌, true, Bool-cases, List, [], is_set, is_set-ne, unset-empty,
  if◌then◌else◌, All,
}
use cluster_api_provider_clo.Api.Cluster.{NetworkSpec, CloudscaleClusterSpec, CloudscaleCluster}
use cluster_api_provider_clo.Webhook.Field.{FieldPath, child, NetIp}
use cluster_api_provider_clo.Webhook.Regions.{RegionInfo, zone_belongs_to_region}
use cluster_api_provider_clo.Webhook.Networks.{
  network_name, validate_networks, validate_network_reference,
}
use cluster_api_provider_clo.Webhook.LoadBalancers.{validate_lb_references}
use cluster_api_provider_clo.Webhook.Routers.{validate_routers}
use cluster_api_provider_clo.Webhook.Clusters.{
  spec_path, validate_combinations, validate_zone, cluster_spec_validate_create, validate_create,
}
use cluster_api_provider_clo.Webhook.Reports.{report_negated, Says, ◌also◌, says_itself}
use cluster_api_provider_clo.Webhook.Lookups.{Distinct}
use cluster_api_provider_clo.Webhook.NetworkRules.{NetworkOk}
use cluster_api_provider_clo.Webhook.NetworkLists.{
  Named, validate_networks-Ok, validate_network_reference-Named,
}
use cluster_api_provider_clo.Webhook.RouterRules.{RouterOk}
use cluster_api_provider_clo.Webhook.RouterLists.{validate_routers-Ok}
use cluster_api_provider_clo.Webhook.Combinations.{Combined, validate_combinations-Combined}

-- A name that is empty or a network's.
abbrev pub Reference : String → List NetworkSpec → Type 0
Reference name networks = (name ≡ "") ⊎ Named name networks

-- A spec whose networks, routers and references are sound.
pub record Sound (ip : NetIp) (spec : CloudscaleClusterSpec) : Type 0 where
  pub names : Distinct network_name spec.networks
  pub networks : All (NetworkOk ip) spec.networks
  pub routers : All (RouterOk ip spec.networks) spec.routers
  pub lb_network : Reference spec.control_plane_load_balancer.network spec.networks
  pub pool_network : Reference spec.control_plane_load_balancer.pool_member_network spec.networks
  pub combined : Combined ip spec

module _ (ip : NetIp) where
  validate_name-Reference :
      (name : String) (networks : List NetworkSpec) (path : FieldPath)
      → Says
          (if is_set name then validate_network_reference name networks path else [])
          (Reference name networks)
  validate_name-Reference name networks path = elim (Bool-cases (is_set name)) [
    | inl s ↦ rw s (
      λ h. inr ((validate_network_reference-Named name networks path).0 h),
      λ k. (validate_network_reference-Named name networks path).1 (named k s),
    )
    | inr s ↦ rw s (λ h. inl (unset-empty name s), λ k. refl)
  ]
    where
      named : Reference name networks → is_set name ≡ true → Named name networks
      named (inl q) s = absurd (is_set-ne name s q)
      named (inr q) s = q

  references_iff :
      (spec : CloudscaleClusterSpec) (path : FieldPath)
      → Says (validate_lb_references spec path) (
          Reference spec.control_plane_load_balancer.network spec.networks
          × Reference spec.control_plane_load_balancer.pool_member_network spec.networks)
  unfolding validate_lb_references
  references_iff spec path =
      validate_name-Reference spec.control_plane_load_balancer.network spec.networks _
      also validate_name-Reference spec.control_plane_load_balancer.pool_member_network
          spec.networks _

  pub spec_errors-Sound :
      (spec : CloudscaleClusterSpec) (path : FieldPath)
      → (validate_networks ip spec.networks (child path "networks") ≡ [])
          × (validate_routers ip spec.routers spec.networks (child path "routers") ≡ [])
          × (validate_lb_references spec path ≡ [])
          × (validate_combinations ip spec path ≡ [])
        ↔ Sound ip spec
  spec_errors-Sound spec path = (
    λ h.
        let n = (validate_networks-Ok ip spec.networks (child path "networks")).0 h.0 in
        let refs = (references_iff spec path).0 h.2 in
        record {
          names = n.0;
          networks = n.1;
          routers =
              (validate_routers-Ok ip spec.networks n.1 n.0 spec.routers (child path "routers")).0
                h.1;
          lb_network = refs.0;
          pool_network = refs.1;
          combined = (validate_combinations-Combined ip spec path).0 h.3;
        },
    λ k. (
      (validate_networks-Ok ip spec.networks (child path "networks")).1 (k.names, k.networks),
      (validate_routers-Ok ip spec.networks k.networks k.names spec.routers
            (child path "routers")).1
          k.routers,
      (references_iff spec path).1 (k.lb_network, k.pool_network),
      (validate_combinations-Combined ip spec path).1 k.combined,
    ),
  )

  zone_iff :
      (info : RegionInfo) (spec : CloudscaleClusterSpec) (path : FieldPath)
      → Says
          (validate_zone info spec path)
          ((spec.zone ≡ "") ⊎ (zone_belongs_to_region info spec.zone spec.region ≡ true))
  unfolding validate_zone
  zone_iff info spec path = elim (Bool-cases (is_set spec.zone)) [
    | inl s ↦ rw s (λ h. inr ((report_negated _ _).0 h), λ k. (report_negated _ _).1 (belongs k s))
    | inr s ↦ rw s (λ h. inl (unset-empty spec.zone s), λ k. refl)
  ]
    where
      belongs :
          (spec.zone ≡ "") ⊎ (zone_belongs_to_region info spec.zone spec.region ≡ true)
          → is_set spec.zone ≡ true
          → zone_belongs_to_region info spec.zone spec.region ≡ true
      belongs (inl q) s = absurd (is_set-ne spec.zone s q)
      belongs (inr q) s = q

  -- ValidateCreate admits a cluster exactly where the zone is empty or one of the region, and the
  -- spec is sound: networks with distinct names that are each either of a UUID or of a CIDR; routers
  -- on those networks; references of the load balancer to those networks; and a floating IP, a load
  -- balancer and networks that go together.
  pub validate_create-Sound :
      (info : RegionInfo) (c : CloudscaleCluster)
      → ((validate_create ip info c).errors ≡ []) ↔ (
          ((c.spec.zone ≡ "") ⊎ (zone_belongs_to_region info c.spec.zone c.spec.region ≡ true))
          × Sound ip c.spec)
  unfolding validate_create cluster_spec_validate_create
  validate_create-Sound info c =
      let zone = zone_iff info c.spec spec_path in
      let sound = spec_errors-Sound c.spec spec_path in
      let all =
        zone
        also says_itself (validate_networks ip c.spec.networks (child spec_path "networks"))
        also says_itself
            (validate_routers ip c.spec.routers c.spec.networks (child spec_path "routers"))
        also says_itself (validate_lb_references c.spec spec_path)
        also says_itself (validate_combinations ip c.spec spec_path) in
      (
        λ h. let k = all.0 h in (k.0.0.0.0, sound.0 (k.0.0.0.1, k.0.0.1, k.0.1, k.1)),
        λ k. let e = sound.1 k.1 in all.1 ((((k.0, e.0), e.1), e.2), e.3),
      )
