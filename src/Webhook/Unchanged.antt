-- ===== src/Webhook/Unchanged.antt =====
-- An update that changes nothing.
use cluster_api_provider_clo.Base.{
  IsIn, ◌≡◌, refl, ap, ◌∙◌, inl, inr, Option, none, some, List, [], ◌∷◌, All,
}
use cluster_api_provider_clo.Api.Cluster.{
  NetworkSpec, RouterInterfaceSpec, RouterSpec, LoadBalancerSpec, FloatingIpSpec, CloudscaleCluster,
}
use cluster_api_provider_clo.Webhook.Field.{FieldPath, child, at_index, find_last, NetIp}
use cluster_api_provider_clo.Webhook.Networks.{
  network_name, network_unchanged, validate_network_immutability,
}
use cluster_api_provider_clo.Webhook.Routers.{
  router_name, interface_network, interface_unchanged, interfaces_unchanged, router_unchanged,
  validate_router_diff,
}
use cluster_api_provider_clo.Webhook.Clusters.{spec_path, validate_update}
use cluster_api_provider_clo.Webhook.Accepted.{Sound, spec_errors-Sound}
use cluster_api_provider_clo.Webhook.Kept.{
  network_unchanged_iff, interface_unchanged_iff, router_unchanged_iff,
}
use cluster_api_provider_clo.Webhook.Lookups.{Distinct, find_last-own}
use cluster_api_provider_clo.Webhook.Preserved.{LbKept, FloatingIpKept, update-Rules}
use cluster_api_provider_clo.Webhook.Reports.{append-both}

-- What the schema of the object demands: routers are a list with distinct names, and the interfaces
-- of each are one with distinct networks.
pub record ListMaps (rs : List RouterSpec) : Type 0 where
  pub names : Distinct router_name rs
  pub networks : All (λ r. Distinct interface_network r.interfaces) rs

IsIn-All :
    {A : Type 0} (xs ys : List A) → ((x : A) → IsIn x xs → IsIn x ys) → All (λ x. IsIn x ys) xs
IsIn-All [] ys f = tt
IsIn-All (x ∷ xs) ys f = (f x (inl refl), IsIn-All xs ys (λ y k. f y (inr k)))

-- Each element of a list is in it.
each_IsIn : {A : Type 0} (xs : List A) → All (λ x. IsIn x xs) xs
each_IsIn xs = IsIn-All xs xs (λ x k. k)

network-same :
    (path : FieldPath) (ns : List NetworkSpec) (n : NetworkSpec)
    → Distinct network_name ns
    → IsIn n ns
    → network_unchanged path n (find_last network_name n.name 0 ns) ≡ []
network-same path ns n d k =
    let found = find_last-own network_name 0 ns n d k in
    ap (network_unchanged path n) found.1
    ∙ (network_unchanged_iff path n n found.0).1 (((refl, refl), refl), refl)

networks-same :
    (path : FieldPath) (ns old : List NetworkSpec)
    → Distinct network_name ns
    → All (λ n. IsIn n ns) old
    → validate_network_immutability old ns path ≡ []
unfolding validate_network_immutability
networks-same path ns [] d k = refl
networks-same path ns (n ∷ rest) d k =
    append-both (network_unchanged path n (find_last network_name n.name 0 ns)) _
      (network-same path ns n d k.0) (networks-same path ns rest d k.1)

interface-same :
    (path : FieldPath) (is : List RouterInterfaceSpec) (i : RouterInterfaceSpec)
    → Distinct interface_network is
    → IsIn i is
    → interface_unchanged path i (find_last interface_network i.network 0 is) ≡ []
interface-same path is i d k =
    let found = find_last-own interface_network 0 is i d k in
    ap (interface_unchanged path i) found.1
    ∙ (interface_unchanged_iff path i i found.0).1 (refl, refl)

interfaces-same :
    (path : FieldPath) (is old : List RouterInterfaceSpec)
    → Distinct interface_network is
    → All (λ i. IsIn i is) old
    → interfaces_unchanged path old is ≡ []
unfolding interfaces_unchanged
interfaces-same path is [] d k = refl
interfaces-same path is (i ∷ rest) d k =
    append-both (interface_unchanged path i (find_last interface_network i.network 0 is)) _
      (interface-same path is i d k.0) (interfaces-same path is rest d k.1)

router-same :
    (path : FieldPath) (rs : List RouterSpec) (r : RouterSpec)
    → Distinct router_name rs
    → IsIn r rs
    → Distinct interface_network r.interfaces
    → router_unchanged path r (find_last router_name r.name 0 rs) ≡ []
router-same path rs r d k e =
    let found = find_last-own router_name 0 rs r d k in
    ap (router_unchanged path r) found.1
    ∙ (router_unchanged_iff path r r found.0).1 (
      (refl, refl),
      interfaces-same (at_index path found.0) r.interfaces r.interfaces e (each_IsIn r.interfaces),
    )

routers-same :
    (path : FieldPath) (rs old : List RouterSpec)
    → Distinct router_name rs
    → All (λ r. IsIn r rs) old
    → All (λ r. Distinct interface_network r.interfaces) old
    → validate_router_diff old rs path ≡ []
unfolding validate_router_diff
routers-same path rs [] d k e = refl
routers-same path rs (r ∷ rest) d k e =
    append-both (router_unchanged path r (find_last router_name r.name 0 rs)) _
      (router-same path rs r d k.0 e.0) (routers-same path rs rest d k.1 e.1)

lb-same : (lb : LoadBalancerSpec) → LbKept lb lb
lb-same lb = record {
  enabled = refl;
  network = refl;
  algorithm = refl;
  flavor = refl;
  api_server_port = refl;
  pool_member_network = refl;
  delay_s = refl;
  timeout_s = refl;
  up_threshold = refl;
  down_threshold = refl;
}

floating_ip-same : (o : Option FloatingIpSpec) → FloatingIpKept o o
floating_ip-same none = tt
floating_ip-same (some fip) = (refl, refl)

module _ (ip : NetIp) where
  -- An update that leaves a sound spec as it is, is admitted, if the routers have distinct names and
  -- the interfaces of each of them distinct networks.
  pub validate_update-unchanged :
      (c : CloudscaleCluster)
      → Sound ip c.spec
      → ListMaps c.spec.routers
      → (validate_update ip c c).errors ≡ []
  unfolding validate_update
  validate_update-unchanged c k m =
      let spec = c.spec in
      let sound = (spec_errors-Sound ip spec spec_path).1 k in
      let networks =
        networks-same (child spec_path "networks") spec.networks spec.networks k.names
          (each_IsIn spec.networks) in
      let routers =
        routers-same (child spec_path "routers") spec.routers spec.routers m.names
          (each_IsIn spec.routers) m.networks in
      (update-Rules ip spec spec).1 (
        (
          (
            (
              (
                (((((refl, refl), networks), sound.0), sound.1), routers),
                lb-same spec.control_plane_load_balancer,
              ),
              sound.2,
            ),
            λ n. (refl, refl),
          ),
          floating_ip-same spec.floating_ip,
        ),
        sound.3,
      )
