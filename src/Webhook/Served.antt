-- ===== src/Webhook/Served.antt =====
-- What the controller finds for a cluster that the webhook admitted.
use cluster_api_provider_clo.Base.{
  All-IsIn, String, ◌≡◌, subst, Bool, is_set, true, List, [], ◌∷◌, inl, inr, ◌⊎◌, All, All-map,
}
use cluster_api_provider_clo.Api.Cluster.{
  NetworkSpec, RouterInterfaceSpec, RouterSpec, NetworkStatus,
}
use cluster_api_provider_clo.Scope.{Scope, Env, ok, CtrlResult, is_zero}
use cluster_api_provider_clo.Network.Entries.{IsProvisioned}
use cluster_api_provider_clo.Network.Provision.{reconcile_network}
use cluster_api_provider_clo.Network.Ready.{reconcile_network-IsProvisioned}
use cluster_api_provider_clo.Network.Status.{networks_of}
use cluster_api_provider_clo.Network.Written.{ReturnsIds}
use cluster_api_provider_clo.Webhook.Field.{NetIp}
use cluster_api_provider_clo.Webhook.Accepted.{Reference, validate_create-Sound}
use cluster_api_provider_clo.Webhook.Clusters.{validate_create}
use cluster_api_provider_clo.Webhook.Regions.{RegionInfo}
use cluster_api_provider_clo.Webhook.NetworkLists.{Named}
use cluster_api_provider_clo.Webhook.RouterRules.{InterfaceOk, RouterOk}

-- The networks that the spec refers to have an entry with both IDs.
pub record Served (networks : List NetworkStatus) (routers : List RouterSpec)
    (lb_network pool_member_network : String) : Type 0 where
  pub interfaces :
      All
        (λ (r : RouterSpec).
          All (λ (i : RouterInterfaceSpec). IsProvisioned i.network networks) r.interfaces)
        routers
  pub lb : (lb_network ≡ "") ⊎ IsProvisioned lb_network networks
  pub pool : (pool_member_network ≡ "") ⊎ IsProvisioned pool_member_network networks

module _ (ip : NetIp) (specs : List NetworkSpec) (statuses : List NetworkStatus)
    (all : All (λ (n : NetworkSpec). IsProvisioned n.name statuses) specs) where
  Named-provisioned :
      (name : String) (ns : List NetworkSpec)
      → All (λ (n : NetworkSpec). IsProvisioned n.name statuses) ns
      → Named name ns
      → IsProvisioned name statuses
  Named-provisioned name [] h k = absurd k
  Named-provisioned name (n ∷ ns) h (inl e) = subst (λ s. IsProvisioned s statuses) e h.0
  Named-provisioned name (n ∷ ns) h (inr k) = Named-provisioned name ns h.1 k

  network_referred :
      (name : String) → Reference name specs → (name ≡ "") ⊎ IsProvisioned name statuses
  network_referred name (inl e) = inl e
  network_referred name (inr k) = inr (Named-provisioned name specs all k)

  interface-provisioned :
      (adopted : Bool) (i : RouterInterfaceSpec)
      → InterfaceOk ip specs adopted i
      → IsProvisioned i.network statuses
  interface-provisioned adopted i k =
      subst (λ s. IsProvisioned s statuses) k.named
        (All-IsIn (λ (n : NetworkSpec). IsProvisioned n.name statuses) k.network specs all k.is_in)

  router-provisioned :
      (r : RouterSpec)
      → RouterOk ip specs r
      → All (λ (i : RouterInterfaceSpec). IsProvisioned i.network statuses) r.interfaces
  router-provisioned r k =
      All-map (InterfaceOk ip specs (is_set r.uuid)) (λ i. IsProvisioned i.network statuses)
        (interface-provisioned (is_set r.uuid)) r.interfaces k.1

module _ {W : Type 0} (ip : NetIp) (env : Env W) (ids : ReturnsIds env.client) where
  -- Where ValidateCreate admits the cluster, and reconcileNetwork returns no error and asks for no
  -- requeue, each network that a router's interface or the load balancer of the spec refers to has an
  -- entry in the status with a network ID and a subnet ID, if the services return no empty ID.
  pub reconcile_network-Served :
      (info : RegionInfo) (s : Scope W) (r : CtrlResult)
      → (validate_create ip info s.cluster).errors ≡ []
      → (reconcile_network env s).0 ≡ ok r
      → is_zero r ≡ true
      → Served
          (networks_of (reconcile_network env s).1)
          s.cluster.spec.routers
          s.cluster.spec.control_plane_load_balancer.network
          s.cluster.spec.control_plane_load_balancer.pool_member_network
  reconcile_network-Served info s r admitted h z =
      let k = ((validate_create-Sound ip info s.cluster).0 admitted).1 in
      let spec = s.cluster.spec in
      let after = networks_of (reconcile_network env s).1 in
      let all = reconcile_network-IsProvisioned env ids s r h z in
      record {
        interfaces =
            All-map (RouterOk ip spec.networks)
              (λ (r : RouterSpec).
                All (λ (i : RouterInterfaceSpec). IsProvisioned i.network after) r.interfaces)
              (router-provisioned ip spec.networks after all) spec.routers k.routers;
        lb =
            network_referred ip spec.networks after all spec.control_plane_load_balancer.network
              k.lb_network;
        pool =
            network_referred ip spec.networks after all
              spec.control_plane_load_balancer.pool_member_network k.pool_network;
      }
