-- ===== src/Webhook/RouterLists.antt =====
-- What validateRouters accepts.
use cluster_api_provider_clo.Base.{ℕ, ◌≡◌, refl, ◌↔◌, Bool, List, [], ◌∷◌, suc, is_set, All, ◌&&◌}
use cluster_api_provider_clo.Api.Cluster.{NetworkSpec, RouterInterfaceSpec, RouterSpec}
use cluster_api_provider_clo.Webhook.Field.{FieldPath, at_index, child, NetIp, find_last}
use cluster_api_provider_clo.Webhook.Networks.{network_name}
use cluster_api_provider_clo.Webhook.Routers.{
  validate_router_interface, interfaces_from, validate_single_router, routers_from,
  validate_routers,
}
use cluster_api_provider_clo.Webhook.Reports.{report-empty, Says, ◌also◌}
use cluster_api_provider_clo.Webhook.Lookups.{Distinct}
use cluster_api_provider_clo.Webhook.NetworkRules.{NetworkOk}
use cluster_api_provider_clo.Webhook.RouterRules.{InterfaceOk, RouterOk, interface-Ok, Ok-interface}

module _ (ip : NetIp) (networks : List NetworkSpec) (ok : All (NetworkOk ip) networks)
    (d : Distinct network_name networks) where
  validate_interface-Ok :
      (iface : RouterInterfaceSpec) (adopted : Bool) (path : FieldPath)
      → Says
          (validate_router_interface ip iface networks adopted path)
          (InterfaceOk ip networks adopted iface)
  unfolding validate_router_interface
  validate_interface-Ok iface adopted path = (
    λ h.
        interface-Ok ip networks iface adopted path
          (find_last network_name iface.network 0 networks) ok refl h,
    Ok-interface ip networks iface adopted path ok d,
  )

  interfaces_from-Ok :
      (adopted : Bool) (j : ℕ) (path : FieldPath) (is : List RouterInterfaceSpec)
      → Says
          (interfaces_from ip networks adopted j path is)
          (All (InterfaceOk ip networks adopted) is)
  unfolding interfaces_from
  interfaces_from-Ok adopted j path [] = (λ h. tt, λ h. refl)
  interfaces_from-Ok adopted j path (i ∷ is) =
      validate_interface-Ok i adopted (at_index (child path "interfaces") j)
      also interfaces_from-Ok adopted (suc j) path is

  single_router-Ok :
      (r : RouterSpec) (path : FieldPath)
      → Says (validate_single_router ip r networks path) (RouterOk ip networks r)
  unfolding validate_single_router
  single_router-Ok r path =
      report-empty (is_set r.uuid && r.internet_gateway) _
      also interfaces_from-Ok (is_set r.uuid) 0 path r.interfaces

  routers_from-Ok :
      (i : ℕ) (path : FieldPath) (rs : List RouterSpec)
      → Says (routers_from ip networks i path rs) (All (RouterOk ip networks) rs)
  unfolding routers_from
  routers_from-Ok i path [] = (λ h. tt, λ h. refl)
  routers_from-Ok i path (r ∷ rs) =
      single_router-Ok r (at_index path i) also routers_from-Ok (suc i) path rs

  -- Where the networks are sound and have distinct names, validateRouters reports no error exactly
  -- where each router that exists already asks for no internet gateway, and each interface names a
  -- network of the spec and is declared in one of two ways: with the UUID of an interface that exists
  -- already, only on a router that does, and without an address; or without a UUID and with an
  -- address, which is in the CIDR of the network if that has one.
  pub validate_routers-Ok :
      (rs : List RouterSpec) (path : FieldPath)
      → (validate_routers ip rs networks path ≡ []) ↔ All (RouterOk ip networks) rs
  unfolding validate_routers
  validate_routers-Ok rs path = routers_from-Ok 0 path rs
