-- ===== src/Webhook/Warnings.antt =====
-- When a cluster is admitted with a warning.
use cluster_api_provider_clo.Base.{
  ◌≡◌, ◌≢◌, refl, ◌⊎◌, inl, inr, ◌↔◌, Bool, true, false, not, ◌&&◌, Bool-cases, List, [], ◌∷◌,
  arith, ◌==◌, eq_iff, is_set, is_set-ne, ne-is_set, if◌then◌else◌, All, append-empty,
}
use cluster_api_provider_clo.Api.Cluster.{
  NetworkSpec, RouterInterfaceSpec, RouterSpec, CloudscaleClusterSpec,
}
use cluster_api_provider_clo.Webhook.Routers.{
  network_has_gateway, router_has_gateway, snat_warning, snat_warnings, check_snat_configuration,
}
use cluster_api_provider_clo.Webhook.Reports.{append-both}

-- One of the networks is that of the interface, and has a gateway.
abbrev pub GatewayOn : List NetworkSpec → RouterInterfaceSpec → Type 0
GatewayOn [] iface = ⊥
GatewayOn (n ∷ ns) iface =
    ((n.name ≡ iface.network) × (n.gateway_address ≢ "")) ⊎ GatewayOn ns iface

-- One of the interfaces is on a network with a gateway.
abbrev pub HasGateway : List NetworkSpec → List RouterInterfaceSpec → Type 0
HasGateway networks [] = ⊥
HasGateway networks (i ∷ is) = GatewayOn networks i ⊎ HasGateway networks is

on-forward :
    (iface : RouterInterfaceSpec) (ns : List NetworkSpec)
    → network_has_gateway iface ns ≡ true
    → GatewayOn ns iface
unfolding network_has_gateway
on-forward iface [] h = cc
on-forward iface (n ∷ ns) h =
    elim (Bool-cases ((n.name == iface.network) && is_set n.gateway_address)) [
      | inl b ↦ inl (
        (eq_iff n.name iface.network).0 (ground arith),
        is_set-ne n.gateway_address (ground arith),
      )
      | inr b ↦ inr (on-forward iface ns (ground arith))
    ]

on-backward :
    (iface : RouterInterfaceSpec) (ns : List NetworkSpec)
    → GatewayOn ns iface
    → network_has_gateway iface ns ≡ true
unfolding network_has_gateway
on-backward iface [] k = absurd k
on-backward iface (n ∷ ns) (inl (e, g)) =
    rw ((eq_iff n.name iface.network).1 e, ne-is_set n.gateway_address g) refl
on-backward iface (n ∷ ns) (inr k) = ground (arith, on-backward iface ns k)

has-forward :
    (is : List RouterInterfaceSpec) (ns : List NetworkSpec)
    → router_has_gateway is ns ≡ true
    → HasGateway ns is
unfolding router_has_gateway
has-forward [] ns h = cc
has-forward (i ∷ is) ns h = elim (Bool-cases (network_has_gateway i ns)) [
  | inl b ↦ inl (on-forward i ns b)
  | inr b ↦ inr (has-forward is ns (ground arith))
]

has-backward :
    (is : List RouterInterfaceSpec) (ns : List NetworkSpec)
    → HasGateway ns is
    → router_has_gateway is ns ≡ true
unfolding router_has_gateway
has-backward [] ns k = absurd k
has-backward (i ∷ is) ns (inl k) = ground (arith, on-backward i ns k)
has-backward (i ∷ is) ns (inr k) = ground (arith, has-backward is ns k)

one_iff :
    (r : RouterSpec) (ns : List NetworkSpec)
    → ((if r.internet_gateway && not (router_has_gateway r.interfaces ns)
          then snat_warning r ∷ []
          else [])
        ≡ [])
      ↔ (r.internet_gateway ≡ true → HasGateway ns r.interfaces)
one_iff r ns = elim (Bool-cases (router_has_gateway r.interfaces ns)) [
  | inl g ↦ (λ h i. has-forward r.interfaces ns g, λ k. ground arith)
  | inr g ↦ (λ h i. ground arith, λ k. without r.internet_gateway refl k)
]
  where
    without :
        (b : Bool)
        → r.internet_gateway ≡ b
        → (r.internet_gateway ≡ true → HasGateway ns r.interfaces)
        → (if b && not (router_has_gateway r.interfaces ns) then snat_warning r ∷ [] else []) ≡ []
    without true e k = ground (arith, has-backward r.interfaces ns (k e))
    without false e k = refl

warnings_iff :
    (rs : List RouterSpec) (ns : List NetworkSpec)
    → (snat_warnings rs ns ≡ [])
      ↔ All (λ (r : RouterSpec). r.internet_gateway ≡ true → HasGateway ns r.interfaces) rs
unfolding snat_warnings
warnings_iff [] ns = (λ h. tt, λ h. refl)
warnings_iff (r ∷ rs) ns = (
  λ h.
      let both = append-empty _ (snat_warnings rs ns) h in
      ((one_iff r ns).0 both.0, (warnings_iff rs ns).0 both.1),
  λ k. append-both _ (snat_warnings rs ns) ((one_iff r ns).1 k.0) ((warnings_iff rs ns).1 k.1),
)

-- There is no warning exactly where each router that asks for an internet gateway has an interface on
-- a network of the spec that has a gateway address.
pub check_snat_configuration-HasGateway :
    (spec : CloudscaleClusterSpec)
    → (check_snat_configuration spec ≡ [])
      ↔ All
          (λ (r : RouterSpec). r.internet_gateway ≡ true → HasGateway spec.networks r.interfaces)
          spec.routers
unfolding check_snat_configuration
check_snat_configuration-HasGateway spec = warnings_iff spec.routers spec.networks
