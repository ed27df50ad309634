-- ===== src/Webhook/RouterRules.antt =====
-- What validateRouters accepts.
use cluster_api_provider_clo.Base.{
  IsIn, All-IsIn, ℕ, ◌≡◌, ◌≢◌, ap, ◌∙◌, subst, ◌⊎◌, inl, inr, Bool, true, false, ◌&&◌, Bool-cases,
  Option, none, some, List, [], arith, ◌==◌, eq_iff, is_set, is_set-ne, unset-empty, empty-unset,
  All,
}
use cluster_api_provider_clo.Sdk.{reply}
use cluster_api_provider_clo.Api.Cluster.{NetworkSpec, RouterInterfaceSpec, RouterSpec}
use cluster_api_provider_clo.Webhook.Field.{FieldPath, child, NetIp, find_last}
use cluster_api_provider_clo.Webhook.Networks.{network_name}
use cluster_api_provider_clo.Webhook.Routers.{
  adopted_interface, attached_interface, interface_on_network, validate_router_interface,
}
use cluster_api_provider_clo.Webhook.Reports.{report-empty, report_negated, Says, ◌also◌}
use cluster_api_provider_clo.Webhook.Lookups.{Distinct, find_last-IsIn, find_last-own}
use cluster_api_provider_clo.Webhook.NetworkRules.{
  InCidr, NetworkOk, validate_address-InCidr, InCidr-validate_address,
}

-- How an interface may be declared on its network: as one that exists already, of a router that does,
-- without an address; or as one to attach, with an address, which is in the network's CIDR if the
-- network is one to create.
abbrev pub DeclaredOn : NetIp → Bool → NetworkSpec → RouterInterfaceSpec → Type 0
DeclaredOn ip adopted n iface =
    ((iface.uuid ≢ "") × (adopted ≡ true) × (iface.address ≡ ""))
    ⊎ ((iface.uuid ≡ "") × (iface.address ≢ "") × ((n.cidr ≡ "") ⊎ InCidr ip n.cidr iface.address))

-- The interface is declared on one of the networks, the one of its name.
pub record InterfaceOk (ip : NetIp) (networks : List NetworkSpec) (adopted : Bool)
    (iface : RouterInterfaceSpec) : Type 0 where
  pub network : NetworkSpec
  pub is_in : IsIn network networks
  pub named : network.name ≡ iface.network
  pub declared : DeclaredOn ip adopted network iface

-- A router that exists already does not ask for an internet gateway, and its interfaces are sound.
abbrev pub RouterOk : NetIp → List NetworkSpec → RouterSpec → Type 0
RouterOk ip networks r =
    (is_set r.uuid && r.internet_gateway ≡ false)
    × All (InterfaceOk ip networks (is_set r.uuid)) r.interfaces

module _ (ip : NetIp) where
  parses_of :
      (n : NetworkSpec)
      → NetworkOk ip n
      → n.cidr ≢ ""
      → (p : ip.Prefix) × (ip.parse_prefix n.cidr ≡ reply p)
  parses_of n (inl (u, c, g)) h = absurd (h c)
  parses_of n (inr (u, c, p, g)) h = p

  adopted_iff :
      (iface : RouterInterfaceSpec) (adopted : Bool) (path : FieldPath)
      → Says
          (adopted_interface iface adopted path)
          ((adopted ≡ true) × (is_set iface.address ≡ false))
  unfolding adopted_interface
  adopted_iff iface adopted path = report_negated adopted _ also report-empty _ _

  attached-address :
      (iface : RouterInterfaceSpec) (n : NetworkSpec) (path : FieldPath)
      → NetworkOk ip n
      → attached_interface ip iface n path ≡ []
      → (iface.address ≢ "") × ((n.cidr ≡ "") ⊎ InCidr ip n.cidr iface.address)
  unfolding attached_interface
  attached-address iface n path ok h = (
    (λ e. ground (arith, eq_iff iface.address "")),
    elim (Bool-cases (n.cidr == "")) [
      | inl c ↦ inl ((eq_iff n.cidr "").0 c)
      | inr c ↦
          let p = parses_of n ok (λ e. ground (arith, eq_iff n.cidr "")) in
          inr (
            validate_address-InCidr ip n.cidr iface.address (child path "address") p.0 p.1
              (ground arith))
    ],
  )

  address-attached :
      (iface : RouterInterfaceSpec) (n : NetworkSpec) (path : FieldPath)
      → iface.address ≢ ""
      → (n.cidr ≡ "") ⊎ InCidr ip n.cidr iface.address
      → attached_interface ip iface n path ≡ []
  unfolding attached_interface
  address-attached iface n path a (inl c) =
      ground (arith, eq_iff iface.address "", eq_iff n.cidr "")
  address-attached iface n path a (inr k) = ground (
    arith,
    eq_iff iface.address "",
    InCidr-validate_address ip n.cidr iface.address (child path "address") k,
  )

  declared-adopted :
      (iface : RouterInterfaceSpec) (n : NetworkSpec) (adopted : Bool) (path : FieldPath)
      → is_set iface.uuid ≡ true
      → DeclaredOn ip adopted n iface
      → adopted_interface iface adopted path ≡ []
  declared-adopted iface n adopted path u (inl (v, a, e)) =
      (adopted_iff iface adopted path).1 (a, empty-unset iface.address e)
  declared-adopted iface n adopted path u (inr (v, a, c)) = absurd (is_set-ne iface.uuid u v)

  declared-attached :
      (iface : RouterInterfaceSpec) (n : NetworkSpec) (adopted : Bool) (path : FieldPath)
      → is_set iface.uuid ≡ false
      → DeclaredOn ip adopted n iface
      → attached_interface ip iface n path ≡ []
  declared-attached iface n adopted path u (inl (v, a, e)) = absurd (v (unset-empty iface.uuid u))
  declared-attached iface n adopted path u (inr (v, a, c)) = address-attached iface n path a c

  on_network-DeclaredOn :
      (iface : RouterInterfaceSpec) (n : NetworkSpec) (i : ℕ) (adopted : Bool) (path : FieldPath)
      → NetworkOk ip n
      → Says
          (interface_on_network ip iface (some (n, i)) adopted path)
          (DeclaredOn ip adopted n iface)
  unfolding interface_on_network
  on_network-DeclaredOn iface n i adopted path ok = elim (Bool-cases (is_set iface.uuid)) [
    | inl u ↦ rw u (
      λ h.
          let both = (adopted_iff iface adopted path).0 h in
          inl (is_set-ne iface.uuid u, both.0, unset-empty iface.address both.1),
      declared-adopted iface n adopted path u,
    )
    | inr u ↦ rw u (
      λ h.
          let both = attached-address iface n path ok h in
          inr (unset-empty iface.uuid u, both.0, both.1),
      declared-attached iface n adopted path u,
    )
  ]

  pub interface-Ok :
      (networks : List NetworkSpec) (iface : RouterInterfaceSpec) (adopted : Bool)
      (path : FieldPath) (o : Option (NetworkSpec × ℕ))
      → All (NetworkOk ip) networks
      → find_last network_name iface.network 0 networks ≡ o
      → interface_on_network ip iface o adopted path ≡ []
      → InterfaceOk ip networks adopted iface
  unfolding interface_on_network
  interface-Ok networks iface adopted path none ok e h = cc
  interface-Ok networks iface adopted path (some (n, i)) ok e h =
      let found = find_last-IsIn network_name iface.network 0 networks n i e in
      record {
        network = n;
        is_in = found.0;
        named = found.1;
        declared =
            (on_network-DeclaredOn iface n i adopted path
                (All-IsIn (NetworkOk ip) n networks ok found.0)).0
              h;
      }

  pub Ok-interface :
      (networks : List NetworkSpec) (iface : RouterInterfaceSpec) (adopted : Bool)
      (path : FieldPath)
      → All (NetworkOk ip) networks
      → Distinct network_name networks
      → InterfaceOk ip networks adopted iface
      → validate_router_interface ip iface networks adopted path ≡ []
  unfolding validate_router_interface
  Ok-interface networks iface adopted path ok d k =
      let found = find_last-own network_name 0 networks k.network d k.is_in in
      let here =
        subst (λ name. find_last network_name name 0 networks ≡ some (k.network, found.0)) k.named
          found.1 in
      ap (λ o. interface_on_network ip iface o adopted path) here
      ∙ (on_network-DeclaredOn iface k.network found.0 adopted path
            (All-IsIn (NetworkOk ip) k.network networks ok k.is_in)).1
          k.declared
