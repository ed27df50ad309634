-- ===== src/Webhook/NetworkRules.antt =====
-- What validateNetworks accepts of one network.
use cluster_api_provider_clo.Base.{
  String, ◌≡◌, ◌≢◌, refl, subst, ◌⊎◌, inl, inr, Bool, true, false, not, ◌&&◌, Bool-cases, List, [],
  arith, eq_bool, is_set, is_set-ne, ne-is_set, unset-empty, empty-unset, if◌then◌else◌,
}
use cluster_api_provider_clo.Sdk.{Answer, reply, failure}
use cluster_api_provider_clo.Api.Cluster.{NetworkSpec}
use cluster_api_provider_clo.Webhook.Field.{FieldPath, child, NetIp, has_name}
use cluster_api_provider_clo.Webhook.Networks.{
  address_in_prefix, address_in_cidr, validate_address_in_cidr, cidr_errors, validate_network,
}
use cluster_api_provider_clo.Webhook.Reports.{report-empty, Says, ◌also◌, says_itself}

-- The address is in the CIDR.
pub record InCidr (ip : NetIp) (cidr address : String) : Type 0 where
  pub prefix : ip.Prefix
  pub addr : ip.Addr
  pub parsed : ip.parse_prefix cidr ≡ reply prefix
  pub parsed_address : ip.parse_addr address ≡ reply addr
  pub inside : ip.contains prefix addr ≡ true

-- A network that exists already, or one to create, whose gateway, if there is one, is in its CIDR.
abbrev pub NetworkOk : NetIp → NetworkSpec → Type 0
NetworkOk ip n =
    ((n.uuid ≢ "") × (n.cidr ≡ "") × (n.gateway_address ≡ ""))
    ⊎ ((n.uuid ≡ "")
        × (n.cidr ≢ "")
        × ((p : ip.Prefix) × (ip.parse_prefix n.cidr ≡ reply p))
        × ((n.gateway_address ≡ "") ⊎ InCidr ip n.cidr n.gateway_address))

module _ (ip : NetIp) where
  address_in_prefix-inside :
      (cidr : String) (p : ip.Prefix) (address : String) (answer : Answer ip.Addr)
      (path : FieldPath)
      → address_in_prefix ip cidr p address answer path ≡ []
      → (a : ip.Addr) × (answer ≡ reply a) × (ip.contains p a ≡ true)
  unfolding address_in_prefix
  address_in_prefix-inside cidr p address (failure e) path h = cc
  address_in_prefix-inside cidr p address (reply a) path h = (a, refl, ground arith)

  -- Where the CIDR parses, an address without an error is in it.
  pub validate_address-InCidr :
      (cidr address : String) (path : FieldPath) (p : ip.Prefix)
      → ip.parse_prefix cidr ≡ reply p
      → validate_address_in_cidr ip cidr address path ≡ []
      → InCidr ip cidr address
  unfolding validate_address_in_cidr address_in_cidr
  validate_address-InCidr cidr address path p e h =
      let found =
        address_in_prefix-inside cidr p address (ip.parse_addr address) path
          (subst (λ x. address_in_cidr ip cidr x address path ≡ []) e h) in
      record { prefix = p; addr = found.0; parsed = e; parsed_address = found.1; inside = found.2 }

  pub InCidr-validate_address :
      (cidr address : String) (path : FieldPath)
      → InCidr ip cidr address
      → validate_address_in_cidr ip cidr address path ≡ []
  unfolding validate_address_in_cidr address_in_cidr address_in_prefix
  InCidr-validate_address cidr address path k = rw (k.parsed, k.parsed_address, k.inside) refl

  cidr_errors-parses :
      (cidr : String) (answer : Answer ip.Prefix) (path : FieldPath)
      → cidr_errors ip cidr answer path ≡ []
      → (p : ip.Prefix) × (answer ≡ reply p)
  unfolding cidr_errors
  cidr_errors-parses cidr (reply p) path h = (p, refl)
  cidr_errors-parses cidr (failure e) path h = cc

  -- What the errors of one network say, test by test.
  abbrev pub Parts : List String → FieldPath → NetworkSpec → Type 0
  Parts names path n =
      (((((has_name names n.name ≡ false) × (eq_bool (is_set n.uuid) (is_set n.cidr) ≡ false))
            × ((if is_set n.cidr
                  then cidr_errors ip n.cidr (ip.parse_prefix n.cidr) (child path "cidr")
                  else [])
                ≡ []))
          × (is_set n.gateway_address && not (is_set n.cidr) ≡ false))
        × ((if is_set n.gateway_address && is_set n.cidr
              then validate_address_in_cidr ip n.cidr n.gateway_address
                  (child path "gatewayAddress")
              else [])
            ≡ []))

  pub validate_network-Parts :
      (names : List String) (path : FieldPath) (n : NetworkSpec)
      → Says (validate_network ip names path n) (Parts names path n)
  unfolding validate_network
  validate_network-Parts names path n =
      report-empty _ _
      also report-empty _ _
      also says_itself _
      also report-empty _ _
      also says_itself _

  parsed_of :
      (names : List String) (path : FieldPath) (n : NetworkSpec)
      → Parts names path n
      → is_set n.cidr ≡ true
      → (p : ip.Prefix) × (ip.parse_prefix n.cidr ≡ reply p)
  parsed_of names path n k c =
      cidr_errors-parses n.cidr (ip.parse_prefix n.cidr) (child path "cidr") (ground arith)

  gateway_of :
      (names : List String) (path : FieldPath) (n : NetworkSpec)
      → Parts names path n
      → is_set n.cidr ≡ true
      → (n.gateway_address ≡ "") ⊎ InCidr ip n.cidr n.gateway_address
  gateway_of names path n k c = elim (Bool-cases (is_set n.gateway_address)) [
    | inl g ↦
        let p = parsed_of names path n k c in
        inr (
          validate_address-InCidr n.cidr n.gateway_address (child path "gatewayAddress") p.0 p.1
            (ground arith))
    | inr g ↦ inl (unset-empty n.gateway_address g)
  ]

  pub Parts-NetworkOk :
      (names : List String) (path : FieldPath) (n : NetworkSpec)
      → Parts names path n
      → NetworkOk ip n
  Parts-NetworkOk names path n k = elim (Bool-cases (is_set n.cidr)) [
    | inl c ↦ inr (
      unset-empty n.uuid (ground arith),
      is_set-ne n.cidr c,
      parsed_of names path n k c,
      gateway_of names path n k c,
    )
    | inr c ↦ inl (
      is_set-ne n.uuid (ground arith),
      unset-empty n.cidr c,
      unset-empty n.gateway_address (ground arith),
    )
  ]

  if_empty : {A : Type 0} (b : Bool) (xs : List A) → xs ≡ [] → (if b then xs else []) ≡ []
  if_empty true xs h = h
  if_empty false xs h = refl

  pub NetworkOk-Parts :
      (names : List String) (path : FieldPath) (n : NetworkSpec)
      → has_name names n.name ≡ false
      → NetworkOk ip n
      → Parts names path n
  unfolding cidr_errors
  NetworkOk-Parts names path n f (inl (u, c, g)) =
      let u' = ne-is_set n.uuid u in
      let c' = empty-unset n.cidr c in
      let g' = empty-unset n.gateway_address g in
      ((((f, rw (u', c') refl), rw c' refl), rw g' refl), rw g' refl)
  NetworkOk-Parts names path n f (inr (u, c, p, inl g)) =
      let u' = empty-unset n.uuid u in
      let c' = ne-is_set n.cidr c in
      let g' = empty-unset n.gateway_address g in
      ((((f, rw (u', c') refl), rw (c', p.1) refl), rw g' refl), rw g' refl)
  NetworkOk-Parts names path n f (inr (u, c, p, inr g)) =
      let u' = empty-unset n.uuid u in
      let c' = ne-is_set n.cidr c in
      (
        (((f, rw (u', c') refl), rw (c', p.1) refl), ground arith),
        if_empty (is_set n.gateway_address && is_set n.cidr) _
            (InCidr-validate_address n.cidr n.gateway_address (child path "gatewayAddress") g),
      )
