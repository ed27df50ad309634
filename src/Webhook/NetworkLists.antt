-- ===== src/Webhook/NetworkLists.antt =====
-- What validateNetworks and validateNetworkReference accept.
use cluster_api_provider_clo.Base.{
  ℕ, String, ◌≡◌, ◌≢◌, refl, ◌⊎◌, inl, inr, ◌↔◌, false, Bool-cases, List, [], ◌∷◌, suc, arith, ◌==◌,
  eq_iff, All, append-empty,
}
use cluster_api_provider_clo.Api.Cluster.{NetworkSpec}
use cluster_api_provider_clo.Webhook.Field.{FieldPath, at_index, NetIp, has_name}
use cluster_api_provider_clo.Webhook.Networks.{
  validate_network, network_name, networks_from, validate_networks, validate_network_reference,
}
use cluster_api_provider_clo.Webhook.Reports.{append-both}
use cluster_api_provider_clo.Webhook.NetworkRules.{
  NetworkOk, validate_network-Parts, Parts-NetworkOk, NetworkOk-Parts,
}
use cluster_api_provider_clo.Webhook.Lookups.{Distinct}

-- None of the networks has one of the names.
abbrev Fresh : List String → List NetworkSpec → Type 0
Fresh names = All λ n. has_name names n.name ≡ false

has_name-later :
    (name : String) (names : List String) (n : NetworkSpec)
    → has_name (name ∷ names) n.name ≡ false
    → (n.name ≢ name) × (has_name names n.name ≡ false)
unfolding has_name
has_name-later name names n h = (λ e. ground (arith, eq_iff name n.name), ground arith)

has_name-earlier :
    (name : String) (names : List String) (n : NetworkSpec)
    → n.name ≢ name
    → has_name names n.name ≡ false
    → has_name (name ∷ names) n.name ≡ false
unfolding has_name
has_name-earlier name names n d h = ground (arith, eq_iff name n.name)

Fresh-later :
    (name : String) (names : List String) (ns : List NetworkSpec)
    → Fresh (name ∷ names) ns
    → All (λ (m : NetworkSpec). m.name ≢ name) ns × Fresh names ns
Fresh-later name names [] h = (tt, tt)
Fresh-later name names (n ∷ ns) h =
    let one = has_name-later name names n h.0 in
    let all = Fresh-later name names ns h.1 in ((one.0, all.0), (one.1, all.1))

Fresh-earlier :
    (name : String) (names : List String) (ns : List NetworkSpec)
    → All (λ (m : NetworkSpec). m.name ≢ name) ns
    → Fresh names ns
    → Fresh (name ∷ names) ns
Fresh-earlier name names [] d h = tt
Fresh-earlier name names (n ∷ ns) d h =
    (has_name-earlier name names n d.0 h.0, Fresh-earlier name names ns d.1 h.1)

module _ (ip : NetIp) where
  networks_from-Ok :
      (names : List String) (i : ℕ) (path : FieldPath) (ns : List NetworkSpec)
      → networks_from ip names i path ns ≡ []
      → Fresh names ns × Distinct network_name ns × All (NetworkOk ip) ns
  unfolding networks_from
  networks_from-Ok names i path [] h = (tt, tt, tt)
  networks_from-Ok names i path (n ∷ ns) h =
      let both = append-empty (validate_network ip names (at_index path i) n) _ h in
      let one = (validate_network-Parts ip names (at_index path i) n).0 both.0 in
      let later = networks_from-Ok (n.name ∷ names) (suc i) path ns both.1 in
      let fresh = Fresh-later n.name names ns later.0 in
      (
        (one.0.0.0.0, fresh.1),
        (fresh.0, later.1),
        (Parts-NetworkOk ip names (at_index path i) n one, later.2),
      )

  Ok-networks_from :
      (names : List String) (i : ℕ) (path : FieldPath) (ns : List NetworkSpec)
      → Fresh names ns
      → Distinct network_name ns
      → All (NetworkOk ip) ns
      → networks_from ip names i path ns ≡ []
  unfolding networks_from
  Ok-networks_from names i path [] f d k = refl
  Ok-networks_from names i path (n ∷ ns) f d k =
      append-both (validate_network ip names (at_index path i) n) _
        ((validate_network-Parts ip names (at_index path i) n).1
          (NetworkOk-Parts ip names (at_index path i) n f.0 k.0))
        (Ok-networks_from (n.name ∷ names) (suc i) path ns (Fresh-earlier n.name names ns d.0 f.1)
          d.1 k.1)

  none_seen : (ns : List NetworkSpec) → Fresh [] ns
  unfolding has_name
  none_seen [] = tt
  none_seen (n ∷ ns) = (refl, none_seen ns)

  -- validateNetworks reports no error exactly where no two networks have the same name, and each is
  -- either a network that exists already, by its UUID, without a CIDR and without a gateway, or one
  -- to create, with a CIDR that parses, and with no gateway or one that is in the CIDR.
  pub validate_networks-Ok :
      (ns : List NetworkSpec) (path : FieldPath)
      → (validate_networks ip ns path ≡ []) ↔ (Distinct network_name ns × All (NetworkOk ip) ns)
  unfolding validate_networks
  validate_networks-Ok ns path = (
    λ h. let all = networks_from-Ok [] 0 path ns h in (all.1, all.2),
    λ k. Ok-networks_from [] 0 path ns (none_seen ns) k.0 k.1,
  )

-- A network of the name is in the list.
abbrev pub Named : String → List NetworkSpec → Type 0
Named name [] = ⊥
Named name (n ∷ ns) = (n.name ≡ name) ⊎ Named name ns

-- validateNetworkReference reports no error exactly where a network has the name.
pub validate_network_reference-Named :
    (name : String) (ns : List NetworkSpec) (path : FieldPath)
    → (validate_network_reference name ns path ≡ []) ↔ Named name ns
unfolding validate_network_reference
validate_network_reference-Named name [] path = (λ h. cc, λ k. absurd k)
validate_network_reference-Named name (n ∷ ns) path = elim (Bool-cases (n.name == name)) [
  | inl e ↦ (λ h. inl ((eq_iff n.name name).0 e), λ k. rw e refl)
  | inr e ↦ (
    λ h. inr ((validate_network_reference-Named name ns path).0 (ground arith)),
    λ k. rw e ((validate_network_reference-Named name ns path).1 (later k e)),
  )
]
  where
    later : (n.name ≡ name) ⊎ Named name ns → (n.name == name) ≡ false → Named name ns
    later (inl q) e = ground (arith, eq_iff n.name name)
    later (inr k) e = k
