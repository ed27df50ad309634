-- ===== src/Machine/Requests.antt =====
-- What buildInterfaceRequests asks for.
use cluster_api_provider_clo.Base.{
  String, ◌≡◌, ◌≢◌, refl, items, sym, ◌∙◌, subst, ap, ◌⊎◌, inl, inr, Bool-cases, Option, none, some,
  List, [], ◌∷◌, arith, ◌==◌, eq_iff, is_set, is_set-ne, if◌then◌else◌, ◌↔◌,
}
use cluster_api_provider_clo.Api.Cluster.{NetworkStatus, get_network_status}
use cluster_api_provider_clo.Api.Machine.{InterfaceSpec}
use cluster_api_provider_clo.Sdk.{Answer, reply, failure, ServerInterfaceRequest}
use cluster_api_provider_clo.Machine.Interfaces.{
  interface_type_public, network_request_of, server_interface_request_of, family_after, add_answer,
  default_requests, requests_from, requests_for, build_interface_requests,
}
use cluster_api_provider_clo.Machine.Scope.{MachineScope}

-- The interface is on the network of the entry that the cluster's status has for it.
pub record OnNetwork (networks : List NetworkStatus) (iface : InterfaceSpec) (id : String)
    : Type 0 where
  pub entry : NetworkStatus
  pub named : iface.network ≢ ""
  pub found : get_network_status networks iface.network ≡ some entry
  pub provisioned : entry.network_id ≢ ""
  pub same : id ≡ entry.network_id

-- What an interface of the spec stands for: the public network, or the network that it names.
abbrev pub StandsFor : List NetworkStatus → InterfaceSpec → String → Type 0
StandsFor networks iface id =
    ((iface.type ≡ interface_type_public) × (id ≡ interface_type_public))
    ⊎ ((iface.type ≢ interface_type_public) × OnNetwork networks iface id)

-- One request for each interface, in order, on the network that it stands for.
abbrev pub Resolved : List NetworkStatus → List InterfaceSpec → List ServerInterfaceRequest → Type 0
Resolved networks [] [] = Unit
Resolved networks (i ∷ is) (r ∷ rs) = StandsFor networks i r.network × Resolved networks is rs
Resolved networks _ _ = ⊥

-- The IP family of the last public interface, or `family` where there is none.
abbrev pub last_family : List InterfaceSpec → Option String → Option String
last_family [] family = family
last_family (i ∷ is) family =
    last_family is (if i.type == interface_type_public then i.ip_family else family)

module _ (networks : List NetworkStatus) where
  network_request_of-OnNetwork :
      (iface : InterfaceSpec) (o : Option NetworkStatus) (r : ServerInterfaceRequest)
      → iface.network ≢ ""
      → get_network_status networks iface.network ≡ o
      → network_request_of iface.network o ≡ reply r
      → OnNetwork networks iface r.network
  unfolding network_request_of
  network_request_of-OnNetwork iface none r n e h = cc
  network_request_of-OnNetwork iface (some ns) r n e h = elim (Bool-cases (ns.network_id == "")) [
    | inl z ↦ ground arith
    | inr z ↦ record {
      entry = ns;
      named = n;
      found = e;
      provisioned = λ q. ground (arith, eq_iff ns.network_id "");
      same = ground arith;
    }
  ]

  server_interface_request_of-StandsFor :
      (iface : InterfaceSpec) (r : ServerInterfaceRequest)
      → server_interface_request_of networks iface ≡ reply r
      → StandsFor networks iface r.network
  unfolding server_interface_request_of
  server_interface_request_of-StandsFor iface r h =
      elim (Bool-cases (iface.type == interface_type_public)) [
        | inl p ↦ inl ((eq_iff iface.type interface_type_public).0 p, ground arith)
        | inr p ↦ elim (Bool-cases (is_set iface.network)) [
          | inl n ↦ inr (
            λ q. ground (arith, eq_iff iface.type interface_type_public),
            network_request_of-OnNetwork iface _ r (is_set-ne iface.network n) refl (ground arith),
          )
          | inr n ↦ ground arith
        ]
      ]

  StandsFor-server_interface_request_of :
      (iface : InterfaceSpec) (r : ServerInterfaceRequest)
      → StandsFor networks iface r.network
      → server_interface_request_of networks iface ≡ reply r
  unfolding server_interface_request_of network_request_of
  StandsFor-server_interface_request_of iface r (inl (p, q)) =
      ground (arith, eq_iff iface.type interface_type_public)
  StandsFor-server_interface_request_of iface r (inr (p, on)) = ground (
    arith,
    eq_iff iface.type interface_type_public,
    eq_iff iface.network "",
    eq_iff on.entry.network_id "",
    on.found,
    on.named,
    on.provisioned,
    on.same,
  )

  -- How a turn of the loop succeeds.
  record Turn (a : Answer ServerInterfaceRequest)
      (rest : Answer (List ServerInterfaceRequest × Option String))
      (rs : List ServerInterfaceRequest) (family : Option String) : Type 0 where
    first : ServerInterfaceRequest
    others : List ServerInterfaceRequest
    answered : a ≡ reply first
    went_on : rest ≡ reply (others, family)
    both : rs ≡ first ∷ others

  add_answer-Turn :
      (a : Answer ServerInterfaceRequest)
      (rest : Answer (List ServerInterfaceRequest × Option String))
      (rs : List ServerInterfaceRequest) (family : Option String)
      → add_answer a rest ≡ reply (rs, family)
      → Turn a rest rs family
  add_answer-Turn (reply r) (reply (qs, f)) rs family h = record {
    first = r;
    others = qs;
    answered = refl;
    went_on = ground arith;
    both = ground arith;
  }
  add_answer-Turn (reply r) (failure e) rs family h = cc
  add_answer-Turn (failure e) rest rs family h = cc

  requests_from-Resolved :
      (specs : List InterfaceSpec) (f : Option String) (rs : List ServerInterfaceRequest)
      (family : Option String)
      → requests_from networks specs f ≡ reply (rs, family)
      → Resolved networks specs rs × (family ≡ last_family specs f)
  unfolding requests_from family_after
  requests_from-Resolved [] f [] family h = (tt, ground arith)
  requests_from-Resolved [] f (r ∷ rs) family h = ground arith
  requests_from-Resolved (i ∷ is) f rs family h =
      let t = add_answer-Turn (server_interface_request_of networks i) _ rs family h in
      let later = requests_from-Resolved is (family_after i f) t.others family t.went_on in
      (
        subst (Resolved networks (i ∷ is)) (sym t.both)
            (server_interface_request_of-StandsFor i t.first t.answered, later.0),
        later.1,
      )

  Resolved-requests_from :
      (specs : List InterfaceSpec) (f : Option String) (rs : List ServerInterfaceRequest)
      → Resolved networks specs rs
      → requests_from networks specs f ≡ reply (rs, last_family specs f)
  unfolding requests_from family_after
  Resolved-requests_from [] f [] h = refl
  Resolved-requests_from [] f (r ∷ rs) h = absurd h
  Resolved-requests_from (i ∷ is) f [] h = absurd h
  Resolved-requests_from (i ∷ is) f (r ∷ rs) h =
      rw
        (
          StandsFor-server_interface_request_of i r h.0,
          Resolved-requests_from is (family_after i f) rs h.1,
        )
        refl

  -- What a list of requests has to be: the public network and the cluster's first one, where the spec
  -- has no interfaces, and else one request for each interface.
  abbrev pub FirstNetwork :
      List NetworkStatus → List ServerInterfaceRequest → Option String → Type 0
  FirstNetwork [] rs family = ⊥
  FirstNetwork (first ∷ rest) rs family =
      (rs ≡ record { network = "public" } ∷ record { network = first.network_id } ∷ [])
      × (family ≡ none)

  default_requests-FirstNetwork :
      (ns : List NetworkStatus) (rs : List ServerInterfaceRequest) (family : Option String)
      → (default_requests ns ≡ reply (rs, family)) ↔ FirstNetwork ns rs family
  unfolding default_requests
  default_requests-FirstNetwork [] rs family = (λ h. cc, λ h. absurd h)
  default_requests-FirstNetwork (first ∷ rest) rs family =
      (λ h. (ground arith, ground arith), λ h. rw (h.0, h.1) refl)

  abbrev pub Requested : List InterfaceSpec → List ServerInterfaceRequest → Option String → Type 0
  Requested [] rs family = FirstNetwork networks rs family
  Requested (i ∷ is) rs family =
      Resolved networks (i ∷ is) rs × (family ≡ last_family (i ∷ is) none)

  specs-Requested :
      (specs : List InterfaceSpec) (rs : List ServerInterfaceRequest) (family : Option String)
      → (requests_for networks specs ≡ reply (rs, family)) ↔ Requested specs rs family
  unfolding requests_for
  specs-Requested [] rs family = default_requests-FirstNetwork networks rs family
  specs-Requested (i ∷ is) rs family = (
    λ h. requests_from-Resolved (i ∷ is) none rs family h,
    λ h. Resolved-requests_from (i ∷ is) none rs h.0 ∙ ap (λ f. reply (rs, f)) (sym h.1),
  )

module _ {W : Type 0} where
  -- buildInterfaceRequests returns a list of requests exactly where this holds of it. Where the spec
  -- has no interfaces: the cluster's status has a network, the list has one request for the public
  -- network and one for the first network of the status, and there is no IP family. Where the spec has
  -- interfaces: each of them stands for a network, the list has, in order, one request for each of
  -- them, and the IP family is that of the last public interface.
  pub build_interface_requests-Requested :
      (s : MachineScope W) (rs : List ServerInterfaceRequest) (family : Option String)
      → (build_interface_requests s ≡ reply (rs, family))
        ↔ Requested s.cloudscale_cluster.status.networks
            (items s.cloudscale_machine.spec.interfaces)
            rs
            family
  unfolding build_interface_requests
  build_interface_requests-Requested s rs family =
      specs-Requested s.cloudscale_cluster.status.networks
        (items s.cloudscale_machine.spec.interfaces) rs family
