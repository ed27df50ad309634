-- ===== src/Network/Discovered.antt =====
-- What the discovery of a pre-existing network leaves in the status.
use cluster_api_provider_clo.Base.{
  String, ◌≡◌, sym, ap, ◌∙◌, true, false, Option, none, some, List, [], ◌∷◌, arith, ◌==◌,
  if◌then◌else◌, is_set, All,
}
use cluster_api_provider_clo.Api.Cluster.{NetworkSpec, NetworkStatus, get_network_status}
use cluster_api_provider_clo.Sdk.{SubnetStub, Network, Answer, reply, failure}
use cluster_api_provider_clo.Scope.{Scope, Env, ◌>>=◌, pure, gets, or_wrap}
use cluster_api_provider_clo.Network.Adopted.{
  record_discovered, check_zone, discover_network, reconcile_pre_existing_network,
}
use cluster_api_provider_clo.Network.Entries.{HasIds}
use cluster_api_provider_clo.Network.Status.{set_network_status, is_discovered, networks_of}
use cluster_api_provider_clo.Network.Written.{
  ReplyHas, ReturnsIds, IsWritten, Advances, IsWritten-Advances,
}
use cluster_api_provider_clo.Go.Post.{Gives, ok-injective, Gives-bind, Gives-if}

abbrev HasUuids : Network → Type 0
HasUuids n = (is_set n.uuid ≡ true) × All (λ (t : SubnetStub). is_set t.uuid ≡ true) n.subnets

module _ {W : Type 0} (env : Env W) (ids : ReturnsIds env.client) (N : List NetworkStatus) where
  abbrev Same : Scope W → Type 0
  Same s = networks_of s ≡ N

  record_discovered-IsWritten :
      (net_spec : NetworkSpec) (n : Network) (subnets : List SubnetStub)
      → is_set n.uuid ≡ true
      → All (λ (t : SubnetStub). is_set t.uuid ≡ true) subnets
      → Gives Same
          (record_discovered env net_spec n subnets)
          (λ _ s. IsWritten net_spec.name N (networks_of s))
  unfolding record_discovered
  record_discovered-IsWritten net_spec n [] hn hs = record { at = λ s a p h. cc }
  record_discovered-IsWritten net_spec n (t ∷ rest) hn hs = record {
    at = λ s a p h. record {
      network_id = n.uuid;
      subnet_id = t.uuid;
      cidr = t.cidr;
      managed = false;
      mtu = n.mtu;
      written = ap (set_network_status net_spec.name n.uuid t.uuid t.cidr false n.mtu) p;
      has_network = hn;
      has_subnet = hs.0;
    };
  }

  check_zone-IsWritten :
      (net_spec : NetworkSpec) (n : Network) (zone : String)
      → HasUuids n
      → Gives Same
          (check_zone env net_spec n zone)
          (λ _ s. IsWritten net_spec.name N (networks_of s))
  unfolding check_zone
  check_zone-IsWritten net_spec n zone h =
      Gives-if (n.zone == zone) (λ _. record_discovered-IsWritten net_spec n n.subnets h.0 h.1)
        (λ _. record { at = λ s a p e. cc })

  replied-IsWritten :
      (net_spec : NetworkSpec) (context : String) (answer : Answer Network)
      → ReplyHas HasUuids answer
      → Gives Same
          (or_wrap context answer >>= λ n.
            gets (λ s. s.cluster.spec.zone) >>= check_zone env net_spec n)
          (λ _ s. IsWritten net_spec.name N (networks_of s))
  unfolding ◌>>=◌
  replied-IsWritten net_spec context (reply n) h = record {
    at = λ s a p e. (check_zone-IsWritten net_spec n s.cluster.spec.zone h).at s a p e;
  }
  replied-IsWritten net_spec context (failure f) h = record { at = λ s a p e. cc }

  discover_network-IsWritten :
      (net_spec : NetworkSpec)
      → Gives Same
          (discover_network env net_spec)
          (λ _ s. IsWritten net_spec.name N (networks_of s))
  unfolding discover_network ◌>>=◌
  discover_network-IsWritten net_spec = record {
    at = λ s a p h.
        (replied-IsWritten net_spec _ _ (ids.got_network net_spec.uuid s.world)).at _ a p h;
  }

  is_discovered-HasIds : (o : Option NetworkStatus) → is_discovered o ≡ true → HasIds o
  is_discovered-HasIds none h = cc
  is_discovered-HasIds (some ns) h = ground arith

  known-Advances :
      (net_spec : NetworkSpec)
      → is_discovered (get_network_status N net_spec.name) ≡ true
      → Advances net_spec.name N N
  known-Advances net_spec d = record { provisioned = is_discovered-HasIds _ d; keeps = λ j h. h }

  abbrev Found : NetworkSpec → Option NetworkStatus → Scope W → Type 0
  Found net_spec ns s = (networks_of s ≡ N) × (ns ≡ get_network_status N net_spec.name)

  Found-Advances :
      (net_spec : NetworkSpec) (ns : Option NetworkStatus)
      → Gives
          (Found net_spec ns)
          (if is_discovered ns then pure tt else discover_network env net_spec)
          (λ _ s. Advances net_spec.name N (networks_of s))
  Found-Advances net_spec ns =
      Gives-if (is_discovered ns)
        (λ d. record { at = λ s a p h. rw p.0 (known-Advances net_spec (rw p.1 at d)) })
        (λ _. record {
          at = λ s a p h.
              IsWritten-Advances net_spec.name N _
                ((discover_network-IsWritten net_spec).at s a p.0 h);
        })

  pub reconcile_pre_existing_network-Advances :
      (net_spec : NetworkSpec)
      → Gives Same
          (reconcile_pre_existing_network env net_spec)
          (λ _ s. Advances net_spec.name N (networks_of s))
  unfolding reconcile_pre_existing_network
  reconcile_pre_existing_network-Advances net_spec =
      Gives-bind (Found net_spec)
        (record {
          at = λ s a p h.
              (p, sym (ok-injective _ a h) ∙ ap (λ ns. get_network_status ns net_spec.name) p);
        })
        (Found-Advances net_spec)
