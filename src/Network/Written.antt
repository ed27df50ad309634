-- ===== src/Network/Written.antt =====
-- What a reconcile of one network leaves in the status when it returns without a requeue.
use cluster_api_provider_clo.Base.{
  ℕ, String, ◌≡◌, ap, ◌∙◌, Bool, true, false, Option, none, some, List, arith, ◌<>◌, is_set, All,
}
use cluster_api_provider_clo.Api.Cluster.{
  NetworkSpec, NetworkStatus, CloudscaleCluster, get_network_status,
}
use cluster_api_provider_clo.Sdk.{
  TagMap, SubnetStub, Network, Subnet, NetworkCreateRequest, SubnetCreateRequest, Answer, reply,
  failure, GetListService, Client, Resource,
}
use cluster_api_provider_clo.Scope.{
  Scope, Env, ok, CtrlResult, is_zero, Flow, return_early, proceed, then_with,
}
use cluster_api_provider_clo.Services.{ensure_resource}
use cluster_api_provider_clo.Network.Entries.{
  IsProvisioned, set_network_status-IsProvisioned, set_network_status_keeps,
}
use cluster_api_provider_clo.Network.Managed.{
  network_create_request, resolve_network, subnet_create_request, resolve_subnet, record_managed,
  reconcile_subnet, reconcile_managed_network,
}
use cluster_api_provider_clo.Network.Status.{
  set_network_status, id_of, subnet_of, networks_of, network_tags,
}
use cluster_api_provider_clo.Services.Ensure.{cluster-ensure_resource}
use cluster_api_provider_clo.Go.Post.{Gives, Gives-bind, Gives-gets}

-- What an answer promises of its value.
abbrev pub ReplyHas : {A : Type 0} → (A → Type 0) → Answer A → Type 0
ReplyHas P (reply a) = P a
ReplyHas P (failure e) = Unit

-- The services return networks and subnets with IDs.
pub record ReturnsIds {W : Type 0} (client : Client W) : Type 0 where
  pub got_network :
      (id : String) (w : W)
      → ReplyHas
          (λ n. (is_set n.uuid ≡ true) × All (λ (t : SubnetStub). is_set t.uuid ≡ true) n.subnets)
          (client.networks.get id w).0
  pub created_network :
      (req : NetworkCreateRequest) (w : W)
      → ReplyHas (λ n. is_set n.uuid ≡ true) (client.create_network req w).0
  pub created_subnet :
      (req : SubnetCreateRequest) (w : W)
      → ReplyHas (λ n. is_set n.uuid ≡ true) (client.create_subnet req w).0

-- `after` is `before` with both IDs written under the name.
pub record IsWritten (name : String) (before after : List NetworkStatus) : Type 0 where
  pub network_id : String
  pub subnet_id : String
  pub cidr : String
  pub managed : Bool
  pub mtu : ℕ
  pub written : after ≡ set_network_status name network_id subnet_id cidr managed mtu before
  pub has_network : is_set network_id ≡ true
  pub has_subnet : is_set subnet_id ≡ true

-- The network is provisioned, and so is every other one that was.
pub record Advances (name : String) (before after : List NetworkStatus) : Type 0 where
  pub provisioned : IsProvisioned name after
  pub keeps : (j : String) → IsProvisioned j before → IsProvisioned j after

pub IsWritten-Advances :
    (name : String) (before after : List NetworkStatus)
    → IsWritten name before after
    → Advances name before after
IsWritten-Advances name before after w = record {
  provisioned = rw w.written (
      set_network_status-IsProvisioned name w.network_id w.subnet_id w.cidr w.managed w.mtu before
        w.has_network w.has_subnet);
  keeps = λ j h. rw w.written (
      set_network_status_keeps name w.network_id w.subnet_id w.cidr w.managed w.mtu before j
        w.has_network w.has_subnet h);
}

module _ {W : Type 0} (env : Env W) (ids : ReturnsIds env.client) (N : List NetworkStatus) where
  abbrev pub Same : Scope W → Type 0
  Same s = networks_of s ≡ N

  abbrev SameId : Flow (Option Network × String) → Scope W → Type 0
  SameId (proceed (found, id)) s = (networks_of s ≡ N) × (is_set id ≡ true)
  SameId (return_early r) s = is_zero r ≡ false

  abbrev SameSubnet : Flow String → Scope W → Type 0
  SameSubnet (proceed id) s = (networks_of s ≡ N) × (is_set id ≡ true)
  SameSubnet (return_early r) s = is_zero r ≡ false

  abbrev pub Ends : String → CtrlResult → Scope W → Type 0
  Ends name r s = is_zero r ≡ true → IsWritten name N (networks_of s)

  resolve_network-SameId :
      (net_spec : NetworkSpec) (tags : TagMap) (found : Option Network) (id : String) (s : Scope W)
      (flow : Flow (Option Network × String))
      → Same s
      → (resolve_network env net_spec tags (found, id) s).0 ≡ ok flow
      → SameId flow (resolve_network env net_spec tags (found, id) s).1
  unfolding resolve_network
  resolve_network-SameId net_spec tags found id s (proceed (f, i)) p h =
      ground (arith, ids.created_network (network_create_request env s net_spec tags) s.world)
  resolve_network-SameId net_spec tags found id s (return_early r) p h = ground arith

  resolve_subnet-SameSubnet :
      (net_spec : NetworkSpec) (tags : TagMap) (network_id id : String) (s : Scope W)
      (flow : Flow String)
      → Same s
      → (resolve_subnet env net_spec tags network_id id s).0 ≡ ok flow
      → SameSubnet flow (resolve_subnet env net_spec tags network_id id s).1
  unfolding resolve_subnet
  resolve_subnet-SameSubnet net_spec tags network_id id s (proceed i) p h =
      ground
        (arith, ids.created_subnet (subnet_create_request env net_spec tags network_id) s.world)
  resolve_subnet-SameSubnet net_spec tags network_id id s (return_early r) p h = ground arith

  record_managed-Ends :
      (net_spec : NetworkSpec) (found : Option Network) (network_id subnet_id : String)
      (s : Scope W) (r : CtrlResult)
      → Same s
      → is_set network_id ≡ true
      → is_set subnet_id ≡ true
      → (record_managed env net_spec found network_id subnet_id s).0 ≡ ok r
      → Ends net_spec.name r (record_managed env net_spec found network_id subnet_id s).1
  unfolding record_managed
  record_managed-Ends net_spec none network_id subnet_id s r p hn hs h z = cc
  record_managed-Ends net_spec (some n) network_id subnet_id s r p hn hs h z = record {
    network_id = network_id;
    subnet_id = subnet_id;
    cidr = net_spec.cidr;
    managed = true;
    mtu = n.mtu;
    written = ap (set_network_status net_spec.name network_id subnet_id net_spec.cidr true n.mtu) p;
    has_network = hn;
    has_subnet = hs;
  }

  after_subnet-Ends :
      (net_spec : NetworkSpec) (found : Option Network) (network_id : String)
      → is_set network_id ≡ true
      → (flow : Flow String)
      → Gives
          (SameSubnet flow)
          (then_with flow λ subnet_id. record_managed env net_spec found network_id subnet_id)
          (Ends net_spec.name)
  after_subnet-Ends net_spec found network_id hn (proceed id) = record {
    at = λ s r p h. record_managed-Ends net_spec found network_id id s r p.0 hn p.1 h;
  }
  after_subnet-Ends net_spec found network_id hn (return_early result) = record {
    at = λ s r p h z. cc;
  }

  Gives-ensure_resource :
      {T : Type 0} (kind : Resource) (id name : String) (svc : GetListService W T)
      (uuid : T → String) (tags : TagMap)
      → Gives Same (ensure_resource kind id name svc uuid tags) (λ _. Same)
  Gives-ensure_resource kind id name svc uuid tags = record {
    at = λ s a p h.
        ap (λ (c : CloudscaleCluster). c.status.networks)
          (cluster-ensure_resource kind name svc uuid tags id s)
        ∙ p;
  }

  reconcile_subnet-Ends :
      (net_spec : NetworkSpec) (ns : Option NetworkStatus) (tags : TagMap) (found : Option Network)
      (network_id : String)
      → is_set network_id ≡ true
      → Gives Same (reconcile_subnet env net_spec ns tags (found, network_id)) (Ends net_spec.name)
  unfolding reconcile_subnet
  reconcile_subnet-Ends net_spec ns tags found network_id hn =
      Gives-bind (λ _. Same)
        (Gives-ensure_resource Resource.subnet (subnet_of ns) ("subnet/" <> net_spec.name)
          env.client.subnets (λ subnet. subnet.uuid) tags)
        (λ (a : Option Subnet × String).
          Gives-bind SameSubnet
            (record { at = resolve_subnet-SameSubnet net_spec tags network_id a.1 })
            (after_subnet-Ends net_spec found network_id hn))

  after_network-Ends :
      (net_spec : NetworkSpec) (ns : Option NetworkStatus) (tags : TagMap)
      (flow : Flow (Option Network × String))
      → Gives
          (SameId flow)
          (then_with flow (reconcile_subnet env net_spec ns tags))
          (Ends net_spec.name)
  after_network-Ends net_spec ns tags (proceed (found, id)) = record {
    at = λ s r p h. (reconcile_subnet-Ends net_spec ns tags found id p.1).at s r p.0 h;
  }
  after_network-Ends net_spec ns tags (return_early result) = record { at = λ s r p h z. cc }

  pub reconcile_managed_network-Ends :
      (net_spec : NetworkSpec)
      → Gives Same (reconcile_managed_network env net_spec) (Ends net_spec.name)
  unfolding reconcile_managed_network
  reconcile_managed_network-Ends net_spec =
      Gives-bind (λ _. Same) (Gives-gets (λ s. get_network_status (networks_of s) net_spec.name))
        (λ ns.
          Gives-bind (λ _. Same) (Gives-gets (λ s. network_tags s net_spec.name))
            (λ tags.
              Gives-bind (λ _. Same)
                (Gives-ensure_resource Resource.network (id_of ns) ("network/" <> net_spec.name)
                  env.client.networks (λ net. net.uuid) tags)
                (λ (found : Option Network × String).
                  Gives-bind SameId
                    (record { at = resolve_network-SameId net_spec tags found.0 found.1 })
                    (after_network-Ends net_spec ns tags))))
